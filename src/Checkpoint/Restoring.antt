-- ===== src/Checkpoint/Restoring.antt =====
-- All ranks save without replication, then search and load: the whole of
-- checkpointing/local/ckpt_managers/base_manager.py over local_manager.py.
use nvidia_resiliency_ext_x.Prelude.{
  ℕ, Bool, true, false, not, ◌&&◌, ◌||◌, ◌≡◌, refl, sym, subst, ap, ◌∙◌, Option, none, some, List,
  String, All, All-mono, arith, ltb,
}
use nvidia_resiliency_ext_x.Prelude.Eq.{◌==◌, eq_self, number_keys, text_keys}
use nvidia_resiliency_ext_x.Prelude.Dict.{get, has, get-put, has-put}
use nvidia_resiliency_ext_x.Prelude.Keys.{contains, All-at_contained}
use nvidia_resiliency_ext_x.Prelude.Integers.{ℤ, pos}
use nvidia_resiliency_ext_x.Prelude.Method.{Exceptional, ok}
use nvidia_resiliency_ext_x.Checkpoint.Directory.{
  CkptId, ckpt_file, file_keys, CkptError, Manager, fits_template, load_file,
}
use nvidia_resiliency_ext_x.Checkpoint.Manager.{find_latest}
use nvidia_resiliency_ext_x.Checkpoint.Operations.{save, load, load_shard, load_fn}
use nvidia_resiliency_ext_x.Checkpoint.Coverage.{IsOfSession}
use nvidia_resiliency_ext_x.Checkpoint.Latest.{latest_of, after_search, find_latest-eq_ok}
use nvidia_resiliency_ext_x.Checkpoint.Files.{has-unlink_if, get-unlink_if}
use nvidia_resiliency_ext_x.Checkpoint.Gathering.{
  gathered_from, IsMember, gathered_from-IsOfSession, latest_of-ge, latest_of-eq,
}
use nvidia_resiliency_ext_x.Checkpoint.Saving.{
  IsReady, written, write_shard, write_shard-eq_ok, finished, save-eq_ok,
}

module _ {Bytes D : Type 0} (torch_load : Bytes → Option D) (restore : D → D) where
  load-eq_ok :
      (i : ℕ) (m : Manager Bytes) (b : Bytes) (x : D)
      → m.latest_iteration ≡ pos i
      → fits_template i ≡ true
      → get (ckpt_file i m.rank false) m.files ≡ some b
      → torch_load b ≡ some x
      → load none torch_load restore m
        ≡ (ok (restore x, record { iteration = i; rank = m.rank; session = m.session_id }), m)
  unfolding load load_shard load_fn load_file
  load-eq_ok i m b x latest fits there reads =
      rw (latest, eq_self m.session_id, fits, there, reads) refl

module _ {Bytes D : Type 0} (to_cpu : D → D) (torch_save : D → Bytes × Bool)
    (torch_load : Bytes → Option D) (restore : D → D)
    (readable : (x : D) → torch_load (torch_save x).0 ≡ some x) (session : String) (ranks : List ℕ)
    (world : ℕ → Manager Bytes) (state_dict : ℕ → D) (iteration : ℕ) where
  -- The managers at the barrier, what is gathered then, and the managers after the save.
  abbrev pub world_at_barrier : ℕ → Manager Bytes
  world_at_barrier r = (write_shard to_cpu torch_save iteration (world r) (state_dict r)).1

  abbrev pub gathered_at_barrier : List (List CkptId)
  gathered_at_barrier = gathered_from world_at_barrier ranks

  abbrev pub world_after : ℕ → Manager Bytes
  world_after r =
      (save to_cpu none torch_save ranks (λ _. gathered_at_barrier) (state_dict r) iteration
        (world r)).1

  abbrev pub IsMemberReady : ℕ → Type 0
  IsMemberReady r =
      IsMember session world r × IsReady to_cpu torch_save iteration (world r) (state_dict r)

  module _ (members : All IsMemberReady ranks) where
    at_barrier-eq :
        (r : ℕ)
        → IsMemberReady r
        → world_at_barrier r ≡ written to_cpu torch_save iteration (world r) (state_dict r)
    at_barrier-eq r (member, ready) =
        ap (λ p. p.1) (write_shard-eq_ok to_cpu torch_save iteration (world r) (state_dict r) ready)

    at_barrier-IsMember : All (IsMember session world_at_barrier) ranks
    at_barrier-IsMember = All-mono ranks one members
      where
        one : (r : ℕ) → IsMemberReady r → IsMember session world_at_barrier r
        one r m =
            let e = at_barrier-eq r m in
            record {
              in_place = ap (λ w. w.rank) e ∙ m.0.in_place;
              unreplicated = ap (λ w. w.replicated) e ∙ m.0.unreplicated;
              of_session = ap (λ w. w.session_id) e ∙ m.0.of_session;
            }

    at_barrier-saved :
        All (λ r. has (ckpt_file iteration r false) (world_at_barrier r).files ≡ true) ranks
    at_barrier-saved = All-mono ranks one members
      where
        one :
            (r : ℕ)
            → IsMemberReady r
            → has (ckpt_file iteration r false) (world_at_barrier r).files ≡ true
        one r m =
            ap (λ (w : Manager Bytes). has (ckpt_file iteration r false) w.files)
              (at_barrier-eq r m)
            ∙ has-put (ckpt_file iteration r false) (ckpt_file iteration (world r).rank false)
                (torch_save (to_cpu (state_dict r))).0 (world r).files
            ∙ ground (arith, m.0.in_place, eq_self (ckpt_file iteration r false))

    module _ (newest : ℕ) (in_group : contains newest ranks ≡ true)
        (no_later : (j : ℕ)
          → ltb iteration j ≡ true
          → has (ckpt_file j newest false) (world newest).files ≡ false) where
      after-eq :
          (r : ℕ)
          → IsMemberReady r
          → save to_cpu none torch_save ranks
              (λ _. gathered_at_barrier)
              (state_dict r)
              iteration
              (world r)
            ≡ (
              ok tt,
              finished to_cpu torch_save iteration ranks gathered_at_barrier
                  (world r)
                  (state_dict r),
            )
      after-eq r (member, ready) =
          save-eq_ok to_cpu torch_save iteration ranks gathered_at_barrier (world r) (state_dict r)
            ready
            (subst (λ s. All (All (IsOfSession s)) gathered_at_barrier) (sym member.of_session)
              (gathered_from-IsOfSession session world_at_barrier ranks at_barrier-IsMember))
            (latest_of-ge session world_at_barrier ranks at_barrier-IsMember newest in_group
              iteration at_barrier-saved)

      after-IsMember : All (IsMember session world_after) ranks
      after-IsMember = All-mono ranks one members
        where
          one : (r : ℕ) → IsMemberReady r → IsMember session world_after r
          one r m =
              let e = ap (λ p. p.1) (after-eq r m) in
              record {
                in_place = ap (λ w. w.rank) e ∙ m.0.in_place;
                unreplicated = ap (λ w. w.replicated) e ∙ m.0.unreplicated;
                of_session = ap (λ w. w.session_id) e ∙ m.0.of_session;
              }

      -- The files of a rank after the save.
      has-after :
          (r j : ℕ)
          → IsMemberReady r
          → has (ckpt_file j r false) (world_after r).files ≡ (
              not (ltb j iteration)
              && ((iteration == j) || has (ckpt_file j r false) (world r).files))
      has-after r j m =
          ap
            (λ (w : Exceptional CkptError (Unit {0}) × Manager Bytes).
              has (ckpt_file j r false) w.1.files)
            (after-eq r m)
          ∙ has-unlink_if j r false (λ i. ltb i iteration)
              (written to_cpu torch_save iteration (world r) (state_dict r)).files
          ∙ ground (
            arith,
            has-put (ckpt_file j r false) (ckpt_file iteration (world r).rank false)
                (torch_save (to_cpu (state_dict r))).0 (world r).files,
            m.0.in_place,
          )

      after-saved : All (λ r. has (ckpt_file iteration r false) (world_after r).files ≡ true) ranks
      after-saved = All-mono ranks (λ r m. has-after r iteration m ∙ ground arith) members

      found-eq : latest_of ranks (gathered_from world_after ranks) ≡ pos iteration
      found-eq =
          latest_of-eq session world_after ranks after-IsMember newest in_group iteration
            after-saved
            (λ j later.
              has-after newest j (All-at_contained IsMemberReady newest ranks members in_group)
              ∙ ground (arith, no_later j later))

      get-finished :
          (m : Manager Bytes) (x : D)
          → get
              (ckpt_file iteration m.rank false)
              (finished to_cpu torch_save iteration ranks gathered_at_barrier m x).files
            ≡ some (torch_save (to_cpu x)).0
      get-finished m x =
          get-unlink_if iteration m.rank false (λ i. ltb i iteration)
            (written to_cpu torch_save iteration m x).files
          ∙ ground (
            arith,
            get-put (ckpt_file iteration m.rank false) (ckpt_file iteration m.rank false)
                (torch_save (to_cpu x)).0 m.files,
            eq_self (ckpt_file iteration m.rank false),
          )

      -- Let torch.load read what torch.save has written, every rank of a group without replication
      -- be ready to save a checkpoint of this iteration, and some rank have no later checkpoint.
      -- Then the save of every rank returns; a search after it finds this iteration; and the load
      -- after the search returns the state dict that the rank has saved, moved to the CPU and back,
      -- with the rank's id.
      pub load-save :
          (r : ℕ)
          → contains r ranks ≡ true
          → (found : Manager Bytes) × (own : CkptId) × (save to_cpu none torch_save ranks
                (λ _. gathered_at_barrier)
                (state_dict r)
                iteration
                (world r)
              ≡ (ok tt, world_after r))
            × (find_latest ranks (λ _. gathered_from world_after ranks) (world_after r)
                ≡ (ok (pos iteration), found))
            × (load none torch_load restore found
                ≡ (ok (restore (to_cpu (state_dict r)), own), found))
            × (own ≡ record { iteration = iteration; rank = r; session = session })
      load-save r there =
          let m = All-at_contained IsMemberReady r ranks members there in
          let gathered = gathered_from world_after ranks in
          let done =
            finished to_cpu torch_save iteration ranks gathered_at_barrier (world r)
              (state_dict r) in
          let e : world_after r ≡ done = ap (λ p. p.1) (after-eq r m) in
          let same_session =
            subst (λ s. All (All (IsOfSession s)) gathered) (sym m.0.of_session)
              (gathered_from-IsOfSession session world_after ranks after-IsMember) in
          (
            after_search ranks gathered done,
            record { iteration = iteration; rank = (world r).rank; session = (world r).session_id },
            after-eq r m ∙ ap (λ (w : Manager Bytes). (ok tt, w)) (sym e),
            ap (λ (w : Manager Bytes). find_latest ranks (λ _. gathered) w) e
                ∙ find_latest-eq_ok ranks (λ _. gathered) done refl same_session
                ∙ ap (λ (v : ℤ). (ok v, after_search ranks gathered done)) found-eq,
            load-eq_ok torch_load restore iteration (after_search ranks gathered done)
                (torch_save (to_cpu (state_dict r))).0 (to_cpu (state_dict r)) found-eq m.1.fits
                (get-finished (world r) (state_dict r)) (readable (to_cpu (state_dict r))),
            ap (λ q. record { iteration = iteration; rank = q; session = (world r).session_id })
                  m.0.in_place
                ∙ ap (λ q. record { iteration = iteration; rank = r; session = q }) m.0.of_session,
          )
