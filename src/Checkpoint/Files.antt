-- ===== src/Checkpoint/Files.antt =====
-- What the methods of checkpointing/local/ckpt_managers/local_manager.py do to the files of a
-- directory, and which checkpoints it offers.
use nvidia_resiliency_ext_x.Prelude.{
  ℕ, Bool, true, false, not, ◌&&◌, ◌||◌, ◌≡◌, refl, ap, none, List, [], ◌∷◌, String, All, arith,
  if◌then◌else◌,
}
use nvidia_resiliency_ext_x.Prelude.Eq.{◌==◌, ==_iff, eq_self, number_keys, text_keys}
use nvidia_resiliency_ext_x.Prelude.Dict.{Dict, get, has, put, without-put}
use nvidia_resiliency_ext_x.Prelude.Method.{ok}
use nvidia_resiliency_ext_x.Checkpoint.Directory.{
  CkptId, FileName, ckpt_file, other_file, file_keys, Manager, fits_template, ids_of, my_ckpt_ids,
  save_file, unlink_if,
}
use nvidia_resiliency_ext_x.Checkpoint.Manager.{own_ids, offered}
use nvidia_resiliency_ext_x.Checkpoint.Coverage.{mentions, IsOfSession}

mentions-own_ids :
    (i r rank : ℕ) (ids : List CkptId)
    → mentions i r (own_ids rank ids) ≡ ((rank == r) && mentions i r ids)
unfolding mentions own_ids
mentions-own_ids i r rank [] = ground arith
mentions-own_ids i r rank (c ∷ ids) =
    ground
      (arith, mentions-own_ids i r rank ids, ==_iff c.rank rank, ==_iff c.rank r, ==_iff rank r)

own_ids-IsOfSession :
    (session : String) (rank : ℕ) (ids : List CkptId)
    → All (IsOfSession session) ids
    → All (IsOfSession session) (own_ids rank ids)
unfolding own_ids
own_ids-IsOfSession session rank [] h = tt
own_ids-IsOfSession session rank (c ∷ ids) (p, h) =
    ground (arith, own_ids-IsOfSession session rank ids h)

module _ {Bytes : Type 0} where
  mentions-ids_of :
      (i r : ℕ) (session : String) (files : Dict FileName Bytes)
      → mentions i r (ids_of session files) ≡ has (ckpt_file i r false) files
  unfolding mentions ids_of has
  mentions-ids_of i r session [] = refl
  mentions-ids_of i r session ((ckpt_file j q false, b) ∷ files) =
      ground (arith, mentions-ids_of i r session files)
  mentions-ids_of i r session ((ckpt_file j q true, b) ∷ files) =
      ground (arith, mentions-ids_of i r session files)
  mentions-ids_of i r session ((other_file name, b) ∷ files) =
      ground (arith, mentions-ids_of i r session files)

  -- A rank offers the finished files of its directory, without replication only its own.
  pub mentions-offered :
      (i r : ℕ) (m : Manager Bytes)
      → mentions i r (offered m)
        ≡ ((m.replicated || (m.rank == r)) && has (ckpt_file i r false) m.files)
  unfolding offered my_ckpt_ids
  mentions-offered i r m = ground (
    arith,
    mentions-ids_of i r m.session_id m.files,
    mentions-own_ids i r m.rank (ids_of m.session_id m.files),
  )

  ids_of-IsOfSession :
      (session : String) (files : Dict FileName Bytes)
      → All (IsOfSession session) (ids_of session files)
  unfolding ids_of
  ids_of-IsOfSession session [] = tt
  ids_of-IsOfSession session ((ckpt_file j q false, b) ∷ files) =
      (eq_self session, ids_of-IsOfSession session files)
  ids_of-IsOfSession session ((ckpt_file j q true, b) ∷ files) = ids_of-IsOfSession session files
  ids_of-IsOfSession session ((other_file name, b) ∷ files) = ids_of-IsOfSession session files

  pub offered-IsOfSession : (m : Manager Bytes) → All (IsOfSession m.session_id) (offered m)
  unfolding offered my_ckpt_ids
  offered-IsOfSession m = ground (
    arith,
    ids_of-IsOfSession m.session_id m.files,
    own_ids-IsOfSession m.session_id m.rank (ids_of m.session_id m.files)
        (ids_of-IsOfSession m.session_id m.files),
  )

  -- A clean-up takes the files of the old iterations, finished or not, of every rank.
  pub get-unlink_if :
      (i r : ℕ) (d : Bool) (is_old : ℕ → Bool) (files : Dict FileName Bytes)
      → get (ckpt_file i r d) (unlink_if is_old files)
        ≡ (if is_old i then none else get (ckpt_file i r d) files)
  unfolding get unlink_if
  get-unlink_if i r d is_old [] = ground arith
  get-unlink_if i r d is_old ((ckpt_file j q e, b) ∷ files) =
      ground (arith, get-unlink_if i r d is_old files, ==_iff j i)
  get-unlink_if i r d is_old ((other_file name, b) ∷ files) =
      ground (arith, get-unlink_if i r d is_old files)

  pub has-unlink_if :
      (i r : ℕ) (d : Bool) (is_old : ℕ → Bool) (files : Dict FileName Bytes)
      → has (ckpt_file i r d) (unlink_if is_old files)
        ≡ (not (is_old i) && has (ckpt_file i r d) files)
  unfolding has unlink_if
  has-unlink_if i r d is_old [] = ground arith
  has-unlink_if i r d is_old ((ckpt_file j q e, b) ∷ files) =
      ground (arith, has-unlink_if i r d is_old files, ==_iff j i)
  has-unlink_if i r d is_old ((other_file name, b) ∷ files) =
      ground (arith, has-unlink_if i r d is_old files)

  module _ {D : Type 0} (torch_save : D → Bytes × Bool) where
    -- A checkpoint is written under its final name, unless one of the same name is being written.
    pub save_file-eq_ok :
        (d : D) (k : CkptId) (m : Manager Bytes)
        → (k.session == m.session_id) ≡ true
        → fits_template k.iteration ≡ true
        → has (ckpt_file k.iteration k.rank true) m.files ≡ false
        → (torch_save d).1 ≡ true
        → save_file torch_save d k m ≡ (
          ok tt,
          record m { files = put (ckpt_file k.iteration k.rank false) (torch_save d).0 m.files },
        )
    unfolding save_file
    save_file-eq_ok d k m same fits free whole =
        rw (same, fits, free, whole, same, fits)
          (ap
            (λ (fs : Dict FileName Bytes). (
              ok tt,
              record m { files = put (ckpt_file k.iteration k.rank false) (torch_save d).0 fs },
            ))
            (without-put (ckpt_file k.iteration k.rank true) (torch_save d).0 m.files free))
