-- ===== src/Checkpoint/Manager.antt =====
-- `BaseCheckpointManager` of checkpointing/local/ckpt_managers/base_manager.py over the directory of
-- a rank. The gathering of objects from the group, the copies to and from the device and torch.save
-- and torch.load are parameters.
use nvidia_resiliency_ext_x.Prelude.{
  ℕ, zero, Bool, true, false, ◌&&◌, none, some, List, [], ◌∷◌, ◌++◌, String, if◌then◌else◌, max,
}
use nvidia_resiliency_ext_x.Prelude.Eq.{◌==◌, number_keys, text_keys}
use nvidia_resiliency_ext_x.Prelude.Dict.{Dict, get, put}
use nvidia_resiliency_ext_x.Prelude.Keys.{contains, add}
use nvidia_resiliency_ext_x.Prelude.Integers.{ℤ, pos, negsuc, leb_ℤ}
use nvidia_resiliency_ext_x.Prelude.Method.{
  Exceptional, ok, err, bind_result, ret, raise, ◌>>=◌, ◌>>◌,
}
use nvidia_resiliency_ext_x.Checkpoint.Directory.{
  CkptId, ckpt_keys, CkptError, checkpointing, assertion_error, Task, outdated_before,
  failed_save_of, Manager, Method, my_ckpt_ids, cleanup, cleanup_failed_save,
}

-- defaultdict(set)[iteration]
unfoldable pub rank_set : ℕ → Dict ℕ (List ℕ) → List ℕ
rank_set iteration coverage = elim (get iteration coverage) [ none ↦ [] | some ranks ↦ ranks ]

-- The map from iterations to ranks, and the assertion on the session.
unfoldable pub cover_ids :
    String → List CkptId → Dict ℕ (List ℕ) → Exceptional CkptError (Dict ℕ (List ℕ))
unfolding rank_set
cover_ids session [] coverage = ok coverage
cover_ids session (c ∷ ids) coverage =
    let rest =
      cover_ids session ids
        (put c.iteration (add c.rank (rank_set c.iteration coverage)) coverage) in
    if c.session == session then rest else err assertion_error

unfoldable pub cover_all :
    String → List (List CkptId) → Dict ℕ (List ℕ) → Exceptional CkptError (Dict ℕ (List ℕ))
unfolding cover_ids
cover_all session [] coverage = ok coverage
cover_all session (ids ∷ gathered) coverage =
    bind_result (cover_ids session ids coverage) (cover_all session gathered)

unfoldable pub is_subset : List ℕ → List ℕ → Bool
is_subset [] t = true
is_subset (r ∷ s) t = contains r t && is_subset s t

-- rank_set == set(ranks)
unfoldable pub same_set : List ℕ → List ℕ → Bool
unfolding is_subset
same_set s t = is_subset s t && is_subset t s

unfoldable pub complete_iterations : List ℕ → Dict ℕ (List ℕ) → List ℕ
unfolding same_set
complete_iterations ranks [] = []
complete_iterations ranks ((iteration, s) ∷ coverage) =
    let rest = complete_iterations ranks coverage in
    if same_set s ranks then iteration ∷ rest else rest

-- max(…, default=-1)
unfoldable pub greatest : List ℕ → ℤ
greatest [] = negsuc 0
greatest (n ∷ ns) = elim (greatest ns) [ pos k ↦ pos (max n k) | negsuc _ ↦ pos n ]

abbrev pub is_minus_one : ℤ → Bool
is_minus_one (negsuc zero) = true
is_minus_one _ = false

unfoldable pub own_ids : ℕ → List CkptId → List CkptId
own_ids rank [] = []
own_ids rank (c ∷ ids) = let rest = own_ids rank ids in if c.rank == rank then c ∷ rest else rest

module _ {Bytes : Type 0} where
  -- _ckpt_id
  abbrev pub ckpt_id : ℤ → Method Bytes CkptId
  ckpt_id (negsuc n) m = (err checkpointing, m)
  ckpt_id (pos n) m = (ok (record { iteration = n; rank = m.rank; session = m.session_id }), m)

  abbrev pub set_latest : ℤ → Method Bytes (Unit {0})
  set_latest latest m = (ok tt, record m { latest_iteration = latest })

  abbrev pub set_globally : List (List CkptId) → Method Bytes (Unit {0})
  set_globally gathered m = (ok tt, record m { globally_available_ids = some gathered })

  abbrev pub lift : {A : Type 0} → Exceptional CkptError A → Method Bytes A
  lift r m = (r, m)

  -- What a rank tells the others that it has.
  unfoldable pub offered : Manager Bytes → List CkptId
  unfolding my_ckpt_ids own_ids
  offered m = if m.replicated then my_ckpt_ids m else own_ids m.rank (my_ckpt_ids m)

  -- What the thread of an executor does for a clean-up, or the call of it.
  unfoldable pub run_task : Task → Method Bytes (Unit {0})
  unfolding cleanup cleanup_failed_save
  run_task (outdated_before iteration) = cleanup iteration
  run_task (failed_save_of iteration) = cleanup_failed_save iteration

  -- `executor.submit` and `executor.shutdown(wait=False)`
  abbrev pub in_background : Task → Method Bytes (Unit {0})
  in_background task m = (ok tt, record m { submitted = m.submitted ++ task ∷ [] })

  unfoldable pub run_cleanup : Bool → Task → Method Bytes (Unit {0})
  unfolding run_task
  run_cleanup is_async task = if is_async then in_background task else run_task task

  module _ (ranks : List ℕ) (all_gather_object : List CkptId → List (List CkptId)) where
    unfoldable pub search : Method Bytes ℤ
    unfolding offered cover_all complete_iterations greatest
    search m =
        (set_globally (all_gather_object (offered m))
            >> lift (cover_all m.session_id (all_gather_object (offered m)) [])
            >>= λ coverage.
                set_latest (greatest (complete_iterations ranks coverage))
                >> ret (greatest (complete_iterations ranks coverage)))
          m

    unfoldable pub find_latest : Method Bytes ℤ
    unfolding search
    find_latest m = if is_minus_one m.latest_iteration then search m else (ok m.latest_iteration, m)

    unfoldable pub validate : Bool → ℕ → ℤ → Method Bytes (Unit {0})
    unfolding run_cleanup
    validate is_async iteration latest =
        if leb_ℤ (pos iteration) latest
        then run_cleanup is_async (outdated_before iteration)
        else run_cleanup is_async (failed_save_of iteration) >> raise checkpointing

    unfoldable pub finalize_fn : Bool → ℕ → Method Bytes (Unit {0})
    unfolding find_latest validate
    finalize_fn is_async iteration = do
      latest ← find_latest
      set_latest (negsuc 0)
      validate is_async iteration latest
