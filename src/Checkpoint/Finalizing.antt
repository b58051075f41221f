-- ===== src/Checkpoint/Finalizing.antt =====
-- The end of a save, `finalize_fn` in `save` of checkpointing/local/ckpt_managers/base_manager.py,
-- on every branch.
use nvidia_resiliency_ext_x.Prelude.{
  ℕ, Bool, true, false, not, ◌&&◌, ◌≡◌, refl, List, All, [], ◌∷◌, ◌++◌, if◌then◌else◌, ltb,
  Bool-cases, inl, inr,
}
use nvidia_resiliency_ext_x.Prelude.Eq.{◌==◌, number_keys}
use nvidia_resiliency_ext_x.Prelude.Dict.{has}
use nvidia_resiliency_ext_x.Prelude.Integers.{pos, negsuc, leb_ℤ}
use nvidia_resiliency_ext_x.Prelude.Method.{ok, err}
use nvidia_resiliency_ext_x.Checkpoint.Directory.{
  CkptId, ckpt_file, file_keys, checkpointing, Task, outdated_before, failed_save_of, Manager,
  fits_template, unlink_if, cleanup, cleanup_failed_save,
}
use nvidia_resiliency_ext_x.Checkpoint.Manager.{
  finalize_fn, validate, run_task, run_cleanup, offered, is_minus_one,
}
use nvidia_resiliency_ext_x.Checkpoint.Coverage.{IsOfSession}
use nvidia_resiliency_ext_x.Checkpoint.Latest.{latest_of, after_search, find_latest-eq_ok}
use nvidia_resiliency_ext_x.Checkpoint.Files.{has-unlink_if}

-- What a clean-up leaves: called, the files of the removed iterations are gone. Submitted, no file
-- has changed yet, the task stands last among those submitted, and its thread removes those files.
unfoldable pub IsCleaned :
    {Bytes : Type 0} → Bool → Task → (ℕ → Bool) → Manager Bytes → Manager Bytes → Type 0
IsCleaned is_async task is_removed m t =
    let after = if is_async then (run_task task t).1 else t in
    (t.submitted ≡ (if is_async then m.submitted ++ task ∷ [] else m.submitted))
    × (is_async ≡ true → t.files ≡ m.files)
    × ((i r : ℕ) (d : Bool)
        → has (ckpt_file i r d) after.files ≡ (not (is_removed i) && has (ckpt_file i r d) m.files))

-- The iterations that a clean-up is for.
abbrev removes : Task → ℕ → Bool
removes (outdated_before iteration) i = ltb i iteration
removes (failed_save_of iteration) i = i == iteration

abbrev pub task_fits : Task → Bool
task_fits (outdated_before _) = true
task_fits (failed_save_of iteration) = fits_template iteration

module _ {Bytes : Type 0} where
  abbrev swept : Task → Manager Bytes → Manager Bytes
  swept task m = record m { files = unlink_if (removes task) m.files }

  run_task-eq_ok :
      (task : Task) (m : Manager Bytes)
      → task_fits task ≡ true
      → run_task task m ≡ (ok tt, swept task m)
  unfolding run_task cleanup cleanup_failed_save
  run_task-eq_ok (outdated_before iteration) m fits = refl
  run_task-eq_ok (failed_save_of iteration) m fits = rw fits refl

  -- A clean-up, called or submitted, raises nothing.
  run_cleanup-IsCleaned :
      (is_async : Bool) (task : Task) (m : Manager Bytes)
      → task_fits task ≡ true
      → (t : Manager Bytes) × (run_cleanup is_async task m ≡ (ok tt, t))
        × (t.latest_iteration ≡ m.latest_iteration)
        × IsCleaned is_async task (removes task) m t
  unfolding run_cleanup IsCleaned
  run_cleanup-IsCleaned true task m fits =
      let later : Manager Bytes = record m { submitted = m.submitted ++ task ∷ [] } in
      (
        later,
        refl,
        refl,
        (
          refl,
          λ _. refl,
          λ i r d. rw (run_task-eq_ok task later fits) (has-unlink_if i r d (removes task) m.files),
        ),
      )
  run_cleanup-IsCleaned false task m fits = (
    swept task m,
    run_task-eq_ok task m fits,
    refl,
    (refl, λ e. cc, λ i r d. has-unlink_if i r d (removes task) m.files),
  )

module _ {Bytes : Type 0} (is_async : Bool) (iteration : ℕ) (ranks : List ℕ)
    (all_gather_object : List CkptId → List (List CkptId)) (m : Manager Bytes) where
  abbrev gathered : List (List CkptId)
  gathered = all_gather_object (offered m)

  abbrev is_valid : Bool
  is_valid = leb_ℤ (pos iteration) (latest_of ranks gathered)

  -- If nothing is cached, the gathered ids are of the session and the number fits the file names,
  -- the end of a save returns where the search finds this iteration or a later one, and raises
  -- CheckpointingException where it does not. In both cases nothing is cached afterwards. Of the
  -- files of checkpoints, the clean-up is to remove those of older iterations where it returns,
  -- those of this iteration where it raises, and no others. After a synchronous save they are gone.
  -- After an asynchronous one no file has changed, and the clean-up is submitted, after those that
  -- were submitted before; its thread then removes them.
  pub finalize_fn-outcome :
      is_minus_one m.latest_iteration ≡ true
      → All (All (IsOfSession m.session_id)) (all_gather_object (offered m))
      → fits_template iteration ≡ true
      → (t : Manager Bytes) × (finalize_fn ranks all_gather_object is_async iteration m
          ≡ ((if is_valid then ok tt else err checkpointing), t))
        × (t.latest_iteration ≡ negsuc 0)
        × IsCleaned is_async
            (if is_valid then outdated_before iteration else failed_save_of iteration)
            (λ i. if is_valid then ltb i iteration else i == iteration)
            m
            t
  unfolding finalize_fn validate IsCleaned
  finalize_fn-outcome fresh of_session fits =
      let searched : Manager Bytes = record (after_search ranks gathered m) {
        latest_iteration = negsuc 0;
      } in
      elim (Bool-cases is_valid) [
        | inl valid ↦
            let (t, run, latest, cleaned) =
              run_cleanup-IsCleaned is_async (outdated_before iteration) searched refl in
            (
              t,
              rw (find_latest-eq_ok ranks all_gather_object m fresh of_session, valid, run) refl,
              latest,
              rw valid cleaned,
            )
        | inr failed ↦
            let (t, run, latest, cleaned) =
              run_cleanup-IsCleaned is_async (failed_save_of iteration) searched fits in
            (
              t,
              rw (find_latest-eq_ok ranks all_gather_object m fresh of_session, failed, run) refl,
              latest,
              rw failed cleaned,
            )
      ]
