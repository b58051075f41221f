-- ===== src/Checkpoint/Saving.antt =====
-- One rank's part of a save without replication: `save` of
-- checkpointing/local/ckpt_managers/base_manager.py, before and after the barrier.
use nvidia_resiliency_ext_x.Prelude.{ℕ, Bool, true, false, ◌≡◌, refl, none, some, List, All, ltb}
use nvidia_resiliency_ext_x.Prelude.Eq.{eq_self, text_keys}
use nvidia_resiliency_ext_x.Prelude.Dict.{has, put}
use nvidia_resiliency_ext_x.Prelude.Integers.{pos, negsuc, leb_ℤ}
use nvidia_resiliency_ext_x.Prelude.Method.{Exceptional, ok, ◌>>=◌}
use nvidia_resiliency_ext_x.Checkpoint.Directory.{
  CkptId, ckpt_file, file_keys, CkptError, Manager, fits_template, unlink_if, cleanup,
}
use nvidia_resiliency_ext_x.Checkpoint.Manager.{finalize_fn, validate, run_cleanup, run_task}
use nvidia_resiliency_ext_x.Checkpoint.Operations.{begin_save, save_fn, save}
use nvidia_resiliency_ext_x.Checkpoint.Coverage.{IsOfSession}
use nvidia_resiliency_ext_x.Checkpoint.Latest.{latest_of, find_latest-eq_ok}
use nvidia_resiliency_ext_x.Checkpoint.Files.{save_file-eq_ok}

module _ {Bytes D : Type 0} (to_cpu : D → D) (torch_save : D → Bytes × Bool) (iteration : ℕ) where
  -- A manager that can save a state dict: no newer checkpoint is known, the number fits the file
  -- names, no file of the same checkpoint is being written, and torch.save comes to its end.
  pub record IsReady (m : Manager Bytes) (x : D) : Type 0 where
    pub older : leb_ℤ (pos iteration) m.latest_iteration ≡ false
    pub fits : fits_template iteration ≡ true
    pub free : has (ckpt_file iteration m.rank true) m.files ≡ false
    pub whole : (torch_save (to_cpu x)).1 ≡ true

  -- The state at the barrier.
  abbrev pub written : Manager Bytes → D → Manager Bytes
  written m x = record m {
    latest_iteration = negsuc 0;
    files = put (ckpt_file iteration m.rank false) (torch_save (to_cpu x)).0 m.files;
  }

  abbrev pub write_shard : Manager Bytes → D → Exceptional CkptError (Unit {0}) × Manager Bytes
  write_shard m x =
      (begin_save to_cpu none x (pos iteration) >>= λ save_arg. save_fn torch_save save_arg) m

  pub write_shard-eq_ok :
      (m : Manager Bytes) (x : D) → IsReady m x → write_shard m x ≡ (ok tt, written m x)
  unfolding begin_save save_fn
  write_shard-eq_ok m x ready =
      rw
        (
          ready.older,
          save_file-eq_ok torch_save (to_cpu x)
              (record { iteration = iteration; rank = m.rank; session = m.session_id })
              (record m { latest_iteration = negsuc 0 }) (eq_self m.session_id) ready.fits
              ready.free ready.whole,
        )
        refl

  module _ (ranks : List ℕ) (gathered : List (List CkptId)) where
    -- The state after the save.
    abbrev pub finished : Manager Bytes → D → Manager Bytes
    finished m x = record m {
      latest_iteration = negsuc 0;
      globally_available_ids = some gathered;
      files = unlink_if (λ i. ltb i iteration) (written m x).files;
    }

    pub save-eq_ok :
        (m : Manager Bytes) (x : D)
        → IsReady m x
        → All (All (IsOfSession m.session_id)) gathered
        → leb_ℤ (pos iteration) (latest_of ranks gathered) ≡ true
        → save to_cpu none torch_save ranks (λ _. gathered) x iteration m ≡ (ok tt, finished m x)
    unfolding save begin_save save_fn finalize_fn validate run_cleanup run_task cleanup
    save-eq_ok m x ready of_session valid =
        rw
          (
            ready.older,
            save_file-eq_ok torch_save (to_cpu x)
                (record { iteration = iteration; rank = m.rank; session = m.session_id })
                (record m { latest_iteration = negsuc 0 }) (eq_self m.session_id) ready.fits
                ready.free ready.whole,
            find_latest-eq_ok ranks (λ _. gathered) (written m x) refl of_session,
            valid,
          )
          refl
