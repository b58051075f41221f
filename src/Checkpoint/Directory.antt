-- ===== src/Checkpoint/Directory.antt =====
-- The directory of a rank's local checkpoints: what `LocalCheckpointManager` of
-- checkpointing/local/ckpt_managers/local_manager.py does with files. A file of a checkpoint is
-- named by its iteration, its rank and whether it is still being written (`.dirty`); any other file
-- in the directory matches none of the patterns. torch.save and torch.load are parameters.
use nvidia_resiliency_ext_x.Prelude.{
  ℕ, Bool, true, false, not, ◌&&◌, ◌↔◌, ◌≡◌, Option, none, some, List, [], ◌∷◌, String, arith,
  if◌then◌else◌, ltb,
}
use nvidia_resiliency_ext_x.Prelude.Eq.{KeyEq, ◌==◌, ==_iff, number_keys, text_keys}
use nvidia_resiliency_ext_x.Prelude.Dict.{Dict, get, has, put, without}
use nvidia_resiliency_ext_x.Prelude.Integers.{ℤ}
use nvidia_resiliency_ext_x.Prelude.Method.{Exceptional, ok, ret, raise, ◌>>=◌, ◌>>◌}
use nvidia_resiliency_ext_x.Replication.Exchange.{ExchangeError}
use nvidia_resiliency_ext_x.Replication.Strategies.{PlanError}

pub record CkptId : Type 0 where
  pub iteration : ℕ
  pub rank : ℕ
  pub session : String

abbrev same_ckpt : CkptId → CkptId → Bool
same_ckpt a b = (a.iteration == b.iteration) && ((a.rank == b.rank) && (a.session == b.session))

pub same_ckpt_iff : (a b : CkptId) → (same_ckpt a b ≡ true) ↔ (a ≡ b)
same_ckpt_iff a b =
    ground (arith, ==_iff a.iteration b.iteration, ==_iff a.rank b.rank, ==_iff a.session b.session)

instance abbrev pub ckpt_keys : KeyEq CkptId
ckpt_keys = record { test = same_ckpt; decides = same_ckpt_iff }

pub data FileName : Type 0 where
  ckpt_file : (iteration rank : ℕ) → Bool → FileName
  other_file : String → FileName

abbrev same_flag : Bool → Bool → Bool
same_flag true b = b
same_flag false b = not b

abbrev same_name : FileName → FileName → Bool
same_name (ckpt_file i r d) (ckpt_file j s e) = (i == j) && ((r == s) && same_flag d e)
same_name (other_file a) (other_file b) = a == b
same_name _ _ = false

pub same_name_iff : (a b : FileName) → (same_name a b ≡ true) ↔ (a ≡ b)
same_name_iff (ckpt_file i r d) (ckpt_file j s e) = ground (arith, ==_iff i j, ==_iff r s)
same_name_iff (other_file a) (other_file b) = ground (arith, ==_iff a b)
same_name_iff (ckpt_file i r d) (other_file b) = ground arith
same_name_iff (other_file a) (ckpt_file j s e) = ground arith

instance abbrev pub file_keys : KeyEq FileName
file_keys = record { test = same_name; decides = same_name_iff }

-- CheckpointingException, a failed assertion, what torch.save or torch.load raise, a missing key,
-- SameMachineReplicationException, and the errors of a plan and of its execution.
pub data CkptError : Type 0 where
  checkpointing assertion_error torch_error key_error : CkptError
  same_machine : CkptId → CkptError
  plan_failed : PlanError CkptId → CkptError
  exchange_failed : ExchangeError → CkptError

-- A clean-up and the iteration that it is called for: `_cleanup` or `_cleanup_failed_save`.
pub data Task : Type 0 where
  outdated_before failed_save_of : ℕ → Task

-- The state of a checkpoint manager; `latest_iteration` is minus one where nothing is cached, and
-- `globally_available_ids` is absent before the first search. `submitted` holds the clean-ups that
-- were handed to an executor, which nobody waits for.
pub record Manager (Bytes : Type 0) : Type 0 where
  pub latest_iteration : ℤ
  pub globally_available_ids : Option (List (List CkptId))
  pub rank : ℕ
  pub session_id : String
  pub replicated : Bool
  pub submitted : List Task
  pub files : Dict FileName Bytes

-- Methods of the manager.
abbrev pub Method : Type 0 → Type 0 → Type 0
Method Bytes A = Manager Bytes → Exceptional CkptError A × Manager Bytes

-- `len(iteration_string) == 7` of the number padded to seven digits.
abbrev pub fits_template : ℕ → Bool
fits_template iteration = ltb iteration 10_000_000

abbrev pub add_id : String → FileName → List CkptId → List CkptId
add_id session (ckpt_file i r false) rest =
    record { iteration = i; rank = r; session = session } ∷ rest
add_id session _ rest = rest

module _ {Bytes : Type 0} where
  abbrev pub assert_that : Bool → Method Bytes (Unit {0})
  assert_that true = ret tt
  assert_that false = raise assertion_error

  -- _local_ckpt_path_from_id with _filename_from_template
  abbrev pub local_ckpt_path_from_id : CkptId → Bool → Method Bytes FileName
  local_ckpt_path_from_id ckpt_id is_dirty m =
      (assert_that (ckpt_id.session == m.session_id)
          >> assert_that (fits_template ckpt_id.iteration)
          >> ret (ckpt_file ckpt_id.iteration ckpt_id.rank is_dirty))
        m

  unfoldable pub ids_of : String → Dict FileName Bytes → List CkptId
  ids_of session [] = []
  ids_of session ((f, b) ∷ fs) = add_id session f (ids_of session fs)

  unfoldable pub my_ckpt_ids : Manager Bytes → List CkptId
  unfolding ids_of
  my_ckpt_ids m = ids_of m.session_id m.files

  -- `open(path, "bx")`, then what torch.save wrote; a rename takes the place of a file of the new
  -- name.
  abbrev pub write_file : FileName → Bytes → Method Bytes (Unit {0})
  write_file f b m = (ok tt, record m { files = put f b m.files })

  abbrev pub rename_file : FileName → FileName → Bytes → Method Bytes (Unit {0})
  rename_file f g b m = (ok tt, record m { files = put g b (without f m.files) })

  module _ {D : Type 0} (torch_save : D → Bytes × Bool) where
    abbrev pub completed : Bool → Method Bytes (Unit {0}) → Method Bytes (Unit {0})
    completed true next = next
    completed false next = raise torch_error

    abbrev pub save_new : Bool → CkptId → FileName → D → Method Bytes (Unit {0})
    save_new true ckpt_id path d = raise (same_machine ckpt_id)
    save_new false ckpt_id path d =
        write_file path (torch_save d).0
        >> completed (torch_save d).1 (
            local_ckpt_path_from_id ckpt_id false >>= λ final.
            rename_file path final (torch_save d).0)

    unfoldable pub save_file : D → CkptId → Method Bytes (Unit {0})
    save_file d ckpt_id = local_ckpt_path_from_id ckpt_id true >>= λ path m.
        save_new (has path m.files) ckpt_id path d m

  module _ {D : Type 0} (torch_load : Bytes → Option D) where
    abbrev pub loaded_data : Option D → Method Bytes D
    loaded_data none = raise torch_error
    loaded_data (some d) = ret d

    abbrev pub read_file : Option Bytes → Method Bytes D
    read_file none = raise checkpointing
    read_file (some b) = loaded_data (torch_load b)

    unfoldable pub load_file : CkptId → Method Bytes D
    load_file ckpt_id =
        local_ckpt_path_from_id ckpt_id false >>= λ path m. read_file (get path m.files) m

  -- The files that no pattern of the clean-up finds, or whose iteration is not old.
  unfoldable pub unlink_if : (ℕ → Bool) → Dict FileName Bytes → Dict FileName Bytes
  unlink_if is_old [] = []
  unlink_if is_old ((other_file name, b) ∷ fs) = (other_file name, b) ∷ unlink_if is_old fs
  unlink_if is_old ((ckpt_file i r d, b) ∷ fs) =
      let rest = unlink_if is_old fs in if is_old i then rest else (ckpt_file i r d, b) ∷ rest

  unfoldable pub cleanup : ℕ → Method Bytes (Unit {0})
  unfolding unlink_if
  cleanup iteration m = (ok tt, record m { files = unlink_if (λ i. ltb i iteration) m.files })

  unfoldable pub cleanup_failed_save : ℕ → Method Bytes (Unit {0})
  unfolding unlink_if
  cleanup_failed_save iteration = assert_that (fits_template iteration) >> λ m.
      (ok tt, record m { files = unlink_if (λ i. i == iteration) m.files })
