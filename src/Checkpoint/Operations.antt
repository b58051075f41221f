-- ===== src/Checkpoint/Operations.antt =====
-- Saving and loading a local checkpoint: `save` and `load` of
-- checkpointing/local/ckpt_managers/base_manager.py. The moves to the CPU and to the device, the
-- replication of a state dict and the messages of an exchange are parameters.
use nvidia_resiliency_ext_x.Prelude.{
  ℕ, Bool, false, not, Option, none, some, List, [], ◌∷◌, if◌then◌else◌,
}
use nvidia_resiliency_ext_x.Prelude.Eq.{◌==◌}
use nvidia_resiliency_ext_x.Prelude.Dict.{Dict, get, put}
use nvidia_resiliency_ext_x.Prelude.Integers.{ℤ, pos, negsuc, leb_ℤ}
use nvidia_resiliency_ext_x.Prelude.Method.{Exceptional, ok, err, ret, raise, ◌>>=◌, ◌>>◌}
use nvidia_resiliency_ext_x.Replication.Exchange.{
  ExchangePlanEntry, ExchangeError, Wire, required_ids, execute_plan,
}
use nvidia_resiliency_ext_x.Replication.Strategies.{PlanError, Random, retrieve_plan}
use nvidia_resiliency_ext_x.Checkpoint.Directory.{
  CkptId, ckpt_keys, checkpointing, assertion_error, key_error, plan_failed, exchange_failed,
  Method, assert_that, save_file, load_file,
}
use nvidia_resiliency_ext_x.Checkpoint.Manager.{ckpt_id, set_latest, is_minus_one, finalize_fn}

-- A strategy: the random choice, the group, what is gathered of the ids that are wanted, and what
-- is on its way to this rank when the plan is executed.
pub record Strategy (D : Type 0) : Type 1 where
  pub random : Random
  pub group : List ℕ
  pub gather_wanted : List CkptId → List (List CkptId)
  pub wire : Wire D

module _ {Bytes : Type 0} where
  abbrev pub planned :
      Exceptional (PlanError CkptId) (List (ExchangePlanEntry CkptId))
      → Method Bytes (List (ExchangePlanEntry CkptId))
  planned (ok entries) = ret entries
  planned (err x) = raise (plan_failed x)

  abbrev pub known : Option (List (List CkptId)) → Method Bytes (List (List CkptId))
  known none = raise key_error
  known (some gathered) = ret gathered

  abbrev pub searched : ℤ → Method Bytes (Unit {0})
  searched latest = if is_minus_one latest then raise checkpointing else ret tt

module _ {D : Type 0} where
  -- The dict of ids and state dicts of `zip`.
  abbrev pub zipped : List D → List CkptId → Dict CkptId D → Dict CkptId D
  zipped [] ids save_arg = save_arg
  zipped (d ∷ ds) [] save_arg = save_arg
  zipped (d ∷ ds) (k ∷ ids) save_arg = zipped ds ids (put k d save_arg)

module _ {Bytes D : Type 0} where
  abbrev pub copy_own : (D → D) → CkptId → Dict CkptId D → Option D → Method Bytes (Dict CkptId D)
  copy_own to_cpu own save_arg none = raise key_error
  copy_own to_cpu own save_arg (some d) = ret (put own (to_cpu d) save_arg)

  -- What is to be saved, with its own shard on the CPU.
  abbrev pub save_args :
      (D → D)
      → Option (D → CkptId → List D × List CkptId)
      → D
      → CkptId
      → Method Bytes (Dict CkptId D)
  save_args to_cpu none state_dict own = ret ((own, to_cpu state_dict) ∷ [])
  save_args to_cpu (some replicate) state_dict own =
      let (ds, ids) = replicate state_dict own in
      let save_arg = zipped ds ids [] in copy_own to_cpu own save_arg (get own save_arg)

  -- `save` up to the call of save_fn.
  unfoldable pub begin_save :
      (D → D) → Option (D → CkptId → List D × List CkptId) → D → ℤ → Method Bytes (Dict CkptId D)
  begin_save to_cpu repl_strategy state_dict iteration = do
    (λ m. assert_that (not (leb_ℤ iteration m.latest_iteration)) m)
    own ← ckpt_id iteration
    save_arg ← save_args to_cpu repl_strategy state_dict own
    set_latest (negsuc 0)
    ret save_arg

  unfoldable pub save_fn : (D → Bytes × Bool) → Dict CkptId D → Method Bytes (Unit {0})
  unfolding save_file
  save_fn torch_save [] = ret tt
  save_fn torch_save ((k, d) ∷ rest) = save_file torch_save d k >> save_fn torch_save rest

  -- `restore` is the move to the device.
  unfoldable pub load_fn : (Bytes → Option D) → (D → D) → CkptId → Method Bytes D
  unfolding load_file
  load_fn torch_load restore k = do d ← load_file torch_load k; ret (restore d)

  unfoldable pub load_all :
      (Bytes → Option D) → (D → D) → List CkptId → Dict CkptId D → Method Bytes (Dict CkptId D)
  unfolding load_fn
  load_all torch_load restore [] my_data = ret my_data
  load_all torch_load restore (k ∷ ks) my_data = do
    d ← load_fn torch_load restore k
    load_all torch_load restore ks (put k d my_data)

  -- `save` with is_async False, in one rank. The barrier between the two halves waits for the other
  -- ranks.
  unfoldable pub save :
      (D → D)
      → Option (D → CkptId → List D × List CkptId)
      → (D → Bytes × Bool)
      → List ℕ
      → (List CkptId → List (List CkptId))
      → D
      → ℕ
      → Method Bytes (Unit {0})
  unfolding begin_save save_fn finalize_fn
  save to_cpu repl_strategy torch_save ranks all_gather_object state_dict iteration = do
    save_arg ← begin_save to_cpu repl_strategy state_dict (pos iteration)
    save_fn torch_save save_arg
    finalize_fn ranks all_gather_object false iteration

  abbrev pub exchanged : Exceptional ExchangeError (Dict CkptId D) → Method Bytes (Dict CkptId D)
  exchanged (ok got) = ret got
  exchanged (err x) = raise (exchange_failed x)

  -- The two assertions on the result of the exchange.
  abbrev pub the_only : CkptId → Dict CkptId D → Method Bytes (D × CkptId)
  the_only own ((k, d) ∷ []) = if k == own then ret (d, own) else raise assertion_error
  the_only own _ = raise assertion_error

  unfoldable pub load_shard :
      Option (Strategy D) → (Bytes → Option D) → (D → D) → CkptId → Method Bytes (D × CkptId)
  unfolding load_fn load_all retrieve_plan execute_plan required_ids
  load_shard none torch_load restore own = do d ← load_fn torch_load restore own; ret (d, own)
  load_shard (some s) torch_load restore own = do
    globally ← (λ m. known m.globally_available_ids m)
    plan ← planned (retrieve_plan s.random s.group globally (s.gather_wanted (own ∷ [])))
    my_data ← load_all torch_load restore (required_ids own.rank plan) []
    got ← exchanged (execute_plan own.rank plan my_data s.wire).0
    the_only own got

  unfoldable pub load :
      Option (Strategy D) → (Bytes → Option D) → (D → D) → Method Bytes (D × CkptId)
  unfolding load_shard
  load strategy torch_load restore = do
    (λ m. searched m.latest_iteration m)
    own ← (λ m. ckpt_id m.latest_iteration m)
    load_shard strategy torch_load restore own
