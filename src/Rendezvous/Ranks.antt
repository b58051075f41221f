-- ===== src/Rendezvous/Ranks.antt =====
-- `_DistributedRendezvousOpExecutor._assign_ranks` of fault_tolerance/_ft_rendezvous.py: the ranks
-- of a completed round, with the ranks of the previous round kept where that is possible.
pub mod Counting
pub mod Assignment
use nvidia_resiliency_ext_x.Prelude.{
  ℕ, Bool, true, false, Option, none, some, List, [], ◌∷◌, ltb, leb, length, range_from,
  if◌then◌else◌,
}
use nvidia_resiliency_ext_x.Prelude.Eq.{number_keys}
use nvidia_resiliency_ext_x.Prelude.Dict.{Dict, keys, get}
use nvidia_resiliency_ext_x.Prelude.Keys.{contains, erase}
use nvidia_resiliency_ext_x.Prelude.Sorting.{sorted}
use nvidia_resiliency_ext_x.Rendezvous.Base.{
  NodeDesc, node_eq, node_le, Error, key_error, index_error, assertion_error, Result, ok, err,
  bind_result,
}

-- `prev_rank >= 0 and prev_rank < world_size`, where a missing previous rank is -1.
unfoldable pub kept_rank : ℕ → Option ℕ → Option ℕ
kept_rank world_size none = none
kept_rank world_size (some r) = if ltb r world_size then some r else none

-- `free_ranks.remove(prev_rank)`
unfoldable pub take_rank : ℕ → List ℕ → Result (List ℕ)
take_rank r free = if contains r free then ok (erase r free) else err key_error

-- The first loop. `none` is the rank -1 of a node that gets a free rank later; the keys are those
-- of a dict, so each round adds one entry.
unfoldable pub reserve :
    ℕ → Dict NodeDesc ℕ → List NodeDesc → List ℕ → Result (Dict NodeDesc (Option ℕ) × List ℕ)
reserve world_size prev [] free = ok ([], free)
reserve world_size prev (p ∷ ps) free = elim (kept_rank world_size (get p prev)) [
  | some r ↦ bind_result (take_rank r free) λ left.
      bind_result (reserve world_size prev ps left) λ done. ok ((p, some r) ∷ done.0, done.1)
  | none ↦ bind_result (reserve world_size prev ps free) λ done. ok ((p, none) ∷ done.0, done.1)
]

-- The second loop: `free_ranks.pop(0)` for each node that has no rank.
unfoldable pub fill : Dict NodeDesc (Option ℕ) → List ℕ → Result (Dict NodeDesc ℕ × List ℕ)
fill [] free = ok ([], free)
fill ((p, some r) ∷ res) free = bind_result (fill res free) λ done. ok ((p, r) ∷ done.0, done.1)
fill ((p, none) ∷ res) [] = err index_error
fill ((p, none) ∷ res) (r ∷ free) = bind_result (fill res free) λ done. ok ((p, r) ∷ done.0, done.1)

-- `assert not free_ranks`
unfoldable pub none_left : Dict NodeDesc ℕ → List ℕ → Result (Dict NodeDesc ℕ)
none_left res [] = ok res
none_left res (r ∷ free) = err assertion_error

unfoldable pub assign_ranks : Dict NodeDesc ℕ → Dict NodeDesc ℕ → Result (Dict NodeDesc ℕ)
assign_ranks participants prev =
    let world_size = length participants in
    let sorted_keys = sorted node_le (keys participants) in
    bind_result (reserve world_size prev sorted_keys (range_from 0 world_size)) λ reserved.
      bind_result (fill reserved.0 (sorted leb reserved.1)) λ filled. none_left filled.0 filled.1
