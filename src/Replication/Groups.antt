-- ===== src/Replication/Groups.antt =====
-- The groups of ranks that keep replicas for each other: `batched` and `parse_group_sequence` of
-- checkpointing/local/replication/group_utils.py.
use nvidia_resiliency_ext_x.Prelude.{
  ℕ, zero, suc, ◌+◌, ◌-◌, ◌*◌, ◌/◌, ◌%◌, Bool, true, false, ◌&&◌, List, [], ◌∷◌, ◌++◌, length,
  if◌then◌else◌, ltb, eqb,
}
use nvidia_resiliency_ext_x.Prelude.Sorting.{sorted}
use nvidia_resiliency_ext_x.Prelude.Method.{Exceptional, ok, err}

-- The first n items, and the others.
unfoldable pub take : ℕ → List ℕ → List ℕ
take zero xs = []
take (suc n) [] = []
take (suc n) (x ∷ xs) = x ∷ take n xs

unfoldable pub drop : ℕ → List ℕ → List ℕ
drop zero xs = xs
drop (suc n) [] = []
drop (suc n) (x ∷ xs) = drop n xs

-- The loop of `batched`, which ends at an empty batch; the fuel is the length of the list.
unfoldable pub batches : ℕ → ℕ → List ℕ → List (List ℕ)
unfolding take drop
batches zero n xs = []
batches (suc fuel) n [] = []
batches (suc fuel) n (x ∷ xs) = take n (x ∷ xs) ∷ batches fuel n (drop n (x ∷ xs))

-- A `ValueError` or a failed assertion.
pub data GroupError : Type 0 where
  value_error assertion_error : GroupError

unfoldable pub batched : ℕ → List ℕ → Exceptional GroupError (List (List ℕ))
unfolding batches
batched n xs = if ltb n 1 then err value_error else ok (batches (length xs) n xs)

-- range(start, stop, step): the items, by their number
unfoldable pub column : ℕ → ℕ → ℕ → List ℕ
column start step zero = []
column start step (suc n) = start ∷ column (start + step) step n

unfoldable pub stepped : ℕ → ℕ → ℕ → List ℕ
unfolding column
stepped start stop step = column start step (((stop - start) + (step - 1)) / step)

-- The order of tuples.
abbrev pub le_group : List ℕ → List ℕ → Bool
le_group [] ys = true
le_group (x ∷ xs) [] = false
le_group (x ∷ xs) (y ∷ ys) = let rest = le_group xs ys in if eqb x y then rest else ltb x y

-- The loop over the moduli: `count` of them from `modulus` on.
unfoldable pub columns : ℕ → ℕ → ℕ → ℕ → ℕ → List (List ℕ) → Exceptional GroupError (List (List ℕ))
unfolding batched stepped
columns jump factor world_size modulus zero result = ok result
columns jump factor world_size modulus (suc count) result =
    elim (batched factor (stepped modulus world_size jump)) [
      | err x ↦ err x
      | ok groups ↦ columns jump factor world_size (modulus + 1) count (result ++ groups)
    ]

abbrev pub sorted_groups :
    Exceptional GroupError (List (List ℕ)) → Exceptional GroupError (List (List ℕ))
sorted_groups (err x) = err x
sorted_groups (ok groups) = ok (sorted le_group groups)

unfoldable pub parse_group_sequence : ℕ → ℕ → ℕ → Exceptional GroupError (List (List ℕ))
unfolding columns
parse_group_sequence replication_jump replication_factor world_size =
    if ltb 0 replication_jump
      && ltb 0 replication_factor
      && eqb (world_size % (replication_jump * replication_factor)) 0
    then sorted_groups
        (columns replication_jump replication_factor world_size 0 replication_jump [])
    else err assertion_error
