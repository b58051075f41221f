-- ===== src/InProcess/Tree/Reassignment.antt =====
-- What `Tree` of inprocess/rank_assignment.py does where active ranks are terminated: replacement by
-- inactive ranks, backfill and shift. A set of ranks is a list without repetitions.
use nvidia_resiliency_ext_x.Prelude.{
  ℕ, zero, suc, ◌-◌, ◌&&◌, Bool, true, false, Option, none, some, List, [], ◌∷◌, ◌++◌, length,
  if◌then◌else◌, leb,
}
use nvidia_resiliency_ext_x.Prelude.Eq.{◌==◌, number_keys}
use nvidia_resiliency_ext_x.Prelude.Keys.{contains, add}
use nvidia_resiliency_ext_x.Prelude.Sorting.{sorted}
use nvidia_resiliency_ext_x.Prelude.Method.{ok, ret, raise, modify, ◌>>=◌, ◌>>◌}
use nvidia_resiliency_ext_x.InProcess.RankAssignment.{State, type_error, below}
use nvidia_resiliency_ext_x.InProcess.Tree.Topology.{TreeNode, iter_leaves, is_active}
use nvidia_resiliency_ext_x.InProcess.Tree.Leaves.{
  OnTree, at_leaf, at_every_leaf, terminate, take_over_from, rank_map, init_rank_map, above,
  reserved, backfill_domain,
}

-- set(rank for rank in terminated_ranks if self.rank_map[rank].state.mode == Mode.ACTIVE)
unfoldable pub active_among : List ℕ → OnTree (List ℕ)
unfolding rank_map
active_among [] = ret []
active_among (rank ∷ ranks) = do
  s ← rank_map rank
  rest ← active_among ranks
  ret (if is_active s.mode then rank ∷ rest else rest)

unfoldable pub terminate_all : List ℕ → OnTree (Unit {0})
unfolding rank_map terminate
terminate_all [] = ret tt
terminate_all (rank ∷ ranks) = do
  s ← rank_map rank
  modify (terminate s.initial_rank)
  terminate_all ranks

abbrev pub replaced_by : Option ℕ → ℕ → State → List ℕ → OnTree (List ℕ)
unfolding take_over_from
replaced_by none rank s replaced t = (ok replaced, t)
replaced_by (some k) rank s replaced t =
    (ok (replaced ++ rank ∷ []), take_over_from s.active_rank k t)

unfoldable pub replace_one : ℕ → List ℕ → OnTree (List ℕ)
unfolding rank_map above reserved take_over_from
replace_one rank replaced = do
  s ← rank_map rank
  λ t. replaced_by (reserved (above s.initial_rank t)) rank s replaced t

unfoldable pub replace_each : List ℕ → List ℕ → OnTree (List ℕ)
unfolding replace_one
replace_each [] replaced = ret replaced
replace_each (rank ∷ ranks) replaced = do more ← replace_one rank replaced; replace_each ranks more

unfoldable pub replace_with_inactive : List ℕ → OnTree (List ℕ)
unfolding replace_each sorted
replace_with_inactive terminated_active_ranks = replace_each (sorted leb terminated_active_ranks) []

unfoldable pub minus : List ℕ → List ℕ → List ℕ
unfolding contains
minus [] t = []
minus (x ∷ s) t = let rest = minus s t in if contains x t then rest else x ∷ rest

-- An active rank that is None is met when the set is sorted.
abbrev pub add_rank : Option ℕ → List ℕ → OnTree (List ℕ)
add_rank none replaced = raise type_error
add_rank (some r) replaced = ret (add r replaced)

-- The terminated nodes of each backfill domain, and the ranks of those that have none.
pub record Domains : Type 0 where
  pub nodes : List (List ℕ × List State)
  pub replaced : List ℕ

unfoldable pub same_domain : List ℕ → List ℕ → Bool
same_domain [] [] = true
same_domain (x ∷ xs) (y ∷ ys) = (x == y) && same_domain xs ys
same_domain _ _ = false

-- backfill_domains[id(backfill_domain)].append(terminated_node)
unfoldable pub append_at : List ℕ → State → List (List ℕ × List State) → List (List ℕ × List State)
unfolding same_domain
append_at domain s [] = (domain, s ∷ []) ∷ []
append_at domain s ((d, ss) ∷ ds) =
    let rest = append_at domain s ds in
    if same_domain d domain then (d, ss ++ s ∷ []) ∷ ds else (d, ss) ∷ rest

abbrev pub in_domain : Option (List ℕ) → State → Domains → OnTree Domains
in_domain none s ds = do
  more ← add_rank s.active_rank ds.replaced
  ret (record ds { replaced = more })
in_domain (some domain) s ds = ret (record ds { nodes = append_at domain s ds.nodes })

unfoldable pub by_domain : List ℕ → Domains → OnTree Domains
unfolding rank_map above backfill_domain append_at add
by_domain [] ds = ret ds
by_domain (rank ∷ ranks) ds = do
  s ← rank_map rank
  more ← λ t. in_domain (backfill_domain (above s.initial_rank t)) s ds t
  by_domain ranks more

-- The active leaves of a domain.
unfoldable pub active_in : List ℕ → List State → List State
unfolding contains
active_in domain [] = []
active_in domain (s ∷ leaves) =
    let rest = active_in domain leaves in
    if contains s.initial_rank domain && is_active s.mode then s ∷ rest else rest

abbrev pub rank_or_zero : Option ℕ → ℕ
rank_or_zero none = 0
rank_or_zero (some r) = r

abbrev pub greater_rank : State → State → Bool
greater_rank s t = leb (rank_or_zero t.active_rank) (rank_or_zero s.active_rank)

unfoldable pub largest : ℕ → List State → List State
largest zero xs = []
largest (suc n) [] = []
largest (suc n) (x ∷ xs) = x ∷ largest n xs

-- reversed(heapq.nlargest(n, leaves, key=active_rank)), by their initial ranks
unfoldable pub largest_reversed : List State → List ℕ → List ℕ
largest_reversed [] keys = keys
largest_reversed (s ∷ leaves) keys = largest_reversed leaves (s.initial_rank ∷ keys)

-- A backfill node and a terminated node, over zip_longest: there are no more of the first. What the
-- terminated node holds does not change meanwhile.
unfoldable pub pair_up : List ℕ → List State → List ℕ → OnTree (List ℕ)
unfolding init_rank_map at_leaf add
pair_up bs [] replaced = ret replaced
pair_up [] (t ∷ ts) replaced = do more ← add_rank t.active_rank replaced; pair_up [] ts more
pair_up (b ∷ bs) (t ∷ ts) replaced = do
  s ← init_rank_map b
  more ← add_rank s.active_rank replaced
  modify (at_leaf b (λ s. record s { active_rank = t.active_rank }) (λ i. i))
  pair_up bs ts more

unfoldable pub backfill_domains : List (List ℕ × List State) → List ℕ → OnTree (List ℕ)
unfolding pair_up largest_reversed largest sorted active_in iter_leaves
backfill_domains [] replaced = ret replaced
backfill_domains ((domain, ts) ∷ ds) replaced = do
  more ← λ t.
      pair_up
        (largest_reversed
          (largest (length ts) (sorted greater_rank (active_in domain (iter_leaves t)))) [])
        ts replaced t
  backfill_domains ds more

unfoldable pub replace_with_backfill : List ℕ → OnTree (List ℕ)
unfolding by_domain backfill_domains sorted
replace_with_backfill unhandled_terminations = do
  ds ← by_domain (sorted leb unhandled_terminations) (record { nodes = []; replaced = [] })
  backfill_domains ds.nodes ds.replaced

-- No more are unhandled than were active.
abbrev pub fewer : ℕ → Option ℕ → Option ℕ
fewer n none = none
fewer n (some size) = some (size - n)

-- bisect_left on the sorted ranks counts the smaller ones.
abbrev pub shifted_rank : List ℕ → Option ℕ → Option ℕ
shifted_rank replaced none = none
shifted_rank replaced (some r) = some (r - below replaced r)

abbrev pub shifted_state : List ℕ → ℕ → State → State
shifted_state replaced n s = record s {
  active_world_size = fewer n s.active_world_size;
  active_rank = shifted_rank replaced s.active_rank;
}

unfoldable pub shift_tree : List ℕ → List ℕ → TreeNode → TreeNode
unfolding at_every_leaf below sorted
shift_tree replaced_active unhandled_terminations =
    at_every_leaf (shifted_state (sorted leb replaced_active) (length unhandled_terminations))
