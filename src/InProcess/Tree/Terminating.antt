-- ===== src/InProcess/Tree/Terminating.antt =====
-- The counts of healthy ranks that `propagate_terminations` of inprocess/rank_assignment.py compares.
use nvidia_resiliency_ext_x.Prelude.{
  ℕ, ◌≡◌, refl, ◌∙◌, ◌≤◌, ◌||◌, inl, inr, true, List, [], ◌∷◌, ◌++◌, arith, Bool-cases, ap,
}
use nvidia_resiliency_ext_x.Prelude.Eq.{==_iff, number_keys}
use nvidia_resiliency_ext_x.Prelude.Keys.{contains, contains-append}
use nvidia_resiliency_ext_x.InProcess.RankAssignment.{State}
use nvidia_resiliency_ext_x.InProcess.Tree.Topology.{
  is_terminated, count_not_terminated, ranks_not_terminated,
}

-- A set of ranks within another.
abbrev pub IsWithin : List ℕ → List ℕ → Type 0
IsWithin s t = (r : ℕ) → contains r s ≡ true → contains r t ≡ true

-- The same ranks of these are in both.
abbrev pub AreAlike : List ℕ → List ℕ → List ℕ → Type 0
AreAlike s t ranks = (r : ℕ) → contains r ranks ≡ true → contains r s ≡ contains r t

pub ranks-append :
    (xs ys : List State)
    → ranks_not_terminated (xs ++ ys) ≡ ranks_not_terminated xs ++ ranks_not_terminated ys
unfolding ranks_not_terminated
ranks-append [] ys = refl
ranks-append (x ∷ xs) ys = ground (arith, ranks-append xs ys)

pub contains-ranks_append :
    (r : ℕ) (xs ys : List State)
    → contains r (ranks_not_terminated (xs ++ ys))
      ≡ (contains r (ranks_not_terminated xs) || contains r (ranks_not_terminated ys))
contains-ranks_append r xs ys =
    ap (contains r) (ranks-append xs ys)
    ∙ contains-append r (ranks_not_terminated xs) (ranks_not_terminated ys)

pub count_not_terminated-alike :
    (leaves : List State) (s t : List ℕ)
    → AreAlike s t (ranks_not_terminated leaves)
    → count_not_terminated leaves s ≡ count_not_terminated leaves t
unfolding count_not_terminated ranks_not_terminated contains
count_not_terminated-alike [] s t h = refl
count_not_terminated-alike (x ∷ leaves) s t h = elim (Bool-cases (is_terminated x.mode)) [
  | inl e ↦ ground (arith, count_not_terminated-alike leaves s t (λ r c. h r (ground arith)))
  | inr e ↦ ground (
    arith,
    count_not_terminated-alike leaves s t (λ r c. h r (ground arith)),
    h x.rank (ground (arith, ==_iff x.rank x.rank)),
  )
]

-- The more are terminated, the fewer are left.
pub count_not_terminated-within :
    (leaves : List State) (s t : List ℕ)
    → IsWithin s t
    → count_not_terminated leaves t ≤ count_not_terminated leaves s
unfolding count_not_terminated
count_not_terminated-within [] s t h = omega arith
count_not_terminated-within (x ∷ leaves) s t h =
    ground (arith, count_not_terminated-within leaves s t h, h x.rank)

pub count_not_terminated-none :
    (leaves : List State) (t : List ℕ)
    → IsWithin (ranks_not_terminated leaves) t
    → count_not_terminated leaves t ≡ 0
unfolding count_not_terminated ranks_not_terminated contains
count_not_terminated-none [] t h = refl
count_not_terminated-none (x ∷ leaves) t h = elim (Bool-cases (is_terminated x.mode)) [
  | inl e ↦ ground (arith, count_not_terminated-none leaves t (λ r c. h r (ground arith)))
  | inr e ↦ ground (
    arith,
    count_not_terminated-none leaves t (λ r c. h r (ground arith)),
    h x.rank (ground (arith, ==_iff x.rank x.rank)),
  )
]

pub none-count_not_terminated :
    (leaves : List State) (t : List ℕ)
    → count_not_terminated leaves t ≡ 0
    → IsWithin (ranks_not_terminated leaves) t
unfolding count_not_terminated ranks_not_terminated contains
none-count_not_terminated [] t h r c = absurd (ground arith)
none-count_not_terminated (x ∷ leaves) t h r c =
    ground (arith, none-count_not_terminated leaves t (ground arith) r, ==_iff x.rank r, alike)
  where
    alike : x.rank ≡ r → contains x.rank t ≡ contains r t
    alike e = ap (λ k. contains k t) e
