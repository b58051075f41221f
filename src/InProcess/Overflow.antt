-- ===== src/InProcess/Overflow.antt =====
-- Where `FillGaps` of inprocess/rank_assignment.py leaves the new world.
use nvidia_resiliency_ext_x.Prelude.{
  ℕ, zero, suc, ◌+◌, ◌-◌, ◌≤◌, ◌<◌, ◌≡◌, ◌∙◌, true, false, List, [], ◌∷◌, length, arith, All, leb,
  Bool-cases, inl, inr,
}
use nvidia_resiliency_ext_x.Prelude.Eq.{number_keys, ◌==◌, ==_iff}
use nvidia_resiliency_ext_x.Prelude.Keys.{contains}
use nvidia_resiliency_ext_x.Prelude.Sorting.{insert, sorted, length-sorted, contains-sorted}
use nvidia_resiliency_ext_x.Prelude.Method.{ok}
use nvidia_resiliency_ext_x.InProcess.RankAssignment.{RankAssignmentCtx, item, fill_gaps}
use nvidia_resiliency_ext_x.InProcess.Shifting.{at_rank}
use nvidia_resiliency_ext_x.InProcess.Filling.{
  IsFilled, item-of_ok, contains-All, filled_rank-IsFilled, filled, fill_gaps-healthy,
}

-- In ascending order.
abbrev IsAscending : List ℕ → Type 0
IsAscending [] = Unit
IsAscending (x ∷ xs) = All (λ y. x ≤ y) xs × IsAscending xs

All-insert :
    (a x : ℕ) (ys : List ℕ) → a ≤ x → All (λ y. a ≤ y) ys → All (λ y. a ≤ y) (insert leb x ys)
unfolding insert
All-insert a x [] h w = (h, tt)
All-insert a x (y ∷ ys) h w = ground (arith, All-insert a x ys h w.1)

All-mono : (a b : ℕ) (ys : List ℕ) → a ≤ b → All (λ y. b ≤ y) ys → All (λ y. a ≤ y) ys
All-mono a b [] h w = tt
All-mono a b (y ∷ ys) h w = (omega arith, All-mono a b ys h w.1)

insert-IsAscending : (x : ℕ) (ys : List ℕ) → IsAscending ys → IsAscending (insert leb x ys)
unfolding insert
insert-IsAscending x [] w = (tt, tt)
insert-IsAscending x (y ∷ ys) w = elim (Bool-cases (leb x y)) [
  | inl e ↦ let l : x ≤ y = ground arith in rw e ((l, All-mono x y ys l w.0), w)
  | inr e ↦
      let l : y ≤ x = ground arith in rw e (All-insert y x ys l w.0, insert-IsAscending x ys w.1)
]

sorted-IsAscending : (xs : List ℕ) → IsAscending (sorted leb xs)
unfolding sorted
sorted-IsAscending [] = tt
sorted-IsAscending (x ∷ xs) = insert-IsAscending x (sorted leb xs) (sorted-IsAscending xs)

-- The last of an ascending list is the greatest.
last_is_greatest :
    (xs : List ℕ) (i a t : ℕ)
    → IsAscending xs
    → suc i ≡ length xs
    → item xs i ≡ ok a
    → contains t xs ≡ true
    → t ≤ a
unfolding contains
last_is_greatest [] i a t w l e c = cc
last_is_greatest (x ∷ []) zero a t w l e c = let q : x ≡ a = cc in ground (arith, ==_iff x t)
last_is_greatest (x ∷ y ∷ xs) zero a t w l e c = absurd (omega arith)
last_is_greatest (x ∷ []) (suc i) a t w l e c = absurd (omega arith)
last_is_greatest (x ∷ y ∷ xs) (suc i) a t w l e c =
    let l2 : suc i ≡ length (y ∷ xs) = omega arith in
    elim (Bool-cases (x == t)) [
      | inl q ↦
          let first = contains-All (λ b. x ≤ b) (y ∷ xs) a w.0 (item-of_ok (y ∷ xs) i a e) in
          omega (arith, (==_iff x t).0 q)
      | inr q ↦ last_is_greatest (y ∷ xs) i a t w.1 l2 e (ground arith)
    ]

contains-length : (t : ℕ) (ts : List ℕ) → contains t ts ≡ true → 0 < length ts
unfolding contains
contains-length t [] h = cc
contains-length t (x ∷ ts) h = omega arith

greatest-overflow :
    (ts : List ℕ) (size last t a : ℕ)
    → contains t ts ≡ true
    → suc last ≡ size + length ts
    → size ≤ t
    → IsFilled ts size last a
    → size ≤ a
greatest-overflow ts size last t a k n m (inl (l, e)) =
    absurd (omega (arith, contains-length t ts k))
greatest-overflow ts size last t a k n m (inr (l, e)) =
    let index : suc (last - size) ≡ length (sorted leb ts) = omega (arith, length-sorted leb ts) in
    omega (
      arith,
      last_is_greatest (sorted leb ts) (last - size) a t (sorted-IsAscending ts) index e
          (contains-sorted leb t ts ∙ k),
    )

-- If the last rank of the world is healthy and a terminated rank is not below the new world size,
-- the last rank gets a new rank that is not below the new world size either.
pub fill_gaps-overflow :
    (ctx : RankAssignmentCtx) (last t : ℕ)
    → ctx.state.world_size ≡ suc last
    → contains last ctx.terminated_ranks ≡ false
    → contains t ctx.terminated_ranks ≡ true
    → length ctx.terminated_ranks ≤ ctx.state.world_size
    → ctx.state.world_size - length ctx.terminated_ranks ≤ t
    → (a : RankAssignmentCtx) × (fill_gaps (at_rank ctx last) ≡ ok a)
      × (a.state.world_size ≤ a.state.rank)
fill_gaps-overflow ctx last t n h k l m =
    let ts = ctx.terminated_ranks in
    let size = ctx.state.world_size - length ts in
    let (a, e, f) = filled_rank-IsFilled ts size last (omega arith) in
    (
      filled ctx a,
      fill_gaps-healthy ctx last a h e,
      greatest-overflow ts size last t a k (omega arith) m f,
    )
