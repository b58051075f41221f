-- ===== src/InProcess/Filling.antt =====
-- `FillGaps` of inprocess/rank_assignment.py over all ranks.
use nvidia_resiliency_ext_x.Prelude.{
  ℕ, zero, suc, ◌+◌, ◌-◌, ◌≤◌, ◌<◌, ◌≡◌, ◌≢◌, refl, sym, subst, ap, ◌∙◌, true, false, List, [], ◌∷◌,
  length, arith, All, leb, Bool-cases, ◌⊎◌, inl, inr,
}
use nvidia_resiliency_ext_x.Prelude.Eq.{number_keys, ◌==◌, ==_iff}
use nvidia_resiliency_ext_x.Prelude.Keys.{contains, count, contains-of_count}
use nvidia_resiliency_ext_x.Prelude.Sorting.{sorted, length-sorted, count-sorted, contains-sorted}
use nvidia_resiliency_ext_x.Prelude.Method.{ok}
use nvidia_resiliency_ext_x.InProcess.RankAssignment.{
  RankAssignmentCtx, item, filled_rank, fill_gaps,
}
use nvidia_resiliency_ext_x.InProcess.Shifting.{AreRanksOf, at_rank}

-- An index within bounds gives an item of the list.
pub item-contains :
    (xs : List ℕ) (i : ℕ) → i < length xs → (a : ℕ) × (item xs i ≡ ok a) × (contains a xs ≡ true)
unfolding contains
item-contains [] i h = absurd (omega arith)
item-contains (x ∷ xs) zero h = (x, refl, ground (arith, ==_iff x x))
item-contains (x ∷ xs) (suc i) h =
    let (a, e, c) = item-contains xs i (omega arith) in (a, e, ground arith)

pub item-of_ok : (xs : List ℕ) (i a : ℕ) → item xs i ≡ ok a → contains a xs ≡ true
unfolding contains
item-of_ok [] i a h = cc
item-of_ok (x ∷ xs) zero a h = let e : x ≡ a = cc in ground (arith, ==_iff x a)
item-of_ok (x ∷ xs) (suc i) a h = ground (arith, item-of_ok xs i a h)

-- Where no item stands twice, two indices have different items.
item-injective :
    (xs : List ℕ) (i j a : ℕ)
    → ((t : ℕ) → count t xs ≤ 1)
    → item xs i ≡ ok a
    → item xs j ≡ ok a
    → i ≡ j
unfolding count
item-injective [] i j a once h k = cc
item-injective (x ∷ xs) zero zero a once h k = refl
item-injective (x ∷ xs) zero (suc j) a once h k =
    let e : x ≡ a = cc in
    absurd (ground (arith, once a, ==_iff x a, contains-of_count a xs (item-of_ok xs j a k)))
item-injective (x ∷ xs) (suc i) zero a once h k =
    let e : x ≡ a = cc in
    absurd (ground (arith, once a, ==_iff x a, contains-of_count a xs (item-of_ok xs i a h)))
item-injective (x ∷ xs) (suc i) (suc j) a once h k =
    ap suc (item-injective xs i j a (λ t. ground (arith, once t)) h k)

pub contains-All : (P : ℕ → Type 0) (ts : List ℕ) (t : ℕ) → All P ts → contains t ts ≡ true → P t
unfolding contains
contains-All P [] t w h = cc
contains-All P (x ∷ ts) t w h = elim (Bool-cases (x == t)) [
  | inl e ↦ subst P ((==_iff x t).0 e) w.0
  | inr e ↦ contains-All P ts t w.1 (ground arith)
]

-- What a healthy rank becomes: it stays, or takes a terminated one.
abbrev pub IsFilled : List ℕ → ℕ → ℕ → ℕ → Type 0
IsFilled ts size rank a =
    ((rank < size) × (a ≡ rank)) ⊎ ((size ≤ rank) × (item (sorted leb ts) (rank - size) ≡ ok a))

pub filled_rank-IsFilled :
    (ts : List ℕ) (size rank : ℕ)
    → rank < size + length ts
    → (a : ℕ) × (filled_rank ts size rank ≡ ok a) × IsFilled ts size rank a
unfolding filled_rank
filled_rank-IsFilled ts size rank l = elim (Bool-cases (leb size rank)) [
  | inl e ↦
      let far : size ≤ rank = ground arith in
      let inside : rank - size < length (sorted leb ts) = omega (arith, length-sorted leb ts) in
      let (a, q, c) = item-contains (sorted leb ts) (rank - size) inside in
      (a, rw e q, inr (far, q))
  | inr e ↦ (rank, rw e refl, inl (ground arith, refl))
]

IsFilled-lt :
    (ts : List ℕ) (size rank a : ℕ) → All (λ t. t < size) ts → IsFilled ts size rank a → a < size
IsFilled-lt ts size rank a w (inl (l, e)) = omega arith
IsFilled-lt ts size rank a w (inr (l, e)) =
    contains-All (λ t. t < size) ts a w
      (sym (contains-sorted leb a ts) ∙ item-of_ok (sorted leb ts) (rank - size) a e)

IsFilled-distinct :
    (ts : List ℕ) (size r s a : ℕ)
    → ((t : ℕ) → count t ts ≤ 1)
    → contains r ts ≡ false
    → contains s ts ≡ false
    → IsFilled ts size r a
    → IsFilled ts size s a
    → r ≡ s
IsFilled-distinct ts size r s a once h k (inl (l, e)) (inl (m, f)) = omega arith
IsFilled-distinct ts size r s a once h k (inl (l, e)) (inr (m, f)) =
    let c = sym (contains-sorted leb a ts) ∙ item-of_ok (sorted leb ts) (s - size) a f in cc
IsFilled-distinct ts size r s a once h k (inr (l, e)) (inl (m, f)) =
    let c = sym (contains-sorted leb a ts) ∙ item-of_ok (sorted leb ts) (r - size) a e in cc
IsFilled-distinct ts size r s a once h k (inr (l, e)) (inr (m, f)) =
    let same =
      item-injective (sorted leb ts) (r - size) (s - size) a
        (λ t. omega (arith, once t, count-sorted leb t ts)) e f in
    omega arith

abbrev pub filled : RankAssignmentCtx → ℕ → RankAssignmentCtx
filled ctx a = record {
  state = record ctx.state {
    rank = a;
    world_size = ctx.state.world_size - length ctx.terminated_ranks;
  };
  terminated_ranks = [];
}

pub fill_gaps-healthy :
    (ctx : RankAssignmentCtx) (rank a : ℕ)
    → contains rank ctx.terminated_ranks ≡ false
    → filled_rank ctx.terminated_ranks (ctx.state.world_size - length ctx.terminated_ranks) rank
      ≡ ok a
    → fill_gaps (at_rank ctx rank) ≡ ok (filled ctx a)
unfolding fill_gaps
fill_gaps-healthy ctx rank a h e = rw (h, e) refl

-- If the terminated ranks are ranks of the world, none stands twice, and all lie below the new
-- world size, two different healthy ranks get different new ranks, both below the new world size.
pub fill_gaps-distinct :
    (ctx : RankAssignmentCtx) (r s : ℕ)
    → AreRanksOf ctx.state.world_size ctx.terminated_ranks
    → All (λ t. t < ctx.state.world_size - length ctx.terminated_ranks) ctx.terminated_ranks
    → contains r ctx.terminated_ranks ≡ false
    → contains s ctx.terminated_ranks ≡ false
    → r < ctx.state.world_size
    → s < ctx.state.world_size
    → r ≢ s
    → (a : RankAssignmentCtx) × (b : RankAssignmentCtx) × (fill_gaps (at_rank ctx r) ≡ ok a)
      × (fill_gaps (at_rank ctx s) ≡ ok b)
      × (a.state.rank ≢ b.state.rank)
      × (a.state.rank < a.state.world_size)
      × (b.state.rank < b.state.world_size)
fill_gaps-distinct ctx r s w low h k l m n =
    let ts = ctx.terminated_ranks in
    let size = ctx.state.world_size - length ts in
    let (a, e, f) = filled_rank-IsFilled ts size r (omega arith) in
    let (b, p, q) = filled_rank-IsFilled ts size s (omega arith) in
    (
      filled ctx a,
      filled ctx b,
      fill_gaps-healthy ctx r a h e,
      fill_gaps-healthy ctx s b k p,
      λ x. n (IsFilled-distinct ts size r s a w.once h k f (subst (IsFilled ts size s) (sym x) q)),
      IsFilled-lt ts size r a low f,
      IsFilled-lt ts size s b low q,
    )
