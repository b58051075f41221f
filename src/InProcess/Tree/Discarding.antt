-- ===== src/InProcess/Tree/Discarding.antt =====
-- Which leaves `Tree.__call__` of inprocess/rank_assignment.py terminates.
use nvidia_resiliency_ext_x.Prelude.{
  ℕ, ◌≡◌, refl, sym, ap, ◌∙◌, subst, ◌||◌, Bool, true, false, some, some-injective, List, [], ◌∷◌,
  if◌then◌else◌, arith, Bool-cases, inl, inr, All,
}
use nvidia_resiliency_ext_x.Prelude.Eq.{◌==◌, ==_iff, eq_self, number_keys}
use nvidia_resiliency_ext_x.Prelude.Keys.{contains}
use nvidia_resiliency_ext_x.Prelude.Method.{ok}
use nvidia_resiliency_ext_x.InProcess.RankAssignment.{terminated, State}
use nvidia_resiliency_ext_x.InProcess.Tree.Topology.{
  TreeNode, iter_leaves, initial_ranks, is_terminated, leave_inactive,
}
use nvidia_resiliency_ext_x.InProcess.Tree.Leaves.{
  with_rank, with_initial_rank, rank_map, terminate,
}
use nvidia_resiliency_ext_x.InProcess.Tree.Reassignment.{terminate_all}
use nvidia_resiliency_ext_x.InProcess.Tree.LeafLists.{
  AreApart, with_initial_rank-changed, iter_leaves-at_leaf,
}
use nvidia_resiliency_ext_x.InProcess.Tree.Reserving.{
  with_rank-with_initial_rank, contains-with_initial_rank,
}
use nvidia_resiliency_ext_x.InProcess.Tree.Keeping.{ranks, ended, IsSound}
use nvidia_resiliency_ext_x.InProcess.Tree.Ending.{
  IsFound, with_rank-found, with_rank-rank, rank_map-found, terminate-Keeps,
}

contains-ranks :
    (k : ℕ) (leaves : List State) (s : State)
    → with_initial_rank k leaves ≡ some s
    → contains s.rank (ranks leaves) ≡ true
unfolding with_initial_rank contains
contains-ranks k [] s h = absurd (ground arith)
contains-ranks k (t ∷ leaves) s h = elim (Bool-cases (t.initial_rank == k)) [
  | inl e ↦
      let same : t ≡ s = some-injective t s (ground arith) in
      subst (λ (x : State). contains x.rank (ranks (t ∷ leaves)) ≡ true) same
        (rw (eq_self t.rank) refl)
  | inr e ↦ ground (arith, contains-ranks k leaves s)
]

-- Where no two leaves have the same rank, a leaf is found by its rank.
with_rank-own :
    (k : ℕ) (leaves : List State) (s : State)
    → AreApart (ranks leaves)
    → with_initial_rank k leaves ≡ some s
    → with_rank s.rank leaves ≡ some s
unfolding with_initial_rank with_rank contains
with_rank-own k [] s a h = absurd (ground arith)
with_rank-own k (t ∷ leaves) s (c, a) h = elim (Bool-cases (t.initial_rank == k)) [
  | inl e ↦
      let same : t ≡ s = some-injective t s (ground arith) in
      subst (λ (x : State). with_rank x.rank (t ∷ leaves) ≡ some x) same (rw (eq_self t.rank) refl)
  | inr e ↦
      let later : with_initial_rank k leaves ≡ some s = ground arith in
      let differ : (t.rank == s.rank) ≡ false = ground (
        arith,
        ==_iff t.rank s.rank,
        ap (λ j. contains j (ranks leaves)),
        contains-ranks k leaves s later,
      ) in
      rw differ (with_rank-own k leaves s a later)
]

-- A leaf that is terminated, or was not.
terminate-leaf :
    (r k : ℕ) (s x : State) (t : TreeNode)
    → IsSound t
    → AreApart (ranks (iter_leaves t))
    → with_rank r (iter_leaves t) ≡ some s
    → with_initial_rank k (iter_leaves t) ≡ some x
    → with_initial_rank k (iter_leaves (terminate s.initial_rank t))
      ≡ some (if r == x.rank then record x { mode = terminated } else x)
unfolding terminate
terminate-leaf r k s x t w a found own =
    let f = λ (u : State). record u { mode = terminated } in
    rw (iter_leaves-at_leaf s.initial_rank f (leave_inactive s.initial_rank) t) (
      with_initial_rank-changed s.initial_rank f k (iter_leaves t) x (λ u. refl) own
      ∙ ap (λ (b : Bool). some (if b then f x else x)) same_test)
  where
    at_s : with_initial_rank s.initial_rank (iter_leaves t) ≡ some s
    at_s = with_rank-with_initial_rank r (iter_leaves t) s w.apart found

    key : x.initial_rank ≡ k
    key = (contains-with_initial_rank k (iter_leaves t) x own).1

    same_rank : x ≡ s → r ≡ x.rank
    same_rank e = sym (ap (λ (u : State). u.rank) e ∙ with_rank-rank r (iter_leaves t) s found)

    same_leaf : r ≡ x.rank → x.initial_rank ≡ s.initial_rank
    same_leaf e =
        ap (λ (u : State). u.initial_rank)
          (some-injective x s (
            sym (with_rank-own k (iter_leaves t) x a own)
            ∙ subst (λ j. with_rank j (iter_leaves t) ≡ some s) e found))

    same_test : (x.initial_rank == s.initial_rank) ≡ (r == x.rank)
    same_test = elim (Bool-cases (x.initial_rank == s.initial_rank)) [
      | inl e ↦
          let both : x.initial_rank ≡ s.initial_rank = (==_iff x.initial_rank s.initial_rank).0 e in
          let same : x ≡ s =
            some-injective x s
              (sym own ∙ ap (λ j. with_initial_rank j (iter_leaves t)) (sym key ∙ both) ∙ at_s) in
          e ∙ sym ((==_iff r x.rank).1 (same_rank same))
      | inr e ↦ ground (arith, ==_iff r x.rank, ==_iff x.initial_rank s.initial_rank, same_leaf)
    ]

terminate_all-cons :
    (r : ℕ) (rs : List ℕ) (s : State) (t : TreeNode)
    → rank_map r t ≡ (ok s, t)
    → terminate_all (r ∷ rs) t ≡ terminate_all rs (terminate s.initial_rank t)
unfolding terminate_all
terminate_all-cons r rs s t e = rw e refl

abbrev ended_if : Bool → State → State
ended_if b x = if b then record x { mode = terminated } else x

ended_by :
    (r : ℕ) (rs : List ℕ) (x : State)
    → (is_terminated (ended_if (r == x.rank) x).mode || contains (ended_if (r == x.rank) x).rank rs)
      ≡ (is_terminated x.mode || (r == x.rank || contains x.rank rs))
ended_by r rs x = elim (Bool-cases (r == x.rank)) [
  | inl e ↦ rw e (ground arith)
  | inr e ↦ rw e refl
]

-- Whether the leaf of this initial rank is terminated.
pub terminate_all-ended :
    (k : ℕ) (rs : List ℕ) (t u : TreeNode) (x : State)
    → IsSound t
    → AreApart (ranks (iter_leaves t))
    → All (IsFound t) rs
    → terminate_all rs t ≡ (ok tt, u)
    → with_initial_rank k (iter_leaves t) ≡ some x
    → (y : State) × (with_initial_rank k (iter_leaves u) ≡ some y)
      × (is_terminated y.mode ≡ (is_terminated x.mode || contains x.rank rs))
unfolding terminate_all contains
terminate_all-ended k [] t u x w a f run own =
    let same : t ≡ u = ap (λ p. p.1) run in
    (x, subst (λ n. with_initial_rank k (iter_leaves n) ≡ some x) same own, ground arith)
terminate_all-ended k (r ∷ rs) t u x w a (f, fs) run own =
    let (s, found, rank) = with_rank-found r (iter_leaves t) f in
    let keeps = terminate-Keeps r s t found w in
    let same_ranks = keeps.follows.same_ranks in
    let (y, own_after, e) =
      terminate_all-ended k rs (terminate s.initial_rank t) u
        (if r == x.rank then record x { mode = terminated } else x) keeps.follows.sound
        (subst AreApart (sym same_ranks) a)
        (subst (λ l. All (λ q. contains q l ≡ true) rs) (sym same_ranks) fs)
        (sym (terminate_all-cons r rs s t (rank_map-found r t s found)) ∙ run)
        (terminate-leaf r k s x t w a found own) in
    (y, own_after, e ∙ ended_by r rs x)

-- Leaves of the same initial ranks of which the same are terminated.
pub ended-with_initial_rank :
    (k : ℕ) (xs ys : List State) (x y : State)
    → initial_ranks xs ≡ initial_ranks ys
    → ended xs ≡ ended ys
    → with_initial_rank k xs ≡ some x
    → with_initial_rank k ys ≡ some y
    → is_terminated x.mode ≡ is_terminated y.mode
unfolding with_initial_rank
ended-with_initial_rank k [] ys x y i e f g = absurd (ground arith)
ended-with_initial_rank k (a ∷ xs) [] x y i e f g = absurd (ground arith)
ended-with_initial_rank k (a ∷ xs) (b ∷ ys) x y i e f g = elim (Bool-cases (a.initial_rank == k)) [
  | inl c ↦
      let first : a ≡ x = some-injective a x (ground arith) in
      let second : b ≡ y = some-injective b y (ground arith) in
      ground (
        arith,
        ap (λ (s : State). is_terminated s.mode) first,
        ap (λ (s : State). is_terminated s.mode) second,
      )
  | inr c ↦
      ended-with_initial_rank k xs ys x y (ground arith) (ground arith) (ground arith)
        (ground arith)
]
