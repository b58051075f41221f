-- ===== src/InProcess/Tree/Backfilling.antt =====
-- `replace_with_backfill` of `Tree` in inprocess/rank_assignment.py: active leaves take over the active
-- ranks of terminated ones, and theirs are set free.
use nvidia_resiliency_ext_x.Prelude.{
  ℕ, ◌+◌, ◌≤◌, ◌≡◌, refl, ap, ◌∙◌, true, Option, none, some, some-injective, List, [], ◌∷◌, length,
  arith, Bool-cases, inl, inr, All, All-mono,
}
use nvidia_resiliency_ext_x.Prelude.Eq.{◌==◌, eq_self, number_keys}
use nvidia_resiliency_ext_x.Prelude.Keys.{add, count}
use nvidia_resiliency_ext_x.Prelude.Method.{ok}
use nvidia_resiliency_ext_x.InProcess.RankAssignment.{State}
use nvidia_resiliency_ext_x.InProcess.Tree.Topology.{TreeNode, iter_leaves, is_active}
use nvidia_resiliency_ext_x.InProcess.Tree.Leaves.{at_leaf, with_initial_rank, init_rank_map}
use nvidia_resiliency_ext_x.InProcess.Tree.Reassignment.{pair_up}
use nvidia_resiliency_ext_x.InProcess.Tree.LeafLists.{count_active, is_rank}
use nvidia_resiliency_ext_x.InProcess.Tree.Keeping.{
  ended, has_rank, IsRanked, IsSound, Keeps, Keeps-refl, Keeps-trans,
}
use nvidia_resiliency_ext_x.InProcess.Tree.Grouping.{
  HasRank, held_in, count-add_new, length-add_new,
}
use nvidia_resiliency_ext_x.InProcess.Tree.Exchanging.{
  IsActiveLeaf, exchanged, All-with_initial_rank, exchanged-Keeps, exchanged-ended, exchanged-count,
  still_active,
}

-- How often an active rank is that of an active leaf or in the set, after leaves took over theirs.
pub record IsPaired (held : ℕ → ℕ) (n : ℕ) (replaced more : List ℕ) (t u : TreeNode) : Type 0 where
  pub keeps : Keeps t u
  pub counts :
      (v : ℕ)
      → count_active v (iter_leaves u) + count v more
        ≡ count_active v (iter_leaves t) + held v + count v replaced
  pub ends : ended (iter_leaves u) ≡ ended (iter_leaves t)
  pub numbers : length more ≡ n + length replaced

abbrev pub IsBounded : (ℕ → ℕ) → List ℕ → TreeNode → Type 0
IsBounded held replaced t = (v : ℕ) → count_active v (iter_leaves t) + held v + count v replaced ≤ 1

count_active-found :
    (k : ℕ) (leaves : List State) (s : State) (r : ℕ)
    → with_initial_rank k leaves ≡ some s
    → is_active s.mode ≡ true
    → s.active_rank ≡ some r
    → 1 ≤ count_active r leaves
unfolding with_initial_rank count_active
count_active-found k [] s r h e a = absurd (ground arith)
count_active-found k (t ∷ leaves) s r h e a = elim (Bool-cases (t.initial_rank == k)) [
  | inl i ↦
      let same : t ≡ s = some-injective t s (ground arith) in
      ground (
        arith,
        ap (λ (x : State). is_active x.mode) same,
        ap (λ (x : State). is_rank r x.active_rank) same,
        ap (is_rank r) a,
        eq_self r,
      )
  | inr i ↦ ground (arith, count_active-found k leaves s r)
]

has_rank-some : (o : Option ℕ) → has_rank o ≡ true → (r : ℕ) × (o ≡ some r)
has_rank-some none h = absurd (ground arith)
has_rank-some (some r) h = (r, refl)

pair_up-cons :
    (k : ℕ) (bs : List ℕ) (x : State) (ts : List State) (replaced : List ℕ) (t : TreeNode)
    (s : State) (r v : ℕ)
    → with_initial_rank k (iter_leaves t) ≡ some s
    → s.active_rank ≡ some r
    → x.active_rank ≡ some v
    → pair_up (k ∷ bs) (x ∷ ts) replaced t
      ≡ pair_up bs ts (add r replaced) (at_leaf k (exchanged (some v)) (λ i. i) t)
unfolding pair_up init_rank_map
pair_up-cons k bs x ts replaced t s r v found had holds = rw found (rw had (rw holds refl))

pair_up-nil :
    (x : State) (ts : List State) (replaced : List ℕ) (t : TreeNode) (v : ℕ)
    → x.active_rank ≡ some v
    → pair_up [] (x ∷ ts) replaced t ≡ pair_up [] ts (add v replaced) t
unfolding pair_up
pair_up-nil x ts replaced t v holds = rw holds refl

-- The active rank of a terminated leaf is set free.
freed-IsPaired :
    (x : State) (ts : List State) (replaced more : List ℕ) (t u : TreeNode) (v : ℕ)
    → x.active_rank ≡ some v
    → count v replaced ≡ 0
    → IsPaired (λ j. held_in j ts) (length ts) (add v replaced) more t u
    → IsPaired (λ j. held_in j (x ∷ ts)) (length (x ∷ ts)) replaced more t u
unfolding count held_in
freed-IsPaired x ts replaced more t u v holds fresh rest = record {
  keeps = rest.keeps;
  counts =
      λ j. ground (arith, rest.counts j, count-add_new j v replaced fresh, ap (is_rank j) holds);
  ends = rest.ends;
  numbers = omega (arith, rest.numbers, length-add_new v replaced fresh);
}

-- It goes to an active leaf, of which the active rank is set free.
exchanged-IsPaired :
    (x s : State) (ts : List State) (k : ℕ) (replaced more : List ℕ) (t u : TreeNode) (r v : ℕ)
    → (w : IsSound t) → (found : with_initial_rank k (iter_leaves t) ≡ some s)
    → (works : is_active s.mode ≡ true) → s.active_rank ≡ some r
    → x.active_rank ≡ some v
    → count r replaced ≡ 0
    → IsPaired
        (λ j. held_in j ts)
        (length ts)
        (add r replaced)
        more
        (at_leaf k (exchanged (some v)) (λ i. i) t)
        u
    → IsPaired (λ j. held_in j (x ∷ ts)) (length (x ∷ ts)) replaced more t u
unfolding count held_in
exchanged-IsPaired x s ts k replaced more t u r v w found works had holds fresh rest = record {
  keeps = Keeps-trans (exchanged-Keeps t w k s v found works) rest.keeps;
  counts = λ j. ground (
    arith,
    rest.counts j,
    count-add_new j r replaced fresh,
    ap (is_rank j) holds,
    exchanged-count t w k s v found works r j had,
  );
  ends = rest.ends ∙ exchanged-ended t w k s v found works;
  numbers = omega (arith, rest.numbers, length-add_new r replaced fresh);
}

pub pair_up-IsPaired :
    (bs : List ℕ) (ts : List State) (replaced : List ℕ) (t : TreeNode)
    → IsSound t
    → All (IsActiveLeaf t) bs
    → All HasRank ts
    → IsBounded (λ v. held_in v ts) replaced t
    → (more : List ℕ) × (u : TreeNode) × (pair_up bs ts replaced t ≡ (ok more, u))
      × IsPaired (λ v. held_in v ts) (length ts) replaced more t u
unfolding pair_up count held_in
pair_up-IsPaired bs [] replaced t w a h b = (
  replaced,
  t,
  refl,
  record { keeps = Keeps-refl t w; counts = λ v. omega arith; ends = refl; numbers = omega arith },
)
pair_up-IsPaired [] (x ∷ ts) replaced t w a (p, h) b =
    let (v, holds) = has_rank-some x.active_rank p in
    let fresh : count v replaced ≡ 0 = ground (arith, b v, eq_self v, ap (is_rank v) holds) in
    let (more, u, run, rest) =
      pair_up-IsPaired [] ts (add v replaced) t w tt h
        (λ j. ground (arith, b j, count-add_new j v replaced fresh, ap (is_rank j) holds)) in
    (
      more,
      u,
      pair_up-nil x ts replaced t v holds ∙ run,
      freed-IsPaired x ts replaced more t u v holds fresh rest,
    )
pair_up-IsPaired (k ∷ bs) (x ∷ ts) replaced t w ((s, found, works), a) (p, h) b =
    let (v, holds) = has_rank-some x.active_rank p in
    let (r, had) =
      has_rank-some s.active_rank
        (All-with_initial_rank IsRanked k (iter_leaves t) s w.ranked found works) in
    let fresh : count r replaced ≡ 0 =
      ground (arith, b r, count_active-found k (iter_leaves t) s r found works had) in
    let (more, u, run, rest) =
      pair_up-IsPaired bs ts (add r replaced) (at_leaf k (exchanged (some v)) (λ i. i) t)
        (exchanged-Keeps t w k s v found works).follows.sound
        (All-mono bs (still_active t w k s v found works) a) h
        (λ j. ground (
          arith,
          b j,
          count-add_new j r replaced fresh,
          ap (is_rank j) holds,
          exchanged-count t w k s v found works r j had,
        )) in
    (
      more,
      u,
      pair_up-cons k bs x ts replaced t s r v found had holds ∙ run,
      exchanged-IsPaired x s ts k replaced more t u r v w found works had holds fresh rest,
    )
