-- ===== src/InProcess/Tree/Grouping.antt =====
-- The terminated leaves of `Tree.replace_with_backfill` in inprocess/rank_assignment.py by their
-- backfill domains.
use nvidia_resiliency_ext_x.Prelude.{
  ℕ, suc, ◌+◌, ◌≤◌, ◌≡◌, refl, ap, true, Option, none, some, List, [], ◌∷◌, ◌++◌, length,
  if◌then◌else◌, arith, if-cases, All,
}
use nvidia_resiliency_ext_x.Prelude.Eq.{eq_self, number_keys}
use nvidia_resiliency_ext_x.Prelude.Keys.{add, count, count-append, contains-of_count}
use nvidia_resiliency_ext_x.Prelude.Method.{ok}
use nvidia_resiliency_ext_x.InProcess.RankAssignment.{State}
use nvidia_resiliency_ext_x.InProcess.Tree.Topology.{TreeNode}
use nvidia_resiliency_ext_x.InProcess.Tree.Leaves.{above, backfill_domain}
use nvidia_resiliency_ext_x.InProcess.Tree.Reassignment.{
  Domains, same_domain, append_at, in_domain, by_domain,
}
use nvidia_resiliency_ext_x.InProcess.Tree.LeafLists.{is_rank}
use nvidia_resiliency_ext_x.InProcess.Tree.Keeping.{has_rank}
use nvidia_resiliency_ext_x.InProcess.Tree.Ending.{rank_map-found}
use nvidia_resiliency_ext_x.InProcess.Tree.Replacing.{held_by, AreTerminated}

abbrev pub HasRank : State → Type 0
HasRank s = has_rank s.active_rank ≡ true

-- How many of these leaves hold the active rank `v`.
unfoldable pub held_in : ℕ → List State → ℕ
held_in v [] = 0
held_in v (s ∷ ts) = let n = held_in v ts in if is_rank v s.active_rank then suc n else n

unfoldable pub held_in_all : ℕ → List (List ℕ × List State) → ℕ
unfolding held_in
held_in_all v [] = 0
held_in_all v ((d, ts) ∷ ds) = held_in v ts + held_in_all v ds

unfoldable pub number_in_all : List (List ℕ × List State) → ℕ
number_in_all [] = 0
number_in_all ((d, ts) ∷ ds) = length ts + number_in_all ds

abbrev pub HaveRanks : List (List ℕ × List State) → Type 0
HaveRanks ds = All (λ d. All HasRank d.1) ds

-- How often `v` is in the set or held by a leaf of a domain.
abbrev pub content : ℕ → Domains → ℕ
content v ds = held_in_all v ds.nodes + count v ds.replaced

abbrev pub number : Domains → ℕ
number ds = number_in_all ds.nodes + length ds.replaced

held_in-append :
    (v : ℕ) (ts : List State) (s : State)
    → held_in v (ts ++ s ∷ []) ≡ held_in v ts + held_in v (s ∷ [])
unfolding held_in
held_in-append v [] s = omega arith
held_in-append v (t ∷ ts) s = ground (arith, held_in-append v ts s)

length-append_one : (ts : List State) (s : State) → length (ts ++ s ∷ []) ≡ suc (length ts)
length-append_one [] s = refl
length-append_one (t ∷ ts) s = ap suc (length-append_one ts s)

All-append_one :
    (ts : List State) (s : State) → All HasRank ts → HasRank s → All HasRank (ts ++ s ∷ [])
All-append_one [] s h k = (k, tt)
All-append_one (t ∷ ts) s (p, h) k = (p, All-append_one ts s h k)

held_in_all-append_at :
    (v : ℕ) (d : List ℕ) (s : State) (ds : List (List ℕ × List State))
    → held_in_all v (append_at d s ds) ≡ held_in_all v ds + held_in v (s ∷ [])
unfolding held_in_all append_at
held_in_all-append_at v d s [] = omega arith
held_in_all-append_at v d s ((e, ts) ∷ ds) =
    ground (arith, held_in_all-append_at v d s ds, held_in-append v ts s)

number_in_all-append_at :
    (d : List ℕ) (s : State) (ds : List (List ℕ × List State))
    → number_in_all (append_at d s ds) ≡ suc (number_in_all ds)
unfolding number_in_all append_at
number_in_all-append_at d s [] = refl
number_in_all-append_at d s ((e, ts) ∷ ds) =
    ground (arith, number_in_all-append_at d s ds, length-append_one ts s)

HaveRanks-append_at :
    (d : List ℕ) (s : State) (ds : List (List ℕ × List State))
    → HaveRanks ds
    → HasRank s
    → HaveRanks (append_at d s ds)
unfolding append_at
HaveRanks-append_at d s [] h k = ((k, tt), tt)
HaveRanks-append_at d s ((e, ts) ∷ ds) (p, h) k =
    if-cases HaveRanks (same_domain e d) ((e, ts ++ s ∷ []) ∷ ds) ((e, ts) ∷ append_at d s ds)
      (λ i. (All-append_one ts s p k, h)) (λ i. (p, HaveRanks-append_at d s ds h k))

-- A new item of a set.
pub count-add_new :
    (v r : ℕ) (xs : List ℕ) → count r xs ≡ 0 → count v (add r xs) ≡ count v xs + count v (r ∷ [])
unfolding add
count-add_new v r xs h = ground (arith, count-append v xs (r ∷ []), contains-of_count r xs)

length-snoc : (xs : List ℕ) (r : ℕ) → length (xs ++ r ∷ []) ≡ suc (length xs)
length-snoc [] r = refl
length-snoc (x ∷ xs) r = ap suc (length-snoc xs r)

pub length-add_new : (r : ℕ) (xs : List ℕ) → count r xs ≡ 0 → length (add r xs) ≡ suc (length xs)
unfolding add
length-add_new r xs h = ground (arith, length-snoc xs r, contains-of_count r xs)

-- The leaves of these ranks have joined their domains.
pub record IsGrouped (value : ℕ → ℕ) (rs : List ℕ) (ds more : Domains) : Type 0 where
  pub contents : (v : ℕ) → content v more ≡ content v ds + held_by value rs v
  pub numbers : number more ≡ number ds + length rs
  pub ranked : HaveRanks more.nodes

pub held_in_one :
    (v r : ℕ) (s : State) → s.active_rank ≡ some r → held_in v (s ∷ []) ≡ count v (r ∷ [])
unfolding held_in count
held_in_one v r s h = rw h refl

in_domain-IsGrouped :
    (value : ℕ → ℕ) (o : Option (List ℕ)) (r : ℕ) (s : State) (ds : Domains) (t : TreeNode)
    → HaveRanks ds.nodes
    → s.active_rank ≡ some (value r)
    → count (value r) ds.replaced ≡ 0
    → (more : Domains) × (in_domain o s ds t ≡ (ok more, t)) × IsGrouped value (r ∷ []) ds more
unfolding count
in_domain-IsGrouped value none r s ds t w h c = (
  record ds { replaced = add (value r) ds.replaced },
  rw h refl,
  record {
    contents = λ v. omega (arith, count-add_new v (value r) ds.replaced c);
    numbers = omega (arith, length-add_new (value r) ds.replaced c);
    ranked = w;
  },
)
in_domain-IsGrouped value (some d) r s ds t w h c = (
  record ds { nodes = append_at d s ds.nodes },
  refl,
  record {
    contents =
        λ v. ground (arith, held_in_all-append_at v d s ds.nodes, held_in_one v (value r) s h);
    numbers = omega (arith, number_in_all-append_at d s ds.nodes);
    ranked = HaveRanks-append_at d s ds.nodes w (ap has_rank h);
  },
)

pub by_domain-IsGrouped :
    (value : ℕ → ℕ) (rs : List ℕ) (ds : Domains) (t : TreeNode)
    → HaveRanks ds.nodes
    → AreTerminated value t rs
    → ((v : ℕ) → content v ds + held_by value rs v ≤ 1)
    → (more : Domains) × (by_domain rs ds t ≡ (ok more, t)) × IsGrouped value rs ds more
unfolding by_domain count
by_domain-IsGrouped value [] ds t w a b =
    (ds, refl, record { contents = λ v. omega arith; numbers = omega arith; ranked = w })
by_domain-IsGrouped value (r ∷ rs) ds t w ((s, found, over, rank), a) b =
    let fresh : count (value r) ds.replaced ≡ 0 = ground (arith, b (value r), eq_self (value r)) in
    let (next, run, first) =
      in_domain-IsGrouped value (backfill_domain (above s.initial_rank t)) r s ds t w rank fresh in
    let (more, run_rest, rest) =
      by_domain-IsGrouped value rs next t first.ranked a
        (λ v. ground (arith, b v, first.contents v)) in
    (
      more,
      rw (rank_map-found r t s found, run) run_rest,
      record {
        contents = λ v. ground (arith, first.contents v, rest.contents v);
        numbers = omega (arith, first.numbers, rest.numbers);
        ranked = rest.ranked;
      },
    )
