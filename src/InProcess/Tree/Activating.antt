-- ===== src/InProcess/Tree/Activating.antt =====
-- What `bounded_activate` of inprocess/rank_assignment.py does to the nodes on its path.
use nvidia_resiliency_ext_x.Prelude.{
  ℕ, zero, suc, ◌+◌, ◌≡◌, refl, sym, ◌∙◌, ap, ◌≤◌, true, Option, none, some, List, [], ◌∷◌, ◌++◌,
  map, length, length-append, range_from, if◌then◌else◌, arith,
}
use mathlib.Core.List.{map-append}
use mathlib.Core.Path.{subst}
use nvidia_resiliency_ext_x.InProcess.RankAssignment.{State}
use nvidia_resiliency_ext_x.InProcess.Tree.Topology.{
  is_active, Inner, join_inactive, leave_inactive, one_more, below_limit, has_room,
}

-- The active ranks of the active leaves, in their order.
unfoldable pub active_ranks : List State → List (Option ℕ)
active_ranks [] = []
active_ranks (s ∷ leaves) =
    let ranks = active_ranks leaves in if is_active s.mode then s.active_rank ∷ ranks else ranks

pub active_ranks-append :
    (xs ys : List State) → active_ranks (xs ++ ys) ≡ active_ranks xs ++ active_ranks ys
unfolding active_ranks
active_ranks-append [] ys = refl
active_ranks-append (x ∷ xs) ys = ground (arith, active_ranks-append xs ys)

range_from-append : (n a b : ℕ) → range_from n (a + b) ≡ range_from n a ++ range_from (n + a) b
unfolding range_from
range_from-append n zero b =
    ap (range_from n) (omega arith) ∙ ap (λ k. range_from k b) (omega arith)
range_from-append n (suc a) b =
    let more : suc a + b ≡ suc (a + b) = omega arith in
    let next : n + 1 + a ≡ n + suc a = omega arith in
    ap (range_from n) more
    ∙ ap (λ l. n ∷ l)
        (range_from-append (n + 1) a b ∙ ap (λ k. range_from (n + 1) a ++ range_from k b) next)

pub length-active_ranks_append :
    (xs ys : List State)
    → length (active_ranks (xs ++ ys)) ≡ length (active_ranks xs) + length (active_ranks ys)
length-active_ranks_append xs ys =
    ap length (active_ranks-append xs ys) ∙ length-append (active_ranks xs) (active_ranks ys)

-- The numbers from `n` up to `m`, one for each active leaf.
pub record AreNumbered (n : ℕ) (leaves : List State) (m : ℕ) : Type 0 where
  pub counter : m ≡ n + length (active_ranks leaves)
  pub numbers : active_ranks leaves ≡ map some (range_from n (length (active_ranks leaves)))

pub AreNumbered-append :
    {n m o : ℕ} (xs ys : List State)
    → AreNumbered n xs m
    → AreNumbered m ys o
    → AreNumbered n (xs ++ ys) o
AreNumbered-append {n} xs ys p q =
    let a = length (active_ranks xs) in
    let b = length (active_ranks ys) in
    record {
      counter = omega (arith, p.counter, q.counter, length-active_ranks_append xs ys);
      numbers =
          active_ranks-append xs ys
          ∙ ap (λ l. l ++ active_ranks ys) p.numbers
          ∙ ap (λ l. map some (range_from n a) ++ l)
              (q.numbers ∙ ap (λ k. map some (range_from k b)) p.counter)
          ∙ sym (map-append some (range_from n a) (range_from (n + a) b))
          ∙ ap (map some) (sym (range_from-append n a b))
          ∙ ap (λ k. map some (range_from n k)) (sym (length-active_ranks_append xs ys));
    }

abbrev pub IsWithinLimit : Option ℕ → ℕ → Type 0
IsWithinLimit none n = Unit
IsWithinLimit (some max_ranks) n = n ≤ max_ranks

-- A node on the path after `k` of its leaves were activated.
pub record IsRaised (k : ℕ) (i j : Inner) : Type 0 where
  pub same_layer : j.layer ≡ i.layer
  pub counted : j.active_count ≡ i.active_count + k
  pub limited :
      IsWithinLimit i.layer.max_ranks i.active_count
      → IsWithinLimit j.layer.max_ranks j.active_count

abbrev pub AreRaised : ℕ → List Inner → List Inner → Type 0
AreRaised k [] [] = Unit
AreRaised k (i ∷ is) (j ∷ js) = IsRaised k i j × AreRaised k is js
AreRaised k _ _ = ⊥

pub AreRaised-trans :
    (a b : ℕ) (is js ks : List Inner)
    → AreRaised a is js
    → AreRaised b js ks
    → AreRaised (a + b) is ks
AreRaised-trans a b [] [] [] p q = tt
AreRaised-trans a b [] [] (_ ∷ _) p q = absurd q
AreRaised-trans a b [] (_ ∷ _) ks p q = absurd p
AreRaised-trans a b (_ ∷ _) [] ks p q = absurd p
AreRaised-trans a b (_ ∷ _) (_ ∷ _) [] p q = absurd q
AreRaised-trans a b (i ∷ is) (j ∷ js) (k ∷ ks) (p, ps) (q, qs) = (
  record {
    same_layer = q.same_layer ∙ p.same_layer;
    counted = omega (arith, p.counted, q.counted);
    limited = λ h. q.limited (p.limited h);
  },
  AreRaised-trans a b is js ks ps qs,
)

below_limit-fewer :
    (limit : Option ℕ) (m n : ℕ) → m ≤ n → below_limit limit n ≡ true → below_limit limit m ≡ true
below_limit-fewer none m n h e = refl
below_limit-fewer (some max_ranks) m n h e = ground arith

pub IsWithinLimit-zero : (limit : Option ℕ) (n : ℕ) → n ≡ 0 → IsWithinLimit limit n
IsWithinLimit-zero none n e = tt
IsWithinLimit-zero (some max_ranks) n e = omega arith

IsWithinLimit-suc :
    (limit : Option ℕ) (n : ℕ) → below_limit limit n ≡ true → IsWithinLimit limit (suc n)
IsWithinLimit-suc none n e = tt
IsWithinLimit-suc (some max_ranks) n e = ground arith

-- A node that is full stays full.
below_limit-raised :
    (k : ℕ) (i j : Inner)
    → IsRaised k i j
    → below_limit j.layer.max_ranks j.active_count ≡ true
    → below_limit i.layer.max_ranks i.active_count ≡ true
below_limit-raised k i j r h =
    below_limit-fewer i.layer.max_ranks i.active_count j.active_count (omega (arith, r.counted))
      (subst (λ l. below_limit l.max_ranks j.active_count ≡ true) r.same_layer h)

pub has_room-raised :
    (k : ℕ) (is js : List Inner) → AreRaised k is js → has_room js ≡ true → has_room is ≡ true
unfolding has_room
has_room-raised k [] [] r h = refl
has_room-raised k [] (j ∷ js) r h = absurd r
has_room-raised k (i ∷ is) [] r h = absurd r
has_room-raised k (i ∷ is) (j ∷ js) (r, rs) h =
    ground (arith, has_room-raised k is js rs, below_limit-raised k i j r)

pub AreRaised-deactivated :
    (initial_rank : ℕ) (path : List Inner)
    → AreRaised 0 path (map (join_inactive initial_rank) path)
AreRaised-deactivated initial_rank [] = tt
AreRaised-deactivated initial_rank (i ∷ path) = (
  record { same_layer = refl; counted = omega arith; limited = λ h. h },
  AreRaised-deactivated initial_rank path,
)

pub AreRaised-activated :
    (initial_rank : ℕ) (path : List Inner)
    → has_room path ≡ true
    → AreRaised 1 path (map one_more (map (leave_inactive initial_rank) path))
unfolding has_room
AreRaised-activated initial_rank [] h = tt
AreRaised-activated initial_rank (i ∷ path) h = (
  record {
    same_layer = refl;
    counted = omega arith;
    limited = λ w. IsWithinLimit-suc i.layer.max_ranks i.active_count (ground arith);
  },
  AreRaised-activated initial_rank path (ground arith),
)
