-- ===== src/InProcess/Tree/Gaps.antt =====
-- The shift of `Tree.shift_ranks` in inprocess/rank_assignment.py, which closes the gaps that the
-- active ranks set free have left.
use nvidia_resiliency_ext_x.Prelude.{
  ℕ, zero, suc, ◌+◌, ◌-◌, ◌≤◌, ◌<◌, ◌≡◌, refl, sym, ap, ◌∙◌, ◌&&◌, Bool, true, false, Option, none,
  some, List, [], ◌∷◌, map, length, if◌then◌else◌, arith, All, ltb,
}
use nvidia_resiliency_ext_x.Prelude.Eq.{==_iff, eq_self, number_keys}
use nvidia_resiliency_ext_x.Prelude.Keys.{contains, count, contains-of_count, contains-eq-true}
use nvidia_resiliency_ext_x.InProcess.RankAssignment.{State, below}
use nvidia_resiliency_ext_x.InProcess.Tree.Topology.{is_active}
use nvidia_resiliency_ext_x.InProcess.Tree.Reassignment.{shifted_rank, shifted_state}
use nvidia_resiliency_ext_x.InProcess.Tree.LeafLists.{count_active, is_rank}
use nvidia_resiliency_ext_x.InProcess.Shifting.{below-suc, below-eq-length, below-le_self}
use nvidia_resiliency_ext_x.InProcess.Tree.RankSets.{SameItems-map}

-- One for an active rank of this world, none for any other.
abbrev pub once_below : ℕ → ℕ → ℕ
once_below size v = if ltb v size then 1 else 0

abbrev with_active : Bool → Option ℕ → List ℕ → List ℕ
with_active true (some r) ranks = r ∷ ranks
with_active _ _ ranks = ranks

unfoldable pub ranks_in_use : List State → List ℕ
ranks_in_use [] = []
ranks_in_use (s ∷ leaves) = with_active (is_active s.mode) s.active_rank (ranks_in_use leaves)

count-with_active :
    (v : ℕ) (b : Bool) (o : Option ℕ) (ranks : List ℕ)
    → count v (with_active b o ranks)
      ≡ (if b && is_rank v o then suc (count v ranks) else count v ranks)
unfolding count
count-with_active v true (some r) ranks = refl
count-with_active v true none ranks = refl
count-with_active v false o ranks = refl

pub count-ranks_in_use :
    (v : ℕ) (leaves : List State) → count v (ranks_in_use leaves) ≡ count_active v leaves
unfolding count ranks_in_use count_active
count-ranks_in_use v [] = refl
count-ranks_in_use v (s ∷ leaves) =
    rw (count-with_active v (is_active s.mode) s.active_rank (ranks_in_use leaves))
      (rw (count-ranks_in_use v leaves) refl)

-- Where an active rank goes.
abbrev pub moved : List ℕ → ℕ → ℕ
moved gaps r = r - below gaps r

map-with_active :
    (gaps : List ℕ) (b : Bool) (o : Option ℕ) (ranks : List ℕ)
    → with_active b (shifted_rank gaps o) (map (moved gaps) ranks)
      ≡ map (moved gaps) (with_active b o ranks)
map-with_active gaps true (some r) ranks = refl
map-with_active gaps true none ranks = refl
map-with_active gaps false o ranks = refl

ranks_in_use-shifted_state :
    (gaps : List ℕ) (n : ℕ) (leaves : List State)
    → ranks_in_use (map (shifted_state gaps n) leaves) ≡ map (moved gaps) (ranks_in_use leaves)
unfolding ranks_in_use
ranks_in_use-shifted_state gaps n [] = refl
ranks_in_use-shifted_state gaps n (s ∷ leaves) =
    rw (ranks_in_use-shifted_state gaps n leaves)
      (map-with_active gaps (is_active s.mode) s.active_rank (ranks_in_use leaves))

-- The ranks of a world that are not among the gaps.
unfoldable kept : List ℕ → ℕ → List ℕ
unfolding contains
kept gaps zero = []
kept gaps (suc n) = let rest = kept gaps n in if contains n gaps then rest else n ∷ rest

count-kept :
    (gaps : List ℕ) (n v : ℕ)
    → count v (kept gaps n) ≡ (if contains v gaps then 0 else once_below n v)
unfolding count kept
count-kept gaps zero v = ground arith
count-kept gaps (suc n) v =
    ground (arith, count-kept gaps n v, ==_iff n v, ap (λ j. contains j gaps))

count-moved :
    (gaps : List ℕ) (n v : ℕ)
    → ((r : ℕ) → count r gaps ≤ 1)
    → count v (map (moved gaps) (kept gaps n)) ≡ once_below (n - below gaps n) v
unfolding count kept
count-moved gaps zero v once = ground arith
count-moved gaps (suc n) v once = ground (
  arith,
  count-moved gaps n v once,
  below-suc gaps n,
  once n,
  below-le_self gaps n once,
  contains-of_count n gaps,
  contains-eq-true n gaps,
  ==_iff (moved gaps n) v,
)

pub All-of_contains :
    (P : ℕ → Type 0) (xs : List ℕ) → ((k : ℕ) → contains k xs ≡ true → P k) → All P xs
unfolding contains
All-of_contains P [] h = tt
All-of_contains P (x ∷ xs) h =
    (h x (ground (arith, eq_self x)), All-of_contains P xs (λ k c. h k (ground arith)))

-- Where the active ranks and the gaps are those of a world, the shifted_rank ranks are those of a smaller
-- one.
pub count_active-shifted_state :
    (gaps : List ℕ) (n size : ℕ) (leaves : List State) (v : ℕ)
    → ((r : ℕ) → count_active r leaves + count r gaps ≡ once_below size r)
    → count_active v (map (shifted_state gaps n) leaves) ≡ once_below (size - length gaps) v
count_active-shifted_state gaps n size leaves v h =
    let once : (r : ℕ) → count r gaps ≤ 1 = λ r. ground (arith, h r) in
    let same : (r : ℕ) → count r (ranks_in_use leaves) ≡ count r (kept gaps size) = λ r. ground (
      arith,
      h r,
      once r,
      count-ranks_in_use r leaves,
      count-kept gaps size r,
      contains-of_count r gaps,
      contains-eq-true r gaps,
    ) in
    let inside : All (λ r. r < size) gaps =
      All-of_contains (λ r. r < size) gaps
        (λ r c. ground (arith, h r, contains-of_count r gaps c)) in
    sym (count-ranks_in_use v (map (shifted_state gaps n) leaves))
    ∙ ap (count v) (ranks_in_use-shifted_state gaps n leaves)
    ∙ SameItems-map (moved gaps) v (ranks_in_use leaves) (kept gaps size) same
    ∙ count-moved gaps size v once
    ∙ ap (λ m. once_below (size - m) v) (below-eq-length gaps size inside)
