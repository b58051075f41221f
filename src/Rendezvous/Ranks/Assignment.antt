-- ===== src/Rendezvous/Ranks/Assignment.antt =====
-- `_assign_ranks` gives the participants the ranks below their number, each once.
use nvidia_resiliency_ext_x.Prelude.{
  ℕ, suc, ◌+◌, ◌≤◌, ◌<◌, ◌≡◌, refl, sym, ap, ◌∙◌, true, false, Option, none, some, List, [], ◌∷◌,
  arith, ltb, leb, length, range_from, length-range_from, if◌then◌else◌,
}
use nvidia_resiliency_ext_x.Prelude.Eq.{==_iff, eq_self, number_keys}
use nvidia_resiliency_ext_x.Prelude.Dict.{Dict, keys, values, get, has, IsUnique}
use nvidia_resiliency_ext_x.Prelude.Keys.{
  contains, count, contains-of_count, contains-eq-true, contains-eq-false,
}
use nvidia_resiliency_ext_x.Prelude.Sorting.{sorted, count-sorted, contains-sorted, length-sorted}
use nvidia_resiliency_ext_x.Rendezvous.Base.{NodeDesc, node_eq, node_le, ok}
use nvidia_resiliency_ext_x.Rendezvous.Ranks.{kept_rank, fill, none_left, assign_ranks}
use nvidia_resiliency_ext_x.Rendezvous.Ranks.Counting.{
  IsInjective, count-range_from, kept, vacant, IsReserved, IsDistinct, IsFree, kept_rank-eq_some,
  reserve_lem,
}

-- What the second loop delivers.
record IsFilled (res : Dict NodeDesc (Option ℕ)) (free : List ℕ) (out : Dict NodeDesc ℕ)
    : Type 0 where
  same_keys : keys out ≡ keys res
  balanced : (r : ℕ) → count r (values out) ≡ count r (kept res) + count r free
  reused : (p : NodeDesc) (r : ℕ) → get p res ≡ some (some r) → get p out ≡ some r

-- With a free rank for each node that lacks one, the second loop uses them up and does not raise.
fill_lem :
    (res : Dict NodeDesc (Option ℕ)) (free : List ℕ)
    → vacant res ≡ length free
    → (out : Dict NodeDesc ℕ) × (fill res free ≡ ok (out, [])) × IsFilled res free out
unfolding fill count get
fill_lem [] [] h =
    ([], refl, record { same_keys = refl; balanced = λ r. omega arith; reused = λ p r k. cc })
fill_lem [] (x ∷ free) h = absurd (omega arith)
fill_lem ((p, some x) ∷ res) free h =
    let (out, e, i) = fill_lem res free h in
    (
      (p, x) ∷ out,
      rw e,
      record {
        same_keys = ap (λ l. p ∷ l) i.same_keys;
        balanced = λ r. ground (arith, i.balanced r);
        reused = λ q r k. ground (arith, i.reused q r);
      },
    )
fill_lem ((p, none) ∷ res) [] h = absurd (omega arith)
fill_lem ((p, none) ∷ res) (x ∷ free) h =
    let (out, e, i) = fill_lem res free (omega arith) in
    (
      (p, x) ∷ out,
      rw e,
      record {
        same_keys = ap (λ l. p ∷ l) i.same_keys;
        balanced = λ r. ground (arith, i.balanced r);
        reused = λ q r k. ground (arith, i.reused q r);
      },
    )

-- Keys of a dict are distinct, and stay so when they are sorted.
contains-keys : {V : Type 0} (p : NodeDesc) (d : Dict NodeDesc V) → contains p (keys d) ≡ has p d
unfolding contains has
contains-keys p [] = refl
contains-keys p ((j, v) ∷ d) = rw (contains-keys p d)

count-keys-eq_zero : (p : NodeDesc) (d : Dict NodeDesc ℕ) → has p d ≡ false → count p (keys d) ≡ 0
unfolding count has
count-keys-eq_zero p [] h = refl
count-keys-eq_zero p ((j, v) ∷ d) h = ground (arith, count-keys-eq_zero p d)

count-keys-le : (p : NodeDesc) (d : Dict NodeDesc ℕ) → IsUnique d → count p (keys d) ≤ 1
unfolding count
count-keys-le p [] u = omega arith
count-keys-le p ((j, v) ∷ d) u =
    ground (arith, count-keys-le p d, count-keys-eq_zero p d, ==_iff j p)

IsDistinct-of_count : (ps : List NodeDesc) → ((p : NodeDesc) → count p ps ≤ 1) → IsDistinct ps
unfolding count contains
IsDistinct-of_count [] h = tt
IsDistinct-of_count (p ∷ ps) h = (
  contains-eq-false p ps (ground (arith, h p, eq_self p)),
  IsDistinct-of_count ps (λ q. ground (arith, h q)),
)

sorted-keys-IsDistinct : (d : Dict NodeDesc ℕ) → IsUnique d → IsDistinct (sorted node_le (keys d))
sorted-keys-IsDistinct d u =
    IsDistinct-of_count (sorted node_le (keys d))
      λ p. rw (count-sorted node_le p (keys d)) (count-keys-le p d u)

contains-of_range : (r n : ℕ) → r < n → contains r (range_from 0 n) ≡ true
contains-of_range r n h =
    contains-eq-true r (range_from 0 n) (ground (arith, count-range_from r 0 n))

length-keys : (d : Dict NodeDesc ℕ) → length (keys d) ≡ length d
length-keys [] = refl
length-keys ((j, v) ∷ d) = ap suc (length-keys d)

IsUnique-of_keys : (d : Dict NodeDesc ℕ) → IsDistinct (keys d) → IsUnique d
IsUnique-of_keys [] h = tt
IsUnique-of_keys ((j, v) ∷ d) h = (rw (← contains-keys) h.0, IsUnique-of_keys d h.1)

-- What `_assign_ranks` promises: the nodes stay, every rank below their number is given once, and
-- a node keeps its previous rank where that is below the number of nodes.
pub record IsRanking (participants : Dict NodeDesc ℕ) (prev : Dict NodeDesc ℕ)
    (out : Dict NodeDesc ℕ) : Type 0 where
  pub in_order : keys out ≡ sorted node_le (keys participants)
  pub each_rank_once :
      (r : ℕ) → count r (values out) ≡ (if ltb r (length participants) then 1 else 0)
  pub rank_kept :
      (p : NodeDesc) (r : ℕ)
      → has p participants ≡ true
      → get p prev ≡ some r
      → r < length participants
      → get p out ≡ some r

range-IsFree :
    (prev : Dict NodeDesc ℕ) (ps : List NodeDesc) (n : ℕ) → IsFree n prev ps (range_from 0 n)
range-IsFree prev ps n p r h k = contains-of_range r n (kept_rank-eq_some n (get p prev) r k).1

kept_rank-below : (n : ℕ) (o : Option ℕ) (r : ℕ) → o ≡ some r → r < n → kept_rank n o ≡ some r
unfolding kept_rank
kept_rank-below n o r e h = ground arith

-- Of the two loops' results, what the whole function promises.
loops-IsRanking :
    (participants prev : Dict NodeDesc ℕ) {res : Dict NodeDesc (Option ℕ)} {left : List ℕ}
    {out : Dict NodeDesc ℕ}
    → let n = length participants in
      let ps = sorted node_le (keys participants) in
      IsReserved n prev ps (range_from 0 n) res left
      → IsFilled res (sorted leb left) out
      → IsRanking participants prev out
loops-IsRanking participants prev {left} i j = record {
  in_order = j.same_keys ∙ i.same_keys;
  each_rank_once = λ r.
      rw (j.balanced r, count-sorted leb r left, ← (i.balanced r))
        (ground (arith, count-range_from r 0 (length participants)));
  rank_kept = λ p r member found below. j.reused p r (
      i.reused p (
        contains-eq-true p (sorted node_le (keys participants)) (
          rw (count-sorted node_le p (keys participants))
            (contains-of_count p (keys participants) (rw contains-keys member))))
      ∙ ap some (kept_rank-below (length participants) (get p prev) r found below));
}

-- For a dict of participants with unique keys and previous ranks of which no two are equal,
-- _assign_ranks raises nothing and returns the participants in the order of their descriptors with
-- every rank below their number given once; a participant whose previous rank is below that number
-- keeps it.
pub assign_ranks-IsRanking :
    (participants prev : Dict NodeDesc ℕ)
    → IsUnique participants
    → IsInjective prev
    → (out : Dict NodeDesc ℕ) × (assign_ranks participants prev ≡ ok out)
      × IsRanking participants prev out
unfolding assign_ranks none_left
assign_ranks-IsRanking participants prev u inj =
    let n = length participants in
    let ps = sorted node_le (keys participants) in
    let (res, left, e, i) =
      reserve_lem n prev ps (range_from 0 n) inj (sorted-keys-IsDistinct participants u)
        (range-IsFree prev ps n) in
    let (out, e', j) = fill_lem res (sorted leb left) (
      omega (
        arith,
        i.sized,
        length-sorted leb left,
        length-range_from 0 n,
        length-sorted node_le (keys participants),
        length-keys participants,
      )) in
    (out, rw (e, e'), loops-IsRanking participants prev i j)

-- Of two nodes with one rank the rank stands twice.
get-count : (p : NodeDesc) (r : ℕ) (d : Dict NodeDesc ℕ) → get p d ≡ some r → 1 ≤ count r (values d)
unfolding get count
get-count p r [] h = ground arith
get-count p r ((j, v) ∷ d) h = ground (arith, get-count p r d)

IsInjective-of_count : (d : Dict NodeDesc ℕ) → ((r : ℕ) → count r (values d) ≤ 1) → IsInjective d
unfolding get count
IsInjective-of_count [] h p q r hp hq = cc
IsInjective-of_count ((j, v) ∷ d) h p q r hp hq = ground (
  arith,
  ==_iff j p,
  ==_iff j q,
  h r,
  get-count p r d,
  get-count q r d,
  IsInjective-of_count d (λ s. ground (arith, h s)) p q r,
)

-- A ranking gives no rank twice.
pub IsRanking-IsInjective :
    {participants prev out : Dict NodeDesc ℕ} → IsRanking participants prev out → IsInjective out
IsRanking-IsInjective {participants} {prev} {out} i =
    IsInjective-of_count out (λ r. ground (arith, i.each_rank_once r))

-- A ranking has the participants for its keys.
module _ {participants prev out : Dict NodeDesc ℕ} (i : IsRanking participants prev out) where
  pub IsRanking-has : (p : NodeDesc) → has p out ≡ has p participants
  IsRanking-has p =
      sym (contains-keys p out)
      ∙ ap (contains p) i.in_order
      ∙ contains-sorted node_le p (keys participants)
      ∙ contains-keys p participants

  pub IsRanking-length : length out ≡ length participants
  IsRanking-length = omega (
    arith,
    length-keys out,
    length-keys participants,
    ap (length {A = NodeDesc}) i.in_order,
    length-sorted node_le (keys participants),
  )

  pub IsRanking-IsUnique : IsUnique participants → IsUnique out
  IsRanking-IsUnique u =
      IsUnique-of_keys out (rw i.in_order (sorted-keys-IsDistinct participants u))
