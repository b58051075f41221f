-- ===== src/Rendezvous/Ranks/Counting.antt =====
-- How often a rank stands among the kept, the free and the assigned ranks, and why no step raises.
use nvidia_resiliency_ext_x.Prelude.{
  ℕ, zero, suc, ◌+◌, ◌<◌, ◌≡◌, ◌≢◌, refl, ap, inl, inr, true, false, ◌&&◌, Option, none, some, List,
  [], ◌∷◌, arith, eqb, eqb_iff, ltb, leb, length, range_from, if◌then◌else◌, Bool-cases,
  Option-cases,
}
use nvidia_resiliency_ext_x.Prelude.Eq.{==_iff, eq_self, number_keys}
use nvidia_resiliency_ext_x.Prelude.Dict.{Dict, keys, get}
use nvidia_resiliency_ext_x.Prelude.Keys.{
  contains, erase, count, count-erase, length-erase, contains-erase_ne,
}
use nvidia_resiliency_ext_x.Rendezvous.Base.{NodeDesc, node_eq, ok}
use nvidia_resiliency_ext_x.Rendezvous.Ranks.{kept_rank, take_rank, reserve}

-- No two nodes have one rank.
abbrev pub IsInjective : Dict NodeDesc ℕ → Type 0
IsInjective d = (p q : NodeDesc) (r : ℕ) → get p d ≡ some r → get q d ≡ some r → p ≡ q

-- range(n) holds each number below n once, and no other.
pub count-range_from :
    (r i n : ℕ) → count r (range_from i n) ≡ (if leb i r && ltb r (i + n) then 1 else 0)
unfolding count range_from
count-range_from r i zero = ground arith
count-range_from r i (suc n) = ground (arith, count-range_from r (i + 1) n)

-- The ranks that the first loop has kept, and how many nodes it has left without one.
abbrev pub kept : Dict NodeDesc (Option ℕ) → List ℕ
kept [] = []
kept ((p, some r) ∷ res) = r ∷ kept res
kept ((p, none) ∷ res) = kept res

abbrev pub vacant : Dict NodeDesc (Option ℕ) → ℕ
vacant [] = 0
vacant ((p, some r) ∷ res) = vacant res
vacant ((p, none) ∷ res) = suc (vacant res)

-- What the first loop delivers.
pub record IsReserved (world_size : ℕ) (prev : Dict NodeDesc ℕ) (ps : List NodeDesc) (free : List ℕ)
    (res : Dict NodeDesc (Option ℕ)) (left : List ℕ) : Type 0 where
  pub same_keys : keys res ≡ ps
  pub balanced : (r : ℕ) → count r free ≡ count r (kept res) + count r left
  pub sized : length free + vacant res ≡ length ps + length left
  pub reused :
      (p : NodeDesc) → contains p ps ≡ true → get p res ≡ some (kept_rank world_size (get p prev))

-- Each item stands once.
abbrev pub IsDistinct : List NodeDesc → Type 0
IsDistinct [] = Unit
IsDistinct (p ∷ ps) = (contains p ps ≡ false) × IsDistinct ps

pub kept_rank-eq_some :
    (world_size : ℕ) (o : Option ℕ) (r : ℕ)
    → kept_rank world_size o ≡ some r
    → (o ≡ some r) × (r < world_size)
unfolding kept_rank
kept_rank-eq_some world_size none r h = ground arith
kept_rank-eq_some world_size (some x) r h = ground arith

-- Two nodes of a dict without repeated ranks keep different ranks.
kept_rank_ne :
    (world_size : ℕ) (prev : Dict NodeDesc ℕ) (p q : NodeDesc) (r s : ℕ)
    → IsInjective prev
    → p ≢ q
    → kept_rank world_size (get p prev) ≡ some r
    → kept_rank world_size (get q prev) ≡ some s
    → eqb r s ≡ false
kept_rank_ne w prev p q r s inj ne hr hs = elim (Bool-cases (eqb r s)) [
  | inl same ↦ absurd (
      ne (
        inj p q s (rw (← ((eqb_iff r s).0 same)) (kept_rank-eq_some w (get p prev) r hr).0)
          (kept_rank-eq_some w (get q prev) s hs).0))
  | inr other ↦ other
]

-- Every previous rank that is to be kept is free.
abbrev pub IsFree : ℕ → Dict NodeDesc ℕ → List NodeDesc → List ℕ → Type 0
IsFree world_size prev ps free =
    (p : NodeDesc) (r : ℕ)
    → contains p ps ≡ true
    → kept_rank world_size (get p prev) ≡ some r
    → contains r free ≡ true

ne_of_contains :
    (p q : NodeDesc) (ps : List NodeDesc) → contains p ps ≡ false → contains q ps ≡ true → p ≢ q
ne_of_contains p q ps np hq e = cc (ap (λ n. contains n ps) e)

module _ (w : ℕ) (prev : Dict NodeDesc ℕ) (p : NodeDesc) (ps : List NodeDesc) (free : List ℕ) where
  IsFree-erase :
      (r : ℕ)
      → IsInjective prev
      → contains p ps ≡ false
      → kept_rank w (get p prev) ≡ some r
      → IsFree w prev (p ∷ ps) free
      → IsFree w prev ps (erase r free)
  unfolding contains
  IsFree-erase r inj np found f q s hq hs =
      rw
        (contains-erase_ne s r free
          (kept_rank_ne w prev p q r s inj (ne_of_contains p q ps np hq) found hs))
        (f q s (ground arith) hs)

  IsFree-tail : IsFree w prev (p ∷ ps) free → IsFree w prev ps free
  unfolding contains
  IsFree-tail f q s hq hs = f q s (ground arith) hs

  IsFree-head :
      (r : ℕ)
      → kept_rank w (get p prev) ≡ some r
      → IsFree w prev (p ∷ ps) free
      → contains r free ≡ true
  unfolding contains
  IsFree-head r found f = f p r (ground (arith, eq_self p)) found

  module _ {res : Dict NodeDesc (Option ℕ)} {left : List ℕ} where
    IsReserved-vacant :
        kept_rank w (get p prev) ≡ none
        → IsReserved w prev ps free res left
        → IsReserved w prev (p ∷ ps) free ((p, none) ∷ res) left
    unfolding contains get
    IsReserved-vacant missing i = record {
      same_keys = ap (λ l. p ∷ l) i.same_keys;
      balanced = i.balanced;
      sized = omega (arith, i.sized);
      reused = λ q h. ground (arith, ==_iff p q, i.reused q);
    }

    IsReserved-kept :
        (r : ℕ)
        → kept_rank w (get p prev) ≡ some r
        → contains r free ≡ true
        → IsReserved w prev ps (erase r free) res left
        → IsReserved w prev (p ∷ ps) free ((p, some r) ∷ res) left
    unfolding contains get count
    IsReserved-kept r found here i = record {
      same_keys = ap (λ l. p ∷ l) i.same_keys;
      balanced = λ s. ground (arith, i.balanced s, count-erase s r free here);
      sized = omega (arith, i.sized, length-erase r free here);
      reused = λ q h. ground (arith, ==_iff p q, i.reused q);
    }

reserve_kept :
    (w : ℕ) (prev : Dict NodeDesc ℕ) (p : NodeDesc) (ps : List NodeDesc) (free : List ℕ) (r : ℕ)
    {res : Dict NodeDesc (Option ℕ)} {left : List ℕ}
    → kept_rank w (get p prev) ≡ some r
    → contains r free ≡ true
    → reserve w prev ps (erase r free) ≡ ok (res, left)
    → reserve w prev (p ∷ ps) free ≡ ok ((p, some r) ∷ res, left)
unfolding reserve take_rank
reserve_kept w prev p ps free r found here e = ground arith

reserve_vacant :
    (w : ℕ) (prev : Dict NodeDesc ℕ) (p : NodeDesc) (ps : List NodeDesc) (free : List ℕ)
    {res : Dict NodeDesc (Option ℕ)} {left : List ℕ}
    → kept_rank w (get p prev) ≡ none
    → reserve w prev ps free ≡ ok (res, left)
    → reserve w prev (p ∷ ps) free ≡ ok ((p, none) ∷ res, left)
unfolding reserve
reserve_vacant w prev p ps free missing e = ground arith

-- The first loop ends without an error.
pub reserve_lem :
    (w : ℕ) (prev : Dict NodeDesc ℕ) (ps : List NodeDesc) (free : List ℕ)
    → IsInjective prev
    → IsDistinct ps
    → IsFree w prev ps free
    → (res : Dict NodeDesc (Option ℕ)) × (left : List ℕ) × (reserve w prev ps free ≡ ok (res, left))
      × IsReserved w prev ps free res left
unfolding reserve contains count
reserve_lem w prev [] free inj d f = (
  [],
  free,
  refl,
  record { same_keys = refl; balanced = λ r. omega arith; sized = omega arith; reused = λ p h. cc },
)
reserve_lem w prev (p ∷ ps) free inj d f = elim (Option-cases (kept_rank w (get p prev))) [
  | inl missing ↦
      let (res, left, e, i) = reserve_lem w prev ps free inj d.1 (IsFree-tail w prev p ps free f) in
      (
        (p, none) ∷ res,
        left,
        reserve_vacant w prev p ps free missing e,
        IsReserved-vacant w prev p ps free missing i,
      )
  | inr (r, found) ↦
      let here = IsFree-head w prev p ps free r found f in
      let rest = IsFree-erase w prev p ps free r inj d.0 found f in
      let (res, left, e, i) = reserve_lem w prev ps (erase r free) inj d.1 rest in
      (
        (p, some r) ∷ res,
        left,
        reserve_kept w prev p ps free r found here e,
        IsReserved-kept w prev p ps free r found here i,
      )
]
