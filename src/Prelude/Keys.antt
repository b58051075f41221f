-- ===== src/Prelude/Keys.antt =====
-- Python's `set` as a list without repetitions, and lists searched by equality.
use Prim.Native.Nat.{ℕ, suc, ◌+◌, ◌≤◌}
use mathlib.Core.Path.{◌≡◌, refl, subst}
use mathlib.Core.Logic.{inl, inr}
use mathlib.Core.Bool.{Bool, true, false, not, ◌&&◌, ◌||◌}
use mathlib.Core.List.{List, [], ◌∷◌, ◌++◌}
use native.Mathlib.Omega.{arith}
use nvidia_resiliency_ext_x.Prelude.Tests.{if◌then◌else◌, Bool-cases}
use nvidia_resiliency_ext_x.Prelude.Lists.{length, All}
use nvidia_resiliency_ext_x.Prelude.Eq.{KeyEq, ◌==◌, ==_iff}

module _ {ℓ} {K : Type ℓ} ⦃e : KeyEq K⦄ where
  -- k in s
  unfoldable pub contains : K → List K → Bool
  contains k [] = false
  contains k (j ∷ s) = (j == k) || contains k s

  -- s.add(k)
  unfoldable pub add : K → List K → List K
  unfolding contains
  add k s = if contains k s then s else s ++ k ∷ []

  -- s.discard(k)
  unfoldable pub discard : K → List K → List K
  discard k [] = []
  discard k (j ∷ s) = let rest = discard k s in if j == k then rest else j ∷ rest

  -- s.update(t), t's items in order
  unfoldable pub update : List K → List K → List K
  update s [] = s
  update s (k ∷ t) = update (add k s) t

  -- The first occurrence leaves.
  unfoldable pub erase : K → List K → List K
  erase k [] = []
  erase k (j ∷ s) = let rest = erase k s in if j == k then s else j ∷ rest

  unfoldable pub count : K → List K → ℕ
  count k [] = 0
  count k (j ∷ s) = let n = count k s in if j == k then suc n else n

  pub contains-append :
      (k : K) (s t : List K) → contains k (s ++ t) ≡ (contains k s || contains k t)
  unfolding contains
  contains-append k [] t = refl
  contains-append k (j ∷ s) t = ground (arith, contains-append k s t)

  pub contains-add : (j k : K) (s : List K) → contains j (add k s) ≡ ((k == j) || contains j s)
  unfolding add
  contains-add j k s = ground (arith, contains-append j s (k ∷ []), ==_iff k j, contains-eq k j s)
    where
      contains-eq : (a b : K) (l : List K) → a ≡ b → contains a l ≡ contains b l
      contains-eq a b l p = rw p

  pub contains-discard :
      (j k : K) (s : List K) → contains j (discard k s) ≡ (not (k == j) && contains j s)
  unfolding contains discard
  contains-discard j k [] = ground arith
  contains-discard j k (i ∷ s) =
      ground (arith, contains-discard j k s, ==_iff i k, ==_iff i j, ==_iff k j)

  pub contains-update :
      (j : K) (s t : List K) → contains j (update s t) ≡ (contains j s || contains j t)
  unfolding contains update
  contains-update j s [] = ground arith
  contains-update j s (k ∷ t) = ground (arith, contains-update j (add k s) t, contains-add j k s)

  pub count-append : (k : K) (s t : List K) → count k (s ++ t) ≡ count k s + count k t
  unfolding count
  count-append k [] t = omega arith
  count-append k (j ∷ s) t = ground (arith, count-append k s t)

  pub count-erase :
      (j k : K) (s : List K)
      → contains k s ≡ true
      → count j s ≡ (if k == j then suc (count j (erase k s)) else count j (erase k s))
  unfolding contains count erase
  count-erase j k [] h = ground arith
  count-erase j k (i ∷ s) h = ground (arith, count-erase j k s, ==_iff i k, ==_iff i j, ==_iff k j)

  pub length-erase :
      (k : K) (s : List K) → contains k s ≡ true → length s ≡ suc (length (erase k s))
  unfolding contains erase
  length-erase k [] h = ground arith
  length-erase k (j ∷ s) h = ground (arith, length-erase k s)

  pub contains-erase_ne :
      (j k : K) (s : List K) → (k == j) ≡ false → contains j (erase k s) ≡ contains j s
  unfolding contains erase
  contains-erase_ne j k [] h = refl
  contains-erase_ne j k (i ∷ s) h =
      ground (arith, contains-erase_ne j k s, ==_iff i k, ==_iff i j, ==_iff k j)

  pub contains-of_count : (k : K) (s : List K) → contains k s ≡ true → 1 ≤ count k s
  unfolding contains count
  contains-of_count k [] h = ground arith
  contains-of_count k (j ∷ s) h = ground (arith, contains-of_count k s)

  pub contains-eq-false : (k : K) (s : List K) → count k s ≡ 0 → contains k s ≡ false
  unfolding contains count
  contains-eq-false k [] h = refl
  contains-eq-false k (j ∷ s) h = ground (arith, contains-eq-false k s)

  pub contains-eq-true : (k : K) (s : List K) → 1 ≤ count k s → contains k s ≡ true
  unfolding contains count
  contains-eq-true k [] h = absurd (omega arith)
  contains-eq-true k (j ∷ s) h = ground (arith, contains-eq-true k s)

  pub All-at_contained {κ} :
      (P : K → Type κ) (k : K) (s : List K) → All P s → contains k s ≡ true → P k
  unfolding contains
  All-at_contained P k [] h c = absurd (ground arith)
  All-at_contained P k (j ∷ s) (p, h) c = elim (Bool-cases (j == k)) [
    | inl e ↦ subst P ((==_iff j k).0 e) p
    | inr e ↦ All-at_contained P k s h (ground arith)
  ]
