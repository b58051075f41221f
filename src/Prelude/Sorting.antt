-- ===== src/Prelude/Sorting.antt =====
-- Python's `sorted`, by insertion, over a test of the order.
use Prim.Native.Nat.{suc}
use mathlib.Core.Path.{◌≡◌, refl}
use mathlib.Core.Bool.{Bool, ◌||◌}
use mathlib.Core.List.{List, [], ◌∷◌}
use native.Mathlib.Omega.{arith}
use nvidia_resiliency_ext_x.Prelude.Tests.{if◌then◌else◌}
use nvidia_resiliency_ext_x.Prelude.Lists.{length}
use nvidia_resiliency_ext_x.Prelude.Eq.{KeyEq, ◌==◌}
use nvidia_resiliency_ext_x.Prelude.Keys.{count, contains}

module _ {ℓ} {A : Type ℓ} (le : A → A → Bool) where
  unfoldable pub insert : A → List A → List A
  insert x [] = x ∷ []
  insert x (y ∷ ys) = let rest = insert x ys in if le x y then x ∷ y ∷ ys else y ∷ rest

  unfoldable pub sorted : List A → List A
  sorted [] = []
  sorted (x ∷ xs) = insert x (sorted xs)

  pub length-insert : (x : A) (ys : List A) → length (insert x ys) ≡ suc (length ys)
  unfolding insert
  length-insert x [] = refl
  length-insert x (y ∷ ys) = ground (arith, length-insert x ys)

  pub length-sorted : (xs : List A) → length (sorted xs) ≡ length xs
  unfolding sorted
  length-sorted [] = refl
  length-sorted (x ∷ xs) = omega (arith, length-insert x (sorted xs), length-sorted xs)

module _ {ℓ} {A : Type ℓ} (le : A → A → Bool) ⦃e : KeyEq A⦄ where
  pub count-insert : (a x : A) (ys : List A) → count a (insert le x ys) ≡ count a (x ∷ ys)
  unfolding insert count
  count-insert a x [] = refl
  count-insert a x (y ∷ ys) = ground (arith, count-insert a x ys)

  -- Sorting keeps every item, as often.
  pub count-sorted : (a : A) (xs : List A) → count a (sorted le xs) ≡ count a xs
  unfolding sorted count
  count-sorted a [] = refl
  count-sorted a (x ∷ xs) = ground (arith, count-insert a x (sorted le xs), count-sorted a xs)

  pub contains-insert :
      (a x : A) (ys : List A) → contains a (insert le x ys) ≡ ((x == a) || contains a ys)
  unfolding insert contains
  contains-insert a x [] = refl
  contains-insert a x (y ∷ ys) = ground (arith, contains-insert a x ys)

  pub contains-sorted : (a : A) (xs : List A) → contains a (sorted le xs) ≡ contains a xs
  unfolding sorted contains
  contains-sorted a [] = refl
  contains-sorted a (x ∷ xs) =
      ground (arith, contains-insert a x (sorted le xs), contains-sorted a xs)
