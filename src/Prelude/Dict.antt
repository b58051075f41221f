-- ===== src/Prelude/Dict.antt =====
-- Python's `dict` as an association list in insertion order.
use Prim.Native.Nat.{suc, ◌≤◌}
use mathlib.Core.Path.{◌≡◌, refl}
use mathlib.Core.Logic.{inl, inr}
use mathlib.Core.Bool.{Bool, true, false, not, ◌&&◌, ◌||◌}
use mathlib.Core.Option.{Option, none, some}
use mathlib.Core.List.{List, [], ◌∷◌}
use native.Mathlib.Omega.{arith}
use nvidia_resiliency_ext_x.Prelude.Tests.{if◌then◌else◌, Bool-cases}
use nvidia_resiliency_ext_x.Prelude.Lists.{length}
use nvidia_resiliency_ext_x.Prelude.Eq.{KeyEq, ◌==◌, ==_iff, eq_self}

abbrev pub Dict {ℓ κ} : Type ℓ → Type κ → Type (ℓ ⊔ κ)
Dict K V = List (K × V)

module _ {ℓ κ} {K : Type ℓ} {V : Type κ} where
  -- list(d.keys()), list(d.values())
  abbrev pub keys : Dict K V → List K
  keys [] = []
  keys ((k, v) ∷ d) = k ∷ keys d

  abbrev pub values : Dict K V → List V
  values [] = []
  values ((k, v) ∷ d) = v ∷ values d

module _ {ℓ κ} {K : Type ℓ} {V : Type κ} ⦃e : KeyEq K⦄ where
  -- d.get(k)
  unfoldable pub get : K → Dict K V → Option V
  get k [] = none
  get k ((j, v) ∷ d) = if j == k then some v else get k d

  -- k in d
  unfoldable pub has : K → Dict K V → Bool
  has k [] = false
  has k ((j, v) ∷ d) = (j == k) || has k d

  -- d[k] = v
  unfoldable pub put : K → V → Dict K V → Dict K V
  put k v [] = (k, v) ∷ []
  put k v ((j, w) ∷ d) = if j == k then (j, v) ∷ d else (j, w) ∷ put k v d

  -- del d[k], d.pop(k, None)
  unfoldable pub without : K → Dict K V → Dict K V
  without k [] = []
  without k ((j, v) ∷ d) = let rest = without k d in if j == k then rest else (j, v) ∷ rest

  pub has-put : (j k : K) (v : V) (d : Dict K V) → has j (put k v d) ≡ ((k == j) || has j d)
  unfolding has put
  has-put j k v [] = refl
  has-put j k v ((i, w) ∷ d) = ground (arith, has-put j k v d, ==_iff i k, ==_iff i j, ==_iff k j)

  pub has-without : (j k : K) (d : Dict K V) → has j (without k d) ≡ (not (k == j) && has j d)
  unfolding has without
  has-without j k [] = ground arith
  has-without j k ((i, w) ∷ d) =
      ground (arith, has-without j k d, ==_iff i k, ==_iff i j, ==_iff k j)

  pub get-put :
      (j k : K) (v : V) (d : Dict K V) → get j (put k v d) ≡ (if k == j then some v else get j d)
  unfolding get put
  get-put j k v [] = refl
  get-put j k v ((i, w) ∷ d) = ground (arith, get-put j k v d, ==_iff i k, ==_iff i j, ==_iff k j)

  pub get-without :
      (j k : K) (d : Dict K V) → get j (without k d) ≡ (if k == j then none else get j d)
  unfolding get without
  get-without j k [] = ground arith
  get-without j k ((i, w) ∷ d) =
      ground (arith, get-without j k d, ==_iff i k, ==_iff i j, ==_iff k j)

  pub has-of_get : (k : K) (d : Dict K V) {v : V} → get k d ≡ some v → has k d ≡ true
  unfolding get has
  has-of_get k [] h = ground arith
  has-of_get k ((j, w) ∷ d) {v} h = ground (arith, has-of_get k d {v = v})

  pub get-of_has : (k : K) (d : Dict K V) → has k d ≡ true → (v : V) × (get k d ≡ some v)
  unfolding get has
  get-of_has k [] h = ground arith
  get-of_has k ((j, w) ∷ d) h = elim (Bool-cases (j == k)) [
    | inl p ↦ (w, rw p)
    | inr p ↦ let (v, q) = get-of_has k d (ground arith) in (v, rw p q)
  ]

  pub get-eq-none : (k : K) (d : Dict K V) → has k d ≡ false → get k d ≡ none
  unfolding get has
  get-eq-none k [] h = refl
  get-eq-none k ((j, w) ∷ d) h = ground (arith, get-eq-none k d)

  pub length-put :
      (k : K) (v : V) (d : Dict K V)
      → length (put k v d) ≡ (if has k d then length d else suc (length d))
  unfolding has put
  length-put k v [] = refl
  length-put k v ((j, w) ∷ d) = ground (arith, length-put k v d)

  pub length-without : (k : K) (d : Dict K V) → length (without k d) ≤ length d
  unfolding without
  length-without k [] = omega arith
  length-without k ((j, w) ∷ d) = ground (arith, length-without k d)

  -- Every key stands once.
  abbrev pub IsUnique : Dict K V → Type 0
  IsUnique [] = Unit
  IsUnique ((k, v) ∷ d) = (has k d ≡ false) × IsUnique d

  pub put-IsUnique : (k : K) (v : V) (d : Dict K V) → IsUnique d → IsUnique (put k v d)
  unfolding put has
  put-IsUnique k v [] u = (refl, tt)
  put-IsUnique k v ((j, w) ∷ d) u =
      ground (arith, put-IsUnique k v d, has-put j k v d, ==_iff j k, ==_iff k j)

  pub without-IsUnique : (k : K) (d : Dict K V) → IsUnique d → IsUnique (without k d)
  unfolding without
  without-IsUnique k [] u = tt
  without-IsUnique k ((j, w) ∷ d) u =
      ground (arith, without-IsUnique k d, has-without j k d, ==_iff j k, ==_iff k j)

  pub without-absent : (k : K) (d : Dict K V) → has k d ≡ false → without k d ≡ d
  unfolding without has
  without-absent k [] h = refl
  without-absent k ((j, w) ∷ d) h = ground (arith, without-absent k d)

  pub without-put : (k : K) (v : V) (d : Dict K V) → has k d ≡ false → without k (put k v d) ≡ d
  unfolding without put has
  without-put k v [] h = ground (arith, eq_self k)
  without-put k v ((j, w) ∷ d) h = ground (arith, without-put k v d)
