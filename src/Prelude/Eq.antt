-- ===== src/Prelude/Eq.antt =====
-- The equality that Python's `dict`, `set` and `in` use on their keys, as an interface.
use text.Mathlib.Text.{◌==◌ as text_test}
use text.Mathlib.TextEquality.{eq_iff}
use Prim.Native.Nat.{ℕ}
use Prim.Native.String.{String}
use mathlib.Core.Path.{◌≡◌, refl}
use mathlib.Core.Logic.{◌↔◌}
use mathlib.Core.Bool.{Bool, true}
use nvidia_resiliency_ext_x.Prelude.Tests.{eqb, eqb_iff}

-- A type of keys: a test, and that it decides equality.
pub record KeyEq {ℓ} (K : Type ℓ) : Type ℓ where
  pub test : K → K → Bool
  pub decides : (j k : K) → (test j k ≡ true) ↔ (j ≡ k)

module _ {ℓ} {K : Type ℓ} ⦃keyed : KeyEq K⦄ where
  infix 50 ◌==◌
  abbrev pub ◌==◌ : K → K → Bool
  j == k = keyed.test j k

  pub ==_iff : (j k : K) → ((j == k) ≡ true) ↔ (j ≡ k)
  ==_iff j k = keyed.decides j k

  pub eq_self : (k : K) → (k == k) ≡ true
  eq_self k = (keyed.decides k k).1 refl

instance abbrev pub text_keys : KeyEq String
text_keys = record { test = text_test; decides = eq_iff }

instance abbrev pub number_keys : KeyEq ℕ
number_keys = record { test = eqb; decides = eqb_iff }
