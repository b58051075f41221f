-- ===== src/Prelude/Method.antt =====
-- Python methods that may raise an exception of type `E`, and that mutate a state of type `S`. What
-- was written before a raise stays written, so the state comes back beside an error too.

pub data Exceptional {ℓ} (E : Type 0) (A : Type ℓ) : Type ℓ where
  ok : A → Exceptional E A
  err : E → Exceptional E A

module _ {E : Type 0} where
  abbrev pub bind_result {ℓ κ} :
      {A : Type ℓ} {B : Type κ} → Exceptional E A → (A → Exceptional E B) → Exceptional E B
  bind_result (ok a) f = f a
  bind_result (err x) f = err x

  abbrev pub ret {ℓ} : {S : Type 0} {A : Type ℓ} → A → S → Exceptional E A × S
  ret a s = (ok a, s)

  abbrev pub raise {ℓ} : {S : Type 0} {A : Type ℓ} → E → S → Exceptional E A × S
  raise x s = (err x, s)

  abbrev pub modify : {S : Type 0} → (S → S) → S → Exceptional E (Unit {0}) × S
  modify f s = (ok tt, f s)

  abbrev pub after_result {ℓ κ} :
      {S : Type 0} {A : Type ℓ} {B : Type κ}
      → Exceptional E A
      → (A → S → Exceptional E B × S)
      → S
      → Exceptional E B × S
  after_result (ok a) f s = f a s
  after_result (err x) f s = (err x, s)

  infixl 5 ◌>>=◌ ◌>>◌
  abbrev pub ◌>>=◌ {ℓ κ} :
      {S : Type 0} {A : Type ℓ} {B : Type κ}
      → (S → Exceptional E A × S)
      → (A → S → Exceptional E B × S)
      → S
      → Exceptional E B × S
  ◌>>=◌ m f s = let (r, t) = m s in after_result r f t

  abbrev pub ◌>>◌ {ℓ} :
      {S : Type 0} {B : Type ℓ}
      → (S → Exceptional E (Unit {0}) × S)
      → (S → Exceptional E B × S)
      → S
      → Exceptional E B × S
  m >> k = m >>= λ _. k

  after_result-keeps {ℓ} :
      {S A : Type 0} {B : Type 0} (P : S → Type ℓ) (r : Exceptional E A)
      (k : A → S → Exceptional E B × S)
      → ((a : A) (s : S) → P s → P (k a s).1)
      → (s : S) → P s
      → P (after_result r k s).1
  after_result-keeps P (ok a) k h s p = h a s p
  after_result-keeps P (err x) k h s p = p

  -- What both parts keep, their sequence keeps, raised or not.
  pub sequence-keeps {ℓ} :
      {S A : Type 0} {B : Type 0} (P : S → Type ℓ) (m : S → Exceptional E A × S)
      (k : A → S → Exceptional E B × S)
      → ((s : S) → P s → P (m s).1)
      → ((a : A) (s : S) → P s → P (k a s).1)
      → (s : S) → P s
      → P ((m >>= k) s).1
  sequence-keeps P m k g h s p = after_result-keeps P (m s).0 k h (m s).1 (g s p)
