-- ===== src/Replication/Columns.antt =====
-- The ranks that `parse_group_sequence` of checkpointing/local/replication/group_utils.py cuts into
-- groups: columns of a table with `replication_jump` ranks in a row.
use native.Mathlib.Nat.{div-eq_of_lt-le, add-mul, one-mul, suc-mul, zero-mul}
use nvidia_resiliency_ext_x.Prelude.{
  ℕ, zero, suc, ◌+◌, ◌-◌, ◌*◌, ◌/◌, ◌≤◌, ◌<◌, ◌≡◌, refl, sym, subst, ap, ◌∙◌, ◌&&◌, List, [], ◌∷◌,
  ◌++◌, All, arith, if◌then◌else◌, ltb, leb,
}
use nvidia_resiliency_ext_x.Prelude.Eq.{number_keys}
use nvidia_resiliency_ext_x.Prelude.Keys.{count, count-append}
use nvidia_resiliency_ext_x.Replication.Groups.{take, drop, batches, column, stepped}

-- Whether a rank lies among k ranks from s on, as a number.
abbrev pub inside : ℕ → ℕ → ℕ → ℕ
inside r s k = if leb s r && ltb r (s + k) then 1 else 0

-- How often a rank stands in k columns, the first from s on.
unfoldable pub total : ℕ → ℕ → ℕ → ℕ → ℕ → ℕ
total r s jump n zero = 0
total r s jump n (suc k) = count r (column s jump n) + total r (s + 1) jump n k

total-zero : (r s jump k : ℕ) → total r s jump 0 k ≡ 0
unfolding total column count
total-zero r s jump zero = refl
total-zero r s jump (suc k) = omega (arith, total-zero r (s + 1) jump k)

total-suc :
    (r s jump n k : ℕ) → total r s jump (suc n) k ≡ inside r s k + total r (s + jump) jump n k
unfolding total column count
total-suc r s jump n zero = ground arith
total-suc r s jump n (suc k) =
    let shift : (s + 1) + jump ≡ (s + jump) + 1 = omega arith in
    let rest =
      total-suc r (s + 1) jump n k ∙ ap (λ x. inside r (s + 1) k + total r x jump n k) shift in
    ground (arith, rest)

-- A table of n rows holds every rank below n * jump once.
pub total-inside : (r s jump n : ℕ) → total r s jump n jump ≡ inside r s (n * jump)
total-inside r s jump zero = ground (arith, total-zero r s jump jump)
total-inside r s jump (suc n) =
    let rest = total-inside r (s + jump) jump n in ground (arith, total-suc r s jump n jump, rest)

next_multiple : (n jump : ℕ) → (n + 1) * jump ≡ n * jump + jump
next_multiple n jump = omega (arith, add-mul n 1 jump, one-mul jump)

items_low : (start jump n : ℕ) → start < jump → n * jump ≤ (n * jump - start) + (jump - 1)
items_low start jump n h = omega arith

items_high : (start jump n : ℕ) → start < jump → (n * jump - start) + (jump - 1) < n * jump + jump
items_high start jump n h = omega arith

-- The number of items of range(start, n * jump, jump).
items : (start jump n : ℕ) → start < jump → (n * jump - start + (jump - 1)) / jump ≡ n
items start jump n h = div-eq_of_lt-le {k = n} jump (items_low start jump n h) (
    subst (λ x. (n * jump - start) + (jump - 1) < x) (sym (next_multiple n jump))
      (items_high start jump n h))

pub stepped-eq-column :
    (start jump n : ℕ) → start < jump → stepped start (n * jump) jump ≡ column start jump n
unfolding stepped
stepped-eq-column start jump n h = ap (column start jump) (items start jump n h)

-- The first items of a column are a column.
take-column : (s jump k n m : ℕ) → m ≡ k + n → take k (column s jump m) ≡ column s jump k
unfolding take column
take-column s jump zero n m e = refl
take-column s jump (suc k) n zero e = absurd (omega arith)
take-column s jump (suc k) n (suc m) e =
    ap (λ xs. s ∷ xs) (take-column (s + jump) jump k n m (omega arith))

advance : ℕ → ℕ → ℕ → ℕ
advance s jump zero = s
advance s jump (suc k) = advance (s + jump) jump k

drop-column :
    (s jump k n m : ℕ) → m ≡ k + n → drop k (column s jump m) ≡ column (advance s jump k) jump n
unfolding drop column advance
drop-column s jump zero n m e = let same : m ≡ n = omega arith in ap (column s jump) same
drop-column s jump (suc k) n zero e = absurd (omega arith)
drop-column s jump (suc k) n (suc m) e = drop-column (s + jump) jump k n m (omega arith)

count-take-drop : (r k : ℕ) (xs : List ℕ) → count r (take k xs) + count r (drop k xs) ≡ count r xs
unfolding take drop count
count-take-drop r zero xs = omega arith
count-take-drop r (suc k) [] = refl
count-take-drop r (suc k) (x ∷ xs) = ground (arith, count-take-drop r k xs)

-- All items of all groups.
unfoldable pub members : List (List ℕ) → List ℕ
members [] = []
members (g ∷ gs) = g ++ members gs

-- A group: `size` ranks, `jump` apart.
abbrev pub IsSpaced : ℕ → ℕ → List ℕ → Type 0
IsSpaced jump size g = (start : ℕ) × (g ≡ column start jump size)

-- The batches of a column: spaced groups, with the items of the column.
abbrev pub AreBatches : ℕ → ℕ → List ℕ → List (List ℕ) → Type 0
AreBatches jump size xs gs =
    All (IsSpaced jump size) gs × ((r : ℕ) → count r (members gs) ≡ count r xs)

batches-step :
    (jump size : ℕ) (g rest : List ℕ) (gs : List (List ℕ)) (xs : List ℕ)
    → IsSpaced jump size g
    → AreBatches jump size rest gs
    → ((r : ℕ) → count r g + count r rest ≡ count r xs)
    → AreBatches jump size xs (g ∷ gs)
unfolding members
batches-step jump size g rest gs xs spaced w h =
    ((spaced, w.0), λ r. omega (arith, count-append r g (members gs), w.1 r, h r))

pub batches-column :
    (fuel s jump size c m : ℕ)
    → m ≡ c * suc size
    → m ≤ fuel
    → AreBatches jump (suc size) (column s jump m) (batches fuel (suc size) (column s jump m))
unfolding batches column members count
batches-column zero s jump size c zero e h = (tt, λ r. refl)
batches-column (suc fuel) s jump size c zero e h = (tt, λ r. refl)
batches-column zero s jump size c (suc m) e h = absurd (omega arith)
batches-column (suc fuel) s jump size zero (suc m) e h = absurd (omega (arith, zero-mul (suc size)))
batches-column (suc fuel) s jump size (suc c) (suc m) e h =
    let xs = column s jump (suc m) in
    let n = c * suc size in
    let split : suc m ≡ suc size + n = omega (arith, suc-mul c (suc size)) in
    let rest = batches-column fuel (advance s jump (suc size)) jump size c n refl (omega arith) in
    batches-step jump (suc size) (take (suc size) xs) (drop (suc size) xs) _ xs
      (s, take-column s jump (suc size) n (suc m) split)
      (subst (λ ys. AreBatches jump (suc size) ys (batches fuel (suc size) ys))
        (sym (drop-column s jump (suc size) n (suc m) split)) rest)
      (λ r. count-take-drop r (suc size) xs)
