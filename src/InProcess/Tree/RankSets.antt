-- ===== src/InProcess/Tree/RankSets.antt =====
-- The sets of ranks of `Tree` in inprocess/rank_assignment.py: difference, order and images.
use nvidia_resiliency_ext_x.Prelude.{
  ℕ, ◌≤◌, ◌≡◌, refl, sym, ap, ◌∙◌, Bool, true, List, [], ◌∷◌, ◌++◌, map, length, if◌then◌else◌,
  arith, if-cases, All,
}
use nvidia_resiliency_ext_x.Prelude.Eq.{==_iff, eq_self, number_keys}
use nvidia_resiliency_ext_x.Prelude.Keys.{
  contains, count, erase, count-append, count-erase, contains-of_count, contains-eq-true,
}
use nvidia_resiliency_ext_x.Prelude.Sorting.{insert, sorted}
use nvidia_resiliency_ext_x.InProcess.Tree.Reassignment.{minus}
use nvidia_resiliency_ext_x.InProcess.Tree.LeafLists.{AreApart}

pub All-insert :
    {A : Type 0} (le : A → A → Bool) (P : A → Type 0) (x : A) (xs : List A)
    → P x
    → All P xs
    → All P (insert le x xs)
unfolding insert
All-insert le P x [] p h = (p, tt)
All-insert le P x (y ∷ ys) p (q, h) =
    if-cases (All P) (le x y) (x ∷ y ∷ ys) (y ∷ insert le x ys) (λ e. (p, (q, h)))
      (λ e. (q, All-insert le P x ys p h))

pub All-sorted :
    {A : Type 0} (le : A → A → Bool) (P : A → Type 0) (xs : List A)
    → All P xs
    → All P (sorted le xs)
unfolding sorted
All-sorted le P [] h = tt
All-sorted le P (x ∷ xs) (p, h) = All-insert le P x (sorted le xs) p (All-sorted le P xs h)

pub All-minus : (P : ℕ → Type 0) (xs ys : List ℕ) → All P xs → All P (minus xs ys)
unfolding minus
All-minus P [] ys h = tt
All-minus P (x ∷ xs) ys (p, h) =
    if-cases (All P) (contains x ys) (minus xs ys) (x ∷ minus xs ys) (λ e. All-minus P xs ys h)
      (λ e. (p, All-minus P xs ys h))

count-minus :
    (k : ℕ) (xs ys : List ℕ) → count k (minus xs ys) ≡ (if contains k ys then 0 else count k xs)
unfolding minus count
count-minus k [] ys = ground arith
count-minus k (x ∷ xs) ys = ground (arith, count-minus k xs ys, ==_iff x k, ap (λ j. contains j ys))

pub count-AreApart : (k : ℕ) (xs : List ℕ) → AreApart xs → count k xs ≤ 1
unfolding count
count-AreApart k [] a = omega arith
count-AreApart k (x ∷ xs) (c, a) =
    ground
      (arith, count-AreApart k xs a, contains-eq-true k xs, ==_iff x k, ap (λ j. contains j xs))

-- The same items, as often.
abbrev pub SameItems : List ℕ → List ℕ → Type 0
SameItems xs ys = (k : ℕ) → count k xs ≡ count k ys

count-map-erase :
    (f : ℕ → ℕ) (v x : ℕ) (ys : List ℕ)
    → contains x ys ≡ true
    → count v (map f ys) ≡ count v (f x ∷ map f (erase x ys))
unfolding contains erase count
count-map-erase f v x [] h = absurd (ground arith)
count-map-erase f v x (y ∷ ys) h = ground (arith, count-map-erase f v x ys, ==_iff y x, ap f)

same-nil : (ys : List ℕ) → SameItems [] ys → ys ≡ []
unfolding count
same-nil [] h = refl
same-nil (y ∷ ys) h = absurd (ground (arith, h y, eq_self y))

-- So they have the same images, as often.
pub SameItems-map :
    (f : ℕ → ℕ) (v : ℕ) (xs ys : List ℕ) → SameItems xs ys → count v (map f xs) ≡ count v (map f ys)
unfolding count
SameItems-map f v [] ys h = rw (same-nil ys h) refl
SameItems-map f v (x ∷ xs) ys h =
    let there : contains x ys ≡ true = contains-eq-true x ys (ground (arith, h x, eq_self x)) in
    let rest = SameItems-map f v xs (erase x ys) (λ k. ground (arith, h k, count-erase k x ys)) in
    ground (arith, rest, count-map-erase f v x ys)

abbrev nothing : ℕ → ℕ
nothing k = 0

length-map-count : (xs : List ℕ) → length xs ≡ count 0 (map nothing xs)
unfolding count
length-map-count [] = refl
length-map-count (x ∷ xs) = ground (arith, length-map-count xs)

pub SameItems-length : (xs ys : List ℕ) → SameItems xs ys → length xs ≡ length ys
SameItems-length xs ys h =
    length-map-count xs ∙ SameItems-map nothing 0 xs ys h ∙ sym (length-map-count ys)

-- A set, less a part of it, and the part.
pub minus-SameItems :
    (xs ys : List ℕ)
    → AreApart xs
    → ((k : ℕ) → count k ys ≤ count k xs)
    → SameItems (minus xs ys ++ ys) xs
minus-SameItems xs ys a h k = ground (
  arith,
  count-append k (minus xs ys) ys,
  count-minus k xs ys,
  count-AreApart k xs a,
  h k,
  contains-of_count k ys,
  contains-eq-true k ys,
)

pub AreApart-of_count : (xs : List ℕ) → ((k : ℕ) → count k xs ≤ 1) → AreApart xs
unfolding count
AreApart-of_count [] h = tt
AreApart-of_count (x ∷ xs) h = (
  ground (arith, h x, eq_self x, contains-of_count x xs),
  AreApart-of_count xs (λ k. ground (arith, h k)),
)

pub length-minus_le : (xs ys : List ℕ) → length (minus xs ys) ≤ length xs
unfolding minus
length-minus_le [] ys = omega arith
length-minus_le (x ∷ xs) ys = ground (arith, length-minus_le xs ys)
