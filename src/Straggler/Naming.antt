-- ===== src/Straggler/Naming.antt =====
-- The ids that `NameMapper` of straggler/name_mapper.py gives.
use nvidia_resiliency_ext_x.Prelude.{
  ℕ, ◌≡◌, refl, ap, ◌||◌, true, some, List, [], ◌∷◌, String, ltb, arith,
}
use nvidia_resiliency_ext_x.Prelude.Eq.{◌==◌, ==_iff, number_keys, text_keys}
use nvidia_resiliency_ext_x.Prelude.Dict.{get, has, get-put, has-put, has-of_get}
use nvidia_resiliency_ext_x.Prelude.Keys.{contains}
use nvidia_resiliency_ext_x.Straggler.NameMapper.{
  Names, NameMapper, assign_id, assign_kernel_id, assign_section_id, assign_sections,
  assign_kernels,
}

-- The two dicts are inverse to each other, and the ids are the numbers below the counter.
pub record IsNumbered (ns : Names) : Type 0 where
  pub there : (k : String) (i : ℕ) → get k ns.name_to_id ≡ some i → get i ns.id_to_name ≡ some k
  pub back : (i : ℕ) (k : String) → get i ns.id_to_name ≡ some k → get k ns.name_to_id ≡ some i
  pub bounded : (i : ℕ) → has i ns.id_to_name ≡ ltb i ns.counter

-- No name loses its id.
abbrev pub KeepsIds : Names → Names → Type 0
KeepsIds ns ms = (k : String) (i : ℕ) → get k ns.name_to_id ≡ some i → get k ms.name_to_id ≡ some i

assign_id-there :
    (name : String) (ns : Names)
    → IsNumbered ns
    → (k : String) (i : ℕ) → get k (assign_id name ns).name_to_id ≡ some i
    → get i (assign_id name ns).id_to_name ≡ some k
unfolding assign_id
assign_id-there name ns w k i h = ground (
  arith,
  w.there k i,
  w.bounded i,
  has-of_get i ns.id_to_name {v = k},
  get-put k name ns.counter ns.name_to_id,
  get-put i ns.counter name ns.id_to_name,
  ==_iff name k,
  ==_iff ns.counter i,
)

assign_id-back :
    (name : String) (ns : Names)
    → IsNumbered ns
    → (i : ℕ) (k : String) → get i (assign_id name ns).id_to_name ≡ some k
    → get k (assign_id name ns).name_to_id ≡ some i
unfolding assign_id
assign_id-back name ns w i k h = ground (
  arith,
  w.back i k,
  has-of_get k ns.name_to_id {v = i},
  get-put k name ns.counter ns.name_to_id,
  get-put i ns.counter name ns.id_to_name,
  ==_iff name k,
  ==_iff ns.counter i,
)

assign_id-IsNumbered : (name : String) (ns : Names) → IsNumbered ns → IsNumbered (assign_id name ns)
unfolding assign_id
assign_id-IsNumbered name ns w = record {
  there = assign_id-there name ns w;
  back = assign_id-back name ns w;
  bounded = λ i.
      ground (arith, w.bounded i, has-put i ns.counter name ns.id_to_name, ==_iff ns.counter i);
}

assign_id-KeepsIds : (name : String) (ns : Names) → KeepsIds ns (assign_id name ns)
unfolding assign_id
assign_id-KeepsIds name ns k i h = ground (
  arith,
  get-put k name ns.counter ns.name_to_id,
  has-of_get k ns.name_to_id {v = i},
  ==_iff name k,
)

has-assign_id :
    (k name : String) (ns : Names)
    → has k (assign_id name ns).name_to_id ≡ ((name == k) || has k ns.name_to_id)
unfolding assign_id
has-assign_id k name ns =
    ground (arith, has-put k name ns.counter ns.name_to_id, ==_iff name k, alike)
  where
    alike : name ≡ k → has name ns.name_to_id ≡ has k ns.name_to_id
    alike e = ap (λ j. has j ns.name_to_id) e

-- What assigning ids to names one by one leads to.
pub record IsExtended (names : List String) (ns ms : Names) : Type 0 where
  pub numbered : IsNumbered ns → IsNumbered ms
  pub kept : KeepsIds ns ms
  pub named :
      (k : String) → (contains k names || has k ns.name_to_id) ≡ true → has k ms.name_to_id ≡ true

IsExtended-next :
    (name : String) (names : List String) (ns ms : Names)
    → IsExtended names (assign_id name ns) ms
    → IsExtended (name ∷ names) ns ms
unfolding contains
IsExtended-next name names ns ms x = record {
  numbered = λ w. x.numbered (assign_id-IsNumbered name ns w);
  kept = λ k i h. x.kept k i (assign_id-KeepsIds name ns k i h);
  named = λ k h. x.named k (ground (arith, has-assign_id k name ns));
}

IsExtended-refl : (ns : Names) → IsExtended [] ns ns
unfolding contains
IsExtended-refl ns = record { numbered = λ w. w; kept = λ k i h. h; named = λ k h. ground arith }

pub assign_kernels-IsExtended :
    (names : List String) (m : NameMapper)
    → IsExtended names m.kernels (assign_kernels names m).kernels
      × ((assign_kernels names m).sections ≡ m.sections)
unfolding assign_kernels assign_kernel_id
assign_kernels-IsExtended [] m = (IsExtended-refl m.kernels, refl)
assign_kernels-IsExtended (name ∷ names) m =
    let (x, e) = assign_kernels-IsExtended names (assign_kernel_id name m).1 in
    (IsExtended-next name names m.kernels (assign_kernels (name ∷ names) m).kernels x, e)

pub assign_sections-IsExtended :
    (names : List String) (m : NameMapper)
    → IsExtended names m.sections (assign_sections names m).sections
      × ((assign_sections names m).kernels ≡ m.kernels)
unfolding assign_sections assign_section_id
assign_sections-IsExtended [] m = (IsExtended-refl m.sections, refl)
assign_sections-IsExtended (name ∷ names) m =
    let (x, e) = assign_sections-IsExtended names (assign_section_id name m).1 in
    (IsExtended-next name names m.sections (assign_sections (name ∷ names) m).sections x, e)
