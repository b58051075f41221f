-- ===== src/Straggler/Gathering.antt =====
-- `gather_and_assign_ids` of straggler/name_mapper.py.
use nvidia_resiliency_ext_x.Prelude.{
  ℕ, ◌≡◌, refl, sym, subst, ◌&&◌, not, Bool, true, false, some, List, [], ◌∷◌, ◌++◌, String, arith,
  if-cases,
}
use nvidia_resiliency_ext_x.Prelude.Eq.{==_iff, number_keys, text_keys}
use nvidia_resiliency_ext_x.Prelude.Dict.{Dict, get, has}
use nvidia_resiliency_ext_x.Prelude.Keys.{contains, contains-append}
use nvidia_resiliency_ext_x.Straggler.NameMapper.{
  Names, NameMapper, has_all, check_if_has_all_names, Recorded, chain_sections, chain_kernels,
  assign_sections, assign_kernels, gather_and_assign_ids,
}
use nvidia_resiliency_ext_x.Straggler.Naming.{
  IsNumbered, KeepsIds, assign_kernels-IsExtended, assign_sections-IsExtended,
}

has_all-contained :
    (names : List String) (d : Dict String ℕ)
    → ((k : String) → contains k names ≡ true → has k d ≡ true)
    → has_all names d ≡ true
unfolding has_all contains
has_all-contained [] d h = refl
has_all-contained (n ∷ names) d h =
    ground (
      arith,
      has_all-contained names d (λ k c. h k (ground arith)),
      h n (ground (arith, ==_iff n n)),
    )

-- What one rank has recorded is among what is gathered from all.
contains-chain_sections :
    (k : String) (before after : List Recorded) (own : Recorded)
    → contains k own.0 ≡ true
    → contains k (chain_sections (before ++ own ∷ after)) ≡ true
contains-chain_sections k [] after own h =
    ground (arith, contains-append k own.0 (chain_sections after))
contains-chain_sections k (b ∷ before) after own h = ground (
  arith,
  contains-append k b.0 (chain_sections (before ++ own ∷ after)),
  contains-chain_sections k before after own h,
)

contains-chain_kernels :
    (k : String) (before after : List Recorded) (own : Recorded)
    → contains k own.1 ≡ true
    → contains k (chain_kernels (before ++ own ∷ after)) ≡ true
contains-chain_kernels k [] after own h =
    ground (arith, contains-append k own.1 (chain_kernels after))
contains-chain_kernels k (b ∷ before) after own h = ground (
  arith,
  contains-append k b.1 (chain_kernels (before ++ own ∷ after)),
  contains-chain_kernels k before after own h,
)

pub record IsNamed (kernel_names section_names : List String) (m after : NameMapper) : Type 0 where
  kernels : IsNumbered after.kernels
  sections : IsNumbered after.sections
  kernels_kept : KeepsIds m.kernels after.kernels
  sections_kept : KeepsIds m.sections after.sections
  all_named : check_if_has_all_names kernel_names section_names after ≡ true

both : {a b : Bool} → a ≡ true → b ≡ true → (a && b) ≡ true
both p q = ground arith

assigned-IsNamed :
    (kernel_names section_names : List String) (m : NameMapper) (before after : List Recorded)
    → IsNumbered m.kernels
    → IsNumbered m.sections
    → IsNamed kernel_names section_names m (
        assign_kernels
          (chain_kernels (before ++ (section_names, kernel_names) ∷ after))
          (assign_sections (chain_sections (before ++ (section_names, kernel_names) ∷ after)) m))
unfolding check_if_has_all_names
assigned-IsNamed kernel_names section_names m before after wk ws =
    let gathered = before ++ (section_names, kernel_names) ∷ after in
    let n = assign_sections (chain_sections gathered) m in
    let (s, same_kernels) = assign_sections-IsExtended (chain_sections gathered) m in
    let (k, same_sections) = assign_kernels-IsExtended (chain_kernels gathered) n in
    record {
      kernels = k.numbered (subst IsNumbered (sym same_kernels) wk);
      sections = subst IsNumbered (sym same_sections) (s.numbered ws);
      kernels_kept = λ j i h.
          k.kept j i (subst (λ (d : Names). get j d.name_to_id ≡ some i) (sym same_kernels) h);
      sections_kept = λ j i h.
          subst (λ (d : Names). get j d.name_to_id ≡ some i) (sym same_sections) (s.kept j i h);
      all_named =
          both
            (has_all-contained kernel_names
              (assign_kernels (chain_kernels gathered) n).kernels.name_to_id
              (λ j c. k.named j (
                ground
                  (arith, contains-chain_kernels j before after (section_names, kernel_names) c))))
            (subst (λ (d : Names). has_all section_names d.name_to_id ≡ true) (sym same_sections)
              (has_all-contained section_names n.sections.name_to_id (λ j c. s.named j (
                ground (
                  arith,
                  contains-chain_sections j before after (section_names, kernel_names) c,
                )))));
    }

-- Let is_all_true answer no where this rank says no, and let the gathered names hold those of this
-- rank. If, for kernels and for sections, the ids are the numbers below the counter and the two
-- dicts are inverse to each other, then this holds after gather_and_assign_ids too, no name has
-- lost or changed its id, and every name that this rank gave has an id.
pub gather_and_assign_ids-IsNamed :
    (is_all_true : Bool → Bool) (all_gather : Recorded → List Recorded)
    (kernel_names section_names : List String) (m : NameMapper) (before after : List Recorded)
    → (is_all_true false ≡ false)
    → (all_gather (section_names, kernel_names) ≡ before ++ (section_names, kernel_names) ∷ after)
    → IsNumbered m.kernels
    → IsNumbered m.sections
    → IsNamed kernel_names section_names m
        (gather_and_assign_ids is_all_true all_gather kernel_names section_names m)
unfolding gather_and_assign_ids
gather_and_assign_ids-IsNamed is_all_true all_gather kernel_names section_names m before after fails
      own wk ws =
    if-cases (IsNamed kernel_names section_names m)
      (not (is_all_true (check_if_has_all_names kernel_names section_names m)))
      (assign_kernels (chain_kernels (all_gather (section_names, kernel_names)))
        (assign_sections (chain_sections (all_gather (section_names, kernel_names))) m))
      m
      (λ e.
        subst
          (λ gathered.
            IsNamed kernel_names section_names m (
              assign_kernels (chain_kernels gathered)
                (assign_sections (chain_sections gathered) m)))
          (sym own) (assigned-IsNamed kernel_names section_names m before after wk ws))
      (λ e. record {
        kernels = wk;
        sections = ws;
        kernels_kept = λ k i h. h;
        sections_kept = λ k i h. h;
        all_named = has_all_here (check_if_has_all_names kernel_names section_names m) e;
      })
  where
    has_all_here : (b : Bool) → not (is_all_true b) ≡ false → b ≡ true
    has_all_here true e = refl
    has_all_here false e = absurd (ground arith)
