-- ===== src/Straggler/NameMapper.antt =====
-- `NameMapper` of straggler/name_mapper.py. Its three fields for kernels and its three fields for
-- sections are alike, and so are the methods on them, which only differ in the fields they use. What
-- the ranks of the group answer (is_all_true and all_gather_object) is a parameter.
use nvidia_resiliency_ext_x.Prelude.{
  ℕ, suc, ◌&&◌, not, Bool, true, Option, List, [], ◌∷◌, ◌++◌, String, if◌then◌else◌,
}
use nvidia_resiliency_ext_x.Prelude.Eq.{number_keys, text_keys}
use nvidia_resiliency_ext_x.Prelude.Dict.{Dict, get, has, put}

-- kernel_name_to_id, id_to_kernel_name and kernel_counter, or those of the sections.
pub record Names : Type 0 where
  pub name_to_id : Dict String ℕ
  pub id_to_name : Dict ℕ String
  pub counter : ℕ

pub record NameMapper : Type 0 where
  pub kernels : Names
  pub sections : Names

abbrev pub no_names : Names
no_names = record { name_to_id = []; id_to_name = []; counter = 0 }

abbrev pub new_mapper : NameMapper
new_mapper = record { kernels = no_names; sections = no_names }

unfoldable pub assign_id : String → Names → Names
assign_id name ns = if has name ns.name_to_id then ns else record {
  name_to_id = put name ns.counter ns.name_to_id;
  id_to_name = put ns.counter name ns.id_to_name;
  counter = suc ns.counter;
}

-- The id that the method returns: a KeyError if there is none.
unfoldable pub assign_kernel_id : String → NameMapper → Option ℕ × NameMapper
unfolding assign_id
assign_kernel_id kernel_name m =
    let kernels = assign_id kernel_name m.kernels in
    (get kernel_name kernels.name_to_id, record m { kernels = kernels })

unfoldable pub assign_section_id : String → NameMapper → Option ℕ × NameMapper
unfolding assign_id
assign_section_id section_name m =
    let sections = assign_id section_name m.sections in
    (get section_name sections.name_to_id, record m { sections = sections })

abbrev pub get_kernel_name : ℕ → NameMapper → Option String
get_kernel_name kernel_id m = get kernel_id m.kernels.id_to_name

abbrev pub get_kernel_id : String → NameMapper → Option ℕ
get_kernel_id kernel_name m = get kernel_name m.kernels.name_to_id

abbrev pub get_section_name : ℕ → NameMapper → Option String
get_section_name section_id m = get section_id m.sections.id_to_name

abbrev pub get_section_id : String → NameMapper → Option ℕ
get_section_id section_name m = get section_name m.sections.name_to_id

unfoldable pub has_all : List String → Dict String ℕ → Bool
has_all [] d = true
has_all (n ∷ names) d = has n d && has_all names d

unfoldable pub check_if_has_all_names : List String → List String → NameMapper → Bool
unfolding has_all
check_if_has_all_names kernel_names section_names m =
    has_all kernel_names m.kernels.name_to_id && has_all section_names m.sections.name_to_id

-- The section names and the kernel names of one rank.
abbrev pub Recorded : Type 0
Recorded = List String × List String

-- itertools.chain.from_iterable
abbrev pub chain_sections : List Recorded → List String
chain_sections [] = []
chain_sections ((sections, kernels) ∷ gathered) = sections ++ chain_sections gathered

abbrev pub chain_kernels : List Recorded → List String
chain_kernels [] = []
chain_kernels ((sections, kernels) ∷ gathered) = kernels ++ chain_kernels gathered

unfoldable pub assign_sections : List String → NameMapper → NameMapper
unfolding assign_section_id
assign_sections [] m = m
assign_sections (section ∷ names) m = assign_sections names (assign_section_id section m).1

unfoldable pub assign_kernels : List String → NameMapper → NameMapper
unfolding assign_kernel_id
assign_kernels [] m = m
assign_kernels (kernel ∷ names) m = assign_kernels names (assign_kernel_id kernel m).1

module _ (is_all_true : Bool → Bool) (all_gather : Recorded → List Recorded) where
  unfoldable pub gather_and_assign_ids : List String → List String → NameMapper → NameMapper
  unfolding check_if_has_all_names assign_sections assign_kernels
  gather_and_assign_ids kernel_names section_names m =
      let gathered_names = all_gather (section_names, kernel_names) in
      if not (is_all_true (check_if_has_all_names kernel_names section_names m))
      then assign_kernels (chain_kernels gathered_names)
          (assign_sections (chain_sections gathered_names) m)
      else m
