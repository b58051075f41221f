-- ===== src/Straggler/Samples.antt =====
-- Tests of the name mapper in a group of two ranks, and the theorem at them.
use nvidia_resiliency_ext_x.Prelude.{◌≡◌, refl, false, some, List, [], ◌∷◌, arith}
use nvidia_resiliency_ext_x.Prelude.Eq.{number_keys, text_keys}
use nvidia_resiliency_ext_x.Prelude.Dict.{get, has, put}
use nvidia_resiliency_ext_x.Straggler.NameMapper.{
  NameMapper, no_names, new_mapper, assign_id, assign_kernel_id, assign_section_id, has_all,
  check_if_has_all_names, Recorded, assign_sections, assign_kernels, gather_and_assign_ids,
  get_kernel_id,
}
use nvidia_resiliency_ext_x.Straggler.Naming.{IsNumbered}
use nvidia_resiliency_ext_x.Straggler.Gathering.{IsNamed, gather_and_assign_ids-IsNamed}

-- What the other rank has recorded.
abbrev other_rank : Recorded
other_rank = ("data" ∷ [], "gemm" ∷ "copy" ∷ [])

abbrev after_other : Recorded → List Recorded
after_other own = other_rank ∷ own ∷ []

abbrev mapped : NameMapper
mapped =
    gather_and_assign_ids (λ b. false) after_other ("copy" ∷ "add" ∷ []) ("data" ∷ []) new_mapper

three_kernels : get_kernel_id "add" mapped ≡ some 2
unfolding gather_and_assign_ids assign_kernels assign_sections assign_kernel_id assign_section_id
    assign_id check_if_has_all_names has_all get has put
three_kernels = refl

no_names-IsNumbered : IsNumbered no_names
unfolding get has
no_names-IsNumbered = record {
  there = λ k i h. absurd (ground arith);
  back = λ i k h. absurd (ground arith);
  bounded = λ i. ground arith;
}

gather_and_assign_ids-IsNamed_example :
    IsNamed ("copy" ∷ "add" ∷ []) ("data" ∷ []) new_mapper mapped
gather_and_assign_ids-IsNamed_example =
    gather_and_assign_ids-IsNamed (λ b. false) after_other ("copy" ∷ "add" ∷ []) ("data" ∷ [])
      new_mapper (other_rank ∷ []) [] refl refl no_names-IsNumbered no_names-IsNumbered
