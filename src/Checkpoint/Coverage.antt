-- ===== src/Checkpoint/Coverage.antt =====
-- The map from iterations to ranks that `find_latest` of
-- checkpointing/local/ckpt_managers/base_manager.py builds.
use nvidia_resiliency_ext_x.Prelude.{
  ℕ, Bool, true, false, ◌&&◌, ◌||◌, ◌≡◌, refl, sym, ◌∙◌, List, [], ◌∷◌, String, All, arith,
  if◌then◌else◌,
}
use nvidia_resiliency_ext_x.Prelude.Eq.{◌==◌, ==_iff, eq_self, number_keys, text_keys}
use nvidia_resiliency_ext_x.Prelude.Dict.{Dict, get, has, put, IsUnique, get-put, put-IsUnique}
use nvidia_resiliency_ext_x.Prelude.Keys.{contains, add, contains-add}
use nvidia_resiliency_ext_x.Prelude.Method.{ok}
use nvidia_resiliency_ext_x.Checkpoint.Directory.{CkptId}
use nvidia_resiliency_ext_x.Checkpoint.Manager.{
  rank_set, cover_ids, cover_all, is_subset, same_set, complete_iterations,
}

abbrev is_of : ℕ → ℕ → CkptId → Bool
is_of i r c = (c.iteration == i) && (c.rank == r)

-- Some id is of this iteration and this rank.
unfoldable pub mentions : ℕ → ℕ → List CkptId → Bool
mentions i r [] = false
mentions i r (c ∷ ids) = is_of i r c || mentions i r ids

unfoldable pub is_covered : ℕ → ℕ → List (List CkptId) → Bool
unfolding mentions
is_covered i r [] = false
is_covered i r (ids ∷ gathered) = mentions i r ids || is_covered i r gathered

abbrev pub IsOfSession : String → CkptId → Type 0
IsOfSession session c = (c.session == session) ≡ true

unfoldable pub covered_map : List CkptId → Dict ℕ (List ℕ) → Dict ℕ (List ℕ)
unfolding rank_set
covered_map [] coverage = coverage
covered_map (c ∷ ids) coverage =
    covered_map ids (put c.iteration (add c.rank (rank_set c.iteration coverage)) coverage)

cover_ids-eq_ok :
    (session : String) (ids : List CkptId) (coverage : Dict ℕ (List ℕ))
    → All (IsOfSession session) ids
    → cover_ids session ids coverage ≡ ok (covered_map ids coverage)
unfolding cover_ids covered_map
cover_ids-eq_ok session [] coverage h = refl
cover_ids-eq_ok session (c ∷ ids) coverage (p, h) =
    rw p (cover_ids-eq_ok session ids (put c.iteration _ coverage) h)

rank_set-put :
    (i j : ℕ) (s : List ℕ) (coverage : Dict ℕ (List ℕ))
    → rank_set i (put j s coverage) ≡ (if j == i then s else rank_set i coverage)
unfolding rank_set
rank_set-put i j s coverage = rw (rank_set, get-put i j s coverage) (ground arith)

contains-rank_set_map :
    (i r : ℕ) (ids : List CkptId) (coverage : Dict ℕ (List ℕ))
    → contains r (rank_set i (covered_map ids coverage))
      ≡ (contains r (rank_set i coverage) || mentions i r ids)
unfolding covered_map mentions
contains-rank_set_map i r [] coverage = ground arith
contains-rank_set_map i r (c ∷ ids) coverage =
    let s = add c.rank (rank_set c.iteration coverage) in
    ground (
      arith,
      contains-rank_set_map i r ids (put c.iteration s coverage),
      rank_set-put i c.iteration s coverage,
      contains-add r c.rank (rank_set c.iteration coverage),
      ==_iff c.iteration i,
    )

covered_map-IsUnique :
    (ids : List CkptId) (coverage : Dict ℕ (List ℕ))
    → IsUnique coverage
    → IsUnique (covered_map ids coverage)
unfolding covered_map
covered_map-IsUnique [] coverage u = u
covered_map-IsUnique (c ∷ ids) coverage u =
    covered_map-IsUnique ids _ (put-IsUnique c.iteration _ coverage u)

unfoldable pub all_covered : List (List CkptId) → Dict ℕ (List ℕ) → Dict ℕ (List ℕ)
unfolding covered_map
all_covered [] coverage = coverage
all_covered (ids ∷ gathered) coverage = all_covered gathered (covered_map ids coverage)

pub cover_all-eq_ok :
    (session : String) (gathered : List (List CkptId)) (coverage : Dict ℕ (List ℕ))
    → All (All (IsOfSession session)) gathered
    → cover_all session gathered coverage ≡ ok (all_covered gathered coverage)
unfolding cover_all all_covered
cover_all-eq_ok session [] coverage h = refl
cover_all-eq_ok session (ids ∷ gathered) coverage (p, h) =
    rw (cover_ids-eq_ok session ids coverage p)
      (cover_all-eq_ok session gathered (covered_map ids coverage) h)

pub contains-all_covered :
    (i r : ℕ) (gathered : List (List CkptId)) (coverage : Dict ℕ (List ℕ))
    → contains r (rank_set i (all_covered gathered coverage))
      ≡ (contains r (rank_set i coverage) || is_covered i r gathered)
unfolding all_covered is_covered
contains-all_covered i r [] coverage = ground arith
contains-all_covered i r (ids ∷ gathered) coverage = ground (
  arith,
  contains-all_covered i r gathered (covered_map ids coverage),
  contains-rank_set_map i r ids coverage,
)

pub all_covered-IsUnique :
    (gathered : List (List CkptId)) (coverage : Dict ℕ (List ℕ))
    → IsUnique coverage
    → IsUnique (all_covered gathered coverage)
unfolding all_covered
all_covered-IsUnique [] coverage u = u
all_covered-IsUnique (ids ∷ gathered) coverage u =
    all_covered-IsUnique gathered _ (covered_map-IsUnique ids coverage u)

is_subset-contains :
    (s t : List ℕ) (r : ℕ) → is_subset s t ≡ true → contains r s ≡ true → contains r t ≡ true
unfolding is_subset contains
is_subset-contains [] t r h c = ground arith
is_subset-contains (j ∷ s) t r h c = ground (arith, is_subset-contains s t r, ==_iff j r)

is_subset-of_contains :
    (s t : List ℕ) → ((r : ℕ) → contains r s ≡ true → contains r t ≡ true) → is_subset s t ≡ true
unfolding is_subset contains
is_subset-of_contains [] t h = refl
is_subset-of_contains (j ∷ s) t h =
    ground (arith, h j, eq_self j, is_subset-of_contains s t (λ r c. h r (ground arith)))

pub same_set-contains : (s t : List ℕ) → same_set s t ≡ true → (r : ℕ) → contains r s ≡ contains r t
unfolding same_set
same_set-contains s t h r = ground (arith, is_subset-contains s t r, is_subset-contains t s r)

pub same_set-of_contains :
    (s t : List ℕ) → ((r : ℕ) → contains r s ≡ contains r t) → same_set s t ≡ true
unfolding same_set
same_set-of_contains s t h = ground (
  arith,
  is_subset-of_contains s t (λ r c. sym (h r) ∙ c),
  is_subset-of_contains t s (λ r c. h r ∙ c),
)

pub contains-complete_iterations :
    (ranks : List ℕ) (coverage : Dict ℕ (List ℕ)) (i : ℕ)
    → IsUnique coverage
    → contains i (complete_iterations ranks coverage)
      ≡ (has i coverage && same_set (rank_set i coverage) ranks)
unfolding complete_iterations contains has rank_set get
contains-complete_iterations ranks [] i u = refl
contains-complete_iterations ranks ((j, s) ∷ coverage) i (absent, u) =
    ground (arith, contains-complete_iterations ranks coverage i u, ==_iff j i)

pub has-of_rank_set :
    (coverage : Dict ℕ (List ℕ)) (i r : ℕ)
    → contains r (rank_set i coverage) ≡ true
    → has i coverage ≡ true
unfolding rank_set get has contains
has-of_rank_set [] i r h = ground arith
has-of_rank_set ((j, s) ∷ coverage) i r h = ground (arith, has-of_rank_set coverage i r)
