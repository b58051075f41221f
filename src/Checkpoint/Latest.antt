-- ===== src/Checkpoint/Latest.antt =====
-- The search for the latest complete checkpoint, `find_latest` of
-- checkpointing/local/ckpt_managers/base_manager.py, against what it is to find.
use nvidia_resiliency_ext_x.Prelude.{
  ℕ, ◌≤◌, Bool, true, false, ◌≡◌, refl, sym, ap, ◌∙◌, some, List, [], ◌∷◌, All, arith,
  if◌then◌else◌, if-cases, max,
}
use nvidia_resiliency_ext_x.Prelude.Eq.{==_iff, number_keys}
use nvidia_resiliency_ext_x.Prelude.Dict.{Dict, get}
use nvidia_resiliency_ext_x.Prelude.Keys.{contains}
use nvidia_resiliency_ext_x.Prelude.Integers.{ℤ, pos, negsuc}
use nvidia_resiliency_ext_x.Prelude.Method.{ok}
use nvidia_resiliency_ext_x.Checkpoint.Directory.{CkptId, Manager}
use nvidia_resiliency_ext_x.Checkpoint.Manager.{
  rank_set, same_set, complete_iterations, greatest, is_minus_one, offered, search, find_latest,
}
use nvidia_resiliency_ext_x.Checkpoint.Coverage.{
  is_covered, IsOfSession, all_covered, cover_all-eq_ok, contains-all_covered, all_covered-IsUnique,
  same_set-contains, same_set-of_contains, contains-complete_iterations, has-of_rank_set,
}

-- The shards of an iteration are exactly those of the ranks of the group.
abbrev pub IsComplete : List ℕ → List (List CkptId) → ℕ → Type 0
IsComplete ranks gathered i = (r : ℕ) → is_covered i r gathered ≡ contains r ranks

-- The greatest complete iteration, or minus one if there is none.
abbrev pub IsLatest : List ℕ → List (List CkptId) → ℤ → Type 0
IsLatest ranks gathered (pos n) =
    IsComplete ranks gathered n × ((j : ℕ) → IsComplete ranks gathered j → j ≤ n)
IsLatest ranks gathered (negsuc k) = (k ≡ 0) × ((j : ℕ) → ¬ IsComplete ranks gathered j)

-- The greatest number of a list.
abbrev IsGreatest : List ℕ → ℤ → Type 0
IsGreatest ns (pos n) = (contains n ns ≡ true) × ((j : ℕ) → contains j ns ≡ true → j ≤ n)
IsGreatest ns (negsuc k) = (k ≡ 0) × ((j : ℕ) → contains j ns ≡ false)

greatest-IsGreatest : (ns : List ℕ) → IsGreatest ns (greatest ns)
unfolding greatest contains
greatest-IsGreatest [] = (refl, λ j. refl)
greatest-IsGreatest (n ∷ ns) = go (greatest ns) (greatest-IsGreatest ns)
  where
    go :
        (v : ℤ)
        → IsGreatest ns v
        → IsGreatest (n ∷ ns) (elim v [ pos k ↦ pos (max n k) | negsuc _ ↦ pos n ])
    go (pos k) (c, h) = (ground (arith, ==_iff n (max n k)), λ j d. ground (arith, h j, ==_iff n j))
    go (negsuc k) (e, h) = (ground (arith, ==_iff n n), λ j d. ground (arith, h j, ==_iff n j))

module _ (ranks : List ℕ) (gathered : List (List CkptId)) (some_rank : ℕ)
    (has_rank : contains some_rank ranks ≡ true) where
  abbrev coverage : Dict ℕ (List ℕ)
  coverage = all_covered gathered []

  IsComplete-of_contains :
      (i : ℕ) → contains i (complete_iterations ranks coverage) ≡ true → IsComplete ranks gathered i
  unfolding rank_set contains is_covered get
  IsComplete-of_contains i h r =
      let u = all_covered-IsUnique gathered [] tt in
      let same : same_set (rank_set i coverage) ranks ≡ true =
        ground (arith, contains-complete_iterations ranks coverage i u) in
      sym (contains-all_covered i r gathered [])
      ∙ same_set-contains (rank_set i coverage) ranks same r

  contains-of_IsComplete :
      (i : ℕ) → IsComplete ranks gathered i → contains i (complete_iterations ranks coverage) ≡ true
  unfolding rank_set contains is_covered get
  contains-of_IsComplete i h =
      let u = all_covered-IsUnique gathered [] tt in
      let every : (r : ℕ) → contains r (rank_set i coverage) ≡ contains r ranks =
        λ r. contains-all_covered i r gathered [] ∙ h r in
      contains-complete_iterations ranks coverage i u
      ∙ ground (
        arith,
        has-of_rank_set coverage i some_rank (every some_rank ∙ has_rank),
        same_set-of_contains (rank_set i coverage) ranks every,
      )

  greatest-IsLatest : IsLatest ranks gathered (greatest (complete_iterations ranks coverage))
  greatest-IsLatest =
      go (greatest (complete_iterations ranks coverage))
        (greatest-IsGreatest (complete_iterations ranks coverage))
    where
      go : (v : ℤ) → IsGreatest (complete_iterations ranks coverage) v → IsLatest ranks gathered v
      go (pos n) (c, h) = (IsComplete-of_contains n c, λ j k. h j (contains-of_IsComplete j k))
      go (negsuc k) (e, h) = (e, λ j c. let yes = contains-of_IsComplete j c in ground (arith, h j))

-- What a search finds.
unfoldable pub latest_of : List ℕ → List (List CkptId) → ℤ
latest_of ranks gathered = greatest (complete_iterations ranks (all_covered gathered []))

pub latest_of-IsLatest :
    (ranks : List ℕ) (gathered : List (List CkptId)) (some_rank : ℕ)
    → contains some_rank ranks ≡ true
    → IsLatest ranks gathered (latest_of ranks gathered)
unfolding latest_of
latest_of-IsLatest ranks gathered some_rank there = greatest-IsLatest ranks gathered some_rank there

module _ {Bytes : Type 0} (ranks : List ℕ) where
  abbrev pub after_search : List (List CkptId) → Manager Bytes → Manager Bytes
  after_search gathered m = record m {
    latest_iteration = latest_of ranks gathered;
    globally_available_ids = some gathered;
  }

  search-eq_ok :
      (all_gather_object : List CkptId → List (List CkptId)) (m : Manager Bytes)
      → All (All (IsOfSession m.session_id)) (all_gather_object (offered m))
      → search ranks all_gather_object m ≡ (
        ok (latest_of ranks (all_gather_object (offered m))),
        after_search (all_gather_object (offered m)) m,
      )
  unfolding search latest_of
  search-eq_ok all_gather_object m of_session =
      rw (cover_all-eq_ok m.session_id (all_gather_object (offered m)) [] of_session) refl

  pub find_latest-eq_ok :
      (all_gather_object : List CkptId → List (List CkptId)) (m : Manager Bytes)
      → is_minus_one m.latest_iteration ≡ true
      → All (All (IsOfSession m.session_id)) (all_gather_object (offered m))
      → find_latest ranks all_gather_object m ≡ (
        ok (latest_of ranks (all_gather_object (offered m))),
        after_search (all_gather_object (offered m)) m,
      )
  unfolding find_latest
  find_latest-eq_ok all_gather_object m fresh of_session =
      ap (λ (b : Bool). if b then search ranks all_gather_object m else (ok m.latest_iteration, m))
        fresh
      ∙ search-eq_ok all_gather_object m of_session

  find_latest_again :
      (gathered : List (List CkptId)) (m : Manager Bytes)
      → All (All (IsOfSession m.session_id)) gathered
      → find_latest ranks (λ _. gathered) (after_search gathered m)
        ≡ (ok (latest_of ranks gathered), after_search gathered m)
  unfolding find_latest
  find_latest_again gathered m of_session =
      if-cases (λ r. r ≡ (ok (latest_of ranks gathered), after_search gathered m))
        (is_minus_one (latest_of ranks gathered))
        (search ranks (λ _. gathered) (after_search gathered m))
        (ok (latest_of ranks gathered), after_search gathered m)
        (λ _. search-eq_ok (λ _. gathered) (after_search gathered m) of_session) (λ _. refl)

-- With nothing cached, in a group that has the rank itself, and if every gathered id is of the
-- session, find_latest returns the greatest iteration whose shards are available for exactly the
-- ranks of the group, or minus one if there is none, and caches it; called again, it returns the
-- same without a change.
pub find_latest-IsLatest :
    {Bytes : Type 0} (ranks : List ℕ) (all_gather_object : List CkptId → List (List CkptId))
    (m : Manager Bytes)
    → m.latest_iteration ≡ negsuc 0
    → contains m.rank ranks ≡ true
    → All (All (IsOfSession m.session_id)) (all_gather_object (offered m))
    → (v : ℤ) × (t : Manager Bytes) × (find_latest ranks all_gather_object m ≡ (ok v, t))
      × IsLatest ranks (all_gather_object (offered m)) v
      × (t.latest_iteration ≡ v)
      × (t.files ≡ m.files)
      × (find_latest ranks (λ _. all_gather_object (offered m)) t ≡ (ok v, t))
find_latest-IsLatest ranks all_gather_object m fresh there of_session =
    let gathered = all_gather_object (offered m) in
    (
      latest_of ranks gathered,
      after_search ranks gathered m,
      find_latest-eq_ok ranks all_gather_object m (ap is_minus_one fresh) of_session,
      latest_of-IsLatest ranks gathered m.rank there,
      refl,
      refl,
      find_latest_again ranks gathered m of_session,
    )
