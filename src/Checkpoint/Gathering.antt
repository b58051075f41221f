-- ===== src/Checkpoint/Gathering.antt =====
-- What is gathered from the ranks of a group without replication, and what a search makes of it:
-- checkpointing/local/ckpt_managers/base_manager.py over local_manager.py.
use nvidia_resiliency_ext_x.Prelude.{
  ℕ, true, false, ◌&&◌, ◌≡◌, refl, subst, ◌∙◌, List, [], ◌∷◌, map, String, All, arith, ltb,
}
use nvidia_resiliency_ext_x.Prelude.Eq.{==_iff, number_keys, text_keys}
use nvidia_resiliency_ext_x.Prelude.Dict.{has}
use nvidia_resiliency_ext_x.Prelude.Keys.{contains, All-at_contained}
use nvidia_resiliency_ext_x.Prelude.Integers.{ℤ, pos, negsuc, leb_ℤ}
use nvidia_resiliency_ext_x.Checkpoint.Directory.{CkptId, ckpt_file, file_keys, Manager}
use nvidia_resiliency_ext_x.Checkpoint.Manager.{offered}
use nvidia_resiliency_ext_x.Checkpoint.Coverage.{is_covered, IsOfSession}
use nvidia_resiliency_ext_x.Checkpoint.Latest.{IsComplete, IsLatest, latest_of, latest_of-IsLatest}
use nvidia_resiliency_ext_x.Checkpoint.Files.{mentions-offered, offered-IsOfSession}

module _ {Bytes : Type 0} where
  -- What is gathered from the ranks of the group.
  abbrev pub gathered_from : (ℕ → Manager Bytes) → List ℕ → List (List CkptId)
  gathered_from world ranks = map (λ r. offered (world r)) ranks

  -- A rank of a group without replication, in its place.
  pub record IsMember (session : String) (world : ℕ → Manager Bytes) (r : ℕ) : Type 0 where
    pub in_place : (world r).rank ≡ r
    pub unreplicated : (world r).replicated ≡ false
    pub of_session : (world r).session_id ≡ session

  pub is_covered-gathered_from :
      (session : String) (world : ℕ → Manager Bytes) (i r : ℕ) (ranks : List ℕ)
      → All (IsMember session world) ranks
      → is_covered i r (gathered_from world ranks)
        ≡ (contains r ranks && has (ckpt_file i r false) (world r).files)
  unfolding is_covered contains
  is_covered-gathered_from session world i r [] members = refl
  is_covered-gathered_from session world i r (q ∷ ranks) (member, members) = ground (
    arith,
    is_covered-gathered_from session world i r ranks members,
    mentions-offered i r (world q),
    member.in_place,
    member.unreplicated,
    ==_iff q r,
  )

  pub gathered_from-IsOfSession :
      (session : String) (world : ℕ → Manager Bytes) (ranks : List ℕ)
      → All (IsMember session world) ranks
      → All (All (IsOfSession session)) (gathered_from world ranks)
  gathered_from-IsOfSession session world [] members = tt
  gathered_from-IsOfSession session world (q ∷ ranks) (member, members) = (
    subst (λ s. All (IsOfSession s) (offered (world q))) member.of_session
        (offered-IsOfSession (world q)),
    gathered_from-IsOfSession session world ranks members,
  )

  module _ (session : String) (world : ℕ → Manager Bytes) (ranks : List ℕ)
      (members : All (IsMember session world) ranks) (some_rank : ℕ)
      (has_rank : contains some_rank ranks ≡ true) (i : ℕ)
      (saved : All (λ r. has (ckpt_file i r false) (world r).files ≡ true) ranks) where
    IsComplete-of_files : IsComplete ranks (gathered_from world ranks) i
    IsComplete-of_files r =
        is_covered-gathered_from session world i r ranks members
        ∙ ground (
          arith,
          All-at_contained (λ q. has (ckpt_file i q false) (world q).files ≡ true) r ranks saved,
        )

    -- An iteration that all have saved is found, or a later one.
    pub latest_of-ge : leb_ℤ (pos i) (latest_of ranks (gathered_from world ranks)) ≡ true
    latest_of-ge =
        go (latest_of ranks (gathered_from world ranks))
          (latest_of-IsLatest ranks (gathered_from world ranks) some_rank has_rank)
      where
        go : (v : ℤ) → IsLatest ranks (gathered_from world ranks) v → leb_ℤ (pos i) v ≡ true
        go (pos n) (_, h) = ground (arith, h i IsComplete-of_files)
        go (negsuc k) (_, h) = absurd (h i IsComplete-of_files)

    -- It is that one if some rank has no later one.
    pub latest_of-eq :
        ((j : ℕ)
          → ltb i j ≡ true
          → has (ckpt_file j some_rank false) (world some_rank).files ≡ false)
        → latest_of ranks (gathered_from world ranks) ≡ pos i
    latest_of-eq newest =
        go (latest_of ranks (gathered_from world ranks))
          (latest_of-IsLatest ranks (gathered_from world ranks) some_rank has_rank)
      where
        go : (v : ℤ) → IsLatest ranks (gathered_from world ranks) v → v ≡ pos i
        go (pos n) (c, h) = ground (
          arith,
          h i IsComplete-of_files,
          newest n,
          c some_rank,
          is_covered-gathered_from session world n some_rank ranks members,
        )
        go (negsuc k) (_, h) = absurd (h i IsComplete-of_files)
