-- ===== src/InProcess/Tree/First.antt =====
-- The tree of `Tree` in inprocess/rank_assignment.py after its first activation.
use nvidia_resiliency_ext_x.Prelude.{
  ℕ, zero, suc, ◌+◌, ◌≡◌, refl, sym, ◌∙◌, ap, subst, Option, some, List, [], ◌∷◌, map, length,
  range_from, arith, All, if◌then◌else◌, ltb,
}
use nvidia_resiliency_ext_x.Prelude.Eq.{==_iff, number_keys}
use nvidia_resiliency_ext_x.Prelude.Keys.{count}
use nvidia_resiliency_ext_x.InProcess.RankAssignment.{State}
use nvidia_resiliency_ext_x.InProcess.Tree.Topology.{
  TreeNode, iter_leaves, initial_ranks, bounded_activate,
}
use nvidia_resiliency_ext_x.InProcess.Tree.Leaves.{at_every_leaf}
use nvidia_resiliency_ext_x.InProcess.Tree.Call.{first_activation}
use nvidia_resiliency_ext_x.InProcess.Tree.LeafLists.{
  count_active, is_rank, AreApart, iter_leaves-at_every_leaf,
}
use nvidia_resiliency_ext_x.InProcess.Tree.Activating.{active_ranks}
use nvidia_resiliency_ext_x.InProcess.Tree.Activation.{
  IsNew, bounded_activate-IsActivated, fields-bounded_activate,
}
use nvidia_resiliency_ext_x.InProcess.Tree.Keeping.{ranks, HasSize, IsSound}
use nvidia_resiliency_ext_x.InProcess.Tree.Gaps.{once_below}
use nvidia_resiliency_ext_x.InProcess.Tree.Uniform.{
  IsEven, at_every_leaf-Stays, at_every_leaf-count,
}
use nvidia_resiliency_ext_x.InProcess.Tree.Numbering.{IsAssigned, length-map}
use nvidia_resiliency_ext_x.InProcess.Tree.Starting.{bounded_activate-marked}
use nvidia_resiliency_ext_x.InProcess.Tree.Noting.{IsUnmarked}

unfoldable number_of : ℕ → List (Option ℕ) → ℕ
number_of v [] = 0
number_of v (o ∷ os) = let n = number_of v os in if is_rank v o then suc n else n

number_of-active_ranks :
    (v : ℕ) (leaves : List State) → number_of v (active_ranks leaves) ≡ count_active v leaves
unfolding active_ranks count_active number_of
number_of-active_ranks v [] = refl
number_of-active_ranks v (s ∷ leaves) = ground (arith, number_of-active_ranks v leaves)

number_of-range_from :
    (v n size : ℕ)
    → number_of v (map some (range_from n size))
      ≡ (if ltb v n then 0 else if ltb v (n + size) then 1 else 0)
unfolding range_from number_of
number_of-range_from v n zero = ground arith
number_of-range_from v n (suc size) =
    ground (arith, number_of-range_from v (n + 1) size, ==_iff n v)

abbrev sized_at : ℕ → State → State
sized_at size s = record s { active_world_size = some size }

sized_at-IsEven : (size : ℕ) → IsEven (sized_at size)
sized_at-IsEven size = record {
  keeps_initial_rank = λ s. refl;
  keeps_mode = λ s. refl;
  ranked = λ s h. h;
}

All-sized_at : (size : ℕ) (leaves : List State) → All (HasSize size) (map (sized_at size) leaves)
All-sized_at size [] = tt
All-sized_at size (s ∷ leaves) = (refl, All-sized_at size leaves)

-- A tree that is just built: its leaves have distinct initial ranks, and the ranks of a world.
pub record IsBuilt (t : TreeNode) : Type 0 where
  pub new : IsNew t
  pub unmarked : IsUnmarked t
  pub apart : AreApart (initial_ranks (iter_leaves t))
  pub numbered : (v : ℕ) → count v (ranks (iter_leaves t)) ≡ once_below (length (iter_leaves t)) v

-- On a tree that is just built, whose leaves have distinct initial ranks and the ranks of a world,
-- each once, the first activation of a call leaves a tree in which the active ranks of active leaves
-- are the numbers below the number it returns, each once, every leaf has that number as its active
-- world size, and every node records its inactive leaves and no others.
pub first_activation-IsAssigned :
    (t : TreeNode) → IsBuilt t → IsAssigned (bounded_activate t 0 []).1 (first_activation t)
unfolding first_activation
first_activation-IsAssigned t b =
    let size = (bounded_activate t 0 []).1 in
    let n = (bounded_activate t 0 []).0 in
    let x = bounded_activate-IsActivated t b.new in
    let (marked, recorded) = bounded_activate-marked t 0 [] b.unmarked b.apart in
    let sound : IsSound n = record {
      apart = subst AreApart (sym x.leaves) b.apart;
      recorded = recorded;
      ranked = marked.ranked;
    } in
    let stays = at_every_leaf-Stays (sized_at size) n (sized_at-IsEven size) (λ s. refl) sound in
    let leaves_after = iter_leaves-at_every_leaf (sized_at size) n in
    let same_ranks : ranks (iter_leaves n) ≡ ranks (iter_leaves t) =
      fields-bounded_activate (λ s. s.rank) t 0 [] (λ s m o. refl) in
    let same_length : length (iter_leaves t)
        ≡ length (iter_leaves (at_every_leaf (sized_at size) n)) =
      sym (length-map (λ (s : State). s.rank) (iter_leaves t))
      ∙ ap length (sym (stays.same_ranks ∙ same_ranks))
      ∙ length-map (λ (s : State). s.rank) (iter_leaves (at_every_leaf (sized_at size) n)) in
    record {
      sound = stays.sound;
      sized = record {
        counts = λ v.
            at_every_leaf-count (sized_at size) v n (λ s. refl) (λ s. refl)
            ∙ sym (number_of-active_ranks v (iter_leaves n))
            ∙ ap (number_of v) x.numbers
            ∙ ground (arith, number_of-range_from v 0 size);
        sizes = subst (All (HasSize size)) (sym leaves_after) (All-sized_at size (iter_leaves n));
      };
      numbered = λ v.
          ap (count v) (stays.same_ranks ∙ same_ranks)
          ∙ b.numbered v
          ∙ ap (λ m. once_below m v) same_length;
    }
