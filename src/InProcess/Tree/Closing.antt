-- ===== src/InProcess/Tree/Closing.antt =====
-- The active ranks of `Tree.__call__` in inprocess/rank_assignment.py where inactive leaves do not
-- replace all terminated ones: backfill, then shift.
use nvidia_resiliency_ext_x.Prelude.{
  ℕ, ◌+◌, ◌-◌, ◌≡◌, refl, ap, ◌∙◌, subst, Option, none, some, List, [], ◌∷◌, length, arith, All,
  leb,
}
use nvidia_resiliency_ext_x.Prelude.Eq.{number_keys}
use nvidia_resiliency_ext_x.Prelude.Keys.{count}
use nvidia_resiliency_ext_x.Prelude.Sorting.{sorted, count-sorted, length-sorted}
use nvidia_resiliency_ext_x.Prelude.Method.{ok}
use nvidia_resiliency_ext_x.InProcess.Tree.Topology.{TreeNode, iter_leaves}
use nvidia_resiliency_ext_x.InProcess.Tree.Reassignment.{
  shifted_rank, fewer, shifted_state, shift_tree,
}
use nvidia_resiliency_ext_x.InProcess.Tree.Call.{shift_unhandled}
use nvidia_resiliency_ext_x.InProcess.Tree.LeafLists.{count_active, iter_leaves-at_every_leaf}
use nvidia_resiliency_ext_x.InProcess.Tree.Keeping.{has_rank, HasSize, IsSound}
use nvidia_resiliency_ext_x.InProcess.Tree.Replacing.{held_by, AreTerminated}
use nvidia_resiliency_ext_x.InProcess.Tree.Backfilled.{replace_with_backfill-IsBackfilled}
use nvidia_resiliency_ext_x.InProcess.Tree.Gaps.{once_below, count_active-shifted_state}
use nvidia_resiliency_ext_x.InProcess.Tree.Uniform.{
  Stays, Stays-refl, Stays-trans, Follows-Stays, IsSized, IsEven, at_every_leaf-Stays,
  at_every_leaf-sizes,
}

has_rank-shifted_rank : (gaps : List ℕ) (o : Option ℕ) → has_rank (shifted_rank gaps o) ≡ has_rank o
has_rank-shifted_rank gaps none = refl
has_rank-shifted_rank gaps (some r) = refl

shifted_state-IsEven : (gaps : List ℕ) (n : ℕ) → IsEven (shifted_state gaps n)
shifted_state-IsEven gaps n = record {
  keeps_initial_rank = λ s. refl;
  keeps_mode = λ s. refl;
  ranked = λ s h e. has_rank-shifted_rank gaps s.active_rank ∙ h e;
}

shift_tree-IsSized :
    (gaps rs : List ℕ) (size : ℕ) (t : TreeNode)
    → IsSound t
    → ((v : ℕ) → count_active v (iter_leaves t) + count v gaps ≡ once_below size v)
    → length gaps ≡ length rs
    → All (HasSize size) (iter_leaves t)
    → Stays t (shift_tree gaps rs t) × IsSized (size - length rs) (shift_tree gaps rs t)
unfolding shift_tree
shift_tree-IsSized gaps rs size t w h n sizes =
    let f = shifted_state (sorted leb gaps) (length rs) in
    let same : length (sorted leb gaps) ≡ length rs = length-sorted leb gaps ∙ n in
    (
      at_every_leaf-Stays f t (shifted_state-IsEven (sorted leb gaps) (length rs)) (λ s. refl) w,
      record {
        counts = λ v.
            ap (count_active v) (iter_leaves-at_every_leaf f t)
            ∙ count_active-shifted_state (sorted leb gaps) (length rs) size (iter_leaves t) v
                (λ r. omega (arith, h r, count-sorted leb r gaps))
            ∙ ap (λ m. once_below (size - m) v) same;
        sizes =
            at_every_leaf-sizes f size (size - length rs) t (λ s e. ap (fewer (length rs)) e) sizes;
      },
    )

pub shift_unhandled-IsSized :
    (value : ℕ → ℕ) (rs : List ℕ) (size : ℕ) (t : TreeNode)
    → IsSound t
    → AreTerminated value t rs
    → ((v : ℕ) → count_active v (iter_leaves t) + held_by value rs v ≡ once_below size v)
    → All (HasSize size) (iter_leaves t)
    → (u : TreeNode) × (shift_unhandled rs t ≡ (ok tt, u))
      × Stays t u
      × IsSized (size - length rs) u
unfolding shift_unhandled count
shift_unhandled-IsSized value [] size t w a h sizes =
    let same : size ≡ size - 0 = omega arith in
    (
      t,
      refl,
      Stays-refl t w,
      subst (λ n. IsSized n t) same (record { counts = λ v. omega (arith, h v); sizes = sizes }),
    )
shift_unhandled-IsSized value (r ∷ rs) size t w a h sizes =
    let (gaps, t1, run, x) =
      replace_with_backfill-IsBackfilled value (r ∷ rs) t w a (λ v. ground (arith, h v)) in
    let (stays, sized) =
      shift_tree-IsSized gaps (r ∷ rs) size t1 x.keeps.follows.sound
        (λ v. omega (arith, x.counts v, h v)) x.numbers (x.keeps.follows.sizes size sizes) in
    (
      shift_tree gaps (r ∷ rs) t1,
      rw run refl,
      Stays-trans (Follows-Stays x.keeps.follows x.ends) stays,
      sized,
    )
