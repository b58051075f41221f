-- ===== src/InProcess/Tree/Unhandled.antt =====
-- The terminated active ranks of `Tree` in inprocess/rank_assignment.py that no inactive leaf replaces.
use nvidia_resiliency_ext_x.Prelude.{
  ℕ, ◌+◌, ◌≤◌, ◌≡◌, sym, ap, ◌∙◌, List, [], ◌++◌, map, arith, leb,
}
use mathlib.Core.List.{map-append}
use nvidia_resiliency_ext_x.Prelude.Eq.{number_keys}
use nvidia_resiliency_ext_x.Prelude.Keys.{count, count-append}
use nvidia_resiliency_ext_x.Prelude.Sorting.{sorted, count-sorted}
use nvidia_resiliency_ext_x.Prelude.Method.{ok}
use nvidia_resiliency_ext_x.InProcess.Tree.Topology.{TreeNode, iter_leaves}
use nvidia_resiliency_ext_x.InProcess.Tree.Reassignment.{minus, replace_with_inactive}
use nvidia_resiliency_ext_x.InProcess.Tree.LeafLists.{count_active, AreApart}
use nvidia_resiliency_ext_x.InProcess.Tree.Keeping.{ended, IsSound, IsTerminatedAt, Keeps}
use nvidia_resiliency_ext_x.InProcess.Tree.RankSets.{
  All-sorted, All-minus, SameItems-map, minus-SameItems,
}
use nvidia_resiliency_ext_x.InProcess.Tree.Replacing.{
  held_by, AreTerminated, AreTerminated-after, replace_each-IsReplaced,
}

-- Every active rank that is set free is taken over or held by an unhandled leaf.
pub record IsHandled (value : ℕ → ℕ) (rs more : List ℕ) (t u : TreeNode) : Type 0 where
  pub keeps : Keeps t u
  pub counts :
      (v : ℕ)
      → count_active v (iter_leaves u) + held_by value (minus rs more) v
        ≡ count_active v (iter_leaves t) + held_by value rs v
  pub ends : ended (iter_leaves u) ≡ ended (iter_leaves t)
  pub still : AreTerminated value u (minus rs more)

held_by-minus :
    (value : ℕ → ℕ) (rs more : List ℕ) (v : ℕ)
    → AreApart rs
    → ((k : ℕ) → count k more ≤ count k rs)
    → held_by value (minus rs more) v + held_by value more v ≡ held_by value rs v
held_by-minus value rs more v a h =
    sym (count-append v (map value (minus rs more)) (map value more))
    ∙ ap (count v) (sym (map-append value (minus rs more) more))
    ∙ SameItems-map value v (minus rs more ++ more) rs (minus-SameItems rs more a h)

pub replace_with_inactive-IsHandled :
    (value : ℕ → ℕ) (rs : List ℕ) (t : TreeNode)
    → IsSound t
    → AreApart rs
    → AreTerminated value t rs
    → (more : List ℕ) × (u : TreeNode) × (replace_with_inactive rs t ≡ (ok more, u))
      × IsHandled value rs more t u
unfolding replace_with_inactive count
replace_with_inactive-IsHandled value rs t w a over =
    let (more, u, run, x) =
      replace_each-IsReplaced value (sorted leb rs) [] t w
        (All-sorted leb (λ r. IsTerminatedAt t r (value r)) rs over) in
    (
      more,
      u,
      run,
      record {
        keeps = x.keeps;
        counts = λ v. omega (
          arith,
          x.counts v,
          held_by-minus value rs more v a (λ k. omega (arith, x.known k, count-sorted leb k rs)),
        );
        ends = x.ends;
        still =
            All-minus (λ r. IsTerminatedAt u r (value r)) rs more
              (AreTerminated-after value rs t u x.keeps over);
      },
    )
