-- ===== src/InProcess/Tree/Numbering.antt =====
-- `recompute_rank` of `Tree` in inprocess/rank_assignment.py: the ranks of the leaves are those of a
-- world.
use nvidia_resiliency_ext_x.Prelude.{
  ℕ, suc, ◌≡◌, refl, sym, ap, ◌∙◌, true, false, List, [], ◌∷◌, map, length, arith,
}
use nvidia_resiliency_ext_x.Prelude.Eq.{number_keys}
use nvidia_resiliency_ext_x.Prelude.Keys.{count, count-append}
use nvidia_resiliency_ext_x.InProcess.RankAssignment.{State}
use nvidia_resiliency_ext_x.InProcess.Tree.Topology.{TreeNode, iter_leaves, initial_ranks}
use nvidia_resiliency_ext_x.InProcess.Tree.Leaves.{at_every_leaf}
use nvidia_resiliency_ext_x.InProcess.Tree.Call.{with_termination, index_of, recompute_rank}
use nvidia_resiliency_ext_x.InProcess.Tree.LeafLists.{AreApart, iter_leaves-at_every_leaf}
use nvidia_resiliency_ext_x.InProcess.Tree.Keeping.{ended, ranks, IsSound}
use nvidia_resiliency_ext_x.InProcess.Tree.RankSets.{
  SameItems, SameItems-map, SameItems-length, count-AreApart, AreApart-of_count,
}
use nvidia_resiliency_ext_x.InProcess.Tree.Gaps.{once_below}
use nvidia_resiliency_ext_x.InProcess.Tree.Uniform.{
  IsSized, IsEven, at_every_leaf-IsSound, at_every_leaf-initial_ranks, at_every_leaf-count,
  at_every_leaf-sizes, ended-map,
}
use nvidia_resiliency_ext_x.InProcess.Tree.Reranking.{order_of, count-order, count-map-index_of}

-- Between calls: the active ranks are those of a world of this size, each once; the ranks those of the
-- world of all leaves, each once; and what the nodes record is right.
pub record IsAssigned (size : ℕ) (t : TreeNode) : Type 0 where
  pub sound : IsSound t
  pub sized : IsSized size t
  pub numbered : (v : ℕ) → count v (ranks (iter_leaves t)) ≡ once_below (length (iter_leaves t)) v

abbrev numbered_in : List ℕ → State → State
numbered_in order s = record s { rank = index_of s.initial_rank order }

numbered_in-IsEven : (order : List ℕ) → IsEven (numbered_in order)
numbered_in-IsEven order = record {
  keeps_initial_rank = λ s. refl;
  keeps_mode = λ s. refl;
  ranked = λ s e. e;
}

ranks-numbered_in :
    (order : List ℕ) (leaves : List State)
    → ranks (map (numbered_in order) leaves) ≡ map (λ k. index_of k order) (initial_ranks leaves)
ranks-numbered_in order [] = refl
ranks-numbered_in order (s ∷ leaves) =
    ap (λ l. index_of s.initial_rank order ∷ l) (ranks-numbered_in order leaves)

pub length-map : {A B : Type 0} (f : A → B) (xs : List A) → length (map f xs) ≡ length xs
length-map f [] = refl
length-map f (x ∷ xs) = ap suc (length-map f xs)

pub recompute_rank-IsAssigned :
    (size : ℕ) (t : TreeNode)
    → IsSound t
    → IsSized size t
    → IsAssigned size (recompute_rank t)
      × (initial_ranks (iter_leaves (recompute_rank t)) ≡ initial_ranks (iter_leaves t))
      × (ended (iter_leaves (recompute_rank t)) ≡ ended (iter_leaves t))
unfolding recompute_rank
recompute_rank-IsAssigned size t w h =
    let leaves = iter_leaves t in
    let order = order_of leaves in
    let same : SameItems (initial_ranks leaves) order = λ k. omega (
      arith,
      count-append k (with_termination false leaves) (with_termination true leaves),
      count-order k leaves,
    ) in
    let apart : AreApart order =
      AreApart-of_count order
        (λ k. omega (arith, same k, count-AreApart k (initial_ranks leaves) w.apart)) in
    let number : length order ≡ length (iter_leaves (at_every_leaf (numbered_in order) t)) =
      sym (SameItems-length (initial_ranks leaves) order same)
      ∙ length-map (λ s. s.initial_rank) leaves
      ∙ sym (length-map (numbered_in order) leaves)
      ∙ ap length (sym (iter_leaves-at_every_leaf (numbered_in order) t)) in
    (
      record {
        sound = at_every_leaf-IsSound (numbered_in order) t (numbered_in-IsEven order) w;
        sized = record {
          counts =
              λ v. at_every_leaf-count (numbered_in order) v t (λ s. refl) (λ s. refl) ∙ h.counts v;
          sizes = at_every_leaf-sizes (numbered_in order) size size t (λ s e. e) h.sizes;
        };
        numbered = λ v.
            ap (λ l. count v (ranks l)) (iter_leaves-at_every_leaf (numbered_in order) t)
            ∙ ap (count v) (ranks-numbered_in order leaves)
            ∙ SameItems-map (λ k. index_of k order) v (initial_ranks leaves) order same
            ∙ count-map-index_of v order apart
            ∙ ap (λ n. once_below n v) number;
      },
      at_every_leaf-initial_ranks (numbered_in order) t (λ s. refl),
      ap ended (iter_leaves-at_every_leaf (numbered_in order) t)
          ∙ ended-map (numbered_in order) leaves (λ s. refl),
    )
