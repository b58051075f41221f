-- ===== src/InProcess/Tree/Narrowing.antt =====
-- `filter_active_world_size` of `Tree` in inprocess/rank_assignment.py: the leaves past the new size are
-- deactivated.
use nvidia_resiliency_ext_x.Prelude.{
  ℕ, ◌≤◌, ◌≡◌, refl, true, Option, none, some, arith, All, All-mono, leb,
}
use nvidia_resiliency_ext_x.Prelude.Eq.{number_keys}
use nvidia_resiliency_ext_x.Prelude.Method.{ok}
use nvidia_resiliency_ext_x.InProcess.RankAssignment.{State}
use nvidia_resiliency_ext_x.InProcess.Tree.Topology.{TreeNode, iter_leaves}
use nvidia_resiliency_ext_x.InProcess.Tree.Leaves.{at_every_leaf}
use nvidia_resiliency_ext_x.InProcess.Tree.Call.{deactivate_past, shrink, filter_active_world_size}
use nvidia_resiliency_ext_x.InProcess.Tree.LeafLists.{iter_leaves-at_every_leaf}
use nvidia_resiliency_ext_x.InProcess.Tree.Reserving.{All-found}
use nvidia_resiliency_ext_x.InProcess.Tree.Keeping.{HasSize, IsSound}
use nvidia_resiliency_ext_x.InProcess.Tree.Ending.{IsFound, with_rank-found, rank_map-found}
use nvidia_resiliency_ext_x.InProcess.Tree.Choosing.{All-with_rank}
use nvidia_resiliency_ext_x.InProcess.Tree.Uniform.{
  Stays, Stays-refl, Stays-trans, Follows-Stays, IsSized, IsEven, at_every_leaf-Stays,
  at_every_leaf-count, at_every_leaf-sizes, with_initial_rank-map,
}
use nvidia_resiliency_ext_x.InProcess.Tree.Deactivating.{
  IsAsAt, past_count-count_active, deactivate_past-Follows,
}

abbrev resized : ℕ → State → State
resized size s = record s { active_world_size = some size }

resized-IsEven : (size : ℕ) → IsEven (resized size)
resized-IsEven size = record {
  keeps_initial_rank = λ s. refl;
  keeps_mode = λ s. refl;
  ranked = λ s h. h;
}

pub shrink-IsSized :
    (new size : ℕ) (t : TreeNode)
    → IsSound t
    → IsSized size t
    → new ≤ size
    → (u : TreeNode) × (shrink new (some size) t ≡ (ok tt, u)) × Stays t u × IsSized new u
unfolding shrink
shrink-IsSized new size t w h l =
    let t1 = at_every_leaf (resized new) t in
    let even = at_every_leaf-Stays (resized new) t (resized-IsEven new) (λ s. refl) w in
    let at_leaves : All (IsAsAt t1) (iter_leaves t) =
      All-mono (iter_leaves t)
        (λ s found. (
          resized new s,
          rw (iter_leaves-at_every_leaf (resized new) t) (
              with_initial_rank-map (resized new) s.initial_rank (iter_leaves t) s (λ x. refl)
                found),
          refl,
          refl,
        ))
        (All-found (iter_leaves t) w.apart) in
    let (follows, ends, counts) =
      deactivate_past-Follows new (iter_leaves t) t1 even.sound w.apart at_leaves in
    let fits : leb new size ≡ true = ground arith in
    (
      deactivate_past new (iter_leaves t) t1,
      rw fits refl,
      Stays-trans even (Follows-Stays follows ends),
      record {
        counts = λ v. ground (
          arith,
          counts v,
          past_count-count_active new v (iter_leaves t),
          at_every_leaf-count (resized new) v t (λ s. refl) (λ s. refl),
          h.counts v,
        );
        sizes =
            follows.sizes new (at_every_leaf-sizes (resized new) size new t (λ s e. refl) h.sizes);
      },
    )

-- A world size filter answers with no more than it is given.
abbrev pub IsNarrowing : Option (ℕ → ℕ) → Type 0
IsNarrowing none = Unit
IsNarrowing (some f) = (n : ℕ) → f n ≤ n

abbrev pub narrowed : Option (ℕ → ℕ) → ℕ → ℕ
narrowed none size = size
narrowed (some f) size = f size

pub filter_active_world_size-IsSized :
    (o : Option (ℕ → ℕ)) (size : ℕ) (t : TreeNode)
    → IsNarrowing o
    → IsSound t
    → IsSized size t
    → IsFound t 0
    → (u : TreeNode) × (filter_active_world_size o t ≡ (ok tt, u))
      × Stays t u
      × IsSized (narrowed o size) u
unfolding filter_active_world_size
filter_active_world_size-IsSized none size t n w h f = (t, refl, Stays-refl t w, h)
filter_active_world_size-IsSized (some g) size t n w h f =
    let (s, found, rank) = with_rank-found 0 (iter_leaves t) f in
    let has_size : s.active_world_size ≡ some size =
      All-with_rank (HasSize size) 0 (iter_leaves t) s h.sizes found in
    let (u, run, stays, sized) = shrink-IsSized (g size) size t w h (n size) in
    (u, rw (rank_map-found 0 t s found) (rw has_size run), stays, sized)
