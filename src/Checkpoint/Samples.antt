-- ===== src/Checkpoint/Samples.antt =====
-- Two ranks with two checkpoints, and the theorems at them.
use nvidia_resiliency_ext_x.Prelude.{
  ℕ, Bool, true, false, ◌≡◌, refl, Option, none, some, List, [], ◌∷◌, arith,
}
use nvidia_resiliency_ext_x.Prelude.Eq.{◌==◌, number_keys, text_keys}
use nvidia_resiliency_ext_x.Prelude.Dict.{Dict, get, has, put}
use nvidia_resiliency_ext_x.Prelude.Keys.{contains, add}
use nvidia_resiliency_ext_x.Prelude.Integers.{ℤ, pos, negsuc}
use nvidia_resiliency_ext_x.Prelude.Method.{ok, err}
use nvidia_resiliency_ext_x.Checkpoint.Directory.{
  failed_save_of, CkptId, FileName, ckpt_file, other_file, file_keys, checkpointing, Manager,
  ids_of, my_ckpt_ids,
}
use nvidia_resiliency_ext_x.Checkpoint.Manager.{
  rank_set, cover_ids, cover_all, is_subset, same_set, complete_iterations, greatest, own_ids,
  offered, search, find_latest, finalize_fn,
}
use nvidia_resiliency_ext_x.Checkpoint.Operations.{save, load}
use nvidia_resiliency_ext_x.Checkpoint.Coverage.{all_covered, covered_map}
use nvidia_resiliency_ext_x.Checkpoint.Latest.{IsLatest, latest_of, find_latest-IsLatest}
use nvidia_resiliency_ext_x.Checkpoint.Restoring.{gathered_at_barrier, world_after, load-save}
use nvidia_resiliency_ext_x.Checkpoint.Gathering.{gathered_from}
use nvidia_resiliency_ext_x.Checkpoint.Finalizing.{IsCleaned, finalize_fn-outcome}

-- A state dict is a number here, and a file holds it.
abbrev to_cpu : ℕ → ℕ
to_cpu x = x

abbrev torch_save : ℕ → ℕ × Bool
torch_save x = (x, true)

abbrev torch_load : ℕ → Option ℕ
torch_load b = some b

abbrev on_disk : ℕ → Dict FileName ℕ
on_disk r = (ckpt_file 3 r false, 30) ∷ (ckpt_file 4 r true, 0) ∷ (other_file "notes", 0) ∷ []

abbrev manager : ℕ → Manager ℕ
manager r = record {
  latest_iteration = negsuc 0;
  globally_available_ids = none;
  rank = r;
  session_id = "run";
  submitted = [];
  replicated = false;
  files = on_disk r;
}

abbrev two_ranks : List ℕ
two_ranks = 0 ∷ 1 ∷ []

abbrev shard : ℕ → ℕ
shard r = r

-- Only finished files count.
find_latest_three :
    (find_latest two_ranks (λ _. gathered_from manager two_ranks) (manager 0)).0 ≡ ok (pos 3)
unfolding find_latest search cover_all cover_ids rank_set complete_iterations same_set is_subset
    greatest offered my_ckpt_ids ids_of own_ids get put contains add
find_latest_three = refl

find_latest-IsLatest_example :
    (v : ℤ) × (t : Manager ℕ) × (find_latest two_ranks
        (λ _. gathered_from manager two_ranks)
        (manager 0)
      ≡ (ok v, t))
    × IsLatest two_ranks (gathered_from manager two_ranks) v
    × (t.latest_iteration ≡ v)
    × (t.files ≡ on_disk 0)
    × (find_latest two_ranks (λ _. gathered_from manager two_ranks) t ≡ (ok v, t))
unfolding contains offered my_ckpt_ids ids_of own_ids
find_latest-IsLatest_example =
    find_latest-IsLatest two_ranks (λ _. gathered_from manager two_ranks) (manager 0) refl refl
      ((refl, tt), ((refl, tt), tt))

load-save_example :
    (found : Manager ℕ) × (own : CkptId) × (save to_cpu none torch_save two_ranks
        (λ _.
          gathered_at_barrier to_cpu torch_save torch_load to_cpu
            (λ x. refl)
            "run"
            two_ranks
            manager
            shard
            5)
        1
        5
        (manager 1)
      ≡ (
        ok tt,
        world_after to_cpu torch_save torch_load to_cpu
            (λ x. refl)
            "run"
            two_ranks
            manager
            shard
            5
            1,
      ))
    × (find_latest two_ranks
          (λ _.
            gathered_from
              (world_after to_cpu torch_save torch_load to_cpu
                (λ x. refl)
                "run"
                two_ranks
                manager
                shard
                5)
              two_ranks)
          (world_after to_cpu torch_save torch_load to_cpu
            (λ x. refl)
            "run"
            two_ranks
            manager
            shard
            5
            1)
        ≡ (ok (pos 5), found))
    × (load none torch_load to_cpu found ≡ (ok (1, own), found))
    × (own ≡ record { iteration = 5; rank = 1; session = "run" })
unfolding has contains
load-save_example =
    load-save to_cpu torch_save torch_load to_cpu (λ x. refl) "run" two_ranks manager shard 5
      (
        (
          record { in_place = refl; unreplicated = refl; of_session = refl },
          record { older = refl; fits = refl; free = refl; whole = refl },
        ),
        (
          (
            record { in_place = refl; unreplicated = refl; of_session = refl },
            record { older = refl; fits = refl; free = refl; whole = refl },
          ),
          tt,
        ),
      )
      0 refl (λ j later. ground arith) 1 refl

-- Iteration 4 was not finished by any rank, and was saved asynchronously.
finalize_fn-outcome_example :
    (t : Manager ℕ) × (finalize_fn two_ranks
        (λ _. gathered_from manager two_ranks)
        true
        4
        (manager 0)
      ≡ (err checkpointing, t))
    × (t.latest_iteration ≡ negsuc 0)
    × IsCleaned true (failed_save_of 4) (λ i. i == 4) (manager 0) t
unfolding latest_of all_covered covered_map rank_set complete_iterations same_set is_subset greatest
    offered my_ckpt_ids ids_of own_ids get put contains add
finalize_fn-outcome_example =
    finalize_fn-outcome true 4 two_ranks (λ _. gathered_from manager two_ranks) (manager 0) refl
      ((refl, tt), ((refl, tt), tt)) refl
