-- ===== src/Replication/Samples.antt =====
-- Tests of the replication groups on eight ranks, and the theorem at them.
use nvidia_resiliency_ext_x.Prelude.{
  ℕ, zero, suc, ◌+◌, true, false, ◌≡◌, some, refl, List, [], ◌∷◌, map, All, arith, if◌then◌else◌,
  ltb,
}
use nvidia_resiliency_ext_x.Prelude.Eq.{◌==◌, ==_iff, number_keys}
use nvidia_resiliency_ext_x.Prelude.Dict.{Dict, has}
use nvidia_resiliency_ext_x.Prelude.Keys.{contains, count}
use nvidia_resiliency_ext_x.Prelude.Sorting.{insert, sorted}
use nvidia_resiliency_ext_x.Prelude.Method.{ok}
use nvidia_resiliency_ext_x.Replication.Groups.{
  take, drop, batches, batched, column, stepped, columns, parse_group_sequence,
}
use nvidia_resiliency_ext_x.Checkpoint.StateDict.{
  Value, tensor, other, list_of, nil, cons, nested_values,
}
use nvidia_resiliency_ext_x.Replication.Batch.{Group}
use nvidia_resiliency_ext_x.Replication.Transfer.{
  Parcel, isend_state_dict, irecv_state_dict, irecv_state_dict-isend_state_dict,
}
use nvidia_resiliency_ext_x.Replication.Replicating.{
  replicate, whole_of, hollow_of, replicate-moved,
}
use nvidia_resiliency_ext_x.Replication.Exchange.{ExchangePlanEntry, Wire, execute_plan}
use nvidia_resiliency_ext_x.Replication.Strategies.{get_elem?, Random, retrieve_plan}
use nvidia_resiliency_ext_x.Replication.Delivery.{copied, payloads, sent_to, execute_plan-copied}
use nvidia_resiliency_ext_x.Replication.Planning.{holds, is_available, IsChoosing}
use nvidia_resiliency_ext_x.Replication.Outcomes.{requests, IsAnswer, retrieve_plan-IsAnswer}
use nvidia_resiliency_ext_x.Replication.Retrieval.{
  wanted, IsDelivered, arriving, execute_plan-retrieve_plan,
}
use nvidia_resiliency_ext_x.Replication.Columns.{members, IsSpaced}
use nvidia_resiliency_ext_x.Replication.Partition.{parse_group_sequence-IsPartition}

-- Jump 2 and factor 2.
eight_in_pairs :
    parse_group_sequence 2 2 8 ≡ ok ((0 ∷ 2 ∷ []) ∷ (1 ∷ 3 ∷ []) ∷ (4 ∷ 6 ∷ []) ∷ (5 ∷ 7 ∷ []) ∷ [])
unfolding parse_group_sequence columns batched batches take drop stepped column sorted insert
eight_in_pairs = refl

parse_group_sequence-IsPartition_example :
    (groups : List (List ℕ)) × (parse_group_sequence 2 2 8 ≡ ok groups)
    × All (IsSpaced 2 2) groups
    × ((r : ℕ) → count r (members groups) ≡ (if ltb r 8 then 1 else 0))
parse_group_sequence-IsPartition_example =
    parse_group_sequence-IsPartition 2 2 8 (omega arith) (omega arith) refl

abbrev head_or_zero : List ℕ → ℕ
head_or_zero [] = 0
head_or_zero (x ∷ xs) = x

-- Ranks 0 and 2 keep the shards 10 and 12 of each other; rank 2 has lost its disk.
abbrev pick_first : Random
pick_first = record { State = Unit {0}; seeded = tt; choice = λ s xs. (head_or_zero xs, s) }

abbrev loaded_ids : ℕ → Dict ℕ ℕ
loaded_ids zero = (10, 100) ∷ (12, 120) ∷ []
loaded_ids _ = []

abbrev shard_of : ℕ → ℕ
shard_of r = r + 10

abbrev known_ids : List (List ℕ)
known_ids = (10 ∷ 12 ∷ []) ∷ [] ∷ [] ∷ []

abbrev pair : List ℕ
pair = 0 ∷ 2 ∷ []

pick_first-IsChoosing : IsChoosing pick_first
unfolding contains
pick_first-IsChoosing = record { chosen = first }
  where
    first :
        (s : Unit {0}) (xs : List ℕ) (x : ℕ)
        → contains x xs ≡ true
        → contains (head_or_zero xs) xs ≡ true
    first s [] x h = h
    first s (y ∷ ys) x h = ground (arith, ==_iff y y)

known_ids-loaded : (r k : ℕ) → holds known_ids k r ≡ true → has k (loaded_ids r) ≡ true
unfolding holds get_elem? contains has
known_ids-loaded zero k h = ground arith
known_ids-loaded (suc zero) k h = ground arith
known_ids-loaded (suc (suc zero)) k h = ground arith
known_ids-loaded (suc (suc (suc r))) k h = ground arith

execute_plan-retrieve_plan_example :
    (entries : List (ExchangePlanEntry ℕ)) × (got : Dict ℕ ℕ) × (t : Wire ℕ) × (retrieve_plan
        pick_first pair known_ids
        (wanted loaded_ids shard_of pair)
      ≡ ok entries)
    × (execute_plan 2 entries (loaded_ids 2) (
          arriving loaded_ids shard_of pick_first pick_first-IsChoosing pair known_ids
            known_ids-loaded 2 entries)
        ≡ (ok got, t))
    × IsDelivered loaded_ids shard_of known_ids 2 got
unfolding contains get_elem? is_available holds
execute_plan-retrieve_plan_example =
    execute_plan-retrieve_plan loaded_ids shard_of pick_first pick_first-IsChoosing pair known_ids
      known_ids-loaded 2 (refl, (refl, tt)) ((_, refl), ((_, refl), tt)) (refl, (refl, tt)) refl

-- Rank 0 sends shard 12 to rank 2 and gets its own shard from itself.
abbrev two_entries : List (ExchangePlanEntry ℕ)
two_entries =
    record { sender = 0; receiver = 0; id = 10 } ∷ record { sender = 0; receiver = 2; id = 12 } ∷ []

execute_plan-copied_example :
    (t : Wire ℕ) × (execute_plan 2 two_entries
        (loaded_ids 2)
        (record { inbox = λ s. payloads loaded_ids s 2 two_entries; outbox = [] })
      ≡ (ok (copied loaded_ids 2 two_entries []), t))
    × ((s : ℕ) → t.inbox s ≡ [])
    × ((to : ℕ) → (2 == to) ≡ false → sent_to to t.outbox ≡ payloads loaded_ids 2 to two_entries)
unfolding has
execute_plan-copied_example =
    execute_plan-copied loaded_ids 2 two_entries
      (record { inbox = λ s. payloads loaded_ids s 2 two_entries; outbox = [] }) (refl, (refl, tt))
      (λ s. refl) refl

-- Nobody has shard 13.
retrieve_plan-IsAnswer_example :
    IsAnswer pick_first pick_first-IsChoosing pair known_ids
      (requests pair ((10 ∷ []) ∷ (13 ∷ []) ∷ []))
      (retrieve_plan pick_first pair known_ids ((10 ∷ []) ∷ (13 ∷ []) ∷ []))
unfolding get_elem?
retrieve_plan-IsAnswer_example =
    retrieve_plan-IsAnswer pick_first pick_first-IsChoosing pair known_ids
      ((10 ∷ []) ∷ (13 ∷ []) ∷ []) ((_, refl), ((_, refl), tt))

-- A tensor is a number, and what it has besides its contents is the unit.
abbrev sent_state : Value ℕ (Unit {0}) ℕ
sent_state = list_of (cons (tensor 7) (cons (other 1) (cons (tensor 8) nil)))

irecv_state_dict-isend_state_dict_example :
    (parcel : Parcel ℕ (Unit {0}) ℕ) × (isend_state_dict
        (λ _. tt)
        (record { state_dict = sent_state; is_hollow = false })
      ≡ (ok parcel, record { state_dict = sent_state; is_hollow = false }))
    × (irecv_state_dict (λ _. 0) (λ t x. x) parcel
        ≡ ok (record { state_dict = sent_state; is_hollow = false }))
irecv_state_dict-isend_state_dict_example =
    irecv_state_dict-isend_state_dict (λ _. tt) (λ _. 0) (λ t x. x) (λ t. refl) sent_state
      (tt, (tt, (tt, tt)))

-- Two state dicts of which the second is the rank's own.
abbrev group_states : List (Value ℕ (Unit {0}) ℕ)
group_states = list_of (cons (tensor 5) nil) ∷ sent_state ∷ []

-- The tensors of the other rank come as a copy with 0 contents, that is filled; the device 100 adds
-- 100 to a tensor.
abbrev group_of_two : Group ℕ (Unit {0}) ℕ
group_of_two = record {
  my_group_rank = 1;
  gather_placeholders = λ _. (tt ∷ []) ∷ (tt ∷ tt ∷ []) ∷ [];
  empty_like = λ _. 0;
  broadcast = λ r i t. if r == 0 then 5 else t;
  to = λ device t. device + t;
}

replicate-moved_example :
    replicate {Ident = ℕ} group_of_two
      (some 100)
      (λ _. tt)
      (λ _. map (hollow_of (λ _. tt)) group_states)
      (λ id. 10 ∷ id ∷ [])
      12
      (whole_of (λ _. tt) sent_state)
    ≡ (
      ok (
        map (whole_of (λ _. tt)) (
            list_of (cons (tensor 105) nil)
            ∷ list_of (cons (tensor 107) (cons (other 1) (cons (tensor 108) nil)))
            ∷ []),
        10 ∷ 12 ∷ [],
      ),
      hollow_of (λ _. tt) sent_state,
    )
unfolding get_elem? nested_values
replicate-moved_example =
    replicate-moved (λ _. tt) group_of_two (some 100) (λ _. map (hollow_of (λ _. tt)) group_states)
      (λ id. 10 ∷ id ∷ []) 12 sent_state group_states ((tt, tt), ((tt, (tt, (tt, tt))), tt)) refl
      refl refl ((λ e. cc, λ e. refl, tt), ((λ e. refl, λ e. cc, (λ e. refl, λ e. cc, tt)), tt))
