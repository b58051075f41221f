-- ===== src/Replication/Replicating.antt =====
-- `replicate` of checkpointing/local/replication/strategies.py: every rank of a group gets the state
-- dicts of all, their tensors moved to the target device. What the collectives of the group give,
-- and the move of a tensor, are parameters.
use nvidia_resiliency_ext_x.Prelude.{
  Bool, true, false, not, ◌&&◌, ◌≡◌, refl, sym, ◌∙◌, Option, some, List, [], ◌∷◌, map, length,
  length-map, All, eqb, eqb_iff, if◌then◌else◌,
}
use nvidia_resiliency_ext_x.Prelude.Method.{Exceptional, ok, err, ret, ◌>>=◌, ◌>>◌}
use nvidia_resiliency_ext_x.Checkpoint.StateDict.{
  StateError, assertion_error, Value, StateDict, nested_values, tensors_among, to_placeholder,
  pop_tensors, insert_tensors, move_one,
}
use nvidia_resiliency_ext_x.Checkpoint.Tensors.{map_leaves, walk-plain, IsWhole, insert-moved_all}
use nvidia_resiliency_ext_x.Replication.Strategies.{get_elem?}
use nvidia_resiliency_ext_x.Replication.Batch.{
  Group, moved, all_gather_batch, AreBroadcast, all_gather_batch-eq_ok,
}

abbrev pub asserted : {S : Type 0} → Bool → S → Exceptional StateError (Unit {0}) × S
asserted true s = (ok tt, s)
asserted false s = (err assertion_error, s)

module _ {Tensor Properties Other : Type 0} where
  unfoldable pub all_hollow : Bool → List (StateDict Tensor Properties Other) → Bool
  all_hollow hollow [] = true
  all_hollow hollow (sd ∷ sds) =
      let rest = all_hollow hollow sds in
      if sd.is_hollow then hollow && rest else not hollow && rest

  abbrev pub inserted :
      Exceptional StateError (Unit {0}) × StateDict Tensor Properties Other
      → Exceptional StateError (List (StateDict Tensor Properties Other))
      → Exceptional StateError (List (StateDict Tensor Properties Other))
  inserted (err x, sd) rest = err x
  inserted (ok _, sd) (err x) = err x
  inserted (ok _, sd) (ok sds) = ok (sd ∷ sds)

  unfoldable pub insert_each :
      List (StateDict Tensor Properties Other)
      → List (List Tensor)
      → Exceptional StateError (List (StateDict Tensor Properties Other))
  unfolding insert_tensors
  insert_each [] tss = ok []
  insert_each (_ ∷ _) [] = ok []
  insert_each (sd ∷ sds) (ts ∷ tss) = inserted (insert_tensors ts sd) (insert_each sds tss)

  -- The loop over `zip_strict`, which raises where the lists differ in length.
  unfoldable pub insert_all :
      List (StateDict Tensor Properties Other)
      → List (List Tensor)
      → Exceptional StateError (List (StateDict Tensor Properties Other))
  unfolding insert_each
  insert_all sds tss =
      if eqb (length sds) (length tss) then insert_each sds tss else err assertion_error

  unfoldable pub replicate :
      {Ident Device : Type 0}
      → Group Tensor Properties Device
      → Option Device
      → (Tensor → Properties)
      → (StateDict Tensor Properties Other → List (StateDict Tensor Properties Other))
      → (Ident → List Ident)
      → Ident
      → StateDict Tensor Properties Other
      → Exceptional StateError (List (StateDict Tensor Properties Other) × List Ident)
        × StateDict Tensor Properties Other
  unfolding all_hollow insert_all pop_tensors all_gather_batch
  replicate group target_device properties gather_object gather_id id = do
    my_tensor_data ← pop_tensors properties
    hollow_ckpts ← (λ local. (ok (gather_object local), local))
    asserted (all_hollow true hollow_ckpts)
    tensor_data ← (λ local. (all_gather_batch group properties target_device my_tensor_data, local))
    others ← (λ local. (insert_all hollow_ckpts tensor_data, local))
    asserted (all_hollow false others)
    (λ local. asserted local.is_hollow local)
    ret (others, gather_id id)

  module _ (properties : Tensor → Properties) where
    -- A state dict as it is given, without its tensors, and these.
    abbrev pub whole_of : Value Tensor Properties Other → StateDict Tensor Properties Other
    whole_of v = record { state_dict = v; is_hollow = false }

    abbrev pub hollow_of : Value Tensor Properties Other → StateDict Tensor Properties Other
    hollow_of v = record { state_dict = map_leaves (to_placeholder properties) v; is_hollow = true }

    abbrev pub tensors_of : Value Tensor Properties Other → List Tensor
    tensors_of v = tensors_among (nested_values v)

    hollow-all_hollow :
        (vs : List (Value Tensor Properties Other)) → all_hollow true (map hollow_of vs) ≡ true
    unfolding all_hollow
    hollow-all_hollow [] = refl
    hollow-all_hollow (v ∷ vs) = hollow-all_hollow vs

    whole-all_hollow :
        (vs : List (Value Tensor Properties Other)) → all_hollow false (map whole_of vs) ≡ true
    unfolding all_hollow
    whole-all_hollow [] = refl
    whole-all_hollow (v ∷ vs) = whole-all_hollow vs

    -- A state dict of which every tensor is moved.
    abbrev pub moved_by :
        (Tensor → Tensor) → Value Tensor Properties Other → Value Tensor Properties Other
    moved_by f = map_leaves (move_one f)

    insert_each-moved :
        (f : Tensor → Tensor) (vs : List (Value Tensor Properties Other))
        → All IsWhole vs
        → insert_each (map hollow_of vs) (map (map f) (map tensors_of vs))
          ≡ ok (map whole_of (map (moved_by f) vs))
    unfolding insert_each insert_tensors
    insert_each-moved f [] w = refl
    insert_each-moved f (v ∷ vs) (w, ws) =
        rw (insert-moved_all properties f v w, insert_each-moved f vs ws) refl

    insert_all-moved :
        (f : Tensor → Tensor) (vs : List (Value Tensor Properties Other))
        → All IsWhole vs
        → insert_all (map hollow_of vs) (map (map f) (map tensors_of vs))
          ≡ ok (map whole_of (map (moved_by f) vs))
    unfolding insert_all
    insert_all-moved f vs w =
        let same : eqb (length (map hollow_of vs)) (length (map (map f) (map tensors_of vs)))
            ≡ true =
          (eqb_iff _ _).1 (
            length-map vs hollow_of
            ∙ sym (length-map (map tensors_of vs) (map f) ∙ length-map vs tensors_of)) in
        rw (same, insert_each-moved f vs w) refl

    -- If no state dict of the group holds a placeholder, the rank's own stands at its place among
    -- them, the hollow state dicts and the placeholders of the tensors are gathered from the group,
    -- and a broadcast leaves the sender's tensor and gives the other ranks one with the same contents,
    -- then replicate returns the state dicts of the group, every tensor moved to the target device,
    -- with the gathered ids, and leaves the rank's own hollow.
    pub replicate-moved :
        {Ident Device : Type 0} (group : Group Tensor Properties Device)
        (target_device : Option Device)
        (gather_object : StateDict Tensor Properties Other
          → List (StateDict Tensor Properties Other))
        (gather_id : Ident → List Ident) (id : Ident) (own : Value Tensor Properties Other)
        (vs : List (Value Tensor Properties Other))
        → All IsWhole vs
        → get_elem? (map tensors_of vs) group.my_group_rank ≡ some (tensors_of own)
        → gather_object (hollow_of own) ≡ map hollow_of vs
        → group.gather_placeholders (map properties (tensors_of own))
          ≡ map (map properties) (map tensors_of vs)
        → AreBroadcast group properties target_device 0 (map tensors_of vs)
        → replicate group target_device properties gather_object gather_id id (whole_of own) ≡ (
          ok (map whole_of (map (moved_by (moved group target_device)) vs), gather_id id),
          hollow_of own,
        )
    unfolding replicate pop_tensors
    replicate-moved group target_device gather_object gather_id id own vs w mine hollows
          placeholders b =
        rw
          (
            walk-plain (to_placeholder properties) own,
            hollows,
            all_gather_batch-eq_ok group properties target_device (tensors_of own)
                (map tensors_of vs) placeholders mine b,
            hollow-all_hollow vs,
            insert_all-moved (moved group target_device) vs w,
            whole-all_hollow (map (moved_by (moved group target_device)) vs),
          )
          refl
