-- ===== src/Replication/Transfer.antt =====
-- One state dict sent from rank to rank: `isend_state_dict` and `irecv_state_dict` of
-- checkpointing/local/replication/group_utils.py. What goes over the wire is the hollow state dict
-- and then the tensors, one by one.
use mathlib.Core.List.{append_assoc, append-nil}
use nvidia_resiliency_ext_x.Prelude.{true, false, ◌≡◌, refl, subst, List, [], ◌∷◌, ◌++◌}
use nvidia_resiliency_ext_x.Prelude.Method.{Exceptional, ok, err, ret, ◌>>=◌, ◌>>◌}
use nvidia_resiliency_ext_x.Checkpoint.StateDict.{
  StateError, blocked, Value, tensor, placeholder, other, dict_of, list_of, Values, nil, cons,
  StateDict, nested_values, nested_items, tensors_among, dict_list_map_inplace, map_items,
  to_placeholder, pop_tensors, insert_tensors, init_one, init_tensors,
}
use nvidia_resiliency_ext_x.Checkpoint.Tensors.{
  map_leaves, map_all, walk-plain, tensors_among-append, IsWhole, AreWhole, insert-popped_all,
}

-- A hollow state dict and its tensors, in the order in which they are sent.
pub record Parcel (Tensor Properties Other : Type 0) : Type 0 where
  pub hollow : StateDict Tensor Properties Other
  pub sent : List Tensor

module _ {Tensor Properties Other : Type 0} where
  unfoldable pub isend_state_dict :
      (Tensor → Properties)
      → StateDict Tensor Properties Other
      → Exceptional StateError (Parcel Tensor Properties Other) × StateDict Tensor Properties Other
  unfolding pop_tensors insert_tensors
  isend_state_dict properties = do
    tensor_data ← pop_tensors properties
    hollow ← (λ sd. (ok sd, sd))
    insert_tensors tensor_data
    ret (record { hollow = hollow; sent = tensor_data })

  -- `ten.copy_(received)`: a tensor of the hollow state dict takes the data of the next one that
  -- arrives, and waits for it.
  abbrev pub copy_next :
      (Tensor → Tensor → Tensor)
      → Tensor
      → List Tensor
      → Exceptional StateError (Value Tensor Properties Other) × List Tensor
  copy_next copy t [] = (err blocked, [])
  copy_next copy t (x ∷ xs) = (ok (tensor (copy t x)), xs)

  abbrev pub copy_one :
      (Tensor → Tensor → Tensor)
      → Value Tensor Properties Other
      → List Tensor
      → Exceptional StateError (Value Tensor Properties Other) × List Tensor
  copy_one copy (tensor t) wire = copy_next copy t wire
  copy_one copy v wire = (ok v, wire)

  abbrev pub received :
      Exceptional StateError (Unit {0})
      → Exceptional StateError (Value Tensor Properties Other)
      → Exceptional StateError (StateDict Tensor Properties Other)
  received (err x) _ = err x
  received (ok _) (err x) = err x
  received (ok _) (ok v) = ok (record { state_dict = v; is_hollow = false })

  unfoldable pub irecv_state_dict :
      (Properties → Tensor)
      → (Tensor → Tensor → Tensor)
      → Parcel Tensor Properties Other
      → Exceptional StateError (StateDict Tensor Properties Other)
  unfolding init_tensors dict_list_map_inplace
  irecv_state_dict empty copy parcel =
      let (r, hollow_ckpt) = init_tensors empty parcel.hollow in
      received r (dict_list_map_inplace (copy_one copy) hollow_ckpt.state_dict parcel.sent).0

  module _ (properties : Tensor → Properties) (empty : Properties → Tensor)
      (copy : Tensor → Tensor → Tensor)
      (copied : (t : Tensor) → copy (empty (properties t)) t ≡ t) where
    mutual
      unfolding dict_list_map_inplace nested_values

      copy-init :
          (v : Value Tensor Properties Other) (wire : List Tensor)
          → IsWhole v
          → dict_list_map_inplace
              (copy_one copy)
              (map_leaves (init_one empty) (map_leaves (to_placeholder properties) v))
              (tensors_among (nested_values v) ++ wire)
            ≡ (ok v, wire)
      copy-init (dict_of keys vs) wire w = rw (copy_items-init vs wire w) refl
      copy-init (list_of vs) wire w = rw (copy_items-init vs wire w) refl
      copy-init (tensor t) wire w = rw (copied t) refl
      copy-init (placeholder p) wire w = elim w [ ]
      copy-init (other x) wire w = refl

      copy_items-init :
          (vs : Values Tensor Properties Other) (wire : List Tensor)
          → AreWhole vs
          → map_items
              (copy_one copy)
              (map_all (init_one empty) (map_all (to_placeholder properties) vs))
              (tensors_among (nested_items vs) ++ wire)
            ≡ (ok vs, wire)
      copy_items-init nil wire w = refl
      copy_items-init (cons v vs) wire (w, ws) =
          rw
            (
              tensors_among-append (nested_values v) (nested_items vs),
              append_assoc,
              copy-init v (tensors_among (nested_items vs) ++ wire) w,
              copy_items-init vs wire ws,
            )
            refl

    copy-init_all :
        (v : Value Tensor Properties Other)
        → IsWhole v
        → dict_list_map_inplace
            (copy_one copy)
            (map_leaves (init_one empty) (map_leaves (to_placeholder properties) v))
            (tensors_among (nested_values v))
          ≡ (ok v, [])
    copy-init_all v w =
        subst
          (λ wire.
            dict_list_map_inplace (copy_one copy)
              (map_leaves (init_one empty) (map_leaves (to_placeholder properties) v)) wire
            ≡ (ok v, []))
          (append-nil (tensors_among (nested_values v))) (copy-init v [] w)

    -- If copying a tensor into an empty one with its properties gives the tensor, a state dict that
    -- is not hollow and holds no placeholder is sent without an exception, stays as it is at the
    -- sender, and what the receiver makes of the parcel is that state dict.
    pub irecv_state_dict-isend_state_dict :
        (v : Value Tensor Properties Other)
        → IsWhole v
        → (parcel : Parcel Tensor Properties Other) × (isend_state_dict properties
              (record { state_dict = v; is_hollow = false })
            ≡ (ok parcel, record { state_dict = v; is_hollow = false }))
          × (irecv_state_dict empty copy parcel ≡ ok (record { state_dict = v; is_hollow = false }))
    unfolding isend_state_dict irecv_state_dict pop_tensors insert_tensors init_tensors
    irecv_state_dict-isend_state_dict v w = (
      record {
        hollow = record { state_dict = map_leaves (to_placeholder properties) v; is_hollow = true };
        sent = tensors_among (nested_values v);
      },
      rw (walk-plain (to_placeholder properties) v, insert-popped_all properties v w) refl,
      rw (walk-plain (init_one empty) (map_leaves (to_placeholder properties) v), copy-init_all v w)
          refl,
    )
