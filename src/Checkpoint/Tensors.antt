-- ===== src/Checkpoint/Tensors.antt =====
-- Taking the tensors out of a state dict of checkpointing/local/basic_state_dict.py, putting them
-- back, and moving them.
use mathlib.Core.List.{append_assoc, append-nil, map-append}
use nvidia_resiliency_ext_x.Prelude.{false, ◌≡◌, refl, subst, List, [], ◌∷◌, ◌++◌, map}
use nvidia_resiliency_ext_x.Prelude.Method.{ok, ◌>>=◌}
use nvidia_resiliency_ext_x.Checkpoint.StateDict.{
  Value, tensor, placeholder, other, dict_of, list_of, Values, nil, cons, nested_values,
  nested_items, tensors_among, dict_list_map_inplace, map_items, plain, to_placeholder, pop_tensors,
  insert_one, insert_tensors, move_one,
}

module _ {Tensor Properties Other : Type 0} where
  -- Every leaf replaced, without exceptions and states.
  abbrev mutual
    pub map_leaves :
        (Value Tensor Properties Other → Value Tensor Properties Other)
        → Value Tensor Properties Other
        → Value Tensor Properties Other
    map_leaves f (dict_of keys vs) = dict_of keys (map_all f vs)
    map_leaves f (list_of vs) = list_of (map_all f vs)
    map_leaves f v = f v

    pub map_all :
        (Value Tensor Properties Other → Value Tensor Properties Other)
        → Values Tensor Properties Other
        → Values Tensor Properties Other
    map_all f nil = nil
    map_all f (cons v vs) = cons (map_leaves f v) (map_all f vs)

  mutual
    unfolding dict_list_map_inplace

    pub walk-plain :
        (f : Value Tensor Properties Other → Value Tensor Properties Other)
        (v : Value Tensor Properties Other)
        → dict_list_map_inplace (plain f) v tt ≡ (ok (map_leaves f v), tt)
    walk-plain f (dict_of keys vs) = rw (walk_items-plain f vs) refl
    walk-plain f (list_of vs) = rw (walk_items-plain f vs) refl
    walk-plain f (tensor t) = refl
    walk-plain f (placeholder p) = refl
    walk-plain f (other x) = refl

    walk_items-plain :
        (f : Value Tensor Properties Other → Value Tensor Properties Other)
        (vs : Values Tensor Properties Other)
        → map_items (plain f) vs tt ≡ (ok (map_all f vs), tt)
    walk_items-plain f nil = refl
    walk_items-plain f (cons v vs) = rw (walk-plain f v, walk_items-plain f vs) refl

  pub tensors_among-append :
      (vs ws : List (Value Tensor Properties Other))
      → tensors_among (vs ++ ws) ≡ tensors_among vs ++ tensors_among ws
  tensors_among-append [] ws = refl
  tensors_among-append (tensor t ∷ vs) ws = rw (tensors_among-append vs ws) refl
  tensors_among-append (placeholder p ∷ vs) ws = tensors_among-append vs ws
  tensors_among-append (other x ∷ vs) ws = tensors_among-append vs ws
  tensors_among-append (dict_of keys us ∷ vs) ws = tensors_among-append vs ws
  tensors_among-append (list_of us ∷ vs) ws = tensors_among-append vs ws

  -- No placeholder stands in the value.
  abbrev mutual
    pub IsWhole : Value Tensor Properties Other → Type 0
    IsWhole (placeholder p) = ⊥
    IsWhole (dict_of keys vs) = AreWhole vs
    IsWhole (list_of vs) = AreWhole vs
    IsWhole _ = Unit

    pub AreWhole : Values Tensor Properties Other → Type 0
    AreWhole nil = Unit
    AreWhole (cons v vs) = IsWhole v × AreWhole vs

  mutual
    unfolding dict_list_map_inplace nested_values

    insert-popped :
        (properties : Tensor → Properties) (v : Value Tensor Properties Other) (stack : List Tensor)
        → IsWhole v
        → dict_list_map_inplace insert_one
            (map_leaves (to_placeholder properties) v)
            (tensors_among (nested_values v) ++ stack)
          ≡ (ok v, stack)
    insert-popped properties (dict_of keys vs) stack w =
        rw (insert_items-popped properties vs stack w) refl
    insert-popped properties (list_of vs) stack w =
        rw (insert_items-popped properties vs stack w) refl
    insert-popped properties (tensor t) stack w = refl
    insert-popped properties (placeholder p) stack w = elim w [ ]
    insert-popped properties (other x) stack w = refl

    insert_items-popped :
        (properties : Tensor → Properties) (vs : Values Tensor Properties Other)
        (stack : List Tensor)
        → AreWhole vs
        → map_items insert_one
            (map_all (to_placeholder properties) vs)
            (tensors_among (nested_items vs) ++ stack)
          ≡ (ok vs, stack)
    insert_items-popped properties nil stack w = refl
    insert_items-popped properties (cons v vs) stack (w, ws) =
        rw
          (
            tensors_among-append (nested_values v) (nested_items vs),
            append_assoc,
            insert-popped properties v (tensors_among (nested_items vs) ++ stack) w,
            insert_items-popped properties vs stack ws,
          )
          refl

  pub insert-popped_all :
      (properties : Tensor → Properties) (v : Value Tensor Properties Other)
      → IsWhole v
      → dict_list_map_inplace insert_one
          (map_leaves (to_placeholder properties) v)
          (tensors_among (nested_values v))
        ≡ (ok v, [])
  insert-popped_all properties v w =
      subst
        (λ stack.
          dict_list_map_inplace insert_one (map_leaves (to_placeholder properties) v) stack
          ≡ (ok v, []))
        (append-nil (tensors_among (nested_values v))) (insert-popped properties v [] w)

  mutual
    unfolding dict_list_map_inplace nested_values

    -- Tensors that were moved take the places of the placeholders.
    insert-moved :
        (properties : Tensor → Properties) (f : Tensor → Tensor) (v : Value Tensor Properties Other)
        (stack : List Tensor)
        → IsWhole v
        → dict_list_map_inplace insert_one
            (map_leaves (to_placeholder properties) v)
            (map f (tensors_among (nested_values v)) ++ stack)
          ≡ (ok (map_leaves (move_one f) v), stack)
    insert-moved properties f (dict_of keys vs) stack w =
        rw (insert_items-moved properties f vs stack w) refl
    insert-moved properties f (list_of vs) stack w =
        rw (insert_items-moved properties f vs stack w) refl
    insert-moved properties f (tensor t) stack w = refl
    insert-moved properties f (placeholder p) stack w = elim w [ ]
    insert-moved properties f (other x) stack w = refl

    insert_items-moved :
        (properties : Tensor → Properties) (f : Tensor → Tensor)
        (vs : Values Tensor Properties Other) (stack : List Tensor)
        → AreWhole vs
        → map_items insert_one
            (map_all (to_placeholder properties) vs)
            (map f (tensors_among (nested_items vs)) ++ stack)
          ≡ (ok (map_all (move_one f) vs), stack)
    insert_items-moved properties f nil stack w = refl
    insert_items-moved properties f (cons v vs) stack (w, ws) =
        rw
          (
            tensors_among-append (nested_values v) (nested_items vs),
            map-append,
            append_assoc,
            insert-moved properties f v (map f (tensors_among (nested_items vs)) ++ stack) w,
            insert_items-moved properties f vs stack ws,
          )
          refl

  pub insert-moved_all :
      (properties : Tensor → Properties) (f : Tensor → Tensor) (v : Value Tensor Properties Other)
      → IsWhole v
      → dict_list_map_inplace insert_one
          (map_leaves (to_placeholder properties) v)
          (map f (tensors_among (nested_values v)))
        ≡ (ok (map_leaves (move_one f) v), [])
  insert-moved_all properties f v w =
      subst
        (λ stack.
          dict_list_map_inplace insert_one (map_leaves (to_placeholder properties) v) stack
          ≡ (ok (map_leaves (move_one f) v), []))
        (append-nil (map f (tensors_among (nested_values v)))) (insert-moved properties f v [] w)

  -- Of a state dict that is not hollow and holds no placeholder, the tensors can be taken out and
  -- put back; both raise nothing, and the state dict is the same as before.
  pub insert_tensors-pop_tensors :
      (properties : Tensor → Properties) (v : Value Tensor Properties Other)
      → IsWhole v
      → (do tensor_data ← pop_tensors properties; insert_tensors tensor_data)
          (record { state_dict = v; is_hollow = false })
        ≡ (ok tt, record { state_dict = v; is_hollow = false })
  unfolding pop_tensors insert_tensors
  insert_tensors-pop_tensors properties v w =
      rw (walk-plain (to_placeholder properties) v, insert-popped_all properties v w) refl
