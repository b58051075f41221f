-- ===== src/Checkpoint/StateDict.antt =====
-- The state dicts of checkpointing/local/basic_state_dict.py. What torch knows of a tensor comes as
-- a parameter: its properties (device, shape and dtype), an empty tensor of given properties, and
-- whether it is on a CUDA device.
use nvidia_resiliency_ext_x.Prelude.{
  Bool, true, false, ◌&&◌, List, [], ◌∷◌, ◌++◌, String, if◌then◌else◌,
}
use nvidia_resiliency_ext_x.Prelude.Method.{Exceptional, ok, err, ret, ◌>>=◌}

-- A failed assertion, `pop` from an empty list, or a wait without an end.
pub data StateError : Type 0 where
  assertion_error index_error blocked : StateError

module _ (Tensor Properties Other : Type 0) where
  -- A dict is its keys and, in the same order, its values.
  mutual
    pub data Value : Type 0 where
      tensor : Tensor → Value
      placeholder : Properties → Value
      other : Other → Value
      dict_of : List String → Values → Value
      list_of : Values → Value

    pub data Values : Type 0 where
      nil : Values
      cons : Value → Values → Values

  pub record StateDict : Type 0 where
    pub state_dict : Value
    pub is_hollow : Bool

unfoldable pub all_cuda : {Tensor : Type 0} → (Tensor → Bool) → List Tensor → Bool
all_cuda is_cuda [] = true
all_cuda is_cuda (t ∷ ts) = is_cuda t && all_cuda is_cuda ts

module _ {Tensor Properties Other : Type 0} where
  unfoldable mutual
    pub nested_values : Value Tensor Properties Other → List (Value Tensor Properties Other)
    nested_values (dict_of keys vs) = nested_items vs
    nested_values (list_of vs) = nested_items vs
    nested_values v = v ∷ []

    pub nested_items : Values Tensor Properties Other → List (Value Tensor Properties Other)
    nested_items nil = []
    nested_items (cons v vs) = nested_values v ++ nested_items vs

  abbrev pub tensors_among : List (Value Tensor Properties Other) → List Tensor
  tensors_among [] = []
  tensors_among (tensor t ∷ vs) = t ∷ tensors_among vs
  tensors_among (_ ∷ vs) = tensors_among vs

  -- Every leaf is replaced by what `f` returns for it; an exception of `f` ends the walk.
  unfoldable mutual
    pub dict_list_map_inplace :
        {S : Type 0}
        → (Value Tensor Properties Other
            → S
            → Exceptional StateError (Value Tensor Properties Other) × S)
        → Value Tensor Properties Other
        → S
        → Exceptional StateError (Value Tensor Properties Other) × S
    dict_list_map_inplace f (dict_of keys vs) = do ws ← map_items f vs; ret (dict_of keys ws)
    dict_list_map_inplace f (list_of vs) = do ws ← map_items f vs; ret (list_of ws)
    dict_list_map_inplace f v = f v

    pub map_items :
        {S : Type 0}
        → (Value Tensor Properties Other
            → S
            → Exceptional StateError (Value Tensor Properties Other) × S)
        → Values Tensor Properties Other
        → S
        → Exceptional StateError (Values Tensor Properties Other) × S
    map_items f nil = ret nil
    map_items f (cons v vs) = do w ← dict_list_map_inplace f v; ws ← map_items f vs; ret (cons w ws)

  -- A leaf function without a state.
  abbrev pub plain :
      (Value Tensor Properties Other → Value Tensor Properties Other)
      → Value Tensor Properties Other
      → Unit {0}
      → Exceptional StateError (Value Tensor Properties Other) × Unit {0}
  plain f v = ret (f v)

  -- What a walk leaves of the state dict. After an exception the model keeps the state dict as it
  -- was.
  abbrev pub walked :
      {A : Type 0}
      → Exceptional StateError (Value Tensor Properties Other)
      → A
      → Bool
      → StateDict Tensor Properties Other
      → Exceptional StateError A × StateDict Tensor Properties Other
  walked (ok v) a hollow sd = (ok a, record { state_dict = v; is_hollow = hollow })
  walked (err x) a hollow sd = (err x, sd)

  -- The constructor.
  unfoldable pub new_state_dict :
      (Tensor → Bool)
      → Value Tensor Properties Other
      → Exceptional StateError (StateDict Tensor Properties Other)
  unfolding nested_values all_cuda
  new_state_dict is_cuda v =
      if all_cuda is_cuda (tensors_among (nested_values v))
      then ok (record { state_dict = v; is_hollow = false })
      else err assertion_error

  unfoldable pub tensors : StateDict Tensor Properties Other → Exceptional StateError (List Tensor)
  unfolding nested_values
  tensors sd =
      if sd.is_hollow then err assertion_error else ok (tensors_among (nested_values sd.state_dict))

  abbrev pub to_placeholder :
      (Tensor → Properties) → Value Tensor Properties Other → Value Tensor Properties Other
  to_placeholder properties (tensor t) = placeholder (properties t)
  to_placeholder properties v = v

  unfoldable pub pop_tensors :
      (Tensor → Properties)
      → StateDict Tensor Properties Other
      → Exceptional StateError (List Tensor) × StateDict Tensor Properties Other
  unfolding nested_values dict_list_map_inplace
  pop_tensors properties sd =
      let (r, _) = dict_list_map_inplace (plain (to_placeholder properties)) sd.state_dict tt in
      if sd.is_hollow
      then (err assertion_error, sd)
      else walked r (tensors_among (nested_values sd.state_dict)) true sd

  -- `tensor_stack.pop()`; the list is the stack from its top, which is the first tensor, since the
  -- code reverses the data and pops at the end.
  abbrev pub pop_stack :
      List Tensor → Exceptional StateError (Value Tensor Properties Other) × List Tensor
  pop_stack [] = (err index_error, [])
  pop_stack (t ∷ ts) = (ok (tensor t), ts)

  abbrev pub insert_one :
      Value Tensor Properties Other
      → List Tensor
      → Exceptional StateError (Value Tensor Properties Other) × List Tensor
  insert_one (placeholder p) stack = pop_stack stack
  insert_one v stack = (ok v, stack)

  unfoldable pub insert_tensors :
      List Tensor
      → StateDict Tensor Properties Other
      → Exceptional StateError (Unit {0}) × StateDict Tensor Properties Other
  unfolding dict_list_map_inplace
  insert_tensors tensor_data sd =
      let (r, _) = dict_list_map_inplace insert_one sd.state_dict tensor_data in
      if sd.is_hollow then walked r tt false sd else (err assertion_error, sd)

  abbrev pub init_one :
      (Properties → Tensor) → Value Tensor Properties Other → Value Tensor Properties Other
  init_one empty (placeholder p) = tensor (empty p)
  init_one empty v = v

  unfoldable pub init_tensors :
      (Properties → Tensor)
      → StateDict Tensor Properties Other
      → Exceptional StateError (Unit {0}) × StateDict Tensor Properties Other
  unfolding dict_list_map_inplace
  init_tensors empty sd =
      let (r, _) = dict_list_map_inplace (plain (init_one empty)) sd.state_dict tt in
      if sd.is_hollow then walked r tt false sd else (err assertion_error, sd)

  abbrev pub move_one :
      (Tensor → Tensor) → Value Tensor Properties Other → Value Tensor Properties Other
  move_one to (tensor t) = tensor (to t)
  move_one to v = v

  -- `copy_tensors_to_cpu` and `restore_tensor_device`, which differ in the device.
  unfoldable pub move_tensors :
      (Tensor → Tensor)
      → StateDict Tensor Properties Other
      → Exceptional StateError (Unit {0}) × StateDict Tensor Properties Other
  unfolding dict_list_map_inplace
  move_tensors to sd =
      let (r, _) = dict_list_map_inplace (plain (move_one to)) sd.state_dict tt in
      if sd.is_hollow then (err assertion_error, sd) else walked r tt false sd
