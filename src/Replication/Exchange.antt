-- ===== src/Replication/Exchange.antt =====
-- Exchange plans: `ExchangePlanEntry`, `ExchangePlan` and `execute_plan` of
-- checkpointing/local/replication/group_utils.py. The messages of torch.distributed are a parameter
-- in this form: a rank starts with the lists of what each other rank sends to it, in order.
use nvidia_resiliency_ext_x.Prelude.{
  ℕ, Bool, true, ◌&&◌, Option, none, some, List, [], ◌∷◌, ◌++◌, if◌then◌else◌,
}
use nvidia_resiliency_ext_x.Prelude.Eq.{KeyEq, ◌==◌, number_keys}
use nvidia_resiliency_ext_x.Prelude.Dict.{Dict, get, has, put}
use nvidia_resiliency_ext_x.Prelude.Keys.{update}
use nvidia_resiliency_ext_x.Prelude.Method.{Exceptional, ok, err, ret, raise, ◌>>=◌, ◌>>◌}

pub record ExchangePlanEntry (Ident : Type 0) : Type 0 where
  pub sender : ℕ
  pub receiver : ℕ
  pub id : Ident

-- A failed assertion, a missing key, or a receive that nobody sends to.
pub data ExchangeError : Type 0 where
  assertion_error key_error blocked : ExchangeError

-- What is on its way to a rank, by the sender, and what the rank has sent, with the receivers.
pub record Wire (D : Type 0) : Type 0 where
  pub inbox : ℕ → List D
  pub outbox : List (ℕ × D)

module _ {D : Type 0} where
  unfoldable pub provided : Option D → Wire D → Exceptional ExchangeError D × Wire D
  provided none = raise key_error
  provided (some d) = ret d

  -- isend_state_dict
  abbrev pub send : ℕ → D → Wire D → Exceptional ExchangeError (Unit {0}) × Wire D
  send receiver d w = (ok tt, record w { outbox = w.outbox ++ (receiver, d) ∷ [] })

  unfoldable pub take_next : ℕ → List D → Wire D → Exceptional ExchangeError D × Wire D
  take_next sender [] w = (err blocked, w)
  take_next sender (d ∷ ds) w =
      (ok d, record w { inbox = λ j. if j == sender then ds else w.inbox j })

  -- irecv_state_dict
  unfoldable pub receive_next : ℕ → Wire D → Exceptional ExchangeError D × Wire D
  unfolding take_next
  receive_next sender w = take_next sender (w.inbox sender) w

module _ {Ident : Type 0} ⦃keyed : KeyEq Ident⦄ where
  -- ExchangePlan.plan
  abbrev pub plan_entry :
      ℕ → ℕ → Ident → List (ExchangePlanEntry Ident) → List (ExchangePlanEntry Ident)
  plan_entry sender receiver id entries =
      entries ++ record { sender = sender; receiver = receiver; id = id } ∷ []

  unfoldable pub sent_ids : ℕ → List (ExchangePlanEntry Ident) → List Ident
  sent_ids rank [] = []
  sent_ids rank (x ∷ xs) =
      let rest = sent_ids rank xs in if x.sender == rank then x.id ∷ rest else rest

  unfoldable pub required_ids : ℕ → List (ExchangePlanEntry Ident) → List Ident
  unfolding sent_ids
  required_ids rank entries = update [] (sent_ids rank entries)

  module _ {D : Type 0} where
    unfoldable pub all_provided : List Ident → Dict Ident D → Bool
    all_provided [] my_data = true
    all_provided (k ∷ ks) my_data = has k my_data && all_provided ks my_data

    unfoldable pub execute_entry :
        ℕ
        → Dict Ident D
        → ExchangePlanEntry Ident
        → Dict Ident D
        → Wire D
        → Exceptional ExchangeError (Dict Ident D) × Wire D
    unfolding provided receive_next
    execute_entry rank my_data x recv_buf =
        if (x.sender == rank) && (rank == x.receiver)
        then (provided (get x.id my_data) >>= λ d. ret (put x.id d recv_buf))
        else if x.sender == rank
        then (provided (get x.id my_data) >>= λ d. send x.receiver d >> ret recv_buf)
        else if x.receiver == rank
        then (receive_next x.sender >>= λ d. ret (put x.id d recv_buf))
        else ret recv_buf

    unfoldable pub execute_entries :
        ℕ
        → Dict Ident D
        → List (ExchangePlanEntry Ident)
        → Dict Ident D
        → Wire D
        → Exceptional ExchangeError (Dict Ident D) × Wire D
    unfolding execute_entry
    execute_entries rank my_data [] recv_buf = ret recv_buf
    execute_entries rank my_data (x ∷ xs) recv_buf = do
      buf ← execute_entry rank my_data x recv_buf
      execute_entries rank my_data xs buf

    unfoldable pub execute_plan :
        ℕ
        → List (ExchangePlanEntry Ident)
        → Dict Ident D
        → Wire D
        → Exceptional ExchangeError (Dict Ident D) × Wire D
    unfolding execute_entries required_ids
    execute_plan rank entries my_data =
        if all_provided (required_ids rank entries) my_data
        then execute_entries rank my_data entries []
        else raise assertion_error
