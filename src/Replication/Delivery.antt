-- ===== src/Replication/Delivery.antt =====
-- An exchange plan executed by messages, against the plan executed by direct reads of the senders'
-- data.
use mathlib.Core.List.{append_assoc, append-nil}
use nvidia_resiliency_ext_x.Prelude.{
  ℕ, true, false, ◌&&◌, not, ◌≡◌, refl, sym, ap, ◌∙◌, Option, none, some, List, [], ◌∷◌, ◌++◌, All,
  arith, if◌then◌else◌, Bool-cases, inl, inr,
}
use nvidia_resiliency_ext_x.Prelude.Eq.{KeyEq, ◌==◌, number_keys}
use nvidia_resiliency_ext_x.Prelude.Dict.{Dict, get, has, put, get-of_has}
use nvidia_resiliency_ext_x.Prelude.Keys.{add, update}
use nvidia_resiliency_ext_x.Prelude.Method.{ok}
use nvidia_resiliency_ext_x.Replication.Exchange.{
  ExchangePlanEntry, Wire, sent_ids, required_ids, all_provided, provided, take_next, receive_next,
  execute_entry, execute_entries, execute_plan,
}

module _ {D : Type 0} where
  abbrev pub found_before : Option D → List D → List D
  found_before none ds = ds
  found_before (some d) ds = d ∷ ds

  -- The messages of an outbox to one receiver.
  unfoldable pub sent_to : ℕ → List (ℕ × D) → List D
  sent_to to [] = []
  sent_to to ((j, d) ∷ out) = let rest = sent_to to out in if j == to then d ∷ rest else rest

  sent_to-append :
      (to : ℕ) (xs ys : List (ℕ × D)) → sent_to to (xs ++ ys) ≡ sent_to to xs ++ sent_to to ys
  unfolding sent_to
  sent_to-append to [] ys = refl
  sent_to-append to ((j, d) ∷ xs) ys = ground (arith, sent_to-append to xs ys)

module _ {Ident D : Type 0} ⦃keyed : KeyEq Ident⦄ where
  abbrev pub put_found : Ident → Option D → Dict Ident D → Dict Ident D
  put_found k none buf = buf
  put_found k (some d) buf = put k d buf

  -- What a rank gets, read from the data of all ranks: the sender's value under each id that the
  -- rank is to receive.
  unfoldable pub copied :
      (ℕ → Dict Ident D) → ℕ → List (ExchangePlanEntry Ident) → Dict Ident D → Dict Ident D
  copied world rank [] buf = buf
  copied world rank (x ∷ xs) buf =
      copied world rank xs
        (if x.receiver == rank then put_found x.id (get x.id (world x.sender)) buf else buf)

  -- What `from` sends to `to`, in order.
  unfoldable pub payloads : (ℕ → Dict Ident D) → ℕ → ℕ → List (ExchangePlanEntry Ident) → List D
  payloads world from to [] = []
  payloads world from to (x ∷ xs) =
      let rest = payloads world from to xs in
      if (x.sender == from) && ((x.receiver == to) && not (from == to))
      then found_before (get x.id (world from)) rest
      else rest

  execute_entry-copied :
      (world : ℕ → Dict Ident D) (rank : ℕ) (x : ExchangePlanEntry Ident)
      (xs : List (ExchangePlanEntry Ident)) (buf : Dict Ident D) (w : Wire D) (d : D)
      → get x.id (world x.sender) ≡ some d
      → ((s : ℕ) → w.inbox s ≡ payloads world s rank (x ∷ xs))
      → (t : Wire D) × (execute_entry rank (world rank) x buf w
          ≡ (ok (if x.receiver == rank then put x.id d buf else buf), t))
        × ((s : ℕ) → t.inbox s ≡ payloads world s rank xs)
        × ((to : ℕ)
            → (rank == to) ≡ false
            → sent_to to t.outbox ≡ sent_to to w.outbox ++ payloads world rank to (x ∷ []))
  unfolding execute_entry provided receive_next take_next payloads sent_to
  execute_entry-copied world rank x xs buf w d found due = elim (Bool-cases (x.sender == rank)) [
    | inl mine ↦ elim (Bool-cases (x.receiver == rank)) [
      | inl own ↦ (
        w,
        ground arith,
        λ s. ground (arith, due s),
        λ to other. ground (arith, append-nil (sent_to to w.outbox)),
      )
      | inr pass ↦ (
        record w { outbox = w.outbox ++ (x.receiver, d) ∷ [] },
        ground arith,
        λ s. ground (arith, due s),
        λ to other. ground (
          arith,
          sent_to-append to w.outbox ((x.receiver, d) ∷ []),
          append-nil (sent_to to w.outbox),
        ),
      )
    ]
    | inr foreign ↦ elim (Bool-cases (x.receiver == rank)) [
      | inl mine ↦ (
        record w { inbox = λ j. if j == x.sender then payloads world j rank xs else w.inbox j },
        ground (arith, due x.sender),
        λ s. ground (arith, due s),
        λ to other. ground (arith, append-nil (sent_to to w.outbox)),
      )
      | inr none_of_mine ↦ (
        w,
        ground arith,
        λ s. ground (arith, due s),
        λ to other. ground (arith, append-nil (sent_to to w.outbox)),
      )
    ]
  ]

  -- Every entry's sender has what it is to send.
  abbrev pub IsHeld : (ℕ → Dict Ident D) → ExchangePlanEntry Ident → Type 0
  IsHeld world x = has x.id (world x.sender) ≡ true

  payloads-cons :
      (world : ℕ → Dict Ident D) (from to : ℕ) (x : ExchangePlanEntry Ident)
      (xs : List (ExchangePlanEntry Ident))
      → payloads world from to (x ∷ []) ++ payloads world from to xs
        ≡ payloads world from to (x ∷ xs)
  unfolding payloads
  payloads-cons world from to x xs = ground arith

  execute_entries-copied :
      (world : ℕ → Dict Ident D) (rank : ℕ) (xs : List (ExchangePlanEntry Ident))
      (buf : Dict Ident D) (w : Wire D)
      → All (IsHeld world) xs
      → ((s : ℕ) → w.inbox s ≡ payloads world s rank xs)
      → (t : Wire D) × (execute_entries rank (world rank) xs buf w
          ≡ (ok (copied world rank xs buf), t))
        × ((s : ℕ) → t.inbox s ≡ [])
        × ((to : ℕ)
            → (rank == to) ≡ false
            → sent_to to t.outbox ≡ sent_to to w.outbox ++ payloads world rank to xs)
  unfolding execute_entries payloads copied
  execute_entries-copied world rank [] buf w held due =
      (w, refl, due, λ to other. sym (append-nil (sent_to to w.outbox)))
  execute_entries-copied world rank (x ∷ xs) buf w (holds, held) due =
      let (d, found) = get-of_has x.id (world x.sender) holds in
      let (u, step, due_next, out) = execute_entry-copied world rank x xs buf w d found due in
      let next = if x.receiver == rank then put x.id d buf else buf in
      let (t, run, done, outs) = execute_entries-copied world rank xs next u held due_next in
      (
        t,
        rw (found, step) run,
        done,
        λ to other.
            outs to other
            ∙ ap (λ out. out ++ payloads world rank to xs) (out to other)
            ∙ append_assoc (sent_to to w.outbox) (payloads world rank to (x ∷ [])) _
            ∙ ap (λ out. sent_to to w.outbox ++ out) (payloads-cons world rank to x xs),
      )

  all_provided-append :
      (s t : List Ident) (m : Dict Ident D)
      → all_provided (s ++ t) m ≡ (all_provided s m && all_provided t m)
  unfolding all_provided
  all_provided-append [] t m = refl
  all_provided-append (k ∷ s) t m = ground (arith, all_provided-append s t m)

  all_provided-add :
      (k : Ident) (s : List Ident) (m : Dict Ident D)
      → all_provided s m ≡ true
      → has k m ≡ true
      → all_provided (add k s) m ≡ true
  unfolding all_provided add
  all_provided-add k s m h p = ground (arith, all_provided-append s (k ∷ []) m)

  all_provided-of_held :
      (world : ℕ → Dict Ident D) (rank : ℕ) (s : List Ident) (xs : List (ExchangePlanEntry Ident))
      → All (IsHeld world) xs
      → all_provided s (world rank) ≡ true
      → all_provided (update s (sent_ids rank xs)) (world rank) ≡ true
  unfolding all_provided update sent_ids
  all_provided-of_held world rank s [] held h = h
  all_provided-of_held world rank s (x ∷ xs) (holds, held) h = ground (
    arith,
    all_provided-of_held world rank s xs held,
    all_provided-of_held world rank (add x.id s) xs held,
    all_provided-add x.id s (world rank),
  )

  -- If every sender holds what it is to send, and a rank finds in its inbox what the others send to
  -- it, in order, then the rank executes the plan without an exception, gets the same as by direct
  -- reads of the senders' data, leaves no message in its inbox, and sends to every other rank what
  -- that rank expects of it, in order.
  pub execute_plan-copied :
      (world : ℕ → Dict Ident D) (rank : ℕ) (entries : List (ExchangePlanEntry Ident)) (w : Wire D)
      → All (IsHeld world) entries
      → ((s : ℕ) → w.inbox s ≡ payloads world s rank entries)
      → w.outbox ≡ []
      → (t : Wire D) × (execute_plan rank entries (world rank) w
          ≡ (ok (copied world rank entries []), t))
        × ((s : ℕ) → t.inbox s ≡ [])
        × ((to : ℕ) → (rank == to) ≡ false → sent_to to t.outbox ≡ payloads world rank to entries)
  unfolding execute_plan required_ids sent_to all_provided
  execute_plan-copied world rank entries w held due empty =
      let (t, run, done, outs) = execute_entries-copied world rank entries [] w held due in
      (
        t,
        rw (all_provided-of_held world rank [] entries held refl) run,
        done,
        λ to other.
            outs to other ∙ ap (λ out. sent_to to out ++ payloads world rank to entries) empty,
      )
