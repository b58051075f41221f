-- ===== src/Async/Orderly.antt =====
-- When the queues of `PersistentAsyncCaller` of checkpointing/async_ckpt/core.py are in order.
use mathlib.Core.List.{append_assoc}
use nvidia_resiliency_ext_x.Prelude.{
  ℕ, ◌+◌, Bool, true, false, not, ◌&&◌, ◌||◌, ◌≡◌, refl, ap, ◌∙◌, List, [], ◌∷◌, ◌++◌, length,
  arith,
}
use nvidia_resiliency_ext_x.Async.Worker.{
  Item, request, done_item, Trainer, free, joining_preload, joining_queue, closed, Worker, absent,
  waiting, ended, preloading, running, Protocol, started_worker,
}

-- The requests of the queue, and those of them that preload.
abbrev pub requests : List Item → List ℕ
requests [] = []
requests (request idx p ∷ q) = idx ∷ requests q
requests (done_item ∷ q) = requests q

abbrev pub preloads : List Item → List ℕ
preloads [] = []
preloads (request idx true ∷ q) = idx ∷ preloads q
preloads (request idx false ∷ q) = preloads q
preloads (done_item ∷ q) = preloads q

-- What the worker has taken and not finished.
abbrev pub in_hand : Worker → List ℕ
in_hand (preloading idx) = idx ∷ []
in_hand (running idx) = idx ∷ []
in_hand _ = []

abbrev pub staged : Worker → List ℕ
staged (preloading idx) = idx ∷ []
staged _ = []

abbrev pub has_done : List Item → Bool
has_done [] = false
has_done (request idx p ∷ q) = has_done q
has_done (done_item ∷ q) = true

-- 'DONE' can only be the last item.
abbrev pub done_last : List Item → Bool
done_last [] = true
done_last (request idx p ∷ q) = done_last q
done_last (done_item ∷ []) = true
done_last (done_item ∷ _ ∷ _) = false

abbrev pub is_empty : List Item → Bool
is_empty [] = true
is_empty (_ ∷ _) = false

abbrev pub is_open : Worker → List Item → Bool
is_open absent q = is_empty q
is_open ended q = false
is_open _ q = not (has_done q)

abbrev pub is_closing : Worker → List Item → Bool
is_closing absent q = false
is_closing ended q = is_empty q
is_closing _ q = has_done q && done_last q

abbrev pub in_phase : Trainer → Worker → List Item → Bool
in_phase free w q = is_open w q
in_phase joining_preload w q = is_open w q
in_phase joining_queue w q = is_closing w q
in_phase closed w q = true

pub record IsOrderly (p : Protocol) : Type 0 where
  -- Completions are in the order of the schedule.
  pub fifo : p.scheduled ≡ p.reported ++ (p.comp_q ++ (in_hand p.worker ++ requests p.queue))
  pub tasks : p.unfinished ≡ length (in_hand p.worker) + length p.queue
  pub staged_first : p.preload_q ≡ staged p.worker ++ preloads p.queue
  pub preload_tasks : p.preload_unfinished ≡ length p.preload_q
  pub phase : in_phase p.trainer p.worker p.queue ≡ true

pub requests-append : (q r : List Item) → requests (q ++ r) ≡ requests q ++ requests r
requests-append [] r = refl
requests-append (request idx p ∷ q) r = ap (λ l. idx ∷ l) (requests-append q r)
requests-append (done_item ∷ q) r = requests-append q r

pub preloads-append : (q r : List Item) → preloads (q ++ r) ≡ preloads q ++ preloads r
preloads-append [] r = refl
preloads-append (request idx true ∷ q) r = ap (λ l. idx ∷ l) (preloads-append q r)
preloads-append (request idx false ∷ q) r = preloads-append q r
preloads-append (done_item ∷ q) r = preloads-append q r

pub has_done-append : (q r : List Item) → has_done (q ++ r) ≡ (has_done q || has_done r)
has_done-append [] r = refl
has_done-append (request idx p ∷ q) r = has_done-append q r
has_done-append (done_item ∷ q) r = refl

pub done_last-append : (q : List Item) → has_done q ≡ false → done_last (q ++ done_item ∷ []) ≡ true
done_last-append [] h = refl
done_last-append (request idx p ∷ q) h = done_last-append q h
done_last-append (done_item ∷ q) h = absurd (ground arith)

pub regroup : (a b c d e : List ℕ) → (a ++ (b ++ (c ++ d))) ++ e ≡ a ++ (b ++ (c ++ (d ++ e)))
regroup a b c d e =
    append_assoc a (b ++ (c ++ d)) e
    ∙ ap (λ l. a ++ l) (append_assoc b (c ++ d) e ∙ ap (λ l. b ++ l) (append_assoc c d e))

pub started_worker-in_hand : (w : Worker) → in_hand (started_worker w) ≡ in_hand w
started_worker-in_hand absent = refl
started_worker-in_hand waiting = refl
started_worker-in_hand ended = refl
started_worker-in_hand (preloading idx) = refl
started_worker-in_hand (running idx) = refl
