-- ===== src/Async/Worker.antt =====
-- `PersistentAsyncCaller` of checkpointing/async_ckpt/core.py: the trainer and its persistent worker,
-- which talk through three queues, as the steps of one protocol. The functions of a request return.
use nvidia_resiliency_ext_x.Prelude.{ℕ, ◌+◌, ◌-◌, Bool, true, false, ◌≡◌, List, [], ◌∷◌, ◌++◌}

-- What the trainer puts into the queue: a request, by its call_idx and whether it has a preload_fn,
-- or the text 'DONE'.
pub data Item : Type 0 where
  request : ℕ → Bool → Item
  done_item : Item

-- The trainer between its calls, in the two `join`s, and after `close`.
pub data Trainer : Type 0 where
  free joining_preload joining_queue closed : Trainer

-- The worker before its start, at `queue.get()`, before `preload_fn` with a call_idx, before
-- `async_fn`, and at its end.
pub data Worker : Type 0 where
  absent waiting ended : Worker
  preloading running : ℕ → Worker

-- Beside the queues and the unfinished tasks of the two joinable ones stand, for the statements, the
-- indices that have been scheduled and those whose completion the trainer has read.
pub record Protocol : Type 0 where
  pub trainer : Trainer
  pub worker : Worker
  pub queue : List Item
  pub unfinished : ℕ
  pub preload_q : List ℕ
  pub preload_unfinished : ℕ
  pub comp_q : List ℕ
  pub scheduled : List ℕ
  pub reported : List ℕ

abbrev pub new_protocol : Protocol
new_protocol = record {
  trainer = free;
  worker = absent;
  queue = [];
  unfinished = 0;
  preload_q = [];
  preload_unfinished = 0;
  comp_q = [];
  scheduled = [];
  reported = [];
}

abbrev pub started_worker : Worker → Worker
started_worker absent = waiting
started_worker w = w

abbrev pub with_preload : ℕ → Bool → Protocol → Protocol
with_preload idx true p = record p {
  trainer = joining_preload;
  preload_q = p.preload_q ++ idx ∷ [];
  preload_unfinished = p.preload_unfinished + 1;
}
with_preload idx false p = p

-- schedule_async_call up to `preload_q.join()`
unfoldable pub schedule_async_call : ℕ → Bool → Protocol → Protocol
schedule_async_call idx has_preload p = record (with_preload idx has_preload p) {
  worker = started_worker p.worker;
  queue = p.queue ++ request idx has_preload ∷ [];
  unfinished = p.unfinished + 1;
  scheduled = p.scheduled ++ idx ∷ [];
}

abbrev pub close_started : Worker → Protocol → Protocol
close_started absent p = record p { trainer = closed }
close_started _ p = record p {
  trainer = joining_queue;
  queue = p.queue ++ done_item ∷ [];
  unfinished = p.unfinished + 1;
}

-- `close` up to `queue.join()`
unfoldable pub close_caller : Protocol → Protocol
close_caller p = close_started p.worker p

-- async_loop: what follows `queue.get()`
unfoldable pub take_item : Item → List Item → Protocol → Protocol
take_item (request idx true) rest p = record p { worker = preloading idx; queue = rest }
take_item (request idx false) rest p = record p { worker = running idx; queue = rest }
take_item done_item rest p = record p {
  worker = ended;
  queue = rest;
  unfinished = p.unfinished - 1;
}

-- `preload_q.get()`, `preload_fn` and `preload_q.task_done()`
unfoldable pub finish_preload : ℕ → List ℕ → Protocol → Protocol
finish_preload idx rest p = record p {
  worker = running idx;
  preload_q = rest;
  preload_unfinished = p.preload_unfinished - 1;
}

-- `async_fn`, `comp_q.put` and `queue.task_done()`
unfoldable pub finish_call : ℕ → Protocol → Protocol
finish_call idx p = record p {
  worker = waiting;
  comp_q = p.comp_q ++ idx ∷ [];
  unfinished = p.unfinished - 1;
}

pub data CallerStep (p : Protocol) : Protocol → Type 0 where
  schedule :
      (idx : ℕ) (has_preload : Bool)
      → p.trainer ≡ free
      → CallerStep p (schedule_async_call idx has_preload p)
  resume :
      p.trainer ≡ joining_preload
      → p.preload_unfinished ≡ 0
      → CallerStep p (record p { trainer = free })
  report :
      (idx : ℕ) (rest : List ℕ)
      → p.trainer ≡ free
      → p.comp_q ≡ idx ∷ rest
      → CallerStep p (record p { comp_q = rest; reported = p.reported ++ idx ∷ [] })
  begin_close : p.trainer ≡ free → CallerStep p (close_caller p)
  end_close :
      p.trainer ≡ joining_queue
      → p.unfinished ≡ 0
      → p.worker ≡ ended
      → CallerStep p (record p { trainer = closed })
  take :
      (item : Item) (rest : List Item)
      → p.worker ≡ waiting
      → p.queue ≡ item ∷ rest
      → CallerStep p (take_item item rest p)
  preload :
      (idx i : ℕ) (rest : List ℕ)
      → p.worker ≡ preloading idx
      → p.preload_q ≡ i ∷ rest
      → CallerStep p (finish_preload idx rest p)
  finish : (idx : ℕ) → p.worker ≡ running idx → CallerStep p (finish_call idx p)

pub data Reach (p : Protocol) : Protocol → Type 0 where
  here : Reach p p
  next : {q r : Protocol} → Reach p q → CallerStep q r → Reach p r
