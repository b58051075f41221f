-- ===== src/Async/Protocol.antt =====
-- The order of completions and the progress of the trainer and the worker of `PersistentAsyncCaller`
-- in checkpointing/async_ckpt/core.py.
use mathlib.Core.List.{append_assoc, append-nil}
use nvidia_resiliency_ext_x.Prelude.{
  ℕ, Bool, true, false, ◌≡◌, refl, sym, ap, ◌∙◌, List, [], ◌∷◌, ◌++◌, length-append, arith,
}
use nvidia_resiliency_ext_x.Async.Worker.{
  Item, request, done_item, free, waiting, preloading, running, Protocol, new_protocol,
  started_worker, schedule_async_call, close_caller, take_item, finish_preload, finish_call,
  CallerStep, schedule, resume, report, begin_close, end_close, take, preload, finish, Reach, here,
  next,
}
use nvidia_resiliency_ext_x.Async.Orderly.{
  requests, preloads, in_hand, staged, IsOrderly, requests-append, preloads-append, has_done-append,
  done_last-append, regroup, started_worker-in_hand,
}

new_protocol-IsOrderly : IsOrderly new_protocol
new_protocol-IsOrderly = record {
  fifo = refl;
  tasks = refl;
  staged_first = refl;
  preload_tasks = refl;
  phase = refl;
}

take-IsOrderly :
    (p : Protocol) (item : Item) (rest : List Item)
    → p.worker ≡ waiting
    → p.queue ≡ item ∷ rest
    → IsOrderly p
    → IsOrderly (take_item item rest p)
unfolding take_item
take-IsOrderly p (request idx true) rest w q o = record {
  fifo = ground (arith, o.fifo);
  tasks = ground (arith, o.tasks);
  staged_first = ground (arith, o.staged_first);
  preload_tasks = o.preload_tasks;
  phase = ground (arith, o.phase);
}
take-IsOrderly p (request idx false) rest w q o = record {
  fifo = ground (arith, o.fifo);
  tasks = ground (arith, o.tasks);
  staged_first = ground (arith, o.staged_first);
  preload_tasks = o.preload_tasks;
  phase = ground (arith, o.phase);
}
take-IsOrderly p done_item rest w q o = record {
  fifo = ground (arith, o.fifo);
  tasks = ground (arith, o.tasks);
  staged_first = ground (arith, o.staged_first);
  preload_tasks = o.preload_tasks;
  phase = ground (arith, o.phase);
}

preload-IsOrderly :
    (p : Protocol) (idx i : ℕ) (rest : List ℕ)
    → p.worker ≡ preloading idx
    → p.preload_q ≡ i ∷ rest
    → IsOrderly p
    → IsOrderly (finish_preload idx rest p)
unfolding finish_preload
preload-IsOrderly p idx i rest w q o = record {
  fifo = ground (arith, o.fifo);
  tasks = ground (arith, o.tasks);
  staged_first = ground (arith, o.staged_first);
  preload_tasks = ground (arith, o.preload_tasks);
  phase = ground (arith, o.phase);
}

finish-IsOrderly :
    (p : Protocol) (idx : ℕ) → p.worker ≡ running idx → IsOrderly p → IsOrderly (finish_call idx p)
unfolding finish_call
finish-IsOrderly p idx w o = record {
  fifo = ground (arith, o.fifo, append_assoc p.comp_q (idx ∷ []) (requests p.queue));
  tasks = ground (arith, o.tasks);
  staged_first = ground (arith, o.staged_first);
  preload_tasks = o.preload_tasks;
  phase = ground (arith, o.phase);
}

schedule-fifo :
    (p : Protocol) (idx : ℕ) (has_preload : Bool)
    → IsOrderly p
    → p.scheduled ++ idx ∷ []
      ≡ p.reported
        ++ (p.comp_q
            ++ (in_hand (started_worker p.worker)
                ++ requests (p.queue ++ request idx has_preload ∷ [])))
schedule-fifo p idx has_preload o =
    ap (λ l. l ++ idx ∷ []) o.fifo
    ∙ regroup p.reported p.comp_q (in_hand p.worker) (requests p.queue) (idx ∷ [])
    ∙ ap (λ l. p.reported ++ (p.comp_q ++ (in_hand p.worker ++ l)))
        (sym (requests-append p.queue (request idx has_preload ∷ [])))
    ∙ ap
        (λ l. p.reported ++ (p.comp_q ++ (l ++ requests (p.queue ++ request idx has_preload ∷ []))))
        (sym (started_worker-in_hand p.worker))

schedule-IsOrderly :
    (p : Protocol) (idx : ℕ) (has_preload : Bool)
    → p.trainer ≡ free
    → IsOrderly p
    → IsOrderly (schedule_async_call idx has_preload p)
unfolding schedule_async_call
schedule-IsOrderly p idx true t o =
    let q = request idx true ∷ [] in
    record {
      fifo = schedule-fifo p idx true o;
      tasks = ground (arith, o.tasks, length-append p.queue q);
      staged_first = ground (
        arith,
        o.staged_first,
        preloads-append p.queue q,
        append_assoc (staged p.worker) (preloads p.queue) (idx ∷ []),
      );
      preload_tasks = ground (arith, o.preload_tasks, length-append p.preload_q (idx ∷ []));
      phase = ground (arith, o.phase, has_done-append p.queue q);
    }
schedule-IsOrderly p idx false t o =
    let q = request idx false ∷ [] in
    record {
      fifo = schedule-fifo p idx false o;
      tasks = ground (arith, o.tasks, length-append p.queue q);
      staged_first =
          ground (arith, o.staged_first, preloads-append p.queue q, append-nil (preloads p.queue));
      preload_tasks = o.preload_tasks;
      phase = ground (arith, o.phase, t, has_done-append p.queue q);
    }

close_caller-IsOrderly :
    (p : Protocol) → p.trainer ≡ free → IsOrderly p → IsOrderly (close_caller p)
unfolding close_caller
close_caller-IsOrderly p t o =
    let q = done_item ∷ [] in
    record {
      fifo = ground (arith, o.fifo, requests-append p.queue q, append-nil (requests p.queue));
      tasks = ground (arith, o.tasks, length-append p.queue q);
      staged_first =
          ground (arith, o.staged_first, preloads-append p.queue q, append-nil (preloads p.queue));
      preload_tasks = ground (arith, o.preload_tasks);
      phase = ground (arith, o.phase, has_done-append p.queue q, done_last-append p.queue);
    }

pub CallerStep-IsOrderly : {p q : Protocol} → CallerStep p q → IsOrderly p → IsOrderly q
CallerStep-IsOrderly {p} (schedule idx has_preload t) o = schedule-IsOrderly p idx has_preload t o
CallerStep-IsOrderly {p} (begin_close t) o = close_caller-IsOrderly p t o
CallerStep-IsOrderly {p} (take item rest w q) o = take-IsOrderly p item rest w q o
CallerStep-IsOrderly {p} (preload idx i rest w q) o = preload-IsOrderly p idx i rest w q o
CallerStep-IsOrderly {p} (finish idx w) o = finish-IsOrderly p idx w o
CallerStep-IsOrderly {p} (resume t u) o = record {
  fifo = o.fifo;
  tasks = o.tasks;
  staged_first = o.staged_first;
  preload_tasks = o.preload_tasks;
  phase = ground (arith, o.phase);
}
CallerStep-IsOrderly {p} (end_close t u w) o = record {
  fifo = o.fifo;
  tasks = o.tasks;
  staged_first = o.staged_first;
  preload_tasks = o.preload_tasks;
  phase = refl;
}
CallerStep-IsOrderly {p} (report idx rest t c) o = record {
  fifo = ground (
    arith,
    o.fifo,
    append_assoc p.reported (idx ∷ []) (rest ++ (in_hand p.worker ++ requests p.queue)),
  );
  tasks = o.tasks;
  staged_first = o.staged_first;
  preload_tasks = o.preload_tasks;
  phase = o.phase;
}

-- In every state that the trainer and the worker reach from new queues, the call indices whose
-- completion the trainer has read, those on their way to it, the one that the worker has in hand and
-- those in the queue are, in this order, the scheduled ones; both counters of unfinished tasks are
-- right; the worker preloads in the order of the requests; and 'DONE' stands last in the queue and
-- only while the trainer closes.
pub Reach-IsOrderly : {p : Protocol} → Reach new_protocol p → IsOrderly p
Reach-IsOrderly here = new_protocol-IsOrderly
Reach-IsOrderly (next r s) = CallerStep-IsOrderly s (Reach-IsOrderly r)
