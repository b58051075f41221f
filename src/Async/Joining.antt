-- ===== src/Async/Joining.antt =====
-- The joins of the trainer with the worker of `PersistentAsyncCaller` in
-- checkpointing/async_ckpt/core.py come to their end.
use mathlib.Core.List.{append-nil}
use nvidia_resiliency_ext_x.Prelude.{
  ℕ, zero, suc, ◌+◌, ◌*◌, ◌<◌, ◌≤◌, Bool, true, false, ◌≡◌, refl, sym, subst, ap, ◌∙◌, List, [],
  ◌∷◌, ◌++◌, length, arith, ◌⊎◌, inl, inr,
}
use nvidia_resiliency_ext_x.Async.Worker.{
  Item, request, done_item, Trainer, free, joining_preload, joining_queue, closed, Worker, absent,
  waiting, ended, preloading, running, Protocol, new_protocol, take_item, finish_preload,
  finish_call, CallerStep, resume, end_close, take, preload, finish, Reach, here, next,
}
use nvidia_resiliency_ext_x.Async.Orderly.{requests, preloads, in_hand, staged, IsOrderly}
use nvidia_resiliency_ext_x.Async.Protocol.{CallerStep-IsOrderly, Reach-IsOrderly}

-- The steps that are left to the worker.
abbrev weight : Worker → ℕ
weight (preloading idx) = 2
weight (running idx) = 1
weight _ = 0

abbrev work_left : Protocol → ℕ
work_left p = 3 * length p.queue + weight p.worker

-- The worker makes a step, which leaves the trainer where it is and leaves less work.
record IsWorking (p : Protocol) : Type 0 where
  after : Protocol
  step : CallerStep p after
  same_trainer : after.trainer ≡ p.trainer
  same_scheduled : after.scheduled ≡ p.scheduled
  less : work_left after < work_left p

take_item-IsWorking :
    (p : Protocol) (item : Item) (rest : List Item)
    → p.worker ≡ waiting
    → p.queue ≡ item ∷ rest
    → IsWorking p
unfolding take_item
take_item-IsWorking p (request idx true) rest w q = record {
  after = take_item (request idx true) rest p;
  step = take (request idx true) rest w q;
  same_trainer = refl;
  same_scheduled = refl;
  less = ground arith;
}
take_item-IsWorking p (request idx false) rest w q = record {
  after = take_item (request idx false) rest p;
  step = take (request idx false) rest w q;
  same_trainer = refl;
  same_scheduled = refl;
  less = ground arith;
}
take_item-IsWorking p done_item rest w q = record {
  after = take_item done_item rest p;
  step = take done_item rest w q;
  same_trainer = refl;
  same_scheduled = refl;
  less = ground arith;
}

-- A trainer that joins is not in the other phases.
abbrev pub is_joining : Trainer → Bool
is_joining joining_preload = true
is_joining joining_queue = true
is_joining _ = false

-- While the trainer joins, the worker has work, or none is left.
worker_step :
    (p : Protocol)
    → IsOrderly p
    → is_joining p.trainer ≡ true
    → IsWorking p ⊎ ((p.queue ≡ []) × (in_hand p.worker ≡ []))
unfolding finish_preload finish_call
worker_step p o j = go p.worker p.queue refl refl
  where
    go :
        (w : Worker) (q : List Item)
        → p.worker ≡ w
        → p.queue ≡ q
        → IsWorking p ⊎ ((p.queue ≡ []) × (in_hand p.worker ≡ []))
    go absent q e f = inr (ground (arith, o.phase), ap in_hand e)
    go ended q e f = inr (ground (arith, o.phase), ap in_hand e)
    go waiting [] e f = inr (f, ap in_hand e)
    go waiting (item ∷ rest) e f = inl (take_item-IsWorking p item rest e f)
    go (preloading idx) q e f = inl (record {
      after = finish_preload idx (preloads p.queue) p;
      step =
          preload idx idx (preloads p.queue) e
            (o.staged_first ∙ ap (λ w. staged w ++ preloads p.queue) e);
      same_trainer = refl;
      same_scheduled = refl;
      less = ground arith;
    })
    go (running idx) q e f = inl (record {
      after = finish_call idx p;
      step = finish idx e;
      same_trainer = refl;
      same_scheduled = refl;
      less = ground arith;
    })

step_first : {p q r : Protocol} → CallerStep p q → Reach q r → Reach p r
step_first s here = next here s
step_first s (next r t) = next (step_first s r) t

-- The worker has done all that it was given.
record IsDrained (p q : Protocol) : Type 0 where
  path : Reach p q
  same_trainer : q.trainer ≡ p.trainer
  same_scheduled : q.scheduled ≡ p.scheduled
  orderly : IsOrderly q
  no_items : q.queue ≡ []
  none_in_hand : in_hand q.worker ≡ []

IsDrained-here : (p : Protocol) → IsOrderly p → p.queue ≡ [] → in_hand p.worker ≡ [] → IsDrained p p
IsDrained-here p o e h = record {
  path = here;
  same_trainer = refl;
  same_scheduled = refl;
  orderly = o;
  no_items = e;
  none_in_hand = h;
}

drain :
    (n : ℕ) (p : Protocol)
    → work_left p ≤ n
    → IsOrderly p
    → is_joining p.trainer ≡ true
    → (q : Protocol) × IsDrained p q
drain zero p bound o j = elim (worker_step p o j) [
  | inr (e, h) ↦ (p, IsDrained-here p o e h)
  | inl w ↦ let less = w.less in absurd (omega arith)
]
drain (suc n) p bound o j = elim (worker_step p o j) [
  | inr (e, h) ↦ (p, IsDrained-here p o e h)
  | inl w ↦
      let less = w.less in
      let (q, d) =
        drain n w.after (omega arith) (CallerStep-IsOrderly w.step o)
          (ap is_joining w.same_trainer ∙ j) in
      (
        q,
        record {
          path = step_first w.step d.path;
          same_trainer = d.same_trainer ∙ w.same_trainer;
          same_scheduled = d.same_scheduled ∙ w.same_scheduled;
          orderly = d.orderly;
          no_items = d.no_items;
          none_in_hand = d.none_in_hand;
        },
      )
]

abbrev pub after_join : Trainer → Trainer
after_join joining_preload = free
after_join joining_queue = closed
after_join t = t

-- The end of a join, where the worker has done all.
leave_join :
    (q : Protocol)
    → IsOrderly q
    → is_joining q.trainer ≡ true
    → q.queue ≡ []
    → in_hand q.worker ≡ []
    → CallerStep q (record q { trainer = after_join q.trainer })
leave_join q o j e h = go q.trainer refl
  where
    go : (t : Trainer) → q.trainer ≡ t → CallerStep q (record q { trainer = after_join q.trainer })
    go joining_preload t =
        subst (λ x. CallerStep q (record q { trainer = x })) (ap after_join (sym t))
          (resume t (ground (arith, o.preload_tasks, o.staged_first)))
    go joining_queue t =
        subst (λ x. CallerStep q (record q { trainer = x })) (ap after_join (sym t))
          (end_close t (ground (arith, o.tasks)) (ground (arith, o.phase)))
    go free t = absurd (ground arith)
    go closed t = absurd (ground arith)

-- From every state that is reached from new queues and in which the trainer waits for the worker,
-- in preload_q.join() or in close, there is a way on which it stops waiting: it is free again or
-- closed, nothing has been scheduled since, and of every call that had been scheduled the
-- completion has been read or is on its way to the trainer, in the order of the schedule.
pub Reach-after_join :
    {p : Protocol}
    → Reach new_protocol p
    → is_joining p.trainer ≡ true
    → (q : Protocol) × Reach p q
      × (q.trainer ≡ after_join p.trainer)
      × (q.scheduled ≡ p.scheduled)
      × (p.scheduled ≡ q.reported ++ q.comp_q)
Reach-after_join {p} r j =
    let (q, d) = drain (work_left p) p (omega arith) (Reach-IsOrderly r) j in
    let still = ap is_joining d.same_trainer ∙ j in
    let o = d.orderly in
    (
      record q { trainer = after_join q.trainer },
      next d.path (leave_join q o still d.no_items d.none_in_hand),
      ap after_join d.same_trainer,
      d.same_scheduled,
      sym d.same_scheduled
          ∙ o.fifo
          ∙ ap (λ l. q.reported ++ l)
              (ap (λ (w : List ℕ). q.comp_q ++ (w ++ requests q.queue)) d.none_in_hand
                ∙ ap (λ l. q.comp_q ++ requests l) d.no_items
                ∙ append-nil q.comp_q),
    )
