-- ===== src/EventLoop/Wakes.antt =====
-- Tasks run in the order in which they were added, and no wake-up is lost.
use nets.Prelude.{
  ℕ, ◌+◌, ◌≤◌, ◌≡◌, refl, ap, sym, ◌∙◌, subst, ◌⊎◌, inl, inr, Bool, true, false, List, [], ◌∷◌,
  ◌++◌, append_assoc, append-nil, arith,
}
use nets.EventLoop.{
  EventLoop, push_task, must_notify, add_task, start_pending_tasks, end_pending_tasks,
}
use nets.EventLoop.Rounds.{
  Stage, at_start, at_test, in_timers, in_tasks, in_poll, in_handlers, at_end, Loop, next_round,
  advance, advance_from, is_in_callback, Step, advances, pushes, stopped, other_pushes,
  other_notifies, own_adds, stops, drains, Steps, none_more, then_step, init, in_batch,
}

module _ {ℓ} {A : Type ℓ} where
  -- If a task waits, the eventfd is readable or a thread is about to write it.
  abbrev pub IsNotified : EventLoop A → ℕ → Type ℓ
  IsNotified l owed = (l.pending_tasks ≡ []) ⊎ (1 ≤ l.notifier.count + owed)

  abbrev pub IsAwake : Stage A → EventLoop A → ℕ → Type ℓ
  IsAwake (in_tasks _) l owed = (l.running_pending_tasks ≡ true) × IsNotified l owed
  IsAwake in_poll l owed = (l.running_pending_tasks ≡ false) × IsNotified l owed
  IsAwake at_end l owed = Unit {ℓ} × (l.running_pending_tasks ≡ false) × (l.running ≡ false)
  IsAwake _ l owed = Unit {ℓ} × (l.running_pending_tasks ≡ false)

  pub record IsOrderly (s : Loop A) : Type ℓ where
    pub awake : IsAwake s.stage s.event_loop s.owed
    pub order : s.added ≡ s.ran ++ (in_batch s.stage ++ s.event_loop.pending_tasks)

  notified-IsAwake :
      (p : Stage A) (l l' : EventLoop A) (o o' : ℕ)
      → (l.running ≡ false → l'.running ≡ false)
      → l'.running_pending_tasks ≡ l.running_pending_tasks
      → 1 ≤ l'.notifier.count + o'
      → IsAwake p l o
      → IsAwake p l' o'
  notified-IsAwake at_start l l' o o' k f n h = (tt, f ∙ h.1)
  notified-IsAwake at_test l l' o o' k f n h = (tt, f ∙ h.1)
  notified-IsAwake in_timers l l' o o' k f n h = (tt, f ∙ h.1)
  notified-IsAwake (in_tasks ts) l l' o o' k f n h = (f ∙ h.0, inr n)
  notified-IsAwake in_poll l l' o o' k f n h = (f ∙ h.0, inr n)
  notified-IsAwake in_handlers l l' o o' k f n h = (tt, f ∙ h.1)
  notified-IsAwake at_end l l' o o' k f n h = (tt, f ∙ h.1, k h.2)

  added_order :
      (xs ys zs all : List A) (a : A)
      → all ≡ xs ++ (ys ++ zs)
      → all ++ (a ∷ []) ≡ xs ++ (ys ++ (zs ++ (a ∷ [])))
  added_order xs ys zs all a e =
      ap (λ l. l ++ (a ∷ [])) e
      ∙ append_assoc xs (ys ++ zs) (a ∷ [])
      ∙ ap (◌++◌ xs) (append_assoc ys zs (a ∷ []))

  own_adds-IsAwake :
      (p : Stage A) (l : EventLoop A) (o : ℕ) (task : A)
      → is_in_callback p ≡ true
      → IsAwake p l o
      → IsAwake p (add_task l task true) o
  unfolding add_task push_task must_notify
  own_adds-IsAwake at_start l o task c h = ground arith
  own_adds-IsAwake at_test l o task c h = ground arith
  own_adds-IsAwake in_timers l o task c h = ground arith
  own_adds-IsAwake (in_tasks ts) l o task c h = ground arith
  own_adds-IsAwake in_poll l o task c h = ground arith
  own_adds-IsAwake in_handlers l o task c h = ground arith
  own_adds-IsAwake at_end l o task c h = ground arith

  add_task-pending :
      (l : EventLoop A) (task : A) (in_loop : Bool)
      → (add_task l task in_loop).pending_tasks ≡ l.pending_tasks ++ (task ∷ [])
  unfolding add_task push_task must_notify
  add_task-pending l task in_loop = ground arith

  pushes-IsAwake :
      (p : Stage A) (s : Loop A) (task : A)
      → IsAwake p s.event_loop s.owed
      → IsAwake p (pushes s task).event_loop (pushes s task).owed
  unfolding pushes push_task must_notify
  pushes-IsAwake p s task h =
      notified-IsAwake p s.event_loop _ s.owed _ (λ e. e) refl (omega arith) h

  stopped-IsAwake :
      (p : Stage A) (s : Loop A) (in_loop : Bool)
      → IsAwake p s.event_loop s.owed
      → IsAwake p (stopped s in_loop).event_loop (stopped s in_loop).owed
  unfolding stopped
  stopped-IsAwake p s false h =
      notified-IsAwake p s.event_loop _ s.owed _ (λ e. refl) refl (omega arith) h
  stopped-IsAwake at_start s true h = h
  stopped-IsAwake at_test s true h = h
  stopped-IsAwake in_timers s true h = h
  stopped-IsAwake (in_tasks ts) s true h = h
  stopped-IsAwake in_poll s true h = h
  stopped-IsAwake in_handlers s true h = h
  stopped-IsAwake at_end s true h = (tt, h.1, refl)

  handlers-IsAwake :
      (p : Stage A) (l l' : EventLoop A) (o : ℕ)
      → p ≡ in_handlers
      → l'.running_pending_tasks ≡ l.running_pending_tasks
      → IsAwake p l o
      → IsAwake p l' o
  handlers-IsAwake p l l' o e f h = rw e (tt, f ∙ (subst (λ q. IsAwake q l o) e h).1)

  next_round-IsAwake :
      (l : EventLoop A) (o : ℕ) → l.running_pending_tasks ≡ false → IsAwake (next_round l) l o
  unfolding next_round
  next_round-IsAwake l o h = ground arith

  in_batch-next_round : (l : EventLoop A) → in_batch (next_round l) ≡ []
  unfolding next_round
  in_batch-next_round l = ground arith

  advance_from-IsOrderly :
      (p : Stage A) (s : Loop A)
      → IsAwake p s.event_loop s.owed
      → s.added ≡ s.ran ++ (in_batch p ++ s.event_loop.pending_tasks)
      → IsOrderly (advance_from p s)
  unfolding advance_from start_pending_tasks end_pending_tasks
  advance_from-IsOrderly at_start s h e = record { awake = (tt, h.1); order = e }
  advance_from-IsOrderly at_test s h e = record {
    awake = next_round-IsAwake s.event_loop s.owed h.1;
    order =
        e
        ∙ ap (λ l. s.ran ++ (l ++ s.event_loop.pending_tasks))
            (sym (in_batch-next_round s.event_loop));
  }
  advance_from-IsOrderly in_timers s h e = record {
    awake = (refl, inl refl);
    order = e ∙ ap (◌++◌ s.ran) (sym (append-nil s.event_loop.pending_tasks));
  }
  advance_from-IsOrderly (in_tasks (t ∷ ts)) s h e = record {
    awake = h;
    order = e ∙ sym (append_assoc s.ran (t ∷ []) (ts ++ s.event_loop.pending_tasks));
  }
  advance_from-IsOrderly (in_tasks []) s h e = record { awake = (refl, h.1); order = e }
  advance_from-IsOrderly in_poll s h e = record { awake = (tt, h.0); order = e }
  advance_from-IsOrderly in_handlers s h e = record {
    awake = next_round-IsAwake s.event_loop s.owed h.1;
    order =
        e
        ∙ ap (λ l. s.ran ++ (l ++ s.event_loop.pending_tasks))
            (sym (in_batch-next_round s.event_loop));
  }
  advance_from-IsOrderly at_end s h e = record { awake = h; order = e }

  pub step-IsOrderly : {s t : Loop A} → Step s t → IsOrderly s → IsOrderly t
  unfolding advance pushes stopped push_task must_notify
  step-IsOrderly {s} advances h = advance_from-IsOrderly s.stage s h.awake h.order
  step-IsOrderly {s} (other_pushes task) h = record {
    awake = pushes-IsAwake s.stage s task h.awake;
    order = added_order s.ran (in_batch s.stage) s.event_loop.pending_tasks s.added task h.order;
  }
  step-IsOrderly {s} (other_notifies n e) h = record {
    awake = notified-IsAwake s.stage s.event_loop _ s.owed n (λ r. r) refl (omega arith) h.awake;
    order = h.order;
  }
  step-IsOrderly {s} (own_adds task c) h = record {
    awake = own_adds-IsAwake s.stage s.event_loop s.owed task c h.awake;
    order =
        added_order s.ran (in_batch s.stage) s.event_loop.pending_tasks s.added task h.order
        ∙ ap (λ l. s.ran ++ (in_batch s.stage ++ l))
            (sym (add_task-pending s.event_loop task true));
  }
  step-IsOrderly {s} (stops in_loop) h = record {
    awake = stopped-IsAwake s.stage s in_loop h.awake;
    order = h.order;
  }
  step-IsOrderly {s} (drains e) h = record {
    awake = handlers-IsAwake s.stage s.event_loop _ s.owed e refl h.awake;
    order = h.order;
  }

  pub Steps-IsOrderly : {s t : Loop A} → Steps s t → IsOrderly s → IsOrderly t
  Steps-IsOrderly none_more h = h
  Steps-IsOrderly (then_step r m) h = step-IsOrderly m (Steps-IsOrderly r h)

module _ {ℓ} {A : Type ℓ} {s : Loop A} (r : Steps init s) where
  orderly : IsOrderly s
  orderly = Steps-IsOrderly r (record { awake = (tt, refl); order = refl })

  -- In every interleaving of the loop with what its callbacks and other threads add, the tasks of
  -- `addTask` run in the order in which they were added, each once: those added are those that have
  -- run, then the rest of the batch, then those pending.
  pub runs-InOrder : s.added ≡ s.ran ++ (in_batch s.stage ++ s.event_loop.pending_tasks)
  runs-InOrder = orderly.order

  -- In every interleaving as in `runs-InOrder`, in which other threads push a task and write the
  -- eventfd in two steps, while the loop polls no task is pending, or the eventfd can be read, so
  -- that the poll ends, or a thread is between its push and its write: no wake-up is lost.
  pub polls-Wake :
      s.stage ≡ in_poll
      → (s.event_loop.pending_tasks ≡ []) ⊎ (1 ≤ s.event_loop.notifier.count + s.owed)
  polls-Wake e = (subst (λ p. IsAwake p s.event_loop s.owed) e orderly.awake).1
