-- ===== src/EventLoop/Progress.antt =====
-- What waits is run: the loop comes to it by its own moves, since a poll with a task waiting ends at
-- once.
use nets.Prelude.{
  ℕ, zero, suc, ◌≡◌, refl, sym, ◌∙◌, subst, true, List, [], ◌∷◌, ◌++◌, append_assoc, append-nil,
  arith,
}
use nets.EventLoop.{EventLoop, start_pending_tasks, end_pending_tasks}
use nets.EventLoop.Rounds.{
  Stage, at_start, at_test, in_timers, in_tasks, in_poll, in_handlers, at_end, Loop, next_round,
  advance, advance_from, Steps, init, in_batch,
}
use nets.EventLoop.Wakes.{IsAwake, Steps-IsOrderly}

module _ {ℓ} {A : Type ℓ} where
  -- `n` moves of the loop alone
  unfoldable pub after : ℕ → Loop A → Loop A
  after zero s = s
  after (suc n) s = after n (advance s)

  abbrev at : EventLoop A → Stage A → List A → List A → ℕ → Loop A
  at l p a r o = record { event_loop = l; stage = p; added = a; ran = r; owed = o }

  abbrev pub CatchesUp : Loop A → List A → Type ℓ
  CatchesUp s all = (n : ℕ) × ((after n s).ran ≡ all)

  one_more : (s : Loop A) (all : List A) → CatchesUp (advance s) all → CatchesUp s all
  unfolding after
  one_more s all (n, e) = (suc n, e)

  -- A batch is run to its end.
  batch-CatchesUp :
      (ts : List A) (l : EventLoop A) (a r all : List A) (o : ℕ)
      → CatchesUp (at l (in_tasks []) a (r ++ ts) o) all
      → CatchesUp (at l (in_tasks ts) a r o) all
  unfolding advance advance_from
  batch-CatchesUp [] l a r all o h =
      subst (λ x. CatchesUp (at l (in_tasks []) a x o) all) (append-nil r) h
  batch-CatchesUp (t ∷ ts) l a r all o h = one_more _ all (
      batch-CatchesUp ts l a (r ++ (t ∷ [])) all o (
        subst (λ x. CatchesUp (at l (in_tasks []) a x o) all) (sym (append_assoc r (t ∷ []) ts)) h))

  timers-CatchesUp :
      (l : EventLoop A) (a r : List A) (o : ℕ)
      → a ≡ r ++ l.pending_tasks
      → CatchesUp (at l in_timers a r o) a
  unfolding after advance advance_from start_pending_tasks
  timers-CatchesUp l a r o e =
      one_more _ a (batch-CatchesUp l.pending_tasks _ a r a o (zero, sym e))

  next_round-running : (l : EventLoop A) → l.running ≡ true → next_round l ≡ in_timers
  unfolding next_round
  next_round-running l h = ground arith

  handlers-CatchesUp :
      (l : EventLoop A) (a r : List A) (o : ℕ)
      → l.running ≡ true
      → a ≡ r ++ l.pending_tasks
      → CatchesUp (at l in_handlers a r o) a
  unfolding advance advance_from
  handlers-CatchesUp l a r o h e = one_more _ a (
      subst (λ p. CatchesUp (at l p a r o) a) (sym (next_round-running l h))
        (timers-CatchesUp l a r o e))

  test-CatchesUp :
      (l : EventLoop A) (a r : List A) (o : ℕ)
      → l.running ≡ true
      → a ≡ r ++ l.pending_tasks
      → CatchesUp (at l at_test a r o) a
  unfolding advance advance_from
  test-CatchesUp l a r o h e = one_more _ a (
      subst (λ p. CatchesUp (at l p a r o) a) (sym (next_round-running l h))
        (timers-CatchesUp l a r o e))

  stage-CatchesUp :
      (p : Stage A) (l : EventLoop A) (a r : List A) (o : ℕ)
      → l.running ≡ true
      → IsAwake p l o
      → a ≡ r ++ (in_batch p ++ l.pending_tasks)
      → CatchesUp (at l p a r o) a
  unfolding advance advance_from end_pending_tasks
  stage-CatchesUp at_start l a r o h w e = one_more _ a (test-CatchesUp _ a r o refl e)
  stage-CatchesUp at_test l a r o h w e = test-CatchesUp l a r o h e
  stage-CatchesUp in_timers l a r o h w e = timers-CatchesUp l a r o e
  stage-CatchesUp (in_tasks ts) l a r o h w e = batch-CatchesUp ts l a r a o (
      one_more _ a (
        one_more _ a
          (handlers-CatchesUp _ a (r ++ ts) o h (e ∙ sym (append_assoc r ts l.pending_tasks)))))
  stage-CatchesUp in_poll l a r o h w e = one_more _ a (handlers-CatchesUp l a r o h e)
  stage-CatchesUp in_handlers l a r o h w e = handlers-CatchesUp l a r o h e
  stage-CatchesUp at_end l a r o h w e = absurd (ground (arith, w))

  -- From every state of an interleaving as in `runs-InOrder` in which the loop is to go on, it has
  -- run all the tasks added so far after some of its own moves.
  pub runs-CatchUp :
      {s : Loop A} (r : Steps init s)
      → s.event_loop.running ≡ true
      → (n : ℕ) × ((after n s).ran ≡ s.added)
  runs-CatchUp {s} r h =
      let o = Steps-IsOrderly r (record { awake = (tt, refl); order = refl }) in
      stage-CatchesUp s.stage s.event_loop s.added s.ran s.owed h o.awake o.order
