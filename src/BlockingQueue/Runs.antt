-- ===== src/BlockingQueue/Runs.antt =====
-- Any interleaving of the critical sections of any number of threads.
use nets.Prelude.{
  ℕ, ◌≤◌, ◌≡◌, ap, sym, ◌∙◌, true, false, none, some, List, [], ◌∷◌, ◌++◌, arith, length,
  append_assoc, length-append,
}
use nets.BlockingQueue.{Queue, Step, waits, undefined, returns, Call, step, offered}
use nets.BlockingQueue.Order.{IsSteady, Does, step-Does}

-- What has been put so far, what has been taken so far, each in order, and the queue.
pub record History {ℓ} (A : Type ℓ) : Type ℓ where
  pub accepted : List A
  pub taken : List A
  pub now : Queue A

module _ {ℓ} {A : Type ℓ} where
  -- A call that waits changes nothing, and appears again later in the schedule.
  unfoldable pub advance : History A → Call A → Step A → History A
  advance h c (returns true none w q') = record h { accepted = h.accepted ++ offered c; now = q' }
  advance h c (returns true (some x) w q') = record h { taken = h.taken ++ (x ∷ []); now = q' }
  advance h c (returns false v w q') = record h { now = q' }
  advance h c waits = h
  advance h c undefined = h

  unfoldable pub run : History A → List (Call A) → History A
  run h [] = h
  run h (c ∷ cs) = run (advance h c (step h.now c)) cs

  abbrev pub AllSteady : List (Call A) → Type 0
  AllSteady [] = Unit
  AllSteady (c ∷ cs) = IsSteady c × AllSteady cs

  pub record InOrder (n : ℕ) (h : History A) : Type ℓ where
    pub fifo : h.accepted ≡ h.taken ++ h.now.queue
    pub limit : h.now.max_queue_size ≡ n
    pub bounded : length h.now.queue ≤ n

  advance-InOrder :
      (n : ℕ) (h : History A) (c : Call A) (r : Step A)
      → Does h.now c r
      → InOrder n h
      → InOrder n (advance h c r)
  unfolding advance
  advance-InOrder n h c waits d v = v
  advance-InOrder n h c undefined d v = absurd d.1
  advance-InOrder n h c (returns false x w q) d v = record {
    fifo = rw d.0 v.fifo;
    limit = rw d.0 v.limit;
    bounded = rw d.0 v.bounded;
  }
  advance-InOrder n h c (returns true none w q) d v = record {
    fifo =
        ap (λ l. l ++ offered c) v.fifo
        ∙ append_assoc h.taken h.now.queue (offered c)
        ∙ ap (◌++◌ h.taken) (sym d.0);
    limit = d.1 ∙ v.limit;
    bounded = omega (arith, ap length d.0, length-append h.now.queue (offered c), d, v.limit);
  }
  advance-InOrder n h c (returns true (some x) w q) d v = record {
    fifo = v.fifo ∙ ap (◌++◌ h.taken) d.0 ∙ sym (append_assoc h.taken (x ∷ []) q.queue);
    limit = d.1 ∙ v.limit;
    bounded = omega (arith, ap length d.0, v.bounded);
  }

  -- From any state of which this holds, and in every interleaving of calls whose predicates are
  -- steady, the items come out in the order in which they went in, each once, none is lost, and the
  -- queue stays within its bound.
  pub run-InOrder :
      (n : ℕ) (h : History A) (cs : List (Call A))
      → AllSteady cs
      → InOrder n h
      → InOrder n (run h cs)
  unfolding run
  run-InOrder n h [] steady v = v
  run-InOrder n h (c ∷ cs) steady v =
      run-InOrder n (advance h c (step h.now c)) cs steady.1
        (advance-InOrder n h c (step h.now c) (step-Does h.now c steady.0) v)
