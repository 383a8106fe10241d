-- ===== src/Timer/Manager/Termination.antt =====
-- How often the loop of `update` goes round.
use nets.Prelude.{
  ℕ, suc, ◌+◌, ◌≤◌, ◌≡◌, ◌≢◌, refl, ap, sym, ◌∙◌, subst, inl, inr, true, false, Option, none, some,
  List, [], ◌∷◌, ◌++◌, arith, All, Bool-cases, Option-cases, if◌then◌else◌, length, ltb, le→leb,
  All-append, All-append_left, All-append_right,
}
use nets.Prelude.Int.{ℤ, pos, ◌-ℤ◌, ◌+ℤ◌, ◌*ℤ◌, pos_part, neg_part, ltb_ℤ}
use nets.Timestamp.{Timestamp, ◌≤ₜ◌, plus_milliseconds, of_microseconds}
use nets.Timer.{
  Timer, is_repeatable, is_expired, expired_time, due_callback, advance, repeat_forever,
}
use nets.Timer.Manager.{
  Entry, TimerManager, Request, Fired, Cursor, insert, serve_all, settle, next_is_before, up_to,
  beyond, trigger_with, trigger, after_calls, update_loop, update,
}
use nets.Timer.Manager.Sorted.{insert-All, up_to-beyond}

-- A timer with a callback and a number of calls left.
abbrev pub IsFinite : Timer → Type 0
IsFinite t = (t.callback ≢ none) × (neg_part t.repeat_times ≡ 0)

abbrev pub AllFinite : List Entry → Type 0
AllFinite = All (λ e. IsFinite e.timer)

-- The rounds that a timer can take: one for each call, and the one that erases it.
abbrev rounds_of : Timer → ℕ
rounds_of t = if ltb 0 (pos_part t.repeat_times) then pos_part t.repeat_times else 1

unfoldable pub rounds : List Entry → ℕ
rounds [] = 0
rounds (x ∷ xs) = rounds_of x.timer + rounds xs

rounds-append : (xs ys : List Entry) → rounds (xs ++ ys) ≡ rounds xs + rounds ys
unfolding rounds
rounds-append [] ys = omega arith
rounds-append (x ∷ xs) ys = omega (arith, rounds-append xs ys)

rounds-insert : (e : Entry) (xs : List Entry) → rounds (insert e xs) ≡ rounds_of e.timer + rounds xs
unfolding rounds insert
rounds-insert e [] = omega arith
rounds-insert e (x ∷ xs) = ground (arith, rounds-insert e xs)

record Placed (c : Cursor) (left : ℕ) : Type 0 where
  finite_passed : AllFinite (settle c).0
  finite_rest : AllFinite (settle c).1
  spent : rounds (settle c).0 + rounds (settle c).1 ≤ left

settle-Placed :
    (c : Cursor)
    → AllFinite c.passed
    → IsFinite c.current.timer
    → AllFinite c.rest
    → Placed c (
        (if is_repeatable c.current.timer then rounds_of c.current.timer else 0)
        + rounds c.passed
        + rounds c.rest)
unfolding settle
settle-Placed c p h r = elim (Bool-cases (is_repeatable c.current.timer)) [
  | inl again ↦ elim (Bool-cases (next_is_before c.rest (expired_time c.current.timer))) [
    | inl next ↦ record {
      finite_passed = rw (again, next) p;
      finite_rest = rw (again, next) (insert-All (λ y. IsFinite y.timer) e c.rest h r);
      spent = rw (again, next) (omega (arith, rounds-insert e c.rest));
    }
    | inr not_next ↦
        let others = All-append (λ y. IsFinite y.timer) c.passed c.rest p r in
        let both =
          subst AllFinite (sym (up_to-beyond e (c.passed ++ c.rest)))
            (insert-All (λ y. IsFinite y.timer) e (c.passed ++ c.rest) h others) in
        record {
          finite_passed =
              rw (again, not_next)
                (All-append_left (λ y. IsFinite y.timer) (up_to e.time (c.passed ++ c.rest)) _
                  both);
          finite_rest =
              rw (again, not_next)
                (All-append_right (λ y. IsFinite y.timer) (up_to e.time (c.passed ++ c.rest)) _
                  both);
          spent =
              rw (again, not_next)
                (omega (
                  arith,
                  rounds-append (up_to e.time (c.passed ++ c.rest))
                      (e ∷ beyond e.time (c.passed ++ c.rest)),
                  ap rounds (up_to-beyond e (c.passed ++ c.rest)),
                  rounds-insert e (c.passed ++ c.rest),
                  rounds-append c.passed c.rest,
                ));
        }
  ]
  | inr done ↦ record {
    finite_passed = rw done p;
    finite_rest = rw done r;
    spent = rw done (omega arith);
  }
]
  where
    e : Entry
    e = record { time = expired_time c.current.timer; timer = c.current.timer }

advance-spends :
    (t : Timer) (now : Timestamp)
    → IsFinite t
    → ltb_ℤ (pos 0) t.repeat_times ≡ true
    → IsFinite (advance t now)
      × (suc (if is_repeatable (advance t now) then rounds_of (advance t now) else 0) ≤ rounds_of t)
unfolding advance ◌-ℤ◌
advance-spends t now h more =
    let one_less : suc (pos_part (t.repeat_times -ℤ pos 1)) ≡ pos_part t.repeat_times =
      ground arith in
    let still_finite : neg_part (t.repeat_times -ℤ pos 1) ≡ 0 = ground arith in
    ((λ e. h.0 e, rw more still_finite), rw more (ground arith))

-- The rounds that the current timer can still take.
abbrev left_of : Timer → ℕ
left_of t = if is_repeatable t then rounds_of t else 0

not_called : (t : Timer) → IsFinite t → due_callback t ≡ none → suc (left_of t) ≤ rounds_of t
unfolding due_callback
not_called t h e = elim (Option-cases t.callback) [
  | inl no_callback ↦ absurd (h.0 no_callback)
  | inr (f, callback) ↦ ground arith
]

called :
    (t : Timer) (f : ℕ) → IsFinite t → due_callback t ≡ some f → ltb_ℤ (pos 0) t.repeat_times ≡ true
unfolding due_callback
called t f h e = ground arith

module _ (effects : ℕ → List Request) (quiet : (f : ℕ) → effects f ≡ []) where
  record Triggered (c c' : Cursor) : Type 0 where
    passed : c'.passed ≡ c.passed
    rest : c'.rest ≡ c.rest
    finite : IsFinite c'.current.timer
    spends : suc (left_of c'.current.timer) ≤ rounds_of c.current.timer

  trigger-Triggered :
      (c : Cursor) (now : Timestamp)
      → IsFinite c.current.timer
      → Triggered c (trigger effects c now).0
  unfolding trigger serve_all
  trigger-Triggered c now h = by_callback (due_callback c.current.timer) refl
    where
      by_callback :
          (f : Option ℕ)
          → due_callback c.current.timer ≡ f
          → Triggered c (trigger_with effects f c now).0
      by_callback none e = record {
        passed = refl;
        rest = refl;
        finite = h;
        spends = not_called c.current.timer h e;
      }
      by_callback (some f) e =
          let (finite, spends) =
            advance-spends c.current.timer now h (called c.current.timer f h e) in
          rw (quiet f) (record { passed = refl; rest = refl; finite = finite; spends = spends })

  update_loop-ends :
      (clock : List Timestamp) (passed rest : List Entry) (n : ℕ)
      → AllFinite passed
      → AllFinite rest
      → rounds passed + rounds rest ≤ length clock
      → (r : TimerManager × List Fired) × (update_loop effects clock passed rest n ≡ some r)
  unfolding update_loop rounds
  update_loop-ends [] passed [] n p q enough = (_, refl)
  update_loop-ends (now ∷ clock) passed [] n p q enough = (_, refl)
  update_loop-ends [] passed (x ∷ xs) n p q enough = absurd (ground arith)
  update_loop-ends (now ∷ clock) passed (x ∷ xs) n p q enough =
      elim (Bool-cases (is_expired x.timer now)) [
        | inl over ↦
            let (r, e) =
              update_loop-ends clock (settle c').0 (settle c').1 c'.next_id placed.finite_passed
                placed.finite_rest
                (omega (arith, placed.spent, t.spends, ap rounds t.passed, ap rounds t.rest)) in
            ((r.0, (trigger effects c now).1 ++ r.1), rw (over, e) refl)
        | inr not_yet ↦ ((record { timers = passed ++ (x ∷ xs); next_id = n }, []), rw not_yet refl)
      ]
    where
      c : Cursor
      c = record { passed = passed; current = x; rest = xs; next_id = n }

      c' : Cursor
      c' = (trigger effects c now).0

      t : Triggered c c'
      t = trigger-Triggered c now q.0

      placed : Placed c' (left_of c'.current.timer + rounds c'.passed + rounds c'.rest)
      placed =
          settle-Placed c' (subst AllFinite (sym t.passed) p) t.finite
            (subst AllFinite (sym t.rest) q.1)

  -- `update` ends within one reading of the clock for each call left, and one for each timer without
  -- one, if every timer has a callback, none repeats for ever and callbacks leave the manager alone.
  update-ends :
      (m : TimerManager) (clock : List Timestamp)
      → AllFinite m.timers
      → rounds m.timers ≤ length clock
      → (r : TimerManager × List Fired) × (update effects m clock ≡ some r)
  unfolding update rounds
  update-ends m clock h enough = update_loop-ends clock [] m.timers m.next_id tt h (omega arith)

abbrev pub endless : ℤ → ℕ → Timestamp → Entry
endless key f due = record {
  time = due;
  timer = record {
    id = record { key = key; value = due };
    repeat_times = repeat_forever;
    interval = pos 0;
    fixed_delay = false;
    callback = some f;
  };
}

no_shift : (t : Timestamp) → plus_milliseconds t (pos 0) ≡ t
unfolding plus_milliseconds ◌+ℤ◌ ◌*ℤ◌
no_shift t = ap of_microseconds (ground arith)

module _ (effects : ℕ → List Request) (quiet : (f : ℕ) → effects f ≡ []) (key : ℤ) (f n : ℕ)
    (due : Timestamp) where
  abbrev alone : Cursor
  alone = record { passed = []; current = endless key f due; rest = []; next_id = n }

  called_again : (now : Timestamp) → (trigger effects alone now).0 ≡ alone
  unfolding trigger serve_all due_callback advance
  called_again now = rw (quiet f) (rw (no_shift due))

  loop_forever :
      (clock : List Timestamp)
      → All (λ now. due ≤ₜ now) clock
      → update_loop effects clock [] (endless key f due ∷ []) n ≡ none
  unfolding update_loop
  loop_forever [] h = refl
  loop_forever (now ∷ clock) h =
      let over : is_expired (endless key f due).timer now ≡ true = le→leb _ _ h.0 in
      let next = λ (c : Cursor). update_loop effects clock (settle c).0 (settle c).1 c.next_id in
      let calls = (trigger effects alone now).1 in
      rw over (
        ap (λ c. after_calls calls (next c)) (called_again now)
        ∙ ap (after_calls calls) (loop_forever clock h.1))

  -- A timer that repeats for ever with no interval, alone, expired and with a callback that leaves
  -- the manager alone, keeps `update` in its loop for ever.
  update-forever :
      (clock : List Timestamp)
      → All (λ now. due ≤ₜ now) clock
      → update effects (record { timers = endless key f due ∷ []; next_id = n }) clock ≡ none
  unfolding update
  update-forever clock h = loop_forever clock h
