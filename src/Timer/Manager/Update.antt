-- ===== src/Timer/Manager/Update.antt =====
-- What `update` leaves in order, whatever the callbacks do to the manager.
use nets.Prelude.{
  ℕ, ◌≡◌, sym, subst, inl, inr, true, Option, none, some, List, [], ◌∷◌, ◌++◌, arith, All,
  append-nil, Bool-cases, All-append,
}
use nets.Timestamp.{Timestamp, ◌≤ₜ◌, is_before}
use nets.Timer.{TimerId, is_repeatable, is_expired, expired_time, due_callback}
use nets.Timer.Manager.{
  Entry, TimerManager, Request, adds, removes, Fired, Cursor, insert, cancel_in, has_entry, head_or,
  serve_at, serve_all, settle, next_is_before, trigger_with, trigger, after_calls, update_loop,
  update,
}
use nets.Timer.Manager.Sorted.{
  AllFrom, AllUpTo, IsSorted, insert-All, insert-IsSorted, IsSorted-append, Around,
  Around-of_IsSorted, up_to-beyond, cancel_in-All, cancel_in-IsSorted,
}

abbrev IsInPlace : Cursor → Type 0
IsInPlace c = Around c.passed c.current c.rest

same_time : (id : TimerId) (x : Entry) → (head_or x (cancel_in id (x ∷ []))).time ≡ x.time
unfolding head_or cancel_in
same_time id x = ground arith

serve_at-IsInPlace : (c : Cursor) (r : Request) → IsInPlace c → IsInPlace (serve_at c r)
unfolding serve_at
serve_at-IsInPlace c (adds expired repeats interval fixed_delay callback) a =
    elim (Bool-cases (is_before expired c.current.time)) [
      | inl earlier ↦ rw earlier (record {
        before = insert-IsSorted _ c.passed a.before;
        up_to_x = insert-All (λ y. y.time ≤ₜ c.current.time) _ c.passed (ground arith) a.up_to_x;
        from_x = a.from_x;
        behind = a.behind;
      })
      | inr later ↦ rw later (record {
        before = a.before;
        up_to_x = a.up_to_x;
        from_x = insert-All (λ y. c.current.time ≤ₜ y.time) _ c.rest (ground arith) a.from_x;
        behind = insert-IsSorted _ c.rest a.behind;
      })
    ]
serve_at-IsInPlace c (removes id) a = elim (Bool-cases (has_entry id c.passed)) [
  | inl there ↦ rw there (record {
    before = cancel_in-IsSorted id c.passed a.before;
    up_to_x = cancel_in-All (λ t. t ≤ₜ c.current.time) id c.passed a.up_to_x;
    from_x = a.from_x;
    behind = a.behind;
  })
  | inr not_there ↦ elim (Bool-cases (has_entry id (c.current ∷ []))) [
    | inl here ↦
        rw (not_there, here)
          (at_current (head_or c.current (cancel_in id (c.current ∷ []))) (same_time id c.current))
    | inr not_here ↦
        rw (not_there, not_here)
          (record {
            before = a.before;
            up_to_x = a.up_to_x;
            from_x = cancel_in-All (λ t. c.current.time ≤ₜ t) id c.rest a.from_x;
            behind = cancel_in-IsSorted id c.rest a.behind;
          })
  ]
]
  where
    at_current : (x : Entry) → x.time ≡ c.current.time → Around c.passed x c.rest
    at_current x e = record {
      before = a.before;
      up_to_x = subst (λ t. AllUpTo t c.passed) (sym e) a.up_to_x;
      from_x = subst (λ t. AllFrom t c.rest) (sym e) a.from_x;
      behind = a.behind;
    }

serve_all-IsInPlace : (c : Cursor) (rs : List Request) → IsInPlace c → IsInPlace (serve_all c rs)
unfolding serve_all
serve_all-IsInPlace c [] a = a
serve_all-IsInPlace c (r ∷ rs) a = serve_all-IsInPlace (serve_at c r) rs (serve_at-IsInPlace c r a)

past_next : (t v : Timestamp) (xs : List Entry) → next_is_before xs v ≡ true → AllFrom t xs → t ≤ₜ v
unfolding next_is_before
past_next t v [] h a = cc
past_next t v (x ∷ xs) h a = ground (arith, a.0)

settle-IsSorted : (c : Cursor) → IsInPlace c → IsSorted ((settle c).0 ++ (settle c).1)
unfolding settle
settle-IsSorted c a = elim (Bool-cases (is_repeatable c.current.timer)) [
  | inl again ↦ elim (Bool-cases (next_is_before c.rest v)) [
    | inl next ↦
        rw (again, next)
          (IsSorted-append c.current.time c.passed (insert e c.rest) a.before a.up_to_x
            (insert-All (λ y. c.current.time ≤ₜ y.time) e c.rest
              (past_next c.current.time v c.rest next a.from_x) a.from_x)
            (insert-IsSorted e c.rest a.behind))
    | inr not_next ↦
        rw (again, not_next)
          (rw (up_to-beyond e (c.passed ++ c.rest)) (insert-IsSorted e (c.passed ++ c.rest) others))
  ]
  | inr done ↦ rw done others
]
  where
    v : Timestamp
    v = expired_time c.current.timer

    e : Entry
    e = record { time = v; timer = c.current.timer }

    others : IsSorted (c.passed ++ c.rest)
    others = IsSorted-append c.current.time c.passed c.rest a.before a.up_to_x a.from_x a.behind

trigger-IsInPlace :
    (effects : ℕ → List Request) (c : Cursor) (now : Timestamp)
    → IsInPlace c
    → IsInPlace (trigger effects c now).0
unfolding trigger
trigger-IsInPlace effects c now a = called (due_callback c.current.timer)
  where
    called : (f : Option ℕ) → IsInPlace (trigger_with effects f c now).0
    called none = a
    called (some f) =
        let a' = serve_all-IsInPlace c (effects f) a in
        record { before = a'.before; up_to_x = a'.up_to_x; from_x = a'.from_x; behind = a'.behind }

-- A property of the entries and one of the calls, of a run that ends.
abbrev pub Ends :
    (List Entry → Type 0) → (Fired → Type 0) → Option (TimerManager × List Fired) → Type 0
Ends P Q none = Unit
Ends P Q (some (m, log)) = P m.timers × All Q log

pub Ends-after_calls :
    (P : List Entry → Type 0) (Q : Fired → Type 0) (calls : List Fired)
    (r : Option (TimerManager × List Fired))
    → All Q calls
    → Ends P Q r
    → Ends P Q (after_calls calls r)
Ends-after_calls P Q calls none a h = tt
Ends-after_calls P Q calls (some (m, log)) a h = (h.0, All-append Q calls log a h.1)

-- Nothing is called before its time.
abbrev pub IsDue : Fired → Type 0
IsDue f = f.due ≤ₜ f.now

trigger-IsDue :
    (effects : ℕ → List Request) (c : Cursor) (now : Timestamp)
    → is_expired c.current.timer now ≡ true
    → All IsDue (trigger effects c now).1
unfolding trigger
trigger-IsDue effects c now h = called (due_callback c.current.timer)
  where
    called : (f : Option ℕ) → All IsDue (trigger_with effects f c now).1
    called none = tt
    called (some f) = (ground arith, tt)

update_loop-Ends :
    (effects : ℕ → List Request) (clock : List Timestamp) (passed rest : List Entry) (n : ℕ)
    → IsSorted (passed ++ rest)
    → Ends IsSorted IsDue (update_loop effects clock passed rest n)
unfolding update_loop
update_loop-Ends effects [] passed [] n s = (subst IsSorted (append-nil passed) s, tt)
update_loop-Ends effects (now ∷ clock) passed [] n s = (subst IsSorted (append-nil passed) s, tt)
update_loop-Ends effects [] passed (x ∷ xs) n s = tt
update_loop-Ends effects (now ∷ clock) passed (x ∷ xs) n s =
    elim (Bool-cases (is_expired x.timer now)) [
      | inl over ↦ rw over (
          Ends-after_calls IsSorted IsDue _ _ (trigger-IsDue effects c now over) (
            update_loop-Ends effects clock (settle (trigger effects c now).0).0
              (settle (trigger effects c now).0).1 _
              (settle-IsSorted (trigger effects c now).0
                (trigger-IsInPlace effects c now (Around-of_IsSorted passed x xs s)))))
      | inr not_yet ↦ rw not_yet (s, tt)
    ]
  where
    c : Cursor
    c = record { passed = passed; current = x; rest = xs; next_id = n }

-- On sorted timers, whatever the callbacks add and remove, `update` leaves the timers sorted by time
-- and calls none before the time that it was due at, if it ends.
update-Ends :
    (effects : ℕ → List Request) (m : TimerManager) (clock : List Timestamp)
    → IsSorted m.timers
    → Ends IsSorted IsDue (update effects m clock)
unfolding update
update-Ends effects m clock s = update_loop-Ends effects clock [] m.timers m.next_id s
