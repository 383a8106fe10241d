-- ===== src/Timer/Manager/Cancel.antt =====
-- A timer that was cancelled is never called again.
use nets.Prelude.{
  ℕ, ◌<◌, ◌≡◌, ◌≢◌, refl, ap, ◌⊎◌, inl, inr, true, false, Option, none, some, List, [], ◌∷◌, arith,
  All, Bool-cases, All-append,
}
use nets.Prelude.Int.{ℤ, pos, eqb_ℤ, eq_of_parts, pos_part, neg_part}
use nets.Timestamp.{Timestamp, ◌≤ₜ◌, is_before}
use nets.Timer.{TimerId, Timer, is_repeatable, is_expired, expired_time, due_callback, advance}
use nets.Timer.Manager.{
  Entry, TimerManager, Request, adds, removes, Fired, Cursor, cancel_in, cancelled, has_entry,
  head_or, serve_at, serve_all, settle, next_is_before, up_to, beyond, trigger_with, trigger,
  update_loop, update, remove_timer,
}
use nets.Timer.Manager.Sorted.{insert-All}
use nets.Timer.Manager.Update.{Ends, Ends-after_calls}

-- The timer has another key, or no calls left.
abbrev pub IsSilent : ℤ → Timer → Type 0
IsSilent k t = (t.id.key ≢ k) ⊎ (t.repeat_times ≡ pos 0)

abbrev pub AllSilent : ℤ → List Entry → Type 0
AllSilent k = All (λ e. IsSilent k e.timer)

cancelled-IsSilent : (k : ℤ) (t : Timer) → IsSilent k (cancelled t)
unfolding cancelled
cancelled-IsSilent k t = inr refl

cancel_in-AllSilent :
    (k : ℤ) (id : TimerId) (xs : List Entry) → AllSilent k xs → AllSilent k (cancel_in id xs)
unfolding cancel_in
cancel_in-AllSilent k id [] a = tt
cancel_in-AllSilent k id (x ∷ xs) a =
    ground (arith, cancel_in-AllSilent k id xs a.1, cancelled-IsSilent k x.timer)

advance-IsSilent : (k : ℤ) (t : Timer) (now : Timestamp) → IsSilent k t → IsSilent k (advance t now)
unfolding advance
advance-IsSilent k t now (inl other) = inl other
advance-IsSilent k t now (inr spent) = inr (rw spent)

up_to-AllSilent :
    (k : ℤ) (v : Timestamp) (xs : List Entry) → AllSilent k xs → AllSilent k (up_to v xs)
unfolding up_to
up_to-AllSilent k v [] a = tt
up_to-AllSilent k v (x ∷ xs) a = elim (Bool-cases (is_before v x.time)) [
  | inl e ↦ rw e tt
  | inr e ↦ rw e (a.0, up_to-AllSilent k v xs a.1)
]

beyond-AllSilent :
    (k : ℤ) (v : Timestamp) (xs : List Entry) → AllSilent k xs → AllSilent k (beyond v xs)
unfolding beyond
beyond-AllSilent k v [] a = tt
beyond-AllSilent k v (x ∷ xs) a = elim (Bool-cases (is_before v x.time)) [
  | inl e ↦ rw e a
  | inr e ↦ rw e (beyond-AllSilent k v xs a.1)
]

-- The three parts at a cursor, and a key that has been given out already.
record Quiet (k : ℕ) (c : Cursor) : Type 0 where
  before : AllSilent (pos k) c.passed
  here : IsSilent (pos k) c.current.timer
  behind : AllSilent (pos k) c.rest
  old : k < c.next_id

serve_at-Quiet : (k : ℕ) (c : Cursor) (r : Request) → Quiet k c → Quiet k (serve_at c r)
unfolding serve_at
serve_at-Quiet k c (adds expired repeats interval fixed_delay callback) q =
    elim (Bool-cases (is_before expired c.current.time)) [
      | inl earlier ↦ rw earlier (record {
        before = insert-All (λ y. IsSilent (pos k) y.timer) _ c.passed (inl fresh) q.before;
        here = q.here;
        behind = q.behind;
        old = omega (arith, q.old);
      })
      | inr later ↦ rw later (record {
        before = q.before;
        here = q.here;
        behind = insert-All (λ y. IsSilent (pos k) y.timer) _ c.rest (inl fresh) q.behind;
        old = omega (arith, q.old);
      })
    ]
  where
    fresh : pos c.next_id ≢ pos k
    fresh e = ground (arith, q.old)
serve_at-Quiet k c (removes id) q = elim (Bool-cases (has_entry id c.passed)) [
  | inl there ↦ rw there (record {
    before = cancel_in-AllSilent (pos k) id c.passed q.before;
    here = q.here;
    behind = q.behind;
    old = q.old;
  })
  | inr not_there ↦ elim (Bool-cases (has_entry id (c.current ∷ []))) [
    | inl found ↦
        rw (not_there, found)
          (record {
            before = q.before;
            here = head_silent id c.current q.here;
            behind = q.behind;
            old = q.old;
          })
    | inr not_found ↦
        rw (not_there, not_found)
          (record {
            before = q.before;
            here = q.here;
            behind = cancel_in-AllSilent (pos k) id c.rest q.behind;
            old = q.old;
          })
  ]
]
  where
    head_silent :
        (id : TimerId) (x : Entry)
        → IsSilent (pos k) x.timer
        → IsSilent (pos k) (head_or x (cancel_in id (x ∷ []))).timer
    head_silent id x h =
        unfold head_or cancel_in in ground (arith, cancelled-IsSilent (pos k) x.timer)

serve_all-Quiet : (k : ℕ) (c : Cursor) (rs : List Request) → Quiet k c → Quiet k (serve_all c rs)
unfolding serve_all
serve_all-Quiet k c [] q = q
serve_all-Quiet k c (r ∷ rs) q = serve_all-Quiet k (serve_at c r) rs (serve_at-Quiet k c r q)

settle-AllSilent :
    (k : ℕ) (c : Cursor)
    → Quiet k c
    → AllSilent (pos k) (settle c).0 × AllSilent (pos k) (settle c).1
unfolding settle
settle-AllSilent k c q = elim (Bool-cases (is_repeatable c.current.timer)) [
  | inl again ↦ elim (Bool-cases (next_is_before c.rest (expired_time c.current.timer))) [
    | inl next ↦
        rw (again, next)
          (q.before, insert-All (λ y. IsSilent (pos k) y.timer) _ c.rest q.here q.behind)
    | inr not_next ↦
        let others = All-append (λ y. IsSilent (pos k) y.timer) c.passed c.rest q.before q.behind in
        rw (again, not_next)
          (
            up_to-AllSilent (pos k) (expired_time c.current.timer) _ others,
            (q.here, beyond-AllSilent (pos k) (expired_time c.current.timer) _ others),
          )
  ]
  | inr done ↦ rw done (q.before, q.behind)
]

abbrev pub IsOther : ℤ → Fired → Type 0
IsOther k f = f.key ≢ k

-- A timer that is called has calls left.
due_callback-spent : (t : Timer) → t.repeat_times ≡ pos 0 → due_callback t ≡ none
unfolding due_callback
due_callback-spent t e = ground arith

trigger-Quiet :
    (effects : ℕ → List Request) (k : ℕ) (c : Cursor) (now : Timestamp)
    → Quiet k c
    → Quiet k (trigger effects c now).0 × All (IsOther (pos k)) (trigger effects c now).1
unfolding trigger
trigger-Quiet effects k c now q = by_callback (due_callback c.current.timer) refl q.here
  where
    by_callback :
        (f : Option ℕ)
        → due_callback c.current.timer ≡ f
        → IsSilent (pos k) c.current.timer
        → Quiet k (trigger_with effects f c now).0
          × All (IsOther (pos k)) (trigger_with effects f c now).1
    by_callback none e s = (q, tt)
    by_callback (some f) e (inr spent) = cc (due_callback-spent c.current.timer spent)
    by_callback (some f) e (inl other) =
        let q' = serve_all-Quiet k c (effects f) q in
        (
          record {
            before = q'.before;
            here = advance-IsSilent (pos k) (serve_all c (effects f)).current.timer now q'.here;
            behind = q'.behind;
            old = q'.old;
          },
          (other, tt),
        )

update_loop-AllSilent :
    (effects : ℕ → List Request) (k : ℕ) (clock : List Timestamp) (passed rest : List Entry) (n : ℕ)
    → AllSilent (pos k) passed
    → AllSilent (pos k) rest
    → k < n
    → Ends (AllSilent (pos k)) (IsOther (pos k)) (update_loop effects clock passed rest n)
unfolding update_loop
update_loop-AllSilent effects k [] passed [] n p r old = (p, tt)
update_loop-AllSilent effects k (now ∷ clock) passed [] n p r old = (p, tt)
update_loop-AllSilent effects k [] passed (x ∷ xs) n p r old = tt
update_loop-AllSilent effects k (now ∷ clock) passed (x ∷ xs) n p r old =
    elim (Bool-cases (is_expired x.timer now)) [
      | inl over ↦
          let (q, calls) =
            trigger-Quiet effects k c now
              (record { before = p; here = r.0; behind = r.1; old = old }) in
          let (p', r') = settle-AllSilent k (trigger effects c now).0 q in
          rw over (
            Ends-after_calls (AllSilent (pos k)) (IsOther (pos k)) _ _ calls (
              update_loop-AllSilent effects k clock (settle (trigger effects c now).0).0
                (settle (trigger effects c now).0).1 _ p' r' q.old))
      | inr not_yet ↦
          rw not_yet (All-append (λ y. IsSilent (pos k) y.timer) passed (x ∷ xs) p r, tt)
    ]
  where
    c : Cursor
    c = record { passed = passed; current = x; rest = xs; next_id = n }

-- The id's timer is held at most once, at a time that is not before the one in the id.
abbrev pub IsRemovable : TimerId → List Entry → Type 0
IsRemovable id [] = Unit {0}
IsRemovable id (x ∷ xs) =
    ((x.timer.id.key ≢ id.key) × IsRemovable id xs)
    ⊎ ((id.value ≤ₜ x.time) × (x.timer.id.key ≡ id.key) × All (λ e. e.timer.id.key ≢ id.key) xs)

others-AllSilent : (k : ℤ) (xs : List Entry) → All (λ e. e.timer.id.key ≢ k) xs → AllSilent k xs
others-AllSilent k [] a = tt
others-AllSilent k (x ∷ xs) a = (inl a.0, others-AllSilent k xs a.1)

cancel_in-IsRemovable :
    (id : TimerId) (xs : List Entry) → IsRemovable id xs → AllSilent id.key (cancel_in id xs)
unfolding cancel_in
cancel_in-IsRemovable id [] h = tt
cancel_in-IsRemovable id (x ∷ xs) (inl (other, h)) = elim (Bool-cases (is_before x.time id.value)) [
  | inl early ↦ rw early (inl other, cancel_in-IsRemovable id xs h)
  | inr late ↦ elim (Bool-cases (eqb_ℤ id.key x.timer.id.key)) [
    | inl same ↦ absurd (other (eq_of_parts x.timer.id.key id.key (ground arith)))
    | inr differs ↦ rw (late, differs) (inl other, cancel_in-IsRemovable id xs h)
  ]
]
cancel_in-IsRemovable id (x ∷ xs) (inr (late, same, others)) =
    let not_early : is_before x.time id.value ≡ false = ground arith in
    let found : eqb_ℤ id.key x.timer.id.key ≡ true =
      ground (arith, ap pos_part same, ap neg_part same) in
    rw (not_early, found) (cancelled-IsSilent id.key x.timer, others-AllSilent id.key xs others)

-- After `removeTimer` of a timer that the manager holds once at most, no earlier than its id says,
-- and whose id was given out, no later `update` that ends calls it, whatever the clock reads and the
-- callbacks of other timers do; and it stays silent after that.
pub remove_timer-silences :
    (effects : ℕ → List Request) (m : TimerManager) (k : ℕ) (value : Timestamp)
    (clock : List Timestamp)
    → k < m.next_id
    → IsRemovable (record { key = pos k; value = value }) m.timers
    → Ends
        (AllSilent (pos k))
        (IsOther (pos k))
        (update effects (remove_timer m (record { key = pos k; value = value })) clock)
unfolding update remove_timer
remove_timer-silences effects m k value clock old h =
    update_loop-AllSilent effects k clock [] (cancel_in id m.timers) m.next_id tt
      (cancel_in-IsRemovable id m.timers h) old
  where
    id : TimerId
    id = record { key = pos k; value = value }
