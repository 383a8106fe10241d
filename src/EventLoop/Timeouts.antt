-- ===== src/EventLoop/Timeouts.antt =====
-- How long the loop polls.
use nets.Prelude.{
  ℕ, ap, dec_lt, ◌/◌, min, max, ◌*◌, ◌≤◌, ◌≡◌, refl, ◌⊎◌, inl, inr, false, List, [], ◌∷◌, arith,
  Bool-cases,
}
use nets.Prelude.Int.{pos_part, neg_part, ◌-ℤ◌, ◌*ℤ◌, -ℤ_parts, +ℤ_parts, ℤ, pos, negsuc, leb_ℤ}
use nets.Timestamp.{
  quotient, Timestamp, plus_milliseconds, minus_microseconds, milliseconds_since_epoch, is_at_most,
  ◌≤ₜ◌,
}
use nets.Timer.Manager.{TimerManager, Entry, nearest_timer_remaining_expired_time, remaining}
use nets.Timer.Manager.Sorted.{AllFrom, IsSorted, AllFrom-mono}
use nets.EventLoop.{poll_timeout}

quotient-bound :
    (z : ℤ) (n : ℕ) → quotient z 1000 ≡ pos n → 1 ≤ n → (n * 1000 ≤ pos_part z) × (neg_part z ≡ 0)
unfolding quotient
quotient-bound (pos d) n e h = ground arith
quotient-bound (negsuc d) n e h = ground arith

pos-milliseconds : (n : ℕ) → pos n *ℤ pos 1000 ≡ pos (n * 1000)
unfolding ◌*ℤ◌
pos-milliseconds n = ground arith

plus_milliseconds-le :
    (now : Timestamp) (u : Timestamp) (n k : ℕ)
    → n ≤ k
    → plus_milliseconds now (pos k) ≤ₜ u
    → plus_milliseconds now (pos n) ≤ₜ u
unfolding plus_milliseconds
plus_milliseconds-le now u n k h e =
    let x = now.microseconds_since_epoch in
    omega (
      arith,
      h,
      e,
      +ℤ_parts x (pos n *ℤ pos 1000),
      +ℤ_parts x (pos k *ℤ pos 1000),
      ap pos_part (pos-milliseconds n),
      ap neg_part (pos-milliseconds n),
      ap pos_part (pos-milliseconds k),
      ap neg_part (pos-milliseconds k),
    )

quotient_of_pos : (z : ℤ) → neg_part z ≡ 0 → (n : ℕ) × (quotient z 1000 ≡ pos n)
unfolding quotient
quotient_of_pos (pos d) h = (d / 1000, refl)
quotient_of_pos (negsuc d) h = absurd (omega arith)

neg_part-sub : (a b : ℤ) → leb_ℤ a b ≡ false → neg_part (a -ℤ b) ≡ 0
unfolding ◌-ℤ◌
neg_part-sub a b h = ground arith

-- The rest of the time is a number of milliseconds, and no longer than the first timer has.
remaining-bound :
    (e : Entry) (es : List Entry) (now : Timestamp)
    → (n : ℕ) × (remaining (e ∷ es) now ≡ pos n)
      × ((n ≡ 0) ⊎ (plus_milliseconds now (pos n) ≤ₜ e.time))
unfolding remaining milliseconds_since_epoch minus_microseconds plus_milliseconds
remaining-bound e es now = elim (Bool-cases (is_at_most e.time now)) [
  | inl past ↦ (0, rw past refl, inl refl)
  | inr ahead ↦
      let x = now.microseconds_since_epoch in
      let d = e.time.microseconds_since_epoch -ℤ x in
      let parts = -ℤ_parts e.time.microseconds_since_epoch x in
      let (n, q) = quotient_of_pos d (neg_part-sub e.time.microseconds_since_epoch x ahead) in
      (
        n,
        rw ahead q,
        elim (dec_lt 0 n) [
          | yes some_time ↦ inr (
              omega (
                arith,
                quotient-bound d n q some_time,
                parts,
                +ℤ_parts x (pos n *ℤ pos 1000),
                ap pos_part (pos-milliseconds n),
                ap neg_part (pos-milliseconds n),
              ))
          | no no_time ↦ inl (omega arith)
        ],
      )
]

poll_timeout-nil :
    (now : Timestamp) (k : ℕ) → poll_timeout (record { timers = []; next_id = k }) now ≡ pos 3000
unfolding poll_timeout nearest_timer_remaining_expired_time remaining
poll_timeout-nil now k = refl

poll_timeout-cons :
    (e : Entry) (es : List Entry) (now : Timestamp) (k n : ℕ)
    → remaining (e ∷ es) now ≡ pos n
    → poll_timeout (record { timers = e ∷ es; next_id = k }) now ≡ pos (max 1 (min n 3000))
unfolding poll_timeout nearest_timer_remaining_expired_time
poll_timeout-cons e es now k n h = rw h (ground arith)

-- A timeout of `n` milliseconds, from 1 to 3000; it is 1, or no timer is due before it is over.
abbrev pub Bounded : TimerManager → Timestamp → ℕ → Type 0
Bounded m now n =
    (poll_timeout m now ≡ pos n)
    × (1 ≤ n)
    × (n ≤ 3000)
    × ((n ≡ 1) ⊎ AllFrom (plus_milliseconds now (pos n)) m.timers)

timers-Bounded :
    (ts : List Entry) (k : ℕ) (now : Timestamp)
    → IsSorted ts
    → (n : ℕ) × Bounded (record { timers = ts; next_id = k }) now n
timers-Bounded [] k now h = (3000, (poll_timeout-nil now k, omega arith, omega arith, inr tt))
timers-Bounded (e ∷ es) k now h =
    let (n, r, b) = remaining-bound e es now in
    let t = max 1 (min n 3000) in
    let time : (t ≡ 1) ⊎ (plus_milliseconds now (pos t) ≤ₜ e.time) = elim b [
      | inl due ↦ inl (omega arith)
      | inr ahead ↦ elim (dec_lt 0 n) [
        | yes some_time ↦ inr (plus_milliseconds-le now e.time t n (omega arith) ahead)
        | no no_time ↦ inl (omega arith)
      ]
    ] in
    (
      t,
      (
        poll_timeout-cons e es now k n r,
        omega arith,
        omega arith,
        elim time [
          | inl short ↦ inl short
          | inr ahead ↦ inr (ahead, AllFrom-mono e.time _ es ahead h.0)
        ],
      ),
    )

-- With timers in order, the loop polls for 1 to 3000 milliseconds, and where that is not 1, no timer
-- is due before it is over.
pub poll_timeout-Bounded :
    (m : TimerManager) (now : Timestamp) → IsSorted m.timers → (n : ℕ) × Bounded m now n
poll_timeout-Bounded m now h = timers-Bounded m.timers m.next_id now h
