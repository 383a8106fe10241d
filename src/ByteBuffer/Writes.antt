-- ===== src/ByteBuffer/Writes.antt =====
-- `ensureWritable` and `writeBytes`.
use nets.Prelude.{
  ℕ, ◌+◌, ◌-◌, ◌*◌, ◌^◌, ◌≤◌, ◌<◌, ◌≡◌, refl, ap, ◌∙◌, ◌⊎◌, inl, inr, List, ◌++◌, arith, ltb,
  ltb→lt, ◌==◌, ==_iff, Bool-cases, length,
}
use nets.Memory.{
  Error, Result, ok, err, out_of_memory, ◌>>=◌, add_size, splice, write_at-ok, length-splice,
  slice-splice,
}
use nets.ByteBuffer.{
  ByteBuffer, max_capacity, writable_bytes, discard_read_bytes, calculate_new_capacity,
  adjust_capacity, needed_capacity, check_capacity, ensure_writable, append_bytes, write_bytes,
}
use nets.ByteBuffer.Growth.{calculate_new_capacity-IsRoundedUp}
use nets.ByteBuffer.Content.{IsValid, contents, adjust_capacity-Adjusted}

-- Why a write of `len` bytes is refused: the capacity `n` that it needs is over the limit.
abbrev pub Refused : ByteBuffer → ℕ → Error → Type 0
Refused b len e =
    (n : ℕ) × (e ≡ out_of_memory n)
    × (max_capacity < n)
    × (1 ≤ b.capacity)
    × (b.capacity < b.writer_index + len)
    × ((n ≡ b.capacity) ⊎ ((b.writer_index + len ≤ n) × (n < 2 * (b.writer_index + len))))

-- How far the capacity may grow: the limit holds but for the first allocation of a buffer.
abbrev pub Capped : ByteBuffer → ℕ → ByteBuffer → Type 0
Capped b len b' =
    (b'.capacity ≡ b.capacity)
    ⊎ (b'.capacity ≤ max_capacity)
    ⊎ ((b.capacity ≡ 0) × (b'.capacity < 2 * len))

abbrev pub Ensured : ByteBuffer → ℕ → Result ByteBuffer → Type 0
Ensured b len (ok b') =
    IsValid b'
    × (contents b' ≡ contents b)
    × (b'.writer_index + len ≤ b'.capacity)
    × Capped b len b'
Ensured b len (err e) = Refused b len e

record Needs (b : ByteBuffer) (len n : ℕ) : Type 0 where
  answer : needed_capacity b len ≡ ok n
  small : n ≤ 2 ^ 63
  holds : b.writer_index - b.reader_index + len ≤ n
  first : b.capacity ≡ 0 → n < 2 * len
  least :
      (1 ≤ b.capacity)
      → (n ≡ b.capacity) ⊎ ((b.writer_index + len ≤ n) × (n < 2 * (b.writer_index + len)))

needed_capacity-Needs :
    (b : ByteBuffer) (len : ℕ)
    → IsValid b
    → b.writer_index + len ≤ 2 ^ 63
    → b.capacity < b.writer_index + len
    → (n : ℕ) × Needs b len n
unfolding needed_capacity
needed_capacity-Needs b len v fit lacks = elim (Bool-cases (b.capacity == 0)) [
  | inl fresh ↦
      let none_held : b.capacity ≡ 0 = (==_iff _ _).0 fresh in
      let (k, e, fits, least, bound) =
        calculate_new_capacity-IsRoundedUp len (omega arith) (omega arith) in
      (
        2 ^ k,
        record {
          answer = rw fresh e;
          small = bound;
          holds = omega arith;
          first = λ _. least;
          least = λ some_held. absurd (omega arith);
        },
      )
  | inr used ↦ elim (Bool-cases (ltb (add_size (writable_bytes b) (discard_read_bytes b)) len)) [
    | inl grows ↦
        let total : add_size b.writer_index len ≡ b.writer_index + len = omega arith in
        let (k, e, fits, least, bound) =
          calculate_new_capacity-IsRoundedUp (b.writer_index + len) (omega arith) fit in
        (
          2 ^ k,
          record {
            answer = rw (used, grows) (ap calculate_new_capacity total ∙ e);
            small = bound;
            holds = omega arith;
            first = λ fresh. absurd (ground arith);
            least = λ _. inr (fits, least);
          },
        )
    | inr shifts ↦ (
      b.capacity,
      record {
        answer = rw (used, shifts) refl;
        small = v.addressable;
        holds = ground arith;
        first = λ fresh. absurd (ground arith);
        least = λ _. inl refl;
      },
    )
  ]
]

needed_capacity-Ensured :
    (b : ByteBuffer) (len n : ℕ)
    → IsValid b
    → b.capacity < b.writer_index + len
    → Needs b len n
    → Ensured b len (needed_capacity b len >>= λ n. check_capacity b n >>= adjust_capacity b)
unfolding check_capacity
needed_capacity-Ensured b len n v lacks d = rw d.answer (elim (Bool-cases (b.capacity == 0)) [
  | inl fresh ↦
      let none_held : b.capacity ≡ 0 = (==_iff _ _).0 fresh in
      rw fresh (adjusted (inr (inr (none_held, d.first none_held))))
  | inr used ↦ elim (Bool-cases (ltb max_capacity n)) [
    | inl over ↦
        let some_held : 1 ≤ b.capacity = ground arith in
        rw (used, over) (n, refl, ltb→lt _ _ over, some_held, lacks, d.least some_held)
    | inr within ↦ rw (used, within) (adjusted (inr (inl (ground arith))))
  ]
])
  where
    adjusted :
        (n ≡ b.capacity) ⊎ (n ≤ max_capacity) ⊎ ((b.capacity ≡ 0) × (n < 2 * len))
        → Ensured b len (adjust_capacity b n)
    adjusted cap =
        let (b', e, a) = adjust_capacity-Adjusted b n v d.small (omega (arith, d.holds)) in
        rw e (a.valid, a.same, omega (arith, a.writer, a.room, d.holds), rw a.room cap)

-- For a valid buffer, and a write that ends within 2 ^ 63, `ensureWritable` makes room and keeps the
-- content and the invariant, or throws since the capacity needed is over the limit; the limit holds
-- but for the first allocation.
pub ensure_writable-Ensured :
    (b : ByteBuffer) (len : ℕ)
    → IsValid b
    → b.writer_index + len ≤ 2 ^ 63
    → Ensured b len (ensure_writable b len)
unfolding ensure_writable
ensure_writable-Ensured b len v fit = elim (Bool-cases (ltb (writable_bytes b) len)) [
  | inl lacking ↦
      let lacks : b.capacity < b.writer_index + len = omega (arith, ltb→lt _ _ lacking) in
      let (n, d) = needed_capacity-Needs b len v fit lacks in
      rw lacking (needed_capacity-Ensured b len n v lacks d)
  | inr enough ↦ rw enough (v, refl, ground arith, inl refl)
]

pub append_bytes-ok :
    (b : ByteBuffer) (d : List ℕ)
    → IsValid b
    → b.writer_index + length d ≤ b.capacity
    → (b' : ByteBuffer) × (append_bytes b d ≡ ok b')
      × IsValid b'
      × (contents b' ≡ contents b ++ d)
      × (b'.capacity ≡ b.capacity)
unfolding append_bytes
append_bytes-ok b d v fits = (
  record {
    buffer = splice b.buffer b.writer_index d;
    reader_index = b.reader_index;
    writer_index = b.writer_index + length d;
    capacity = b.capacity;
  },
  rw (write_at-ok b.buffer b.writer_index d (omega arith)) (
      ap
        (λ w. ok (record {
          buffer = splice b.buffer b.writer_index d;
          reader_index = b.reader_index;
          writer_index = w;
          capacity = b.capacity;
        }))
        no_wrap),
  record {
    ordered = omega arith;
    within = fits;
    stored = length-splice b.buffer b.writer_index d (omega arith) ∙ v.stored;
    addressable = v.addressable;
  },
  slice-splice b.buffer b.reader_index b.writer_index _ d v.ordered (omega arith) (omega arith),
  refl,
)
  where
    no_wrap : add_size b.writer_index (length d) ≡ b.writer_index + length d
    no_wrap = omega arith

abbrev pub Appended : ByteBuffer → List ℕ → Result ByteBuffer → Type 0
Appended b d (ok b') = IsValid b' × (contents b' ≡ contents b ++ d) × Capped b (length d) b'
Appended b d (err e) = Refused b (length d) e

-- For a valid buffer, and a write that ends within 2 ^ 63, `writeBytes` appends exactly the given
-- bytes to the readable ones and keeps the invariant, whether it copies, compacts or grows; or it
-- throws, since the capacity that it needs is over the limit.
pub write_bytes-Appended :
    (b : ByteBuffer) (d : List ℕ)
    → IsValid b
    → b.writer_index + length d ≤ 2 ^ 63
    → Appended b d (write_bytes b d)
unfolding write_bytes
write_bytes-Appended b d v fit =
    after (ensure_writable b (length d)) (ensure_writable-Ensured b (length d) v fit)
  where
    after :
        (r : Result ByteBuffer)
        → Ensured b (length d) r
        → Appended b d (r >>= λ b'. append_bytes b' d)
    after (ok b') (v', same, room, cap) =
        let (b'', e, v'', more, held) = append_bytes-ok b' d v' room in
        rw e (v'', more ∙ ap (λ l. l ++ d) same, rw held cap)
    after (err e) refused = refused
