-- ===== src/ByteBuffer/Front.antt =====
-- Buffers that have not been read from yet: reads from a channel append to them.
use nets.Prelude.{
  ℕ, ◌+◌, ◌*◌, ◌≤◌, ◌≡◌, refl, ap, sym, ◌∙◌, subst, inl, inr, List, [], ◌++◌, arith, Bool-cases,
  ltb, not, ◌==◌, if◌then◌else◌, length, append-nil,
}
use nets.Memory.{Result, ok, err, ◌>>=◌, write_at, add_size}
use nets.ByteBuffer.{
  ByteBuffer, zeros, readable_bytes, copy_content, needed_capacity, check_capacity, max_capacity,
  Received, received, failed, writable_bytes, ensure_writable, adjust_capacity, append_bytes,
  store_received, write_bytes_from,
}
use nets.ByteBuffer.Content.{IsValid, contents}
use nets.ByteBuffer.Writes.{Ensured, Capped, ensure_writable-Ensured, append_bytes-ok}

pub record IsFront (b : ByteBuffer) : Type 0 where
  pub valid : IsValid b
  pub reader : b.reader_index ≡ 0
  pub capped : b.capacity ≤ max_capacity
  pub held : 1 ≤ b.capacity

abbrev AtFront : Result ByteBuffer → Type 0
AtFront (ok b) = b.reader_index ≡ 0
AtFront (err e) = Unit {0}

>>=-AtFront {ℓ} :
    {A : Type ℓ} (r : Result A) (next : A → Result ByteBuffer)
    → ((a : A) → AtFront (next a))
    → AtFront (r >>= next)
>>=-AtFront (ok a) next h = h a
>>=-AtFront (err e) next h = tt

-- The buffer that `adjustCapacity` makes of the array `m`.
abbrev moved : ByteBuffer → ℕ → List ℕ → ByteBuffer
moved b n m = record {
  buffer = m;
  reader_index = 0;
  writer_index = readable_bytes b;
  capacity = if not (n == b.capacity) then n else b.capacity;
}

abbrev placed : ByteBuffer → ℕ → List ℕ → Result ByteBuffer
placed b n content =
    write_at (if not (n == b.capacity) then zeros n else b.buffer) 0 content
    >>= (λ m. ok (moved b n m))

adjust_capacity-AtFront : (b : ByteBuffer) (n : ℕ) → AtFront (adjust_capacity b n)
unfolding adjust_capacity
adjust_capacity-AtFront b n = >>=-AtFront (copy_content b) (placed b n) (λ content.
    >>=-AtFront (write_at (if not (n == b.capacity) then zeros n else b.buffer) 0 content)
      (λ m. ok (moved b n m)) (λ m. refl))

ensure_writable-AtFront :
    (b : ByteBuffer) (len : ℕ) → b.reader_index ≡ 0 → AtFront (ensure_writable b len)
unfolding ensure_writable
ensure_writable-AtFront b len front = elim (Bool-cases (ltb (writable_bytes b) len)) [
  | inl lacking ↦ rw lacking (
      >>=-AtFront (needed_capacity b len) (λ n. check_capacity b n >>= adjust_capacity b)
        (λ n. >>=-AtFront (check_capacity b n) (adjust_capacity b) (adjust_capacity-AtFront b)))
  | inr enough ↦ rw enough front
]

append_bytes-AtFront :
    (b : ByteBuffer) (d : List ℕ) → b.reader_index ≡ 0 → AtFront (append_bytes b d)
unfolding append_bytes
append_bytes-AtFront b d front =
    >>=-AtFront (write_at b.buffer b.writer_index d)
      (λ m. ok (record b { buffer = m; writer_index = add_size b.writer_index (length d) }))
      (λ m. front)

-- The bytes that a call of `read` gives.
abbrev pub bytes_of : Received → List ℕ
bytes_of (received d) = d
bytes_of (failed errno) = []

abbrev pub Grows : ByteBuffer → List ℕ → Result ByteBuffer → Type 0
Grows b d r = (b' : ByteBuffer) × (r ≡ ok b') × IsFront b' × (contents b' ≡ contents b ++ d)

module _ (b : ByteBuffer) (len : ℕ) (v : IsFront b) (asks : 1 ≤ len)
    (small : 2 * (b.writer_index + len) ≤ max_capacity) where
  still_within : (b' : ByteBuffer) → Capped b len b' → b'.capacity ≤ max_capacity
  still_within b' (inl same) = omega (arith, v.capped)
  still_within b' (inr (inl within)) = within
  still_within b' (inr (inr (fresh, _))) = absurd (omega (arith, v.held))

  stored :
      (r : Result ByteBuffer) (got : Received)
      → length (bytes_of got) ≤ len
      → Ensured b len r
      → AtFront r
      → Grows b (bytes_of got) (r >>= λ b'. store_received b' got)
  stored (err e) got short (n, _, over, _, _, inl same) front = absurd (omega (arith, v.capped))
  stored (err e) got short (n, _, over, _, _, inr (_, less)) front = absurd (omega arith)
  stored (ok b') (failed errno) short (v', same, room, cap) front = (
    b',
    refl,
    record { valid = v'; reader = front; capped = still_within b' cap; held = omega arith },
    same ∙ sym (append-nil (contents b)),
  )
  stored (ok b') (received d) short (v', same, room, cap) front =
      let (b'', e, v'', more, kept) = append_bytes-ok b' d v' (omega arith) in
      (
        b'',
        e,
        record {
          valid = v'';
          reader = subst AtFront e (append_bytes-AtFront b' d front);
          capped = omega (arith, kept, still_within b' cap);
          held = omega (arith, kept);
        },
        more ∙ ap (λ l. l ++ d) same,
      )

  -- No read of such a size is refused.
  pub write_bytes_from-Grows :
      (got : Received)
      → length (bytes_of got) ≤ len
      → Grows b (bytes_of got) (write_bytes_from b len got)
  unfolding write_bytes_from
  write_bytes_from-Grows got short =
      stored (ensure_writable b len) got short
        (ensure_writable-Ensured b len v.valid (omega (arith, small)))
        (ensure_writable-AtFront b len v.reader)
