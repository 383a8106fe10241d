-- ===== src/SocketChannel/Stream.antt =====
-- What a socket channel puts on the wire: the bytes that were written to it, in order, each once.
use nets.Prelude.{
  ℕ, ◌+◌, ◌^◌, ◌≤◌, ◌≡◌, refl, ap, sym, ◌∙◌, ◌⊎◌, inl, inr, true, List, [], ◌∷◌, ◌++◌, arith, All,
  Bool-cases, length, leb, length-append, append-nil, append_assoc, leb→le,
}
use nets.Memory.{Result, ok, err}
use nets.ByteBuffer.{ByteBuffer, null_buffer, writable_bytes, write_bytes, from_bytes}
use nets.ByteBuffer.Content.{IsValid, contents, length-contents}
use nets.ByteBuffer.Writes.{Appended, write_bytes-Appended}
use nets.SocketChannel.{SocketChannel, act, modifies, append_to, append_buffer}
use nets.SocketChannel.Blocks.{pending, IsFilled}

null_buffer-IsValid : IsValid null_buffer
null_buffer-IsValid = record {
  ordered = omega arith;
  within = omega arith;
  stored = refl;
  addressable = omega arith;
}

-- A write that has room, or the first one of a buffer, is not refused.
Appended-IsFilled :
    (b : ByteBuffer) (d : List ℕ) (r : Result ByteBuffer)
    → (b.writer_index + length d ≤ b.capacity) ⊎ (b.capacity ≡ 0)
    → 1 ≤ length d
    → Appended b d r
    → (b' : ByteBuffer) × (r ≡ ok b') × IsFilled b' × (contents b' ≡ contents b ++ d)
Appended-IsFilled b d (ok b') room some_bytes (v, same, cap) = (
  b',
  refl,
  record {
    valid = v;
    some_left = omega (arith, length-contents b' v, ap length same, length-append (contents b) d);
  },
  same,
)
Appended-IsFilled b d (err e) (inl room) some_bytes (n, _, _, held, lacks, _) = absurd (omega arith)
Appended-IsFilled b d (err e) (inr fresh) some_bytes (n, _, _, held, lacks, _) =
    absurd (omega arith)

from_bytes-IsFilled :
    (d : List ℕ)
    → 1 ≤ length d
    → length d ≤ 2 ^ 63
    → (b : ByteBuffer) × (from_bytes d ≡ ok b) × IsFilled b × (contents b ≡ d)
unfolding from_bytes
from_bytes-IsFilled d some_bytes fit =
    Appended-IsFilled null_buffer d (write_bytes null_buffer d) (inr refl) some_bytes
      (write_bytes-Appended null_buffer d null_buffer-IsValid (omega arith))

pub append_to-IsFilled :
    (bs : List ByteBuffer) (d : List ℕ)
    → All IsFilled bs
    → 1 ≤ length d
    → length d ≤ 2 ^ 63
    → (bs' : List ByteBuffer) × (append_to bs d ≡ ok bs')
      × All IsFilled bs'
      × (pending bs' ≡ pending bs ++ d)
unfolding append_to
append_to-IsFilled [] d f some_bytes fit =
    let (b, e, filled, same) = from_bytes-IsFilled d some_bytes fit in
    (b ∷ [], rw e refl, (filled, tt), append-nil (contents b) ∙ same)
append_to-IsFilled (b ∷ []) d f some_bytes fit =
    elim (Bool-cases (leb (length d) (writable_bytes b))) [
      | inl room ↦
          let v = f.0.valid in
          let there : b.writer_index + length d ≤ b.capacity =
            omega (arith, v.ordered, v.within, v.addressable, leb→le _ _ room) in
          let (b', e, filled, same) =
            Appended-IsFilled b d (write_bytes b d) (inl there) some_bytes
              (write_bytes-Appended b d v (omega (arith, v.addressable))) in
          (
            b' ∷ [],
            rw (room, e) refl,
            (filled, tt),
            append-nil (contents b') ∙ same ∙ ap (λ l. l ++ d) (sym (append-nil (contents b))),
          )
      | inr full ↦
          let (b', e, filled, same) = from_bytes-IsFilled d some_bytes fit in
          (
            b ∷ b' ∷ [],
            rw (full, e) refl,
            (f.0, (filled, tt)),
            ap (λ l. contents b ++ l) (append-nil (contents b') ∙ same)
                ∙ ap (λ l. l ++ d) (sym (append-nil (contents b))),
          )
    ]
append_to-IsFilled (b ∷ c ∷ bs) d f some_bytes fit =
    let (bs', e, filled, same) = append_to-IsFilled (c ∷ bs) d f.1 some_bytes fit in
    (
      b ∷ bs',
      rw e refl,
      (f.0, filled),
      ap (λ l. contents b ++ l) same ∙ sym (append_assoc (contents b) (pending (c ∷ bs)) d),
    )

-- What the peer has received and will receive.
abbrev pub stream : SocketChannel → List ℕ
stream c = c.sent ++ pending c.write_buffer

-- Every buffer that waits is valid and has something to send, and the channel then waits to write.
pub record IsSending (c : SocketChannel) : Type 0 where
  pub filled : All IsFilled c.write_buffer
  pub armed : (c.write_buffer ≡ []) ⊎ (c.events.writes ≡ true)

-- The channel's stream has grown by the bytes.
abbrev pub Streams : SocketChannel → List ℕ → Result SocketChannel → Type 0
Streams c d r = (c' : SocketChannel) × (r ≡ ok c') × (stream c' ≡ stream c ++ d) × IsSending c'

pub append_buffer-Streams :
    (c : SocketChannel) (d : List ℕ)
    → IsSending c
    → 1 ≤ length d
    → length d ≤ 2 ^ 63
    → (c' : SocketChannel) × (append_buffer c d ≡ ok c')
      × (c'.sent ≡ c.sent)
      × (pending c'.write_buffer ≡ pending c.write_buffer ++ d)
      × IsSending c'
unfolding append_buffer
append_buffer-Streams c d s some_bytes fit =
    let (bs, e, filled, same) = append_to-IsFilled c.write_buffer d s.filled some_bytes fit in
    elim (Bool-cases c.events.writes) [
      | inl on ↦ (
        record c { write_buffer = bs },
        rw (e, on) refl,
        refl,
        same,
        record { filled = filled; armed = inr on },
      )
      | inr off ↦ (
        act (record c { write_buffer = bs; events = record c.events { writes = true } })
            (modifies (record c.events { writes = true })),
        rw (e, off) refl,
        refl,
        same,
        record { filled = filled; armed = inr refl },
      )
    ]
