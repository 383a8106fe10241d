-- ===== src/SocketChannel/Gathers.antt =====
-- What a read event of a socket channel gathers (`doRead` and `handleReadEvent` of SocketChannel.cpp).
use nets.Prelude.{
  ℕ, zero, suc, ◌+◌, ◌*◌, ◌≤◌, ◌≡◌, refl, ap, ◌∙◌, Bool, true, false, List, [], ◌∷◌, ◌++◌, arith,
  length, length-append, length-replicate, append_assoc,
}
use nets.Memory.{Result, ok}
use nets.ByteBuffer.{
  ByteBuffer, max_capacity, with_capacity, readable_bytes, Received, received, failed,
}
use nets.ByteBuffer.Content.{IsValid, contents, length-contents}
use nets.ByteBuffer.Front.{IsFront, write_bytes_from-Grows}
use nets.SocketChannel.{SocketChannel, recv_buffer_size, is_inactive, is_transient, act, fires_read}
use nets.SocketChannel.Output.{concat}
use nets.SocketChannel.Input.{
  ReadBytes, bytes_read, next_read_len, do_read, after_read, handle_read_event,
}

-- What the manual says of `read`: it gives no more than it is asked for. None of these is the end.
abbrev pub IsReads : ℕ → List (List ℕ) → Type 0
IsReads expected [] = Unit {0}
IsReads expected (d ∷ ds) =
    (1 ≤ length d) × (length d ≤ expected) × IsReads (next_read_len expected (length d)) ds

-- The call that ends the loop: the end of the input, `EAGAIN` or `EINTR`.
abbrev pub is_last : Received → Bool
is_last (received []) = true
is_last (received (x ∷ xs)) = false
is_last (failed errno) = is_transient errno

abbrev pub answers_of : List (List ℕ) → Received → List Received
answers_of [] last = last ∷ []
answers_of (d ∷ ds) last = received d ∷ answers_of ds last

abbrev Gathered : ByteBuffer → List ℕ → Result (ReadBytes × ByteBuffer) → Type 0
Gathered b d r =
    (b' : ByteBuffer) × (r ≡ ok (bytes_read (readable_bytes b'), b'))
    × IsFront b'
    × (contents b' ≡ contents b ++ d)

next_read_len-cases :
    (expected n : ℕ)
    → 1 ≤ expected
    → n ≤ expected
    → (1 ≤ next_read_len expected n) × (next_read_len expected n ≤ expected)
next_read_len-cases expected n some_bytes short = ground arith

writer_of : (b : ByteBuffer) → IsFront b → b.writer_index ≡ length (contents b)
writer_of b v = omega (arith, length-contents b v.valid, v.reader)

last-Gathered :
    (b : ByteBuffer) (expected : ℕ) (last : Received)
    → is_last last ≡ true
    → IsFront b
    → 1 ≤ expected
    → 2 * (length (contents b) + expected) ≤ max_capacity
    → Gathered b [] (do_read (last ∷ []) b expected)
unfolding do_read
last-Gathered b expected (received []) e v asks small =
    let (b', g, v', c) =
      write_bytes_from-Grows b expected v asks (omega (arith, writer_of b v, small)) (received [])
        (omega arith) in
    (b', rw g refl, v', c)
last-Gathered b expected (received (x ∷ xs)) e v asks small = absurd (cc e)
last-Gathered b expected (failed errno) e v asks small =
    let (b', g, v', c) =
      write_bytes_from-Grows b expected v asks (omega (arith, writer_of b v, small)) (failed errno)
        (omega arith) in
    (b', rw (g, e) refl, v', c)

do_read-Gathered :
    (ds : List (List ℕ)) (last : Received) (b : ByteBuffer) (expected : ℕ)
    → is_last last ≡ true
    → IsReads expected ds
    → IsFront b
    → 1 ≤ expected
    → 2 * (length (contents b) + length (concat ds) + expected) ≤ max_capacity
    → Gathered b (concat ds) (do_read (answers_of ds last) b expected)
unfolding do_read
do_read-Gathered [] last b expected e reads v asks small =
    last-Gathered b expected last e v asks (omega (arith, small))
do_read-Gathered ([] ∷ ds) last b expected e reads v asks small = absurd (omega (arith, reads.0))
do_read-Gathered ((x ∷ xs) ∷ ds) last b expected e reads v asks small =
    let d = x ∷ xs in
    let (b', g, v', c) =
      write_bytes_from-Grows b expected v asks (omega (arith, writer_of b v, small)) (received d)
        reads.1 in
    let (more, less) = next_read_len-cases expected (length d) asks reads.1 in
    let grown : length (contents b') ≡ length (contents b) + length d =
      ap length c ∙ length-append (contents b) d in
    let (b'', g', v'', c') =
      do_read-Gathered ds last b' (next_read_len expected (length d)) e reads.2 v' more
        (omega (arith, grown, less, small, length-append d (concat ds))) in
    (
      b'',
      rw (g, g') refl,
      v'',
      c' ∙ ap (λ l. l ++ concat ds) c ∙ append_assoc (contents b) d (concat ds),
    )

fresh-IsFront : IsFront (with_capacity recv_buffer_size)
unfolding with_capacity
fresh-IsFront = record {
  valid = record {
    ordered = omega arith;
    within = omega arith;
    stored = length-replicate {A = ℕ} recv_buffer_size 0;
    addressable = omega arith;
  };
  reader = refl;
  capped = omega arith;
  held = omega arith;
}

fresh-contents : contents (with_capacity recv_buffer_size) ≡ []
unfolding with_capacity
fresh-contents = refl

after_read-fires :
    (c : SocketChannel) (n : ℕ) (b : ByteBuffer)
    → 1 ≤ n
    → after_read c (bytes_read n) b ≡ act c (fires_read b)
unfolding after_read
after_read-fires c zero b some_bytes = absurd (omega arith)
after_read-fires c (suc n) b some_bytes = refl

readable-some : (b : ByteBuffer) → IsFront b → 1 ≤ length (contents b) → 1 ≤ readable_bytes b
readable-some b v some_bytes =
    omega (arith, length-contents b v.valid, v.capped, v.valid.within, v.reader)

-- On a channel that is not inactive, a read event whose reads give one or more blocks, each of at
-- least one byte and no more than asked for, and then the end of the input, EAGAIN or EINTR, with
-- less than 2 ^ 30 - 2 ^ 14 bytes in all, fires one buffer, which is valid and holds the blocks in
-- order, and changes nothing else.
pub handle_read_event-Gathers :
    (c : SocketChannel) (d : List ℕ) (ds : List (List ℕ)) (last : Received)
    → is_inactive c.state ≡ false
    → is_last last ≡ true
    → IsReads recv_buffer_size (d ∷ ds)
    → 2 * (length (concat (d ∷ ds)) + recv_buffer_size) ≤ max_capacity
    → (b : ByteBuffer) × (handle_read_event c (answers_of (d ∷ ds) last)
        ≡ ok (act c (fires_read b)))
      × IsValid b
      × (contents b ≡ concat (d ∷ ds))
unfolding handle_read_event
handle_read_event-Gathers c d ds last opened e reads small =
    let fresh = with_capacity recv_buffer_size in
    let empty : length (contents fresh) ≡ 0 = ap length fresh-contents in
    let (b, g, v, got) =
      do_read-Gathered (d ∷ ds) last fresh recv_buffer_size e reads fresh-IsFront (omega arith)
        (omega (arith, small, empty)) in
    let whole : contents b ≡ concat (d ∷ ds) =
      got ∙ ap (λ l. l ++ concat (d ∷ ds)) fresh-contents in
    let some_bytes : 1 ≤ length (contents b) =
      omega (arith, ap length whole, length-append d (concat ds), reads.0) in
    (
      b,
      rw (opened, g)
          (ap ok (after_read-fires c (readable_bytes b) b (readable-some b v some_bytes))),
      v.valid,
      whole,
    )
