-- ===== src/SocketChannel/Sends.antt =====
-- `doWrite` and `doWriteDirectly`.
use nets.Prelude.{
  ℕ, ◌^◌, ◌≤◌, ◌<◌, ◌≡◌, refl, ap, sym, ◌∙◌, subst, inl, inr, true, false, Option, none, some, List,
  [], ◌∷◌, ◌++◌, arith, Bool-cases, length, ◌==◌, take, drop, length-drop, append-nil, append_assoc,
  take_all, ==_iff, take-append-drop,
}
use nets.Memory.{err, invalid_access, sub_size}
use nets.ByteBuffer.{ByteBuffer}
use nets.SocketChannel.{
  SocketChannel, is_inactive, Written, wrote, write_failed, is_transient, finish_write,
  do_write_directly, write_behind, do_write, add_callback,
}
use nets.SocketChannel.Blocks.{pending}
use nets.SocketChannel.Stream.{IsSending, Streams, append_buffer-Streams}

pub callback-same :
    (c : SocketChannel) (callback : Option ℕ)
    → ((add_callback c callback).sent ≡ c.sent)
      × ((add_callback c callback).write_buffer ≡ c.write_buffer)
      × ((add_callback c callback).events ≡ c.events)
unfolding add_callback
callback-same c none = (refl, refl, refl)
callback-same c (some f) = (refl, refl, refl)

-- The kernel took `n` of the bytes.
finish_write-Streams :
    (c : SocketChannel) (d : List ℕ) (n : ℕ) (callback : Option ℕ)
    → IsSending c
    → c.write_buffer ≡ []
    → 1 ≤ length d
    → length d ≤ 2 ^ 63
    → n ≤ length d
    → Streams c d (finish_write (record c { sent = c.sent ++ take n d }) d n callback)
unfolding finish_write
finish_write-Streams c d n callback s free some_bytes fit within =
    let c1 : SocketChannel = record c { sent = c.sent ++ take n d } in
    elim (Bool-cases (sub_size (length d) n == 0)) [
      | inl all ↦
          let whole : length d ≤ n = omega (arith, (==_iff _ _).0 all) in
          let (sent, buffer, _) = callback-same c1 callback in
          (
            add_callback c1 callback,
            rw all refl,
            rw (sent, buffer, free, take_all n d whole)
                (append-nil (c.sent ++ d) ∙ ap (λ l. l ++ d) (sym (append-nil c.sent))),
            record { filled = rw (buffer, free) tt; armed = inl (buffer ∙ free) },
          )
      | inr part ↦
          let left : n < length d = ground arith in
          let (c2, e, sent, same, sending) =
            append_buffer-Streams c1 (drop n d) (record { filled = s.filled; armed = s.armed })
              (omega (arith, length-drop n d)) (omega (arith, length-drop n d)) in
          (
            record c2 { write_complete_callbacks = c2.write_complete_callbacks ++ (callback ∷ []) },
            rw (part, e) refl,
            rw (sent, same, free)
                (append_assoc c.sent (take n d) (drop n d)
                  ∙ ap (λ l. c.sent ++ l) (take-append-drop n d)
                  ∙ ap (λ l. l ++ d) (sym (append-nil c.sent))),
            record { filled = sending.filled; armed = sending.armed },
          )
    ]

-- The kernel takes no more than it was given, and fails only to be tried again.
abbrev pub IsSoft : List ℕ → Written → Type 0
IsSoft d (wrote n) = n ≤ length d
IsSoft d (write_failed errno) = is_transient errno ≡ true

do_write_directly-Streams :
    (c : SocketChannel) (d : List ℕ) (callback : Option ℕ) (answer : Written)
    → IsSending c
    → c.write_buffer ≡ []
    → 1 ≤ length d
    → length d ≤ 2 ^ 63
    → IsSoft d answer
    → Streams c d (do_write_directly c d callback answer)
unfolding do_write_directly
do_write_directly-Streams c d callback (wrote n) s free some_bytes fit soft =
    finish_write-Streams c d n callback s free some_bytes fit soft
do_write_directly-Streams c d callback (write_failed errno) s free some_bytes fit soft =
    let kept = finish_write-Streams c d 0 callback s free some_bytes fit (omega arith) in
    let same : finish_write (record c { sent = c.sent ++ [] }) d 0 callback
        ≡ finish_write c d 0 callback =
      ap (λ l. finish_write (record c { sent = l }) d 0 callback) (append-nil c.sent) in
    rw soft (subst (Streams c d) same kept)

write_behind-Streams :
    (c : SocketChannel) (bs : List ByteBuffer) (d : List ℕ) (callback : Option ℕ) (answer : Written)
    → bs ≡ c.write_buffer
    → IsSending c
    → 1 ≤ length d
    → length d ≤ 2 ^ 63
    → IsSoft d answer
    → Streams c d (write_behind c bs d callback answer)
unfolding write_behind
write_behind-Streams c [] d callback answer e s some_bytes fit soft =
    do_write_directly-Streams c d callback answer s (sym e) some_bytes fit soft
write_behind-Streams c (b ∷ bs) d callback answer e s some_bytes fit soft =
    let (c', appended, sent, same, sending) = append_buffer-Streams c d s some_bytes fit in
    (
      record c' { write_complete_callbacks = c'.write_complete_callbacks ++ (callback ∷ []) },
      rw appended refl,
      rw (sent, same) (sym (append_assoc c.sent (pending c.write_buffer) d)),
      record { filled = sending.filled; armed = sending.armed },
    )

-- On a channel that is not inactive, whose waiting buffers are valid and filled and that waits to
-- write them, `doWrite` of 1 to 2 ^ 63 bytes adds exactly these to the end of the stream, whether
-- the kernel takes all or some of them, or fails to be tried again; the rest waits in valid buffers,
-- and the channel then waits to write.
pub do_write-Streams :
    (c : SocketChannel) (d : List ℕ) (callback : Option ℕ) (answer : Written)
    → is_inactive c.state ≡ false
    → IsSending c
    → 1 ≤ length d
    → length d ≤ 2 ^ 63
    → IsSoft d answer
    → Streams c d (do_write c d callback answer)
unfolding do_write
do_write-Streams c d callback answer open_state s some_bytes fit soft =
    let not_empty : (length d == 0) ≡ false = ground arith in
    rw (open_state, not_empty)
      (write_behind-Streams c c.write_buffer d callback answer refl s some_bytes fit soft)

-- On a channel that is not inactive and has nothing waiting, a write of at least a byte that fails
-- for good goes on to append memory in front of the data.
do_write-failed :
    (c : SocketChannel) (d : List ℕ) (callback : Option ℕ) (errno : ℕ)
    → is_inactive c.state ≡ false
    → c.write_buffer ≡ []
    → 1 ≤ length d
    → is_transient errno ≡ false
    → do_write c d callback (write_failed errno) ≡ err invalid_access
unfolding do_write write_behind do_write_directly
do_write-failed c d callback errno open_state free some_bytes hard =
    let not_empty : (length d == 0) ≡ false = ground arith in
    rw (open_state, not_empty) (behind c.write_buffer free)
  where
    behind :
        (bs : List ByteBuffer)
        → bs ≡ []
        → write_behind c bs d callback (write_failed errno) ≡ err invalid_access
    behind [] e = rw hard refl
    behind (b ∷ bs) e = cc e
