-- ===== src/SocketChannel/ReadEvents.antt =====
-- `handleReadEvent` and `shutdown`, and the stream of the channel.
use nets.Prelude.{
  ℕ, zero, suc, ◌^◌, ◌≤◌, ◌≡◌, refl, subst, ◌⊎◌, inl, inr, true, false, List, [], ◌∷◌, arith,
  Bool-cases,
}
use nets.Memory.{ok, >>=-ok}
use nets.ByteBuffer.{ByteBuffer, with_capacity, Received, failed, write_bytes_from, ensure_writable}
use nets.SocketChannel.{
  recv_buffer_size, SocketChannel, inactive, is_inactive, is_transient, channel_in_active,
  handle_error,
}
use nets.SocketChannel.Input.{
  ReadBytes, bytes_read, read_failed, do_read, shutdown_how, shutdown, shutdown_read, end_of_input,
  after_read, handle_read_event,
}
use nets.SocketChannel.Stream.{stream, IsSending}

-- The stream is the same, and what waits is still waited for; or the channel is inactive.
abbrev pub Keeps : SocketChannel → SocketChannel → Type 0
Keeps c c' = (c'.sent ≡ c.sent) × (((stream c' ≡ stream c) × IsSending c') ⊎ (c'.state ≡ inactive))

handle_error-Keeps : (c : SocketChannel) (errno : ℕ) → IsSending c → Keeps c (handle_error c errno)
unfolding handle_error channel_in_active
handle_error-Keeps c errno s = elim (Bool-cases (is_transient errno)) [
  | inl again ↦ rw again (refl, inl (refl, s))
  | inr hard ↦ rw hard (refl, inr refl)
]

end_of_input-Keeps :
    (c : SocketChannel) (bs : List ByteBuffer)
    → bs ≡ c.write_buffer
    → IsSending c
    → Keeps c (end_of_input c bs)
unfolding end_of_input shutdown shutdown_read shutdown_how channel_in_active
end_of_input-Keeps c [] e s = (refl, inr refl)
end_of_input-Keeps c (b ∷ bs) e s =
    (refl, inl (refl, record { filled = s.filled; armed = inr refl }))

after_read-Keeps :
    (c : SocketChannel) (n : ReadBytes) (b : ByteBuffer) → IsSending c → Keeps c (after_read c n b)
unfolding after_read
after_read-Keeps c (read_failed errno) b s = handle_error-Keeps c errno s
after_read-Keeps c (bytes_read zero) b s = end_of_input-Keeps c c.write_buffer refl s
after_read-Keeps c (bytes_read (suc n)) b s =
    (refl, inl (refl, record { filled = s.filled; armed = s.armed }))

-- On a channel whose waiting buffers are valid and filled and that waits to write them, a read event
-- that is handled to its end puts nothing on the wire, and keeps the bytes that wait, with the
-- channel waiting to write them; or the channel is inactive.
pub handle_read_event-Keeps :
    (c c' : SocketChannel) (answers : List Received)
    → IsSending c
    → handle_read_event c answers ≡ ok c'
    → Keeps c c'
unfolding handle_read_event
handle_read_event-Keeps c c' answers s e = elim (Bool-cases (is_inactive c.state)) [
  | inl closed ↦
      let same : c ≡ c' = cc (rw closed at e) in subst (Keeps c) same (refl, inl (refl, s))
  | inr opened ↦
      let ((n, b), _, f) =
        >>=-ok (do_read answers (with_capacity recv_buffer_size) recv_buffer_size)
          (λ r. ok (after_read c r.0 r.1)) (rw opened at e) in
      let same : after_read c n b ≡ c' = cc f in subst (Keeps c) same (after_read-Keeps c n b s)
]

roomy : (n : ℕ) → n ≤ 2 ^ 63 → ensure_writable (with_capacity n) n ≡ ok (with_capacity n)
unfolding ensure_writable with_capacity
roomy n fit = ground arith

none_read :
    (n errno : ℕ)
    → n ≤ 2 ^ 63
    → is_transient errno ≡ true
    → do_read (failed errno ∷ []) (with_capacity n) n ≡ ok (bytes_read 0, with_capacity n)
unfolding do_read write_bytes_from with_capacity
none_read n errno fit again = rw (roomy n fit, again) refl

-- On a channel that is not inactive and has nothing waiting, a read event whose first read finds
-- nothing, with `EAGAIN` or `EINTR`, shuts the channel down.
pub handle_read_event-shutdown :
    (c : SocketChannel) (errno : ℕ)
    → is_inactive c.state ≡ false
    → c.write_buffer ≡ []
    → is_transient errno ≡ true
    → (handle_read_event c (failed errno ∷ []) ≡ ok (shutdown c)) × ((shutdown c).state ≡ inactive)
unfolding handle_read_event after_read shutdown channel_in_active
handle_read_event-shutdown c errno opened free again = (
  rw (opened, none_read recv_buffer_size errno (omega arith) again) (ended c.write_buffer free),
  refl,
)
  where
    ended : (bs : List ByteBuffer) → bs ≡ [] → ok (end_of_input c bs) ≡ ok (shutdown c)
    ended bs e = rw e refl
