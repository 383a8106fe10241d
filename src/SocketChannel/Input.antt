-- ===== src/SocketChannel/Input.antt =====
-- The reads of a socket channel, and its `shutdown`.
use nets.Prelude.{ℕ, zero, suc, ◌-◌, true, false, List, [], ◌∷◌, ltb, if◌then◌else◌, length}
use nets.Memory.{Result, ok, err, diverges, ◌>>=◌}
use nets.ByteBuffer.{
  ByteBuffer, with_capacity, readable_bytes, Received, received, failed, write_bytes_from,
}
use nets.SocketChannel.{
  recv_buffer_size, SocketChannel, half_close, is_inactive, is_transient, How, both, read_side,
  write_side, act, shuts, fires_read, channel_in_active, handle_error,
}
use nets.SocketChannel.Output.{set_events}

-- What `doRead` returns: the count of bytes, or -1 and the error number.
pub data ReadBytes : Type 0 where
  bytes_read : ℕ → ReadBytes
  read_failed : ℕ → ReadBytes

abbrev pub next_read_len : ℕ → ℕ → ℕ
next_read_len expected n = if ltb n expected then expected - n else expected

-- `expected` is `expectedReadLen`, at first the room of the buffer, which is all of it when it is new.
-- One answer for each call of `read`; the loop goes on as long as these bring bytes.
unfoldable pub do_read : List Received → ByteBuffer → ℕ → Result (ReadBytes × ByteBuffer)
do_read [] b expected = err diverges
do_read (failed errno ∷ answers) b expected = write_bytes_from b expected (failed errno) >>= λ b'.
    ok (if is_transient errno then bytes_read (readable_bytes b') else read_failed errno, b')
do_read (received [] ∷ answers) b expected =
    write_bytes_from b expected (received []) >>= λ b'. ok (bytes_read (readable_bytes b'), b')
do_read (received (x ∷ xs) ∷ answers) b expected =
    write_bytes_from b expected (received (x ∷ xs)) >>= λ b'.
    do_read answers b' (next_read_len expected (length (x ∷ xs)))

-- `shutdown(how)`: both and the write side give up what waits to be sent.
unfoldable pub shutdown_how : SocketChannel → How → SocketChannel
shutdown_how c both = act (record c { write_buffer = [] }) (shuts both)
shutdown_how c read_side = act c (shuts read_side)
shutdown_how c write_side = act (record c { write_buffer = [] }) (shuts write_side)

unfoldable pub shutdown : SocketChannel → SocketChannel
unfolding shutdown_how channel_in_active
shutdown c = channel_in_active (shutdown_how c both)

unfoldable pub shutdown_read : SocketChannel → SocketChannel
unfolding shutdown_how
shutdown_read c = record (shutdown_how c read_side) { state = half_close }

unfoldable pub shutdown_write : SocketChannel → SocketChannel
unfolding shutdown_how
shutdown_write c = record (shutdown_how c write_side) { state = half_close }

-- The peer sends no more.
unfoldable pub end_of_input : SocketChannel → List ByteBuffer → SocketChannel
unfolding shutdown shutdown_read
end_of_input c [] = shutdown c
end_of_input c (b ∷ bs) = set_events (shutdown_read c) (record { reads = false; writes = true })

unfoldable pub after_read : SocketChannel → ReadBytes → ByteBuffer → SocketChannel
unfolding end_of_input handle_error
after_read c (read_failed errno) b = handle_error c errno
after_read c (bytes_read zero) b = end_of_input c c.write_buffer
after_read c (bytes_read (suc n)) b = act c (fires_read b)

unfoldable pub handle_read_event : SocketChannel → List Received → Result SocketChannel
unfolding do_read after_read is_inactive
handle_read_event c answers =
    if is_inactive c.state
    then ok c
    else (do_read answers (with_capacity recv_buffer_size) recv_buffer_size >>= λ (n, b).
        ok (after_read c n b))

unfoldable pub handle_error_event : SocketChannel → SocketChannel
unfolding is_inactive channel_in_active
handle_error_event c = if is_inactive c.state then c else channel_in_active c
