-- ===== src/SocketChannel/Output.antt =====
-- The write event of a socket channel: `writev`, and what follows it.
use nets.Prelude.{
  ℕ, zero, suc, ◌+◌, ◌-◌, true, false, Option, List, [], ◌∷◌, ◌++◌, map, ltb, leb, ◌==◌,
  if◌then◌else◌, length, take, drop,
}
use nets.Memory.{Result, ok, err, diverges, ◌>>=◌}
use nets.ByteBuffer.{ByteBuffer, readable_bytes, set_reader_index}
use nets.ByteBuffer.Content.{contents}
use nets.SocketChannel.{
  Events, SocketChannel, Written, modifies, wrote, write_failed, is_inactive, is_half_close,
  is_transient, max_count_of_writev_once, act, channel_in_active, handle_error, add_callback,
}

abbrev pub concat : List (List ℕ) → List ℕ
concat [] = []
concat (xs ∷ xss) = xs ++ concat xss

-- The number of blocks in one call of `writev`, and the bytes that the loop expects of it: the sum over
-- `i` from `writtenBlocks` up to that number.
abbrev pub blocks_once : ℕ → ℕ
blocks_once left = if ltb left max_count_of_writev_once then left else max_count_of_writev_once

abbrev pub batch : List (List ℕ) → ℕ → List ℕ
batch iovecs blocks = concat (take (blocks_once (length iovecs - blocks)) (drop blocks iovecs))

abbrev pub expected_write_len : List (List ℕ) → ℕ → ℕ
expected_write_len iovecs blocks =
    length (concat (take (blocks_once (length iovecs - blocks) - blocks) (drop blocks iovecs)))

abbrev pub taken_bytes : Written → ℕ
taken_bytes (wrote n) = n
taken_bytes (write_failed errno) = 0

-- What follows one call: the loop ends, or goes on.
abbrev pub after_call :
    Written → ℕ → ℕ → List ℕ → Result (Written × List ℕ) → Result (Written × List ℕ)
after_call (write_failed errno) expected bytes taken more =
    ok (if is_transient errno then wrote bytes else write_failed errno, taken)
after_call (wrote n) expected bytes taken more =
    if ltb n expected then ok (wrote (bytes + n), taken) else more

-- The loop of `writev`, with the answer to the call at each number of written blocks: the result, and
-- the bytes that the kernel took.
unfoldable pub writev_from :
    ℕ → (ℕ → Written) → List (List ℕ) → ℕ → ℕ → List ℕ → Result (Written × List ℕ)
writev_from zero answers iovecs blocks bytes taken = err diverges
writev_from (suc fuel) answers iovecs blocks bytes taken =
    let n = taken_bytes (answers blocks) in
    let taken' = taken ++ take n (batch iovecs blocks) in
    let more =
      writev_from fuel answers iovecs (blocks + blocks_once (length iovecs - blocks)) (bytes + n)
        taken' in
    if leb (length iovecs) blocks
    then ok (wrote bytes, taken)
    else after_call (answers blocks) (expected_write_len iovecs blocks) bytes taken' more

-- Every round but the last writes a block at least, so this many rounds are enough.
unfoldable pub writev : (ℕ → Written) → List (List ℕ) → Result (Written × List ℕ)
unfolding writev_from
writev answers iovecs = writev_from (suc (length iovecs)) answers iovecs 0 0 []

-- `erase(it)` leaves `it` at the next buffer, as vectors do.
unfoldable pub remove_sent_buffer : List ByteBuffer → ℕ → List ByteBuffer
remove_sent_buffer [] written_bytes = []
remove_sent_buffer (b ∷ bs) written_bytes =
    let rest = remove_sent_buffer bs (written_bytes - readable_bytes b) in
    if written_bytes == 0
    then b ∷ bs
    else if leb (readable_bytes b) written_bytes
    then rest
    else set_reader_index b (b.reader_index + written_bytes) ∷ bs

-- The callbacks of the queue that are not null, each as a task.
unfoldable pub add_callbacks : SocketChannel → List (Option ℕ) → SocketChannel
unfolding add_callback
add_callbacks c [] = record c { write_complete_callbacks = [] }
add_callbacks c (callback ∷ callbacks) = add_callbacks (add_callback c callback) callbacks

abbrev pub set_events : SocketChannel → Events → SocketChannel
set_events c events = act (record c { events = events }) (modifies events)

unfoldable pub flushed : SocketChannel → SocketChannel
unfolding add_callbacks channel_in_active is_half_close
flushed c =
    let c' = add_callbacks (record c { write_buffer = [] }) c.write_complete_callbacks in
    if is_half_close c.state
    then channel_in_active c'
    else set_events c' (record { reads = true; writes = false })

abbrev pub total_bytes : List ByteBuffer → ℕ
total_bytes [] = 0
total_bytes (b ∷ bs) = readable_bytes b + total_bytes bs

-- What follows `writev`.
unfoldable pub after_writev : SocketChannel → Written → SocketChannel
unfolding flushed remove_sent_buffer handle_error
after_writev c (write_failed errno) = handle_error c errno
after_writev c (wrote n) =
    if total_bytes c.write_buffer == n
    then flushed c
    else record c { write_buffer = remove_sent_buffer c.write_buffer n }

unfoldable pub handle_write_event : SocketChannel → (ℕ → Written) → Result SocketChannel
unfolding writev after_writev is_inactive
handle_write_event c answers =
    if is_inactive c.state
    then ok c
    else (writev answers (map contents c.write_buffer) >>= λ (answer, taken).
        ok (after_writev (record c { sent = c.sent ++ taken }) answer))
