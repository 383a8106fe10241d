-- ===== src/SocketChannel.antt =====
-- nets/net/channel/SocketChannel.h and SocketChannel.cpp: the connected channel, its list of buffers
-- that wait to be sent, and its state. What the system calls answer is an argument. `sent` holds the
-- bytes that the kernel took, and `actions` what the channel did to the loop, the poller and its
-- handlers, each in order.
pub mod Output
pub mod Input
pub mod Blocks
pub mod Vectors
pub mod Stream
pub mod Sends
pub mod Flush
pub mod ReadEvents
pub mod Gathers
pub mod Active
pub mod Runs
pub mod Threads
mod Tests
use nets.Prelude.{
  ℕ, zero, suc, ◌+◌, ◌-◌, Bool, true, false, not, ◌||◌, Option, none, some, List, [], ◌∷◌, ◌++◌,
  map, ltb, leb, ◌==◌, if◌then◌else◌, length, take, drop,
}
use nets.Memory.{Result, ok, err, invalid_access, diverges, ◌>>=◌, sub_size, slice}
use nets.ByteBuffer.{
  ByteBuffer, with_capacity, readable_bytes, writable_bytes, set_reader_index, write_bytes,
  from_bytes, Received, received, failed, write_bytes_from,
}
use nets.ByteBuffer.Content.{contents}

pub data ChannelState : Type 0 where
  inactive active half_close : ChannelState

pub is_inactive : ChannelState → Bool
is_inactive inactive = true
is_inactive active = false
is_inactive half_close = false

pub is_half_close : ChannelState → Bool
is_half_close inactive = false
is_half_close active = false
is_half_close half_close = true

-- The bits `kReadEvent` and `kWriteEvent` of `events_`.
pub record Events : Type 0 where
  pub reads : Bool
  pub writes : Bool

pub data How : Type 0 where
  both read_side write_side : How

pub data Action : Type 0 where
  modifies : Events → Action
  fires_read : ByteBuffer → Action
  fires_connect : Action
  fires_disconnect : Action
  adds_callback : ℕ → Action
  adds_deregister : Action
  shuts : How → Action

pub record SocketChannel : Type 0 where
  pub state : ChannelState
  pub events : Events
  pub write_buffer : List ByteBuffer
  pub write_complete_callbacks : List (Option ℕ)
  pub sent : List ℕ
  pub actions : List Action

-- `write` and `writev`: the count of bytes, or the error number.
pub data Written : Type 0 where
  wrote : ℕ → Written
  write_failed : ℕ → Written

-- `EAGAIN` and `EINTR`
pub is_transient : ℕ → Bool
is_transient errno = errno == 11 || errno == 4

-- `IOV_MAX >> 2`
abbrev pub max_count_of_writev_once : ℕ
max_count_of_writev_once = 256

abbrev pub recv_buffer_size : ℕ
recv_buffer_size = 16384

abbrev pub act : SocketChannel → Action → SocketChannel
act c a = record c { actions = c.actions ++ (a ∷ []) }

unfoldable pub channel_in_active : SocketChannel → SocketChannel
channel_in_active c = act (act (record c { state = inactive }) fires_disconnect) adds_deregister

-- `handleReadError` and `handleWriteError` are the same but for their messages.
unfoldable pub handle_error : SocketChannel → ℕ → SocketChannel
unfolding channel_in_active
handle_error c errno = if is_transient errno then c else channel_in_active c

-- `appendBuffer`, as far as the buffers go: the last one where it has room, or a new one behind it.
unfoldable pub append_to : List ByteBuffer → List ℕ → Result (List ByteBuffer)
append_to [] bytes = from_bytes bytes >>= λ b. ok (b ∷ [])
append_to (b ∷ []) bytes =
    if leb (length bytes) (writable_bytes b)
    then (write_bytes b bytes >>= λ b'. ok (b' ∷ []))
    else (from_bytes bytes >>= λ b'. ok (b ∷ b' ∷ []))
append_to (b ∷ b' ∷ bs) bytes = append_to (b' ∷ bs) bytes >>= λ bs'. ok (b ∷ bs')

abbrev with_write_event : SocketChannel → SocketChannel
with_write_event c = record c { events = record c.events { writes = true } }

unfoldable pub append_buffer : SocketChannel → List ℕ → Result SocketChannel
unfolding append_to
append_buffer c bytes = append_to c.write_buffer bytes >>= λ bs.
    let c' = record c { write_buffer = bs } in
    ok (
      if not c.events.writes
      then act (with_write_event c') (modifies (record c.events { writes = true }))
      else c')

abbrev push_callback : SocketChannel → Option ℕ → SocketChannel
push_callback c callback = record c {
  write_complete_callbacks = c.write_complete_callbacks ++ (callback ∷ []);
}

unfoldable pub add_callback : SocketChannel → Option ℕ → SocketChannel
add_callback c none = c
add_callback c (some f) = act c (adds_callback f)

-- What follows the call of `write`, of whose bytes `n` were taken.
unfoldable pub finish_write : SocketChannel → List ℕ → ℕ → Option ℕ → Result SocketChannel
unfolding append_buffer add_callback
finish_write c bytes n callback =
    if sub_size (length bytes) n == 0
    then ok (add_callback c callback)
    else (append_buffer c (drop n bytes) >>= λ c'. ok (push_callback c' callback))

-- After another error than `EAGAIN` and `EINTR` the source goes on with a count of -1, and appends from
-- the byte in front of the data on, which is outside of it.
unfoldable pub do_write_directly :
    SocketChannel → List ℕ → Option ℕ → Written → Result SocketChannel
unfolding finish_write is_transient
do_write_directly c bytes callback (wrote n) =
    finish_write (record c { sent = c.sent ++ take n bytes }) bytes n callback
do_write_directly c bytes callback (write_failed errno) =
    if is_transient errno then finish_write c bytes 0 callback else err invalid_access

unfoldable pub write_behind :
    SocketChannel → List ByteBuffer → List ℕ → Option ℕ → Written → Result SocketChannel
unfolding do_write_directly append_buffer
write_behind c [] bytes callback answer = do_write_directly c bytes callback answer
write_behind c (b ∷ bs) bytes callback answer =
    append_buffer c bytes >>= λ c'. ok (push_callback c' callback)

unfoldable pub do_write : SocketChannel → List ℕ → Option ℕ → Written → Result SocketChannel
unfolding is_inactive write_behind
do_write c bytes callback answer =
    if is_inactive c.state
    then ok c
    else if length bytes == 0
    then ok c
    else write_behind c c.write_buffer bytes callback answer
