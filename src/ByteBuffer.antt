-- ===== src/ByteBuffer.antt =====
-- nets/net/core/ByteBuffer.h and ByteBuffer.cpp: a growing byte buffer with a reader and a writer
-- index. A method returns the new buffer, and `err` where the source throws, never returns or copies
-- outside of its memory. `make_unique` always finds the memory it asks for.
pub mod Growth
pub mod Content
pub mod Writes
pub mod Reads
pub mod Values
pub mod Copies
pub mod Front
mod Tests
use nets.Prelude.{
  ℕ, zero, suc, ◌-◌, ◌*◌, ◌%◌, ◌^◌, Bool, not, Option, none, some, List, [], ltb, ◌==◌,
  if◌then◌else◌, length, replicate,
}
use nets.Memory.{
  Result, ok, err, out_of_memory, index_out_of_bounds, diverges, ◌>>=◌, ◌>>◌, add_size, sub_size,
  size_mod, read_at, write_at,
}

-- `buffer` is empty where the source holds a null pointer.
pub record ByteBuffer : Type 0 where
  pub buffer : List ℕ
  pub reader_index : ℕ
  pub writer_index : ℕ
  pub capacity : ℕ

abbrev pub default_initial_capacity : ℕ
default_initial_capacity = 1024

abbrev pub max_capacity : ℕ
max_capacity = 2 ^ 31 - 2

-- `make_unique` and `MEMZERO`
abbrev zeros : ℕ → List ℕ
zeros n = replicate n 0

-- `ByteBuffer(SizeType capacity)`
unfoldable pub with_capacity : ℕ → ByteBuffer
with_capacity n = record { buffer = zeros n; reader_index = 0; writer_index = 0; capacity = n }

abbrev pub null_buffer : ByteBuffer
null_buffer = record { buffer = []; reader_index = 0; writer_index = 0; capacity = 0 }

abbrev pub discard_read_bytes : ByteBuffer → ℕ
discard_read_bytes b = b.reader_index

abbrev pub readable_bytes : ByteBuffer → ℕ
readable_bytes b = sub_size b.writer_index b.reader_index

abbrev pub writable_bytes : ByteBuffer → ℕ
writable_bytes b = sub_size b.capacity b.writer_index

abbrev pub is_readable : ByteBuffer → Bool
is_readable b = ltb b.reader_index b.writer_index

abbrev pub is_writable : ByteBuffer → Bool
is_writable b = ltb b.writer_index b.capacity

abbrev pub set_reader_index : ByteBuffer → ℕ → ByteBuffer
set_reader_index b i = record b { reader_index = i }

abbrev pub set_writer_index : ByteBuffer → ℕ → ByteBuffer
set_writer_index b i = record b { writer_index = i }

abbrev pub is_empty : ByteBuffer → Bool
is_empty b = b.reader_index == b.writer_index

abbrev pub clear : ByteBuffer → ByteBuffer
clear b = record b { reader_index = 0; writer_index = 0 }

-- `while (newCapacity < targetCapacity) newCapacity <<= 1`, with fuel; `none` when that runs out.
pub double_until : ℕ → ℕ → ℕ → Option ℕ
double_until zero target new_capacity = none
double_until (suc fuel) target new_capacity =
    let rest = double_until fuel target (new_capacity * 2 % size_mod) in
    if ltb new_capacity target then rest else some new_capacity

-- The tests meet 1, 2, 4 up to 2 ^ 63, then 0 for ever: fuel 64 decides whether the loop ends.
abbrev or_diverges : Option ℕ → Result ℕ
or_diverges none = err diverges
or_diverges (some n) = ok n

pub calculate_new_capacity : ℕ → Result ℕ
calculate_new_capacity target = if target == 0 then ok 0 else or_diverges (double_until 64 target 1)

copy_content : ByteBuffer → Result (List ℕ)
copy_content b =
    if readable_bytes b == 0 then ok [] else read_at b.buffer b.reader_index (readable_bytes b)

-- The content moves to the front, of a new array or of this one.
pub adjust_capacity : ByteBuffer → ℕ → Result ByteBuffer
unfolding copy_content
adjust_capacity b new_capacity = do
  let grows = not (new_capacity == b.capacity)
  content ← copy_content b
  new_buffer ← write_at (if grows then zeros new_capacity else b.buffer) 0 content
  ok (record {
    buffer = new_buffer;
    reader_index = 0;
    writer_index = readable_bytes b;
    capacity = if grows then new_capacity else b.capacity;
  })

-- The capacity that `ensureWritable` asks for.
needed_capacity : ByteBuffer → ℕ → Result ℕ
needed_capacity b write_len =
    if b.capacity == 0
    then calculate_new_capacity write_len
    else if ltb (add_size (writable_bytes b) (discard_read_bytes b)) write_len
    then calculate_new_capacity (add_size b.writer_index write_len)
    else ok b.capacity

-- The limit is checked only for a buffer that has a capacity.
check_capacity : ByteBuffer → ℕ → Result ℕ
check_capacity b new_capacity =
    if b.capacity == 0
    then ok new_capacity
    else if ltb max_capacity new_capacity
    then err (out_of_memory new_capacity)
    else ok new_capacity

unfoldable pub ensure_writable : ByteBuffer → ℕ → Result ByteBuffer
unfolding needed_capacity check_capacity
ensure_writable b write_len =
    if ltb (writable_bytes b) write_len
    then (needed_capacity b write_len >>= λ n. check_capacity b n >>= adjust_capacity b)
    else ok b

-- The copy behind the writer index.
pub append_bytes : ByteBuffer → List ℕ → Result ByteBuffer
append_bytes b data_bytes = do
  m ← write_at b.buffer b.writer_index data_bytes
  ok (record b { buffer = m; writer_index = add_size b.writer_index (length data_bytes) })

pub write_bytes : ByteBuffer → List ℕ → Result ByteBuffer
unfolding append_bytes
write_bytes b data_bytes = do b' ← ensure_writable b (length data_bytes); append_bytes b' data_bytes

-- `ByteBuffer(const void* data, SizeType length)`
unfoldable pub from_bytes : List ℕ → Result ByteBuffer
from_bytes data_bytes = write_bytes null_buffer data_bytes

-- What `read` or `recvFrom` returns: the bytes that it stored, or the error number.
pub data Received : Type 0 where
  received : List ℕ → Received
  failed : ℕ → Received

-- `writeBytes` from a channel. A failed call leaves the indices.
abbrev pub store_received : ByteBuffer → Received → Result ByteBuffer
store_received b (received bytes) = append_bytes b bytes
store_received b (failed errno) = ok b

unfoldable pub write_bytes_from : ByteBuffer → ℕ → Received → Result ByteBuffer
unfolding append_bytes
write_bytes_from b len r = do b' ← ensure_writable b len; store_received b' r

pub check_readable_bytes : ByteBuffer → ℕ → Result (Unit {0})
check_readable_bytes b bytes =
    if ltb (readable_bytes b) bytes then err (index_out_of_bounds bytes) else ok tt

pub adjust_reader_index : ByteBuffer → ℕ → ByteBuffer
adjust_reader_index b bytes =
    if ltb bytes (readable_bytes b)
    then record b { reader_index = add_size b.reader_index bytes }
    else clear b

pub read_bytes : ByteBuffer → ℕ → Result (List ℕ × ByteBuffer)
unfolding check_readable_bytes adjust_reader_index
read_bytes b len = do
  check_readable_bytes b len
  bytes ← read_at b.buffer b.reader_index len
  ok (bytes, adjust_reader_index b len)

pub to_string : ByteBuffer → Result (List ℕ)
to_string b = read_at b.buffer b.reader_index (readable_bytes b)
