-- ===== src/ByteBuffer/Copies.antt =====
-- Whole buffers: the copy and move operations, `swap`, `writeByteBuffer`, and the `writeBytes` that
-- read from a channel.
use nets.Prelude.{
  ℕ, ◌+◌, ◌-◌, ◌^◌, ◌≤◌, ◌≡◌, ap, sym, ◌∙◌, List, [], ◌++◌, arith, length, take, drop, length-take,
  length-replicate, take_all, append-nil,
}
use nets.Memory.{
  Result, ok, err, ◌>>=◌, slice, splice, read_at, write_at, read_at-ok, write_at-ok, splice_whole,
}
use nets.ByteBuffer.{
  ByteBuffer, null_buffer, zeros, readable_bytes, ensure_writable, append_bytes, received, failed,
  store_received, write_bytes_from,
}
use nets.ByteBuffer.Content.{IsValid, contents}
use nets.ByteBuffer.Writes.{Ensured, Refused, ensure_writable-Ensured, append_bytes-ok}

-- `ByteBuffer(const ByteBuffer& other)`, and `operator=` for another object.
pub copy_construct : ByteBuffer → Result ByteBuffer
copy_construct other = do
  bytes ← read_at other.buffer 0 other.capacity
  m ← write_at (zeros other.capacity) 0 bytes
  ok (record other { buffer = m })

-- `ByteBuffer(ByteBuffer&& other)`: the new buffer, and what is left of the other.
unfoldable pub move_construct : ByteBuffer → ByteBuffer × ByteBuffer
move_construct other = (other, null_buffer)

-- `operator=(ByteBuffer&& other)` for another object: this buffer's old state is lost.
unfoldable pub move_assign : ByteBuffer → ByteBuffer → ByteBuffer × ByteBuffer
move_assign this other = (other, null_buffer)

pub swap : ByteBuffer → ByteBuffer → ByteBuffer × ByteBuffer
swap this other = (
  record {
    buffer = other.buffer;
    reader_index = other.reader_index;
    writer_index = other.writer_index;
    capacity = other.capacity;
  },
  record {
    buffer = this.buffer;
    reader_index = this.reader_index;
    writer_index = this.writer_index;
    capacity = this.capacity;
  },
)

-- `writeBytes(&byteBuffer.buffer_[readerIndex_], byteBuffer.readableBytes())`, in which
-- `readerIndex_` is the index of the buffer that is written to.
pub write_byte_buffer : ByteBuffer → ByteBuffer → Result ByteBuffer
write_byte_buffer b other = do
  b' ← ensure_writable b (readable_bytes other)
  bytes ← read_at other.buffer b.reader_index (readable_bytes other)
  append_bytes b' bytes

-- A copy of a valid buffer has the same bytes, indices and capacity.
pub copy_construct-eq : (b : ByteBuffer) → IsValid b → copy_construct b ≡ ok b
unfolding copy_construct
copy_construct-eq b v =
    rw (read_at-ok b.buffer 0 b.capacity (omega (arith, v.stored)))
      (rw (write_at-ok (zeros b.capacity) 0 (take b.capacity b.buffer) fits) same)
  where
    fits : 0 + length (take b.capacity b.buffer) ≤ length (zeros b.capacity)
    fits =
        omega
          (arith, v.stored, length-take b.capacity b.buffer, length-replicate {A = ℕ} b.capacity 0)

    whole : take b.capacity b.buffer ≡ b.buffer
    whole = take_all b.capacity b.buffer (omega (arith, v.stored))

    copied : splice (zeros b.capacity) 0 (take b.capacity b.buffer) ≡ b.buffer
    copied =
        ap (splice (zeros b.capacity) 0) whole
        ∙ splice_whole (zeros b.capacity) b.buffer
            (omega (arith, v.stored, length-replicate {A = ℕ} b.capacity 0))

    same : ok (record b { buffer = splice (zeros b.capacity) 0 (take b.capacity b.buffer) }) ≡ ok b
    same = ap (λ m. ok (record b { buffer = m })) copied

-- The bytes `d` were stored behind the content, after a request for `len`.
abbrev pub Stored : ByteBuffer → ℕ → List ℕ → Result ByteBuffer → Type 0
Stored b len d (ok b') = IsValid b' × (contents b' ≡ contents b ++ d)
Stored b len d (err e) = Refused b len e

module _ (b : ByteBuffer) (len : ℕ) (v : IsValid b) (fit : b.writer_index + len ≤ 2 ^ 63) where
  -- What an append after `ensureWritable` does to the first buffer.
  appended_after :
      (d : List ℕ) (r : Result ByteBuffer)
      → length d ≤ len
      → Ensured b len r
      → Stored b len d (r >>= λ b'. append_bytes b' d)
  appended_after d (ok b') short (v', same, room, cap) =
      let (b'', e, v'', more, held) = append_bytes-ok b' d v' (omega arith) in
      rw e (v'', more ∙ ap (λ l. l ++ d) same)
  appended_after d (err e) short refused = refused

  -- For a valid buffer and a request that ends within 2 ^ 63, `writeBytes` from a channel appends
  -- what the system call stored, at most the bytes asked for, and keeps the invariant, or throws
  -- before the call since the capacity needed is over the limit.
  pub write_bytes_from-Stored :
      (bytes : List ℕ)
      → length bytes ≤ len
      → Stored b len bytes (write_bytes_from b len (received bytes))
  unfolding write_bytes_from
  write_bytes_from-Stored bytes short =
      appended_after bytes (ensure_writable b len) short (ensure_writable-Ensured b len v fit)

  -- A call that fails leaves the content as it was.
  pub write_bytes_from-failed :
      (errno : ℕ) → Stored b len [] (write_bytes_from b len (failed errno))
  unfolding write_bytes_from
  write_bytes_from-failed errno =
      after (ensure_writable b len) (ensure_writable-Ensured b len v fit)
    where
      after :
          (r : Result ByteBuffer)
          → Ensured b len r
          → Stored b len [] (r >>= λ b'. store_received b' (failed errno))
      after (ok b') (v', same, room, cap) = (v', same ∙ sym (append-nil (contents b)))
      after (err e) refused = refused

-- For valid buffers, a write that ends within 2 ^ 63, and bytes that lie in the other buffer's
-- array, `writeByteBuffer` appends the other buffer's bytes from this buffer's reader index on, as
-- many as are readable there, or throws since the capacity needed is over the limit.
write_byte_buffer-Stored :
    (b other : ByteBuffer)
    → IsValid b
    → IsValid other
    → b.writer_index + (other.writer_index - other.reader_index) ≤ 2 ^ 63
    → b.reader_index + (other.writer_index - other.reader_index) ≤ other.capacity
    → Stored b
        (other.writer_index - other.reader_index)
        (slice other.buffer b.reader_index (other.writer_index - other.reader_index))
        (write_byte_buffer b other)
unfolding write_byte_buffer
write_byte_buffer-Stored b other v w fit inside =
    let count : readable_bytes other ≡ other.writer_index - other.reader_index = omega arith in
    rw count (
      rw
        (read_at-ok other.buffer b.reader_index (other.writer_index - other.reader_index)
          (omega (arith, w.stored)))
        (appended_after b (other.writer_index - other.reader_index) v fit
          (slice other.buffer b.reader_index (other.writer_index - other.reader_index)) _
          (omega (
            arith,
            length-take (other.writer_index - other.reader_index)
                (drop b.reader_index other.buffer),
          ))
          (ensure_writable-Ensured b (other.writer_index - other.reader_index) v fit)))
