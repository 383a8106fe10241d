-- ===== src/ByteBuffer/Reads.antt =====
-- `readBytes`, `checkReadableBytes` and `adjustReaderIndex`.
use nets.Prelude.{
  ℕ, ◌+◌, ◌-◌, ◌≤◌, ◌<◌, ◌≡◌, refl, ap, sym, ◌∙◌, ◌⊎◌, inl, inr, List, ◌++◌, arith, ltb, ltb→lt,
  Bool-cases, length, length-take, length-drop, append-nil, take, drop, take-add, drop-drop,
}
use nets.Memory.{ok, err, index_out_of_bounds, add_size, slice, read_at-ok}
use nets.ByteBuffer.{
  ByteBuffer, readable_bytes, check_readable_bytes, adjust_reader_index, read_bytes,
}
use nets.ByteBuffer.Content.{IsValid, contents, length-contents}

adjust_reader_index_lem :
    (b : ByteBuffer) (len : ℕ)
    → IsValid b
    → b.reader_index + len ≤ b.writer_index
    → IsValid (adjust_reader_index b len)
      × (contents b ≡ slice b.buffer b.reader_index len ++ contents (adjust_reader_index b len))
unfolding adjust_reader_index
adjust_reader_index_lem b len v h = elim (Bool-cases (ltb len (readable_bytes b))) [
  | inl some_left ↦
      let no_wrap : add_size b.reader_index len ≡ b.reader_index + len = omega arith in
      let below : len < readable_bytes b = ltb→lt _ _ some_left in
      rw (some_left, no_wrap)
        (
          record {
            ordered = omega arith;
            within = v.within;
            stored = v.stored;
            addressable = v.addressable;
          },
          take-add len (b.writer_index - (b.reader_index + len)) _ (drop b.reader_index b.buffer)
                (omega arith)
              ∙ ap
                  (λ l.
                    slice b.buffer b.reader_index len
                    ++ take (b.writer_index - (b.reader_index + len)) l)
                  (drop-drop b.reader_index len _ b.buffer refl),
        )
  | inr none_left ↦
      let all : b.writer_index - b.reader_index ≡ len = ground arith in
      rw none_left (
        record {
          ordered = omega arith;
          within = omega arith;
          stored = v.stored;
          addressable = v.addressable;
        },
        ap (slice b.buffer b.reader_index) all ∙ sym (append-nil _),
      )
]

-- What a successful read of `len` bytes returns and leaves.
pub record Taken (b : ByteBuffer) (len : ℕ) (out : List ℕ) (b' : ByteBuffer) : Type 0 where
  pub valid : IsValid b'
  pub count : length out ≡ len
  pub split : contents b ≡ out ++ contents b'

-- On a valid buffer `readBytes` takes the oldest bytes and leaves the others where that many are
-- readable, and else throws with the length asked for.
pub read_bytes-Taken :
    (b : ByteBuffer) (len : ℕ)
    → IsValid b
    → ((len ≤ length (contents b))
        × (out : List ℕ) × (b' : ByteBuffer) × (read_bytes b len ≡ ok (out, b'))
        × Taken b len out b')
      ⊎ ((length (contents b) < len) × (read_bytes b len ≡ err (index_out_of_bounds len)))
unfolding read_bytes check_readable_bytes
read_bytes-Taken b len v = elim (Bool-cases (ltb (readable_bytes b) len)) [
  | inl lacking ↦ inr (omega (arith, held, ltb→lt _ _ lacking), rw lacking)
  | inr enough ↦
      let below : b.reader_index + len ≤ b.writer_index = ground arith in
      let (v', split) = adjust_reader_index_lem b len v below in
      inl (
        omega (arith, held),
        slice b.buffer b.reader_index len,
        adjust_reader_index b len,
        rw (enough, read_at-ok b.buffer b.reader_index len (omega arith)) refl,
        record {
          valid = v';
          count = omega (
            arith,
            length-take len (drop b.reader_index b.buffer),
            length-drop b.reader_index b.buffer,
          );
          split = split;
        },
      )
]
  where
    held : length (contents b) ≡ b.writer_index - b.reader_index
    held = length-contents b v
