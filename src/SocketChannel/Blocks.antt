-- ===== src/SocketChannel/Blocks.antt =====
-- `removeSentBuffer` and `writev`, against the bytes that wait to be sent.
use nets.Prelude.{
  ℕ, zero, suc, ◌+◌, ◌-◌, ◌≤◌, ◌<◌, ◌≡◌, refl, ap, sym, ◌∙◌, inl, inr, List, [], ◌∷◌, ◌++◌, arith,
  All, Bool-cases, length, leb, ◌==◌, map, take, drop, length-append, drop_all, leb→le, ==_iff,
  drop-drop, drop-take, drop-append_of_le,
}
use nets.ByteBuffer.{ByteBuffer, readable_bytes, set_reader_index}
use nets.ByteBuffer.Content.{IsValid, contents, length-contents}
use nets.SocketChannel.Output.{concat, remove_sent_buffer, total_bytes}

-- What waits to be sent.
abbrev pub pending : List ByteBuffer → List ℕ
pending bs = concat (map contents bs)

-- A valid buffer with something to send.
pub record IsFilled (b : ByteBuffer) : Type 0 where
  pub valid : IsValid b
  pub some_left : b.reader_index < b.writer_index

readable_bytes-length : (b : ByteBuffer) → IsValid b → readable_bytes b ≡ length (contents b)
readable_bytes-length b v = omega (arith, length-contents b v, v.ordered, v.within, v.addressable)

pub total_bytes-length :
    (bs : List ByteBuffer) → All IsFilled bs → total_bytes bs ≡ length (pending bs)
total_bytes-length [] f = refl
total_bytes-length (b ∷ bs) f = omega (
  arith,
  readable_bytes-length b f.0.valid,
  total_bytes-length bs f.1,
  length-append (contents b) (pending bs),
)

drop_past : (n : ℕ) (xs ys : List ℕ) → length xs ≤ n → drop n (xs ++ ys) ≡ drop (n - length xs) ys
drop_past n [] ys h = ap (λ m. drop m ys) (omega arith)
drop_past zero (x ∷ xs) ys h = absurd (omega arith)
drop_past (suc n) (x ∷ xs) ys h =
    drop_past n xs ys (omega arith) ∙ ap (λ m. drop m ys) (omega arith)

pub record Removed (bs bs' : List ByteBuffer) (n : ℕ) : Type 0 where
  pub rest : pending bs' ≡ drop n (pending bs)
  pub filled : All IsFilled bs'

advanced-IsFilled :
    (b : ByteBuffer) (n : ℕ)
    → IsFilled b
    → n < readable_bytes b
    → IsFilled (set_reader_index b (b.reader_index + n))
      × (contents (set_reader_index b (b.reader_index + n)) ≡ drop n (contents b))
advanced-IsFilled b n f less =
    let v = f.valid in
    let below : b.reader_index + n < b.writer_index =
      omega (arith, v.ordered, v.within, v.addressable, less) in
    (
      record {
        valid = record {
          ordered = omega (arith, below);
          within = v.within;
          stored = v.stored;
          addressable = v.addressable;
        };
        some_left = below;
      },
      ap (λ k. take k (drop (b.reader_index + n) b.buffer)) (omega arith)
          ∙ ap (take (b.writer_index - b.reader_index - n))
              (sym (drop-drop b.reader_index n _ b.buffer refl))
          ∙ sym (drop-take n (b.writer_index - b.reader_index) (drop b.reader_index b.buffer)),
    )

-- Of valid buffers with something to send, `removeSentBuffer` drops exactly the bytes sent and keeps
-- only such buffers.
pub remove_sent_buffer-Removed :
    (bs : List ByteBuffer) (n : ℕ) → All IsFilled bs → Removed bs (remove_sent_buffer bs n) n
unfolding remove_sent_buffer
remove_sent_buffer-Removed [] n f = record { rest = sym (drop_all n [] (omega arith)); filled = tt }
remove_sent_buffer-Removed (b ∷ bs) n f = elim (Bool-cases (n == 0)) [
  | inl done ↦ rw done (record {
    rest = ap (λ k. drop k (pending (b ∷ bs))) (sym ((==_iff n 0).0 done));
    filled = f;
  })
  | inr more ↦ elim (Bool-cases (leb (readable_bytes b) n)) [
    | inl whole ↦
        let later = remove_sent_buffer-Removed bs (n - readable_bytes b) f.1 in
        let count = readable_bytes-length b f.0.valid in
        rw (more, whole)
          (record {
            rest =
                later.rest
                ∙ ap (λ k. drop (n - k) (pending bs)) count
                ∙ sym (
                    drop_past n (contents b) (pending bs) (omega (arith, leb→le _ _ whole, count)));
            filled = later.filled;
          })
    | inr part ↦
        let less : n < readable_bytes b = ground arith in
        let (filled, rest) = advanced-IsFilled b n f.0 less in
        rw (more, part)
          (record {
            rest =
                ap (λ l. l ++ pending bs) rest
                ∙ sym (
                    drop-append_of_le n (contents b) (pending bs)
                      (omega (arith, less, readable_bytes-length b f.0.valid)));
            filled = (filled, f.1);
          })
  ]
]
