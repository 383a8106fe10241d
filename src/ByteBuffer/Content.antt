-- ===== src/ByteBuffer/Content.antt =====
-- What a buffer holds between its two indices, and how `adjustCapacity` moves it.
use nets.Prelude.{
  ℕ, ◌-◌, ◌^◌, ◌≤◌, ◌≡◌, refl, ap, sym, ◌∙◌, inl, inr, true, not, List, arith, ◌==◌, ==_iff,
  if◌then◌else◌, Bool-cases, length, length-take, length-drop, length-replicate, drop,
}
use nets.Memory.{ok, slice, splice, read_at-ok, write_at-ok, length-splice, slice-splice}
use nets.ByteBuffer.{ByteBuffer, zeros, readable_bytes, copy_content, adjust_capacity}

pub record IsValid (b : ByteBuffer) : Type 0 where
  pub ordered : b.reader_index ≤ b.writer_index
  pub within : b.writer_index ≤ b.capacity
  pub stored : length b.buffer ≡ b.capacity
  pub addressable : b.capacity ≤ 2 ^ 63

-- The readable bytes, oldest first.
abbrev pub contents : ByteBuffer → List ℕ
contents b = slice b.buffer b.reader_index (b.writer_index - b.reader_index)

pub length-contents :
    (b : ByteBuffer) → IsValid b → length (contents b) ≡ b.writer_index - b.reader_index
length-contents b v = omega (
  arith,
  length-take (b.writer_index - b.reader_index) (drop b.reader_index b.buffer),
  length-drop b.reader_index b.buffer,
)

pub record Adjusted (b : ByteBuffer) (n : ℕ) (b' : ByteBuffer) : Type 0 where
  pub valid : IsValid b'
  pub same : contents b' ≡ contents b
  pub reader : b'.reader_index ≡ 0
  pub writer : b'.writer_index ≡ b.writer_index - b.reader_index
  pub room : b'.capacity ≡ n

-- The array that `adjustCapacity` copies into.
abbrev target_array : ByteBuffer → ℕ → List ℕ
target_array b n = if not (n == b.capacity) then zeros n else b.buffer

length-target_array : (b : ByteBuffer) (n : ℕ) → IsValid b → length (target_array b n) ≡ n
length-target_array b n v = ground (arith, length-replicate {A = ℕ} n 0)

copy_content-ok : (b : ByteBuffer) → IsValid b → copy_content b ≡ ok (contents b)
unfolding copy_content
copy_content-ok b v = elim (Bool-cases (readable_bytes b == 0)) [
  | inl none_left ↦
      rw none_left (ap (λ k. ok (slice b.buffer b.reader_index k)) (zero_left none_left))
  | inr some_left ↦ rw some_left (
      read_at-ok b.buffer b.reader_index (readable_bytes b) (omega arith)
      ∙ ap (λ k. ok (slice b.buffer b.reader_index k)) count)
]
  where
    count : readable_bytes b ≡ b.writer_index - b.reader_index
    count = omega arith

    zero_left : (readable_bytes b == 0) ≡ true → 0 ≡ b.writer_index - b.reader_index
    zero_left e = sym ((==_iff _ _).0 e) ∙ count

-- The readable bytes are copied, and the rest of the state follows.
adjust_capacity-copies :
    (b : ByteBuffer) (n : ℕ)
    → IsValid b
    → b.writer_index - b.reader_index ≤ n
    → adjust_capacity b n
      ≡ ok (record {
        buffer = splice (target_array b n) 0 (contents b);
        reader_index = 0;
        writer_index = b.writer_index - b.reader_index;
        capacity = n;
      })
unfolding adjust_capacity
adjust_capacity-copies b n v h = rw (copy_content-ok b v) (
    rw
      (write_at-ok (target_array b n) 0 (contents b)
        (omega (arith, length-contents b v, length-target_array b n v)))
      (ap ok (fields (readable_bytes b) (omega arith) _ room)))
  where
    room : (if not (n == b.capacity) then n else b.capacity) ≡ n
    room = ground arith

    fields :
        (w : ℕ)
        → w ≡ b.writer_index - b.reader_index
        → (c : ℕ) → c ≡ n
        → ◌≡◌ {A = ByteBuffer}
            (record {
              buffer = splice (target_array b n) 0 (contents b);
              reader_index = 0;
              writer_index = w;
              capacity = c;
            })
            (record {
              buffer = splice (target_array b n) 0 (contents b);
              reader_index = 0;
              writer_index = b.writer_index - b.reader_index;
              capacity = n;
            })
    fields w p c q = cc

pub adjust_capacity-Adjusted :
    (b : ByteBuffer) (n : ℕ)
    → IsValid b
    → n ≤ 2 ^ 63
    → b.writer_index - b.reader_index ≤ n
    → (b' : ByteBuffer) × (adjust_capacity b n ≡ ok b') × Adjusted b n b'
adjust_capacity-Adjusted b n v small h = (
  _,
  adjust_capacity-copies b n v h,
  record {
    valid = record {
      ordered = omega arith;
      within = h;
      stored = length-splice (target_array b n) 0 (contents b) (omega (arith, len, count)) ∙ len;
      addressable = small;
    };
    same =
        ap (slice (splice (target_array b n) 0 (contents b)) 0) (omega arith)
        ∙ slice-splice (target_array b n) 0 0 (b.writer_index - b.reader_index) (contents b)
            (omega arith) (omega (arith, len, count)) (omega (arith, count));
    reader = refl;
    writer = refl;
    room = refl;
  },
)
  where
    len : length (target_array b n) ≡ n
    len = length-target_array b n v

    count : length (contents b) ≡ b.writer_index - b.reader_index
    count = length-contents b v
