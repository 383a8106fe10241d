-- ===== src/StackBuffer/Copies.antt =====
-- Copies, moves and `swap` of stack buffers keep the bytes that were written.
use nets.Prelude.{
  ℕ, ◌+◌, ◌≤◌, ◌≡◌, refl, ap, sym, ◌∙◌, max, List, ◌++◌, arith, length, take, drop, replicate,
  length-take, length-replicate, take-append_of_le, take_all, take-append-drop,
}
use nets.Memory.{Result, ok, splice, read_at-ok, write_at-ok, length-splice}
use nets.StackBuffer.{StackBuffer, copy_construct, copy_assign, swap, zero_front}
use nets.StackBuffer.Prints.{contents, IsValid}

take_prefix : (k : ℕ) (xs ys : List ℕ) → k ≡ length xs → take k (xs ++ ys) ≡ xs
take_prefix k xs ys e = take-append_of_le k xs ys (omega arith) ∙ take_all k xs (omega arith)

written_front : (m d : List ℕ) (n : ℕ) → n ≡ length d → take n (splice m 0 d) ≡ d
written_front m d n e = take_prefix n d (drop (0 + length d) m) e

length-contents :
    (size : ℕ) (b : StackBuffer) → IsValid size b → length (contents b) ≡ b.writer_index
length-contents size b v = omega (arith, length-take b.writer_index b.buffer, v.stored, v.within)

-- A result that has the bytes `d` and no others.
abbrev pub Has : ℕ → List ℕ → Result StackBuffer → Type 0
Has size d r = (b : StackBuffer) × (r ≡ ok b) × IsValid size b × (contents b ≡ d)

-- A copy has the bytes that were written to the other buffer.
pub copy_construct-Has :
    (size : ℕ) (other : StackBuffer)
    → IsValid size other
    → Has size (contents other) (copy_construct size other)
unfolding copy_construct
copy_construct-Has size other v =
    let count = length-contents size other v in
    let zeros = length-replicate {A = ℕ} size 0 in
    (
      record {
        buffer = splice (replicate size 0) 0 (contents other);
        writer_index = other.writer_index;
      },
      rw
          (
            read_at-ok other.buffer 0 other.writer_index (omega (arith, v.stored, v.within)),
            write_at-ok (replicate size 0) 0 (contents other)
                (omega (arith, count, v.within, zeros)),
          )
          refl,
      record {
        stored =
            length-splice (replicate size 0) 0 (contents other)
              (omega (arith, count, v.within, zeros))
            ∙ zeros;
        within = v.within;
        addressable = v.addressable;
      },
      written_front (replicate size 0) (contents other) other.writer_index (sym count),
    )

zero_front-ok :
    (size n : ℕ) (b : StackBuffer)
    → IsValid size b
    → n ≤ size
    → (m : List ℕ) × (zero_front b n ≡ ok m) × (length m ≡ size)
zero_front-ok size n b v h =
    let blanks = length-replicate {A = ℕ} n 0 in
    (
      splice b.buffer 0 (replicate n 0),
      write_at-ok b.buffer 0 (replicate n 0) (omega (arith, blanks, v.stored)),
      length-splice b.buffer 0 (replicate n 0) (omega (arith, blanks, v.stored)) ∙ v.stored,
    )

-- Between valid buffers, an assignment leaves the bytes that were written to the other buffer,
-- whatever was there before.
copy_assign-Has :
    (size : ℕ) (this other : StackBuffer)
    → IsValid size this
    → IsValid size other
    → Has size (contents other) (copy_assign size this other)
unfolding copy_assign
copy_assign-Has size this other w v =
    let count = length-contents size other v in
    let (zeroed, e, held) = zero_front-ok size this.writer_index this w w.within in
    let fits : 0 + length (contents other) ≤ length zeroed = omega (arith, held, count, v.within) in
    (
      record { buffer = splice zeroed 0 (contents other); writer_index = other.writer_index },
      rw e (
          rw (read_at-ok other.buffer 0 other.writer_index (omega (arith, v.stored, v.within)))
            (rw (write_at-ok zeroed 0 (contents other) fits) refl)),
      record {
        stored = length-splice zeroed 0 (contents other) fits ∙ held;
        within = v.within;
        addressable = v.addressable;
      },
      written_front zeroed (contents other) other.writer_index (sym count),
    )

take_front :
    (k n : ℕ) (xs ys : List ℕ) → k ≤ n → n ≤ length xs → take k (take n xs ++ ys) ≡ take k xs
take_front k n xs ys h j =
    take-append_of_le k (take n xs) ys (omega (arith, length-take n xs))
    ∙ sym (take-append_of_le k (take n xs) (drop n xs) (omega (arith, length-take n xs)))
    ∙ ap (take k) (take-append-drop n xs)

-- Between valid buffers, `swap` exchanges the bytes that were written.
swap-contents :
    (size : ℕ) (this other : StackBuffer)
    → IsValid size this
    → IsValid size other
    → (contents (swap this other).0 ≡ contents other)
      × (contents (swap this other).1 ≡ contents this)
unfolding swap
swap-contents size this other v w =
    let n = max this.writer_index other.writer_index in
    (
      take_front other.writer_index n other.buffer (drop n this.buffer) (omega arith)
          (omega (arith, v.within, w.within, w.stored)),
      take_front this.writer_index n this.buffer (drop n other.buffer) (omega arith)
          (omega (arith, v.within, w.within, v.stored)),
    )
