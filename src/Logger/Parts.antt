-- ===== src/Logger/Parts.antt =====
-- What the parts of a message or a line leave in a buffer: each whole, or not at all.
use nets.Prelude.{
  ℕ, ◌+◌, ◌^◌, ◌≤◌, ◌<◌, ◌≡◌, refl, ◌∙◌, inl, inr, false, List, [], ◌∷◌, ◌++◌, arith, All, ltb,
  lt→ltb, if◌then◌else◌, length, length-take,
}
use nets.Prelude.Int.{pos, negsuc}
use nets.Memory.{Result, ok}
use nets.StackBuffer.{StackBuffer, maximum_number_limit, digits_of, write_integer}
use nets.StackBuffer.Prints.{
  contents, printed, IsValid, Appends, write_bytes-Appends, write_unsigned-Appends,
  write_pointer-Appends,
}
use nets.Logger.{log_buffer_size, Part, bytes, integer, pointer, write_part, write_parts}

abbrev pub decimal : ℕ → List ℕ
decimal n = printed (digits_of 10 maximum_number_limit n)

-- Of a negative number there is none: the source does not define what is printed.
abbrev pub text : Part → List ℕ
text (bytes d) = d
text (integer (pos n)) = decimal n
text (integer (negsuc n)) = []
text (pointer a) = 48 ∷ 120 ∷ printed (digits_of 16 maximum_number_limit a)

abbrev pub room : Part → ℕ
room (bytes d) = length d
room (integer n) = maximum_number_limit
room (pointer a) = maximum_number_limit

-- A part is kept where more room than it is thought to need is left.
unfoldable pub keep : List ℕ → Part → List ℕ
keep c p = if ltb (length c + room p) log_buffer_size then c ++ text p else c

unfoldable pub keep_all : List ℕ → List Part → List ℕ
unfolding keep
keep_all c [] = c
keep_all c (p ∷ ps) = keep_all (keep c p) ps

abbrev pub IsPlain : Part → Type 0
IsPlain (bytes d) = Unit {0}
IsPlain (integer (pos n)) = n < 2 ^ 64
IsPlain (integer (negsuc n)) = ⊥
IsPlain (pointer a) = a < 2 ^ 64

abbrev pub Keeps : List ℕ → Result StackBuffer → Type 0
Keeps c r = (b : StackBuffer) × (r ≡ ok b) × IsValid log_buffer_size b × (contents b ≡ c)

length-contents :
    (b : StackBuffer) → IsValid log_buffer_size b → length (contents b) ≡ b.writer_index
length-contents b v = omega (arith, length-take b.writer_index b.buffer, v.within, v.stored)

full_ltb : (a b : ℕ) → b ≤ a → ltb a b ≡ false
full_ltb a b h = ground arith

kept :
    (b : StackBuffer) (p : Part) (r : Result StackBuffer)
    → IsValid log_buffer_size b
    → b.writer_index + room p < log_buffer_size
    → Appends log_buffer_size b (text p) r
    → Keeps (keep (contents b) p) r
unfolding keep
kept b p r v fits (b', e, v', c) = (
  b',
  e,
  v',
  c
      ∙ rw
          (lt→ltb (length (contents b) + room p) log_buffer_size
            (omega (arith, length-contents b v, fits)))
          refl,
)

dropped :
    (b : StackBuffer) (p : Part) (r : Result StackBuffer)
    → IsValid log_buffer_size b
    → log_buffer_size ≤ b.writer_index + room p
    → r ≡ ok b
    → Keeps (keep (contents b) p) r
unfolding keep
dropped b p r v full e = (
  b,
  e,
  v,
  rw
      (full_ltb (length (contents b) + room p) log_buffer_size
        (omega (arith, length-contents b v, full)))
      refl,
)

write_part-Keeps :
    (b : StackBuffer) (p : Part)
    → IsValid log_buffer_size b
    → IsPlain p
    → Keeps (keep (contents b) p) (write_part b p)
unfolding write_part write_integer
write_part-Keeps b (bytes d) v h = elim (write_bytes-Appends log_buffer_size b d v) [
  | inl (fits, a) ↦ kept b (bytes d) _ v fits a
  | inr (full, e) ↦ dropped b (bytes d) _ v full e
]
write_part-Keeps b (integer (pos n)) v h = elim (write_unsigned-Appends log_buffer_size b n v h) [
  | inl (fits, _, a) ↦ kept b (integer (pos n)) _ v fits a
  | inr (full, e) ↦ dropped b (integer (pos n)) _ v full e
]
write_part-Keeps b (integer (negsuc n)) v h = absurd h
write_part-Keeps b (pointer a) v h = elim (write_pointer-Appends log_buffer_size b a v h) [
  | inl (fits, _, r) ↦ kept b (pointer a) _ v fits r
  | inr (full, e) ↦ dropped b (pointer a) _ v full e
]

pub write_parts-Keeps :
    (b : StackBuffer) (ps : List Part)
    → IsValid log_buffer_size b
    → All IsPlain ps
    → Keeps (keep_all (contents b) ps) (write_parts b ps)
unfolding write_parts keep_all
write_parts-Keeps b [] v h = (b, refl, v, refl)
write_parts-Keeps b (p ∷ ps) v h =
    let (b', e, v', c) = write_part-Keeps b p v h.0 in rw (e, ← c) (write_parts-Keeps b' ps v' h.1)
