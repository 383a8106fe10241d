-- ===== src/Memory.antt =====
-- The C++ run time under the model: what an operation ends with, and checked copies in and out of
-- an array of bytes. A copy outside of the array is undefined behaviour in the source, and the error
-- `invalid_access` here.
use nets.Prelude.{
  ℕ, ◌+◌, ◌-◌, ◌%◌, ◌^◌, ◌≤◌, ◌≡◌, refl, List, ◌++◌, arith, leb, if◌then◌else◌, length, take, drop,
  length-append, length-take, length-drop, drop_all, take-append_past, drop-append_of_le, drop-take,
  ap, ◌∙◌, append-nil,
}

-- `out_of_memory` and `index_out_of_bounds` are the exceptions of nets/base/exception; the other two
-- end no run of the program properly.
pub data Error : Type 0 where
  out_of_memory : ℕ → Error
  index_out_of_bounds : ℕ → Error
  invalid_access : Error
  diverges : Error

pub data Result {ℓ} (A : Type ℓ) : Type ℓ where
  ok : A → Result A
  err : Error → Result A

module _ {ℓ κ} {A : Type ℓ} {B : Type κ} where
  -- The first error ends a chain.
  infixl 5 ◌>>=◌
  abbrev pub ◌>>=◌ : Result A → (A → Result B) → Result B
  r >>= next = elim r [ err why ↦ err why | ok got ↦ next got ]

  infixl 5 ◌>>◌
  abbrev pub ◌>>◌ : Result A → Result B → Result B
  first >> second = elim first [ err why ↦ err why | ok _ ↦ second ]

  -- What a successful chain went through.
  pub >>=-ok :
      (r : Result A) (next : A → Result B) {out : B}
      → r >>= next ≡ ok out
      → (got : A) × (r ≡ ok got) × (next got ≡ ok out)
  >>=-ok (err why) next e = cc
  >>=-ok (ok got) next e = (got, refl, e)

-- `size_t` has 64 bits, and wraps.
abbrev pub size_mod : ℕ
size_mod = 2 ^ 64

abbrev pub add_size : ℕ → ℕ → ℕ
add_size a b = (a + b) % size_mod

abbrev pub sub_size : ℕ → ℕ → ℕ
sub_size a b = (a + size_mod - b) % size_mod

abbrev pub slice : List ℕ → ℕ → ℕ → List ℕ
slice m i n = take n (drop i m)

-- `memcpy(out, &m[i], n)`
unfoldable pub read_at : List ℕ → ℕ → ℕ → Result (List ℕ)
read_at m i n = if leb (i + n) (length m) then ok (slice m i n) else err invalid_access

abbrev pub splice : List ℕ → ℕ → List ℕ → List ℕ
splice m i d = take i m ++ (d ++ drop (i + length d) m)

-- `memcpy(&m[i], d, length d)`
unfoldable pub write_at : List ℕ → ℕ → List ℕ → Result (List ℕ)
write_at m i d = if leb (i + length d) (length m) then ok (splice m i d) else err invalid_access

pub read_at-ok : (m : List ℕ) (i n : ℕ) → i + n ≤ length m → read_at m i n ≡ ok (slice m i n)
unfolding read_at
read_at-ok m i n h = ground arith

pub write_at-ok :
    (m : List ℕ) (i : ℕ) (d : List ℕ) → i + length d ≤ length m → write_at m i d ≡ ok (splice m i d)
unfolding write_at
write_at-ok m i d h = ground arith

pub length-splice :
    (m : List ℕ) (i : ℕ) (d : List ℕ) → i + length d ≤ length m → length (splice m i d) ≡ length m
length-splice m i d h = omega (
  arith,
  length-append (take i m) (d ++ drop (i + length d) m),
  length-append d (drop (i + length d) m),
  length-take i m,
  length-drop (i + length d) m,
)

-- What stands from `r` on, up to the end of the bytes written at `i`.
pub slice-splice :
    (m : List ℕ) (r i n : ℕ) (d : List ℕ)
    → r ≤ i
    → i + length d ≤ length m
    → n ≡ (i - r) + length d
    → slice (splice m i d) r n ≡ slice m r (i - r) ++ d
slice-splice m r i n d h k e =
    ap (take n)
      (drop-append_of_le r (take i m) (d ++ drop (i + length d) m) (omega (arith, length-take i m)))
    ∙ ap (λ l. take n (l ++ (d ++ drop (i + length d) m))) (drop-take r i m)
    ∙ take-append_past n (length d) (slice m r (i - r)) (d ++ drop (i + length d) m)
        (omega (arith, length-take (i - r) (drop r m), length-drop r m))
    ∙ ap (◌++◌ (slice m r (i - r)))
        (take-append_past (length d) 0 d (drop (i + length d) m) (omega arith) ∙ append-nil d)

-- A copy over the whole array leaves nothing of it.
pub splice_whole : (m d : List ℕ) → length d ≡ length m → splice m 0 d ≡ d
splice_whole m d e = ap (λ l. d ++ l) (drop_all (0 + length d) m (omega arith)) ∙ append-nil d
