-- ===== src/StackBuffer/Prints.antt =====
-- What the writes of a stack buffer append.
use nets.Prelude.{
  ℕ, suc, ◌+◌, ◌^◌, ◌≤◌, ◌<◌, ◌≡◌, refl, ap, ◌∙◌, ◌⊎◌, inl, inr, List, [], ◌∷◌, ◌++◌, arith,
  Bool-cases, length, ltb, ltb→lt, map, reverse, take, length-reverse,
}
use nets.Memory.{Result, ok, add_size, splice, write_at-ok, length-splice, slice-splice}
use nets.StackBuffer.{
  StackBuffer, maximum_number_limit, digit_char, digits_of, writable_bytes, put_bytes, write_bytes,
  write_unsigned, write_pointer,
}
use nets.StackBuffer.Digits.{Spells, digits_of-Spells, length-digits_of}

abbrev pub contents : StackBuffer → List ℕ
contents b = take b.writer_index b.buffer

pub record IsValid (size : ℕ) (b : StackBuffer) : Type 0 where
  pub stored : length b.buffer ≡ size
  pub within : b.writer_index ≤ size
  pub addressable : size ≤ 2 ^ 63

-- The bytes have been appended.
abbrev pub Appends : ℕ → StackBuffer → List ℕ → Result StackBuffer → Type 0
Appends size b d r =
    (b' : StackBuffer) × (r ≡ ok b') × IsValid size b' × (contents b' ≡ contents b ++ d)

pub put_bytes-Appends :
    (size : ℕ) (b : StackBuffer) (d : List ℕ)
    → IsValid size b
    → b.writer_index + length d ≤ size
    → Appends size b d (put_bytes size b d)
unfolding put_bytes
put_bytes-Appends size b d v fits =
    let no_wrap : add_size b.writer_index (length d) ≡ b.writer_index + length d =
      omega (arith, v.addressable) in
    (
      record {
        buffer = splice b.buffer b.writer_index d;
        writer_index = b.writer_index + length d;
      },
      rw (write_at-ok b.buffer b.writer_index d (omega (arith, v.stored))) (
          ap (λ w. ok (record { buffer = splice b.buffer b.writer_index d; writer_index = w }))
            no_wrap),
      record {
        stored = length-splice b.buffer b.writer_index d (omega (arith, v.stored)) ∙ v.stored;
        within = fits;
        addressable = v.addressable;
      },
      slice-splice b.buffer 0 b.writer_index (b.writer_index + length d) d (omega arith)
            (omega (arith, v.stored)) (omega arith)
          ∙ ap (λ w. take w b.buffer ++ d) (omega arith),
    )

-- `writeBytes` appends all of the bytes where more room than they need is left, and none of them where
-- it is not.
pub write_bytes-Appends :
    (size : ℕ) (b : StackBuffer) (d : List ℕ)
    → IsValid size b
    → ((b.writer_index + length d < size) × Appends size b d (write_bytes size b d))
      ⊎ ((size ≤ b.writer_index + length d) × (write_bytes size b d ≡ ok b))
unfolding write_bytes
write_bytes-Appends size b d v = elim (Bool-cases (ltb (length d) (writable_bytes size b))) [
  | inl room ↦
      let fits : b.writer_index + length d < size =
        omega (arith, v.within, v.addressable, ltb→lt _ _ room) in
      inl (fits, rw room (put_bytes-Appends size b d v (omega (arith, fits))))
  | inr full ↦ inr (ground (arith, v.within, v.addressable), rw full refl)
]

length-map : (f : ℕ → ℕ) (xs : List ℕ) → length (map f xs) ≡ length xs
length-map f [] = refl
length-map f (x ∷ xs) = ap suc (length-map f xs)

-- The digits of a value, highest first.
abbrev pub printed : List ℕ → List ℕ
printed ds = map digit_char (reverse ds)

length-printed : (ds : List ℕ) → length (printed ds) ≡ length ds
length-printed ds = length-map digit_char (reverse ds) ∙ length-reverse ds

-- In a valid buffer `writeInteger` of a value below 2 ^ 64 appends its decimal digits, highest
-- first, as many as it needs, or nothing where no more than 20 bytes are left.
pub write_unsigned-Appends :
    (size : ℕ) (b : StackBuffer) (value : ℕ)
    → IsValid size b
    → value < 2 ^ 64
    → ((b.writer_index + maximum_number_limit < size)
        × Spells 10 value (digits_of 10 maximum_number_limit value)
        × Appends size b
            (printed (digits_of 10 maximum_number_limit value))
            (write_unsigned size b value))
      ⊎ ((size ≤ b.writer_index + maximum_number_limit) × (write_unsigned size b value ≡ ok b))
unfolding write_unsigned
write_unsigned-Appends size b value v small =
    elim (Bool-cases (ltb maximum_number_limit (writable_bytes size b))) [
      | inl room ↦
          let fits : b.writer_index + maximum_number_limit < size =
            omega (arith, v.within, v.addressable, ltb→lt _ _ room) in
          let ds = digits_of 10 maximum_number_limit value in
          let few : length ds ≤ 20 =
            length-digits_of 10 maximum_number_limit 19 value (omega arith) (omega arith) in
          inl (
            fits,
            digits_of-Spells 10 19 value (omega arith) (omega arith),
            rw room (
                put_bytes-Appends size b (printed ds) v
                  (omega (arith, fits, few, length-printed ds))),
          )
      | inr full ↦ inr (ground (arith, v.within, v.addressable), rw full refl)
    ]

-- In a valid buffer `writePointer` of an address below 2 ^ 64 appends "0x" and its hexadecimal
-- digits, highest first, or nothing where no more than 20 bytes are left.
pub write_pointer-Appends :
    (size : ℕ) (b : StackBuffer) (value : ℕ)
    → IsValid size b
    → value < 2 ^ 64
    → ((b.writer_index + maximum_number_limit < size)
        × Spells 16 value (digits_of 16 maximum_number_limit value)
        × Appends size b
            (48 ∷ 120 ∷ printed (digits_of 16 maximum_number_limit value))
            (write_pointer size b value))
      ⊎ ((size ≤ b.writer_index + maximum_number_limit) × (write_pointer size b value ≡ ok b))
unfolding write_pointer
write_pointer-Appends size b value v small =
    elim (Bool-cases (ltb maximum_number_limit (writable_bytes size b))) [
      | inl room ↦
          let fits : b.writer_index + maximum_number_limit < size =
            omega (arith, v.within, v.addressable, ltb→lt _ _ room) in
          let ds = digits_of 16 maximum_number_limit value in
          let few : length ds ≤ 16 =
            length-digits_of 16 maximum_number_limit 15 value (omega arith) (omega arith) in
          inl (
            fits,
            digits_of-Spells 16 19 value (omega arith) (omega arith),
            rw room (
                put_bytes-Appends size b (48 ∷ 120 ∷ printed ds) v
                  (omega (arith, fits, few, length-printed ds))),
          )
      | inr full ↦ inr (ground (arith, v.within, v.addressable), rw full refl)
    ]
