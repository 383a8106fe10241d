-- ===== src/StackBuffer/Tests.antt =====
-- Runs of a stack buffer at small inputs.
use nets.Prelude.{◌≡◌, refl, [], ◌∷◌, arith, replicate}
use nets.Prelude.Int.{pos, negsuc}
use nets.Memory.{ok, err, invalid_access, write_at, read_at}
use nets.StackBuffer.{
  StackBuffer, init, put_bytes, write_bytes, write_unsigned, write_integer, copy_construct,
  move_construct, digit_char, digits_of,
}
use nets.StackBuffer.Prints.{IsValid}

-- Two bytes of 24 are written.
abbrev two_bytes : StackBuffer
two_bytes = record { buffer = 7 ∷ 8 ∷ replicate 22 0; writer_index = 2 }

two_bytes-IsValid : IsValid 24 two_bytes
two_bytes-IsValid = record { stored = refl; within = omega arith; addressable = omega arith }

abbrev one_byte : StackBuffer
one_byte = record { buffer = 9 ∷ replicate 23 0; writer_index = 1 }

one_byte-IsValid : IsValid 24 one_byte
one_byte-IsValid = record { stored = refl; within = omega arith; addressable = omega arith }

-- 105 is printed, -5 reads outside of the digits, and -10 comes out as "-0".
negative_values :
    (write_integer 24 (init 24) (pos 105)
      ≡ ok (record { buffer = 49 ∷ 48 ∷ 53 ∷ replicate 21 0; writer_index = 3 }))
    × (write_integer 24 (init 24) (negsuc 4) ≡ err invalid_access)
    × (write_integer 24 (init 24) (negsuc 9)
        ≡ ok (record { buffer = 45 ∷ 48 ∷ replicate 22 0; writer_index = 2 }))
unfolding write_integer write_unsigned put_bytes init digits_of digit_char write_at
negative_values = (refl, refl, refl)

moved :
    move_construct 24 one_byte ≡ ok (one_byte, record { buffer = replicate 24 0; writer_index = 0 })
unfolding move_construct copy_construct write_at read_at
moved = refl

-- Three bytes have no room where three are left.
write_bytes_full :
    write_bytes 5 (record { buffer = 7 ∷ 8 ∷ 0 ∷ 0 ∷ 0 ∷ []; writer_index = 2 }) (1 ∷ 2 ∷ 3 ∷ [])
    ≡ ok (record { buffer = 7 ∷ 8 ∷ 0 ∷ 0 ∷ 0 ∷ []; writer_index = 2 })
unfolding write_bytes
write_bytes_full = refl
