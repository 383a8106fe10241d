-- ===== src/ByteBuffer/Tests.antt =====
-- Runs of the byte buffer at small inputs.
use nets.Prelude.{ℕ, ◌≤◌, ◌<◌, ◌≡◌, refl, ◌⊎◌, List, [], ◌∷◌, length, arith}
use nets.Memory.{ok, err, index_out_of_bounds}
use nets.ByteBuffer.{ByteBuffer, write_bytes, read_bytes}
use nets.ByteBuffer.Content.{IsValid, contents}
use nets.ByteBuffer.Writes.{Appended, write_bytes-Appended}
use nets.ByteBuffer.Reads.{Taken, read_bytes-Taken}
use nets.ByteBuffer.Values.{little, store, load, htobe}
use nets.ByteBuffer.Values.Wire.{wire, store-htobe, htobe-load-wire}

-- Three bytes are readable, and two were read before.
abbrev small : ByteBuffer
small = record {
  buffer = 1 ∷ 2 ∷ 3 ∷ 4 ∷ 5 ∷ 0 ∷ 0 ∷ 0 ∷ [];
  reader_index = 2;
  writer_index = 5;
  capacity = 8;
}

small-IsValid : IsValid small
small-IsValid = record {
  ordered = omega arith;
  within = omega arith;
  stored = refl;
  addressable = omega arith;
}

abbrev other : ByteBuffer
other = record { buffer = 6 ∷ 7 ∷ 8 ∷ 9 ∷ []; reader_index = 1; writer_index = 3; capacity = 4 }

other-IsValid : IsValid other
other-IsValid = record {
  ordered = omega arith;
  within = omega arith;
  stored = refl;
  addressable = omega arith;
}

-- The capacity grows from 8 to 16.
write_bytes-Appended_example :
    Appended small (7 ∷ 7 ∷ 7 ∷ 7 ∷ 7 ∷ 7 ∷ []) (write_bytes small (7 ∷ 7 ∷ 7 ∷ 7 ∷ 7 ∷ 7 ∷ []))
write_bytes-Appended_example =
    write_bytes-Appended small (7 ∷ 7 ∷ 7 ∷ 7 ∷ 7 ∷ 7 ∷ []) small-IsValid (omega arith)

read_bytes-Taken_example :
    ((2 ≤ length (contents small))
      × (out : List ℕ) × (b' : ByteBuffer) × (read_bytes small 2 ≡ ok (out, b'))
      × Taken small 2 out b')
    ⊎ ((length (contents small) < 2) × (read_bytes small 2 ≡ err (index_out_of_bounds 2)))
read_bytes-Taken_example = read_bytes-Taken small 2 small-IsValid

store-htobe_example : store little 4 (htobe little 4 66051) ≡ wire 4 66051
store-htobe_example = store-htobe little 4 66051

htobe-load-wire_example : htobe little 4 (load little (wire 4 66051)) ≡ 66051
htobe-load-wire_example = htobe-load-wire little 4 66051 (omega arith)

other-contents : contents other ≡ 7 ∷ 8 ∷ []
other-contents = refl
