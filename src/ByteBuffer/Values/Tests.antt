-- ===== src/ByteBuffer/Values/Tests.antt =====
-- Round trips of typed values at small inputs.
use nets.Prelude.{◌^◌, ◌≡◌, refl, true, List, [], ◌∷◌, arith}
use nets.Prelude.Int.{negsuc}
use nets.Memory.{Result, ok, ◌>>=◌, read_at, write_at}
use nets.ByteBuffer.{
  ByteBuffer, from_bytes, write_bytes, read_bytes, ensure_writable, append_bytes,
  check_readable_bytes, adjust_reader_index, to_string, calculate_new_capacity, double_until,
  adjust_capacity,
}
use nets.ByteBuffer.Content.{IsValid, contents}
use nets.ByteBuffer.Values
use nets.ByteBuffer.Values.{
  Endian, little, big, store, load, htobe, bytes_le, value_le, write_raw, read_raw, write_word,
  read_word, read_signed, bool_of,
}
use nets.ByteBuffer.Values.Message.{Word, write_all, read_all, message_round_trip}

abbrev blank : ByteBuffer
blank = record {
  buffer = 0 ∷ 0 ∷ 0 ∷ 0 ∷ 0 ∷ 0 ∷ 0 ∷ 0 ∷ [];
  reader_index = 0;
  writer_index = 0;
  capacity = 8;
}

blank-IsValid : IsValid blank
blank-IsValid = record {
  ordered = omega arith;
  within = omega arith;
  stored = refl;
  addressable = omega arith;
}

-- -2 on the wire
abbrev minus_two : ByteBuffer
minus_two = record blank { buffer = 255 ∷ 255 ∷ 255 ∷ 254 ∷ 0 ∷ 0 ∷ 0 ∷ 0 ∷ []; writer_index = 4 }

wrote_int32 : Values.write_int32 little blank (negsuc 1) ≡ ok minus_two
unfolding Values.write_int32 write_word write_raw htobe store bytes_le value_le write_bytes
    ensure_writable append_bytes write_at
wrote_int32 = refl

abbrev wide : ByteBuffer
wide = record blank {
  buffer = 255 ∷ 255 ∷ 255 ∷ 255 ∷ 255 ∷ 255 ∷ 255 ∷ 254 ∷ [];
  writer_index = 8;
}

wrote_int64 : Values.write_int64 little blank (negsuc 1) ≡ ok wide
unfolding Values.write_int64 write_word write_raw htobe store bytes_le value_le write_bytes
    ensure_writable append_bytes write_at
wrote_int64 = refl

-- A `uint16_t`, then a `uint32_t`.
abbrev message : List Word
message = record { width = 2; value = 258 } ∷ record { width = 4; value = 66051 } ∷ []

abbrev sent : ByteBuffer
sent = record blank { buffer = 1 ∷ 2 ∷ 0 ∷ 1 ∷ 2 ∷ 3 ∷ 0 ∷ 0 ∷ []; writer_index = 6 }

wrote_message : write_all little blank message ≡ ok sent
unfolding write_all write_word write_raw htobe store bytes_le value_le write_bytes ensure_writable
    append_bytes write_at
wrote_message = refl

message_round_trip_example :
    (b'' : ByteBuffer) × (read_all big sent (2 ∷ 4 ∷ []) ≡ ok (258 ∷ 66051 ∷ [], b''))
    × IsValid b''
    × (contents b'' ≡ [])
message_round_trip_example =
    message_round_trip little big message blank sent blank-IsValid (omega arith) refl
      (omega arith, omega arith, (omega arith, omega arith, tt)) wrote_message

-- What comes back from a value that was written to the blank buffer.
abbrev back : {A B : Type 0} → Result ByteBuffer → (ByteBuffer → Result (A × B)) → Result A
back m f = m >>= f >>= λ r. ok r.0

short_values :
    (back (Values.write_boolean little blank true) (Values.read_boolean little) ≡ ok true)
    × (back (Values.write_int8 little blank (negsuc 4)) (Values.read_int8 little) ≡ ok (negsuc 4))
    × (back (Values.write_uint8 little blank 200) (Values.read_uint8 little) ≡ ok 200)
    × (back (Values.write_int16 little blank (negsuc 299)) (Values.read_int16 big)
        ≡ ok (negsuc 299))
    × (back (Values.write_uint16 little blank 65535) (Values.read_uint16 big) ≡ ok 65535)
unfolding Values.write_boolean Values.read_boolean Values.write_int8 Values.read_int8
    Values.write_uint8 Values.read_uint8 Values.write_int16 Values.read_int16 Values.write_uint16
    Values.read_uint16 write_word write_raw read_word read_raw read_signed bool_of htobe store load
    bytes_le value_le write_bytes read_bytes ensure_writable append_bytes write_at read_at
    check_readable_bytes adjust_reader_index
short_values = (refl, refl, refl, refl, refl)

long_values :
    (back (Values.write_uint32 little blank 4000000000) (Values.read_uint32 big) ≡ ok 4000000000)
    × (back (Values.write_uint64 little blank (2 ^ 63)) (Values.read_uint64 big) ≡ ok (2 ^ 63))
    × (back (Values.write_float little blank 1065353216) (Values.read_float little) ≡ ok 1065353216)
    × (back (Values.write_double little blank 7) (Values.read_double little) ≡ ok 7)
unfolding Values.write_uint32 Values.read_uint32 Values.write_uint64 Values.read_uint64
    Values.write_float Values.read_float Values.write_double Values.read_double write_word write_raw
    read_word read_raw htobe store load bytes_le value_le write_bytes read_bytes ensure_writable
    append_bytes write_at read_at check_readable_bytes adjust_reader_index
long_values = (refl, refl, refl, refl)

made : (from_bytes (1 ∷ 2 ∷ 3 ∷ []) >>= to_string) ≡ ok (1 ∷ 2 ∷ 3 ∷ [])
unfolding from_bytes to_string write_bytes ensure_writable append_bytes write_at read_at
    calculate_new_capacity double_until adjust_capacity
made = refl
