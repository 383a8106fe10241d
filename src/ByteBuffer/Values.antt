-- ===== src/ByteBuffer/Values.antt =====
-- The typed writes and reads of ByteBuffer.cpp. A value is its bit pattern of `n` bytes, and the
-- host's byte order is a parameter, so `htobe` and `be..toh` can be seen to do their work.
pub mod Wire
pub mod Message
mod Tests
use nets.Prelude.{
  ℕ, zero, suc, ◌+◌, ◌-◌, ◌*◌, ◌/◌, ◌%◌, ◌^◌, Bool, true, false, List, [], ◌∷◌, reverse, ltb, ◌==◌,
  if◌then◌else◌,
}
use nets.Prelude.Int.{ℤ, pos, negsuc}
use nets.Memory.{Result, ok, err, invalid_access, ◌>>=◌}
use nets.ByteBuffer.{ByteBuffer, write_bytes, read_bytes}

pub data Endian : Type 0 where
  little big : Endian

-- The `n` lowest bytes of a number, lowest first, and the number that such bytes stand for.
unfoldable pub bytes_le : ℕ → ℕ → List ℕ
bytes_le zero w = []
bytes_le (suc n) w = w % 256 ∷ bytes_le n (w / 256)

unfoldable pub value_le : List ℕ → ℕ
value_le [] = 0
value_le (x ∷ xs) = x + 256 * value_le xs

-- How the host lays an object of `n` bytes out in memory, and reads it.
unfoldable pub store : Endian → ℕ → ℕ → List ℕ
store little n w = bytes_le n w
store big n w = reverse (bytes_le n w)

unfoldable pub load : Endian → List ℕ → ℕ
load little bytes = value_le bytes
load big bytes = value_le (reverse bytes)

-- `htobe16`, `htobe32`, `htobe64` and their inverses: the bytes are swapped on a little-endian host.
unfoldable pub htobe : Endian → ℕ → ℕ → ℕ
htobe little n w = value_le (reverse (bytes_le n w))
htobe big n w = w

-- Two's complement: the pattern of a signed value of `n` bytes, and the value of a pattern.
abbrev pub pattern_of : ℕ → ℤ → ℕ
pattern_of n (pos v) = v % 256 ^ n
pattern_of n (negsuc v) = 256 ^ n - 1 - v % 256 ^ n

abbrev pub signed : ℕ → ℕ → ℤ
signed n w = if ltb (2 * w) (256 ^ n) then pos w else negsuc (256 ^ n - 1 - w)

-- A byte other than 0 and 1 is no value of `bool`.
bool_of : ℕ → Result Bool
bool_of w = if w == 0 then ok false else if w == 1 then ok true else err invalid_access

module _ (host : Endian) where
  -- `writeBytes(&value, n)` of a value as it is
  pub write_raw : ℕ → ByteBuffer → ℕ → Result ByteBuffer
  write_raw n b w = write_bytes b (store host n w)

  pub read_raw : ℕ → ByteBuffer → Result (ℕ × ByteBuffer)
  read_raw n b = read_bytes b n >>= λ (bytes, b'). ok (load host bytes, b')

  -- A write in network byte order
  pub write_word : ℕ → ByteBuffer → ℕ → Result ByteBuffer
  unfolding write_raw
  write_word n b w = write_raw n b (htobe host n w)

  pub read_word : ℕ → ByteBuffer → Result (ℕ × ByteBuffer)
  unfolding read_raw
  read_word n b = read_raw n b >>= λ (w, b'). ok (htobe host n w, b')

  pub read_signed : ℕ → ByteBuffer → Result (ℤ × ByteBuffer)
  read_signed n b = read_word n b >>= λ (w, b'). ok (signed n w, b')

  pub write_boolean : ByteBuffer → Bool → Result ByteBuffer
  write_boolean b v = write_raw 1 b (if v then 1 else 0)

  pub write_int8 : ByteBuffer → ℤ → Result ByteBuffer
  write_int8 b v = write_raw 1 b (pattern_of 1 v)

  pub write_uint8 : ByteBuffer → ℕ → Result ByteBuffer
  write_uint8 = write_raw 1

  pub write_int16 : ByteBuffer → ℤ → Result ByteBuffer
  write_int16 b v = write_word 2 b (pattern_of 2 v)

  pub write_uint16 : ByteBuffer → ℕ → Result ByteBuffer
  write_uint16 = write_word 2

  pub write_int32 : ByteBuffer → ℤ → Result ByteBuffer
  write_int32 b v = write_word 4 b (pattern_of 4 v)

  pub write_uint32 : ByteBuffer → ℕ → Result ByteBuffer
  write_uint32 = write_word 4

  pub write_int64 : ByteBuffer → ℤ → Result ByteBuffer
  write_int64 b v = write_word 8 b (pattern_of 8 v)

  pub write_uint64 : ByteBuffer → ℕ → Result ByteBuffer
  write_uint64 = write_word 8

  -- A float or double is its bit pattern, and goes out in the host's order.
  pub write_float : ByteBuffer → ℕ → Result ByteBuffer
  write_float = write_raw 4

  pub write_double : ByteBuffer → ℕ → Result ByteBuffer
  write_double = write_raw 8

  pub read_boolean : ByteBuffer → Result (Bool × ByteBuffer)
  unfolding bool_of
  read_boolean b = read_raw 1 b >>= λ (w, b'). bool_of w >>= λ v. ok (v, b')

  pub read_int8 : ByteBuffer → Result (ℤ × ByteBuffer)
  read_int8 b = read_raw 1 b >>= λ (w, b'). ok (signed 1 w, b')

  pub read_uint8 : ByteBuffer → Result (ℕ × ByteBuffer)
  read_uint8 = read_raw 1

  pub read_int16 : ByteBuffer → Result (ℤ × ByteBuffer)
  unfolding read_signed
  read_int16 = read_signed 2

  pub read_uint16 : ByteBuffer → Result (ℕ × ByteBuffer)
  read_uint16 = read_word 2

  pub read_int32 : ByteBuffer → Result (ℤ × ByteBuffer)
  unfolding read_signed
  read_int32 = read_signed 4

  pub read_uint32 : ByteBuffer → Result (ℕ × ByteBuffer)
  read_uint32 = read_word 4

  pub read_int64 : ByteBuffer → Result (ℤ × ByteBuffer)
  unfolding read_signed
  read_int64 = read_signed 8

  pub read_uint64 : ByteBuffer → Result (ℕ × ByteBuffer)
  read_uint64 = read_word 8

  pub read_float : ByteBuffer → Result (ℕ × ByteBuffer)
  read_float = read_raw 4

  pub read_double : ByteBuffer → Result (ℕ × ByteBuffer)
  read_double = read_raw 8
