-- ===== src/StackBuffer.antt =====
-- nets/base/StackBuffer.h: a byte buffer of a fixed size, that numbers are printed into. What has no
-- room is left out silently.
pub mod Digits
pub mod Prints
pub mod Copies
mod Tests
use nets.Prelude.{
  ℕ, zero, suc, ◌+◌, ◌-◌, ◌*◌, ◌/◌, ◌%◌, max, Bool, List, [], ◌∷◌, ◌++◌, map, reverse, ltb, ◌==◌,
  if◌then◌else◌, length, take, drop, replicate,
}
use nets.Prelude.Int.{ℤ, pos, negsuc}
use nets.Memory.{Result, ok, err, invalid_access, ◌>>=◌, add_size, sub_size, read_at, write_at}

pub record StackBuffer : Type 0 where
  pub buffer : List ℕ
  pub writer_index : ℕ

-- `std::numeric_limits<Uint64Type>::digits10 + 1`
abbrev pub maximum_number_limit : ℕ
maximum_number_limit = 20

-- `kDigits[i]` and `kHexDigits[i]`, as ASCII.
unfoldable pub digit_char : ℕ → ℕ
digit_char i = if ltb i 10 then 48 + i else 87 + i

-- The digits of `do { ... } while (value > 0)`, lowest first; a 64-bit value has at most 20 of them.
unfoldable pub digits_of : ℕ → ℕ → ℕ → List ℕ
digits_of base zero value = []
digits_of base (suc fuel) value =
    let rest = digits_of base fuel (value / base) in
    value % base ∷ (if value / base == 0 then [] else rest)

-- `MEMZERO(buffer_, n)`
abbrev pub zero_front : StackBuffer → ℕ → Result (List ℕ)
zero_front b n = write_at b.buffer 0 (replicate n 0)

module _ (size : ℕ) where
  unfoldable pub init : StackBuffer
  init = record { buffer = replicate size 0; writer_index = 0 }

  abbrev pub writable_bytes : StackBuffer → ℕ
  writable_bytes b = sub_size size b.writer_index

  -- The bytes at the writer index, and the index behind them.
  unfoldable pub put_bytes : StackBuffer → List ℕ → Result StackBuffer
  put_bytes b bytes = write_at b.buffer b.writer_index bytes >>= λ m.
      ok (record { buffer = m; writer_index = add_size b.writer_index (length bytes) })

  unfoldable pub write_bytes : StackBuffer → List ℕ → Result StackBuffer
  unfolding put_bytes
  write_bytes b bytes = if ltb (length bytes) (writable_bytes b) then put_bytes b bytes else ok b

  -- `writeInteger` of a value that is not negative
  unfoldable pub write_unsigned : StackBuffer → ℕ → Result StackBuffer
  unfolding put_bytes digits_of
  write_unsigned b value =
      if ltb maximum_number_limit (writable_bytes b)
      then put_bytes b (map digit_char (reverse (digits_of 10 maximum_number_limit value)))
      else ok b

  -- `writeInteger`. The remainder of a negative value is not positive: only for a multiple of 10 is it an
  -- index of `kDigits`, and the loop ends after that one digit, in front of which the sign is put.
  unfoldable pub write_integer : StackBuffer → ℤ → Result StackBuffer
  unfolding write_unsigned put_bytes
  write_integer b (pos value) = write_unsigned b value
  write_integer b (negsuc n) =
      if ltb maximum_number_limit (writable_bytes b)
      then (if suc n % 10 == 0 then put_bytes b (45 ∷ 48 ∷ []) else err invalid_access)
      else ok b

  unfoldable pub write_pointer : StackBuffer → ℕ → Result StackBuffer
  unfolding put_bytes digits_of
  write_pointer b value =
      if ltb maximum_number_limit (writable_bytes b)
      then put_bytes b
          (48 ∷ 120 ∷ map digit_char (reverse (digits_of 16 maximum_number_limit value)))
      else ok b

  -- `StackBuffer(const StackBuffer& other)`
  unfoldable pub copy_construct : StackBuffer → Result StackBuffer
  copy_construct other = read_at other.buffer 0 other.writer_index >>= λ bytes.
      write_at (replicate size 0) 0 bytes >>= λ m.
      ok (record { buffer = m; writer_index = other.writer_index })

  -- `operator=` for another object, which returns nothing.
  unfoldable pub copy_assign : StackBuffer → StackBuffer → Result StackBuffer
  copy_assign this other = zero_front this this.writer_index >>= λ zeroed.
      read_at other.buffer 0 other.writer_index >>= λ bytes.
      write_at zeroed 0 bytes >>= λ m. ok (record { buffer = m; writer_index = other.writer_index })

  -- `StackBuffer(StackBuffer&& other)`: the new buffer, and what is left of the other.
  unfoldable pub move_construct : StackBuffer → Result (StackBuffer × StackBuffer)
  unfolding copy_construct
  move_construct other = copy_construct other >>= λ this.
      zero_front other other.writer_index >>= λ zeroed.
      ok (this, record { buffer = zeroed; writer_index = 0 })

-- `swap`: the bytes up to the greater writer index are exchanged.
unfoldable pub swap : StackBuffer → StackBuffer → StackBuffer × StackBuffer
swap this other =
    let n = max this.writer_index other.writer_index in
    (
      record {
        buffer = take n other.buffer ++ drop n this.buffer;
        writer_index = other.writer_index;
      },
      record {
        buffer = take n this.buffer ++ drop n other.buffer;
        writer_index = this.writer_index;
      },
    )
