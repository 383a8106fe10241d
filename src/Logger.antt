-- ===== src/Logger.antt =====
-- nets/base/log/LogBuffer.cpp, LogFormatter.cpp and Logger.cpp: a message is printed into a buffer of 4096 bytes, and
-- its line into another one, which an appender is given. `localtime_r` is an argument. Characters are their codes.
pub mod Times
pub mod Parts
pub mod Lines
pub mod Levels
mod Tests
use nets.Prelude.{
  ℕ, ◌*◌, ◌-◌, Bool, true, false, Option, none, some, List, [], ◌∷◌, ◌++◌, map, reverse, ltb, leb,
  ◌==◌, if◌then◌else◌, length, take, replicate,
}
use nets.Prelude.Int.{ℤ, eqb_ℤ}
use nets.Memory.{Result, ok, err, invalid_access, ◌>>=◌}
use nets.StackBuffer.{
  StackBuffer, maximum_number_limit, digit_char, digits_of, init, write_bytes, write_integer,
  write_pointer,
}
use nets.StackBuffer.Prints.{contents, printed}

-- kLogBufferSize
abbrev pub log_buffer_size : ℕ
log_buffer_size = 1024 * 4

-- What the overloads of `operator<<` of LogBufferStream print: characters and strings, integers of up to 64 bits, and
-- pointers.
pub data Part : Type 0 where
  bytes : List ℕ → Part
  integer : ℤ → Part
  pointer : ℕ → Part

unfoldable pub write_part : StackBuffer → Part → Result StackBuffer
unfolding write_bytes write_integer write_pointer
write_part b (bytes d) = write_bytes log_buffer_size b d
write_part b (integer n) = write_integer log_buffer_size b n
write_part b (pointer a) = write_pointer log_buffer_size b a

-- One after the other.
unfoldable pub write_parts : StackBuffer → List Part → Result StackBuffer
unfolding write_part
write_parts b [] = ok b
write_parts b (p ∷ ps) = write_part b p >>= (λ b'. write_parts b' ps)

pub data LogLevel : Type 0 where
  trace debug info warn error fatal : LogLevel

abbrev pub level_number : LogLevel → ℕ
level_number trace = 0
level_number debug = 1
level_number info = 2
level_number warn = 3
level_number error = 4
level_number fatal = 5

-- kLogLevelName
abbrev pub log_level_name : LogLevel → List ℕ
log_level_name trace = 84 ∷ 82 ∷ 65 ∷ 67 ∷ 69 ∷ []
log_level_name debug = 68 ∷ 69 ∷ 66 ∷ 85 ∷ 71 ∷ []
log_level_name info = 73 ∷ 78 ∷ 70 ∷ 79 ∷ []
log_level_name warn = 87 ∷ 65 ∷ 82 ∷ 78 ∷ []
log_level_name error = 69 ∷ 82 ∷ 82 ∷ 79 ∷ 82 ∷ []
log_level_name fatal = 70 ∷ 65 ∷ 84 ∷ 65 ∷ 76 ∷ []

-- What is behind the last slash, which `strrchr` finds; a null pointer where there is none.
unfoldable pub file_name : List ℕ → Option (List ℕ)
file_name [] = none
file_name (c ∷ cs) =
    let later = file_name cs in
    elim later [ some f ↦ some f | none ↦ if c == 47 then some cs else none ]

-- Its time is in seconds since the epoch, and the rest in microseconds.
pub record LogMessage : Type 0 where
  pub seconds : ℤ
  pub micros : ℕ
  pub file : Option (List ℕ)
  pub line : ℤ
  pub stream : StackBuffer

-- The members of `struct tm` as they are printed: the year from 0 and the month from 1.
pub record Tm : Type 0 where
  pub year : ℕ
  pub month : ℕ
  pub day : ℕ
  pub hour : ℕ
  pub minute : ℕ
  pub second : ℕ

-- After `MEMZERO`
abbrev pub zero_tm : Tm
zero_tm = record { year = 1900; month = 1; day = 0; hour = 0; minute = 0; second = 0 }

-- `tCacheTms` and `tCacheSeconds` of a thread.
pub record TimeCache : Type 0 where
  pub tms : Tm
  pub cache_seconds : ℤ

unfoldable pub cached_time : (ℤ → Option Tm) → TimeCache → ℤ → Tm × TimeCache
cached_time localtime cache seconds =
    let read : Tm = elim (localtime seconds) [ none ↦ zero_tm | some t ↦ t ] in
    if eqb_ℤ seconds cache.cache_seconds
    then (cache.tms, cache)
    else (read, record { tms = read; cache_seconds = seconds })

-- `%0wd`
abbrev padded : ℕ → ℕ → List ℕ
padded width value =
    let ds = printed (digits_of 10 maximum_number_limit value) in
    replicate (width - length ds) 48 ++ ds

-- "%04d-%02d-%02d %02d:%02d:%02d.%06ld", of which `snprintf` keeps 51 characters.
unfoldable pub time_text : Tm → ℕ → List ℕ
unfolding digits_of
time_text t micros = take 51 (
    padded 4 t.year
    ++ (45 ∷ padded 2 t.month)
    ++ (45 ∷ padded 2 t.day)
    ++ (32 ∷ padded 2 t.hour)
    ++ (58 ∷ padded 2 t.minute)
    ++ (58 ∷ padded 2 t.second)
    ++ (46 ∷ padded 6 micros))

-- The parts of a line before the name of the file, and from there on.
abbrev pub line_start : List ℕ → ℤ → LogLevel → List Part
line_start time tid level =
    bytes time
    ∷ bytes (32 ∷ 91 ∷ [])
    ∷ integer tid
    ∷ bytes (93 ∷ 32 ∷ [])
    ∷ bytes (log_level_name level)
    ∷ bytes (32 ∷ [])
    ∷ []

abbrev pub line_rest : List ℕ → ℤ → StackBuffer → List Part
line_rest file line stream =
    bytes file
    ∷ bytes (58 ∷ [])
    ∷ integer line
    ∷ bytes (32 ∷ 45 ∷ 32 ∷ [])
    ∷ bytes (contents stream)
    ∷ bytes (10 ∷ [])
    ∷ []

-- The length of a null pointer's string is not defined.
abbrev pub write_rest : Option (List ℕ) → ℤ → StackBuffer → StackBuffer → Result StackBuffer
write_rest none line stream b = err invalid_access
write_rest (some f) line stream b = write_parts b (line_rest f line stream)

unfoldable pub format_log_message :
    (ℤ → Option Tm)
    → TimeCache
    → ℤ
    → LogLevel
    → LogMessage
    → StackBuffer
    → Result (StackBuffer × TimeCache)
unfolding cached_time time_text write_parts
format_log_message localtime cache tid level m b =
    let (tms, cache') = cached_time localtime cache m.seconds in
    write_parts b (line_start (time_text tms m.micros) tid level)
    >>= (λ b'. write_rest m.file m.line m.stream b' >>= (λ b''. ok (b'', cache')))
