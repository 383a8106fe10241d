-- ===== src/Log.antt =====
-- nets/base/log/LogAppender.cpp and LogFile.cpp: the file appender, whose callers fill buffers that its
-- thread writes to a file. A buffer is the list of its bytes, with the room of a StackBuffer of 2M. The
-- disk takes what it is given.
pub mod Order
mod Tests
use nets.Prelude.{
  ℕ, ◌+◌, ◌-◌, ◌*◌, ◌/◌, Bool, true, false, ◌||◌, not, Option, none, some, List, [], ◌∷◌, ◌++◌, ltb,
  leb, ◌==◌, if◌then◌else◌, length, take,
}

-- `current` is the file that is open, of `size` bytes. `archived` are those that were renamed, each
-- under its name.
pub record LogFile : Type 0 where
  pub archived : List (ℕ × List ℕ)
  pub current : List ℕ
  pub size : ℕ
  pub last_roll_time : ℕ

unfoldable pub write : LogFile → List ℕ → LogFile
write f bytes = record f { current = f.current ++ bytes; size = f.size + length bytes }

-- `rename` replaces a file that has the name already.
unfoldable pub put_archive : ℕ → List ℕ → List (ℕ × List ℕ) → List (ℕ × List ℕ)
put_archive now content [] = (now, content) ∷ []
put_archive now content (x ∷ xs) =
    let rest = put_archive now content xs in if x.0 == now then (now, content) ∷ xs else x ∷ rest

-- What the system answers when a file is renamed: the number of the name that `localtime_r` and
-- `strftime` make of the second, whether `rename` succeeds, and whether `fopen` does.
pub record Renaming : Type 0 where
  pub name : ℕ
  pub is_renamed : Bool
  pub is_opened : Bool

-- `fopen` makes a new file, or opens the one that was not renamed again, to append to it. Where it
-- fails the exception ends the program.
unfoldable pub rename_by_now_time : LogFile → Renaming → ℕ → Option LogFile
unfolding put_archive
rename_by_now_time f answer now =
    if answer.is_opened
    then some (
        if answer.is_renamed
        then record {
          archived = put_archive answer.name f.current f.archived;
          current = [];
          size = 0;
          last_roll_time = now;
        }
        else record f { size = length f.current; last_roll_time = now })
    else none

pub data LogFileType : Type 0 where
  single_file daily_file rolling_file : LogFileType

-- kLogBufferPieceSize
abbrev pub log_buffer_piece_size : ℕ
log_buffer_piece_size = 1024 * 1024 * 2

abbrev pub maximum_of_log_buffer : ℕ
maximum_of_log_buffer = 24

abbrev pub seconds_per_day : ℕ
seconds_per_day = 60 * 60 * 24

-- `backup` tells whether `backupCacheBuffer_` is not null. It is empty then.
pub record FileLogAppender : Type 0 where
  pub log_file : LogFile
  pub log_file_rolling_size : ℕ
  pub log_file_type : LogFileType
  pub cache_buffer : List ℕ
  pub backup : Bool
  pub buffers : List (List ℕ)

abbrev pub writable_bytes : List ℕ → ℕ
writable_bytes buffer = log_buffer_piece_size - length buffer

-- `StackBuffer::writeBytes`
abbrev pub write_bytes : List ℕ → List ℕ → List ℕ
write_bytes buffer bytes =
    if ltb (length bytes) (writable_bytes buffer) then buffer ++ bytes else buffer

unfoldable pub append : FileLogAppender → List ℕ → FileLogAppender
append a bytes =
    if ltb (length bytes) (writable_bytes a.cache_buffer)
    then record a { cache_buffer = write_bytes a.cache_buffer bytes }
    else record a {
      buffers = a.buffers ++ (a.cache_buffer ∷ []);
      backup = false;
      cache_buffer = write_bytes [] bytes;
    }

abbrev is_nil {ℓ} : {A : Type ℓ} → List A → Bool
is_nil [] = true
is_nil (x ∷ xs) = false

-- The part of `sync` under the lock: the buffers that it takes, if there is anything to write. The
-- cache is exchanged for an empty buffer, and the backup, where there is one, for another.
unfoldable pub collect : FileLogAppender → Option (List (List ℕ) × FileLogAppender)
collect a =
    if not (is_nil a.buffers) || ltb 0 (length a.cache_buffer)
    then some (a.buffers ++ (a.cache_buffer ∷ []), record a { buffers = []; cache_buffer = [] })
    else none

-- Of more than 24 buffers the older half is kept, and `warning` put behind it.
unfoldable pub limit_buffers : List (List ℕ) → List ℕ → List (List ℕ)
limit_buffers buffers warning =
    if ltb maximum_of_log_buffer (length buffers)
    then take (length buffers / 2) buffers ++ (warning ∷ [])
    else buffers

-- The write that comes after `renameByNowTime`, if that returns.
unfoldable pub then_write : List ℕ → Option LogFile → Option LogFile
unfolding write
then_write buffer none = none
then_write buffer (some f) = some (write f buffer)

unfoldable pub sync_single : LogFile → List ℕ → LogFile
unfolding write
sync_single f buffer = write f buffer

unfoldable pub sync_daily : LogFile → Renaming → ℕ → List ℕ → Option LogFile
unfolding then_write rename_by_now_time
sync_daily f answer now buffer = then_write buffer (
    if ltb seconds_per_day (now - f.last_roll_time)
    then rename_by_now_time f answer now
    else some f)

unfoldable pub sync_rolling : LogFile → Renaming → ℕ → ℕ → List ℕ → Option LogFile
unfolding then_write rename_by_now_time
sync_rolling f answer rolling_size now buffer = then_write buffer (
    if leb rolling_size ((f.size + length buffer) / 1024)
    then rename_by_now_time f answer now
    else some f)

abbrev pub with_log_file : FileLogAppender → Option LogFile → Option FileLogAppender
with_log_file a none = none
with_log_file a (some f) = some (record a { log_file = f })

-- One buffer of `syncFile`, with the time that was read before the first.
unfoldable pub sync_buffer : FileLogAppender → Renaming → ℕ → List ℕ → Option FileLogAppender
unfolding sync_single sync_daily sync_rolling
sync_buffer a answer now buffer = with_log_file a (elim a.log_file_type [
  | single_file ↦ some (sync_single a.log_file buffer)
  | daily_file ↦ sync_daily a.log_file answer now buffer
  | rolling_file ↦ sync_rolling a.log_file answer a.log_file_rolling_size now buffer
])

unfoldable pub set_log_file_rolling_size : FileLogAppender → ℕ → FileLogAppender
set_log_file_rolling_size a n = record a { log_file_rolling_size = n }
