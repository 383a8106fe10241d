-- ===== src/Logger/Tests.antt =====
-- A few lines, by evaluation.
use nets.Prelude.{
  sym, subst, ℕ, ◌+◌, ◌<◌, ◌≡◌, refl, true, Option, none, some, List, [], ◌∷◌, arith, length,
}
use nets.Prelude.Int.{ℤ, pos}
use nets.Memory.{ok}
use nets.StackBuffer.{StackBuffer, init, digits_of, digit_char}
use nets.StackBuffer.Prints.{contents}
use nets.Log.{FileLogAppender, single_file}
use nets.Log.Order as Order
use nets.Logger.{
  log_buffer_size, info, Tm, TimeCache, zero_tm, cached_time, time_text, format_log_message,
  file_name,
}
use nets.Logger.Times.{stamp, IsShort}
use nets.Logger.Lines.{IsCached, line_prefix, line_of, format_log_message-Formats}

-- "a/b" and "b"
file_names : (file_name (97 ∷ 47 ∷ 98 ∷ []) ≡ some (98 ∷ [])) × (file_name (98 ∷ []) ≡ none)
unfolding file_name
file_names = (refl, refl)

abbrev time_of_day : Tm
time_of_day = record { year = 2024; month = 5; day = 6; hour = 7; minute = 8; second = 9 }

abbrev localtime : ℤ → Option Tm
localtime s = some time_of_day

abbrev cache : TimeCache
cache = record { tms = zero_tm; cache_seconds = pos 0 }

read_before : IsCached localtime cache (pos 77) time_of_day
read_before = (refl, λ e. absurd (ground (arith, e)))

has_few_digits : IsShort time_of_day 250
has_few_digits = record {
  year = omega arith;
  month = omega arith;
  day = omega arith;
  hour = omega arith;
  minute = omega arith;
  second = omega arith;
  rest = omega arith;
}

time_of_day-text : time_text time_of_day 250 ≡ stamp time_of_day 250
unfolding time_text digits_of digit_char
time_of_day-text = refl

abbrev message : StackBuffer
message = record { buffer = 104 ∷ 105 ∷ []; writer_index = 2 }

abbrev prefix : List ℕ
prefix = line_prefix (stamp time_of_day 250) 12 info (98 ∷ []) 30

-- "2024-05-06 07:08:09.000250 [12] INFO b:30 - "
prefix_text :
    prefix
    ≡ 50 ∷ 48 ∷ 50 ∷ 52 ∷ 45 ∷ 48 ∷ 53 ∷ 45 ∷ 48 ∷ 54 ∷ 32 ∷ 48 ∷ 55 ∷ 58 ∷ 48 ∷ 56 ∷ 58 ∷ 48 ∷ 57
      ∷ 46 ∷ 48 ∷ 48 ∷ 48 ∷ 50 ∷ 53 ∷ 48 ∷ 32 ∷ 91 ∷ 49 ∷ 50 ∷ 93 ∷ 32 ∷ 73 ∷ 78 ∷ 70 ∷ 79 ∷ 32 ∷ 98
      ∷ 58 ∷ 51 ∷ 48 ∷ 32 ∷ 45 ∷ 32 ∷ []
unfolding digits_of digit_char
prefix_text = refl

prefix_fits : length prefix + 20 < log_buffer_size
prefix_fits = subst (λ p. length p + 20 < log_buffer_size) (sym prefix_text) (omega arith)

format_log_message-Formats_example :
    (b : StackBuffer) × (format_log_message localtime cache
        (pos 12)
        info
        (record {
          seconds = pos 77;
          micros = 250;
          file = some (98 ∷ []);
          line = pos 30;
          stream = message;
        })
        (init log_buffer_size)
      ≡ ok (b, (cached_time localtime cache (pos 77)).1))
    × (contents b ≡ line_of prefix (104 ∷ 105 ∷ []))
    × (length (contents b) < log_buffer_size)
format_log_message-Formats_example =
    format_log_message-Formats localtime cache 12 30 info (pos 77) 250 (98 ∷ []) message time_of_day
      read_before has_few_digits (omega arith) (omega arith) prefix_fits

abbrev appender : FileLogAppender
appender = record {
  log_file = record { archived = []; current = []; size = 0; last_roll_time = 5 };
  log_file_rolling_size = 1024;
  log_file_type = single_file;
  cache_buffer = [];
  backup = true;
  buffers = [];
}

abbrev logger : Order.Logger
logger = record { appender = appender; batch = []; logged = [] }
