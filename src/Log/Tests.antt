-- ===== src/Log/Tests.antt =====
-- A few messages, by evaluation.
use nets.Prelude.{ℕ, ◌≡◌, refl, true, some, List, [], ◌∷◌, arith}
use nets.Log.{LogFile, FileLogAppender, single_file, append, collect}
use nets.Log.Order.{Logger, Logs, none_more, then_step, logs, InOrder, Logs-InOrder}

abbrev file : LogFile
file = record { archived = (5, 1 ∷ []) ∷ []; current = 2 ∷ 3 ∷ []; size = 2; last_roll_time = 5 }

abbrev start : Logger
start = record {
  appender = record {
    log_file = file;
    log_file_rolling_size = 1024;
    log_file_type = single_file;
    cache_buffer = [];
    backup = true;
    buffers = [];
  };
  batch = [];
  logged = 1 ∷ 2 ∷ 3 ∷ [];
}

abbrev logged : Logger
logged = record start {
  appender = append start.appender (7 ∷ 8 ∷ []);
  logged = 1 ∷ 2 ∷ 3 ∷ 7 ∷ 8 ∷ [];
}

logged-Logs : Logs start logged
logged-Logs = then_step none_more (logs (7 ∷ 8 ∷ []) (omega arith))

Logs-InOrder_example : InOrder logged
Logs-InOrder_example = Logs-InOrder logged-Logs refl

-- The message is in the cache, and the thread takes it.
collected : (List (List ℕ) × FileLogAppender)
collected = (((7 ∷ 8 ∷ []) ∷ []), record (append start.appender (7 ∷ 8 ∷ [])) { cache_buffer = [] })

collect_logged : collect logged.appender ≡ some collected
unfolding collect append collected
collect_logged = refl
