-- ===== src/Logger/Levels.antt =====
-- nets/base/log/Logger.h and Logger.cpp: what is logged, with a FileLogAppender, and the loggers of LoggerManager. A
-- logger is its number there, and a name is a number too.
use nets.Prelude.{
  ℕ, suc, ◌≡◌, refl, ap, sym, Bool, true, false, Option, none, some, List, [], ◌∷◌, ◌++◌, arith,
  leb, ◌==◌, ◌||◌, ◌&&◌, if◌then◌else◌,
}
use nets.Prelude.Int.{ℤ}
use nets.Memory.{Result, ok, ◌>>=◌}
use nets.StackBuffer.{StackBuffer, init}
use nets.StackBuffer.Prints.{contents}
use nets.Log.{FileLogAppender, append}
use nets.Log.Order as Order
use nets.Log.Order.{InOrder}
use nets.Logger.{
  log_buffer_size, LogLevel, trace, debug, info, warn, error, fatal, level_number, LogMessage, Tm,
  TimeCache, format_log_message,
}

abbrev pub is_fatal : LogLevel → Bool
is_fatal fatal = true
is_fatal _ = false

-- True where the program exits.
unfoldable pub log :
    (ℤ → Option Tm)
    → TimeCache
    → ℤ
    → LogLevel
    → LogMessage
    → FileLogAppender
    → Result (FileLogAppender × TimeCache × Bool)
unfolding format_log_message append
log localtime cache tid level m a =
    format_log_message localtime cache tid level m (init log_buffer_size)
    >>= (λ r. ok (append a (contents r.0), r.1, is_fatal level))

-- `if (LEVEL >= LOGGER->getLevel())`, for a logger of the level `least`.
unfoldable pub nets_log :
    LogLevel
    → (ℤ → Option Tm)
    → TimeCache
    → ℤ
    → LogLevel
    → LogMessage
    → FileLogAppender
    → Result (FileLogAppender × TimeCache × Bool)
unfolding log
nets_log least localtime cache tid level m a =
    if leb (level_number least) (level_number level)
    then log localtime cache tid level m a
    else ok (a, cache, false)

-- The levels from the least one that a logger logs up.
abbrev pub levels_from : LogLevel → List LogLevel
levels_from trace = trace ∷ debug ∷ info ∷ warn ∷ error ∷ fatal ∷ []
levels_from debug = debug ∷ info ∷ warn ∷ error ∷ fatal ∷ []
levels_from info = info ∷ warn ∷ error ∷ fatal ∷ []
levels_from warn = warn ∷ error ∷ fatal ∷ []
levels_from error = error ∷ fatal ∷ []
levels_from fatal = fatal ∷ []

abbrev pub is_level : LogLevel → LogLevel → Bool
is_level trace m = elim m [ trace ↦ true | _ ↦ false ]
is_level debug m = elim m [ debug ↦ true | _ ↦ false ]
is_level info m = elim m [ info ↦ true | _ ↦ false ]
is_level warn m = elim m [ warn ↦ true | _ ↦ false ]
is_level error m = elim m [ error ↦ true | _ ↦ false ]
is_level fatal m = elim m [ fatal ↦ true | _ ↦ false ]

-- Whether a level is one of these.
abbrev pub is_among : LogLevel → List LogLevel → Bool
is_among l [] = false
is_among l (m ∷ ms) = is_level l m || is_among l ms

-- The line is appended, if the level is among those from that of the logger up; true where the
-- program exits.
abbrev pub Logged :
    LogLevel
    → LogLevel
    → List ℕ
    → Order.Logger
    → Result (FileLogAppender × TimeCache × Bool)
    → Type 0
Logged least level line s r =
    let passes = is_among level (levels_from least) in
    (a : FileLogAppender) × (cache : TimeCache) × (r
      ≡ ok (a, cache, passes && is_level level fatal))
    × InOrder (record s { appender = a; logged = s.logged ++ (if passes then line else []) })

pub record LoggerManager : Type 0 where
  pub loggers : List (ℕ × ℕ)
  pub nets_root_logger : Option ℕ
  pub next_logger : ℕ

abbrev pub find : List (ℕ × ℕ) → ℕ → Option ℕ
find [] name = none
find (x ∷ xs) name = if x.0 == name then some x.1 else find xs name

abbrev found_or_new : LoggerManager → ℕ → Option ℕ → ℕ × LoggerManager
found_or_new g name (some l) = (l, g)
found_or_new g name none = (
  g.next_logger,
  record g { loggers = (name, g.next_logger) ∷ g.loggers; next_logger = suc g.next_logger },
)

unfoldable pub get_logger : LoggerManager → ℕ → ℕ × LoggerManager
get_logger g name = found_or_new g name (find g.loggers name)

abbrev root_or_new : LoggerManager → ℕ → Option ℕ → ℕ × LoggerManager
root_or_new g root_name (some l) = (l, g)
root_or_new g root_name none =
    let (l, g') = get_logger g root_name in (l, record g' { nets_root_logger = some l })

unfoldable pub get_root_logger : LoggerManager → ℕ → ℕ × LoggerManager
unfolding get_logger
get_root_logger g root_name = root_or_new g root_name g.nets_root_logger

found-again :
    (g : LoggerManager) (name : ℕ) (o : Option ℕ)
    → o ≡ find g.loggers name
    → find (found_or_new g name o).1.loggers name ≡ some (found_or_new g name o).0
found-again g name (some l) e = sym e
found-again g name none e = ground arith

-- A name has one logger: a second call gives it, and makes no other.
pub get_logger-twice :
    (g : LoggerManager) (name : ℕ) → get_logger (get_logger g name).1 name ≡ get_logger g name
unfolding get_logger
get_logger-twice g name =
    ap (found_or_new (get_logger g name).1 name) (found-again g name (find g.loggers name) refl)
