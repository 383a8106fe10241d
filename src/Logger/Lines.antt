-- ===== src/Logger/Lines.antt =====
-- The line that DefaultLogFormatter makes of a message.
use nets.Prelude.{
  ℕ, ◌+◌, ◌^◌, ◌≤◌, ◌<◌, ◌≡◌, refl, ap, sym, ◌∙◌, some, Option, List, [], ◌∷◌, ◌++◌, arith, ltb,
  lt→ltb, length, subst, true, length-append, length-replicate, append_assoc, append-nil,
  Bool-cases, inl, inr, ltb→lt,
}
use nets.Prelude.Int.{ℤ, pos, negsuc, eqb_ℤ}
use nets.Memory.{ok}
use nets.StackBuffer.{StackBuffer, init, maximum_number_limit}
use nets.StackBuffer.Prints.{contents, IsValid}
use nets.Logger.{
  log_buffer_size, Part, bytes, integer, pointer, LogLevel, trace, debug, info, warn, error, fatal,
  LogMessage, Tm, TimeCache, cached_time, time_text, line_start, line_rest, format_log_message,
}
use nets.Logger.Times.{stamp, IsShort, time_text-stamp}
use nets.Logger.Parts.{text, decimal, room, keep, keep_all, write_parts-Keeps}

abbrev pub texts : List Part → List ℕ
texts [] = []
texts (p ∷ ps) = text p ++ texts ps

room-text : (p : Part) → room p ≤ length (text p) + maximum_number_limit
room-text (bytes d) = omega arith
room-text (integer n) = omega arith
room-text (pointer a) = omega arith

keep_all-texts :
    (c : List ℕ) (ps : List Part)
    → length c + length (texts ps) + maximum_number_limit < log_buffer_size
    → keep_all c ps ≡ c ++ texts ps
unfolding keep_all keep
keep_all-texts c [] fits = sym (append-nil c)
keep_all-texts c (p ∷ ps) fits =
    let all = length-append (text p) (texts ps) in
    let now = lt→ltb (length c + room p) log_buffer_size (omega (arith, room-text p, all, fits)) in
    rw now (
      keep_all-texts (c ++ text p) ps (omega (arith, length-append c (text p), all, fits))
      ∙ append_assoc c (text p) (texts ps))

keep-below :
    (c d : List ℕ) → length c < log_buffer_size → length (keep c (bytes d)) < log_buffer_size
unfolding keep
keep-below c d small = elim (Bool-cases (ltb (length c + length d) log_buffer_size)) [
  | inl room ↦ rw room (omega (arith, length-append c d, ltb→lt _ _ room))
  | inr full ↦ rw full small
]

-- TRACE, DEBUG, INFO, WARN, ERROR and FATAL.
abbrev pub name_of : LogLevel → List ℕ
name_of trace = 84 ∷ 82 ∷ 65 ∷ 67 ∷ 69 ∷ []
name_of debug = 68 ∷ 69 ∷ 66 ∷ 85 ∷ 71 ∷ []
name_of info = 73 ∷ 78 ∷ 70 ∷ 79 ∷ []
name_of warn = 87 ∷ 65 ∷ 82 ∷ 78 ∷ []
name_of error = 69 ∷ 82 ∷ 82 ∷ 79 ∷ 82 ∷ []
name_of fatal = 70 ∷ 65 ∷ 84 ∷ 65 ∷ 76 ∷ []

-- What is in front of the message: "<time> [<thread>] <level> <file>:<line> - ".
abbrev pub line_prefix : List ℕ → ℕ → LogLevel → List ℕ → ℕ → List ℕ
line_prefix time tid level file line =
    time
    ++ (32 ∷ 91 ∷ [])
    ++ decimal tid
    ++ (93 ∷ 32 ∷ [])
    ++ name_of level
    ++ (32 ∷ [])
    ++ file
    ++ (58 ∷ [])
    ++ decimal line
    ++ (32 ∷ 45 ∷ 32 ∷ [])

-- A thread's cache holds what `localtime_r` gives for its second, which is not that of the message
-- or else the one that the message has.
abbrev pub IsCached : (ℤ → Option Tm) → TimeCache → ℤ → Tm → Type 0
IsCached localtime cache seconds t =
    (localtime seconds ≡ some t) × ((cache.cache_seconds ≡ seconds) → cache.tms ≡ t)

abbrev pub line_of : List ℕ → List ℕ → List ℕ
line_of prefix message = keep (keep prefix (bytes message)) (bytes (10 ∷ []))

init-IsValid : IsValid log_buffer_size (init log_buffer_size)
unfolding init
init-IsValid = record {
  stored = length-replicate {A = ℕ} log_buffer_size 0;
  within = omega arith;
  addressable = omega arith;
}

init-contents : contents (init log_buffer_size) ≡ []
unfolding init
init-contents = refl

abbrev before_message : List ℕ → ℕ → List Part
before_message file line =
    bytes file ∷ bytes (58 ∷ []) ∷ integer (pos line) ∷ bytes (32 ∷ 45 ∷ 32 ∷ []) ∷ []

line_rest-keep :
    (c file : List ℕ) (line : ℕ) (stream : StackBuffer)
    → keep_all c (line_rest file (pos line) stream)
      ≡ line_of (keep_all c (before_message file line)) (contents stream)
unfolding keep_all
line_rest-keep c file line stream = refl

prefix_texts :
    (time file : List ℕ) (tid line : ℕ) (level : LogLevel)
    → texts (line_start time (pos tid) level) ++ texts (before_message file line)
      ≡ line_prefix time tid level file line
prefix_texts time file tid line trace = simp (append_assoc, append-nil)
prefix_texts time file tid line debug = simp (append_assoc, append-nil)
prefix_texts time file tid line info = simp (append_assoc, append-nil)
prefix_texts time file tid line warn = simp (append_assoc, append-nil)
prefix_texts time file tid line error = simp (append_assoc, append-nil)
prefix_texts time file tid line fatal = simp (append_assoc, append-nil)

eqb_ℤ-same : (a b : ℤ) → eqb_ℤ a b ≡ true → b ≡ a
eqb_ℤ-same (pos a) (pos b) e = ground arith
eqb_ℤ-same (pos a) (negsuc b) e = ground arith
eqb_ℤ-same (negsuc a) (pos b) e = ground arith
eqb_ℤ-same (negsuc a) (negsuc b) e = ground arith

cached_time-read :
    (localtime : ℤ → Option Tm) (cache : TimeCache) (seconds : ℤ) (t : Tm)
    → IsCached localtime cache seconds t
    → (cached_time localtime cache seconds).0 ≡ t
unfolding cached_time
cached_time-read localtime cache seconds t (read, cached) =
    elim (Bool-cases (eqb_ℤ seconds cache.cache_seconds)) [
      | inl same ↦ rw same (cached (eqb_ℤ-same seconds cache.cache_seconds same))
      | inr other ↦ rw (other, read) refl
    ]

-- With a `localtime_r` that gives `t` for the second of the message, a cache that holds `t` if it is
-- of that second, a time of as many digits as its text has, numbers of at most 64 bits that are not
-- negative, a file name, and a prefix that leaves more than 20 bytes of 4096, the line is the
-- prefix, with the time `t` as in "2024-05-06 07:08:09.000250", the thread in brackets, the name of
-- the level, the file and the line, then the message, whole if it fits and else not at all, then a
-- line feed if it fits; and it is shorter than 4096 bytes.
pub format_log_message-Formats :
    (localtime : ℤ → Option Tm) (cache : TimeCache) (tid line : ℕ) (level : LogLevel) (seconds : ℤ)
    (micros : ℕ) (file : List ℕ) (stream : StackBuffer) (t : Tm)
    → IsCached localtime cache seconds t
    → IsShort t micros
    → tid < 2 ^ 64
    → line < 2 ^ 64
    → let m : LogMessage = record {
      seconds = seconds;
      micros = micros;
      file = some file;
      line = pos line;
      stream = stream;
    } in
      let prefix = line_prefix (stamp t micros) tid level file line in
      length prefix + maximum_number_limit < log_buffer_size
      → (b : StackBuffer) × (format_log_message localtime cache
            (pos tid)
            level
            m
            (init log_buffer_size)
          ≡ ok (b, (cached_time localtime cache seconds).1))
        × (contents b ≡ line_of prefix (contents stream))
        × (length (contents b) < log_buffer_size)
unfolding format_log_message
format_log_message-Formats localtime cache tid line level seconds micros file stream t cached short
      tid_small line_small small =
    let time = time_text (cached_time localtime cache seconds).0 micros in
    let same : line_prefix time tid level file line
        ≡ line_prefix (stamp t micros) tid level file line =
      ap (λ x. line_prefix x tid level file line)
        (ap (λ x. time_text x micros) (cached_time-read localtime cache seconds t cached)
          ∙ time_text-stamp t micros short) in
    let start = line_start time (pos tid) level in
    let middle = before_message file line in
    let whole_prefix : texts start ++ texts middle
        ≡ line_prefix (stamp t micros) tid level file line =
      prefix_texts time file tid line level ∙ same in
    let fits : length (texts start ++ texts middle) + maximum_number_limit < log_buffer_size =
      subst (λ p. length p + maximum_number_limit < log_buffer_size) (sym whole_prefix) small in
    let all = length-append (texts start) (texts middle) in
    let (b, e, v, c) =
      write_parts-Keeps (init log_buffer_size) start init-IsValid
        (tt, (tt, (tid_small, (tt, (tt, (tt, tt)))))) in
    let (b', e', v', c') =
      write_parts-Keeps b (line_rest file (pos line) stream) v
        (tt, (tt, (line_small, (tt, (tt, (tt, tt)))))) in
    let started : contents b ≡ texts start =
      c
      ∙ ap (λ d. keep_all d start) init-contents
      ∙ keep_all-texts [] start (omega (arith, fits, all)) in
    let whole = keep_all-texts (texts start) middle (omega (arith, fits, all)) in
    let read : contents b' ≡ line_of (texts start ++ texts middle) (contents stream) =
      c'
      ∙ ap (λ d. keep_all d (line_rest file (pos line) stream)) started
      ∙ line_rest-keep (texts start) file line stream
      ∙ ap (λ d. line_of d (contents stream)) whole in
    (
      b',
      rw (e, e') refl,
      read ∙ ap (λ p. line_of p (contents stream)) whole_prefix,
      rw read (
          keep-below (keep (texts start ++ texts middle) (bytes (contents stream))) (10 ∷ [])
            (keep-below (texts start ++ texts middle) (contents stream) (omega (arith, fits)))),
    )
