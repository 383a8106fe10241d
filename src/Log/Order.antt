-- ===== src/Log/Order.antt =====
-- What is logged reaches the files in order.
use nets.Prelude.{
  ℕ, ◌+◌, ◌-◌, ◌≤◌, ◌≡◌, ◌⊎◌, Option, refl, ap, sym, ◌∙◌, inl, inr, Bool, true, false, none, some,
  List, [], ◌∷◌, ◌++◌, arith, length, append_assoc, append-nil, Bool-cases, ltb, if◌then◌else◌,
  lt→ltb, map, All, ◌≢◌, ◌==◌, leb, ◌/◌,
}
use nets.Log.{
  LogFile, write, put_archive, seconds_per_day, rename_by_now_time, log_buffer_piece_size,
  FileLogAppender, LogFileType, Renaming, then_write, with_log_file, single_file, daily_file,
  rolling_file, writable_bytes, append, collect, limit_buffers, maximum_of_log_buffer, sync_single,
  sync_daily, sync_rolling, sync_buffer, set_log_file_rolling_size,
}

abbrev pub concat {ℓ} : {A : Type ℓ} → List (List A) → List A
concat [] = []
concat (xs ∷ xss) = xs ++ concat xss

concat-append {ℓ} :
    {A : Type ℓ} (xss yss : List (List A)) → concat (xss ++ yss) ≡ concat xss ++ concat yss
concat-append [] yss = refl
concat-append (xs ∷ xss) yss =
    ap (◌++◌ xs) (concat-append xss yss) ∙ sym (append_assoc xs (concat xss) (concat yss))

-- All that the files hold, oldest first.
abbrev pub written : LogFile → List ℕ
written f = concat (map (λ x. x.1) f.archived) ++ f.current

-- No renamed file has this name.
abbrev pub IsFresh : ℕ → LogFile → Type 0
IsFresh name f = All (λ x. x.0 ≢ name) f.archived

-- Whether the file is renamed before the buffer is written.
abbrev pub is_rolled_as : LogFileType → FileLogAppender → ℕ → List ℕ → Bool
is_rolled_as single_file a now buffer = false
is_rolled_as daily_file a now buffer = ltb seconds_per_day (now - a.log_file.last_roll_time)
is_rolled_as rolling_file a now buffer =
    leb a.log_file_rolling_size ((a.log_file.size + length buffer) / 1024)

abbrev pub is_rolled : FileLogAppender → ℕ → List ℕ → Bool
is_rolled a now buffer = is_rolled_as a.log_file_type a now buffer

pub put_archive-fresh :
    (now : ℕ) (content : List ℕ) (xs : List (ℕ × List ℕ))
    → All (λ x. x.0 ≢ now) xs
    → put_archive now content xs ≡ xs ++ ((now, content) ∷ [])
unfolding put_archive
put_archive-fresh now content [] h = refl
put_archive-fresh now content (x ∷ xs) h =
    let other : (x.0 == now) ≡ false = ground (arith, h.0) in
    rw other (ap (◌∷◌ x) (put_archive-fresh now content xs h.1))

pub concat-archived :
    (xs : List (ℕ × List ℕ)) (now : ℕ) (content : List ℕ)
    → concat (map (λ x. x.1) (xs ++ ((now, content) ∷ []))) ≡ concat (map (λ x. x.1) xs) ++ content
concat-archived [] now content = append-nil content
concat-archived (x ∷ xs) now content =
    ap (◌++◌ x.1) (concat-archived xs now content)
    ∙ sym (append_assoc x.1 (concat (map (λ y. y.1) xs)) content)

write-written : (f : LogFile) (bytes : List ℕ) → written (write f bytes) ≡ written f ++ bytes
unfolding write
write-written f bytes = sym (append_assoc (concat (map (λ x. x.1) f.archived)) f.current bytes)

-- The file after the renaming, if any, and the write.
Extends : List ℕ → LogFile → Option LogFile → Type 0
Extends bytes f none = Unit {0}
Extends bytes f (some f') = written f' ≡ written f ++ bytes

renamed-Extends :
    (f : LogFile) (answer : Renaming) (now : ℕ) (bytes : List ℕ)
    → IsFresh answer.name f
    → Extends bytes f (then_write bytes (rename_by_now_time f answer now))
unfolding Extends then_write rename_by_now_time write
renamed-Extends f answer now bytes h =
    let name = answer.name in
    let old = concat (map (λ x. x.1) f.archived) in
    elim (Bool-cases answer.is_opened) [
      | inr shut ↦ rw shut tt
      | inl opened ↦ elim (Bool-cases answer.is_renamed) [
        | inr kept ↦ rw (opened, kept) (sym (append_assoc old f.current bytes))
        | inl renamed ↦
            rw
              (
                opened,
                renamed,
                put_archive-fresh name f.current f.archived h,
                concat-archived f.archived name f.current,
              )
              refl
      ]
    ]

rolled-Extends :
    (f : LogFile) (answer : Renaming) (now : ℕ) (b : Bool) (bytes : List ℕ)
    → (b ≡ false) ⊎ IsFresh answer.name f
    → Extends bytes f (then_write bytes (if b then rename_by_now_time f answer now else some f))
unfolding Extends then_write write
rolled-Extends f answer now false bytes h = write-written f bytes
rolled-Extends f answer now true bytes (inl never) = absurd (ground (arith, never))
rolled-Extends f answer now true bytes (inr h) = renamed-Extends f answer now bytes h

with_log_file-written :
    (a a' : FileLogAppender) (bytes : List ℕ) (o : Option LogFile)
    → Extends bytes a.log_file o
    → with_log_file a o ≡ some a'
    → (written a'.log_file ≡ written a.log_file ++ bytes)
      × (a'.buffers ≡ a.buffers)
      × (a'.cache_buffer ≡ a.cache_buffer)
unfolding Extends
with_log_file-written a a' bytes none h e = absurd (ground (arith, e))
with_log_file-written a a' bytes (some f) h e = ground (arith, h, e)

synced-Extends :
    (a : FileLogAppender) (type : LogFileType) (answer : Renaming) (now : ℕ) (buffer : List ℕ)
    → (is_rolled_as type a now buffer ≡ false) ⊎ IsFresh answer.name a.log_file
    → Extends buffer a.log_file (elim type [
      | single_file ↦ some (sync_single a.log_file buffer)
      | daily_file ↦ sync_daily a.log_file answer now buffer
      | rolling_file ↦ sync_rolling a.log_file answer a.log_file_rolling_size now buffer
    ])
unfolding Extends sync_single sync_daily sync_rolling
synced-Extends a single_file answer now buffer h = write-written a.log_file buffer
synced-Extends a daily_file answer now buffer h =
    rolled-Extends a.log_file answer now (ltb seconds_per_day (now - a.log_file.last_roll_time))
      buffer h
synced-Extends a rolling_file answer now buffer h =
    rolled-Extends a.log_file answer now
      (leb a.log_file_rolling_size ((a.log_file.size + length buffer) / 1024)) buffer h

sync_buffer-written :
    (a a' : FileLogAppender) (answer : Renaming) (now : ℕ) (buffer : List ℕ)
    → (is_rolled a now buffer ≡ false) ⊎ IsFresh answer.name a.log_file
    → sync_buffer a answer now buffer ≡ some a'
    → (written a'.log_file ≡ written a.log_file ++ buffer)
      × (a'.buffers ≡ a.buffers)
      × (a'.cache_buffer ≡ a.cache_buffer)
unfolding sync_buffer
sync_buffer-written a a' answer now buffer h e =
    with_log_file-written a a' buffer _ (synced-Extends a a.log_file_type answer now buffer h) e

-- The appender, with the batch that its thread writes, and all that was logged.
pub record Logger : Type 0 where
  pub appender : FileLogAppender
  pub batch : List (List ℕ)
  pub logged : List ℕ

-- A caller logs up to 4096 bytes; the thread, with nothing to write, takes at most 24 buffers, or
-- writes the next one: where the file is renamed first, no file has the name that it is given.
pub data Step (s : Logger) : Logger → Type 0 where
  logs :
      (bytes : List ℕ)
      → length bytes ≤ 4096
      → Step s (record s { appender = append s.appender bytes; logged = s.logged ++ bytes })
  collects :
      {batch : List (List ℕ)} {a : FileLogAppender}
      → s.batch ≡ []
      → collect s.appender ≡ some (batch, a)
      → (warning : List ℕ) → length batch ≤ maximum_of_log_buffer
      → Step s (record s { appender = a; batch = limit_buffers batch warning })
  writes :
      {buffer : List ℕ} {rest : List (List ℕ)} {a : FileLogAppender} (answer : Renaming) (now : ℕ)
      → s.batch ≡ buffer ∷ rest
      → (is_rolled s.appender now buffer ≡ false) ⊎ IsFresh answer.name s.appender.log_file
      → sync_buffer s.appender answer now buffer ≡ some a
      → Step s (record s { appender = a; batch = rest })
  resizes : (n : ℕ) → Step s (record s { appender = set_log_file_rolling_size s.appender n })

pub data Logs (s : Logger) : Logger → Type 0 where
  none_more : Logs s s
  then_step : {t u : Logger} → Logs s t → Step t u → Logs s u

-- In the files, in the batch, in the full buffers, in the cache.
abbrev pub InOrder : Logger → Type 0
InOrder s =
    s.logged
    ≡ written s.appender.log_file
      ++ (concat s.batch ++ (concat s.appender.buffers ++ s.appender.cache_buffer))

append-InOrder :
    (a : FileLogAppender) (bytes : List ℕ)
    → length bytes ≤ 4096
    → concat (append a bytes).buffers ++ (append a bytes).cache_buffer
      ≡ (concat a.buffers ++ a.cache_buffer) ++ bytes
unfolding append
append-InOrder a bytes h = elim (Bool-cases (ltb (length bytes) (writable_bytes a.cache_buffer))) [
  | inl room ↦ rw room (sym (append_assoc (concat a.buffers) a.cache_buffer bytes))
  | inr full ↦
      let fits : ltb (length bytes) log_buffer_piece_size ≡ true = lt→ltb _ _ (omega arith) in
      rw (full, fits)
        (ap (λ l. l ++ bytes)
          (concat-append a.buffers (a.cache_buffer ∷ [])
            ∙ ap (◌++◌ (concat a.buffers)) (append-nil a.cache_buffer)))
]

collect-InOrder :
    (a a' : FileLogAppender) (batch : List (List ℕ))
    → collect a ≡ some (batch, a')
    → (concat batch ≡ concat a.buffers ++ a.cache_buffer)
      × (a'.buffers ≡ [])
      × (a'.cache_buffer ≡ [])
      × (a'.log_file ≡ a.log_file)
unfolding collect
collect-InOrder a a' batch e =
    ground (arith, concat-append a.buffers (a.cache_buffer ∷ []), append-nil a.cache_buffer)

limit_buffers-short :
    (batch : List (List ℕ)) (warning : List ℕ)
    → length batch ≤ maximum_of_log_buffer
    → limit_buffers batch warning ≡ batch
unfolding limit_buffers
limit_buffers-short batch warning h = ground arith

append-log_file : (a : FileLogAppender) (bytes : List ℕ) → (append a bytes).log_file ≡ a.log_file
unfolding append
append-log_file a bytes = ground arith

step-InOrder : {s t : Logger} → Step s t → InOrder s → InOrder t
unfolding set_log_file_rolling_size
step-InOrder {s} (logs bytes h) o =
    let a = s.appender in
    let w = written a.log_file in
    let c = concat s.batch in
    rw (append-log_file a bytes, append-InOrder a bytes h)
      (ap (λ l. l ++ bytes) o
        ∙ append_assoc w (c ++ (concat a.buffers ++ a.cache_buffer)) bytes
        ∙ ap (◌++◌ w) (append_assoc c (concat a.buffers ++ a.cache_buffer) bytes))
step-InOrder {s} (collects {batch} {a} none_left e warning h) o =
    let (b, x, y, z) = collect-InOrder s.appender a batch e in
    rw (limit_buffers-short batch warning h, z, x, y, append-nil (concat batch), b)
      (o
        ∙ ap
            (λ l.
              written s.appender.log_file
              ++ (concat l ++ (concat s.appender.buffers ++ s.appender.cache_buffer)))
            none_left)
step-InOrder {s} (writes {buffer} {rest} {a = a'} answer now e f w) o =
    let a = s.appender in
    let tail = concat a.buffers ++ a.cache_buffer in
    let (all, kept, cache) = sync_buffer-written a a' answer now buffer f w in
    rw (all, kept, cache)
      (o
        ∙ ap (λ l. written a.log_file ++ (concat l ++ tail)) e
        ∙ ap (◌++◌ (written a.log_file)) (append_assoc buffer (concat rest) tail)
        ∙ sym (append_assoc (written a.log_file) buffer (concat rest ++ tail)))
step-InOrder {s} (resizes n) o = o

-- With callers that log up to 4096 bytes at a time, a thread that takes at most 24 buffers at a
-- time, a disk that takes all, and where a file is renamed no other file with the name that it is
-- given, all bytes that were logged are in the files, then the batch, then the full buffers, then
-- the cache, in the order of their logging, in every sequence of logging, taking, writing and
-- changes of the limit, whether renaming succeeds or fails, up to an `fopen` that fails.
pub Logs-InOrder : {s t : Logger} → Logs s t → InOrder s → InOrder t
Logs-InOrder none_more o = o
Logs-InOrder (then_step r m) o = step-InOrder m (Logs-InOrder r o)
