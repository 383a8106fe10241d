-- ===== src/SocketChannel/Threads.antt =====
-- A channel and its loop, to which other threads add writes: `write` of nets/net/channel/SocketChannel.cpp
-- and `addTask` of nets/net/core/EventLoop.h.
use nets.Prelude.{
  ℕ, ◌^◌, ◌≤◌, ◌≡◌, refl, ap, sym, ◌∙◌, subst, ◌⊎◌, inl, inr, true, false, Option, List, [], ◌∷◌,
  ◌++◌, length, map, append-nil, append_assoc, Bool-cases,
}
use nets.Memory.{Result, ok, err, ◌>>=◌}
use nets.EventLoop.{EventLoop, execute, add_task}
use nets.EventLoop.Rounds as Rounds
use nets.EventLoop.Rounds.{Loop, pushes, advance, advance_from, in_tasks, in_batch, Stage}
use nets.EventLoop.Wakes.{runs-InOrder}
use nets.SocketChannel.{SocketChannel, is_inactive, Written, do_write, channel_in_active}
use nets.SocketChannel.Output.{concat, handle_write_event}
use nets.SocketChannel.Input.{handle_read_event, handle_error_event, shutdown, shutdown_how}
use nets.SocketChannel.Sends.{IsSoft}
use nets.SocketChannel.Active.{Write, write, write_task, run_writes}
use nets.SocketChannel.Runs as Runs
use nets.SocketChannel.Runs.{
  Step, writes, flushes, reads, errs, shuts_down, accepted_by, Steps-InOrder,
}

-- `given` is the data that other threads have passed to `write`, in the order of their pushes.
pub record Both : Type 0 where
  pub loop : Loop Write
  pub channel : SocketChannel
  pub given : List ℕ

-- Another thread writes, and pushes its task; the loop goes on, or is woken up or stopped, and runs no
-- task; it runs the next task, on the channel; or the channel has an event.
pub data Move (s : Both) : Both → Type 0 where
  other_writes :
      (bytes : List ℕ) (callback : Option ℕ)
      → Move s
          (record s { loop = pushes s.loop (write_task bytes callback); given = s.given ++ bytes })
  loop_moves :
      {l : Loop Write}
      → Rounds.Step s.loop l
      → l.added ≡ s.loop.added
      → l.ran ≡ s.loop.ran
      → Move s (record s { loop = l })
  runs_task :
      {c : SocketChannel} {w : Write} {ws : List Write} (answer : Written)
      → s.loop.stage ≡ in_tasks (w ∷ ws)
      → 1 ≤ length w.0
      → length w.0 ≤ 2 ^ 63
      → IsSoft w.0 answer
      → run_writes s.channel (w ∷ []) answer ≡ ok c
      → Move s (record s { loop = advance s.loop; channel = c })
  has_event : {c : SocketChannel} → Step s.channel [] c → Move s (record s { channel = c })

pub data Moves (s : Both) : Both → Type 0 where
  none_more : Moves s s
  then_move : {t u : Both} → Moves s t → Move t u → Moves s u

-- A write of another thread leaves the channel as it is, and adds its task.
write-add_task :
    (l : EventLoop Write) (c : SocketChannel) (bytes : List ℕ) (callback : Option ℕ)
    (answer : Written)
    → write l c bytes callback false answer ≡ ok (add_task l (write_task bytes callback) false, c)
unfolding write execute run_writes
write-add_task l c bytes callback answer = refl

-- The data of writes, in order.
abbrev pub data_of : List Write → List ℕ
data_of ws = concat (map (λ w. w.0) ws)

data_of-append : (ws vs : List Write) → data_of (ws ++ vs) ≡ data_of ws ++ data_of vs
data_of-append [] vs = refl
data_of-append (w ∷ ws) vs =
    ap (◌++◌ w.0) (data_of-append ws vs) ∙ sym (append_assoc w.0 (data_of ws) (data_of vs))

data_of-one : (ws : List Write) (w : Write) → data_of (ws ++ (w ∷ [])) ≡ data_of ws ++ w.0
data_of-one ws w = data_of-append ws (w ∷ []) ∙ ap (◌++◌ (data_of ws)) (append-nil w.0)

-- An inactive channel stays so.
same_state :
    (c c' : SocketChannel) → is_inactive c.state ≡ true → ok c ≡ ok c' → is_inactive c'.state ≡ true
same_state c c' closed e =
    let same : c ≡ c' = cc e in subst (λ d. is_inactive d.state ≡ true) same closed

Step-inactive :
    {c c' : SocketChannel} {d : List ℕ}
    → Step c d c'
    → is_inactive c.state ≡ true
    → is_inactive c'.state ≡ true
unfolding do_write handle_write_event handle_read_event handle_error_event shutdown shutdown_how
    channel_in_active is_inactive
Step-inactive {c} {c'} (writes bytes callback answer some_bytes fit soft e) closed =
    same_state c c' closed (rw closed at e)
Step-inactive {c} {c'} (flushes answers few kernel e) closed =
    same_state c c' closed (rw closed at e)
Step-inactive {c} {c'} (reads answers e) closed = same_state c c' closed (rw closed at e)
Step-inactive {c} errs closed = rw closed closed
Step-inactive shuts_down closed = refl

ran_alone : (r : Result SocketChannel) (c : SocketChannel) → (r >>= (λ d. ok d)) ≡ ok c → r ≡ ok c
ran_alone (ok d) c e = e
ran_alone (err x) c e = e

advance-ran :
    (s : Loop Write) (w : Write) (ws : List Write)
    → s.stage ≡ in_tasks (w ∷ ws)
    → ((advance s).ran ≡ s.ran ++ (w ∷ [])) × ((advance s).added ≡ s.added)
unfolding advance advance_from
advance-ran s w ws e = rw e (refl, refl)

-- What the channel has accepted is what has run, up to its end.
pub record Links (c : SocketChannel) (s : Both) : Type 0 where
  pub accepted : List ℕ
  pub later : List ℕ
  pub steps : Runs.Steps c accepted s.channel
  pub ran : data_of s.loop.ran ≡ accepted ++ later
  pub lasts : (later ≡ []) ⊎ (is_inactive s.channel.state ≡ true)
  pub given : data_of s.loop.added ≡ s.given
  pub reached : Rounds.Steps Rounds.init s.loop

ended :
    (later : List ℕ) (c c' : SocketChannel) {d : List ℕ}
    → Step c d c'
    → (later ≡ []) ⊎ (is_inactive c.state ≡ true)
    → (later ≡ []) ⊎ (is_inactive c'.state ≡ true)
ended later c c' m (inl e) = inl e
ended later c c' m (inr closed) = inr (Step-inactive m closed)

-- The data of a task that runs is accepted, or the channel is inactive.
accepted-next :
    (c : SocketChannel) (a later d : List ℕ)
    → (later ≡ []) ⊎ (is_inactive c.state ≡ true)
    → (later' : List ℕ) × ((a ++ later) ++ d ≡ (a ++ accepted_by c d) ++ later')
      × ((later' ≡ []) ⊎ (is_inactive c.state ≡ true))
accepted-next c a later d h = elim (Bool-cases (is_inactive c.state)) [
  | inl closed ↦ rw closed (
    later ++ d,
    append_assoc a later d ∙ ap (λ l. l ++ (later ++ d)) (sym (append-nil a)),
    inr refl,
  )
  | inr opened ↦ elim h [
    | inl none_left ↦
        rw (opened, none_left)
          ([], ap (λ l. l ++ d) (append-nil a) ∙ sym (append-nil (a ++ d)), inl refl)
    | inr closed ↦ absurd (cc (closed, opened))
  ]
]

Move-Links : {c : SocketChannel} {s t : Both} → Move s t → Links c s → Links c t
unfolding pushes write_task run_writes
Move-Links {s = s} (other_writes bytes callback) h = record {
  accepted = h.accepted;
  later = h.later;
  steps = h.steps;
  ran = h.ran;
  lasts = h.lasts;
  given = data_of-one s.loop.added (bytes, callback) ∙ ap (λ l. l ++ bytes) h.given;
  reached = Rounds.then_step h.reached (Rounds.other_pushes (bytes, callback));
}
Move-Links {s = s} (loop_moves {l} m same_added same_ran) h = record {
  accepted = h.accepted;
  later = h.later;
  steps = h.steps;
  ran = ap data_of same_ran ∙ h.ran;
  lasts = h.lasts;
  given = ap data_of same_added ∙ h.given;
  reached = Rounds.then_step h.reached m;
}
Move-Links {s = s} (runs_task {c = c'} {w} {ws} answer e some_bytes fit soft r) h =
    let m : Step s.channel (accepted_by s.channel w.0) c' =
      writes w.0 w.1 answer some_bytes fit soft (ran_alone _ c' r) in
    let (later', same, lasts) = accepted-next s.channel h.accepted h.later w.0 h.lasts in
    let (ran', added') = advance-ran s.loop w ws e in
    record {
      accepted = h.accepted ++ accepted_by s.channel w.0;
      later = later';
      steps = Runs.then_step h.steps m;
      ran = ap data_of ran' ∙ data_of-one s.loop.ran w ∙ ap (λ l. l ++ w.0) h.ran ∙ same;
      lasts = ended later' s.channel c' m lasts;
      given = ap data_of added' ∙ h.given;
      reached = Rounds.then_step h.reached Rounds.advances;
    }
Move-Links {s = s} (has_event {c = c'} m) h = record {
  accepted = h.accepted ++ [];
  later = h.later;
  steps = Runs.then_step h.steps m;
  ran = h.ran ∙ ap (λ l. l ++ h.later) (sym (append-nil h.accepted));
  lasts = ended h.later s.channel c' m h.lasts;
  given = h.given;
  reached = h.reached;
}

-- The loop as its constructor leaves it, and a channel to which nothing was given.
abbrev pub start : SocketChannel → Both
start c = record { loop = Rounds.init; channel = c; given = [] }

Moves-Links : {c : SocketChannel} {s : Both} → Moves (start c) s → Links c s
Moves-Links none_more = record {
  accepted = [];
  later = [];
  steps = Runs.none_more;
  ran = refl;
  lasts = inl refl;
  given = refl;
  reached = Rounds.none_more;
}
Moves-Links (then_move r m) = Move-Links m (Moves-Links r)

-- For a channel that has sent nothing and holds nothing, in every interleaving of writes of other
-- threads, of 1 to 2 ^ 63 bytes, each of which pushes its task and wakes the loop up, of the moves
-- of the loop, which runs these tasks on the channel, and of events of the channel as in `Steps-
-- InOrder`, with kernel answers as there, the kernel takes a prefix of the data of all writes, in
-- the order of their pushes and each byte once.
pub writes-InOrder :
    {s : Both} (c : SocketChannel)
    → c.sent ≡ []
    → c.write_buffer ≡ []
    → Moves (start c) s
    → (rest : List ℕ) × (s.given ≡ s.channel.sent ++ rest)
writes-InOrder {s = s} c fresh free moves =
    let h = Moves-Links moves in
    let o = Steps-InOrder h.accepted c s.channel fresh free h.steps in
    let waiting = data_of (in_batch s.loop.stage ++ s.loop.event_loop.pending_tasks) in
    (
      o.rest ++ (h.later ++ waiting),
      sym h.given
          ∙ ap data_of (runs-InOrder h.reached)
          ∙ data_of-append s.loop.ran (in_batch s.loop.stage ++ s.loop.event_loop.pending_tasks)
          ∙ ap (λ l. l ++ waiting) h.ran
          ∙ append_assoc h.accepted h.later waiting
          ∙ ap (λ l. l ++ (h.later ++ waiting)) o.prefix
          ∙ append_assoc s.channel.sent o.rest (h.later ++ waiting),
    )
