-- ===== src/SocketChannel/Runs.antt =====
-- Any sequence of writes and events of a channel, as a relation of steps.
use nets.Prelude.{
  ℕ, ◌^◌, ◌≤◌, ◌≡◌, refl, ap, sym, ◌∙◌, subst, ◌⊎◌, inl, inr, true, false, Option, List, [], ◌++◌,
  Bool-cases, length, map, drop, append-nil, append_assoc, take-append-drop, if◌then◌else◌,
}
use nets.Memory.{ok}
use nets.ByteBuffer.{Received}
use nets.ByteBuffer.Content.{contents}
use nets.SocketChannel.{SocketChannel, is_inactive, Written, do_write, channel_in_active}
use nets.SocketChannel.Output.{handle_write_event}
use nets.SocketChannel.Input.{handle_read_event, handle_error_event, shutdown, shutdown_how}
use nets.SocketChannel.Blocks.{pending}
use nets.SocketChannel.Vectors.{IsKernel}
use nets.SocketChannel.Stream.{stream, IsSending}
use nets.SocketChannel.Sends.{IsSoft, do_write-Streams}
use nets.SocketChannel.Flush.{Flushes, handle_write_event-Flushes}
use nets.SocketChannel.ReadEvents.{Keeps, handle_read_event-Keeps}

-- An inactive channel takes no data.
abbrev pub accepted_by : SocketChannel → List ℕ → List ℕ
accepted_by c d = if is_inactive c.state then [] else d

-- A step from one state of a channel to the next, and the data that it accepts.
pub data Step : SocketChannel → List ℕ → SocketChannel → Type 0 where
  writes :
      {c c' : SocketChannel} (d : List ℕ) (callback : Option ℕ) (answer : Written)
      → 1 ≤ length d
      → length d ≤ 2 ^ 63
      → IsSoft d answer
      → do_write c d callback answer ≡ ok c'
      → Step c (accepted_by c d) c'
  flushes :
      {c c' : SocketChannel} (answers : ℕ → Written)
      → length c.write_buffer ≤ 512
      → IsKernel answers (map contents c.write_buffer)
      → handle_write_event c answers ≡ ok c'
      → Step c [] c'
  reads :
      {c c' : SocketChannel} (answers : List Received)
      → handle_read_event c answers ≡ ok c'
      → Step c [] c'
  errs : {c : SocketChannel} → Step c [] (handle_error_event c)
  shuts_down : {c : SocketChannel} → Step c [] (shutdown c)

pub data Steps : SocketChannel → List ℕ → SocketChannel → Type 0 where
  none_more : {c : SocketChannel} → Steps c [] c
  then_step :
      {c c' c'' : SocketChannel} {d e : List ℕ}
      → Steps c d c'
      → Step c' e c''
      → Steps c (d ++ e) c''

-- The kernel took a prefix of `all`; the rest waits in valid buffers, or the channel is inactive.
pub record InOrder (all : List ℕ) (c : SocketChannel) : Type 0 where
  pub rest : List ℕ
  pub prefix : all ≡ c.sent ++ rest
  pub waits : (is_inactive c.state ≡ true) ⊎ (IsSending c × (rest ≡ pending c.write_buffer))

closed-InOrder :
    (all : List ℕ) (c c' : SocketChannel) → InOrder all c → ok c ≡ ok c' → InOrder (all ++ []) c'
closed-InOrder all c c' v e =
    let same : c ≡ c' = cc e in
    subst (InOrder (all ++ [])) same
      (record { rest = v.rest; prefix = append-nil all ∙ v.prefix; waits = v.waits })

-- The channel was not inactive.
open-InOrder :
    (all : List ℕ) (c : SocketChannel)
    → InOrder all c
    → is_inactive c.state ≡ false
    → IsSending c × (all ≡ stream c)
open-InOrder all c v opened = elim v.waits [
  | inl closed ↦ cc (closed, opened)
  | inr (s, e) ↦ (s, v.prefix ∙ ap (λ l. c.sent ++ l) e)
]

Keeps-InOrder :
    (all : List ℕ) (c c' : SocketChannel) → all ≡ stream c → Keeps c c' → InOrder (all ++ []) c'
unfolding is_inactive
Keeps-InOrder all c c' e (sent, inl (same, s)) = record {
  rest = pending c'.write_buffer;
  prefix = append-nil all ∙ e ∙ sym same;
  waits = inr (s, refl);
}
Keeps-InOrder all c c' e (sent, inr closed) = record {
  rest = pending c.write_buffer;
  prefix = append-nil all ∙ e ∙ ap (λ l. l ++ pending c.write_buffer) (sym sent);
  waits = inl (ap is_inactive closed);
}

Flushes-InOrder :
    (all : List ℕ) (c c' : SocketChannel) → all ≡ stream c → Flushes c c' → InOrder (all ++ []) c'
unfolding is_inactive
Flushes-InOrder all c c' e f = elim f.kept [
  | inl (same, s) ↦ record {
    rest = pending c'.write_buffer;
    prefix = append-nil all ∙ e ∙ sym same;
    waits = inr (s, refl);
  }
  | inr closed ↦ record {
    rest = drop f.count (pending c.write_buffer);
    prefix =
        append-nil all
        ∙ e
        ∙ ap (λ l. c.sent ++ l) (sym (take-append-drop f.count (pending c.write_buffer)))
        ∙ sym (append_assoc c.sent _ _)
        ∙ ap (λ l. l ++ drop f.count (pending c.write_buffer)) (sym f.took);
    waits = inl (ap is_inactive closed);
  }
]

Step-InOrder :
    (all d : List ℕ) (c c' : SocketChannel) → InOrder all c → Step c d c' → InOrder (all ++ d) c'
unfolding do_write handle_write_event handle_read_event handle_error_event shutdown shutdown_how
    channel_in_active is_inactive
Step-InOrder all d c c' v (writes bytes callback answer some_bytes fit soft e) =
    elim (Bool-cases (is_inactive c.state)) [
      | inl closed ↦ rw closed (closed-InOrder all c c' v (rw closed at e))
      | inr opened ↦
          let (s, same) = open-InOrder all c v opened in
          let (c2, e2, grown, s2) =
            do_write-Streams c bytes callback answer opened s some_bytes fit soft in
          let reached : c2 ≡ c' = cc (e, e2) in
          rw opened (
            subst (InOrder (all ++ bytes)) reached (record {
              rest = pending c2.write_buffer;
              prefix = ap (λ l. l ++ bytes) same ∙ sym grown;
              waits = inr (s2, refl);
            }))
    ]
Step-InOrder all d c c' v (flushes answers few kernel e) = elim (Bool-cases (is_inactive c.state)) [
  | inl closed ↦ closed-InOrder all c c' v (rw closed at e)
  | inr opened ↦
      let (s, same) = open-InOrder all c v opened in
      let (c2, e2, f) = handle_write_event-Flushes c answers opened s few kernel in
      let reached : c2 ≡ c' = cc (e, e2) in
      subst (InOrder (all ++ [])) reached (Flushes-InOrder all c c2 same f)
]
Step-InOrder all d c c' v (reads answers e) = elim (Bool-cases (is_inactive c.state)) [
  | inl closed ↦ closed-InOrder all c c' v (rw closed at e)
  | inr opened ↦
      let (s, same) = open-InOrder all c v opened in
      Keeps-InOrder all c c' same (handle_read_event-Keeps c c' answers s e)
]
Step-InOrder all d c c' v errs = elim (Bool-cases (is_inactive c.state)) [
  | inl closed ↦ rw closed (closed-InOrder all c c v refl)
  | inr opened ↦
      rw opened (record { rest = v.rest; prefix = append-nil all ∙ v.prefix; waits = inl refl })
]
Step-InOrder all d c c' v shuts_down = record {
  rest = v.rest;
  prefix = append-nil all ∙ v.prefix;
  waits = inl refl;
}

-- In every sequence of writes, read, write and error events and shutdowns, from a channel that has
-- sent nothing and holds nothing, with a kernel that takes no more than it is given and at most 512
-- buffers at each write event, the kernel takes a prefix of the accepted data, in order and each
-- byte once; and the rest waits in valid buffers, with the channel waiting to write, unless it is
-- inactive. The writes are of 1 to 2 ^ 63 bytes, and their own calls fail only to be tried again.
pub Steps-InOrder :
    (d : List ℕ) (c c' : SocketChannel)
    → c.sent ≡ []
    → c.write_buffer ≡ []
    → Steps c d c'
    → InOrder d c'
Steps-InOrder d c c' fresh free none_more = record {
  rest = [];
  prefix = rw fresh refl;
  waits = inr (record { filled = rw free tt; armed = inl free }, rw free refl);
}
Steps-InOrder d c c' fresh free (then_step {c' = c1} {d = e} {e = f} before step) =
    Step-InOrder e f c1 c' (Steps-InOrder e c c1 fresh free before) step
