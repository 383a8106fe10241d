-- ===== src/SocketChannel/Tests.antt =====
-- Runs of a socket channel at small inputs.
use nets.Prelude.{◌++◌, List, ℕ, zero, suc, ◌≡◌, refl, inl, true, false, some, [], ◌∷◌, arith}
use nets.Memory.{ok}
use nets.ByteBuffer.{ByteBuffer, failed}
use nets.ByteBuffer.Content.{IsValid, contents}
use nets.SocketChannel.{
  SocketChannel, inactive, active, half_close, Written, wrote, do_write, is_inactive, is_transient,
}
use nets.SocketChannel.Input.{
  shutdown, shutdown_read, shutdown_write, handle_read_event, handle_error_event,
}
use nets.SocketChannel.Stream.{IsSending, Streams}
use nets.SocketChannel.Sends.{do_write-Streams}
use nets.SocketChannel.Gathers.{answers_of, handle_read_event-Gathers}
use nets.SocketChannel.ReadEvents.{handle_read_event-shutdown}
use nets.SocketChannel.{
  act, fires_read, adds_callback, write_behind, do_write_directly, finish_write, add_callback,
}
use nets.EventLoop.Rounds as Rounds
use nets.EventLoop.Rounds.{advance, advance_from, pushes, next_round}
use nets.EventLoop.{start_pending_tasks, push_task, must_notify}
use nets.SocketChannel.Active.{write_task, run_writes}
use nets.SocketChannel.Threads.{
  Both, start, Moves, none_more, then_move, other_writes, loop_moves, runs_task, writes-InOrder,
}
use nets.SocketChannel.Runs as Runs
use nets.SocketChannel.Runs.{Steps, then_step, writes, errs, InOrder, Steps-InOrder}

-- Two bytes wait, behind one that was sent.
abbrev waiting : ByteBuffer
waiting = record { buffer = 1 ∷ 2 ∷ 3 ∷ 0 ∷ []; reader_index = 1; writer_index = 3; capacity = 4 }

abbrev idle : SocketChannel
idle = record {
  state = active;
  events = record { reads = true; writes = false };
  write_buffer = [];
  write_complete_callbacks = [];
  sent = 9 ∷ [];
  actions = [];
}

idle-IsSending : IsSending idle
idle-IsSending = record { filled = tt; armed = inl refl }

abbrev busy : SocketChannel
busy = record {
  state = half_close;
  events = record { reads = true; writes = true };
  write_buffer = waiting ∷ [];
  write_complete_callbacks = some 7 ∷ [];
  sent = 9 ∷ [];
  actions = [];
}

do_write-Streams_example :
    Streams idle (4 ∷ 5 ∷ 6 ∷ []) (do_write idle (4 ∷ 5 ∷ 6 ∷ []) (some 7) (wrote 1))
unfolding is_inactive
do_write-Streams_example =
    do_write-Streams idle (4 ∷ 5 ∷ 6 ∷ []) (some 7) (wrote 1) refl idle-IsSending (omega arith)
      (omega arith) (omega arith)

abbrev one_byte : ℕ → Written
one_byte zero = wrote 1
one_byte (suc i) = wrote 0

read_closes : handle_read_event idle (failed 11 ∷ []) ≡ ok (shutdown idle)
unfolding is_inactive is_transient
read_closes = (handle_read_event-shutdown idle 11 refl refl refl).0

closed :
    ((handle_error_event idle).state ≡ inactive)
    × ((shutdown_write busy).write_buffer ≡ [])
    × ((shutdown_read busy).state ≡ half_close)
unfolding handle_error_event shutdown_write shutdown_read
closed = (refl, refl, refl)

abbrev fresh : SocketChannel
fresh = record idle { sent = [] }

-- All three bytes are taken at once.
abbrev all_sent : SocketChannel
all_sent = record fresh { sent = 4 ∷ 5 ∷ 6 ∷ []; actions = adds_callback 7 ∷ [] }

wrote_all : do_write fresh (4 ∷ 5 ∷ 6 ∷ []) (some 7) (wrote 3) ≡ ok all_sent
unfolding do_write write_behind do_write_directly finish_write add_callback is_inactive
wrote_all = refl

two-Steps : Steps fresh (4 ∷ 5 ∷ 6 ∷ []) (handle_error_event all_sent)
unfolding is_inactive
two-Steps =
    then_step
      (then_step Runs.none_more (
        writes (4 ∷ 5 ∷ 6 ∷ []) (some 7) (wrote 3) (omega arith) (omega arith) (omega arith)
          wrote_all))
      errs

Steps-InOrder_example : InOrder (4 ∷ 5 ∷ 6 ∷ []) (handle_error_event all_sent)
Steps-InOrder_example =
    Steps-InOrder (4 ∷ 5 ∷ 6 ∷ []) fresh (handle_error_event all_sent) refl refl two-Steps

-- Two reads, and then nothing for now.
handle_read_event-Gathers_example :
    (b : ByteBuffer) × (handle_read_event idle
        (answers_of ((1 ∷ 2 ∷ []) ∷ (3 ∷ []) ∷ []) (failed 11))
      ≡ ok (act idle (fires_read b)))
    × IsValid b
    × (contents b ≡ 1 ∷ 2 ∷ 3 ∷ [])
unfolding is_inactive is_transient
handle_read_event-Gathers_example =
    handle_read_event-Gathers idle (1 ∷ 2 ∷ []) ((3 ∷ []) ∷ []) (failed 11) refl refl
      (omega arith, omega arith, (omega arith, omega arith, tt)) (omega arith)

-- Another thread writes three bytes, and the loop starts and comes to their task.
abbrev pushed : Both
pushed = record {
  loop = pushes Rounds.init (write_task (4 ∷ 5 ∷ 6 ∷ []) (some 7));
  channel = fresh;
  given = 4 ∷ 5 ∷ 6 ∷ [];
}

abbrev batched : Both
batched = record pushed { loop = advance (advance (advance pushed.loop)) }

abbrev task_done : Both
task_done = record batched { loop = advance batched.loop; channel = all_sent }

task_done-Moves : Moves (start fresh) task_done
unfolding advance advance_from start_pending_tasks next_round pushes push_task must_notify
    write_task run_writes
task_done-Moves =
    then_move
      (then_move
        (then_move
          (then_move (then_move none_more (other_writes (4 ∷ 5 ∷ 6 ∷ []) (some 7)))
            (loop_moves Rounds.advances refl refl))
          (loop_moves Rounds.advances refl refl))
        (loop_moves Rounds.advances refl refl))
      (runs_task (wrote 3) refl (omega arith) (omega arith) (omega arith) (rw wrote_all refl))

writes-InOrder_example : (rest : List ℕ) × (task_done.given ≡ task_done.channel.sent ++ rest)
writes-InOrder_example = writes-InOrder fresh refl refl task_done-Moves
