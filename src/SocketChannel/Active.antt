-- ===== src/SocketChannel/Active.antt =====
-- The start of a socket channel, and its writes from any thread.
use nets.Prelude.{ℕ, Bool, true, false, Option, List, [], ◌∷◌}
use nets.Memory.{Result, ok, ◌>>=◌}
use nets.EventLoop.{EventLoop, execute}
use nets.SocketChannel.{SocketChannel, active, Written, fires_connect, act, do_write}

-- `registers` is what `registerTo` returns. Where it is false the channel is not registered.
unfoldable pub channel_active : SocketChannel → Bool → SocketChannel
channel_active c registers =
    let reading = record c { events = record c.events { reads = true } } in
    elim registers [
      | true ↦ act (record reading { state = active }) fires_connect
      | false ↦ reading
    ]

-- The data of a write, which the task of another thread copies, and its callback.
abbrev pub Write : Type 0
Write = List ℕ × Option ℕ

unfoldable pub run_writes : SocketChannel → List Write → Written → Result SocketChannel
unfolding do_write
run_writes c [] answer = ok c
run_writes c (w ∷ ws) answer = do_write c w.0 w.1 answer >>= (λ c'. run_writes c' ws answer)

-- What the task of a write is bound to: a copy of the data, and the callback.
unfoldable pub write_task : List ℕ → Option ℕ → Write
write_task bytes callback = (bytes, callback)

-- `write`: at once in the loop's own thread, and else by a task of the loop.
unfoldable pub write :
    EventLoop Write
    → SocketChannel
    → List ℕ
    → Option ℕ
    → Bool
    → Written
    → Result (EventLoop Write × SocketChannel)
unfolding execute write_task run_writes
write l c bytes callback in_loop answer =
    let (l', now) = execute l (write_task bytes callback) in_loop in
    run_writes c now answer >>= (λ c'. ok (l', c'))
