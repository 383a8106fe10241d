-- ===== src/Connector/Reports.antt =====
-- A report that comes with an error and with a writable socket at once, as that of a failed connect.
use nets.Prelude.{ℕ, ◌+◌, ◌≡◌, ◌≢◌, arith, Bool, true, []}
use nets.Connector.{
  connecting, ConnectorChannel, handle_event, handle_error_event, handle_write_event, run_task,
  reconnect, deregister,
}

-- A report with both, on a connector that waits and retries, with a socket error, leads to two
-- scheduled connects.
handle_event-twice :
    (c : ConnectorChannel) (sock_error : ℕ) (initializes : Bool)
    → c.state ≡ connecting
    → c.retry ≡ true
    → c.tasks ≡ []
    → sock_error ≢ 0
    → let d = run_task (run_task (handle_event c true true sock_error initializes)) in
      (d.scheduled ≡ c.scheduled + 2) × (d.tasks ≡ [])
unfolding handle_event handle_error_event handle_write_event run_task reconnect deregister
handle_event-twice c sock_error initializes h r t n = ground arith
