-- ===== src/Connector/Descriptors.antt =====
-- Every descriptor that the connector opens is closed, handed over, or still its own.
use nets.Prelude.{
  ℕ, ◌+◌, ◌≤◌, ◌≡◌, ◌⊎◌, Bool, true, false, Option, none, some, List, [], ◌∷◌, ◌++◌, total,
  if◌then◌else◌,
}
use nets.Connector.{
  ConnectionState, connected_state, connecting, disconnected, Task, ConnectorChannel, ConnectError,
  connect, handle_event, run_task, destroy,
}

-- The fields in order: the descriptor, the state, whether it retries and has the write event, whether
-- it is registered, its tasks, the scheduled connects, and the three lists.
abbrev channel :
    Option ℕ
    → ConnectionState
    → Bool
    → Bool
    → Bool
    → List Task
    → ℕ
    → List ℕ
    → List ℕ
    → List ℕ
    → ConnectorChannel
channel fd state retry w registered tasks n opened closed connected = record {
  sock_fd = fd;
  state = state;
  retry = retry;
  has_write_event = w;
  is_registered = registered;
  tasks = tasks;
  scheduled = n;
  opened = opened;
  closed = closed;
  connected = connected;
  failed = false;
}

abbrev AtMostOne : List Task → Type 0
AtMostOne ts = (ts ≡ []) ⊎ ((t : Task) × (ts ≡ t ∷ []))

-- Whatever the weights, what was opened weighs as much as what was closed, handed over and kept.
abbrev Owned : List ℕ → List ℕ → List ℕ → List ℕ → Type 0
Owned opened closed connected kept =
    (w : ℕ → ℕ) → total w opened ≡ total w closed + (total w connected + total w kept)

-- Before a connect; while it waits for one; after it has given one up; after one; and after an
-- exception for a descriptor that is closed and still its own.
pub data IsSound (c : ConnectorChannel) : Type 0 where
  fresh :
      (r w : Bool) (n : ℕ) (o cl co : List ℕ)
      → n ≤ 1
      → Owned o cl co []
      → c ≡ channel none disconnected r w false [] n o cl co
      → IsSound c
  waiting :
      (fd : ℕ) (r w : Bool) (ts : List Task) (o cl co : List ℕ)
      → AtMostOne ts
      → Owned o cl co (fd ∷ [])
      → c ≡ channel (some fd) connecting r w true ts 0 o cl co
      → IsSound c
  given_up :
      (fd : ℕ) (was_connecting r w : Bool) (o cl co : List ℕ)
      → Owned o cl co (fd ∷ [])
      → c
        ≡ channel
            (some fd)
            (if was_connecting then connecting else disconnected)
            r
            w
            false
            []
            0
            o
            cl
            co
      → IsSound c
  threw :
      (fd : ℕ) (st : ConnectionState) (r w b : Bool) (o cl co : List ℕ)
      → ¬ (st ≡ connected_state)
      → Owned o cl co (fd ∷ [])
      → c ≡ record (channel (some fd) st r w b [] 0 o (cl ++ (fd ∷ [])) co) { failed = true }
      → IsSound c
  done :
      (fd : ℕ) (r w : Bool) (o cl co : List ℕ)
      → Owned o cl co []
      → c ≡ channel (some fd) connected_state r w false [] 0 o cl co
      → IsSound c

-- What can happen to a connector: its scheduled connect, a report of epoll when no task waits, which
-- comes with an error or with a writable socket and not both, and the next task.
pub data Step (c : ConnectorChannel) : ConnectorChannel → Type 0 where
  connects :
      (fd : ℕ) (error : Option ConnectError) (registers initializes : Bool)
      → c.failed ≡ false
      → c.scheduled ≡ 1
      → Step c (connect (record c { scheduled = 0 }) fd error registers initializes)
  reports :
      (error_ready write_ready : Bool) (sock_error : ℕ) (initializes : Bool)
      → c.failed ≡ false
      → c.is_registered ≡ true
      → c.tasks ≡ []
      → (error_ready ≡ false) ⊎ (write_ready ≡ false)
      → Step c (handle_event c error_ready write_ready sock_error initializes)
  runs : c.failed ≡ false → Step c (run_task c)

pub data Steps (c : ConnectorChannel) : ConnectorChannel → Type 0 where
  none_more : Steps c c
  then_step : {d e : ConnectorChannel} → Steps c d → Step d e → Steps c e

-- The descriptors that are closed once too often: none, but for that of a connector that an exception
-- has left.
abbrev pub Twice : ConnectorChannel → List ℕ → Type 0
Twice c twice = if c.failed then ((fd : ℕ) × (twice ≡ fd ∷ [])) else twice ≡ []

abbrev EndsOwned : ConnectorChannel → (ℕ → ℕ) → List ℕ → Type 0
EndsOwned c w twice =
    total w c.opened + total w twice ≡ total w (destroy c).closed + total w (destroy c).connected
