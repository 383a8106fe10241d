-- ===== src/Bootstrap/Stops.antt =====
-- `shutdown` and `isShutdown` of nets/net/bootstrap/AbstractBootstrap.h and ServerBootstrap.cpp.
use nets.Prelude.{ℕ, ◌≡◌, refl, Bool, true, ◌&&◌, List, [], if◌then◌else◌, Bool-cases, inl, inr}
use nets.EventLoop.{EventLoop}
use nets.EventLoop.Rounds.{at_end}
use nets.EventLoop.Shutdown.{shutdown_each, is_shutdown, shutdown_each-Ends}

module _ {ℓ} {A : Type ℓ} (is_current : ℕ → Bool) where
  -- Of a client, and of the main loops of a server.
  unfoldable pub shutdown_unless : List (EventLoop A) → List (EventLoop A)
  unfolding shutdown_each is_shutdown
  shutdown_unless loops = if is_shutdown loops then loops else shutdown_each is_current 0 loops

  unfoldable pub shutdown_server :
      List (EventLoop A) → List (EventLoop A) → List (EventLoop A) × List (EventLoop A)
  unfolding shutdown_unless
  shutdown_server main_loops child_loops = (shutdown_unless main_loops, shutdown_unless child_loops)

  unfoldable pub is_server_shutdown : List (EventLoop A) × List (EventLoop A) → Bool
  unfolding is_shutdown
  is_server_shutdown loops = is_shutdown loops.0 && is_shutdown loops.1

  shutdown_unless-is_shutdown :
      (loops : List (EventLoop A)) → is_shutdown (shutdown_unless loops) ≡ true
  unfolding shutdown_unless
  shutdown_unless-is_shutdown loops = elim (Bool-cases (is_shutdown loops)) [
    | inl done ↦ rw done done
    | inr running ↦ rw running (shutdown_each-Ends is_current 0 loops at_end [] [] 0).0
  ]

  -- After a shutdown of the server both groups are shut down.
  pub shutdown_server-is_server_shutdown :
      (main_loops child_loops : List (EventLoop A))
      → is_server_shutdown (shutdown_server main_loops child_loops) ≡ true
  unfolding shutdown_server is_server_shutdown
  shutdown_server-is_server_shutdown main_loops child_loops =
      rw (shutdown_unless-is_shutdown main_loops, shutdown_unless-is_shutdown child_loops) refl
