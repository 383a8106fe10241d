-- ===== src/Bootstrap/Children.antt =====
-- The channels that a server makes for its connections (`handleReadEvent` and `initSocketChannel` of
-- ServerSocketChannel.cpp), on the loops that `ServerBootstrap` has it choose from. A pipeline is modelled with the
-- heap of all handlers.
use nets.Prelude.{
  ℕ, zero, suc, ◌≤◌, ◌<◌, ◌≡◌, refl, true, Option, none, some, List, [], ◌∷◌, ◌++◌, map, All,
  length, take, drop, if◌then◌else◌,
}
use nets.Memory.{Result, ok, err, invalid_access, ◌>>=◌}
use nets.Server.{child_options_fit}
use nets.Pipeline.{Heap, Pipeline}
use nets.Pipeline.Chain.{Holds}
use nets.Pipeline.Shared.{add_all, new_pipeline, first_of, add_all-single, single-Holds}
use nets.EventLoop.Group.{EventLoopGroup, next, nexts, nexts-first, next-Rounds}
use nets.Bootstrap.{ServerSetup}

module _ {ℓ} (A : Type ℓ) where
  -- `initialized_by` is the callback that has been called with the channel.
  pub record NewChannel : Type ℓ where
    pub loop : A
    pub pipeline : Pipeline
    pub initialized_by : Option ℕ

-- The pipeline of the one handler, if there is one.
abbrev pub pipeline_of : ServerSetup → Heap → Pipeline
pipeline_of s h = record { heap = h; head = first_of s.handlers }

module _ {ℓ} {A : Type ℓ} (inet_pton if_nametoindex : List ℕ → ℕ) (fuel : ℕ) where
  -- None where an option of the connection throws.
  unfoldable pub init_socket_channel : ServerSetup → Heap → A → Result (Option (NewChannel A))
  init_socket_channel s h l =
      if child_options_fit inet_pton if_nametoindex s.channel.child_options
      then (add_all fuel (new_pipeline h) s.handlers
          >>= (λ p. ok (some (record { loop = l; pipeline = p; initialized_by = s.callback }))))
      else ok none

  -- A connection. The loop is chosen before the channel is made.
  unfoldable pub accept_child :
      ServerSetup → EventLoopGroup A → Heap → Result (Option (NewChannel A) × EventLoopGroup A)
  unfolding init_socket_channel
  accept_child s g h = elim (next g) [
    | none ↦ err invalid_access
    | some (l, g') ↦ init_socket_channel s h l >>= (λ c. ok (c, g'))
  ]

  abbrev heap_after : Heap → Option (NewChannel A) → Heap
  heap_after h none = h
  heap_after h (some c) = c.pipeline.heap

  abbrev with_child : Option (NewChannel A) → List (NewChannel A) → List (NewChannel A)
  with_child none cs = cs
  with_child (some c) cs = c ∷ cs

  -- As many connections, one after the other.
  unfoldable pub accept_children :
      ℕ → ServerSetup → EventLoopGroup A → Heap → Result (List (NewChannel A) × EventLoopGroup A)
  unfolding accept_child
  accept_children zero s g h = ok ([], g)
  accept_children (suc n) s g h = accept_child s g h >>= (λ r.
      accept_children n s r.1 (heap_after h r.0) >>= (λ rest. ok (with_child r.0 rest.0, rest.1)))

  abbrev pub child_of : ServerSetup → Heap → A → NewChannel A
  child_of s h l = record { loop = l; pipeline = pipeline_of s h; initialized_by = s.callback }

  module _ (s : ServerSetup) (h : Heap) (few : length s.handlers ≤ 1)
      (fit : child_options_fit inet_pton if_nametoindex s.channel.child_options ≡ true) where
    accept_child-next :
        (g : EventLoopGroup A) (l : A) (g' : EventLoopGroup A)
        → next g ≡ some (l, g')
        → accept_child s g h ≡ ok (some (child_of s h l), g')
    unfolding accept_child init_socket_channel
    accept_child-next g l g' e =
        rw (e, accept_child, fit, add_all-single fuel h s.handlers few) refl

    accept_children-nexts :
        (n : ℕ) (g : EventLoopGroup A) (ls : List A) (g' : EventLoopGroup A)
        → nexts n g ≡ some (ls, g')
        → accept_children n s g h ≡ ok (map (child_of s h) ls, g')
    unfolding accept_children nexts
    accept_children-nexts zero g ls g' e = cc e
    accept_children-nexts (suc n) g ls g' e =
        let (l, g₁, ls', f, r, same) = nexts-first n g ls g' e in
        rw (accept_child-next g l g₁ f, accept_children-nexts n g₁ ls' g' r, same) refl

  -- With at most one handler, which has no successor, child options that fit, and a turn within the
  -- loops, as many connections as there are loops are handed over one to each loop, from the one
  -- whose turn it is, each with a pipeline of that handler and the callback, and leave the turn as
  -- it was.
  pub accept_children-Rounds :
      (s : ServerSetup) (h : Heap) (g : EventLoopGroup A)
      → length s.handlers ≤ 1
      → All (λ x. (h x).next ≡ none) s.handlers
      → child_options_fit inet_pton if_nametoindex s.channel.child_options ≡ true
      → g.next_loop < length g.event_loops
      → (accept_children (length g.event_loops) s g h
          ≡ ok (
            map (child_of s h) (drop g.next_loop g.event_loops ++ take g.next_loop g.event_loops),
            g,
          ))
        × Holds (pipeline_of s h) s.handlers
  accept_children-Rounds s h g few free fit at = (
    accept_children-nexts s h few fit (length g.event_loops) g _ g (next-Rounds g at),
    single-Holds h s.handlers few free,
  )
