-- ===== src/Pipeline/Events.antt =====
-- nets/net/core/SocketChannelHandlerPipeline.cpp, SocketChannelHandler.cpp and their datagram siblings: an event
-- that goes to the first handler, and from a handler to the next one. The pipelines differ in their
-- events only, so `M` is what an event carries. A handler gets it by reference, so it may change it, and
-- then passes it on or not; the handlers of the library pass it on as it is.
use nets.Prelude.{
  ℕ, zero, suc, ◌≤◌, ◌≡◌, refl, Bool, true, false, Option, none, some, List, [], ◌∷◌, arith, All,
  length, if◌then◌else◌,
}
use nets.Memory.{Result, ok, err, invalid_access, diverges, ◌>>=◌}
use nets.Pipeline.{Heap, Pipeline}
use nets.Pipeline.Chain.{Chain}

module _ {ℓ} {M : Type ℓ} (channel_event : ℕ → M → M × Bool) (is_handler : ℕ → Bool) where
  abbrev after_event : ℕ → M → Bool → Result (List (ℕ × M)) → Result (List (ℕ × M))
  after_event x m true rest = rest >>= (λ calls. ok ((x, m) ∷ calls))
  after_event x m false rest = ok ((x, m) ∷ [])

  -- The calls that follow, each with what its handler is given. A handler of another pipeline fails the
  -- cast, and its null pointer is followed.
  unfoldable pub fire_next : ℕ → Heap → Option ℕ → M → Result (List (ℕ × M))
  fire_next fuel h none m = ok []
  fire_next zero h (some x) m = err diverges
  fire_next (suc fuel) h (some x) m =
      let rest = fire_next fuel h (h x).next (channel_event x m).0 in
      if is_handler x then after_event x m (channel_event x m).1 rest else err invalid_access

  unfoldable pub fire : ℕ → Pipeline → M → Result (List (ℕ × M))
  unfolding fire_next
  fire fuel p m = fire_next fuel p.heap p.head m

  -- The handlers in order, up to the first that does not pass the event on.
  abbrev pub reached : List ℕ → M → List (ℕ × M)
  reached [] m = []
  reached (x ∷ xs) m =
      let rest = reached xs (channel_event x m).0 in
      (x, m) ∷ (if (channel_event x m).1 then rest else [])

  after_event-ok :
      (x : ℕ) (m : M) (passes : Bool) (calls : List (ℕ × M))
      → after_event x m passes (ok calls) ≡ ok ((x, m) ∷ (if passes then calls else []))
  after_event-ok x m true calls = refl
  after_event-ok x m false calls = refl

  fire_next-reached :
      (fuel : ℕ) (h : Heap) (o : Option ℕ) (xs : List ℕ) (m : M)
      → length xs ≤ fuel
      → Chain h o xs
      → All (λ x. is_handler x ≡ true) xs
      → fire_next fuel h o m ≡ ok (reached xs m)
  unfolding fire_next
  fire_next-reached fuel h o [] m enough c k = rw c refl
  fire_next-reached zero h o (x ∷ xs) m enough c k = absurd (omega arith)
  fire_next-reached (suc fuel) h o (x ∷ xs) m enough c k =
      let rest =
        fire_next-reached fuel h (h x).next xs (channel_event x m).0 (omega arith) c.1 k.1 in
      rw (c.0, fire_next, k.0, rest)
        (after_event-ok x m (channel_event x m).1 (reached xs (channel_event x m).0))

  -- An event that is fired in a pipeline whose pointers spell a list of handlers of its kind reaches
  -- these in order, each with the message as those before have left it, up to the first that does
  -- not pass it on, if the fuel is not below their number.
  pub fire-reached :
      (fuel : ℕ) (p : Pipeline) (xs : List ℕ) (m : M)
      → length xs ≤ fuel
      → Chain p.heap p.head xs
      → All (λ x. is_handler x ≡ true) xs
      → fire fuel p m ≡ ok (reached xs m)
  unfolding fire
  fire-reached fuel p xs m enough c k = fire_next-reached fuel p.heap p.head xs m enough c k
