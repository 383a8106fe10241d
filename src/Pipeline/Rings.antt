-- ===== src/Pipeline/Rings.antt =====
-- Two channels that are given the same handlers (`initSocketChannel` of ServerSocketChannel.cpp).
use nets.Prelude.{
  ℕ, ◌≤◌, ◌≡◌, ◌≢◌, refl, ap, sym, ◌∙◌, subst, Bool, true, none, some, List, [], ◌∷◌, arith, All,
  length,
}
use nets.Memory.{Result, ok, err, diverges, ◌>>=◌}
use nets.Pipeline.{Heap, Pipeline, set_next, add_last, add_last_to}
use nets.Pipeline.Chain.{
  Chain, Distinct, Holds, set_next_self, set_next_ne, last_of, last_of-ne, find_last-last_of,
}
use nets.Pipeline.Events.{fire}
use nets.Pipeline.Shared.{
  add_all, new_pipeline, add_all-Holds, new_pipeline-Fresh, find_last-endless, fire_next-endless,
}

-- From `z` the links lead to the handler `l`, at which the ring is closed.
abbrev OnRing : Heap → ℕ → ℕ → Type 0
OnRing h l z = (zs : List ℕ) × Chain h (h z).next zs × Distinct (z ∷ zs) × (last_of z zs ≡ l)

OnRing-next :
    (h : Heap) (l y z : ℕ)
    → OnRing h l y
    → OnRing h l z
    → (w : ℕ) × ((set_next h l (some y) z).next ≡ some w) × OnRing h l w
OnRing-next h l y z ring ([], c, d, e) = (
  y,
  subst (λ q. (set_next h l (some y) q).next ≡ some y) (sym e) (set_next_self h l (some y)),
  ring,
)
OnRing-next h l y z ring (w ∷ ws, c, d, e) =
    let apart : z ≢ l = λ s. last_of-ne z w ws d.0 (e ∙ sym s) in
    (w, ap (λ q. q.next) (set_next_ne h l z (some y) apart) ∙ c.0, (ws, c.1, d.1, e))

module _ {ℓ} {M : Type ℓ} (channel_event : ℕ → M → M × Bool) (is_handler : ℕ → Bool) where
  -- A new channel that is given handlers, and then an event.
  abbrev pub first_event : ℕ → Heap → List ℕ → M → Result (List (ℕ × M))
  first_event fuel h xs m =
      add_all fuel (new_pipeline h) xs >>= (λ p. fire channel_event is_handler fuel p m)

  module _ (passes : (z : ℕ) (m : M) → (channel_event z m).1 ≡ true)
      (kind : (z : ℕ) → is_handler z ≡ true) where
    closed-jams :
        (fuel : ℕ) (h : Heap) (x y : ℕ) (ys : List ℕ) (m : M)
        → OnRing h (last_of y ys) x
        → OnRing h (last_of y ys) y
        → (add_all fuel (record { heap = set_next h (last_of y ys) (some y); head = some x }) ys
            >>= (λ p. fire channel_event is_handler fuel p m))
          ≡ err diverges
    unfolding add_all fire add_last add_last_to
    closed-jams fuel h x y [] m on_x on_y =
        fire_next-endless (set_next h y (some y)) (OnRing h y) (λ z. OnRing-next h y y z on_y)
          channel_event is_handler passes kind fuel x m on_x
    closed-jams fuel h x y (z ∷ zs) m on_x on_y =
        let l = last_of z zs in
        rw
          (find_last-endless (set_next h l (some y)) (OnRing h l) (λ w. OnRing-next h l y w on_y)
            fuel x on_x)
          refl

    second-jams :
        (fuel : ℕ) (h : Heap) (x y : ℕ) (ys : List ℕ) (m : M)
        → length (y ∷ ys) ≤ fuel
        → Distinct (x ∷ y ∷ ys)
        → Chain h (h x).next (y ∷ ys)
        → first_event fuel h (x ∷ y ∷ ys) m ≡ err diverges
    unfolding add_all add_last add_last_to
    second-jams fuel h x y ys m enough d c =
        rw (find_last-last_of fuel h x (y ∷ ys) enough c)
          (closed-jams fuel h x y ys m (y ∷ ys, c, d, refl) (ys, c.1, d.1, refl))

    -- With two or more distinct handlers without successors, which pass every event on, the first
    -- channel that is given them has a pipeline of these in order, and the second one, in which the
    -- handlers are still linked, is never done with its handlers and its first event, whatever the
    -- fuel.
    pub first_event-Jams :
        (fuel : ℕ) (h : Heap) (x y : ℕ) (ys : List ℕ) (m : M)
        → length (x ∷ y ∷ ys) ≤ fuel
        → Distinct (x ∷ y ∷ ys)
        → All (λ z. (h z).next ≡ none) (x ∷ y ∷ ys)
        → (p : Pipeline) × (add_all fuel (new_pipeline h) (x ∷ y ∷ ys) ≡ ok p)
          × Holds p (x ∷ y ∷ ys)
          × (first_event fuel p.heap (x ∷ y ∷ ys) m ≡ err diverges)
    first_event-Jams fuel h x y ys m enough d free =
        let (p, e, v) =
          add_all-Holds fuel (new_pipeline h) [] (x ∷ y ∷ ys) (omega arith)
            (record { chain = refl; distinct = tt }) d (new_pipeline-Fresh h (x ∷ y ∷ ys) free) in
        (p, e, v, second-jams fuel p.heap x y ys m (omega arith) d v.chain.1)
