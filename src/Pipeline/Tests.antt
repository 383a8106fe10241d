-- ===== src/Pipeline/Tests.antt =====
-- Runs of the handler pipeline at small inputs.
use nets.Prelude.{zero, suc, ◌≡◌, refl, true, none, some, [], ◌∷◌, arith}
use nets.Memory.{ok, err, diverges}
use nets.Pipeline.{Heap, Pipeline}
use nets.Pipeline.Chain.{Holds}
use nets.Prelude.{ℕ, ◌+◌, ◌==◌, Bool, not}
use nets.Pipeline.Events.{fire, reached, fire-reached}
use nets.Pipeline.Shared.{add_all, new_pipeline}
use nets.Pipeline.Rings.{first_event, first_event-Jams}

-- Handlers 1, 2 and 3 are in the list, and 4 is not.
abbrev heap : Heap
heap (suc zero) = record { name = "decoder"; next = some 2 }
heap (suc (suc zero)) = record { name = "service"; next = some 3 }
heap n = record { name = "encoder"; next = none }

abbrev three : Pipeline
three = record { heap = heap; head = some 1 }

three-Holds : Holds three (1 ∷ 2 ∷ 3 ∷ [])
three-Holds = record {
  chain = (refl, (refl, (refl, refl)));
  distinct = ((omega arith, (omega arith, tt)), ((omega arith, tt), (tt, tt)));
}

abbrev single : Pipeline
single = record { heap = heap; head = some 3 }

-- The first handler changes the message, and the second one keeps it.
abbrev channel_event : ℕ → ℕ → ℕ × Bool
channel_event x m = (m + x, not (x == 2))

fire-reached_example :
    fire channel_event (λ x. true) 3 three 10
    ≡ ok (reached channel_event (λ x. true) (1 ∷ 2 ∷ 3 ∷ []) 10)
fire-reached_example =
    fire-reached channel_event (λ x. true) 3 three (1 ∷ 2 ∷ 3 ∷ []) 10 (omega arith)
      three-Holds.chain (refl, (refl, (refl, tt)))

three_reached : reached channel_event (λ x. true) (1 ∷ 2 ∷ 3 ∷ []) 10 ≡ (1, 10) ∷ (2, 11) ∷ []
three_reached = refl

-- Handlers without links, as a server's list has them before its first connection.
abbrev unlinked : Heap
unlinked n = record { name = "handler"; next = none }

first_event-Jams_example :
    (p : Pipeline) × (add_all 3 (new_pipeline unlinked) (1 ∷ 2 ∷ 3 ∷ []) ≡ ok p)
    × Holds p (1 ∷ 2 ∷ 3 ∷ [])
    × (first_event {M = ℕ} (λ z m. (m, true)) (λ z. true) 3 p.heap (1 ∷ 2 ∷ 3 ∷ []) 10
        ≡ err diverges)
first_event-Jams_example =
    first_event-Jams {M = ℕ} (λ z m. (m, true)) (λ z. true) (λ z m. refl) (λ z. refl) 3 unlinked 1 2
      (3 ∷ []) 10 (omega arith) ((omega arith, (omega arith, tt)), ((omega arith, tt), (tt, tt)))
      (refl, (refl, (refl, tt)))
