-- ===== src/Promise/Tests.antt =====
-- Two tasks, of which one throws, by evaluation.
use nets.Prelude.{ℕ, ◌≡◌, refl, true, false, none, some, [], ◌∷◌, ◌==◌, if◌then◌else◌}
use nets.Promise.{
  Ending, returns, throws_std, value, std_exception, no_state, settle, promise_task, run_all,
  submitted,
}

abbrev ending : ℕ → Ending ℕ
ending i = if i == 0 then throws_std 11 else returns i

two_settled :
    ((run_all ending (λ i. none) (0 ∷ 5 ∷ [])).0 0 ≡ some std_exception)
    × ((run_all ending (λ i. none) (0 ∷ 5 ∷ [])).0 5 ≡ some (value 5))
unfolding run_all promise_task settle
two_settled = (refl, refl)

-- A task that is run twice throws.
twice_escapes : (run_all ending (λ i. none) (5 ∷ 5 ∷ [])).1 ≡ true
unfolding run_all promise_task settle
twice_escapes = refl

refused_submit : submitted {V = ℕ} false none ≡ (some no_state, false)
unfolding submitted settle
refused_submit = refl
