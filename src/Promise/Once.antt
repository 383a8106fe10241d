-- ===== src/Promise/Once.antt =====
-- Tasks that are run once settle their promises once.
use nets.Prelude.{
  ℕ, ◌+◌, ◌≤◌, ◌≡◌, refl, ap, sym, ◌∙◌, Bool, false, none, some, List, [], ◌∷◌, arith, total, ◌==◌,
  ==_iff, ◌⊎◌, inl, inr, Bool-cases, if◌then◌else◌,
}
use nets.Promise.{
  Ending, Settled, Promise, settle, outcome, returns, throws_std, throws_other, promise_task,
  with_promise, run_all,
}

-- How often a task is in a list is the total of this weight.
abbrev pub is_task : ℕ → ℕ → ℕ
is_task i j = if i == j then 1 else 0

pub is_task-same : (i : ℕ) → is_task i i ≡ 1
is_task-same i = ground arith

task-cases : (i x : ℕ) → (i ≡ x) ⊎ ((is_task i x ≡ 0) × ((x == i) ≡ false))
task-cases i x = elim (Bool-cases (x == i)) [
  | inl e ↦ inl (sym ((==_iff x i).0 e))
  | inr e ↦ inr (ground (arith, e), e)
]

module _ {ℓ} {V : Type ℓ} where
  abbrev pub is_settled : Promise V → ℕ
  is_settled none = 0
  is_settled (some x) = 1

  -- What the promises hold after the tasks `ran`.
  abbrev pub Settles : (ℕ → Ending V) → (ℕ → Promise V) → List ℕ → (ℕ → Promise V) × Bool → Type ℓ
  Settles ending ps ran r =
      (r.1 ≡ false)
      × ((i : ℕ) → r.0 i ≡ (if total (is_task i) ran == 0 then ps i else some (outcome (ending i))))

  promise_task-fresh :
      (e : Ending V) (p : Promise V)
      → is_settled p ≡ 0
      → promise_task e p ≡ (some (outcome e), false)
  unfolding promise_task settle
  promise_task-fresh (returns v) none f = refl
  promise_task-fresh (throws_std n) none f = refl
  promise_task-fresh (throws_other n) none f = refl
  promise_task-fresh (returns v) (some x) f = cc
  promise_task-fresh (throws_std n) (some x) f = cc
  promise_task-fresh (throws_other n) (some x) f = cc

  -- The rest of the tasks have the promises that the first one leaves.
  left_once :
      (ps : ℕ → Promise V) (x : ℕ) (xs : List ℕ) (e : Settled V)
      → ((i : ℕ) → is_settled (ps i) + total (is_task i) (x ∷ xs) ≤ 1)
      → (i : ℕ) → is_settled (with_promise ps x (some e) i) + total (is_task i) xs ≤ 1
  left_once ps x xs e once i = elim (task-cases i x) [
    | inl same ↦ rw (same) (let o = once x in ground (arith, is_task-same x, o))
    | inr (other, ne) ↦ rw ne (omega (arith, once i, other))
  ]

  pub run_all-Settles :
      (ending : ℕ → Ending V) (ps : ℕ → Promise V) (ran : List ℕ)
      → ((i : ℕ) → is_settled (ps i) + total (is_task i) ran ≤ 1)
      → Settles ending ps ran (run_all ending ps ran)
  unfolding run_all
  run_all-Settles ending ps [] once = (refl, λ i. refl)
  run_all-Settles ending ps (x ∷ xs) once =
      let own = once x in
      let fresh : is_settled (ps x) ≡ 0 = omega (arith, own, is_task-same x) in
      let gone : total (is_task x) xs ≡ 0 = omega (arith, own, is_task-same x) in
      let e = outcome (ending x) in
      let rest =
        run_all-Settles ending (with_promise ps x (some e)) xs (left_once ps x xs e once) in
      rw (promise_task-fresh (ending x) (ps x) fresh) (
        rest.0,
        λ i. rest.1 i ∙ elim (task-cases i x) [
          | inl same ↦ rw (same, gone, is_task-same x) (ground arith)
          | inr (other, ne) ↦
              rw (ne) (
                ap (λ n. if n == 0 then ps i else some (outcome (ending i))) (omega (arith, other)))
        ],
      )
