-- ===== src/ByteBuffer/Growth.antt =====
-- `calculateNewCapacity`: the loop that rounds a capacity up to a power of two.
use native.Mathlib.Nat.{pow-suc}
use nets.Prelude.{
  ℕ, zero, suc, ◌*◌, ◌%◌, ◌^◌, ◌≤◌, ◌<◌, ◌≡◌, refl, ap, ◌⊎◌, inl, inr, Option, none, some, arith,
  ltb, Bool-cases, ltb→lt, lt→ltb, ltb-false,
}
use nets.Memory.{ok, err, diverges, size_mod}
use nets.ByteBuffer.{double_until, calculate_new_capacity}

pow_pos : (j : ℕ) → 1 ≤ 2 ^ j
pow_pos zero = omega arith
pow_pos (suc j) = omega (arith, pow-suc 2 j, pow_pos j)

le_of_factor : (a b c : ℕ) → 1 ≤ b → a * b ≡ c → a ≤ c
le_of_factor a b c h e = grind arith

-- A power of two that `target` fits in, and that no smaller one would do for.
abbrev pub IsRoundedUp : ℕ → Option ℕ → Type 0
IsRoundedUp target r =
    (k : ℕ) × (r ≡ some (2 ^ k)) × (target ≤ 2 ^ k) × (2 ^ k < 2 * target) × (2 ^ k ≤ 2 ^ 63)

double_until-ends :
    (f k target : ℕ)
    → 2 ^ f * 2 ^ k ≡ 2 ^ 63
    → target ≤ 2 ^ 63
    → 2 ^ k < 2 * target
    → IsRoundedUp target (double_until (suc f) target (2 ^ k))
unfolding double_until
double_until-ends zero k target enough small least =
    let fits : target ≤ 2 ^ k = omega arith in
    (k, rw (ltb-false _ _ fits), fits, least, omega arith)
double_until-ends (suc f) k target enough small least = elim (Bool-cases (ltb (2 ^ k) target)) [
  | inr done ↦ (
    k,
    rw done,
    ground arith,
    least,
    le_of_factor (2 ^ k) (2 ^ suc f) _ (pow_pos (suc f)) (omega arith),
  )
  | inl more ↦
      let lt : 2 ^ k < target = ltb→lt _ _ more in
      let e : 2 ^ k * 2 % size_mod ≡ 2 ^ suc k = omega (arith, pow-suc 2 k) in
      rw (more, e)
        (double_until-ends f (suc k) target
          (omega (arith, ap (λ (t : ℕ). t * 2 ^ k) (pow-suc 2 f), ap (◌*◌ (2 ^ f)) (pow-suc 2 k)))
          small (omega (arith, pow-suc 2 k)))
]

-- From 1 up to 2 ^ 63 the capacity is the least power of two that the target fits in.
pub calculate_new_capacity-IsRoundedUp :
    (target : ℕ)
    → 1 ≤ target
    → target ≤ 2 ^ 63
    → (k : ℕ) × (calculate_new_capacity target ≡ ok (2 ^ k))
      × (target ≤ 2 ^ k)
      × (2 ^ k < 2 * target)
      × (2 ^ k ≤ 2 ^ 63)
unfolding calculate_new_capacity
calculate_new_capacity-IsRoundedUp target positive small =
    let (k, e, fits, least, bound) = double_until-ends 63 0 target refl small (omega arith) in
    (k, ground (arith, e), fits, least, bound)

mod_small : (a : ℕ) → a ≤ 2 ^ 63 → a % size_mod ≡ a
mod_small a h = omega arith

-- Past 2 ^ 63 the doubled capacity wraps to 0, and stays there.
double_until-wraps :
    (f c target j : ℕ)
    → 2 ^ 63 < target
    → (c ≡ 0) ⊎ (c * 2 ^ j ≡ 2 ^ 63)
    → double_until f target c ≡ none
unfolding double_until
double_until-wraps zero c target j big h = refl
double_until-wraps (suc f) c target j big (inl z) =
    rw (lt→ltb c target (omega arith))
      (double_until-wraps f (c * 2 % size_mod) target j big (inl (omega arith)))
double_until-wraps (suc f) c target zero big (inr e) =
    rw (lt→ltb c target (omega arith))
      (double_until-wraps f (c * 2 % size_mod) target zero big (inl (omega arith)))
double_until-wraps (suc f) c target (suc j) big (inr e) =
    let e' : c * 2 * 2 ^ j ≡ 2 ^ 63 = omega (arith, ap (◌*◌ c) (pow-suc 2 j)) in
    let le : c * 2 ≤ 2 ^ 63 = le_of_factor (c * 2) (2 ^ j) _ (pow_pos j) e' in
    rw (lt→ltb c target (omega arith))
      (double_until-wraps f (c * 2 % size_mod) target j big (inr (rw (mod_small _ le) e')))

-- Past 2 ^ 63 the loop ends after no number of rounds, and the call never returns.
calculate_new_capacity-diverges :
    (target : ℕ)
    → 2 ^ 63 < target
    → ((rounds : ℕ) → double_until rounds target 1 ≡ none)
      × (calculate_new_capacity target ≡ err diverges)
unfolding calculate_new_capacity
calculate_new_capacity-diverges target big = (λ rounds. never rounds, ground (arith, never 64))
  where
    never : (rounds : ℕ) → double_until rounds target 1 ≡ none
    never rounds = double_until-wraps rounds 1 target 63 big (inr refl)
