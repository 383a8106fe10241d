-- ===== src/StackBuffer/Digits.antt =====
-- The digits that the print loops produce.
use nets.Prelude.{
  ℕ, zero, suc, ◌+◌, ◌*◌, ◌/◌, ◌%◌, ◌^◌, ◌≤◌, ◌<◌, ◌≡◌, ap, sym, subst, ◌∙◌, inl, inr, List, [],
  ◌∷◌, arith, All, Bool-cases, length, ◌==◌, ==_iff,
}
use native.Mathlib.Nat.{pow-suc, pow-zero, mod-lt, div-lt_iff_lt-mul, mod-add-div, div-eq_of_lt}
use nets.StackBuffer.{digits_of}

-- The number that digits stand for, lowest first.
abbrev pub number_of : ℕ → List ℕ → ℕ
number_of base [] = 0
number_of base (d ∷ ds) = d + base * number_of base ds

-- The digits of a value: as many as needed, and its only.
pub record Spells (base value : ℕ) (ds : List ℕ) : Type 0 where
  pub number : number_of base ds ≡ value
  pub digits : All (λ d. d < base) ds
  pub some_digit : 1 ≤ length ds

pow_one : (base : ℕ) → base ^ 1 ≡ base
pow_one base = pow-suc base 0 ∙ ap (λ p. p * base) (pow-zero base) ∙ omega arith

one_digit : (base value : ℕ) → 1 ≤ base → value / base ≡ 0 → Spells base value (value % base ∷ [])
one_digit base value positive e = record {
  number = ap (λ q. value % base + base * q) (sym e) ∙ mod-add-div value base;
  digits = (mod-lt value positive, tt);
  some_digit = omega arith;
}

-- With enough rounds the loop ends at the last digit.
pub digits_of-Spells :
    (base fuel value : ℕ)
    → 1 ≤ base
    → value < base ^ suc fuel
    → Spells base value (digits_of base (suc fuel) value)
unfolding digits_of
digits_of-Spells base zero value positive small =
    let none_left : value / base ≡ 0 = div-eq_of_lt (subst (λ p. value < p) (pow_one base) small) in
    rw none_left (one_digit base value positive none_left)
digits_of-Spells base (suc fuel) value positive small = elim (Bool-cases (value / base == 0)) [
  | inl last ↦ rw last (one_digit base value positive ((==_iff _ _).0 last))
  | inr more ↦
      let fits : value / base < base ^ suc fuel =
        (div-lt_iff_lt-mul positive).1 (subst (λ p. value < p) (pow-suc base (suc fuel)) small) in
      let later = digits_of-Spells base fuel (value / base) positive fits in
      rw more (record {
        number = ap (λ q. value % base + base * q) later.number ∙ mod-add-div value base;
        digits = (mod-lt value positive, later.digits);
        some_digit = omega arith;
      })
]

-- A value below a power has no more digits than its exponent.
pub length-digits_of :
    (base fuel k value : ℕ)
    → 1 ≤ base
    → value < base ^ suc k
    → length (digits_of base fuel value) ≤ suc k
unfolding digits_of
length-digits_of base zero k value positive small = omega arith
length-digits_of base (suc fuel) zero value positive small =
    let none_left : value / base ≡ 0 = div-eq_of_lt (subst (λ p. value < p) (pow_one base) small) in
    rw none_left (omega arith)
length-digits_of base (suc fuel) (suc k) value positive small =
    elim (Bool-cases (value / base == 0)) [
      | inl last ↦ rw last (omega arith)
      | inr more ↦
          let fits : value / base < base ^ suc k =
            (div-lt_iff_lt-mul positive).1 (subst (λ p. value < p) (pow-suc base (suc k)) small) in
          rw more (omega (arith, length-digits_of base fuel k (value / base) positive fits))
    ]
