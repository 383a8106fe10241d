-- ===== src/Logger/Times.antt =====
-- The text of a time, digit by digit ("%04d-%02d-%02d %02d:%02d:%02d.%06ld" of nets/base/log/LogFormatter.cpp).
use nets.Prelude.{
  ℕ, zero, suc, ◌+◌, ◌-◌, ◌/◌, ◌%◌, ◌^◌, ◌≤◌, ◌<◌, ◌≡◌, refl, sym, ap, ◌∙◌, inl, inr, List, [], ◌∷◌,
  ◌++◌, map, arith, length, replicate, append_assoc, append-nil, length-append, Bool-cases, ◌==◌,
}
use native.Mathlib.Nat.{pow-suc, pow-zero}
use mathlib.Core.List.{reverse_aux}
use nets.StackBuffer.{digit_char, digits_of}
use nets.StackBuffer.Prints.{printed}
use nets.Logger.{Tm, padded, time_text}

-- The last `k` decimal digits of a number, highest first.
abbrev pub digits : ℕ → ℕ → List ℕ
digits zero n = []
digits (suc k) n = digits k (n / 10) ++ ((48 + n % 10) ∷ [])

-- "2024-05-06 07:08:09.000250"
abbrev pub stamp : Tm → ℕ → List ℕ
stamp t micros =
    digits 4 t.year
    ++ (45 ∷ digits 2 t.month)
    ++ (45 ∷ digits 2 t.day)
    ++ (32 ∷ digits 2 t.hour)
    ++ (58 ∷ digits 2 t.minute)
    ++ (58 ∷ digits 2 t.second)
    ++ (46 ∷ digits 6 micros)

-- The parts of a time have no more digits than the text gives them.
pub record IsShort (t : Tm) (micros : ℕ) : Type 0 where
  pub year : t.year < 10000
  pub month : t.month < 100
  pub day : t.day < 100
  pub hour : t.hour < 100
  pub minute : t.minute < 100
  pub second : t.second < 100
  pub rest : micros < 1000000

replicate_snoc : (k a : ℕ) → replicate k a ++ (a ∷ []) ≡ replicate (suc k) a
replicate_snoc zero a = refl
replicate_snoc (suc k) a = ap (◌∷◌ a) (replicate_snoc k a)

digits-zero : (k : ℕ) → digits k 0 ≡ replicate k 48
digits-zero zero = refl
digits-zero (suc k) = ap (λ l. l ++ (48 ∷ [])) (digits-zero k) ∙ replicate_snoc k 48

map-reverse_aux :
    (ds acc : List ℕ)
    → map digit_char (reverse_aux ds acc) ≡ map digit_char (reverse_aux ds []) ++ map digit_char acc
map-reverse_aux [] acc = refl
map-reverse_aux (d ∷ ds) acc =
    map-reverse_aux ds (d ∷ acc)
    ∙ sym (
        ap (λ l. l ++ map digit_char acc) (map-reverse_aux ds (d ∷ []))
        ∙ append_assoc (map digit_char (reverse_aux ds [])) (digit_char d ∷ [])
            (map digit_char acc))

printed_snoc : (d : ℕ) (ds : List ℕ) → printed (d ∷ ds) ≡ printed ds ++ (digit_char d ∷ [])
printed_snoc d ds = map-reverse_aux ds (d ∷ [])

digit_char-decimal : (n : ℕ) → digit_char (n % 10) ≡ 48 + n % 10
unfolding digit_char
digit_char-decimal n = ground arith

-- The digits but the last, with the zeros in front of them, are those of a tenth.
padded_snoc :
    (k d : ℕ) (ds : List ℕ)
    → replicate (suc k - length (printed (d ∷ ds))) 48 ++ printed (d ∷ ds)
      ≡ (replicate (k - length (printed ds)) 48 ++ printed ds) ++ (digit_char d ∷ [])
padded_snoc k d ds =
    let same : suc k - length (printed (d ∷ ds)) ≡ k - length (printed ds) =
      omega
        (arith, ap length (printed_snoc d ds), length-append (printed ds) (digit_char d ∷ [])) in
    rw (same, printed_snoc d ds)
      (sym (append_assoc (replicate (k - length (printed ds)) 48) (printed ds) (digit_char d ∷ [])))

none_taken : (k : ℕ) → suc k - 0 ≡ suc k
none_taken k = omega arith

-- With more rounds than digits.
printed-digits :
    (k fuel n : ℕ)
    → k ≤ fuel
    → n < 10 ^ suc k
    → let ds = printed (digits_of 10 (suc fuel) n) in
      replicate (suc k - length ds) 48 ++ ds ≡ digits (suc k) n
unfolding digits_of
printed-digits zero fuel n enough small =
    let none_left : n / 10 ≡ 0 = omega (arith, small, pow-suc 10 0, pow-zero 10) in
    rw (none_left, digit_char-decimal n) refl
printed-digits (suc k) zero n enough small = absurd (omega (arith, enough))
printed-digits (suc k) (suc fuel) n enough small = elim (Bool-cases (n / 10 == 0)) [
  | inl last ↦
      let none_left : n / 10 ≡ 0 = ground (arith, last) in
      rw last (
        padded_snoc (suc k) (n % 10) []
        ∙ rw (digit_char-decimal n, none_taken k)
            (ap (λ l. l ++ ((48 + n % 10) ∷ []))
              (append-nil (replicate (suc k) 48)
                ∙ sym (ap (digits (suc k)) none_left ∙ digits-zero (suc k)))))
  | inr again ↦
      let fits : n / 10 < 10 ^ suc k = omega (arith, small, pow-suc 10 (suc k)) in
      rw again (
        padded_snoc (suc k) (n % 10) (digits_of 10 (suc fuel) (n / 10))
        ∙ rw (digit_char-decimal n) (
            ap (λ l. l ++ ((48 + n % 10) ∷ []))
              (printed-digits k fuel (n / 10) (omega (arith, enough)) fits)))
]

padded-digits : (k n : ℕ) → k < 20 → n < 10 ^ suc k → padded (suc k) n ≡ digits (suc k) n
padded-digits k n few small = printed-digits k 19 n (omega (arith, few)) small

pub time_text-stamp : (t : Tm) (micros : ℕ) → IsShort t micros → time_text t micros ≡ stamp t micros
unfolding time_text
time_text-stamp t micros h =
    rw
      (
        padded-digits 3 t.year (omega arith) (omega (arith, h.year)),
        padded-digits 1 t.month (omega arith) (omega (arith, h.month)),
        padded-digits 1 t.day (omega arith) (omega (arith, h.day)),
        padded-digits 1 t.hour (omega arith) (omega (arith, h.hour)),
        padded-digits 1 t.minute (omega arith) (omega (arith, h.minute)),
        padded-digits 1 t.second (omega arith) (omega (arith, h.second)),
        padded-digits 5 micros (omega arith) (omega (arith, h.rest)),
      )
      refl
