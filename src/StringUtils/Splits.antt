-- ===== src/StringUtils/Splits.antt =====
-- `split`: the tokens and the delimiters between them make up the string.
use nets.Prelude.{
  ℕ, zero, suc, ◌+◌, ◌<◌, ◌≡◌, ◌≢◌, refl, ap, sym, ◌∙◌, ◌⊎◌, inl, inr, none, some, List, [], ◌∷◌,
  ◌++◌, arith, All, Bool-cases, ◌==◌, ==_iff, length, take, drop, append_assoc, length-append,
  length-take,
}
use nets.Memory.{ok, err, diverges}
use nets.StringUtils.{
  shifted, find_char, find_string, starts_with, last_token, split_from, split_with, split_char,
  split_string,
}

abbrev pub NoneIs : ℕ → List ℕ → Type 0
NoneIs c = All (λ x. x ≢ c)

-- Where `find` finds the first `c`.
pub record Found (c i : ℕ) (s : List ℕ) : Type 0 where
  pub before : NoneIs c (take i s)
  pub parts : s ≡ take i s ++ (c ∷ drop (suc i) s)

find_char-Found :
    (c : ℕ) (s : List ℕ)
    → ((find_char c s ≡ none) × NoneIs c s) ⊎ ((i : ℕ) × (find_char c s ≡ some i) × Found c i s)
unfolding find_char shifted
find_char-Found c [] = inl (refl, tt)
find_char-Found c (x ∷ xs) = elim (Bool-cases (x == c)) [
  | inl here ↦
      inr (0, rw here refl, record { before = tt; parts = ap (λ y. y ∷ xs) ((==_iff x c).0 here) })
  | inr other ↦
      let apart : x ≢ c = λ e. absurd (ground (arith, (==_iff x c).1 e, other)) in
      elim (find_char-Found c xs) [
        | inl (e, f) ↦ inl (rw (other, e) refl, (apart, f))
        | inr (i, e, f) ↦ inr (
          suc i,
          rw (other, e) refl,
          record { before = (apart, f.before); parts = ap (λ l. x ∷ l) f.parts },
        )
      ]
]

-- Each token and a delimiter behind it.
abbrev pub joined : ℕ → List (List ℕ) → List ℕ
joined c [] = []
joined c (t ∷ ts) = t ++ (c ∷ joined c ts)

pub record Splits (c : ℕ) (s : List ℕ) (tokens : List (List ℕ)) : Type 0 where
  pub free : All (NoneIs c) tokens
  pub whole : (joined c tokens ≡ s) ⊎ (joined c tokens ≡ s ++ (c ∷ []))

last_token-Splits : (c : ℕ) (s : List ℕ) → NoneIs c s → Splits c s (last_token s)
unfolding last_token
last_token-Splits c [] f = record { free = tt; whole = inl refl }
last_token-Splits c (x ∷ xs) f = record { free = (f, tt); whole = inr refl }

Found-Splits :
    (c i : ℕ) (s : List ℕ) (tokens : List (List ℕ))
    → Found c i s
    → Splits c (drop (suc i) s) tokens
    → Splits c s (take i s ∷ tokens)
Found-Splits c i s tokens f t = record {
  free = (f.before, t.free);
  whole = elim t.whole [
    | inl e ↦ inl (ap (λ l. take i s ++ (c ∷ l)) e ∙ sym f.parts)
    | inr e ↦ inr (
        ap (λ l. take i s ++ (c ∷ l)) e
        ∙ sym (append_assoc (take i s) (c ∷ drop (suc i) s) (c ∷ []))
        ∙ ap (λ l. l ++ (c ∷ [])) (sym f.parts))
  ];
}

split_from-Splits :
    (fuel c : ℕ) (s : List ℕ)
    → length s < fuel
    → (tokens : List (List ℕ)) × (split_from fuel (find_char c) 1 s ≡ ok tokens) × Splits c s tokens
unfolding split_from
split_from-Splits zero c s enough = absurd (omega arith)
split_from-Splits (suc fuel) c s enough = elim (find_char-Found c s) [
  | inl (e, f) ↦ (last_token s, rw (e, split_from) refl, last_token-Splits c s f)
  | inr (i, e, f) ↦
      let shorter : length (drop (suc i) s) < fuel = omega (
        arith,
        ap length f.parts,
        length-append (take i s) (c ∷ drop (suc i) s),
        length-take i s,
        enough,
      ) in
      let (tokens, more, t) = split_from-Splits fuel c (drop (suc i) s) shorter in
      let next : i + 1 ≡ suc i = omega arith in
      (
        take i s ∷ tokens,
        rw (e, split_from) (rw next (rw more refl)),
        Found-Splits c i s tokens f t,
      )
]

-- `split` at a character ends within one round for each character and one more; no token has the
-- delimiter in it, and the tokens, each with a delimiter behind it, make up the string, or the
-- string and a delimiter.
split_char-Splits :
    (c : ℕ) (s : List ℕ)
    → (tokens : List (List ℕ)) × (split_char (suc (length s)) s c ≡ ok tokens) × Splits c s tokens
unfolding split_char split_with
split_char-Splits c [] = ([], refl, record { free = tt; whole = inl refl })
split_char-Splits c (x ∷ xs) = split_from-Splits (suc (suc (length xs))) c (x ∷ xs) (omega arith)

-- An empty delimiter is found at once, for ever.
split_from-empty : (fuel : ℕ) (s : List ℕ) → split_from fuel (find_string []) 0 s ≡ err diverges
unfolding split_from find_string starts_with
split_from-empty zero s = refl
split_from-empty (suc fuel) [] = rw (split_from-empty fuel []) refl
split_from-empty (suc fuel) (x ∷ xs) = rw (split_from-empty fuel (x ∷ xs)) refl

-- `split` of a string that is not empty at an empty delimiter never ends.
split_string-empty : (fuel x : ℕ) (xs : List ℕ) → split_string fuel (x ∷ xs) [] ≡ err diverges
unfolding split_string split_with
split_string-empty fuel x xs = split_from-empty fuel (x ∷ xs)
