-- ===== src/StringUtils.antt =====
-- nets/base/StringUtils.cpp: strings are lists of characters. The loops of `split` take fuel, since an
-- empty delimiter is found for ever.
pub mod Splits
pub mod Trims
mod Tests
use nets.Prelude.{
  ℕ, zero, suc, ◌+◌, Bool, true, false, Option, none, some, List, [], ◌∷◌, ◌++◌, reverse, ◌==◌,
  if◌then◌else◌, length, take, drop,
}
use nets.Memory.{Result, ok, err, diverges, ◌>>=◌}

-- `iswspace` is a parameter.
module _ (is_space : ℕ → Bool) where
  -- The spaces in front are erased one by one.
  unfoldable pub trim_l : List ℕ → List ℕ
  trim_l [] = []
  trim_l (x ∷ xs) = let rest = trim_l xs in if is_space x then rest else x ∷ xs

  -- The loop of `trimR` starts at the last character.
  unfoldable pub trim_r : List ℕ → List ℕ
  unfolding trim_l
  trim_r s = reverse (trim_l (reverse s))

  unfoldable pub trim : List ℕ → List ℕ
  unfolding trim_l trim_r
  trim s = trim_r (trim_l s)

pub shifted : Option ℕ → Option ℕ
shifted none = none
shifted (some i) = some (suc i)

-- `find` of a character, and of a string.
unfoldable pub find_char : ℕ → List ℕ → Option ℕ
unfolding shifted
find_char c [] = none
find_char c (x ∷ xs) = let rest = shifted (find_char c xs) in if x == c then some 0 else rest

pub starts_with : List ℕ → List ℕ → Bool
starts_with [] xs = true
starts_with (d ∷ ds) [] = false
starts_with (d ∷ ds) (x ∷ xs) = let rest = starts_with ds xs in if x == d then rest else false

unfoldable pub find_string : List ℕ → List ℕ → Option ℕ
unfolding starts_with shifted
find_string delimiter [] = if starts_with delimiter [] then some 0 else none
find_string delimiter (x ∷ xs) =
    let rest = shifted (find_string delimiter xs) in
    if starts_with delimiter (x ∷ xs) then some 0 else rest

pub last_token : List ℕ → List (List ℕ)
last_token [] = []
last_token (x ∷ xs) = (x ∷ xs) ∷ []

-- The tokens that are pushed, from `pos1` on.
unfoldable pub split_from : ℕ → (List ℕ → Option ℕ) → ℕ → List ℕ → Result (List (List ℕ))
unfolding last_token
split_from zero find len s = err diverges
split_from (suc fuel) find len s = elim (find s) [
  | none ↦ ok (last_token s)
  | some i ↦ split_from fuel find len (drop (i + len) s) >>= λ tokens. ok (take i s ∷ tokens)
]

pub split_with : ℕ → (List ℕ → Option ℕ) → ℕ → List ℕ → Result (List (List ℕ))
unfolding split_from
split_with fuel find len [] = ok []
split_with fuel find len (x ∷ xs) = split_from fuel find len (x ∷ xs)

unfoldable pub split_char : ℕ → List ℕ → ℕ → Result (List (List ℕ))
unfolding split_with find_char
split_char fuel s delimiter = split_with fuel (find_char delimiter) 1 s

unfoldable pub split_string : ℕ → List ℕ → List ℕ → Result (List (List ℕ))
unfolding split_with find_string
split_string fuel s delimiter = split_with fuel (find_string delimiter) (length delimiter) s
