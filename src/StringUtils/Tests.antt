-- ===== src/StringUtils/Tests.antt =====
-- Splits at small inputs.
use nets.Prelude.{ℕ, ◌≡◌, refl, Bool, ◌==◌, [], ◌∷◌}
use nets.Memory.{ok}
use nets.StringUtils.{
  split_string, split_with, find_string, starts_with, shifted, split_from, last_token,
}

abbrev is_blank : ℕ → Bool
is_blank x = x == 32

split-by_two :
    split_string 5 (1 ∷ 7 ∷ 8 ∷ 2 ∷ 7 ∷ 8 ∷ []) (7 ∷ 8 ∷ []) ≡ ok ((1 ∷ []) ∷ (2 ∷ []) ∷ [])
unfolding split_string split_with find_string starts_with shifted split_from last_token
split-by_two = refl
