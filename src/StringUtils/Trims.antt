-- ===== src/StringUtils/Trims.antt =====
-- `trim`: what is left, and the spaces around it.
use mathlib.Core.List.{reverse-reverse, reverse-append, reverse-cons}
use nets.Prelude.{
  ℕ, ◌≡◌, refl, ap, sym, ◌∙◌, subst, Bool, true, false, inl, inr, List, [], ◌∷◌, ◌++◌, All,
  Bool-cases, reverse,
}
use nets.StringUtils.{trim_l, trim_r, trim}

module _ (is_space : ℕ → Bool) where
  abbrev pub AllSpaces : List ℕ → Type 0
  AllSpaces = All (λ x. is_space x ≡ true)

  -- The first character is no space.
  abbrev pub StartsBare : List ℕ → Type 0
  StartsBare [] = Unit
  StartsBare (x ∷ xs) = is_space x ≡ false

  -- What is left of a string, with neither spaces in front nor behind, and the spaces around it.
  pub record Trimmed (s t : List ℕ) : Type 0 where
    pub front : List ℕ
    pub back : List ℕ
    pub parts : s ≡ front ++ (t ++ back)
    pub front_spaces : AllSpaces front
    pub back_spaces : AllSpaces back
    pub starts : StartsBare t
    pub ends : StartsBare (reverse t)

  trim_l-StartsBare :
      (s : List ℕ)
      → (front : List ℕ) × (s ≡ front ++ trim_l is_space s)
        × AllSpaces front
        × StartsBare (trim_l is_space s)
  unfolding trim_l
  trim_l-StartsBare [] = ([], refl, tt, tt)
  trim_l-StartsBare (x ∷ xs) = elim (Bool-cases (is_space x)) [
    | inl space ↦
        let (front, e, spaces, bare) = trim_l-StartsBare xs in
        rw space (x ∷ front, ap (λ l. x ∷ l) e, (space, spaces), bare)
    | inr bare ↦ rw bare ([], refl, tt, bare)
  ]

  AllSpaces-append : (xs ys : List ℕ) → AllSpaces xs → AllSpaces ys → AllSpaces (xs ++ ys)
  AllSpaces-append [] ys p q = q
  AllSpaces-append (x ∷ xs) ys p q = (p.0, AllSpaces-append xs ys p.1 q)

  AllSpaces-reverse : (xs : List ℕ) → AllSpaces xs → AllSpaces (reverse xs)
  AllSpaces-reverse [] p = tt
  AllSpaces-reverse (x ∷ xs) p =
      rw reverse-cons (AllSpaces-append (reverse xs) (x ∷ []) (AllSpaces-reverse xs p.1) (p.0, tt))

  StartsBare-append : (t back : List ℕ) → StartsBare (t ++ back) → StartsBare t
  StartsBare-append [] back p = tt
  StartsBare-append (x ∷ t) back p = p

  -- For any notion of a space, `trim` leaves out only spaces in front and behind, and what is left
  -- neither starts nor ends with one.
  trim-Trimmed : (s : List ℕ) → Trimmed s (trim is_space s)
  unfolding trim trim_r
  trim-Trimmed s =
      let (front, e, spaces, bare) = trim_l-StartsBare s in
      let u = trim_l is_space s in
      let (behind, f, behind_spaces, bare_end) = trim_l-StartsBare (reverse u) in
      let v = trim_l is_space (reverse u) in
      let parts : u ≡ reverse v ++ reverse behind =
        sym (reverse-reverse u) ∙ ap reverse f ∙ reverse-append behind v in
      record {
        front = front;
        back = reverse behind;
        parts = e ∙ ap (λ l. front ++ l) parts;
        front_spaces = spaces;
        back_spaces = AllSpaces-reverse behind behind_spaces;
        starts = StartsBare-append (reverse v) (reverse behind) (subst StartsBare parts bare);
        ends = rw (reverse-reverse v) bare_end;
      }
