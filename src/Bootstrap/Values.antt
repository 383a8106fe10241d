-- ===== src/Bootstrap/Values.antt =====
-- The values that a map of options has after assignments.
use nets.Prelude.{
  ℕ, ◌≡◌, refl, ap, sym, subst, ◌∙◌, inl, inr, Bool, true, false, Option, none, some, [], ◌∷◌,
  arith, ◌==◌, ==_iff, if◌then◌else◌, Bool-cases,
}
use nets.Options.{SockOption, ValueType}
use nets.Server.{ChannelOptionList, value_of, insert_or_assign, assign_all}

-- The value at the option with the number `n`.
abbrev pub lookup : ChannelOptionList → ℕ → Option ValueType
lookup [] n = none
lookup (x ∷ xs) n = if value_of x.0 == n then some x.1 else lookup xs n

abbrev pub or_else : Option ValueType → Option ValueType → Option ValueType
or_else none d = d
or_else (some v) d = some v

-- The last value in the list for that option, or else `d`.
abbrev pub newest : ChannelOptionList → ℕ → Option ValueType → Option ValueType
newest [] n d = d
newest (x ∷ xs) n d = newest xs n (if value_of x.0 == n then some x.1 else d)

-- Each option once.
abbrev pub Unique : ChannelOptionList → Type 0
Unique [] = Unit {0}
Unique (x ∷ xs) = (lookup xs (value_of x.0) ≡ none) × Unique xs

==_sym-false : (a b : ℕ) → (a == b) ≡ false → (b == a) ≡ false
==_sym-false a b e = ground (arith, e)

if_twice {ℓ} :
    {A : Type ℓ} (b : Bool) (x y z : A)
    → (if b then x else z) ≡ (if b then x else if b then y else z)
if_twice true x y z = refl
if_twice false x y z = refl

-- Two tests that do not both succeed can be made in any order.
if_swap {ℓ} :
    {A : Type ℓ} (a b n : ℕ) (x y z : A)
    → (a == b) ≡ false
    → (if a == n then x else if b == n then y else z)
      ≡ (if b == n then y else if a == n then x else z)
if_swap a b n x y z e = elim (Bool-cases (a == n)) [
  | inl f ↦
      let same = (==_iff a n).0 f in
      let other : (b == n) ≡ false = ==_sym-false n b (subst (λ m. (m == b) ≡ false) same e) in
      rw (f, other) refl
  | inr f ↦ rw f refl
]

lookup-insert_or_assign :
    (xs : ChannelOptionList) (o : SockOption) (v : ValueType) (n : ℕ)
    → lookup (insert_or_assign xs o v) n ≡ (if value_of o == n then some v else lookup xs n)
unfolding insert_or_assign
lookup-insert_or_assign [] o v n = refl
lookup-insert_or_assign (x ∷ xs) o v n = elim (Bool-cases (value_of x.0 == value_of o)) [
  | inl e ↦
      let same = (==_iff (value_of x.0) (value_of o)).0 e in
      rw (e, same) (if_twice (value_of o == n) (some v) (some x.1) (lookup xs n))
  | inr e ↦
      rw (e, lookup-insert_or_assign xs o v n)
        (if_swap (value_of x.0) (value_of o) n (some x.1) (some v) (lookup xs n) e)
]

pub lookup-assign_all :
    (d xs : ChannelOptionList) (n : ℕ) → lookup (assign_all d xs) n ≡ newest xs n (lookup d n)
unfolding assign_all
lookup-assign_all d [] n = refl
lookup-assign_all d (x ∷ xs) n =
    lookup-assign_all (insert_or_assign d x.0 x.1) xs n
    ∙ ap (newest xs n) (lookup-insert_or_assign d x.0 x.1 n)

insert_or_assign-Unique :
    (xs : ChannelOptionList) (o : SockOption) (v : ValueType)
    → Unique xs
    → Unique (insert_or_assign xs o v)
unfolding insert_or_assign
insert_or_assign-Unique [] o v u = (refl, tt)
insert_or_assign-Unique (x ∷ xs) o v u = elim (Bool-cases (value_of x.0 == value_of o)) [
  | inl e ↦ rw e u
  | inr e ↦ rw e (
    lookup-insert_or_assign xs o v (value_of x.0)
        ∙ (rw (==_sym-false (value_of x.0) (value_of o) e) u.0),
    insert_or_assign-Unique xs o v u.1,
  )
]

pub assign_all-Unique : (d xs : ChannelOptionList) → Unique d → Unique (assign_all d xs)
unfolding assign_all
assign_all-Unique d [] u = u
assign_all-Unique d (x ∷ xs) u =
    assign_all-Unique (insert_or_assign d x.0 x.1) xs (insert_or_assign-Unique d x.0 x.1 u)

pub newest-Unique :
    (xs : ChannelOptionList) (n : ℕ) (d : Option ValueType)
    → Unique xs
    → newest xs n d ≡ or_else (lookup xs n) d
newest-Unique [] n d u = refl
newest-Unique (x ∷ xs) n d u = elim (Bool-cases (value_of x.0 == n)) [
  | inl e ↦
      let same = (==_iff (value_of x.0) n).0 e in
      rw e (
        newest-Unique xs n (some x.1) u.1
        ∙ ap (λ o. or_else o (some x.1)) (ap (lookup xs) (sym same) ∙ u.0))
  | inr e ↦ rw e (newest-Unique xs n d u.1)
]
