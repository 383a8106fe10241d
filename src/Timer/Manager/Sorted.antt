-- ===== src/Timer/Manager/Sorted.antt =====
-- The entries stay in the order of their times.
use nets.Prelude.{
  ◌≡◌, refl, ap, inl, inr, List, [], ◌∷◌, ◌++◌, arith, All, All-append, All-append_left,
  All-append_right, Bool-cases,
}
use nets.Timestamp.{Timestamp, ◌≤ₜ◌, is_before}
use nets.Timer.{TimerId}
use nets.Timer.Manager.{Entry, insert, cancel_in, up_to, beyond}

-- Every entry is at `t` or later, or at `t` or earlier.
abbrev pub AllFrom : Timestamp → List Entry → Type 0
AllFrom t = All (λ e. t ≤ₜ e.time)

abbrev pub AllUpTo : Timestamp → List Entry → Type 0
AllUpTo t = All (λ e. e.time ≤ₜ t)

abbrev pub IsSorted : List Entry → Type 0
IsSorted [] = Unit {0}
IsSorted (x ∷ xs) = AllFrom x.time xs × IsSorted xs

pub AllFrom-mono : (t u : Timestamp) (xs : List Entry) → u ≤ₜ t → AllFrom t xs → AllFrom u xs
AllFrom-mono t u [] h a = tt
AllFrom-mono t u (x ∷ xs) h a = (omega arith, AllFrom-mono t u xs h a.1)

pub AllUpTo-mono : (t u : Timestamp) (xs : List Entry) → t ≤ₜ u → AllUpTo t xs → AllUpTo u xs
AllUpTo-mono t u [] h a = tt
AllUpTo-mono t u (x ∷ xs) h a = (omega arith, AllUpTo-mono t u xs h a.1)

module _ (P : Entry → Type 0) where
  pub insert-All : (e : Entry) (xs : List Entry) → P e → All P xs → All P (insert e xs)
  unfolding insert
  insert-All e [] p a = (p, tt)
  insert-All e (x ∷ xs) p a = elim (Bool-cases (is_before e.time x.time)) [
    | inl earlier ↦ rw earlier (p, a)
    | inr later ↦ rw later (a.0, insert-All e xs p a.1)
  ]

pub insert-IsSorted : (e : Entry) (xs : List Entry) → IsSorted xs → IsSorted (insert e xs)
unfolding insert
insert-IsSorted e [] s = (tt, tt)
insert-IsSorted e (x ∷ xs) s = elim (Bool-cases (is_before e.time x.time)) [
  | inl earlier ↦
      let le : e.time ≤ₜ x.time = ground arith in
      rw earlier ((le, AllFrom-mono x.time e.time xs le s.0), s)
  | inr later ↦
      let le : x.time ≤ₜ e.time = ground arith in
      rw later (insert-All (λ y. x.time ≤ₜ y.time) e xs le s.0, insert-IsSorted e xs s.1)
]

-- Two sorted parts, the first up to a time and the second from it on.
pub IsSorted-append :
    (t : Timestamp) (xs ys : List Entry)
    → IsSorted xs
    → AllUpTo t xs
    → AllFrom t ys
    → IsSorted ys
    → IsSorted (xs ++ ys)
IsSorted-append t [] ys s u f s' = s'
IsSorted-append t (x ∷ xs) ys s u f s' = (
  All-append (λ y. x.time ≤ₜ y.time) xs ys s.0 (AllFrom-mono t x.time ys u.0 f),
  IsSorted-append t xs ys s.1 u.1 f s',
)

-- Around an entry of a sorted list.
pub record Around (passed : List Entry) (x : Entry) (rest : List Entry) : Type 0 where
  pub before : IsSorted passed
  pub up_to_x : AllUpTo x.time passed
  pub from_x : AllFrom x.time rest
  pub behind : IsSorted rest

pub Around-of_IsSorted :
    (passed : List Entry) (x : Entry) (rest : List Entry)
    → IsSorted (passed ++ (x ∷ rest))
    → Around passed x rest
Around-of_IsSorted [] x rest s = record { before = tt; up_to_x = tt; from_x = s.0; behind = s.1 }
Around-of_IsSorted (y ∷ ys) x rest s =
    let a = Around-of_IsSorted ys x rest s.1 in
    record {
      before = (All-append_left (λ z. y.time ≤ₜ z.time) ys (x ∷ rest) s.0, a.before);
      up_to_x = ((All-append_right (λ z. y.time ≤ₜ z.time) ys (x ∷ rest) s.0).0, a.up_to_x);
      from_x = a.from_x;
      behind = a.behind;
    }

-- The two parts of a list, with the new entry between them, are what `insert` makes of it.
pub up_to-beyond :
    (e : Entry) (xs : List Entry) → up_to e.time xs ++ (e ∷ beyond e.time xs) ≡ insert e xs
unfolding up_to beyond insert
up_to-beyond e [] = refl
up_to-beyond e (x ∷ xs) = elim (Bool-cases (is_before e.time x.time)) [
  | inl earlier ↦ rw earlier
  | inr later ↦ rw later (ap (◌∷◌ x) (up_to-beyond e xs))
]

-- Cancelling leaves the times of the entries.
module _ (P : Timestamp → Type 0) where
  pub cancel_in-All :
      (id : TimerId) (xs : List Entry)
      → All (λ e. P e.time) xs
      → All (λ e. P e.time) (cancel_in id xs)
  unfolding cancel_in
  cancel_in-All id [] a = tt
  cancel_in-All id (x ∷ xs) a = ground (arith, cancel_in-All id xs a.1)

pub cancel_in-IsSorted : (id : TimerId) (xs : List Entry) → IsSorted xs → IsSorted (cancel_in id xs)
unfolding cancel_in
cancel_in-IsSorted id [] s = tt
cancel_in-IsSorted id (x ∷ xs) s =
    ground (arith, cancel_in-IsSorted id xs s.1, cancel_in-All (λ t. x.time ≤ₜ t) id xs s.0)
