-- ===== src/Pipeline/Chain.antt =====
-- When the pointers from a head on spell a list of handlers.
use nets.Prelude.{
  ℕ, zero, suc, ◌≤◌, ◌<◌, ◌≡◌, ◌≢◌, refl, sym, inl, inr, Option, none, some, List, [], ◌∷◌, ◌++◌,
  arith, All, Bool-cases, length, ◌==◌, ==_iff,
}
use nets.Memory.{ok}
use nets.Pipeline.{Heap, Pipeline, set_next, last_from, find_last}

abbrev pub Chain : Heap → Option ℕ → List ℕ → Type 0
Chain h o [] = o ≡ none
Chain h o (x ∷ xs) = (o ≡ some x) × Chain h (h x).next xs

abbrev pub NoneIs : ℕ → List ℕ → Type 0
NoneIs x = All (λ y. y ≢ x)

abbrev pub Distinct : List ℕ → Type 0
Distinct [] = Unit {0}
Distinct (x ∷ xs) = NoneIs x xs × Distinct xs

pub set_next_self : (h : Heap) (x : ℕ) (n : Option ℕ) → (set_next h x n x).next ≡ n
unfolding set_next
set_next_self h x n = ground arith

pub set_next_ne : (h : Heap) (x y : ℕ) (n : Option ℕ) → y ≢ x → set_next h x n y ≡ h y
unfolding set_next
set_next_ne h x y n d = elim (Bool-cases (x == y)) [
  | inl e ↦ absurd (d (sym ((==_iff x y).0 e)))
  | inr e ↦ rw e
]

-- A write at a handler outside of the list leaves it.
pub Chain-set_next :
    (h : Heap) (y : ℕ) (n o : Option ℕ) (xs : List ℕ)
    → NoneIs y xs
    → Chain h o xs
    → Chain (set_next h y n) o xs
Chain-set_next h y n o [] d c = c
Chain-set_next h y n o (x ∷ xs) d c =
    (c.0, rw (set_next_ne h y x n d.0) (Chain-set_next h y n (h x).next xs d.1 c.1))

abbrev pub last_of : ℕ → List ℕ → ℕ
last_of x [] = x
last_of x (y ∷ ys) = last_of y ys

pub last_of-ne : (z y : ℕ) (ys : List ℕ) → NoneIs z (y ∷ ys) → last_of y ys ≢ z
last_of-ne z y [] d = d.0
last_of-ne z y (x ∷ xs) d = last_of-ne z x xs d.1

pub last_from-last_of :
    (fuel : ℕ) (h : Heap) (x : ℕ) (xs : List ℕ)
    → length xs < fuel
    → Chain h (h x).next xs
    → last_from fuel h x ≡ ok (last_of x xs)
unfolding last_from
last_from-last_of zero h x xs enough c = absurd (omega arith)
last_from-last_of (suc fuel) h x [] enough c = rw (c, last_from)
last_from-last_of (suc fuel) h x (y ∷ ys) enough c =
    rw (c.0, last_from) (last_from-last_of fuel h y ys (omega arith) c.1)

pub find_last-last_of :
    (fuel : ℕ) (h : Heap) (x : ℕ) (xs : List ℕ)
    → length xs ≤ fuel
    → Chain h (h x).next xs
    → find_last fuel h x ≡ ok (last_of x xs)
unfolding find_last
find_last-last_of fuel h x [] enough c = rw (c, find_last)
find_last-last_of fuel h x (y ∷ ys) enough c =
    rw (c.0, find_last) (last_from-last_of fuel h y ys (omega arith) c.1)

-- A link from the last handler to a new one extends the list.
pub Chain-extend :
    (h : Heap) (z x : ℕ) (xs : List ℕ)
    → Distinct (x ∷ xs)
    → NoneIs z (x ∷ xs)
    → (h z).next ≡ none
    → Chain h (h x).next xs
    → Chain (set_next h (last_of x xs) (some z)) (some x) (x ∷ (xs ++ (z ∷ [])))
Chain-extend h z x [] d f e c =
    (refl, (set_next_self h x (some z), rw (set_next_ne h x z (some z) (λ q. f.0 (sym q))) e))
Chain-extend h z x (y ∷ ys) d f e c = (
  refl,
  rw (set_next_ne h (last_of y ys) x (some z) (λ q. last_of-ne x y ys d.0 (sym q)))
      (rw c.0 (Chain-extend h z y ys d.1 f.1 e c.1)),
)

-- A pipeline that spells a list of handlers, each once.
pub record Holds (p : Pipeline) (xs : List ℕ) : Type 0 where
  pub chain : Chain p.heap p.head xs
  pub distinct : Distinct xs

pub NoneIs-append : (x z : ℕ) (xs : List ℕ) → NoneIs x xs → z ≢ x → NoneIs x (xs ++ (z ∷ []))
NoneIs-append x z [] d e = (e, tt)
NoneIs-append x z (y ∷ ys) d e = (d.0, NoneIs-append x z ys d.1 e)

pub Distinct-append : (z : ℕ) (xs : List ℕ) → Distinct xs → NoneIs z xs → Distinct (xs ++ (z ∷ []))
Distinct-append z [] d f = (tt, tt)
Distinct-append z (x ∷ xs) d f =
    (NoneIs-append x z xs d.0 (λ q. f.0 (sym q)), Distinct-append z xs d.1 f.1)
