-- ===== src/Pipeline/Adds.antt =====
-- `addFirst` and `addLast`.
use nets.Prelude.{
  ℕ, zero, suc, ◌≤◌, ◌≡◌, refl, ap, sym, ◌∙◌, Option, none, some, List, [], ◌∷◌, ◌++◌, arith,
  length,
}
use nets.Memory.{ok, err, diverges}
use nets.Pipeline.{
  Heap, Pipeline, set_next, last_from, find_last, add_first, add_first_to, add_last, add_last_to,
}
use nets.Pipeline.Chain.{
  Chain, NoneIs, Distinct, Holds, set_next_self, Chain-set_next, last_of, find_last-last_of,
  Chain-extend, Distinct-append, set_next_ne, last_of-ne,
}

add_first_to-Holds :
    (o : Option ℕ) (p : Pipeline) (x : ℕ) (xs : List ℕ)
    → Chain p.heap o xs
    → Distinct xs
    → NoneIs x xs
    → (p.heap x).next ≡ none
    → Holds (add_first_to o p x) (x ∷ xs)
unfolding add_first_to
add_first_to-Holds none p x [] c d f e = record { chain = (refl, e); distinct = (tt, tt) }
add_first_to-Holds none p x (y ∷ ys) c d f e = cc (c.0)
add_first_to-Holds (some z) p x [] c d f e = cc c
add_first_to-Holds (some z) p x (y ∷ ys) c d f e = record {
  chain = (
    refl,
    rw (set_next_self p.heap x (some z)) (Chain-set_next p.heap x (some z) (some z) (y ∷ ys) f c),
  );
  distinct = (f, d);
}

-- A handler that is not in the list and has no successor becomes the first of the list.
add_first-Holds :
    (p : Pipeline) (x : ℕ) (xs : List ℕ)
    → Holds p xs
    → NoneIs x xs
    → (p.heap x).next ≡ none
    → Holds (add_first p (some x)) (x ∷ xs)
unfolding add_first
add_first-Holds p x xs v f e = add_first_to-Holds p.head p x xs v.chain v.distinct f e

-- Handlers outside of the list are left alone.
abbrev pub Frame : Pipeline → Pipeline → List ℕ → Type 0
Frame p p' xs = (z : ℕ) → NoneIs z xs → p'.heap z ≡ p.heap z

add_last_to-Holds :
    (fuel : ℕ) (o : Option ℕ) (p : Pipeline) (x : ℕ) (xs : List ℕ)
    → o ≡ p.head
    → length xs ≤ fuel
    → Chain p.heap o xs
    → Distinct xs
    → NoneIs x xs
    → (p.heap x).next ≡ none
    → (p' : Pipeline) × (add_last_to fuel o p x ≡ ok p') × Holds p' (xs ++ (x ∷ [])) × Frame p p' xs
unfolding add_last_to
add_last_to-Holds fuel none p x [] o enough c d f e = (
  record p { head = some x },
  refl,
  record { chain = (refl, e); distinct = (tt, tt) },
  λ z apart. refl,
)
add_last_to-Holds fuel none p x (y ∷ ys) o enough c d f e = cc (c.0)
add_last_to-Holds fuel (some z) p x [] o enough c d f e = cc c
add_last_to-Holds fuel (some z) p x (y ∷ ys) o enough c d f e =
    let first : z ≡ y = cc (c.0) in
    let found = find_last-last_of fuel p.heap y ys (omega arith) c.1 in
    (
      record p { heap = set_next p.heap (last_of y ys) (some x) },
      rw (first, found) refl,
      record {
        chain = rw (← o, first) (Chain-extend p.heap x y ys d f e c.1);
        distinct = Distinct-append x (y ∷ ys) d f;
      },
      λ z apart.
          set_next_ne p.heap (last_of y ys) z (some x) (λ q. last_of-ne z y ys apart (sym q)),
    )

-- With a round of the loop for each handler, one that is not in the list and has no successor
-- becomes the last of the list, and handlers outside of it are left alone.
pub add_last-Holds :
    (fuel : ℕ) (p : Pipeline) (x : ℕ) (xs : List ℕ)
    → length xs ≤ fuel
    → Holds p xs
    → NoneIs x xs
    → (p.heap x).next ≡ none
    → (p' : Pipeline) × (add_last fuel p (some x) ≡ ok p')
      × Holds p' (xs ++ (x ∷ []))
      × Frame p p' xs
unfolding add_last
add_last-Holds fuel p x xs enough v f e =
    add_last_to-Holds fuel p.head p x xs refl enough v.chain v.distinct f e

-- A handler that is its own successor has no last one.
last_from-ring :
    (fuel : ℕ) (h : Heap) (x : ℕ) → (h x).next ≡ some x → last_from fuel h x ≡ err diverges
unfolding last_from
last_from-ring zero h x e = refl
last_from-ring (suc fuel) h x e = rw (e, last_from) (last_from-ring fuel h x e)

find_last-ring :
    (fuel : ℕ) (h : Heap) (x : ℕ) → (h x).next ≡ some x → find_last fuel h x ≡ err diverges
unfolding find_last
find_last-ring fuel h x e = rw (e, find_last) (last_from-ring fuel h x e)

add_last_to-twice :
    (o : Option ℕ) (p : Pipeline) (x y : ℕ)
    → o ≡ p.head
    → Chain p.heap o (x ∷ [])
    → (fuel : ℕ)
    → (p' : Pipeline) × (add_last_to fuel o p x ≡ ok p')
      × (p'.head ≡ some x)
      × ((p'.heap x).next ≡ some x)
unfolding add_last_to
add_last_to-twice none p x y e c fuel = cc (c.0)
add_last_to-twice (some z) p x y e c fuel =
    let first : z ≡ x = cc (c.0) in
    let found = find_last-last_of fuel p.heap x [] (omega arith) c.1 in
    (
      record p { heap = set_next p.heap x (some x) },
      rw (first, found) refl,
      sym e ∙ ap some first,
      set_next_self p.heap x (some x),
    )

add_last_to-ring :
    (o : Option ℕ) (p : Pipeline) (x y fuel : ℕ)
    → o ≡ some x
    → (p.heap x).next ≡ some x
    → add_last_to fuel o p y ≡ err diverges
unfolding add_last_to
add_last_to-ring none p x y fuel e c = cc e
add_last_to-ring (some z) p x y fuel e c =
    let first : z ≡ x = cc e in rw (first, find_last-ring fuel p.heap x c) refl

-- Adding the only handler a second time makes it its own successor, and the next `addLast` never
-- returns.
add_last-twice :
    (fuel : ℕ) (p : Pipeline) (x y : ℕ)
    → Holds p (x ∷ [])
    → (p' : Pipeline) × (add_last fuel p (some x) ≡ ok p')
      × ((rounds : ℕ) → add_last rounds p' (some y) ≡ err diverges)
unfolding add_last
add_last-twice fuel p x y v =
    let (p', added, first, ring) = add_last_to-twice p.head p x y refl v.chain fuel in
    (p', added, λ rounds. add_last_to-ring p'.head p' x y rounds first ring)
