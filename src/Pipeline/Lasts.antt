-- ===== src/Pipeline/Lasts.antt =====
-- `removeLast`, and the removals of a handler by its name and by its pointer.
use nets.Prelude.{
  ℕ, zero, suc, ◌≤◌, ◌<◌, ◌≡◌, ◌≢◌, refl, ap, sym, subst, inl, inr, true, false, Option, none, some,
  List, [], ◌∷◌, ◌++◌, arith, Bool-cases, length, if◌then◌else◌, ◌==◌, ==_iff,
}
use Prim.Native.String.{String}
use text.Mathlib.Text.{◌==◌ as str_eq}
use nets.Memory.{ok}
use nets.Pipeline.{
  Heap, Pipeline, set_next, unlink_head, last_prev_from, find_last_prev, remove_last,
  remove_last_of, remove_last_behind, remove_named, remove_handler, remove_where, has_name,
  is_pointer, is_some,
}
use nets.Pipeline.Chain.{Chain, NoneIs, Distinct, Holds, set_next_self, set_next_ne, last_of}
use nets.Pipeline.Removes.{first_where, without_first}
use nets.Pipeline.Removals.{Without, unlink_head-Without, RemovesFirst, remove_where-RemovesFirst}

abbrev pub but_last : ℕ → List ℕ → List ℕ
but_last x [] = []
but_last x (y ∷ ys) = x ∷ but_last y ys

abbrev prev_last : ℕ → ℕ → List ℕ → ℕ
prev_last x y [] = x
prev_last x y (z ∷ zs) = prev_last y z zs

last_prev_from-prev_last :
    (fuel : ℕ) (h : Heap) (x y : ℕ) (ys : List ℕ)
    → length ys < fuel
    → Chain h (h y).next ys
    → last_prev_from fuel h x y ≡ ok (prev_last x y ys)
unfolding last_prev_from
last_prev_from-prev_last zero h x y ys enough c = absurd (omega arith)
last_prev_from-prev_last (suc fuel) h x y [] enough c = rw (c, last_prev_from) refl
last_prev_from-prev_last (suc fuel) h x y (z ∷ zs) enough c =
    rw (c.0, last_prev_from) (last_prev_from-prev_last fuel h y z zs (omega arith) c.1)

NoneIs-but_last : (x y : ℕ) (ys : List ℕ) → NoneIs x (y ∷ ys) → NoneIs x (but_last y ys)
NoneIs-but_last x y [] d = tt
NoneIs-but_last x y (z ∷ zs) d = (d.0, NoneIs-but_last x z zs d.1)

Distinct-but_last : (x : ℕ) (xs : List ℕ) → Distinct (x ∷ xs) → Distinct (but_last x xs)
Distinct-but_last x [] d = tt
Distinct-but_last x (y ∷ ys) d = (NoneIs-but_last x y ys d.0, Distinct-but_last y ys d.1)

record Cut (h : Heap) (x y : ℕ) (ys : List ℕ) : Type 0 where
  link : (h (prev_last x y ys)).next ≡ some (last_of y ys)
  frame : (z : ℕ) → NoneIs z (x ∷ y ∷ ys) → z ≢ prev_last x y ys
  chain :
      Chain
        (set_next h (prev_last x y ys) none)
        (set_next h (prev_last x y ys) none x).next
        (but_last y ys)
  end : (h (last_of y ys)).next ≡ none

prev_last-Cut :
    (h : Heap) (x y : ℕ) (ys : List ℕ)
    → Distinct (x ∷ y ∷ ys)
    → Chain h (h x).next (y ∷ ys)
    → Cut h x y ys
prev_last-Cut h x y [] d c = record {
  link = c.0;
  frame = λ z f q. f.0 (sym q);
  chain = set_next_self h x none;
  end = c.1;
}
prev_last-Cut h x y (z ∷ zs) d c =
    let later = prev_last-Cut h y z zs d.1 c.1 in
    record {
      link = later.link;
      frame = λ w f. later.frame w f.1;
      chain = rw (set_next_ne h (prev_last y z zs) x none (later.frame x d.0)) (c.0, later.chain);
      end = later.end;
    }

remove_last_behind-Without :
    (fuel : ℕ) (o : Option ℕ) (p : Pipeline) (x : ℕ) (xs : List ℕ)
    → o ≡ (p.heap x).next
    → length xs ≤ fuel
    → Holds p (x ∷ xs)
    → (p' : Pipeline) × (remove_last_behind fuel o p x ≡ ok (some (last_of x xs), p'))
      × Without p' (last_of x xs) (but_last x xs)
unfolding remove_last_behind find_last_prev
remove_last_behind-Without fuel none p x [] e enough v =
    (unlink_head p x, refl, unlink_head-Without p x [] v)
remove_last_behind-Without fuel none p x (y ∷ ys) e enough v = cc (e, v.chain.1.0)
remove_last_behind-Without fuel (some z) p x [] e enough v = cc (e, v.chain.1)
remove_last_behind-Without fuel (some z) p x (y ∷ ys) e enough v =
    let cut = prev_last-Cut p.heap x y ys v.distinct v.chain.1 in
    let q = prev_last x y ys in
    let apart : last_of y ys ≢ q = λ s. cc (cut.end, cut.link, s) in
    (
      record p { heap = set_next p.heap q none },
      rw
          (
            v.chain.1.0,
            find_last_prev,
            last_prev_from-prev_last fuel p.heap x y ys enough v.chain.1.1,
            cut.link,
          )
          refl,
      record {
        holds = record {
          chain = (v.chain.0, cut.chain);
          distinct = Distinct-but_last x (y ∷ ys) v.distinct;
        };
        free = rw (set_next_ne p.heap q (last_of y ys) none apart) cut.end;
      },
    )

-- With a round of the loop for each handler, `removeLast` gives the last handler back without a
-- successor and leaves those before it.
remove_last-Without :
    (fuel : ℕ) (p : Pipeline) (x : ℕ) (xs : List ℕ)
    → length xs ≤ fuel
    → Holds p (x ∷ xs)
    → (p' : Pipeline) × (remove_last fuel p ≡ ok (some (last_of x xs), p'))
      × Without p' (last_of x xs) (but_last x xs)
unfolding remove_last remove_last_of
remove_last-Without fuel p x xs enough v =
    subst
      (λ o.
        (p' : Pipeline) × (remove_last_of fuel o p ≡ ok (some (last_of x xs), p'))
        × Without p' (last_of x xs) (but_last x xs))
      (sym v.chain.0) (remove_last_behind-Without fuel (p.heap x).next p x xs refl enough v)

-- With a round of the loop for each handler and a name that is not empty, the first handler of that
-- name is given back without a successor and the rest is left, and a list without one is left as it
-- is.
remove_named-RemovesFirst :
    (fuel : ℕ) (p : Pipeline) (name : String) (xs : List ℕ)
    → str_eq name "" ≡ false
    → length xs ≤ fuel
    → Holds p xs
    → RemovesFirst (has_name p.heap name) p xs (remove_named fuel p name)
unfolding remove_named
remove_named-RemovesFirst fuel p name xs e enough v =
    subst
      (λ c.
        RemovesFirst (has_name p.heap name) p xs
          (if c then ok (none, p) else remove_where fuel (has_name p.heap name) p.head p))
      (sym e) (remove_where-RemovesFirst fuel (has_name p.heap name) p.head p xs refl enough v)

pointer_self : (x : ℕ) → is_pointer x x ≡ true
pointer_self x = ground arith

pointer_other : (x y : ℕ) → x ≢ y → is_pointer x y ≡ false
pointer_other x y d = elim (Bool-cases (y == x)) [
  | inl e ↦ absurd (d (sym ((==_iff y x).0 e)))
  | inr e ↦ e
]

NoneIs-middle : (y x : ℕ) (ys after : List ℕ) → NoneIs y (ys ++ (x ∷ after)) → x ≢ y
NoneIs-middle y x [] after d = d.0
NoneIs-middle y x (z ∷ zs) after d = NoneIs-middle y x zs after d.1

first_where-pointer :
    (x : ℕ) (before after : List ℕ)
    → Distinct (before ++ (x ∷ after))
    → (first_where (is_pointer x) (before ++ (x ∷ after)) ≡ some x)
      × (without_first (is_pointer x) (before ++ (x ∷ after)) ≡ before ++ after)
unfolding first_where without_first
first_where-pointer x [] after d = (rw (pointer_self x) refl, rw (pointer_self x) refl)
first_where-pointer x (y ∷ ys) after d =
    let other = pointer_other x y (NoneIs-middle y x ys after d.0) in
    let rest = first_where-pointer x ys after d.1 in
    (rw other rest.0, rw other (ap (λ l. y ∷ l) rest.1))

-- With a round of the loop for each handler, `remove` of a handler of the list says true, leaves the
-- handlers around it in order and the removed one without a successor.
remove_handler-Without :
    (fuel : ℕ) (p : Pipeline) (x : ℕ) (before after : List ℕ)
    → length (before ++ (x ∷ after)) ≤ fuel
    → Holds p (before ++ (x ∷ after))
    → (p' : Pipeline) × (remove_handler fuel p (some x) ≡ ok (true, p'))
      × Without p' x (before ++ after)
unfolding remove_handler is_some
remove_handler-Without fuel p x before after enough v =
    let (is_first, left) = first_where-pointer x before after v.distinct in
    elim (remove_where-RemovesFirst fuel (is_pointer x) p.head p (before ++ (x ∷ after)) refl enough
      v) [
        | inl (r, p', first, result, without) ↦
            let same : r ≡ x = cc (first, is_first) in
            (
              p',
              rw result refl,
              rw (← left) (
                  subst (λ s. Without p' s (without_first (is_pointer x) (before ++ (x ∷ after))))
                    same without),
            )
        | inr (none_first, result) ↦ cc (none_first, is_first)
      ]
