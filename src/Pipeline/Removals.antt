-- ===== src/Pipeline/Removals.antt =====
-- `removeFirst` and both kinds of `remove`, against the list of handlers.
use nets.Prelude.{
  ℕ, ◌≤◌, ◌≡◌, ◌⊎◌, refl, sym, ◌∙◌, subst, inl, inr, Bool, false, Option, none, some, List, [], ◌∷◌,
  arith, Bool-cases, length, if◌then◌else◌,
}
use nets.Memory.{Result, ok, ◌>>=◌}
use nets.Pipeline.{
  Pipeline, unlink_head, unlink_head_to, unlink_channel_handler, remove_first, remove_first_of,
  remove_where, unlink_behind, next_of, find_channel_handler_prev,
}
use nets.Pipeline.Chain.{Chain, NoneIs, Distinct, Holds, set_next_self, Chain-set_next}
use nets.Pipeline.Removes.{
  first_where, without_first, prev_from-prev_of, unlink_channel_handler-head, Unlinks, unlink_first,
}

NoneIs-without_first :
    (test : ℕ → Bool) (z : ℕ) (xs : List ℕ) → NoneIs z xs → NoneIs z (without_first test xs)
unfolding without_first
NoneIs-without_first test z [] d = tt
NoneIs-without_first test z (x ∷ xs) d = elim (Bool-cases (test x)) [
  | inl e ↦ rw e d.1
  | inr e ↦ rw e (d.0, NoneIs-without_first test z xs d.1)
]

Distinct-without_first :
    (test : ℕ → Bool) (xs : List ℕ) → Distinct xs → Distinct (without_first test xs)
unfolding without_first
Distinct-without_first test [] d = tt
Distinct-without_first test (x ∷ xs) d = elim (Bool-cases (test x)) [
  | inl e ↦ rw e d.1
  | inr e ↦ rw e (NoneIs-without_first test x xs d.0, Distinct-without_first test xs d.1)
]

-- What is left when the handler `r` is taken off: the list, and `r` without a successor.
pub record Without (p : Pipeline) (r : ℕ) (xs : List ℕ) : Type 0 where
  pub holds : Holds p xs
  pub free : (p.heap r).next ≡ none

unlink_head_to-Without :
    (o : Option ℕ) (p : Pipeline) (x : ℕ) (xs : List ℕ)
    → (p.heap x).next ≡ o
    → Chain p.heap o xs
    → Distinct (x ∷ xs)
    → Without (unlink_head_to o p x) x xs
unfolding unlink_head_to
unlink_head_to-Without none p x [] e c d = record {
  holds = record { chain = refl; distinct = tt };
  free = e;
}
unlink_head_to-Without none p x (y ∷ ys) e c d = cc (c.0)
unlink_head_to-Without (some n) p x xs e c d = record {
  holds = record { chain = Chain-set_next p.heap x none (some n) xs d.0 c; distinct = d.1 };
  free = set_next_self p.heap x none;
}

pub unlink_head-Without :
    (p : Pipeline) (x : ℕ) (xs : List ℕ) → Holds p (x ∷ xs) → Without (unlink_head p x) x xs
unfolding unlink_head
unlink_head-Without p x xs v =
    unlink_head_to-Without (p.heap x).next p x xs refl v.chain.1 v.distinct

-- `removeFirst` gives the head back without a successor and leaves the rest.
remove_first-Without :
    (p : Pipeline) (x : ℕ) (xs : List ℕ)
    → Holds p (x ∷ xs)
    → (p' : Pipeline) × (remove_first p ≡ (some x, p')) × Without p' x xs
unfolding remove_first remove_first_of
remove_first-Without p x xs v = (unlink_head p x, rw (v.chain.0) refl, unlink_head-Without p x xs v)

-- The first handler that passes the test is given back without a successor, and the rest is left;
-- a list that has none is left as it is.
abbrev pub RemovesFirst : (ℕ → Bool) → Pipeline → List ℕ → Result (Option ℕ × Pipeline) → Type 0
RemovesFirst test p xs result =
    ((r : ℕ) × (p' : Pipeline) × (first_where test xs ≡ some r)
      × (result ≡ ok (some r, p'))
      × Without p' r (without_first test xs))
    ⊎ ((first_where test xs ≡ none) × (result ≡ ok (none, p)))

behind-Chain :
    (test : ℕ → Bool) (p : Pipeline) (x : ℕ) (xs : List ℕ)
    → test x ≡ false
    → Holds p (x ∷ xs)
    → (u : Unlinks test p x xs)
    → Chain
        (unlink_channel_handler p u.prev u.removed).heap
        (unlink_channel_handler p u.prev u.removed).head
        (without_first test (x ∷ xs))
unfolding without_first
behind-Chain test p x xs e v u =
    rw e (unlink_channel_handler-head p u.prev u.removed ∙ v.chain.0, u.chain)

remove_behind-RemovesFirst :
    (fuel : ℕ) (test : ℕ → Bool) (p : Pipeline) (x : ℕ) (xs : List ℕ)
    → length xs ≤ fuel
    → test x ≡ false
    → Holds p (x ∷ xs)
    → RemovesFirst test p (x ∷ xs) (
        find_channel_handler_prev fuel p.heap test x >>= λ prev.
        unlink_behind p prev (next_of p.heap prev))
unfolding find_channel_handler_prev unlink_behind first_where without_first
remove_behind-RemovesFirst fuel test p x xs enough e v =
    let found = prev_from-prev_of fuel p.heap test x (p.heap x).next xs enough v.chain.1 in
    elim (unlink_first test p x xs v.distinct v.chain.1) [
      | inl u ↦ inl (
        u.removed,
        unlink_channel_handler p u.prev u.removed,
        rw e u.first,
        rw (found, u.found, u.link) refl,
        record {
          holds = record {
            chain = behind-Chain test p x xs e v u;
            distinct = Distinct-without_first test (x ∷ xs) v.distinct;
          };
          free = u.free;
        },
      )
      | inr a ↦ inr (rw e a.first, rw (found, a.found) refl)
    ]

pub remove_where-RemovesFirst :
    (fuel : ℕ) (test : ℕ → Bool) (o : Option ℕ) (p : Pipeline) (xs : List ℕ)
    → o ≡ p.head
    → length xs ≤ fuel
    → Holds p xs
    → RemovesFirst test p xs (remove_where fuel test o p)
unfolding remove_where first_where without_first
remove_where-RemovesFirst fuel test none p [] e enough v = inr (refl, refl)
remove_where-RemovesFirst fuel test none p (x ∷ xs) e enough v = cc (e, v.chain.0)
remove_where-RemovesFirst fuel test (some z) p [] e enough v = cc (e, v.chain)
remove_where-RemovesFirst fuel test (some z) p (x ∷ xs) e enough v =
    subst (λ s. RemovesFirst test p (x ∷ xs) (remove_where fuel test s p)) (sym (e ∙ v.chain.0))
      (elim (Bool-cases (test x)) [
        | inl t ↦
            inl (x, unlink_head p x, rw t refl, rw t refl, rw t (unlink_head-Without p x xs v))
        | inr t ↦
            subst
              (λ c. RemovesFirst test p (x ∷ xs) (
                if c
                then ok (some x, unlink_head p x)
                else (find_channel_handler_prev fuel p.heap test x >>= λ prev.
                    unlink_behind p prev (next_of p.heap prev))))
              (sym t) (remove_behind-RemovesFirst fuel test p x xs (omega arith) t v)
      ])
