-- ===== src/Pipeline/Removes.antt =====
-- The handler before the one that is looked for, and the list without it.
use nets.Prelude.{
  ℕ, zero, suc, ◌≤◌, ◌≡◌, ◌≢◌, ◌⊎◌, refl, ap, sym, ◌∙◌, subst, inl, inr, Bool, true, false, Option,
  none, some, List, [], ◌∷◌, arith, Bool-cases, length, if◌then◌else◌,
}
use nets.Memory.{ok}
use nets.Pipeline.{Heap, Pipeline, set_next, prev_from, unlink_to, unlink_channel_handler}
use nets.Pipeline.Chain.{Chain, NoneIs, Distinct, set_next_self, set_next_ne}

unfoldable pub first_where : (ℕ → Bool) → List ℕ → Option ℕ
first_where test [] = none
first_where test (x ∷ xs) = let rest = first_where test xs in if test x then some x else rest

unfoldable pub without_first : (ℕ → Bool) → List ℕ → List ℕ
without_first test [] = []
without_first test (x ∷ xs) = let rest = without_first test xs in if test x then xs else x ∷ rest

pub prev_of : (ℕ → Bool) → ℕ → List ℕ → Option ℕ
prev_of test prev [] = none
prev_of test prev (x ∷ xs) = let rest = prev_of test x xs in if test x then some prev else rest

pub prev_from-prev_of :
    (fuel : ℕ) (h : Heap) (test : ℕ → Bool) (prev : ℕ) (o : Option ℕ) (xs : List ℕ)
    → length xs ≤ fuel
    → Chain h o xs
    → prev_from fuel h test prev o ≡ ok (prev_of test prev xs)
unfolding prev_from prev_of
prev_from-prev_of fuel h test prev none [] enough c = refl
prev_from-prev_of fuel h test prev none (x ∷ xs) enough c = cc (c.0)
prev_from-prev_of fuel h test prev (some t) [] enough c = cc c
prev_from-prev_of zero h test prev (some t) (x ∷ xs) enough c = absurd (omega arith)
prev_from-prev_of (suc fuel) h test prev (some t) (x ∷ xs) enough c =
    subst (λ s. prev_from (suc fuel) h test prev s ≡ ok (prev_of test prev (x ∷ xs))) (sym c.0)
      (rw (prev_from-prev_of fuel h test x (h x).next xs (omega arith) c.1)
        (elim (Bool-cases (test x)) [ inl e ↦ rw e refl | inr e ↦ rw e refl ]))

unlink_to-frame :
    (o : Option ℕ) (p : Pipeline) (q r z : ℕ)
    → z ≢ q
    → z ≢ r
    → (unlink_to o p q r).heap z ≡ p.heap z
unfolding unlink_to
unlink_to-frame none p q r z d e = set_next_ne p.heap q z none d
unlink_to-frame (some n) p q r z d e =
    set_next_ne (set_next p.heap q (some n)) r z none e ∙ set_next_ne p.heap q z (some n) d

unlink_to-prev :
    (o : Option ℕ) (p : Pipeline) (q r : ℕ) → q ≢ r → ((unlink_to o p q r).heap q).next ≡ o
unfolding unlink_to
unlink_to-prev none p q r d = set_next_self p.heap q none
unlink_to-prev (some n) p q r d =
    rw (set_next_ne (set_next p.heap q (some n)) r q none d) (set_next_self p.heap q (some n))

unlink_to-removed :
    (o : Option ℕ) (p : Pipeline) (q r : ℕ)
    → q ≢ r
    → (p.heap r).next ≡ o
    → ((unlink_to o p q r).heap r).next ≡ none
unfolding unlink_to
unlink_to-removed none p q r d e = rw (set_next_ne p.heap q r none (λ s. d (sym s))) e
unlink_to-removed (some n) p q r d e = set_next_self (set_next p.heap q (some n)) r none

unlink_to-head : (o : Option ℕ) (p : Pipeline) (q r : ℕ) → (unlink_to o p q r).head ≡ p.head
unfolding unlink_to
unlink_to-head none p q r = refl
unlink_to-head (some n) p q r = refl

pub unlink_channel_handler-head :
    (p : Pipeline) (q r : ℕ) → (unlink_channel_handler p q r).head ≡ p.head
unfolding unlink_channel_handler
unlink_channel_handler-head p q r = unlink_to-head (p.heap r).next p q r

Chain-unlink :
    (p : Pipeline) (q r : ℕ) (o : Option ℕ) (xs : List ℕ)
    → NoneIs q xs
    → NoneIs r xs
    → Chain p.heap o xs
    → Chain (unlink_channel_handler p q r).heap o xs
unfolding unlink_channel_handler
Chain-unlink p q r o [] d e c = c
Chain-unlink p q r o (x ∷ xs) d e c = (
  c.0,
  rw (unlink_to-frame (p.heap r).next p q r x d.0 e.0)
      (Chain-unlink p q r (p.heap x).next xs d.1 e.1 c.1),
)

-- What unlinking the first handler of `ys` that passes the test does, where `x` stands before `ys`.
pub record Unlinks (test : ℕ → Bool) (p : Pipeline) (x : ℕ) (ys : List ℕ) : Type 0 where
  pub prev : ℕ
  pub removed : ℕ
  pub found : prev_of test x ys ≡ some prev
  pub first : first_where test ys ≡ some removed
  pub link : (p.heap prev).next ≡ some removed
  pub frame :
      (z : ℕ) → NoneIs z (x ∷ ys) → (unlink_channel_handler p prev removed).heap z ≡ p.heap z
  pub chain :
      Chain
        (unlink_channel_handler p prev removed).heap
        ((unlink_channel_handler p prev removed).heap x).next
        (without_first test ys)
  pub free : ((unlink_channel_handler p prev removed).heap removed).next ≡ none

pub record Absent (test : ℕ → Bool) (x : ℕ) (ys : List ℕ) : Type 0 where
  pub found : prev_of test x ys ≡ none
  pub first : first_where test ys ≡ none
  pub kept : without_first test ys ≡ ys

unlink_next :
    (test : ℕ → Bool) (p : Pipeline) (x y : ℕ) (ys : List ℕ)
    → test y ≡ true
    → Distinct (x ∷ y ∷ ys)
    → Chain p.heap (p.heap x).next (y ∷ ys)
    → Unlinks test p x (y ∷ ys)
unfolding unlink_channel_handler prev_of first_where without_first
unlink_next test p x y ys e d c =
    let apart : x ≢ y = λ q. d.0.0 (sym q) in
    record {
      prev = x;
      removed = y;
      found = rw e refl;
      first = rw e refl;
      link = c.0;
      frame =
          λ z f. unlink_to-frame (p.heap y).next p x y z (λ q. f.0 (sym q)) (λ q. f.1.0 (sym q));
      chain =
          rw (e, unlink_to-prev (p.heap y).next p x y apart)
            (Chain-unlink p x y (p.heap y).next ys d.0.1 d.1.0 c.1);
      free = unlink_to-removed (p.heap y).next p x y apart refl;
    }

unlink_later :
    (test : ℕ → Bool) (p : Pipeline) (x y : ℕ) (ys : List ℕ)
    → test y ≡ false
    → NoneIs x (y ∷ ys)
    → (p.heap x).next ≡ some y
    → Unlinks test p y ys
    → Unlinks test p x (y ∷ ys)
unfolding prev_of first_where without_first
unlink_later test p x y ys e d c u = record {
  prev = u.prev;
  removed = u.removed;
  found = rw e u.found;
  first = rw e u.first;
  link = u.link;
  frame = λ z f. u.frame z f.1;
  chain = rw (e, u.frame x d) (c, u.chain);
  free = u.free;
}

pub unlink_first :
    (test : ℕ → Bool) (p : Pipeline) (x : ℕ) (ys : List ℕ)
    → Distinct (x ∷ ys)
    → Chain p.heap (p.heap x).next ys
    → Unlinks test p x ys ⊎ Absent test x ys
unfolding prev_of first_where without_first
unlink_first test p x [] d c = inr (record { found = refl; first = refl; kept = refl })
unlink_first test p x (y ∷ ys) d c = elim (Bool-cases (test y)) [
  | inl e ↦ inl (unlink_next test p x y ys e d c)
  | inr e ↦ elim (unlink_first test p y ys d.1 c.1) [
    | inl u ↦ inl (unlink_later test p x y ys e d.0 c.0 u)
    | inr a ↦ inr (record {
      found = rw e a.found;
      first = rw e a.first;
      kept = rw e (ap (λ zs. y ∷ zs) a.kept);
    })
  ]
]
