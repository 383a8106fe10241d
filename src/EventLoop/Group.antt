-- ===== src/EventLoop/Group.antt =====
-- nets/net/core/EventLoopGroup.h and EventLoopGroup.cpp: the choice of the next loop, and the end.
use nets.Prelude.{
  ℕ, zero, suc, ◌+◌, ◌≤◌, ◌<◌, ◌≡◌, refl, ap, sym, ◌∙◌, subst, Option, none, some, List, [], ◌∷◌,
  ◌++◌, leb, if◌then◌else◌, arith, dec_lt, length, Option-cases, inl, inr, get_elem?, drop_all,
  take, drop,
}

-- `if (nextLoop_ >= eventLoops_.size()) { nextLoop_ = 0; }`
abbrev wrap : ℕ → ℕ → ℕ
wrap n i = if leb n i then 0 else i

wrap_of_lt : (n i j : ℕ) → j ≡ i → i < n → wrap n j ≡ i
wrap_of_lt n i j e h = ground arith

wrap_end : (n j : ℕ) → n ≤ j → wrap n j ≡ 0
wrap_end n j h = ground arith

module _ {ℓ} (A : Type ℓ) where
  pub record EventLoopGroup : Type ℓ where
    pub next_loop : ℕ
    pub event_loops : List A

module _ {ℓ} {A : Type ℓ} where
  -- None where `eventLoops_[nextLoop_]` is past the end, which no standard defines.
  unfoldable pub next : EventLoopGroup A → Option (A × EventLoopGroup A)
  next g = elim (get_elem? g.event_loops g.next_loop) [
    | none ↦ none
    | some l ↦ some (l, record g { next_loop = wrap (length g.event_loops) (suc g.next_loop) })
  ]

  abbrev with_first : A → Option (List A × EventLoopGroup A) → Option (List A × EventLoopGroup A)
  with_first l none = none
  with_first l (some (ls, g)) = some (l ∷ ls, g)

  -- `n` calls in a row
  unfoldable pub nexts : ℕ → EventLoopGroup A → Option (List A × EventLoopGroup A)
  nexts zero g = some ([], g)
  nexts (suc n) g = elim (next g) [ none ↦ none | some (l, g') ↦ with_first l (nexts n g') ]

  abbrev group : List A → ℕ → EventLoopGroup A
  group ls i = record { next_loop = i; event_loops = ls }

  get_elem-drop :
      (i : ℕ) (ls : List A)
      → i < length ls
      → (l : A) × (get_elem? ls i ≡ some l) × (drop i ls ≡ l ∷ drop (suc i) ls)
  get_elem-drop i [] h = absurd (omega arith)
  get_elem-drop zero (l ∷ ls) h = (l, refl, refl)
  get_elem-drop (suc i) (l ∷ ls) h = get_elem-drop i ls (omega arith)

  next-some :
      (ls : List A) (i : ℕ) (l : A)
      → get_elem? ls i ≡ some l
      → next (group ls i) ≡ some (l, group ls (wrap (length ls) (suc i)))
  unfolding next
  next-some ls i l e = rw e refl

  nexts-suc :
      (n : ℕ) (g g' g'' : EventLoopGroup A) (l : A) (ls : List A)
      → next g ≡ some (l, g')
      → nexts n g' ≡ some (ls, g'')
      → nexts (suc n) g ≡ some (l ∷ ls, g'')
  unfolding nexts
  nexts-suc n g g' g'' l ls e f = rw (e, nexts) (rw f refl)

  nexts-take :
      (n i : ℕ) (ls : List A)
      → i < length ls
      → i + n ≤ length ls
      → nexts n (group ls i) ≡ some (take n (drop i ls), group ls (wrap (length ls) (i + n)))
  unfolding nexts
  nexts-take zero i ls h k =
      ap (λ j. some ([], group ls j)) (sym (wrap_of_lt (length ls) i (i + 0) (omega arith) h))
  nexts-take (suc n) i ls h k =
      let (l, e, d) = get_elem-drop i ls h in
      let f = next-some ls i l e in
      rw d (elim (dec_lt (suc i) (length ls)) [
        | yes more ↦
            nexts-suc n (group ls i) _ _ l (take n (drop (suc i) ls))
              (f ∙ ap (λ j. some (l, group ls j)) (wrap_of_lt _ (suc i) (suc i) refl more))
              (nexts-take n (suc i) ls more (omega arith)
                ∙ ap (λ j. some (take n (drop (suc i) ls), group ls (wrap (length ls) j)))
                    (omega arith))
        | no last ↦
            let z : n ≡ 0 = omega arith in
            let w : wrap (length ls) (suc i) ≡ wrap (length ls) (i + suc n) = ground arith in
            subst
              (λ m.
                nexts (suc m) (group ls i)
                ≡ some (l ∷ take m (drop (suc i) ls), group ls (wrap (length ls) (i + suc n))))
              (sym z)
              (nexts-suc 0 (group ls i) _ _ l [] (f ∙ ap (λ j. some (l, group ls j)) w) refl)
      ])

  -- Past the end of the list, and on from its start.
  nexts-around :
      (n i k : ℕ) (ls : List A)
      → i < length ls
      → k < length ls
      → i + n ≡ length ls + k
      → nexts n (group ls i) ≡ some (drop i ls ++ take k ls, group ls k)
  nexts-around zero i k ls h j e = absurd (omega arith)
  nexts-around (suc n) i k ls h j e =
      let (l, f, d) = get_elem-drop i ls h in
      let g = next-some ls i l f in
      rw d (elim (dec_lt (suc i) (length ls)) [
        | yes more ↦
            nexts-suc n (group ls i) _ _ l (drop (suc i) ls ++ take k ls)
              (g ∙ ap (λ m. some (l, group ls m)) (wrap_of_lt _ (suc i) (suc i) refl more))
              (nexts-around n (suc i) k ls more j (omega arith))
        | no last ↦
            let z : k ≡ n = omega arith in
            rw (drop_all (suc i) ls (omega arith)) (
              nexts-suc n (group ls i) _ _ l (take k ls)
                (g ∙ ap (λ m. some (l, group ls m)) (wrap_end _ (suc i) (omega arith)))
                (subst (λ m. nexts m (group ls 0) ≡ some (take k ls, group ls k)) z
                  (nexts-take k 0 ls (omega arith) (omega arith)
                    ∙ ap (λ m. some (take k ls, group ls m))
                        (wrap_of_lt _ k (0 + k) (omega arith) j))))
      ])

  -- The calls that a sequence of them starts with.
  pub nexts-first :
      (n : ℕ) (g : EventLoopGroup A) (ls : List A) (g' : EventLoopGroup A)
      → nexts (suc n) g ≡ some (ls, g')
      → (l : A) × (g₁ : EventLoopGroup A) × (ls' : List A) × (next g ≡ some (l, g₁))
        × (nexts n g₁ ≡ some (ls', g'))
        × (ls ≡ l ∷ ls')
  unfolding nexts
  nexts-first n g ls g' e = elim (Option-cases (next g)) [
    | inl f ↦ absurd (cc (rw (f, nexts) at e))
    | inr ((l, g₁), f) ↦ elim (Option-cases (nexts n g₁)) [
      | inl r ↦ absurd (cc (rw (f, nexts, r) at e))
      | inr ((ls', g₂), r) ↦
          let done = rw (f, nexts, r) at e in (l, g₁, ls', f, cc (r, done), cc done)
    ]
  ]

  -- As many calls of `next` as there are loops give each loop once, from the one whose turn it is,
  -- and leave the group as it was.
  pub next-Rounds :
      (g : EventLoopGroup A)
      → g.next_loop < length g.event_loops
      → nexts (length g.event_loops) g
        ≡ some (drop g.next_loop g.event_loops ++ take g.next_loop g.event_loops, g)
  next-Rounds g h =
      nexts-around (length g.event_loops) g.next_loop g.next_loop g.event_loops h h (omega arith)
