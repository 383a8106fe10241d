-- ===== src/Pipeline/Shared.antt =====
-- The loop of `initSocketChannel` that adds the handlers of a list to a new channel (ServerSocketChannel.cpp,
-- ConnectorChannel.cpp). The links of the list are in the handlers, so a handler that two pipelines share has one
-- successor for both.
use nets.Prelude.{
  ℕ, zero, suc, ◌+◌, ◌≤◌, ◌≡◌, ◌≢◌, refl, ap, sym, ◌∙◌, subst, Bool, true, Option, none, some, List,
  [], ◌∷◌, ◌++◌, arith, All, append_assoc, append-nil, length, length-append,
}
use nets.Memory.{Result, ok, err, diverges, ◌>>=◌}
use nets.Pipeline.{Heap, Pipeline, last_from, find_last, add_last, add_last_to}
use nets.Pipeline.Chain.{NoneIs, Distinct, Holds}
use nets.Pipeline.Adds.{add_last-Holds, Frame}
use nets.Pipeline.Events.{fire_next}

unfoldable pub add_all : ℕ → Pipeline → List ℕ → Result Pipeline
add_all fuel p [] = ok p
add_all fuel p (x ∷ xs) = add_last fuel p (some x) >>= (λ p'. add_all fuel p' xs)

-- The pipeline of a new channel.
abbrev pub new_pipeline : Heap → Pipeline
new_pipeline h = record { heap = h; head = none }

abbrev pub Fresh : Pipeline → List ℕ → List ℕ → Type 0
Fresh p before = All (λ z. NoneIs z before × ((p.heap z).next ≡ none))

NoneIs-append : (z x : ℕ) (xs : List ℕ) → NoneIs z xs → x ≢ z → NoneIs z (xs ++ (x ∷ []))
NoneIs-append z x [] d e = (e, tt)
NoneIs-append z x (y ∷ ys) d e = (d.0, NoneIs-append z x ys d.1 e)

Fresh-after :
    (p p' : Pipeline) (before : List ℕ) (x : ℕ) (xs : List ℕ)
    → Frame p p' before
    → NoneIs x xs
    → Fresh p before xs
    → Fresh p' (before ++ (x ∷ [])) xs
Fresh-after p p' before x [] frame d fresh = tt
Fresh-after p p' before x (z ∷ zs) frame d fresh = (
  (
    NoneIs-append z x before fresh.0.0 (λ e. d.0 (sym e)),
    ap (λ c. c.next) (frame z fresh.0.0) ∙ fresh.0.1,
  ),
  Fresh-after p p' before x zs frame d.1 fresh.1,
)

pub add_all-Holds :
    (fuel : ℕ) (p : Pipeline) (before xs : List ℕ)
    → length before + length xs ≤ fuel
    → Holds p before
    → Distinct xs
    → Fresh p before xs
    → (p' : Pipeline) × (add_all fuel p xs ≡ ok p') × Holds p' (before ++ xs)
unfolding add_all
add_all-Holds fuel p before [] enough v d fresh =
    (p, refl, subst (Holds p) (sym (append-nil before)) v)
add_all-Holds fuel p before (x ∷ xs) enough v d fresh =
    let (p', e, v', frame) = add_last-Holds fuel p x before (omega arith) v fresh.0.0 fresh.0.1 in
    let (p'', e', v'') =
      add_all-Holds fuel p' (before ++ (x ∷ [])) xs (omega (arith, length-append before (x ∷ [])))
        v' d.1 (Fresh-after p p' before x xs frame d.0 fresh.1) in
    (p'', rw e e', subst (Holds p'') (append_assoc before (x ∷ []) xs) v'')

pub new_pipeline-Fresh :
    (h : Heap) (xs : List ℕ) → All (λ z. (h z).next ≡ none) xs → Fresh (new_pipeline h) [] xs
new_pipeline-Fresh h [] f = tt
new_pipeline-Fresh h (x ∷ xs) f = ((tt, f.0), new_pipeline-Fresh h xs f.1)

abbrev pub first_of : List ℕ → Option ℕ
first_of [] = none
first_of (x ∷ xs) = some x

-- One handler needs no link.
pub add_all-single :
    (fuel : ℕ) (h : Heap) (xs : List ℕ)
    → length xs ≤ 1
    → add_all fuel (new_pipeline h) xs ≡ ok (record { heap = h; head = first_of xs })
unfolding add_all add_last add_last_to
add_all-single fuel h [] few = refl
add_all-single fuel h (x ∷ []) few = refl
add_all-single fuel h (x ∷ y ∷ ys) few = absurd (omega arith)

pub single-Holds :
    (h : Heap) (xs : List ℕ)
    → length xs ≤ 1
    → All (λ x. (h x).next ≡ none) xs
    → Holds (record { heap = h; head = first_of xs }) xs
single-Holds h [] few free = record { chain = refl; distinct = tt }
single-Holds h (x ∷ []) few free = record { chain = (refl, free.0); distinct = (tt, tt) }
single-Holds h (x ∷ y ∷ ys) few free = absurd (omega arith)

-- A set of handlers that the links do not leave.
module _ {κ} (h : Heap) (S : ℕ → Type κ)
    (on : (z : ℕ) → S z → (w : ℕ) × ((h z).next ≡ some w) × S w) where
  last_from-endless : (fuel z : ℕ) → S z → last_from fuel h z ≡ err diverges
  unfolding last_from
  last_from-endless zero z s = refl
  last_from-endless (suc fuel) z s =
      let (w, e, t) = on z s in rw (e, last_from) (last_from-endless fuel w t)

  pub find_last-endless : (fuel z : ℕ) → S z → find_last fuel h z ≡ err diverges
  unfolding find_last
  find_last-endless fuel z s =
      let (w, e, t) = on z s in rw (e, find_last) (last_from-endless fuel w t)

  module _ {ℓ} {M : Type ℓ} (channel_event : ℕ → M → M × Bool) (is_handler : ℕ → Bool)
      (passes : (z : ℕ) (m : M) → (channel_event z m).1 ≡ true)
      (kind : (z : ℕ) → is_handler z ≡ true) where
    pub fire_next-endless :
        (fuel z : ℕ) (m : M)
        → S z
        → fire_next channel_event is_handler fuel h (some z) m ≡ err diverges
    unfolding fire_next
    fire_next-endless zero z m s = refl
    fire_next-endless (suc fuel) z m s =
        let (w, e, t) = on z s in
        rw (e, fire_next, passes z m, kind z, fire_next-endless fuel w (channel_event z m).0 t) refl
