-- ===== src/EventLoop/Channels/Changes.antt =====
-- One channel changes, with epoll and the map at its descriptor.
use nets.Prelude.{
  ℕ, ◌≡◌, ◌≢◌, refl, ap, sym, ◌∙◌, subst, ◌⊎◌, inl, inr, Bool, true, false, Option, none, some,
  arith, ◌==◌, ==_iff, if◌then◌else◌, Bool-cases,
}
use nets.Poller as Poller
use nets.Poller.{Channel, EpollPoller, update, ctl_del}
use nets.Poller.Registers.{Agrees, is_held, Others, update-same, update-other}
use nets.EventLoop.Channels.{Registry, with_channel, IsKept}

pub eq-cases : (a b : ℕ) → (a ≡ b) ⊎ (a ≢ b)
eq-cases a b = elim (Bool-cases (a == b)) [
  | inl e ↦ inl ((==_iff a b).0 e)
  | inr e ↦ inr (λ same. ground (arith, e, same))
]

pub with_channel_self : (h : ℕ → Channel) (q : ℕ) (c : Channel) → with_channel h q c q ≡ c
with_channel_self h q c = ground arith

pub with_channel_other :
    (h : ℕ → Channel) (q p : ℕ) (c : Channel) → q ≢ p → with_channel h q c p ≡ h p
with_channel_other h q p c d = elim (Bool-cases (q == p)) [
  | inl e ↦ absurd (d ((==_iff q p).0 e))
  | inr e ↦ rw e refl
]

-- One channel has changed, but for its descriptor, and at most for that descriptor epoll and the map.
pub record Changed (r : Registry) (q : ℕ) (c' : Channel) (p' : EpollPoller)
    (channels' : ℕ → Option ℕ) : Type 0 where
  pub before : (r.channels (r.heap q).fd ≡ some q) ⊎ (r.channels (r.heap q).fd ≡ none)
  pub same_fd : c'.fd ≡ (r.heap q).fd
  pub other_interest : (i : ℕ) → (r.heap q).fd ≢ i → p'.interest i ≡ r.poller.interest i
  pub other_channels : (i : ℕ) → (r.heap q).fd ≢ i → channels' i ≡ r.channels i
  pub fits :
      ((channels' (r.heap q).fd ≡ some q) × Agrees p' c')
      ⊎ ((channels' (r.heap q).fd ≡ none)
          × (p'.interest (r.heap q).fd ≡ none)
          × (c'.is_registered ≡ false))

module _ (r : Registry) (q : ℕ) (c' : Channel) (p' : EpollPoller) (channels' : ℕ → Option ℕ) where
  abbrev pub after : Registry
  after = record { poller = p'; heap = with_channel r.heap q c'; channels = channels' }

  module _ (k : IsKept r) (d : Changed r q c' p' channels') where
    pub changed-kept :
        (i q' : ℕ)
        → channels' i ≡ some q'
        → ((with_channel r.heap q c' q').fd ≡ i) × Agrees p' (with_channel r.heap q c' q')
    changed-kept i q' e = elim (eq-cases (r.heap q).fd i) [
      | inl f ↦ elim d.fits [
        | inl (at, agrees) ↦
            let own : q ≡ q' = cc (at, e, f) in
            rw (← own, with_channel_self r.heap q c') (d.same_fd ∙ f, agrees)
        | inr (gone, _, _) ↦ absurd (cc (gone, e, f))
      ]
      | inr ne ↦
          let old = k.kept i q' (sym (d.other_channels i ne) ∙ e) in
          let other : q ≢ q' = λ own. ne (ap (λ x. (r.heap x).fd) own ∙ old.0) in
          let held = d.other_interest (r.heap q').fd (λ f. ne (f ∙ old.0)) in
          rw (with_channel_other r.heap q q' c' other) (old.0, ap is_held held ∙ old.1)
    ]

    pub changed-absent : (i : ℕ) → channels' i ≡ none → p'.interest i ≡ none
    changed-absent i e = elim (eq-cases (r.heap q).fd i) [
      | inl f ↦ elim d.fits [
        | inl (at, _) ↦ absurd (cc (at, e, f))
        | inr (_, free, _) ↦ subst (λ j. p'.interest j ≡ none) f free
      ]
      | inr ne ↦ d.other_interest i ne ∙ k.absent i (sym (d.other_channels i ne) ∙ e)
    ]

    pub changed-registered :
        (q' : ℕ)
        → (with_channel r.heap q c' q').is_registered ≡ true
        → channels' (with_channel r.heap q c' q').fd ≡ some q'
    changed-registered q' = elim (eq-cases q q') [
      | inl own ↦
          rw (← own, with_channel_self r.heap q c')
            (λ e. elim d.fits [
              | inl (at, _) ↦ ap channels' d.same_fd ∙ at
              | inr (_, _, off) ↦ absurd (cc (off, e))
            ])
      | inr other ↦ rw (with_channel_other r.heap q q' c' other) (λ e.
          let old = k.registered q' e in
          let ne : (r.heap q).fd ≢ (r.heap q').fd = λ f. elim d.before [
            | inl was ↦ other (cc (was, old, f))
            | inr was ↦ cc (was, old, f)
          ] in
          d.other_channels (r.heap q').fd ne ∙ old)
    ]

    pub changed-IsKept : IsKept after
    changed-IsKept = record {
      kept = changed-kept;
      absent = changed-absent;
      registered = changed-registered;
    }

pub update-ne : (f : ℕ → Option ℕ) (i j : ℕ) (o : Option ℕ) → i ≢ j → update f i o j ≡ f j
update-ne f i j o ne = elim (update-other f i j o) [ inl e ↦ absurd (ne e) | inr e ↦ e ]

pub Others-ne :
    (p p' : EpollPoller) (fd : ℕ) → Others p p' fd → (i : ℕ) → fd ≢ i → p'.interest i ≡ p.interest i
Others-ne p p' fd others i ne = elim (others i) [ inl e ↦ absurd (ne e) | inr e ↦ e ]

pub is_held-none : (o : Option ℕ) → is_held o ≡ false → o ≡ none
is_held-none none h = refl
is_held-none (some x) h = cc

pub modify_channel-fd :
    (p : EpollPoller) (c : Channel) (b : Bool) → (Poller.modify_channel p c b).1.fd ≡ c.fd
unfolding Poller.modify_channel Poller.modify_registered Poller.register_new
    Poller.deregister_channel
modify_channel-fd p c b = ground arith

-- The map after a registration.
abbrev pub entered : (ℕ → Option ℕ) → ℕ → ℕ → Bool → ℕ → Option ℕ
entered channels fd q done = if done then update channels fd (some q) else channels

pub entered-other :
    (channels : ℕ → Option ℕ) (fd q i : ℕ) (done : Bool)
    → fd ≢ i
    → entered channels fd q done i ≡ channels i
entered-other channels fd q i true ne = update-ne channels fd i (some q) ne
entered-other channels fd q i false ne = refl

pub register_new-fits :
    (p : EpollPoller) (c : Channel) (channels : ℕ → Option ℕ) (q : ℕ) (b : Bool)
    → channels c.fd ≡ none
    → p.interest c.fd ≡ none
    → c.is_registered ≡ false
    → let (p', c', done) = Poller.register_new p c b in
      ((entered channels c.fd q done c.fd ≡ some q) × Agrees p' c')
      ⊎ ((entered channels c.fd q done c.fd ≡ none)
          × (p'.interest c.fd ≡ none)
          × (c'.is_registered ≡ false))
unfolding Poller.register_new Poller.epoll_ctl
register_new-fits p c channels q true free off un =
    inl (update-same channels c.fd (some q), ap is_held (update-same p.interest c.fd _))
register_new-fits p c channels q false free off un = inr (free, off, un)

pub register_channel-unregistered :
    (p : EpollPoller) (c : Channel) (b : Bool)
    → c.is_registered ≡ false
    → Poller.register_channel p c b ≡ Poller.register_new p c b
unfolding Poller.register_channel
register_channel-unregistered p c b un = ground arith
