-- ===== src/EventLoop/Channels/Kept.antt =====
-- What epoll holds, the map keeps alive.
use nets.Prelude.{
  ℕ, ◌≡◌, ◌≢◌, refl, ap, sym, ◌∙◌, inl, inr, Bool, true, false, none, some, Bool-cases,
  Option-cases,
}
use nets.Poller as Poller
use nets.Poller.{Channel, EpollPoller, update, ctl_del}
use nets.Poller.Registers.{
  IsAnswer, is_held, update-same, epoll_ctl-Others, modify_channel-Others, modify_channel-Agrees,
  deregister_channel-Agrees, register_channel-modify_channel,
}
use nets.EventLoop.Channels.{
  Registry, with_channel, IsKept, register_channel, modify_channel, deregister_channel, Step, Steps,
  none_more, then_step, registers, modifies, deregisters, sets_events, opens,
}
use nets.EventLoop.Channels.Changes.{
  eq-cases, with_channel_self, with_channel_other, changed-IsKept, update-ne, Others-ne,
  is_held-none, modify_channel-fd, entered, entered-other, register_new-fits,
  register_channel-unregistered,
}

module _ (r : Registry) (q : ℕ) (b : Bool) (k : IsKept r) where
  modify_channel-IsKept :
      r.channels (r.heap q).fd ≡ some q
      → IsAnswer r.poller (r.heap q) b
      → IsKept (modify_channel r q b).0
  unfolding modify_channel
  modify_channel-IsKept at answer =
      let c = r.heap q in
      let done = Poller.modify_channel r.poller c b in
      changed-IsKept r q done.1 done.0 r.channels k (record {
        before = inl at;
        same_fd = modify_channel-fd r.poller c b;
        other_interest = Others-ne r.poller done.0 c.fd (modify_channel-Others r.poller c b);
        other_channels = λ i ne. refl;
        fits = inl (at, (modify_channel-Agrees r.poller c b (k.kept c.fd q at).1 answer).0);
      })

  deregister_channel-IsKept :
      r.channels (r.heap q).fd ≡ some q
      → IsAnswer r.poller (r.heap q) b
      → IsKept (deregister_channel r q b)
  unfolding deregister_channel Poller.deregister_channel
  deregister_channel-IsKept at answer =
      let c = r.heap q in
      let done = Poller.deregister_channel r.poller c b in
      let agrees = deregister_channel-Agrees r.poller c b (k.kept c.fd q at).1 answer in
      changed-IsKept r q done.1 done.0 (update r.channels c.fd none) k (record {
        before = inl at;
        same_fd = refl;
        other_interest =
            Others-ne r.poller done.0 c.fd
              (epoll_ctl-Others r.poller ctl_del (record c { is_registered = false }) b);
        other_channels = λ i ne. update-ne r.channels c.fd i none ne;
        fits = inr (update-same r.channels c.fd none, is_held-none _ agrees, refl);
      })

  -- A channel that is not in the map is not registered.
  absent-unregistered : r.channels (r.heap q).fd ≡ none → (r.heap q).is_registered ≡ false
  absent-unregistered free = elim (Bool-cases (r.heap q).is_registered) [
    | inl on ↦ absurd (cc (k.registered q on, free))
    | inr off ↦ off
  ]

  register_channel-IsKept : r.channels (r.heap q).fd ≡ none → IsKept (register_channel r q b).0
  unfolding register_channel
  register_channel-IsKept free =
      let c = r.heap q in
      let done = Poller.register_channel r.poller c b in
      changed-IsKept r q done.1 done.0 (entered r.channels c.fd q done.2) k (record {
        before = inr free;
        same_fd =
            rw (register_channel-modify_channel r.poller c b) (modify_channel-fd r.poller c b);
        other_interest = Others-ne r.poller done.0 c.fd (
            rw (register_channel-modify_channel r.poller c b) (modify_channel-Others r.poller c b));
        other_channels = λ i ne. entered-other r.channels c.fd q i done.2 ne;
        fits = rw (register_channel-unregistered r.poller c b (absent-unregistered free)) (
            register_new-fits r.poller c r.channels q b free (k.absent c.fd free)
              (absent-unregistered free));
      })

with_channel-keeps :
    (h : ℕ → Channel) (q : ℕ) (c : Channel)
    → c.fd ≡ (h q).fd
    → c.is_registered ≡ (h q).is_registered
    → (p : ℕ)
    → ((with_channel h q c p).fd ≡ (h p).fd)
      × ((with_channel h q c p).is_registered ≡ (h p).is_registered)
with_channel-keeps h q c f g p = elim (eq-cases q p) [
  | inl own ↦ rw (← own, with_channel_self h q c) (f, g)
  | inr other ↦ rw (with_channel_other h q p c other) (refl, refl)
]

sets_events-IsKept :
    (r : Registry) (q events : ℕ)
    → IsKept r
    → IsKept (record r { heap = with_channel r.heap q (Poller.set_events (r.heap q) events) })
unfolding Poller.set_events
sets_events-IsKept r q events k =
    let keeps = with_channel-keeps r.heap q (Poller.set_events (r.heap q) events) refl refl in
    record {
      kept = λ i q' e.
          let old = k.kept i q' e in
          let (f, g) = keeps q' in
          (f ∙ old.0, ap (λ j. is_held (r.poller.interest j)) f ∙ old.1 ∙ sym g);
      absent = k.absent;
      registered = λ q' e. let (f, g) = keeps q' in ap r.channels f ∙ k.registered q' (sym g ∙ e);
    }

opens-IsKept :
    (r : Registry) (q : ℕ) (c' : Channel)
    → r.channels (r.heap q).fd ≢ some q
    → c'.is_registered ≡ false
    → IsKept r
    → IsKept (record r { heap = with_channel r.heap q c' })
opens-IsKept r q c' out off k = record {
  kept = λ i q' e.
      let old = k.kept i q' e in
      let other : q ≢ q' = λ own. out (cc (own, e, old.0)) in
      rw (with_channel_other r.heap q q' c' other) old;
  absent = k.absent;
  registered = λ q'. elim (eq-cases q q') [
    | inl own ↦ rw (← own, with_channel_self r.heap q c') (λ e. absurd (cc (off, e)))
    | inr other ↦ rw (with_channel_other r.heap q q' c' other) (k.registered q')
  ];
}

step-IsKept : {r s : Registry} → Step r s → IsKept r → IsKept s
step-IsKept {r} (registers q b free answer) k = register_channel-IsKept r q b k free
step-IsKept {r} (modifies q b at answer) k = modify_channel-IsKept r q b k at answer
step-IsKept {r} (deregisters q b at answer) k = deregister_channel-IsKept r q b k at answer
step-IsKept {r} (sets_events q events) k = sets_events-IsKept r q events k
step-IsKept {r} (opens q fd events out) k = opens-IsKept r q _ out refl k

Steps-IsKept : {r s : Registry} → Steps r s → IsKept r → IsKept s
Steps-IsKept none_more k = k
Steps-IsKept (then_step t m) k = step-IsKept m (Steps-IsKept t k)

-- A loop with no channels, and what the channels of the program are.
abbrev pub empty : (ℕ → Channel) → Registry
empty heap = record {
  poller = record { interest = λ i. none; events_size = 12 };
  heap = heap;
  channels = λ i. none;
}

-- From a loop without channels and channels that are not registered, through every sequence of
-- registrations, modifications and deregistrations as the source asserts them, with answers as in
-- the manual of epoll, of changes of events and of channels that are opened, each descriptor that
-- epoll holds has a channel that the map of the loop keeps, which is registered and has that
-- descriptor.
pub Steps-keep :
    (heap : ℕ → Channel) {r : Registry} (i : ℕ)
    → ((q : ℕ) → (heap q).is_registered ≡ false)
    → Steps (empty heap) r
    → is_held (r.poller.interest i) ≡ true
    → (q : ℕ) × (r.channels i ≡ some q) × ((r.heap q).fd ≡ i) × ((r.heap q).is_registered ≡ true)
Steps-keep heap {r} i fresh steps held =
    let k = Steps-IsKept steps (record {
      kept = λ i q e. absurd (cc e);
      absent = λ i e. refl;
      registered = λ q e. absurd (cc (fresh q, e));
    }) in
    elim (Option-cases (r.channels i)) [
      | inl none_there ↦ absurd (cc (held, ap is_held (k.absent i none_there)))
      | inr (q, at) ↦
          let old = k.kept i q at in
          (q, at, old.0, sym old.1 ∙ ap (λ j. is_held (r.poller.interest j)) old.0 ∙ held)
    ]
