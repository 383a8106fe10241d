-- ===== src/Poller/Registers.antt =====
-- The poller's view of a channel and what epoll holds for it.
use nets.Prelude.{
  ℕ, ◌≡◌, refl, ◌⊎◌, inr, Bool, true, false, Option, none, some, arith, if◌then◌else◌, ◌&&◌,
}
use nets.Poller.{
  Channel, EpollPoller, EpollOpt, ctl_add, ctl_mod, ctl_del, interest_of, epoll_ctl, update,
  deregister_channel, register_new, modify_registered, register_channel, modify_channel,
  is_none_event, set_events, add_event,
}

-- What the manual says of the `epoll_ctl` that is made for a channel: MOD and DEL, which are made for
-- one that is registered, do not fail for a descriptor that epoll holds, and ADD, which is made for
-- one that is not, fails for it.
abbrev pub IsAnswer : EpollPoller → Channel → Bool → Type 0
IsAnswer p c succeeds = (p.interest c.fd ≡ none) ⊎ (succeeds ≡ c.is_registered)

abbrev pub is_held : Option ℕ → Bool
is_held none = false
is_held (some _) = true

-- The channel counts as registered exactly when epoll holds it.
abbrev pub Agrees : EpollPoller → Channel → Type 0
Agrees p c = is_held (p.interest c.fd) ≡ c.is_registered

-- Other descriptors are left alone.
abbrev pub Others : EpollPoller → EpollPoller → ℕ → Type 0
Others p p' fd = (i : ℕ) → (fd ≡ i) ⊎ (p'.interest i ≡ p.interest i)

-- What epoll is to hold after a call that succeeds.
abbrev pub wanted : Channel → Option ℕ
wanted c = if c.is_registered && is_none_event c then none else some (interest_of c.events)

pub update-same : (f : ℕ → Option ℕ) (i : ℕ) (o : Option ℕ) → update f i o i ≡ o
update-same f i o = ground arith

pub update-other : (f : ℕ → Option ℕ) (i j : ℕ) (o : Option ℕ) → (i ≡ j) ⊎ (update f i o j ≡ f j)
update-other f i j o = ground arith

pub epoll_ctl-Others :
    (p : EpollPoller) (opt : EpollOpt) (c : Channel) (b : Bool)
    → Others p (epoll_ctl p opt c b).0 c.fd
unfolding epoll_ctl
epoll_ctl-Others p opt c true i = update-other p.interest c.fd i _
epoll_ctl-Others p opt c false i = inr refl

pub modify_channel-Others :
    (p : EpollPoller) (c : Channel) (b : Bool) → Others p (modify_channel p c b).0 c.fd
unfolding modify_channel modify_registered register_new deregister_channel
modify_channel-Others p c b i = ground (
  arith,
  epoll_ctl-Others p ctl_add c b i,
  epoll_ctl-Others p ctl_mod c b i,
  epoll_ctl-Others p ctl_del (record c { is_registered = false }) b i,
)

-- `modifyChannel` of such a channel returns whether the call succeeded, and if it did, epoll holds
-- the interest of the channel, or nothing where a registered channel has no events left.
pub modify_channel-Agrees :
    (p : EpollPoller) (c : Channel) (succeeds : Bool)
    → Agrees p c
    → IsAnswer p c succeeds
    → let (p', c', b) = modify_channel p c succeeds in
      Agrees p' c' × (b ≡ succeeds) × ((b ≡ false) ⊎ (p'.interest c.fd ≡ wanted c))
unfolding modify_channel modify_registered register_new deregister_channel epoll_ctl
modify_channel-Agrees p c succeeds a k = ground (
  arith,
  update-same p.interest c.fd (some (interest_of c.events)),
  update-same p.interest c.fd none,
)

pub register_channel-modify_channel :
    (p : EpollPoller) (c : Channel) (b : Bool) → register_channel p c b ≡ modify_channel p c b
unfolding register_channel modify_channel
register_channel-modify_channel p c b = ground arith

pub deregister_channel-Agrees :
    (p : EpollPoller) (c : Channel) (succeeds : Bool)
    → Agrees p c
    → IsAnswer p c succeeds
    → let (p', c', b) = deregister_channel p c succeeds in Agrees p' c'
unfolding deregister_channel epoll_ctl
deregister_channel-Agrees p c succeeds a k = ground (arith, update-same p.interest c.fd none)

abbrev pub View : Type 0
View = EpollPoller × Channel

abbrev view : EpollPoller × Channel × Bool → View
view r = (r.0, r.1)

-- The calls that are made for one channel.
pub data Step (s : View) : View → Type 0 where
  sets : (events : ℕ) → Step s (s.0, set_events s.1 events)
  adds : (event : ℕ) → Step s (s.0, add_event s.1 event)
  registers : (b : Bool) → IsAnswer s.0 s.1 b → Step s (view (register_channel s.0 s.1 b))
  modifies : (b : Bool) → IsAnswer s.0 s.1 b → Step s (view (modify_channel s.0 s.1 b))
  deregisters : (b : Bool) → IsAnswer s.0 s.1 b → Step s (view (deregister_channel s.0 s.1 b))

pub data Steps (s : View) : View → Type 0 where
  none_more : Steps s s
  then_step : {t u : View} → Steps s t → Step t u → Steps s u

Step-Agrees : {s t : View} → Step s t → Agrees s.0 s.1 → Agrees t.0 t.1
unfolding set_events add_event
Step-Agrees (sets _) a = a
Step-Agrees (adds _) a = a
Step-Agrees {s} (registers b k) a =
    rw (register_channel-modify_channel s.0 s.1 b) (modify_channel-Agrees s.0 s.1 b a k).0
Step-Agrees {s} (modifies b k) a = (modify_channel-Agrees s.0 s.1 b a k).0
Step-Agrees {s} (deregisters b k) a = deregister_channel-Agrees s.0 s.1 b a k

-- A channel that counts as registered exactly when epoll holds its descriptor stays so through every
-- sequence of changes of its events, registrations, modifications and deregistrations, whether the
-- calls of `epoll_ctl` succeed or fail as its manual says.
Steps-Agrees : {s t : View} → Steps s t → Agrees s.0 s.1 → Agrees t.0 t.1
Steps-Agrees none_more a = a
Steps-Agrees (then_step r m) a = Step-Agrees m (Steps-Agrees r a)
