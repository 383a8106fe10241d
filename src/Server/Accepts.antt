-- ===== src/Server/Accepts.antt =====
-- Connections that wait, while nothing else opens or closes descriptors. epoll reports the socket as
-- long as a connection waits.
use nets.Prelude.{
  ℕ, zero, suc, ◌+◌, ◌-◌, ◌≡◌, refl, ap, sym, ◌∙◌, subst, ◌⊎◌, inl, inr, true, false, not, Option,
  none, some, List, [], ◌∷◌, arith, length, length-append, leb, if◌then◌else◌,
}
use nets.Server.{
  ServerSocketChannel, accepts, fails, emfile, fd_list, deal_with_emfile, handle_accept_error,
  handle_read_event, child_options_fit,
}

-- The server, the number of the connections that wait, and that of the descriptors that the process
-- may still open.
pub record System : Type 0 where
  pub server : ServerSocketChannel
  pub pending : ℕ
  pub room : ℕ

-- A call that opens a descriptor gives one where there is room, as the manuals of `accept` and `open`
-- say, with a connection to accept.
abbrev pub Opens : ℕ → Option ℕ → Type 0
Opens zero fd = fd ≡ none
Opens (suc _) fd = (n : ℕ) × (fd ≡ some n)

abbrev pub HasIdle : ServerSocketChannel → Type 0
HasIdle s = (fd : ℕ) × (s.idle_fd ≡ some fd)

abbrev pub smaller : ℕ → ℕ → ℕ
smaller a b = if leb a b then a else b

smaller-suc : (n b r : ℕ) → b ≡ smaller n b + suc r → smaller (suc n) b ≡ suc (smaller n b)
smaller-suc n b r h = ground arith

smaller-full : (n b : ℕ) → smaller n b ≡ b → smaller (suc n) b ≡ b
smaller-full n b h = ground arith

ℕ-cases : (n : ℕ) → (n ≡ 0) ⊎ ((m : ℕ) × (n ≡ suc m))
ℕ-cases zero = inl refl
ℕ-cases (suc m) = inr (m, refl)

module _ (inet_pton if_nametoindex : List ℕ → ℕ) where
  -- One report of the socket, handled without an exception. Without room, `accept` fails with EMFILE;
  -- the idle descriptor is closed, `accept` called again, what it gives closed, and /dev/null opened.
  pub data Event (s : System) : System → Type 0 where
    is_accepted :
        {server : ServerSocketChannel} {pending room : ℕ} (fd : ℕ)
        → s.pending ≡ suc pending
        → s.room ≡ suc room
        → handle_read_event inet_pton if_nametoindex s.server (accepts fd) none none
          ≡ (server, false)
        → Event s (record { server = server; pending = pending; room = room })
    is_full :
        {server : ServerSocketChannel} {pending : ℕ} (conn idle : Option ℕ)
        → s.pending ≡ suc pending
        → s.room ≡ 0
        → Opens (length (fd_list s.server.idle_fd)) conn
        → Opens (length (fd_list s.server.idle_fd)) idle
        → handle_read_event inet_pton if_nametoindex s.server (fails emfile) conn idle
          ≡ (server, false)
        → Event s (record {
          server = server;
          pending = s.pending - length (fd_list conn);
          room = length (fd_list s.server.idle_fd) - length (fd_list idle);
        })

  pub data Events (s : System) : ℕ → System → Type 0 where
    none_more : Events s 0 s
    then_event : {n : ℕ} {t u : System} → Events s n t → Event t u → Events s (suc n) u

  -- After `n` events: each has taken a connection, the first ones as long as there was room, and the
  -- idle descriptor is there.
  pub record Served (n : ℕ) (s t : System) : Type 0 where
    pub pending_left : t.pending + n ≡ s.pending
    pub handed : length t.server.accepted ≡ length s.server.accepted + smaller n s.room
    pub room_left : t.room + smaller n s.room ≡ s.room
    pub idle_left : HasIdle t.server
    pub child_options_left : t.server.child_options ≡ s.server.child_options

  event-Served : {n : ℕ} {s t u : System} → Served n s t → Event t u → Served (suc n) s u
  unfolding handle_read_event handle_accept_error deal_with_emfile
  event-Served {n} {s} {t} h (is_accepted {server} {pending} {room} fd p r e) =
      let grows = smaller-suc n s.room room (omega (arith, h.room_left, r)) in
      subst (λ v. Served (suc n) s (record { server = v; pending = pending; room = room }))
        (ap (λ x. x.0) e)
        (record {
          pending_left = omega (arith, h.pending_left, p);
          handed = omega (arith, h.handed, grows, length-append t.server.accepted (fd ∷ []));
          room_left = omega (arith, h.room_left, r, grows);
          idle_left = h.idle_left;
          child_options_left = h.child_options_left;
        })
  event-Served {n} {s} {t} h (is_full {server} conn idle p r c i e) =
      let (fd, had) = h.idle_left in
      let (k, one) = subst (λ o. Opens (length (fd_list o)) conn) had c in
      let again = subst (λ o. Opens (length (fd_list o)) idle) had i in
      let size_had : length (fd_list t.server.idle_fd) ≡ 1 = ap (λ o. length (fd_list o)) had in
      let size_conn : length (fd_list conn) ≡ 1 = ap (λ o. length (fd_list o)) one in
      let size_idle : length (fd_list idle) ≡ 1 = ap (λ o. length (fd_list o)) again.1 in
      let full = smaller-full n s.room (omega (arith, h.room_left, r)) in
      subst
        (λ v. Served (suc n) s (record {
          server = v;
          pending = t.pending - length (fd_list conn);
          room = length (fd_list t.server.idle_fd) - length (fd_list idle);
        }))
        (ap (λ x. x.0) e)
        (record {
          pending_left = omega (arith, h.pending_left, p, size_conn);
          handed = omega (arith, h.handed, full);
          room_left = omega (arith, h.room_left, r, full, size_had, size_idle);
          idle_left = again;
          child_options_left = h.child_options_left;
        })

  Events-Served : {s : System} {n : ℕ} {t : System} → HasIdle s.server → Events s n t → Served n s t
  Events-Served {s} idle none_more = record {
    pending_left = omega arith;
    handed = ground arith;
    room_left = ground arith;
    idle_left = idle;
    child_options_left = refl;
  }
  Events-Served idle (then_event r m) = event-Served (Events-Served idle r) m

  -- With an idle descriptor, and options that fit, a connection that waits can be handled.
  event_of :
      (s : System) (pending : ℕ)
      → s.pending ≡ suc pending
      → HasIdle s.server
      → child_options_fit inet_pton if_nametoindex s.server.child_options ≡ true
      → (t : System) × Event s t
  unfolding handle_read_event handle_accept_error
  event_of s pending p (fd, had) fits = elim (ℕ-cases s.room) [
    | inl r ↦
        let c : Opens (length (fd_list s.server.idle_fd)) (some fd) =
          subst (λ o. Opens (length (fd_list o)) (some fd)) (sym had) (fd, refl) in
        (_, is_full (some fd) (some fd) p r c c refl)
    | inr (room, r) ↦ (
      _,
      is_accepted 0 p r (
          ap
            (λ b. (
              (handle_read_event inet_pton if_nametoindex s.server (accepts 0) none none).0,
              not b,
            ))
            fits),
    )
  ]

  Events-exist :
      (s : System) (n left : ℕ)
      → s.pending ≡ left + n
      → HasIdle s.server
      → child_options_fit inet_pton if_nametoindex s.server.child_options ≡ true
      → (t : System) × Events s n t
  Events-exist s zero left p idle fits = (s, none_more)
  Events-exist s (suc n) left p idle fits =
      let (t, r) = Events-exist s n (suc left) (omega (arith, p)) idle fits in
      let h = Events-Served idle r in
      let (u, m) =
        event_of t left (omega (arith, p, h.pending_left)) h.idle_left
          (ap (child_options_fit inet_pton if_nametoindex) h.child_options_left ∙ fits) in
      (u, then_event r m)

  -- With an idle descriptor, and options of the connections that fit, that many read events can go
  -- on without an exception.
  pub Events-go :
      (s : System)
      → HasIdle s.server
      → child_options_fit inet_pton if_nametoindex s.server.child_options ≡ true
      → (t : System) × Events s s.pending t
  Events-go s idle fits = Events-exist s s.pending 0 (omega arith) idle fits
