-- ===== src/Server/Descriptors.antt =====
-- Every descriptor that the server opens is closed, handed over, or still its own.
use nets.Prelude.{
  ℕ, ◌+◌, ◌≡◌, refl, ap, Bool, true, false, Option, none, some, List, [], ◌∷◌, ◌++◌, arith, total,
  total-append,
}
use nets.Options.{set_channel_option, Outcome-cases, is_set, is_backlog, is_invalid, is_unsupported}
use nets.Server.{
  ChannelOptionList, ServerSocketChannel, AcceptAnswer, accepts, fails, eagain, eintr, eproto,
  econnaborted, emfile, other_error, AcceptError, fd_list, construct, destroy, deal_with_emfile,
  handle_accept_error, handle_read_event, set_options, after_options, bind, set_channel_options,
  set_child_options,
}

-- Whatever the weights, what was opened weighs as much as what was closed, handed over, and is its own.
abbrev pub Owns : ServerSocketChannel → Type 0
Owns s =
    (w : ℕ → ℕ)
    → total w s.opened
      ≡ total w s.closed
        + (total w s.accepted + (total w (fd_list s.sock_fd) + total w (fd_list s.idle_fd)))

-- What the options leave as it was.
abbrev Same : ServerSocketChannel → ServerSocketChannel → Type 0
Same s t =
    (t.opened ≡ s.opened)
    × (t.closed ≡ s.closed)
    × (t.accepted ≡ s.accepted)
    × (t.sock_fd ≡ s.sock_fd)
    × (t.idle_fd ≡ s.idle_fd)

Same-Owns : (s t : ServerSocketChannel) → Same s t → Owns s → Owns t
Same-Owns s t (o, c, a, f, i) h w = rw (o, c, a, f, i) (h w)

deal_with_emfile-Owns :
    (s : ServerSocketChannel) (conn idle : Option ℕ) → Owns s → Owns (deal_with_emfile s conn idle)
unfolding deal_with_emfile
deal_with_emfile-Owns s conn idle h w = omega (
  arith,
  h w,
  total-append w s.opened (fd_list conn ++ fd_list idle),
  total-append w (fd_list conn) (fd_list idle),
  total-append w s.closed (fd_list s.idle_fd ++ fd_list conn),
  total-append w (fd_list s.idle_fd) (fd_list conn),
)

handle_accept_error-Owns :
    (s : ServerSocketChannel) (e : AcceptError) (conn idle : Option ℕ)
    → Owns s
    → Owns (handle_accept_error s e conn idle).0
unfolding handle_accept_error
handle_accept_error-Owns s eagain conn idle h = h
handle_accept_error-Owns s eintr conn idle h = h
handle_accept_error-Owns s eproto conn idle h = h
handle_accept_error-Owns s econnaborted conn idle h = h
handle_accept_error-Owns s emfile conn idle h = deal_with_emfile-Owns s conn idle h
handle_accept_error-Owns s other_error conn idle h = h

created-Owns :
    (s : ServerSocketChannel) (fd : ℕ)
    → s.sock_fd ≡ none
    → Owns s
    → Owns (record s { sock_fd = some fd; opened = s.opened ++ (fd ∷ []) })
created-Owns s fd free h w =
    omega (arith, h w, ap (λ f. total w (fd_list f)) free, total-append w s.opened (fd ∷ []))

after_options-Owns :
    (somaxconn : ℕ) (s : ServerSocketChannel) (fits binds listens registers : Bool)
    → Owns s
    → Owns (after_options somaxconn s fits binds listens registers).0
unfolding after_options
after_options-Owns somaxconn s false binds listens registers h = h
after_options-Owns somaxconn s true false listens registers h = h
after_options-Owns somaxconn s true true true registers h = h
after_options-Owns somaxconn s true true false registers h = h

module _ (inet_pton if_nametoindex : List ℕ → ℕ) where
  set_options-Same :
      (s : ServerSocketChannel) (options : ChannelOptionList)
      → Same s (set_options inet_pton if_nametoindex s options).0
  unfolding set_options
  set_options-Same s [] = (refl, refl, refl, refl, refl)
  set_options-Same s (x ∷ xs) =
      elim (Outcome-cases (set_channel_option inet_pton if_nametoindex true x.0 x.1)) [
        | is_set c e ↦
            rw (set_options, e)
              (set_options-Same (record s { options_set = s.options_set ++ (c ∷ []) }) xs)
        | is_backlog n e ↦ rw (set_options, e) (set_options-Same (record s { backlog_size = n }) xs)
        | is_invalid e ↦ rw (set_options, e) (refl, refl, refl, refl, refl)
        | is_unsupported e ↦ rw (set_options, e) (refl, refl, refl, refl, refl)
      ]

  handle_read_event-Owns :
      (s : ServerSocketChannel) (answer : AcceptAnswer) (conn idle : Option ℕ)
      → Owns s
      → Owns (handle_read_event inet_pton if_nametoindex s answer conn idle).0
  unfolding handle_read_event
  handle_read_event-Owns s (accepts fd) conn idle h = λ w.
      omega (arith, h w, total-append w s.opened (fd ∷ []), total-append w s.accepted (fd ∷ []))
  handle_read_event-Owns s (fails e) conn idle h = handle_accept_error-Owns s e conn idle h

  module _ (somaxconn : ℕ) where
    bind-Owns :
        (s : ServerSocketChannel) (fd : Option ℕ) (binds listens registers : Bool)
        → s.sock_fd ≡ none
        → Owns s
        → Owns (bind inet_pton if_nametoindex somaxconn s fd binds listens registers).0
    unfolding bind
    bind-Owns s none binds listens registers free h = h
    bind-Owns s (some fd) binds listens registers free h =
        let created : ServerSocketChannel = record s {
          sock_fd = some fd;
          opened = s.opened ++ (fd ∷ []);
        } in
        let same = set_options-Same created s.channel_options in
        let (optioned, fits) = set_options inet_pton if_nametoindex created s.channel_options in
        after_options-Owns somaxconn optioned fits binds listens registers
          (Same-Owns created optioned same (created-Owns s fd free h))

    -- A bind of a server that is not bound, a read event, or new options.
    pub data Step (s : ServerSocketChannel) : ServerSocketChannel → Type 0 where
      binds_to :
          (fd : Option ℕ) (binds listens registers : Bool)
          → s.sock_fd ≡ none
          → Step s (bind inet_pton if_nametoindex somaxconn s fd binds listens registers).0
      reads :
          (answer : AcceptAnswer) (conn idle : Option ℕ)
          → Step s (handle_read_event inet_pton if_nametoindex s answer conn idle).0
      takes_options : (options : ChannelOptionList) → Step s (set_channel_options s options)
      takes_child_options : (options : ChannelOptionList) → Step s (set_child_options s options)

    pub data Steps (s : ServerSocketChannel) : ServerSocketChannel → Type 0 where
      none_more : Steps s s
      then_step : {t u : ServerSocketChannel} → Steps s t → Step t u → Steps s u

    step-Owns : {s t : ServerSocketChannel} → Step s t → Owns s → Owns t
    unfolding set_channel_options set_child_options
    step-Owns {s} (binds_to fd binds listens registers free) h =
        bind-Owns s fd binds listens registers free h
    step-Owns {s} (reads answer conn idle) h = handle_read_event-Owns s answer conn idle h
    step-Owns (takes_options options) h = h
    step-Owns (takes_child_options options) h = h

    Steps-IsOwner : {s t : ServerSocketChannel} → Steps s t → Owns s → Owns t
    Steps-IsOwner none_more h = h
    Steps-IsOwner (then_step r m) h = step-Owns m (Steps-IsOwner r h)

    -- From the construction of a server, through every sequence of binds of a server that is not
    -- bound, read events with any answers of the system calls, and changes of options, each
    -- descriptor that the server has opened has been closed once or handed over once when it is
    -- destroyed, whatever weights they are given.
    pub Steps-destroy :
        {s t : ServerSocketChannel} (fd : ℕ)
        → construct somaxconn (some fd) ≡ some s
        → Steps s t
        → (w : ℕ → ℕ)
        → total w (destroy t).opened ≡ total w (destroy t).closed + total w (destroy t).accepted
    unfolding construct destroy
    Steps-destroy {s} {t} fd e r w =
        let owns : Owns s = λ v. ground arith in
        let h = Steps-IsOwner r owns in
        omega (
          arith,
          h w,
          total-append w t.closed (fd_list t.sock_fd ++ fd_list t.idle_fd),
          total-append w (fd_list t.sock_fd) (fd_list t.idle_fd),
        )
