-- ===== src/Server/Binds.antt =====
-- How a bind ends.
use nets.Prelude.{
  ℕ, ◌≤◌, ◌≡◌, refl, ap, sym, ◌||◌, ◌+◌, ltb, leb, inl, inr, Bool-cases, Bool, true, false, ◌&&◌,
  Option, none, some, List, [], ◌∷◌, ◌++◌, arith,
}
use nets.Prelude.Int.{ℤ, pos, negsuc}
use nets.Options.{
  SockOption, backlog, reuse_addr, reuse_port, keep_alive, keep_idle, keep_cnt, keep_intvl,
  tcp_no_delay, linger, broadcast, ip4_multicast_if, ip6_multicast_if, ip4_multicast_ttl,
  ip6_multicast_hops, ip4_multicast_loop, ip6_multicast_loop, send_buf, recv_buf, ValueType,
  unsupported, set_backlog, set_channel_option, Outcome-cases, is_set, is_backlog, is_invalid,
  is_unsupported,
}
use nets.Options.Kinds.{takes, throws_invalid, set_channel_option-typed}
use nets.Server.{
  ChannelOptionList, ServerSocketChannel, BindError, creation_failed, option_failed, bind_failed,
  listen_failed, register_failed, limited_backlog, after_options, set_options, bind,
}

-- Every value has the type that its option takes.
abbrev pub all_take : ChannelOptionList → Bool
all_take [] = true
all_take (x ∷ xs) = takes x.0 x.1 && all_take xs

-- The first of the calls that fails.
abbrev pub first_error : Option ℕ → Bool → Bool → Bool → Bool → Option BindError
first_error none fit binds listens registers = some creation_failed
first_error (some _) false binds listens registers = some option_failed
first_error (some _) true false listens registers = some bind_failed
first_error (some _) true true false registers = some listen_failed
first_error (some _) true true true false = some register_failed
first_error (some _) true true true true = none

-- It listens with a backlog of at least 1 and at most the largest, and has no options left to set.
abbrev pub IsListening : ℕ → ServerSocketChannel → Type 0
IsListening somaxconn s =
    ((n : ℕ) × (s.listening ≡ some (pos n)) × (1 ≤ n) × (n ≤ somaxconn)) × (s.channel_options ≡ [])

-- Where there is no exception.
abbrev pub Unless : Option BindError → Type 0 → Type 0
Unless none P = P
Unless (some _) P = Unit

limited_backlog-IsIn :
    (somaxconn : ℕ) (n : ℤ)
    → 1 ≤ somaxconn
    → (m : ℕ) × (limited_backlog somaxconn n ≡ pos m) × (1 ≤ m) × (m ≤ somaxconn)
unfolding limited_backlog
limited_backlog-IsIn somaxconn (pos n) h =
    elim (Bool-cases (ltb (somaxconn + 0) (n + 0) || leb (n + 0) 0)) [
      | inl out ↦ (somaxconn, rw out refl, h, omega arith)
      | inr within ↦ (n, rw within refl, ground (arith, within), ground (arith, within))
    ]
limited_backlog-IsIn somaxconn (negsuc n) h = (somaxconn, ground arith, h, omega arith)

module _ (inet_pton if_nametoindex : List ℕ → ℕ) where
  server-supports :
      (o : SockOption) (v : ValueType)
      → set_channel_option inet_pton if_nametoindex true o v ≡ unsupported
      → ⊥
  unfolding set_channel_option set_backlog
  server-supports backlog v e = ground arith
  server-supports reuse_addr v e = ground arith
  server-supports reuse_port v e = ground arith
  server-supports keep_alive v e = ground arith
  server-supports keep_idle v e = ground arith
  server-supports keep_cnt v e = ground arith
  server-supports keep_intvl v e = ground arith
  server-supports tcp_no_delay v e = ground arith
  server-supports linger v e = ground arith
  server-supports broadcast v e = ground arith
  server-supports ip4_multicast_if v e = ground arith
  server-supports ip6_multicast_if v e = ground arith
  server-supports ip4_multicast_ttl v e = ground arith
  server-supports ip6_multicast_hops v e = ground arith
  server-supports ip4_multicast_loop v e = ground arith
  server-supports ip6_multicast_loop v e = ground arith
  server-supports send_buf v e = ground arith
  server-supports recv_buf v e = ground arith

  set_options-fits :
      (s : ServerSocketChannel) (options : ChannelOptionList)
      → (set_options inet_pton if_nametoindex s options).1 ≡ all_take options
  unfolding set_options
  set_options-fits s [] = refl
  set_options-fits s (x ∷ xs) =
      let typed = set_channel_option-typed inet_pton if_nametoindex true x.0 x.1 in
      elim (Outcome-cases (set_channel_option inet_pton if_nametoindex true x.0 x.1)) [
        | is_set c e ↦
            let fits : takes x.0 x.1 ≡ true = ground (arith, typed, ap throws_invalid e) in
            rw (set_options, e, fits)
              (set_options-fits (record s { options_set = s.options_set ++ (c ∷ []) }) xs)
        | is_backlog n e ↦
            let fits : takes x.0 x.1 ≡ true = ground (arith, typed, ap throws_invalid e) in
            rw (set_options, e, fits) (set_options-fits (record s { backlog_size = n }) xs)
        | is_invalid e ↦
            let unfit : takes x.0 x.1 ≡ false = ground (arith, typed, ap throws_invalid e) in
            rw (set_options, e, unfit) refl
        | is_unsupported e ↦ absurd (server-supports x.0 x.1 e)
      ]

  module _ (somaxconn : ℕ) (h : 1 ≤ somaxconn) where
    after_options-Ends :
        (s : ServerSocketChannel) (fd : ℕ) (fits binds listens registers : Bool)
        → ((after_options somaxconn s fits binds listens registers).1
            ≡ first_error (some fd) fits binds listens registers)
          × Unless
              (after_options somaxconn s fits binds listens registers).1
              (IsListening somaxconn (after_options somaxconn s fits binds listens registers).0)
    unfolding after_options
    after_options-Ends s fd false binds listens registers = (refl, tt)
    after_options-Ends s fd true false listens registers = (refl, tt)
    after_options-Ends s fd true true false registers = (refl, tt)
    after_options-Ends s fd true true true false = (refl, tt)
    after_options-Ends s fd true true true true =
        let (n, e, l, u) = limited_backlog-IsIn somaxconn s.backlog_size h in
        (refl, ((n, ap some e, l, u), refl))

    -- A bind throws for the first thing that fails: the socket, an option whose value has another
    -- type, `bind`, `listen` or the registration; where it does not throw and the largest backlog is
    -- not 0, the server listens with a backlog from 1 to the largest, and its options are cleared.
    pub bind-Ends :
        (s : ServerSocketChannel) (fd : Option ℕ) (binds listens registers : Bool)
        → let r = bind inet_pton if_nametoindex somaxconn s fd binds listens registers in
          (r.1 ≡ first_error fd (all_take s.channel_options) binds listens registers)
          × Unless r.1 (IsListening somaxconn r.0)
    unfolding bind
    bind-Ends s none binds listens registers = (refl, tt)
    bind-Ends s (some fd) binds listens registers =
        let created : ServerSocketChannel = record s {
          sock_fd = some fd;
          opened = s.opened ++ (fd ∷ []);
        } in
        rw (sym (set_options-fits created s.channel_options)) (
          after_options-Ends (set_options inet_pton if_nametoindex created s.channel_options).0 fd
            (set_options inet_pton if_nametoindex created s.channel_options).1 binds listens
            registers)
