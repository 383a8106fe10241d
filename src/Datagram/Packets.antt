-- ===== src/Datagram/Packets.antt =====
-- What a datagram channel receives, and how a bind ends.
use nets.Prelude.{
  ℕ, ◌≤◌, ◌≡◌, refl, sym, inl, inr, Bool-cases, Bool, true, false, ◌||◌, Option, none, some, List,
  [], ◌∷◌, ◌++◌, arith, length, length-replicate,
}
use nets.Memory.{Result, ok, err, ◌>>=◌}
use nets.ByteBuffer.{ByteBuffer, received, with_capacity}
use nets.ByteBuffer.Content.{IsValid, contents}
use nets.ByteBuffer.Copies.{Stored, write_bytes_from-Stored}
use nets.Options.{
  SetSockOpt, set_channel_option, Outcome-cases, is_set, is_backlog, is_invalid, is_unsupported,
}
use nets.Server.{ChannelOptionList, child_options_fit}
use nets.Server.Binds.{first_error}
use nets.Address.{InetSockAddress, is_in_valid}
use nets.Datagram.{
  DatagramChannel, recv_packet_size, after_read, handle_read_event, set_options, after_options,
  bind,
}

fresh-IsValid : IsValid (with_capacity recv_packet_size)
unfolding with_capacity
fresh-IsValid = record {
  ordered = omega arith;
  within = omega arith;
  stored = length-replicate {A = ℕ} recv_packet_size 0;
  addressable = omega arith;
}

-- The packet has what the datagram had.
abbrev pub Receives : DatagramChannel → List ℕ → InetSockAddress → DatagramChannel → Type 0
Receives d bytes src_addr d' =
    (b : ByteBuffer) × (d' ≡ record d { packets = d.packets ++ ((b, src_addr) ∷ []) })
    × IsValid b
    × (contents b ≡ bytes)

after_write-Receives :
    (d : DatagramChannel) (byte : ℕ) (bytes : List ℕ) (src_addr : InetSockAddress)
    (r : Result ByteBuffer)
    → Stored (with_capacity recv_packet_size) recv_packet_size (byte ∷ bytes) r
    → (d' : DatagramChannel) × (r >>= (λ b. ok (after_read d (received (byte ∷ bytes)) src_addr b))
        ≡ ok d')
      × Receives d (byte ∷ bytes) src_addr d'
unfolding with_capacity
after_write-Receives d byte bytes src_addr (ok b) (v, e) = (_, refl, (b, refl, v, e))
after_write-Receives d byte bytes src_addr (err e) (n, _, _, _, less, _) =
    absurd (omega (arith, less))

-- A datagram of 1 to 16384 bytes is read without an exception, and fired with its source as one
-- packet, whose buffer is valid and holds exactly these bytes.
pub handle_read_event-Receives :
    (d : DatagramChannel) (byte : ℕ) (bytes : List ℕ) (src_addr : InetSockAddress)
    → length (byte ∷ bytes) ≤ recv_packet_size
    → (d' : DatagramChannel) × (handle_read_event d (received (byte ∷ bytes)) src_addr ≡ ok d')
      × Receives d (byte ∷ bytes) src_addr d'
unfolding handle_read_event
handle_read_event-Receives d byte bytes src_addr short =
    after_write-Receives d byte bytes src_addr _ (
      write_bytes_from-Stored (with_capacity recv_packet_size) recv_packet_size fresh-IsValid
        (omega arith) (byte ∷ bytes) short)

module _ (inet_pton if_nametoindex : List ℕ → ℕ) where
  set_options-fit :
      (done : List SetSockOpt) (options : ChannelOptionList)
      → (set_options inet_pton if_nametoindex done options).1
        ≡ child_options_fit inet_pton if_nametoindex options
  unfolding set_options child_options_fit
  set_options-fit done [] = refl
  set_options-fit done (x ∷ xs) =
      elim (Outcome-cases (set_channel_option inet_pton if_nametoindex false x.0 x.1)) [
        | is_set c e ↦
            rw (set_options, child_options_fit, e) (set_options-fit (done ++ (c ∷ [])) xs)
        | is_backlog n e ↦ rw (set_options, child_options_fit, e) (set_options-fit done xs)
        | is_invalid e ↦ rw (set_options, child_options_fit, e) refl
        | is_unsupported e ↦ rw (set_options, child_options_fit, e) refl
      ]

  after_options-ends :
      (d : DatagramChannel) (fd : ℕ) (fits : Bool) (local : InetSockAddress)
      (binds registers : Bool)
      → (after_options inet_pton if_nametoindex d fits local binds registers).1
        ≡ first_error (some fd) fits (is_in_valid local || binds) true registers
  after_options-ends d fd false local binds registers = refl
  after_options-ends d fd true local binds true = elim (Bool-cases (is_in_valid local || binds)) [
    | inl e ↦ rw e refl
    | inr e ↦ rw e refl
  ]
  after_options-ends d fd true local binds false = elim (Bool-cases (is_in_valid local || binds)) [
    | inl e ↦ rw e refl
    | inr e ↦ rw e refl
  ]

  -- A bind throws for the first thing that fails; an address without a family is not bound.
  bind-ends :
      (d : DatagramChannel) (local : InetSockAddress) (fd : Option ℕ) (binds registers : Bool)
      → (bind inet_pton if_nametoindex d local fd binds registers).1
        ≡ first_error fd
            (child_options_fit inet_pton if_nametoindex d.channel_options)
            (is_in_valid local || binds)
            true
            registers
  unfolding bind
  bind-ends d local none binds registers = refl
  bind-ends d local (some fd) binds registers =
      rw (sym (set_options-fit d.options_set d.channel_options)) (
        after_options-ends _ fd
          (set_options inet_pton if_nametoindex d.options_set d.channel_options).1 local binds
          registers)
