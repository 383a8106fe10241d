-- ===== src/Datagram/Packet.antt =====
-- nets/net/core/DatagramPacket.h and DatagramPacket.cpp: a buffer and the address it goes to or comes from.
use nets.Prelude.{◌≡◌, ap, Bool, false, if◌then◌else◌}
use nets.Memory.{Result, ok, ◌>>=◌}
use nets.ByteBuffer.{ByteBuffer, null_buffer}
use nets.ByteBuffer.Content.{IsValid}
use nets.ByteBuffer.Copies as Buffer
use nets.Address.{InetSockAddress, zeroed}
use nets.Address as Address
use nets.Address.Copies.{IsMade, copies-IsMade}

pub record DatagramPacket : Type 0 where
  pub data_buffer : ByteBuffer
  pub recipient : InetSockAddress

unfoldable pub copy_construct : DatagramPacket → Result DatagramPacket
copy_construct other =
    Buffer.copy_construct other.data_buffer
    >>= (λ b. ok (record { data_buffer = b; recipient = Address.copy_construct other.recipient }))

-- With what is left of the other.
unfoldable pub move_construct : DatagramPacket → DatagramPacket × DatagramPacket
move_construct other =
    let (b, left) = Buffer.move_construct other.data_buffer in
    let (a, blank) = Address.move_construct other.recipient in
    (record { data_buffer = b; recipient = a }, record { data_buffer = left; recipient = blank })

-- `same` tells that both are one object.
unfoldable pub copy_assign : DatagramPacket → DatagramPacket → Bool → Result DatagramPacket
copy_assign this other same =
    let copied = Buffer.copy_construct other.data_buffer >>= (λ b. ok (record {
      data_buffer = b;
      recipient = Address.copy_assign this.recipient other.recipient false;
    })) in
    if same then ok this else copied

unfoldable pub move_assign :
    DatagramPacket → DatagramPacket → Bool → DatagramPacket × DatagramPacket
move_assign this other same =
    let (b, left) = Buffer.move_assign this.data_buffer other.data_buffer in
    let (a, blank) = Address.move_assign this.recipient other.recipient false in
    if same then (this, other) else (
      record { data_buffer = b; recipient = a },
      record { data_buffer = left; recipient = blank },
    )

abbrev pub moved_from : DatagramPacket
moved_from = record { data_buffer = null_buffer; recipient = zeroed }

-- A copy of a packet, with a valid buffer and an address that copies keep, is that packet, and so is a
-- moved one, which leaves nothing behind.
packets-keep :
    (this other : DatagramPacket)
    → IsValid other.data_buffer
    → IsMade other.recipient
    → (copy_construct other ≡ ok other)
      × (copy_assign this other false ≡ ok other)
      × (move_construct other ≡ (other, moved_from))
      × (move_assign this other false ≡ (other, moved_from))
unfolding copy_construct copy_assign move_construct move_assign Buffer.move_construct
    Buffer.move_assign
packets-keep this other v made =
    let (copied, moved, assigned, moved_over) = copies-IsMade this.recipient other.recipient made in
    let of_address : (a : InetSockAddress) → DatagramPacket =
      λ a. record { data_buffer = other.data_buffer; recipient = a } in
    let blank : InetSockAddress → DatagramPacket =
      λ a. record { data_buffer = null_buffer; recipient = a } in
    (
      rw (Buffer.copy_construct-eq other.data_buffer v) (ap (λ a. ok (of_address a)) copied),
      rw (Buffer.copy_construct-eq other.data_buffer v) (ap (λ a. ok (of_address a)) assigned),
      ap (λ x. (of_address x.0, blank x.1)) moved,
      ap (λ x. (of_address x.0, blank x.1)) moved_over,
    )
