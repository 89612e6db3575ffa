-- ===== src/SharedBuffer/Atomic.antt =====
-- A packet goes into the shared buffer whole or not at all.
use gnirehtet.Base.{
  ◌≤◌, ◌≡◌, ◌⊎◌, inl, inr, refl, false, Bool-cases, length, ◌++◌, leb, leb→le, ok, would_block,
}
use gnirehtet.StreamBuffer
use gnirehtet.StreamBuffer.Contents.{contents, IsValid}
use gnirehtet.StreamBuffer.Append.{contents-read_from, read_from-IsValid}
use gnirehtet.SharedBuffer.{SharedBuffer, send_to_client}
use gnirehtet.IpPacket.{IpPacket, packet_length}

-- For a valid buffer and a packet whose header states its true length: the packet is reported as sent exactly when the buffer
-- is not in use and has room, and then its bytes stand behind those that wait; else nothing changes.
send_to_client-whole :
    (b : SharedBuffer) (packet : IpPacket)
    → IsValid b.stream
    → length packet.raw ≡ packet_length packet
    → let r = send_to_client b packet in
      ((b.borrowed ≡ false)
        × (length packet.raw ≤ StreamBuffer.remaining b.stream)
        × (r.1 ≡ ok tt)
        × (contents r.0.stream ≡ contents b.stream ++ packet.raw)
        × IsValid r.0.stream
        × (r.0.borrowed ≡ false))
      ⊎ ((r.1 ≡ would_block) × (r.0 ≡ b))
unfolding send_to_client
send_to_client-whole b packet v true_length = elim (Bool-cases b.borrowed) [
  | inl used ↦ inr (rw used (refl, refl))
  | inr idle ↦ elim (Bool-cases (leb (packet_length packet) (StreamBuffer.remaining b.stream))) [
    | inl room ↦
        let fits : length packet.raw ≤ StreamBuffer.remaining b.stream =
          rw true_length (leb→le _ _ room) in
        inl (
          rw (idle, room)
            (
              refl,
              fits,
              refl,
              contents-read_from b.stream packet.raw v fits,
              read_from-IsValid b.stream packet.raw v fits,
              refl,
            ))
    | inr full ↦ inr (rw idle (rw full (refl, refl)))
  ]
]
