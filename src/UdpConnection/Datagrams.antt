-- ===== src/UdpConnection/Datagrams.antt =====
-- The queue of the datagrams that go to the network.
use gnirehtet.Base.{
  true, panic, ℕ, ◌+◌, ◌^◌, ◌<◌, ◌≡◌, refl, arith, false, List, [], ◌∷◌, ◌++◌, some, length, le→leb,
  u64, done, ◌⊎◌, inl, inr, Bool-cases,
}
use gnirehtet.IpPacket
use gnirehtet.IpPacket.{IpPacket, bytes_behind, holds_headers}
use gnirehtet.DatagramBuffer
use gnirehtet.DatagramBuffer.{DatagramBuffer, max_datagram_length, has_enough_space_for}
use gnirehtet.DatagramBuffer.Queue.{IsValid, Holds}
use gnirehtet.DatagramBuffer.Store.{read_from-Holds}
use gnirehtet.UdpConnection.{UdpConnection, send_to_network, send_payload}

-- What becomes of a packet that holds its headers: its payload stands behind the others, or there was too little
-- space, and the queue is as it was. Only the count of the bytes changes besides.
abbrev pub Queued : IpPacket → List ℕ → UdpConnection → List (List ℕ) → Type 0
Queued packet bytes c ds =
    (q : DatagramBuffer) × (send_to_network packet c
      ≡ done (record c { bytes_sent = u64 (c.bytes_sent + length bytes); client_to_network = q }))
    × IsValid q
    × (Holds q (ds ++ (bytes ∷ []))
        ⊎ ((q ≡ c.client_to_network)
            × (has_enough_space_for (length bytes) c.client_to_network ≡ false)))

-- Let the queue be valid and hold `ds`, and let fewer than 2 ^ 16 bytes stand behind the headers of a packet, so
-- that its datagram does not end the circular part while the tail is at its start. If the packet holds its
-- headers, exactly these bytes go behind `ds`, or there is too little space and the queue stays as it is; the
-- bytes are counted, the other fields stay, and the call does not panic. If the packet is shorter than its
-- headers, the call panics.
pub send_to_network-Holds :
    (packet : IpPacket) (bytes : List ℕ) (c : UdpConnection) (ds : List (List ℕ))
    → bytes_behind packet ≡ some bytes
    → length bytes < 2 ^ 16
    → IsValid c.client_to_network
    → Holds c.client_to_network ds
    → (c.client_to_network.tail ≡ 0
        → c.client_to_network.head + 2 + length bytes < c.client_to_network.circular_buffer_length)
    → ((holds_headers packet ≡ true) × Queued packet bytes c ds)
      ⊎ ((holds_headers packet ≡ false) × (send_to_network packet c ≡ panic))
unfolding send_to_network send_payload IpPacket.payload DatagramBuffer.read_from
send_to_network-Holds packet bytes c ds behind few v h clear =
    elim (Bool-cases (holds_headers packet)) [
      | inr short ↦ inr (short, rw (send_to_network, short) refl)
      | inl fits ↦ elim (Bool-cases (has_enough_space_for (length bytes) c.client_to_network)) [
        | inl space ↦
            let (q, e, v', h') = read_from-Holds c.client_to_network bytes v few ds h space clear in
            inl (fits, (q, rw (send_to_network, fits, behind, e) refl, v', inl h'))
        | inr full ↦
            let limit = le→leb (length bytes) max_datagram_length (omega arith) in
            inl (
              fits,
              (
                c.client_to_network,
                rw (send_to_network, fits, behind, limit, full) refl,
                v,
                inr (refl, full),
              ),
            )
      ]
    ]
