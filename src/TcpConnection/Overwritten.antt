-- ===== src/TcpConnection/Overwritten.antt =====
-- A deferred packet stays in the packetizer's buffer, where the next packet without payload overwrites its headers.
use gnirehtet.Base.{
  ℕ, ◌≤◌, ◌<◌, ◌^◌, ◌≡◌, ◌∙◌, refl, ap, arith, false, ◌++◌, some, length, length-take, le→leb, ok,
}
use gnirehtet.StreamBuffer
use gnirehtet.StreamBuffer.Contents.{contents, IsValid}
use gnirehtet.StreamBuffer.Append.{contents-read_from}
use gnirehtet.IpPacket.{IpPacket, packet_length, compute_checksums}
use gnirehtet.Packetizer.{Packetizer, build, inflate, packetize_empty_payload, max_packet_length}
use gnirehtet.Packetizer.Layout.{IsLaidOut}
use gnirehtet.Packetizer.Build.{IsBuilt, build-IsBuilt}
use gnirehtet.SharedBuffer
use gnirehtet.SharedBuffer.{SharedBuffer}
use gnirehtet.TcpConnection.State.{TcpConnection, advertised_window}
use gnirehtet.TcpConnection.Send.{
  send_empty_packet_to_client, create_empty_response_packet, update_headers,
}
use gnirehtet.TcpConnection.Poll.{flush_pending_packet}
use gnirehtet.TcpConnection.Receive.{update_headers-IsLaidOut}
use gnirehtet.TcpConnection.Faults.{drained_to}

-- What the packetizer holds states the length of the last packet that it built.
last_length :
    (n len : ℕ) (p : Packetizer)
    → packet_length (inflate len (build n p).1) ≡ packet_length (build n p).0
unfolding build inflate compute_checksums packet_length
last_length n len p = refl

module _ (flags len : ℕ) (c : TcpConnection) (lay : IsLaidOut c.network_to_client) where
  abbrev acked : TcpConnection
  acked = send_empty_packet_to_client flags c

  abbrev stamped : Packetizer
  stamped = update_headers c.tcb flags (advertised_window c) c.network_to_client

  empty-IsBuilt : IsBuilt 0 stamped (build 0 stamped).0 (build 0 stamped).1
  empty-IsBuilt =
      let u = update_headers-IsLaidOut c.tcb flags (advertised_window c) c.network_to_client lay in
      build-IsBuilt 0 stamped u.0 (omega (arith, u.0.fits))

  acked_packetizer : acked.network_to_client ≡ (build 0 stamped).1
  unfolding send_empty_packet_to_client create_empty_response_packet packetize_empty_payload
  acked_packetizer = refl

  stated : packet_length (inflate len acked.network_to_client) ≡ c.network_to_client.payload_index
  stated =
      ap (λ p. packet_length (inflate len p)) acked_packetizer
      ∙ last_length 0 len stamped
      ∙ empty-IsBuilt.states
      ∙ omega (
        arith,
        (update_headers-IsLaidOut c.tcb flags (advertised_window c) c.network_to_client lay).1,
      )

  whole : len ≤ max_packet_length → length (inflate len acked.network_to_client).raw ≡ len
  unfolding inflate
  whole few =
      let full : length acked.network_to_client.buffer ≡ max_packet_length =
        ap (λ p. length p.buffer) acked_packetizer ∙ empty-IsBuilt.laid_out.full in
      omega (arith, length-take len acked.network_to_client.buffer, full)

  deferred_still : acked.packet_for_client_length ≡ c.packet_for_client_length
  unfolding send_empty_packet_to_client
  deferred_still = refl

send_fits :
    (b : SharedBuffer) (packet : IpPacket)
    → b.borrowed ≡ false
    → packet_length packet ≤ StreamBuffer.remaining b.stream
    → SharedBuffer.send_to_client b packet
      ≡ (record b { stream = StreamBuffer.read_from b.stream packet.raw }, ok tt)
unfolding SharedBuffer.send_to_client
send_fits b packet idle room =
    let fits = le→leb (packet_length packet) (StreamBuffer.remaining b.stream) room in
    ground (arith, idle, fits)

flush_sends :
    (len : ℕ) (d : TcpConnection) (b : SharedBuffer)
    → d.packet_for_client_length ≡ some len
    → SharedBuffer.send_to_client d.buffer (inflate len d.network_to_client) ≡ (b, ok tt)
    → ((flush_pending_packet d).1 ≡ ok tt) × ((flush_pending_packet d).0.buffer ≡ b)
unfolding flush_pending_packet
flush_sends len d b deferred sent = ground (arith, deferred, sent)

-- Let a packet with a payload be deferred, in a packetizer that is laid out, and let the connection then send a
-- packet without payload, such as an ACK. Once the device has drained the shared buffer, so that it is idle, valid and has room, the
-- flush of the deferred packet is reported as done and puts all of its bytes into the stream to the device, but their header
-- states the length of the headers alone.
pub flush_overwritten :
    (flags len : ℕ) (c : TcpConnection) (drained : SharedBuffer)
    → IsLaidOut c.network_to_client
    → c.packet_for_client_length ≡ some len
    → c.network_to_client.payload_index < len
    → len < 2 ^ 16
    → drained.borrowed ≡ false
    → IsValid drained.stream
    → len ≤ StreamBuffer.remaining drained.stream
    → let later = drained_to drained (send_empty_packet_to_client flags c) in
      let packet = inflate len later.network_to_client in
      ((flush_pending_packet later).1 ≡ ok tt)
      × (contents (flush_pending_packet later).0.buffer.stream
          ≡ contents drained.stream ++ packet.raw)
      × (length packet.raw ≡ len)
      × (packet_length packet ≡ c.network_to_client.payload_index)
      × (packet_length packet < length packet.raw)
flush_overwritten flags len c drained lay deferred long few idle valid room =
    let is_len = stated flags len c lay in
    let is_whole = whole flags len c lay (omega arith) in
    let packet = inflate len (send_empty_packet_to_client flags c).network_to_client in
    let sent = send_fits drained packet idle (omega (arith, is_len, room)) in
    let (reported, buffer) =
      flush_sends len (drained_to drained (send_empty_packet_to_client flags c)) _
        (deferred_still flags len c lay ∙ deferred) sent in
    (
      reported,
      ap (λ (b : SharedBuffer). contents b.stream) buffer
          ∙ contents-read_from drained.stream packet.raw valid (omega (arith, is_whole, room)),
      is_whole,
      is_len,
      omega (arith, is_len, is_whole),
    )
