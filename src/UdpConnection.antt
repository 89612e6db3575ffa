-- ===== src/UdpConnection.antt =====
-- relay-rust/src/relay/udp_connection.rs: one UDP flow of the device. The socket's answers and the
-- clock, in nanoseconds, are arguments; the socket, the id and the client's weak reference are not part
-- of the record.
pub mod Idle
pub mod Datagrams
use gnirehtet.Base.{
  ℕ, ◌+◌, ◌-◌, ◌*◌, ◌/◌, ◌^◌, Bool, true, false, not, List, Option, none, some, length, ltb,
  if◌then◌else◌, u64, IoResult, ok, would_block, failed, Outcome, done, panic, ◌>>=◌,
}
use gnirehtet.Header.Ip.{IpHeader}
use gnirehtet.Header.Transport.{TransportHeader}
use gnirehtet.IpPacket
use gnirehtet.IpPacket.{IpPacket}
use gnirehtet.Packetizer
use gnirehtet.Packetizer.{Packetizer}
use gnirehtet.SharedBuffer
use gnirehtet.SharedBuffer.{SharedBuffer}
use gnirehtet.DatagramBuffer
use gnirehtet.DatagramBuffer.{DatagramBuffer}

abbrev pub idle_timeout_seconds : ℕ
idle_timeout_seconds = 300

abbrev pub second : ℕ
second = 10 ^ 9

pub record UdpConnection : Type 0 where
  pub buffer : SharedBuffer
  pub client_to_network : DatagramBuffer
  pub network_to_client : Packetizer
  pub closed : Bool
  pub idle_since : ℕ
  pub bytes_sent : ℕ
  pub bytes_received : ℕ

-- What the socket answers during one poll: to a send, and to a receive that is given the room.
pub record UdpAnswers : Type 0 where
  pub send : List ℕ → IoResult ℕ
  pub recv : ℕ → IoResult (List ℕ)

-- `UdpConnection::create`, once its socket is open.
unfoldable pub create : ℕ → SharedBuffer → IpHeader → TransportHeader → UdpConnection
create now buffer ip transport = record {
  buffer = buffer;
  client_to_network = DatagramBuffer.new (32 * Packetizer.max_packet_length);
  network_to_client = Packetizer.new ip transport;
  closed = false;
  idle_since = now;
  bytes_sent = 0;
  bytes_received = 0;
}

unfoldable pub close : UdpConnection → UdpConnection
close c = record c { closed = true }

unfoldable pub touch : ℕ → UdpConnection → UdpConnection
touch now c = record c { idle_since = now }

unfoldable pub is_expired : ℕ → UdpConnection → Bool
is_expired now c = ltb idle_timeout_seconds ((now - c.idle_since) / second)

-- `process_send`, with `write`.
unfoldable pub process_send :
    (List ℕ → IoResult ℕ) → UdpConnection → Outcome (UdpConnection × IoResult (Unit {0}))
process_send send c = do
  r ← DatagramBuffer.write_to send c.client_to_network
  done (record c { client_to_network = r.0 }, r.1)

-- The bytes that a packet of the packetizer, which holds its headers, adds to the count.
unfoldable pub payload_length : IpPacket → ℕ
payload_length packet = elim (IpPacket.bytes_behind packet) [ none ↦ 0 | some bytes ↦ length bytes ]

-- A packet that finds no room is dropped.
unfoldable pub received : IoResult IpPacket → UdpConnection → UdpConnection × IoResult (Unit {0})
received (ok packet) c = (
  record c {
    bytes_received = u64 (c.bytes_received + payload_length packet);
    buffer = (SharedBuffer.send_to_client c.buffer packet).0;
  },
  ok tt,
)
received would_block c = (c, would_block)
received failed c = (c, failed)

-- `process_receive`, with `read`.
unfoldable pub process_receive :
    (ℕ → IoResult (List ℕ)) → UdpConnection → UdpConnection × IoResult (Unit {0})
process_receive recv c =
    let (r, p) = Packetizer.packetize recv c.network_to_client in
    received r (record c { network_to_client = p })

abbrev pub progress_result : Bool → IoResult (Unit {0})
progress_result true = ok tt
progress_result false = would_block

-- The receiving half of the poll, after the sending half has made progress or not.
unfoldable pub receive_half :
    Bool → UdpConnection × IoResult (Unit {0}) → UdpConnection × IoResult (Unit {0})
receive_half progress (c, ok _) = (c, ok tt)
receive_half progress (c, would_block) = (c, progress_result progress)
receive_half progress (c, failed) = (close c, ok tt)

unfoldable pub after_send :
    (ℕ → IoResult (List ℕ))
    → UdpConnection × IoResult (Unit {0})
    → UdpConnection × IoResult (Unit {0})
after_send recv (c, ok _) = receive_half true (process_receive recv c)
after_send recv (c, would_block) = receive_half false (process_receive recv c)
after_send recv (c, failed) = (close c, ok tt)

-- `poll_self`. Neither half closes the connection and goes on, so that it stays open between them.
unfoldable pub poll_self :
    ℕ → UdpAnswers → UdpConnection → Outcome (UdpConnection × IoResult (Unit {0}))
poll_self now a c =
    let c' = touch now c in
    if c.closed
    then done (c, ok tt)
    else if DatagramBuffer.is_empty c.client_to_network
    then done (receive_half false (process_receive a.recv c'))
    else (process_send a.send c' >>= λ r. done (after_send a.recv r))

-- A datagram that finds no room is dropped.
unfoldable pub send_payload : UdpConnection → Option (List ℕ) → Outcome UdpConnection
send_payload c none = done c
send_payload c (some bytes) = do
  r ← DatagramBuffer.read_from bytes c.client_to_network
  done (record c { bytes_sent = u64 (c.bytes_sent + length bytes); client_to_network = r.0 })

-- `Connection::send_to_network`.
unfoldable pub send_to_network : IpPacket → UdpConnection → Outcome UdpConnection
unfolding send_payload
send_to_network packet c = IpPacket.payload packet >>= send_payload c
