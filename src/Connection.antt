-- ===== src/Connection.antt =====
-- relay-rust/src/relay/connection.rs: the identity of a flow, and what the router asks of a connection.
pub mod Identity
pub mod Flow
use gnirehtet.Base.{
  ℕ, ◌≡◌, Bool, true, false, List, ◌+◌, ◌*◌, ◌^◌, ◌==◌, if◌then◌else◌, IoResult, ok, would_block,
  Outcome, done,
}
use gnirehtet.Header.Ip
use gnirehtet.Header.Ip.{IpHeaderData, IpAddr, ipv4, ipv6}
use gnirehtet.Header.Ipv4.{Protocol}
use gnirehtet.Header.Transport
use gnirehtet.Header.Transport.{TransportHeaderData}
use gnirehtet.IpPacket.{IpPacket}
use gnirehtet.SharedBuffer.{SharedBuffer}

-- `ConnectionId`, without the text that is printed, which is made from the other fields.
pub record ConnectionId : Type 0 where
  pub client_label : List ℕ
  pub protocol : Protocol
  pub source_ip : IpAddr
  pub source_port : ℕ
  pub destination_ip : IpAddr
  pub destination_port : ℕ

unfoldable pub from_headers : IpHeaderData → TransportHeaderData → List ℕ → ConnectionId
from_headers ip transport label = record {
  client_label = label;
  protocol = Ip.protocol ip;
  source_ip = Ip.source ip;
  source_port = Transport.source_port transport;
  destination_ip = Ip.destination ip;
  destination_port = Transport.destination_port transport;
}

-- 10.0.2.2
abbrev pub localhost_forward_v4 : ℕ
localhost_forward_v4 = 0x0a000202

-- 127.0.0.1
abbrev pub localhost_v4 : ℕ
localhost_v4 = 127 * 2 ^ 24 + 1

unfoldable pub rewritten_ip : IpAddr → IpAddr
rewritten_ip (ipv4 a) = if a == localhost_forward_v4 then ipv4 localhost_v4 else ipv4 a
rewritten_ip (ipv6 a) = ipv6 a

unfoldable pub rewritten_destination : ConnectionId → IpAddr × ℕ
rewritten_destination id = (rewritten_ip id.destination_ip, id.destination_port)

-- What a call to the network takes besides its packet: the instant, and a random sequence number.
pub record Moment : Type 0 where
  pub now : ℕ
  pub random : ℕ

-- `trait Connection`, and `Router::create_connection`. The buffer to the device, which every
-- connection shares, is passed in and out; `A` is what the socket answers to one poll.
pub record Connection (A C : Type 0) : Type 0 where
  pub create : Moment → ConnectionId → SharedBuffer → IpPacket → Outcome (IoResult C)
  pub send_to_network : Moment → IpPacket → SharedBuffer → C → Outcome (SharedBuffer × C)
  pub close : C → C
  pub is_expired : ℕ → C → Bool
  pub is_closed : C → Bool
  pub poll : A → SharedBuffer → C → Outcome (SharedBuffer × C × IoResult (Unit {0}))
  -- A poll that reports no progress leaves the connection open.
  pub blocked_open :
      (a : A) (b b' : SharedBuffer) (c c' : C)
      → poll a b c ≡ done (b', c', would_block)
      → is_closed c' ≡ false
