-- ===== src/Connection/Flow.antt =====
-- The two kinds of connections behind `dyn Connection`, and the choice between them in
-- `Router::create_connection`. `opens` says whether the socket for a destination can be opened.
use gnirehtet.Base.{
  ℕ, ◌≡◌, refl, OnDone, OnDone_at, OnDone-then, Bool, true, false, none, some, IoResult, ok,
  would_block, failed, Outcome, done, ◌>>=◌,
}
use gnirehtet.Header.Ip.{IpAddr, IpHeader}
use gnirehtet.Header.Ipv4.{Protocol, tcp, udp}
use gnirehtet.Header.Transport.{TransportHeader}
use gnirehtet.IpPacket
use gnirehtet.IpPacket.{IpPacket}
use gnirehtet.SharedBuffer.{SharedBuffer}
use gnirehtet.TcpConnection.State
use gnirehtet.TcpConnection.State.{TcpConnection}
use gnirehtet.TcpConnection.Create
use gnirehtet.TcpConnection.Segment
use gnirehtet.TcpConnection.Poll
use gnirehtet.TcpConnection.Poll.{Answers}
use gnirehtet.TcpConnection.Blocked.{poll_self_open}
use gnirehtet.UdpConnection
use gnirehtet.UdpConnection.{UdpConnection, UdpAnswers}
use gnirehtet.UdpConnection.Idle.{blocked_open}
use gnirehtet.Connection.{ConnectionId, Moment, Connection, rewritten_destination}

pub data Flow : Type 0 where
  tcp_flow : TcpConnection → Flow
  udp_flow : UdpConnection → Flow

-- What the clock and the flow's socket answer to one poll.
pub record FlowAnswers : Type 0 where
  pub now : ℕ
  pub tcp_socket : Answers
  pub udp_socket : UdpAnswers

unfoldable pub close : Flow → Flow
close (tcp_flow c) = tcp_flow (State.close c)
close (udp_flow c) = udp_flow (UdpConnection.close c)

unfoldable pub is_closed : Flow → Bool
is_closed (tcp_flow c) = c.closed
is_closed (udp_flow c) = c.closed

-- A TCP connection never expires.
unfoldable pub is_expired : ℕ → Flow → Bool
is_expired now (tcp_flow c) = false
is_expired now (udp_flow c) = UdpConnection.is_expired now c

unfoldable pub send_to_network :
    Moment → IpPacket → SharedBuffer → Flow → Outcome (SharedBuffer × Flow)
send_to_network m packet b (tcp_flow c) = do
  c' ← Segment.send_to_network m.random packet (record c { buffer = b })
  done (c'.buffer, tcp_flow c')
send_to_network m packet b (udp_flow c) = do
  c' ← UdpConnection.send_to_network packet (record c { buffer = b })
  done (c'.buffer, udp_flow c')

unfoldable pub udp_polled :
    UdpConnection × IoResult (Unit {0}) → Outcome (SharedBuffer × Flow × IoResult (Unit {0}))
udp_polled r = done (r.0.buffer, udp_flow r.0, r.1)

unfoldable pub poll :
    FlowAnswers → SharedBuffer → Flow → Outcome (SharedBuffer × Flow × IoResult (Unit {0}))
poll a b (tcp_flow c) =
    let r = Poll.poll_self a.tcp_socket (record c { buffer = b }) in
    done (r.0.buffer, tcp_flow r.0, r.1)
poll a b (udp_flow c) =
    UdpConnection.poll_self a.now a.udp_socket (record c { buffer = b }) >>= udp_polled

-- A connection for the headers of the packet that opens the flow. The socket is opened first.
unfoldable pub create_for :
    Protocol → Bool → ℕ → SharedBuffer → IpHeader → TransportHeader → Outcome (IoResult Flow)
create_for tcp true now b ip t = Create.create b ip t >>= λ c. done (ok (tcp_flow c))
create_for udp true now b ip t = done (ok (udp_flow (UdpConnection.create now b ip t)))
create_for _ _ now b ip t = done failed

unfoldable pub create_connection :
    (IpAddr × ℕ → Bool) → Moment → ConnectionId → SharedBuffer → IpPacket → Outcome (IoResult Flow)
create_connection opens m id b packet = do
  h ← IpPacket.headers packet
  elim h.1 [
    | none ↦ done failed
    | some t ↦ create_for id.protocol (opens (rewritten_destination id)) m.now b h.0 t
  ]

-- A blocked answer comes from an open connection.
abbrev OpenIfBlocked : SharedBuffer × Flow × IoResult (Unit {0}) → Type 0
OpenIfBlocked s = s.2 ≡ would_block → is_closed s.1 ≡ false

poll-OpenIfBlocked :
    (a : FlowAnswers) (b : SharedBuffer) (c : Flow) → OnDone OpenIfBlocked (poll a b c)
unfolding poll is_closed udp_polled
poll-OpenIfBlocked a b (tcp_flow c) = λ e. poll_self_open a.tcp_socket (record c { buffer = b }) e
poll-OpenIfBlocked a b (udp_flow c) =
    OnDone-then OpenIfBlocked (UdpConnection.poll_self a.now a.udp_socket (record c { buffer = b }))
      udp_polled (λ r e. blocked_open a.now a.udp_socket (record c { buffer = b }) r e)

pub poll_blocked_open :
    (a : FlowAnswers) (b b' : SharedBuffer) (c c' : Flow)
    → poll a b c ≡ done (b', c', would_block)
    → is_closed c' ≡ false
poll_blocked_open a b b' c c' e =
    OnDone_at OpenIfBlocked (poll a b c) (b', c', would_block) (poll-OpenIfBlocked a b c) e refl

-- What the router relies on.
unfoldable pub flow : (IpAddr × ℕ → Bool) → Connection FlowAnswers Flow
flow opens = record {
  create = create_connection opens;
  send_to_network = send_to_network;
  close = close;
  is_expired = is_expired;
  is_closed = is_closed;
  poll = poll;
  blocked_open = poll_blocked_open;
}
