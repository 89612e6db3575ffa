-- ===== src/Router.antt =====
-- relay-rust/src/relay/router.rs: the connections of one client. They are of any kind that offers
-- `Connection`. The buffer to the device is passed in and out; `registered` says whether the router's own
-- handle of it was set. `clock` gives the instant at which an id is put among the recently closed.
pub mod Keys
pub mod Flows
pub mod Closing
pub mod Expiry
pub mod Sweep
pub mod Reach
use gnirehtet.Base.{
  ℕ, ◌-◌, ◌*◌, ◌^◌, Bool, true, false, not, List, [], ◌∷◌, Option, none, some, ltb, ◌==◌,
  if◌then◌else◌, retain, get, contains_key, remove, insert, IoResult, ok, would_block, failed,
  Outcome, done, panic, ◌>>=◌,
}
use gnirehtet.Header.Ip
use gnirehtet.Header.Ipv4.{Protocol, tcp, udp, icmp, other}
use gnirehtet.Header.Transport
use gnirehtet.Header.Transport.{TransportHeaderData}
use gnirehtet.Icmp.{build_echo_reply, build_port_unreachable}
use gnirehtet.IpPacket.{IpPacket, is_icmp_echo_request}
use gnirehtet.SharedBuffer
use gnirehtet.SharedBuffer.{SharedBuffer}
use gnirehtet.Connection.{ConnectionId, from_headers, Moment, Connection}
use gnirehtet.Connection.Identity.{same_id}

-- Two seconds, in nanoseconds.
abbrev pub recently_closed_ttl : ℕ
recently_closed_ttl = 2 * 10 ^ 9

pub record Router (C : Type 0) : Type 0 where
  pub registered : Bool
  pub client_label : List ℕ
  pub connections : List (ConnectionId × C)
  pub recently_closed : List (ConnectionId × ℕ)

-- A UDP datagram to port 443.
unfoldable pub is_quic : IpPacket → Bool
is_quic packet = elim (Ip.protocol packet.ip_header_data) [
  | tcp ↦ false
  | icmp ↦ false
  | other ↦ false
  | udp ↦ elim packet.transport_header_data [
    | none ↦ false
    | some t ↦ Transport.destination_port t == 443
  ]
]

-- The reply to an echo request, if there is one and it finds room.
unfoldable pub echo : Bool → IpPacket → SharedBuffer → SharedBuffer
echo registered packet b = elim (build_echo_reply packet.raw) [
  | none ↦ b
  | some reply ↦ if registered then (SharedBuffer.send_raw_to_client b reply).0 else b
]

unfoldable pub reject_quic : IpPacket → SharedBuffer → SharedBuffer
reject_quic packet b = elim (build_port_unreachable packet) [
  | none ↦ b
  | some raw ↦ (SharedBuffer.send_raw_to_client b raw).0
]

module _ {C : Type 0} where
  unfoldable pub new : Router C
  new = record { registered = false; client_label = []; connections = []; recently_closed = [] }

  unfoldable pub set_buffer : Router C → Router C
  set_buffer r = record r { registered = true }

  unfoldable pub set_client_label : List ℕ → Router C → Router C
  set_client_label label r = record r { client_label = label }

  -- `recently_closed.retain(…)`; `duration_since` is 0 for a later instant.
  unfoldable pub purge : ℕ → Router C → Router C
  purge now r = record r {
    recently_closed = retain (λ e. ltb (now - e.1) recently_closed_ttl) r.recently_closed;
  }

  unfoldable pub store : ConnectionId → C → Router C → Router C
  store id c r = record r { connections = insert same_id id c r.connections }

  -- The connection of an id goes, and the id is recently closed.
  unfoldable pub evict : ℕ → ConnectionId → Router C → Router C
  evict now id r = record r {
    connections = remove same_id id r.connections;
    recently_closed = insert same_id id now r.recently_closed;
  }

  -- `Router::remove`.
  unfoldable pub remove_flow : ℕ → ConnectionId → Router C → Router C
  remove_flow now id r = if contains_key same_id id r.connections then evict now id r else r

  -- Every connection is closed and dropped, and the router forgets all.
  unfoldable pub clear : Router C → Router C
  clear r = record r { connections = []; recently_closed = [] }

  -- The loop over the ids that go.
  unfoldable pub evict_all : (ConnectionId → ℕ) → List ConnectionId → Router C → Router C
  evict_all clock [] r = r
  evict_all clock (id ∷ ids) r = evict_all clock ids (evict (clock id) id r)

module _ {A C : Type 0} (ops : Connection A C) where
  -- A packet of a flow that has a connection. `later` is the instant after the call.
  unfoldable pub forward :
      Moment
      → ℕ
      → ConnectionId
      → C
      → IpPacket
      → SharedBuffer
      → Router C
      → Outcome (SharedBuffer × Router C)
  forward m later id c packet b r = do
    s ← ops.send_to_network m packet b c
    done (s.0, if ops.is_closed s.1 then evict later id r else store id s.1 r)

  -- What becomes of the packet that opens a flow.
  unfoldable pub opened :
      Moment
      → ConnectionId
      → IpPacket
      → SharedBuffer
      → Router C
      → IoResult C
      → Outcome (SharedBuffer × Router C)
  opened m id packet b r (ok c) = do
    s ← ops.send_to_network m packet b c
    done (s.0, store id s.1 r)
  opened m id packet b r would_block = done (b, r)
  opened m id packet b r failed = done (b, r)

  -- A packet of a flow that has none. A flow that cannot be opened loses its packet.
  unfoldable pub open_flow :
      Moment → ConnectionId → IpPacket → SharedBuffer → Router C → Outcome (SharedBuffer × Router C)
  open_flow m id packet b r =
      if r.registered then (ops.create m id b packet >>= opened m id packet b r) else done (b, r)

  -- A packet whose flow is not recently closed, by its entry among the connections.
  unfoldable pub pass_on :
      Moment
      → ℕ
      → ConnectionId
      → IpPacket
      → SharedBuffer
      → Router C
      → Option C
      → Outcome (SharedBuffer × Router C)
  pass_on m later id packet b r (some c) = forward m later id c packet b r
  pass_on m later id packet b r none = open_flow m id packet b r

  unfoldable pub route :
      Moment
      → ℕ
      → ConnectionId
      → IpPacket
      → SharedBuffer
      → Router C
      → Outcome (SharedBuffer × Router C)
  route m later id packet b r =
      if contains_key same_id id r.recently_closed
      then done (b, r)
      else pass_on m later id packet b r (get same_id id r.connections)

  -- A packet that is neither an echo request nor QUIC, by its transport header.
  unfoldable pub dispatch :
      Moment
      → ℕ
      → IpPacket
      → SharedBuffer
      → Router C
      → Option TransportHeaderData
      → Outcome (SharedBuffer × Router C)
  dispatch m later packet b r none = done (b, r)
  dispatch m later packet b r (some t) =
      route m later (from_headers packet.ip_header_data t r.client_label) packet b (purge m.now r)

  unfoldable pub send_to_network :
      Moment → ℕ → IpPacket → SharedBuffer → Router C → Outcome (SharedBuffer × Router C)
  send_to_network m later packet b r =
      if is_icmp_echo_request packet
      then done (echo r.registered packet b, r)
      else if is_quic packet
      then done (reject_quic packet b, r)
      else dispatch m later packet b r packet.transport_header_data

  unfoldable pub expired_ids : ℕ → List (ConnectionId × C) → List ConnectionId
  expired_ids now [] = []
  expired_ids now (e ∷ m) =
      let rest = expired_ids now m in if ops.is_expired now e.1 then e.0 ∷ rest else rest

  -- One instant stands for the readings of the clock that decide which connections are expired. Each of
  -- them is closed and dropped.
  unfoldable pub clean_expired_connections : ℕ → (ConnectionId → ℕ) → Router C → Router C
  clean_expired_connections now clock r = evict_all clock (expired_ids now r.connections) r

  -- What one poll leaves, and whether the connection goes.
  unfoldable pub after_poll : C × IoResult (Unit {0}) → C × Bool
  after_poll (c, ok _) = (c, ops.is_closed c)
  after_poll (c, would_block) = (c, false)
  after_poll (c, failed) = (ops.close c, true)

  -- Every connection is polled, in the order of the entries; the ids that go are collected.
  unfoldable pub poll_all :
      (ConnectionId → A)
      → SharedBuffer
      → List (ConnectionId × C)
      → Outcome (SharedBuffer × List (ConnectionId × C) × List ConnectionId)
  poll_all answers b [] = done (b, [], [])
  poll_all answers b (e ∷ m) = do
    p ← ops.poll (answers e.0) b e.1
    rest ← poll_all answers p.0 m
    let (c, gone) = after_poll (p.1, p.2)
    done (rest.0, (e.0, c) ∷ rest.1, if gone then e.0 ∷ rest.2 else rest.2)

  unfoldable pub poll_connections :
      (ConnectionId → A)
      → (ConnectionId → ℕ)
      → SharedBuffer
      → Router C
      → Outcome (SharedBuffer × Router C)
  poll_connections answers clock b r = do
    p ← poll_all answers b r.connections
    done (p.0, evict_all clock p.2 (record r { connections = p.1 }))
