-- ===== src/Router/Flows.antt =====
-- What a packet does to the flows.
use gnirehtet.Base.{
  ℕ, ◌-◌, ◌<◌, ◌≡◌, refl, true, false, Option, none, some, lt→ltb, if_intro, get, contains_key,
  get-remove_ne, get_contains, IoResult, ok, would_block, failed, done, OnDone, OnDone-then,
  OnDone_at,
}
use gnirehtet.Header.Transport.{TransportHeaderData}
use gnirehtet.IpPacket.{IpPacket, is_icmp_echo_request}
use gnirehtet.SharedBuffer.{SharedBuffer}
use gnirehtet.Connection.{ConnectionId, from_headers, Moment, Connection}
use gnirehtet.Connection.Identity.{same_id}
use gnirehtet.Router.{Router, recently_closed_ttl, purge, store, evict, is_quic}
use gnirehtet.Router

module _ {A C : Type 0} (ops : Connection A C) (m : Moment) (later : ℕ) (packet : IpPacket)
    (b : SharedBuffer) (t : TransportHeaderData) (r : Router C) where
  abbrev id : ConnectionId
  id = from_headers packet.ip_header_data t r.client_label

  -- A packet that is neither an echo request nor QUIC, of a flow that closed less than two seconds ago, is
  -- absorbed: it neither reaches nor opens a connection and nothing goes to the device.
  pub send_to_network_absorbs :
      (at : ℕ)
      → is_icmp_echo_request packet ≡ false
      → is_quic packet ≡ false
      → packet.transport_header_data ≡ some t
      → get same_id id r.recently_closed ≡ some at
      → m.now - at < recently_closed_ttl
      → Router.send_to_network ops m later packet b r ≡ done (b, purge m.now r)
  unfolding Router.send_to_network Router.dispatch Router.route purge
  send_to_network_absorbs at echo quic header closed soon =
      let kept : contains_key same_id id (purge m.now r).recently_closed ≡ true =
        get_contains same_id id at _ r.recently_closed closed
          (λ k. lt→ltb (m.now - at) recently_closed_ttl soon) in
      rw (echo, quic, header, kept) refl

-- The entry of a flow is the same in both.
abbrev SameEntry : {C : Type 0} → ConnectionId → Router C → SharedBuffer × Router C → Type 0
SameEntry k r s = get same_id k s.1.connections ≡ get same_id k r.connections

module _ {A C : Type 0} (ops : Connection A C) (k id : ConnectionId)
    (other : same_id.eq k id ≡ false) (m : Moment) (later : ℕ) (packet : IpPacket)
    (b : SharedBuffer) (r : Router C) where
  store_keeps : (b' : SharedBuffer) (c : C) → SameEntry k r (b', store id c r)
  unfolding store
  store_keeps b' c = rw other (get-remove_ne same_id k id r.connections other)

  forward_keeps : (c : C) → OnDone (SameEntry k r) (Router.forward ops m later id c packet b r)
  unfolding Router.forward evict
  forward_keeps c = OnDone-then _ (ops.send_to_network m packet b c) _ (λ s e.
      if_intro (λ x. SameEntry k r (s.0, x)) (ops.is_closed s.1) _ _
        (λ _. get-remove_ne same_id k id r.connections other) (λ _. store_keeps s.0 s.1))

  opened_keeps :
      (created : IoResult C) → OnDone (SameEntry k r) (Router.opened ops m id packet b r created)
  unfolding Router.opened
  opened_keeps (ok c) =
      OnDone-then _ (ops.send_to_network m packet b c) _ (λ s e. store_keeps s.0 s.1)
  opened_keeps would_block = refl
  opened_keeps failed = refl

  pass_on_keeps :
      (entry : Option C) → OnDone (SameEntry k r) (Router.pass_on ops m later id packet b r entry)
  unfolding Router.pass_on Router.open_flow
  pass_on_keeps (some c) = forward_keeps c
  pass_on_keeps none =
      if_intro (OnDone (SameEntry k r)) r.registered _ _
        (λ _. OnDone-then _ (ops.create m id b packet) _ (λ created e. opened_keeps created))
        (λ _. refl)

module _ {A C : Type 0} (ops : Connection A C) (k : ConnectionId) (m : Moment) (later : ℕ)
    (packet : IpPacket) (b : SharedBuffer) (r : Router C) where
  dispatch_keeps :
      (header : Option TransportHeaderData)
      → ((t : TransportHeaderData)
          → header ≡ some t
          → same_id.eq k (from_headers packet.ip_header_data t r.client_label) ≡ false)
      → OnDone (SameEntry k r) (Router.dispatch ops m later packet b r header)
  unfolding Router.dispatch Router.route purge
  dispatch_keeps none other = refl
  dispatch_keeps (some t) other =
      let id = from_headers packet.ip_header_data t r.client_label in
      if_intro (OnDone (SameEntry k r)) (contains_key same_id id (purge m.now r).recently_closed) _
        _ (λ _. refl)
        (λ _.
          pass_on_keeps ops k id (other t refl) m later packet b (purge m.now r)
            (get same_id id r.connections))

  send_to_network_keeps :
      ((t : TransportHeaderData)
        → packet.transport_header_data ≡ some t
        → same_id.eq k (from_headers packet.ip_header_data t r.client_label) ≡ false)
      → OnDone (SameEntry k r) (Router.send_to_network ops m later packet b r)
  unfolding Router.send_to_network
  send_to_network_keeps other =
      if_intro (OnDone (SameEntry k r)) (is_icmp_echo_request packet) _ _ (λ _. refl)
        (λ _.
          if_intro (OnDone (SameEntry k r)) (is_quic packet) _ _ (λ _. refl)
            (λ _. dispatch_keeps packet.transport_header_data other))

  -- A packet leaves the connections of all flows but its own as they are, if the call returns; one without
  -- a transport header leaves all.
  pub send_to_network_isolates :
      (s : SharedBuffer × Router C)
      → ((t : TransportHeaderData)
          → packet.transport_header_data ≡ some t
          → same_id.eq k (from_headers packet.ip_header_data t r.client_label) ≡ false)
      → Router.send_to_network ops m later packet b r ≡ done s
      → get same_id k s.1.connections ≡ get same_id k r.connections
  send_to_network_isolates s other e = OnDone_at (SameEntry k r) _ s (send_to_network_keeps other) e
