-- ===== src/Router/Keys.antt =====
-- The ids of the two maps.
use gnirehtet.Base.{
  eq_comm, ℕ, ◌≡◌, refl, true, false, not, Bool-cases, inl, inr, List, [], ◌∷◌, none, some,
  contains_key, Unique, Every, Every-retain, Every-retain_test, Every-implies, Every-both,
  Unique-retain, Unique-insert, SameKeys, Unique-SameKeys, Every-SameKeys, if_intro, Option, OnDone,
  OnDone-bind, OnDone-then, contains_key-retain, IoResult, ok, would_block, failed, done, arith,
}
use gnirehtet.Header.Transport.{TransportHeaderData}
use gnirehtet.IpPacket.{IpPacket, is_icmp_echo_request}
use gnirehtet.SharedBuffer.{SharedBuffer}
use gnirehtet.Connection.{ConnectionId, from_headers, Moment, Connection}
use gnirehtet.Connection.Identity.{same_id}
use gnirehtet.Router.{
  Router, purge, store, evict, forward, opened, open_flow, pass_on, dispatch, poll_connections,
  clean_expired_connections, route, is_quic, send_to_network, evict_all, clear, remove_flow,
  poll_all,
}

abbrev pub IsFree : {C : Type 0} → Router C → ConnectionId → Type 0
IsFree r id = contains_key same_id id r.recently_closed ≡ false

-- An id stands at most once in each map, and in one of them only.
pub record IsValid {C : Type 0} (r : Router C) : Type 0 where
  pub unique : Unique same_id r.connections
  pub unique_closed : Unique same_id r.recently_closed
  pub apart : Every (λ id c. IsFree r id) r.connections

module _ {C : Type 0} where
  purge-IsValid : (now : ℕ) (r : Router C) → IsValid r → IsValid (purge now r)
  unfolding purge
  purge-IsValid now r v = record {
    unique = v.unique;
    unique_closed = Unique-retain same_id _ r.recently_closed v.unique_closed;
    apart =
        Every-implies _ _ r.connections
          (λ id c free. contains_key-retain same_id id _ r.recently_closed free) v.apart;
  }

  store-IsValid :
      (id : ConnectionId) (c : C) (r : Router C) → IsFree r id → IsValid r → IsValid (store id c r)
  unfolding store
  store-IsValid id c r free v = record {
    unique = Unique-insert same_id id c r.connections v.unique;
    unique_closed = v.unique_closed;
    apart = (free, Every-retain _ _ r.connections v.apart);
  }

  -- An id that is not the evicted one and was not recently closed still is not.
  IsFree-evict :
      (now : ℕ) (id k : ConnectionId) (r : Router C)
      → not (same_id.eq id k) ≡ true
      → IsFree r k
      → IsFree (evict now id r) k
  unfolding evict
  IsFree-evict now id k r differ free =
      let other : same_id.eq k id ≡ false = eq_comm same_id id k (ground arith) in
      rw other (contains_key-retain same_id k _ r.recently_closed free)

  evict-IsValid :
      (now : ℕ) (id : ConnectionId) (r : Router C) → IsValid r → IsValid (evict now id r)
  unfolding evict
  evict-IsValid now id r v = record {
    unique = Unique-retain same_id _ r.connections v.unique;
    unique_closed = Unique-insert same_id id now r.recently_closed v.unique_closed;
    apart =
        Every-implies _ _ _ (λ k c h. IsFree-evict now id k r h.0 h.1)
          (Every-both _ _ _ (Every-retain_test _ r.connections)
            (Every-retain _ _ r.connections v.apart));
  }

  evict_all-IsValid :
      (clock : ConnectionId → ℕ) (ids : List ConnectionId) (r : Router C)
      → IsValid r
      → IsValid (evict_all clock ids r)
  unfolding evict_all
  evict_all-IsValid clock [] r v = v
  evict_all-IsValid clock (id ∷ ids) r v =
      evict_all-IsValid clock ids _ (evict-IsValid (clock id) id r v)

  pub clear-IsValid : (r : Router C) → IsValid (clear r)
  unfolding clear
  clear-IsValid r = record { unique = tt; unique_closed = tt; apart = tt }

  pub remove_flow-IsValid :
      (now : ℕ) (id : ConnectionId) (r : Router C) → IsValid r → IsValid (remove_flow now id r)
  unfolding remove_flow
  remove_flow-IsValid now id r v = elim (Bool-cases (contains_key same_id id r.connections)) [
    | inl e ↦ rw e (evict-IsValid now id r v)
    | inr e ↦ rw e v
  ]

-- What an operation leaves.
abbrev pub Valid : {C : Type 0} → SharedBuffer × Router C → Type 0
Valid s = IsValid s.1

module _ {A C : Type 0} (ops : Connection A C) where
  forward-IsValid :
      (m : Moment) (later : ℕ) (id : ConnectionId) (c : C) (packet : IpPacket) (b : SharedBuffer)
      (r : Router C)
      → IsFree r id
      → IsValid r
      → OnDone Valid (forward ops m later id c packet b r)
  unfolding forward
  forward-IsValid m later id c packet b r free v =
      OnDone-then Valid (ops.send_to_network m packet b c) _ (λ s e.
        elim (Bool-cases (ops.is_closed s.1)) [
          | inl q ↦ rw q (evict-IsValid later id r v)
          | inr q ↦ rw q (store-IsValid id s.1 r free v)
        ])

  opened-IsValid :
      (m : Moment) (id : ConnectionId) (packet : IpPacket) (b : SharedBuffer) (r : Router C)
      (created : IoResult C)
      → IsFree r id
      → IsValid r
      → OnDone Valid (opened ops m id packet b r created)
  unfolding opened
  opened-IsValid m id packet b r (ok c) free v =
      OnDone-then Valid (ops.send_to_network m packet b c) _ (λ s e. store-IsValid id s.1 r free v)
  opened-IsValid m id packet b r would_block free v = v
  opened-IsValid m id packet b r failed free v = v

  open_flow-IsValid :
      (m : Moment) (id : ConnectionId) (packet : IpPacket) (b : SharedBuffer) (r : Router C)
      → IsFree r id
      → IsValid r
      → OnDone Valid (open_flow ops m id packet b r)
  unfolding open_flow
  open_flow-IsValid m id packet b r free v =
      if_intro (OnDone Valid) r.registered _ (done (b, r))
        (λ e.
          OnDone-then Valid (ops.create m id b packet) _
            (λ created e'. opened-IsValid m id packet b r created free v))
        (λ e. v)

  pass_on-IsValid :
      (m : Moment) (later : ℕ) (id : ConnectionId) (packet : IpPacket) (b : SharedBuffer)
      (r : Router C) (entry : Option C)
      → IsFree r id
      → IsValid r
      → OnDone Valid (pass_on ops m later id packet b r entry)
  unfolding pass_on
  pass_on-IsValid m later id packet b r (some c) free v =
      forward-IsValid m later id c packet b r free v
  pass_on-IsValid m later id packet b r none free v = open_flow-IsValid m id packet b r free v

  dispatch-IsValid :
      (m : Moment) (later : ℕ) (packet : IpPacket) (b : SharedBuffer) (r : Router C)
      (header : Option TransportHeaderData)
      → IsValid r
      → OnDone Valid (dispatch ops m later packet b r header)
  unfolding dispatch route
  dispatch-IsValid m later packet b r none v = v
  dispatch-IsValid m later packet b r (some t) v =
      let id = from_headers packet.ip_header_data t r.client_label in
      let v' = purge-IsValid m.now r v in
      if_intro (OnDone Valid) (contains_key same_id id (purge m.now r).recently_closed) _ _
        (λ e. v') (λ free. pass_on-IsValid m later id packet b (purge m.now r) _ free v')

  pub send_to_network-IsValid :
      (m : Moment) (later : ℕ) (packet : IpPacket) (b : SharedBuffer) (r : Router C)
      → IsValid r
      → OnDone Valid (send_to_network ops m later packet b r)
  unfolding send_to_network
  send_to_network-IsValid m later packet b r v =
      if_intro (OnDone Valid) (is_icmp_echo_request packet) _ _ (λ e. v)
        (λ e.
          if_intro (OnDone Valid) (is_quic packet) _ _ (λ e'. v)
            (λ e'. dispatch-IsValid m later packet b r packet.transport_header_data v))

  poll_all-SameKeys :
      (answers : ConnectionId → A) (b : SharedBuffer) (es : List (ConnectionId × C))
      → OnDone (λ s. SameKeys same_id es s.1) (poll_all ops answers b es)
  unfolding poll_all
  poll_all-SameKeys answers b [] = tt
  poll_all-SameKeys answers b (x ∷ es) = OnDone-then _ (ops.poll (answers x.0) b x.1) _ (λ p e.
      OnDone-bind _ _ (poll_all ops answers p.0 es) _ (poll_all-SameKeys answers p.0 es)
        (λ rest h. (refl, h)))

  pub poll_connections-IsValid :
      (answers : ConnectionId → A) (clock : ConnectionId → ℕ) (b : SharedBuffer) (r : Router C)
      → IsValid r
      → OnDone Valid (poll_connections ops answers clock b r)
  unfolding poll_connections
  poll_connections-IsValid answers clock b r v =
      OnDone-bind _ Valid (poll_all ops answers b r.connections) _
        (poll_all-SameKeys answers b r.connections)
        (λ p same.
          evict_all-IsValid clock p.2 (record r { connections = p.1 })
            (record {
              unique = Unique-SameKeys same_id r.connections p.1 same v.unique;
              unique_closed = v.unique_closed;
              apart = Every-SameKeys same_id (IsFree r) r.connections p.1 same v.apart;
            }))

  pub clean_expired_connections-IsValid :
      (now : ℕ) (clock : ConnectionId → ℕ) (r : Router C)
      → IsValid r
      → IsValid (clean_expired_connections ops now clock r)
  unfolding clean_expired_connections
  clean_expired_connections-IsValid now clock r v = evict_all-IsValid clock _ r v
