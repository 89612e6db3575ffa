-- ===== src/Client/Loop.antt =====
-- relay-rust/src/relay/client.rs: the client, and one iteration of the loop of `run_blocking`.
use gnirehtet.Base.{
  ℕ, ◌+◌, ◌-◌, ◌*◌, ◌/◌, ◌^◌, Bool, true, false, ◌||◌, List, [], ◌∷◌, Option, none, some, leb,
  if◌then◌else◌, IoResult, ok, would_block, failed, Outcome, done, ◌>>=◌,
}
use gnirehtet.StreamBuffer
use gnirehtet.SharedBuffer.{SharedBuffer}
use gnirehtet.IpPacket.{IpPacket}
use gnirehtet.IpPacketBuffer
use gnirehtet.IpPacketBuffer.{IpPacketBuffer, Fed, feed_device_data}
use gnirehtet.Packetizer.{max_packet_length}
use gnirehtet.Connection.{ConnectionId, Moment, Connection}
use gnirehtet.Router
use gnirehtet.Router.{Router}
use gnirehtet.Client.{flush, Iteration, goes_on, breaks}

pub record Client (C : Type 0) : Type 0 where
  pub client_to_network : IpPacketBuffer
  pub network_to_client : SharedBuffer
  pub router : Router C
  pub closed : Bool

-- The variables of the loop.
pub record Loop (C : Type 0) : Type 0 where
  pub client : Client C
  pub last_cleanup : ℕ
  pub pending_outgoing : List ℕ

-- What one iteration meets: the answer of the device's stream to a read, the instants at which packets
-- are routed, the answers to the two polls of the connections with the instants at which they go, and the instant, the clock and the answer of the
-- stream for the cleaning and the flush.
pub record Turn (A : Type 0) : Type 0 where
  pub read : IoResult (List ℕ)
  pub moments : ℕ → Moment × ℕ
  pub first_answers : ConnectionId → A
  pub first_clock : ConnectionId → ℕ
  pub answers : ConnectionId → A
  pub clock : ConnectionId → ℕ
  pub now : ℕ
  pub clean_clock : ConnectionId → ℕ
  pub write : List ℕ → IoResult ℕ

-- How an iteration ends. `unended` is a loop over the device's packets that has not ended in the rounds
-- that it was given.
pub data Turned (C : Type 0) : Type 0 where
  continues : Loop C → Bool → Turned C
  stops : Client C → Turned C
  unended : Turned C

abbrev pub cleanup_seconds : ℕ
cleanup_seconds = 5

module _ {C : Type 0} where
  -- `Client::create`, with the label made of the id and the serial.
  unfoldable pub create : List ℕ → Client C
  unfolding Router.new Router.set_buffer Router.set_client_label IpPacketBuffer.new
  create label = record {
    client_to_network = IpPacketBuffer.new;
    network_to_client = record {
      stream = StreamBuffer.new (64 * max_packet_length);
      borrowed = false;
    };
    router = Router.set_client_label label (Router.set_buffer Router.new);
    closed = false;
  }

  -- The listener sets the flag that the loop tests together with `closed`.
  unfoldable pub close : Client C → Client C
  close c = record c { closed = true; router = Router.clear c.router }

  unfoldable pub flushed : Loop C → Bool → Iteration → Turned C
  flushed l progress breaks = stops l.client
  flushed l progress (goes_on o wrote) =
      continues
        (record l {
          client = record l.client { network_to_client = o.buffer };
          pending_outgoing = o.pending;
        })
        (progress || wrote)

module _ {A C : Type 0} (ops : Connection A C) where
  -- The router with the buffer to the device, and the number of packets routed so far.
  unfoldable pub route :
      (ℕ → Moment × ℕ)
      → SharedBuffer × Router C × ℕ
      → IpPacket
      → Outcome (SharedBuffer × Router C × ℕ)
  route moments (b, r, i) packet = do
    s ← Router.send_to_network ops (moments i).0 (moments i).1 packet b r
    done (s.0, s.1, i + 1)

  -- What `feed_device_data` makes of the client.
  unfoldable pub fed :
      Client C → Option (IpPacketBuffer × (SharedBuffer × Router C × ℕ) × ℕ) → Option (Client C)
  fed c none = none
  fed c (some (b, (buffer, r, _), count)) =
      some (record c { client_to_network = b; network_to_client = buffer; router = r })

  unfoldable pub poll_network_connections :
      (ConnectionId → A) → (ConnectionId → ℕ) → Client C → Outcome (Client C)
  poll_network_connections answers clock c = do
    s ← Router.poll_connections ops answers clock c.network_to_client c.router
    done (record c { network_to_client = s.0; router = s.1 })

  -- The rest of the iteration: the second poll, the cleaning and the flush.
  unfoldable pub cleaned : Turn A → Loop C → Loop C
  cleaned t l =
      if leb cleanup_seconds ((t.now - l.last_cleanup) / 10 ^ 9)
      then record l {
        client = record l.client {
          router = Router.clean_expired_connections ops t.now t.clean_clock l.client.router;
        };
        last_cleanup = t.now;
      }
      else l

  unfoldable pub flush_turn : Turn A → Bool → Loop C → Outcome (Turned C)
  unfolding flushed
  flush_turn t progress l = do
    i ← flush t.write (record { buffer = l.client.network_to_client; pending = l.pending_outgoing })
    done (flushed l progress i)

  unfoldable pub finish : Turn A → Bool → Loop C → Outcome (Turned C)
  unfolding cleaned flush_turn
  finish t progress l = do
    c ←
        (if l.client.closed
          then done l.client
          else poll_network_connections t.answers t.clock l.client)
    flush_turn t progress (cleaned t (record l { client = c }))

  -- After the bytes of a read were fed.
  unfoldable pub after_feed : Turn A → Loop C → Option (Client C) → Outcome (Turned C)
  unfolding finish
  after_feed t l none = done unended
  after_feed t l (some c) = do
    c' ← poll_network_connections t.first_answers t.first_clock c
    finish t true (record l { client = c' })

  -- No bytes are the end of the stream.
  unfoldable pub after_read : ℕ → Turn A → Loop C → IoResult (List ℕ) → Outcome (Turned C)
  unfolding close after_feed fed route
  after_read fuel t l (ok []) = done (stops (close l.client))
  after_read fuel t l (ok (x ∷ xs)) = do
    r ←
        feed_device_data (route t.moments) fuel (x ∷ xs) l.client.client_to_network
          (l.client.network_to_client, l.client.router, 0)
    after_feed t l (fed l.client r)
  after_read fuel t l would_block = finish t false l
  after_read fuel t l failed = done (stops (close l.client))

  unfoldable pub iteration : ℕ → Turn A → Loop C → Outcome (Turned C)
  unfolding after_read
  iteration fuel t l = if l.client.closed then done (stops l.client) else after_read fuel t l t.read
