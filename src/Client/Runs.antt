-- ===== src/Client/Runs.antt =====
-- What holds of the router after every iteration of the client's loop.
use gnirehtet.Base.{
  ℕ, ◌≡◌, refl, Bool, true, false, List, [], ◌∷◌, Option, none, some, if_intro, Every, Every-retain,
  IoResult, ok, would_block, failed, done, if◌then◌else◌, OnDone, OnDone-bind, OnDone-then,
  OnDone_at,
}
use gnirehtet.SharedBuffer.{SharedBuffer}
use gnirehtet.IpPacket.{IpPacket}
use gnirehtet.IpPacketBuffer.{IpPacketBuffer, feed_device_data}
use gnirehtet.IpPacketBuffer.Keeps.{FedKeeps, feed_device_data-Keeps}
use gnirehtet.Connection.{ConnectionId, Moment, Connection}
use gnirehtet.Router
use gnirehtet.Router.{Router}
use gnirehtet.Router.Keys.{
  IsValid, Valid, clear-IsValid, send_to_network-IsValid, clean_expired_connections-IsValid,
  poll_connections-IsValid,
}
use gnirehtet.Router.Closing.{poll_connections_leaves_open}
use gnirehtet.Router.Expiry.{clean_expired_connections-retain}
use gnirehtet.Client.{Iteration, goes_on, breaks, flush}
use gnirehtet.Client.Loop
use gnirehtet.Client.Loop.{
  Client, Loop, Turn, Turned, continues, stops, unended, create, route, fed,
  poll_network_connections, cleaned, flushed, flush_turn, finish, after_feed, after_read, iteration,
}

module _ {A C : Type 0} (ops : Connection A C) where
  -- The router's table is valid, and the client is open.
  abbrev Sound : Client C → Type 0
  Sound c = IsValid c.router × (c.closed ≡ false)

  -- Every connection is open.
  abbrev AreOpen : Client C → Type 0
  AreOpen c = Every (λ k c. ops.is_closed c ≡ false) c.router.connections

  abbrev SoundOpen : Client C → Type 0
  SoundOpen c = Sound c × AreOpen c

  -- What an iteration that goes on leaves.
  abbrev pub Continued : Turned C → Type 0
  Continued (continues l progress) =
      IsValid l.client.router
      × (l.client.closed ≡ false)
      × Every (λ k c. ops.is_closed c ≡ false) l.client.router.connections
  Continued (stops c) = IsValid c.router
  Continued unended = Unit {0}

  poll-SoundOpen :
      (answers : ConnectionId → A) (clock : ConnectionId → ℕ) (c : Client C)
      → Sound c
      → OnDone SoundOpen (poll_network_connections ops answers clock c)
  unfolding poll_network_connections
  poll-SoundOpen answers clock c h =
      let polled = Router.poll_connections ops answers clock c.network_to_client c.router in
      OnDone-then SoundOpen polled _ (λ s e. (
        (
          OnDone_at Valid polled s
              (poll_connections-IsValid ops answers clock c.network_to_client c.router h.0) e,
          h.1,
        ),
        poll_connections_leaves_open ops answers clock c.network_to_client c.router s e,
      ))

  cleaned-SoundOpen :
      (t : Turn A) (l : Loop C) → SoundOpen l.client → SoundOpen (cleaned ops t l).client
  unfolding cleaned
  cleaned-SoundOpen t l h =
      if_intro {A = Loop C} (λ x. SoundOpen x.client) _ _ _
        (λ _. (
          (clean_expired_connections-IsValid ops t.now t.clean_clock l.client.router h.0.0, h.0.1),
          rw (clean_expired_connections-retain ops t.now t.clean_clock l.client.router h.0.0)
              (Every-retain _ _ l.client.router.connections h.1),
        ))
        (λ _. h)

  flushed-Continued :
      (l : Loop C) (progress : Bool) (i : Iteration)
      → SoundOpen l.client
      → Continued (flushed l progress i)
  unfolding flushed
  flushed-Continued l progress breaks h = h.0.0
  flushed-Continued l progress (goes_on o wrote) h = (h.0.0, h.0.1, h.1)

  finish-Continued :
      (t : Turn A) (progress : Bool) (l : Loop C)
      → Sound l.client
      → OnDone Continued (finish ops t progress l)
  unfolding finish flush_turn
  finish-Continued t progress l h =
      OnDone-bind SoundOpen Continued
        (if l.client.closed
          then done l.client
          else poll_network_connections ops t.answers t.clock l.client)
        _
        (if_intro (OnDone SoundOpen) l.client.closed _ _ (λ e. absurd (cc (e, h.1)))
          (λ _. poll-SoundOpen t.answers t.clock l.client h))
        (λ c k. OnDone-then Continued (flush t.write _) _ (λ i e.
          flushed-Continued (cleaned ops t (record l { client = c })) progress i
            (cleaned-SoundOpen t (record l { client = c }) k)))

  route-Valid :
      (moments : ℕ → Moment × ℕ) (s : SharedBuffer × Router C × ℕ) (packet : IpPacket)
      → IsValid s.1
      → OnDone (λ (s : SharedBuffer × Router C × ℕ). IsValid s.1) (route ops moments s packet)
  unfolding route
  route-Valid moments (b, r, i) packet v =
      OnDone-bind Valid _ (Router.send_to_network ops (moments i).0 (moments i).1 packet b r) _
        (send_to_network-IsValid ops (moments i).0 (moments i).1 packet b r v) (λ s k. k)

  after_feed-Continued :
      (t : Turn A) (l : Loop C) (r : Option (IpPacketBuffer × (SharedBuffer × Router C × ℕ) × ℕ))
      → Sound l.client
      → FedKeeps (route ops t.moments) (λ s. IsValid s.1) (route-Valid t.moments) r
      → OnDone Continued (after_feed ops t l (fed ops l.client r))
  unfolding after_feed fed
  after_feed-Continued t l none h k = tt
  after_feed-Continued t l (some (b, (buffer, r, i), count)) h k =
      OnDone-bind SoundOpen Continued (poll_network_connections ops t.first_answers t.first_clock _)
        _ (poll-SoundOpen t.first_answers t.first_clock _ (k, h.1))
        (λ c s. finish-Continued t true (record l { client = c }) s.0)

  after_read-Continued :
      (fuel : ℕ) (t : Turn A) (l : Loop C) (answer : IoResult (List ℕ))
      → Sound l.client
      → OnDone Continued (after_read ops fuel t l answer)
  unfolding after_read Loop.close
  after_read-Continued fuel t l (ok []) h = clear-IsValid l.client.router
  after_read-Continued fuel t l failed h = clear-IsValid l.client.router
  after_read-Continued fuel t l would_block h = finish-Continued t false l h
  after_read-Continued fuel t l (ok (x ∷ xs)) h =
      OnDone-bind _ Continued
        (feed_device_data (route ops t.moments) fuel (x ∷ xs) l.client.client_to_network
          (l.client.network_to_client, l.client.router, 0))
        _
        (feed_device_data-Keeps (route ops t.moments) (λ s. IsValid s.1) (route-Valid t.moments)
          fuel (x ∷ xs) l.client.client_to_network (l.client.network_to_client, l.client.router, 0)
          h.0)
        (λ r k. after_feed-Continued t l r h k)

  -- The states of the loop, from the one that a new client starts in. Each iteration may meet anything.
  pub data Runs : Loop C → Type 0 where
    begins :
        (label : List ℕ) (now : ℕ)
        → Runs (record { client = create label; last_cleanup = now; pending_outgoing = [] })
    turns :
        {l l' : Loop C} {progress : Bool} (fuel : ℕ) (t : Turn A)
        → Runs l
        → iteration ops fuel t l ≡ done (continues l' progress)
        → Runs l'

  iteration-Continued :
      (fuel : ℕ) (t : Turn A) (l : Loop C)
      → Sound l.client
      → OnDone Continued (iteration ops fuel t l)
  unfolding iteration
  iteration-Continued fuel t l h =
      if_intro (OnDone Continued) l.client.closed _ _ (λ e. absurd (cc (e, h.1)))
        (λ _. after_read-Continued fuel t l t.read h)

  -- In every state that the client's loop comes to, whatever the device, the network and the clock do, the
  -- client is open, no id stands twice in the router's table of connections or of recently closed flows or
  -- in both, and every connection in the table is open.
  pub Runs-IsValid :
      (l : Loop C)
      → Runs l
      → IsValid l.client.router
        × (l.client.closed ≡ false)
        × Every (λ k c. ops.is_closed c ≡ false) l.client.router.connections
  unfolding create Router.new Router.set_buffer Router.set_client_label
  Runs-IsValid l (begins label now) =
      (record { unique = tt; unique_closed = tt; apart = tt }, refl, tt)
  Runs-IsValid l (turns {l = l0} {progress = progress} fuel t past e) =
      let h = Runs-IsValid l0 past in
      OnDone_at Continued (iteration ops fuel t l0) (continues l progress)
        (iteration-Continued fuel t l0 (h.0, h.1)) e
