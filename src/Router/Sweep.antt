-- ===== src/Router/Sweep.antt =====
-- The cleaning behind the poll, with the two kinds of connections.
use gnirehtet.Base.{
  ℕ, ◌+◌, ◌*◌, ◌<◌, ◌≡◌, ◌⊎◌, refl, Bool, true, false, inl, inr, List, [], ◌∷◌, Every, IoResult, ok,
  would_block, failed, done, OnDone, OnDone-then, subst,
}
use gnirehtet.Header.Ip.{IpAddr}
use gnirehtet.SharedBuffer.{SharedBuffer}
use gnirehtet.TcpConnection.Poll
use gnirehtet.UdpConnection
use gnirehtet.UdpConnection.{UdpConnection, idle_timeout_seconds, second}
use gnirehtet.UdpConnection.Idle.{poll_self-idle, is_expired-soon}
use gnirehtet.Connection.{ConnectionId, Connection}
use gnirehtet.Connection.Flow
use gnirehtet.Connection.Flow.{Flow, FlowAnswers, tcp_flow, udp_flow, flow}
use gnirehtet.Router
use gnirehtet.Router.{Router, after_poll, evict_all, expired_ids, clean_expired_connections}
use gnirehtet.Router.Closing.{Remains, poll_connections-Every}

-- Where no connection is expired, none is listed.
expired_ids_none :
    {A C : Type 0} (ops : Connection A C) (later : ℕ) (m : List (ConnectionId × C))
    → Every (λ k c. ops.is_expired later c ≡ false) m
    → expired_ids ops later m ≡ []
unfolding expired_ids
expired_ids_none ops later [] h = refl
expired_ids_none ops later (e ∷ m) h = rw (h.0, expired_ids_none ops later m h.1) refl

module _ (opens : IpAddr × ℕ → Bool) (now later : ℕ)
    (soon : later < now + (idle_timeout_seconds + 1) * second) where
  abbrev ops : Connection FlowAnswers Flow
  ops = flow opens

  abbrev IsLive : Flow → Type 0
  IsLive c = ops.is_expired later c ≡ false

  IsLive-Remains :
      (b : SharedBuffer) (c : Flow) (result : IoResult (Unit {0}))
      → IsLive c
      → Remains ops IsLive (b, c, result)
  unfolding after_poll
  IsLive-Remains b c (ok _) h = inr h
  IsLive-Remains b c would_block h = inr h
  IsLive-Remains b c failed h = inl refl

  udp_polled-Remains :
      (r : UdpConnection × IoResult (Unit {0}))
      → (r.0.idle_since ≡ now) ⊎ ((r.0.closed ≡ true) × (r.1 ≡ ok tt))
      → Remains ops IsLive (r.0.buffer, udp_flow r.0, r.1)
  unfolding after_poll flow Flow.is_expired Flow.is_closed
  udp_polled-Remains r (inl idle) =
      IsLive-Remains r.0.buffer (udp_flow r.0) r.1 (is_expired-soon now later r.0 idle soon)
  udp_polled-Remains r (inr (closed, went)) = inl (rw went closed)

  poll-Remains :
      (a : FlowAnswers) (b : SharedBuffer) (c : Flow)
      → a.now ≡ now
      → OnDone (Remains ops IsLive) (ops.poll a b c)
  unfolding flow Flow.poll Flow.udp_polled Flow.is_expired
  poll-Remains a b (tcp_flow c) e =
      let r = Poll.poll_self a.tcp_socket (record c { buffer = b }) in
      IsLive-Remains r.0.buffer (tcp_flow r.0) r.1 refl
  poll-Remains a b (udp_flow c) e =
      OnDone-then (Remains ops IsLive)
        (UdpConnection.poll_self a.now a.udp_socket (record c { buffer = b })) Flow.udp_polled
        (λ r e'. udp_polled-Remains r (
          subst (λ n. (r.0.idle_since ≡ n) ⊎ ((r.0.closed ≡ true) × (r.1 ≡ ok tt))) e
            (poll_self-idle a.now a.udp_socket (record c { buffer = b }) r e')))

  -- After a poll of all connections at one instant, that returns, the cleaning at any instant less than 301 seconds
  -- later removes nothing, however long no datagram has gone through a UDP flow.
  pub clean_after_poll :
      (answers : ConnectionId → FlowAnswers) (clock clock' : ConnectionId → ℕ) (b : SharedBuffer)
      (r : Router Flow) (s : SharedBuffer × Router Flow)
      → ((id : ConnectionId) → (answers id).now ≡ now)
      → Router.poll_connections ops answers clock b r ≡ done s
      → clean_expired_connections ops later clock' s.1 ≡ s.1
  unfolding clean_expired_connections evict_all
  clean_after_poll answers clock clock' b r s at e =
      let live =
        poll_connections-Every ops IsLive answers (λ id b c. poll-Remains (answers id) b c (at id))
          clock b r s e in
      rw (expired_ids_none ops later s.1.connections live) refl
