-- ===== src/UdpConnection/Idle.antt =====
-- What a poll does to the idle time and to `closed`.
use gnirehtet.Base.{
  ◌⊎◌, ℕ, ◌+◌, ◌-◌, ◌*◌, ◌/◌, ◌<◌, ◌≡◌, ◌∙◌, refl, sym, ap, arith, Bool, true, false, Bool-cases,
  inl, inr, List, IoResult, ok, would_block, failed, Outcome-cases, done_same, subst, done, panic,
  le→ltb,
}
use gnirehtet.IpPacket.{IpPacket}
use gnirehtet.DatagramBuffer
use gnirehtet.UdpConnection.{
  UdpConnection, UdpAnswers, second, idle_timeout_seconds, close, touch, is_expired, received,
  process_send, process_receive, receive_half, after_send, poll_self,
}

-- A connection that is open and was touched at `now`.
pub record IsFresh (now : ℕ) (c : UdpConnection) : Type 0 where
  pub idle : c.idle_since ≡ now
  pub still_open : c.closed ≡ false

-- What a poll at `now` leaves: the idle time starts at `now`, and the connection that has nothing to do is
-- open.
pub record Polled (now : ℕ) (r : UdpConnection × IoResult (Unit {0})) : Type 0 where
  pub idle : r.0.idle_since ≡ now
  pub open_if_blocked : r.1 ≡ would_block → r.0.closed ≡ false

module _ (now : ℕ) where
  received-IsFresh :
      (r : IoResult IpPacket) (c : UdpConnection) → IsFresh now c → IsFresh now (received r c).0
  unfolding received
  received-IsFresh (ok packet) c f = record { idle = f.idle; still_open = f.still_open }
  received-IsFresh would_block c f = f
  received-IsFresh failed c f = f

  process_receive-IsFresh :
      (recv : ℕ → IoResult (List ℕ)) (c : UdpConnection)
      → IsFresh now c
      → IsFresh now (process_receive recv c).0
  unfolding process_receive
  process_receive-IsFresh recv c f =
      received-IsFresh _ _ (record { idle = f.idle; still_open = f.still_open })

  receive_half-Polled :
      (progress : Bool) (c : UdpConnection) (r : IoResult (Unit {0}))
      → IsFresh now c
      → Polled now (receive_half progress (c, r))
  unfolding receive_half close
  receive_half-Polled progress c (ok _) f = record {
    idle = f.idle;
    open_if_blocked = λ e. f.still_open;
  }
  receive_half-Polled progress c would_block f = record {
    idle = f.idle;
    open_if_blocked = λ e. f.still_open;
  }
  receive_half-Polled progress c failed f = record { idle = f.idle; open_if_blocked = λ e. cc e }

  after_send-Polled :
      (recv : ℕ → IoResult (List ℕ)) (c : UdpConnection) (r : IoResult (Unit {0}))
      → IsFresh now c
      → Polled now (after_send recv (c, r))
  unfolding after_send close
  after_send-Polled recv c (ok _) f =
      receive_half-Polled true (process_receive recv c).0 (process_receive recv c).1
        (process_receive-IsFresh recv c f)
  after_send-Polled recv c would_block f =
      receive_half-Polled false (process_receive recv c).0 (process_receive recv c).1
        (process_receive-IsFresh recv c f)
  after_send-Polled recv c failed f = record { idle = f.idle; open_if_blocked = λ e. cc e }

  process_send-IsFresh :
      (send : List ℕ → IoResult ℕ) (c : UdpConnection) (r : UdpConnection × IoResult (Unit {0}))
      → IsFresh now c
      → process_send send c ≡ done r
      → IsFresh now r.0
  unfolding process_send
  process_send-IsFresh send c r f e =
      elim (Outcome-cases (DatagramBuffer.write_to send c.client_to_network)) [
        | inl (w, sends) ↦
            let same : process_send send c ≡ done (record c { client_to_network = w.0 }, w.1) =
              rw (process_send, sends) refl in
            subst (λ x. IsFresh now x.0) (done_same (sym same ∙ e))
              (record { idle = f.idle; still_open = f.still_open })
        | inr fell ↦
            let same : process_send send c ≡ panic = rw (process_send, fell) refl in cc (same, e)
      ]

  touch-IsFresh : (c : UdpConnection) → c.closed ≡ false → IsFresh now (touch now c)
  unfolding touch
  touch-IsFresh c open_ = record { idle = refl; still_open = open_ }

  -- A poll at `now` of a connection that is open, if it does not panic.
  pub poll_self-Polled :
      (a : UdpAnswers) (c : UdpConnection) (r : UdpConnection × IoResult (Unit {0}))
      → c.closed ≡ false
      → poll_self now a c ≡ done r
      → Polled now r
  unfolding poll_self
  poll_self-Polled a c r open_ e = elim (Bool-cases (DatagramBuffer.is_empty c.client_to_network)) [
    | inl empty ↦
        let q = process_receive a.recv (touch now c) in
        let same : poll_self now a c ≡ done (receive_half false q) =
          rw (poll_self, open_, empty) refl in
        subst (Polled now) (done_same (sym same ∙ e)) (
          receive_half-Polled false q.0 q.1
            (process_receive-IsFresh a.recv (touch now c) (touch-IsFresh c open_)))
    | inr full ↦ elim (Outcome-cases (process_send a.send (touch now c))) [
      | inl (w, sends) ↦
          let same : poll_self now a c ≡ done (after_send a.recv w) =
            rw (poll_self, sends, full, open_) refl in
          subst (Polled now) (done_same (sym same ∙ e)) (
            after_send-Polled a.recv w.0 w.1
              (process_send-IsFresh a.send (touch now c) w (touch-IsFresh c open_) sends))
      | inr fell ↦
          let same : poll_self now a c ≡ panic = rw (poll_self, fell, full, open_) refl in
          cc (same, e)
    ]
  ]

-- A poll of a closed connection that returns leaves it as it is.
poll_self_closed :
    (now : ℕ) (a : UdpAnswers) (c : UdpConnection) (r : UdpConnection × IoResult (Unit {0}))
    → c.closed ≡ true
    → poll_self now a c ≡ done r
    → (c, ok tt) ≡ r
unfolding poll_self
poll_self_closed now a c r closed e =
    let same : poll_self now a c ≡ done (c, ok tt) = rw (poll_self, closed) refl in
    done_same (sym same ∙ e)

-- A poll that returns and reports no progress leaves the connection open.
pub blocked_open :
    (now : ℕ) (a : UdpAnswers) (c : UdpConnection) (r : UdpConnection × IoResult (Unit {0}))
    → poll_self now a c ≡ done r
    → r.1 ≡ would_block
    → r.0.closed ≡ false
blocked_open now a c r e blocked = elim (Bool-cases c.closed) [
  | inl closed ↦
      let ended = poll_self_closed now a c r closed e in absurd (cc (ap (λ x. x.1) ended, blocked))
  | inr open_ ↦ (poll_self-Polled now a c r open_ e).open_if_blocked blocked
]

-- A poll that returns starts the idle time anew, or finds the connection closed.
pub poll_self-idle :
    (now : ℕ) (a : UdpAnswers) (c : UdpConnection) (r : UdpConnection × IoResult (Unit {0}))
    → poll_self now a c ≡ done r
    → (r.0.idle_since ≡ now) ⊎ ((r.0.closed ≡ true) × (r.1 ≡ ok tt))
poll_self-idle now a c r e = elim (Bool-cases c.closed) [
  | inl closed ↦
      let ended = sym (poll_self_closed now a c r closed e) in
      inr (ap (λ x. x.0.closed) ended ∙ closed, ap (λ x. x.1) ended)
  | inr open_ ↦ inl (poll_self-Polled now a c r open_ e).idle
]

-- A connection whose idle time started at `now` is not expired less than 301 seconds later.
pub is_expired-soon :
    (now later : ℕ) (c : UdpConnection)
    → c.idle_since ≡ now
    → later < now + (idle_timeout_seconds + 1) * second
    → is_expired later c ≡ false
unfolding is_expired
is_expired-soon now later c idle soon =
    le→ltb idle_timeout_seconds ((later - c.idle_since) / second) (omega (arith, idle))
