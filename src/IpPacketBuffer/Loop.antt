-- ===== src/IpPacketBuffer/Loop.antt =====
-- When the loop that takes the packets out ends.
use gnirehtet.Base.{
  ℕ, zero, suc, ◌+◌, ◌<◌, ◌≡◌, ◌≢◌, inl, inr, refl, sym, ap, ◌∙◌, arith, Bool, true, false, List,
  drop, none, some, dec_lt, Outcome, Outcome-cases, subst, done, panic,
}
use gnirehtet.IpPacketBuffer.{
  IpPacketBuffer, available_packet_info, as_ip_packet, next, skip_malformed, Fed, feed_round,
  feed_loop,
}
use gnirehtet.IpPacketBuffer.Framing.{
  available_packet_info-le, bytes_of, IsValid, starts_packet, next-drops, as_ip_packet-info, Skips,
  skip_malformed-Skips,
}
use gnirehtet.ByteBuffer.Peek.{length-peek, consume_none}
use gnirehtet.IpPacket.{IpPacket}

-- Taking the packets from the front, and skipping the bytes between them that start no packet, one comes to
-- a packet whose header states the length 0.
pub data MeetsEmpty : List ℕ → Type 0 where
  here :
      {raw : List ℕ} (version : ℕ) → available_packet_info raw ≡ some (version, 0) → MeetsEmpty raw
  behind :
      {raw : List ℕ} (version n : ℕ)
      → available_packet_info raw ≡ some (version, n)
      → MeetsEmpty (drop n raw)
      → MeetsEmpty raw
  skipped : {raw : List ℕ} → starts_packet raw ≡ false → MeetsEmpty (drop 1 raw) → MeetsEmpty raw

next_stuck :
    (b : IpPacketBuffer) (version : ℕ)
    → IsValid b
    → available_packet_info (bytes_of b) ≡ some (version, 0)
    → next b ≡ done b
unfolding next
next_stuck b version v there = rw (next, there, consume_none b.buf v) refl

module _ {S : Type 0} (route : S → IpPacket → Outcome S) where
  panic_unended : ◌≢◌ {A = Fed S} panic (done none)
  panic_unended e = cc e

  ended : {r : IpPacketBuffer × S × ℕ} → ◌≢◌ {A = Fed S} (done (some r)) (done none)
  ended e = cc e

  packet_round :
      (onward : IpPacketBuffer → S → ℕ → Fed S) (b b' : IpPacketBuffer) (s : S) (count : ℕ)
      (packet : IpPacket)
      → next b ≡ done b'
      → feed_round route onward b s count (some packet) ≡ done none
      → (s' : S) × (onward b' s' (count + 1) ≡ done none)
  unfolding feed_round
  packet_round onward b b' s count packet e run = elim (Outcome-cases (route s packet)) [
    | inl (s', routed) ↦
        let round : feed_round route onward b s count (some packet) ≡ onward b' s' (count + 1) =
          rw (routed, e) refl in
        (s', sym round ∙ run)
    | inr fell ↦
        let round : feed_round route onward b s count (some packet) ≡ panic = rw fell refl in
        absurd (panic_unended (sym round ∙ run))
  ]

  skip_round :
      (onward : IpPacketBuffer → S → ℕ → Fed S) (b : IpPacketBuffer) (s : S) (count : ℕ)
      → (b' : IpPacketBuffer) × (flag : Bool) × (skip_malformed b ≡ done (b', flag))
        × Skips b b' flag
      → feed_round route onward b s count none ≡ done none
      → (b' : IpPacketBuffer) × (onward b' s count ≡ done none) × Skips b b' true
  unfolding feed_round
  skip_round onward b s count (b', true, e, skips) run =
      let round : feed_round route onward b s count none ≡ onward b' s count =
        rw (feed_round, e) refl in
      (b', sym round ∙ run, skips)
  skip_round onward b s count (b', false, e, skips) run =
      let round : feed_round route onward b s count none ≡ done (some (b', s, count)) =
        rw (feed_round, e) refl in
      absurd (ended (sym round ∙ run))

  -- On a valid buffer, a loop with more rounds than there are bytes has ended or has panicked, unless among the
  -- packets that one comes to by taking each with its stated length, and by skipping the bytes that start none,
  -- there is one that states the length 0.
  pub feed_loop-ends :
      (fuel : ℕ) (b : IpPacketBuffer) (s : S) (count : ℕ)
      → IsValid b
      → b.buf.head < fuel
      → feed_loop route fuel b s count ≡ done none
      → MeetsEmpty (bytes_of b)
  unfolding feed_loop
  feed_loop-ends zero b s count v enough run = absurd (omega arith)
  feed_loop-ends (suc fuel) b s count v enough run = elim (Outcome-cases (as_ip_packet b)) [
    | inr fell ↦
        let round : feed_loop route (suc fuel) b s count ≡ panic = rw (feed_loop, fell) refl in
        absurd (panic_unended (sym round ∙ run))
    | inl (none, parsed) ↦
        let round : feed_loop route (suc fuel) b s count
            ≡ feed_round route (feed_loop route fuel) b s count none =
          rw (feed_loop, parsed) refl in
        let (b', more, skips) =
          skip_round (feed_loop route fuel) b s count (skip_malformed-Skips b v)
            (sym round ∙ run) in
        let (rest, valid, at, unknown) = skips in
        skipped unknown
          (subst MeetsEmpty rest (feed_loop-ends fuel b' s count valid (omega (arith, at)) more))
    | inl (some packet, parsed) ↦
        let (version, n, there) = as_ip_packet-info b packet parsed in
        let (b', dropped, rest, valid, at) = next-drops b version n v there in
        let round : feed_loop route (suc fuel) b s count
            ≡ feed_round route (feed_loop route fuel) b s count (some packet) =
          rw (feed_loop, parsed) refl in
        let (s', more) =
          packet_round (feed_loop route fuel) b b' s count packet dropped (sym round ∙ run) in
        elim (dec_lt 0 n) [
          | yes some_bytes ↦ behind version n there (
              subst MeetsEmpty rest (
                feed_loop-ends fuel b' s' (count + 1) valid
                  (omega (
                    arith,
                    at,
                    available_packet_info-le (bytes_of b) version n there,
                    length-peek b.buf v,
                  ))
                  more))
          | no no_bytes ↦ here version (there ∙ ap (λ k. some (version, k)) (omega arith))
        ]
  ]

  -- A packet at the front that states the length 0 is never consumed: if it parses and the router
  -- takes it each time, then no number of rounds ends the loop.
  pub feed_loop_stuck :
      (b : IpPacketBuffer) (packet : IpPacket) (version : ℕ)
      → IsValid b
      → available_packet_info (bytes_of b) ≡ some (version, 0)
      → as_ip_packet b ≡ done (some packet)
      → ((s : S) → (s' : S) × (route s packet ≡ done s'))
      → (fuel : ℕ) (s : S) (count : ℕ) → feed_loop route fuel b s count ≡ done none
  unfolding feed_loop feed_round
  feed_loop_stuck b packet version v there parsed takes zero s count = refl
  feed_loop_stuck b packet version v there parsed takes (suc fuel) s count =
      let (s', routed) = takes s in
      rw (feed_loop, parsed, feed_round, routed, next_stuck b version v there)
        (feed_loop_stuck b packet version v there parsed takes fuel s' (count + 1))
