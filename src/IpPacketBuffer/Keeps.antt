-- ===== src/IpPacketBuffer/Keeps.antt =====
-- ip_packet_buffer.rs and client.rs under relay-rust/src/relay: what the loop over the device's packets leaves as it is.
use gnirehtet.Base.{
  ℕ, zero, suc, ◌+◌, Bool, true, false, List, Option, none, some, ok, would_block, failed, Outcome,
  done, take, OnDone, OnDone-bind, OnDone-then,
}
use gnirehtet.IpPacket.{IpPacket}
use gnirehtet.IpPacketBuffer.{
  IpPacketBuffer, Fed, as_ip_packet, next, skip_malformed, feed_round, feed_loop, feed_device_data,
  read_from,
}

-- What the routing of each packet keeps, the loop over the device's packets keeps.
module _ {S : Type 0} (step : S → IpPacket → Outcome S) (P : S → Type 0)
    (keeps : (s : S) (packet : IpPacket) → P s → OnDone P (step s packet)) where
  abbrev pub FedKeeps : Option (IpPacketBuffer × S × ℕ) → Type 0
  FedKeeps none = Unit {0}
  FedKeeps (some (b, s, count)) = P s

  skipped-Keeps :
      (onward : IpPacketBuffer → S → ℕ → Fed S) (b : IpPacketBuffer) (s : S) (count : ℕ)
      (flag : Bool)
      → OnDone FedKeeps (onward b s count)
      → P s
      → OnDone FedKeeps (
          let x : Fed S = elim flag [
            | true ↦ onward b s count
            | false ↦ done (some (b, s, count))
          ] in
          x)
  skipped-Keeps onward b s count true h p = h
  skipped-Keeps onward b s count false h p = p

  round-Keeps :
      (onward : IpPacketBuffer → S → ℕ → Fed S) (b : IpPacketBuffer) (s : S) (count : ℕ)
      (packet : Option IpPacket)
      → ((b : IpPacketBuffer) (s : S) (count : ℕ) → P s → OnDone FedKeeps (onward b s count))
      → P s
      → OnDone FedKeeps (feed_round step onward b s count packet)
  unfolding feed_round
  round-Keeps onward b s count (some packet) rest p =
      OnDone-bind P FedKeeps (step s packet) _ (keeps s packet p)
        (λ s' p'. OnDone-then FedKeeps (next b) _ (λ b' e. rest b' s' (count + 1) p'))
  round-Keeps onward b s count none rest p =
      OnDone-then FedKeeps (skip_malformed b) _
        (λ r e. skipped-Keeps onward r.0 s count r.1 (rest r.0 s count p) p)

  feed_loop-Keeps :
      (fuel : ℕ) (b : IpPacketBuffer) (s : S) (count : ℕ)
      → P s
      → OnDone FedKeeps (feed_loop step fuel b s count)
  unfolding feed_loop
  feed_loop-Keeps zero b s count p = tt
  feed_loop-Keeps (suc fuel) b s count p =
      OnDone-then FedKeeps (as_ip_packet b) _
        (λ packet e. round-Keeps (feed_loop step fuel) b s count packet (feed_loop-Keeps fuel) p)

  pub feed_device_data-Keeps :
      (fuel : ℕ) (bytes : List ℕ) (b : IpPacketBuffer) (s : S)
      → P s
      → OnDone FedKeeps (feed_device_data step fuel bytes b s)
  unfolding feed_device_data
  feed_device_data-Keeps fuel bytes b s p =
      let read = read_from (λ room. ok (take room bytes)) b in
      elim read.1
        as (λ r. OnDone FedKeeps (
          let x : Fed S = elim r [
            | ok true ↦ feed_loop step fuel read.0 s 0
            | ok false ↦ done (some (read.0, s, 0))
            | would_block ↦ done (some (read.0, s, 0))
            | failed ↦ done (some (read.0, s, 0))
          ] in
          x)) [
            | ok true ↦ feed_loop-Keeps fuel read.0 s 0 p
            | ok false ↦ p
            | would_block ↦ p
            | failed ↦ p
          ]
