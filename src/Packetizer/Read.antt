-- ===== src/Packetizer/Read.antt =====
-- Packets from a `Read` source.
use gnirehtet.Base.{
  done, ℕ, ◌+◌, ◌-◌, ◌<◌, ◌^◌, ◌≡◌, refl, ap, ◌∙◌, arith, List, ◌∷◌, ◌++◌, Option, some, length,
  slice, length-splice, slice-splice, IoResult, ok, u16, take, drop,
}
use gnirehtet.Packetizer.{Packetizer, chunk, read_answer, packetize_read, put_payload, build}
use gnirehtet.Packetizer.Layout.{IsLaidOut}
use gnirehtet.Packetizer.Build.{IsBuilt, build-IsBuilt}
use gnirehtet.IpPacket.{IpPacket, payload, packet_length}

module _ (bytes : List ℕ) (p : Packetizer) (lay : IsLaidOut p)
    (room : p.payload_index + length bytes < 2 ^ 16) where
  put_payload-IsLaidOut : IsLaidOut (put_payload bytes p)
  unfolding put_payload
  put_payload-IsLaidOut = record {
    full = length-splice p.payload_index bytes p.buffer (omega (arith, lay.full)) ∙ lay.full;
    transport_at = lay.transport_at;
    payload_at = lay.payload_at;
    fits = lay.fits;
  }

  put_payload-slice :
      slice p.payload_index (p.payload_index + length bytes) (put_payload bytes p).buffer ≡ bytes
  unfolding put_payload
  put_payload-slice =
      slice-splice p.buffer bytes p.payload_index p.payload_index (omega arith)
        (omega (arith, lay.full))
      ∙ ap (λ k. take k (drop p.payload_index p.buffer) ++ bytes) none_left
    where
      none_left : p.payload_index - p.payload_index ≡ 0
      none_left = omega arith

  pub build-put_payload :
      IsBuilt
        (length bytes)
        (put_payload bytes p)
        (build (length bytes) (put_payload bytes p)).0
        (build (length bytes) (put_payload bytes p)).1
  unfolding put_payload
  build-put_payload = build-IsBuilt (length bytes) (put_payload bytes p) put_payload-IsLaidOut room

-- What one read gives: the packet made of the bytes, and the packetizer for the next one.
pub record IsPacketOf (bytes : List ℕ) (p : Packetizer) (packet : IpPacket) (p' : Packetizer)
    : Type 0 where
  pub carries : payload packet ≡ done (some bytes)
  pub states : packet_length packet ≡ p.payload_index + length bytes
  pub whole : length packet.raw ≡ p.payload_index + length bytes
  pub laid_out : IsLaidOut p'
  pub same_place : p'.payload_index ≡ p.payload_index

pub build-IsPacketOf :
    (bytes : List ℕ) (p : Packetizer)
    → IsLaidOut p
    → p.payload_index + length bytes < 2 ^ 16
    → let r = build (u16 (length bytes)) (put_payload bytes p) in IsPacketOf bytes p r.0 r.1
build-IsPacketOf bytes p lay room =
    let same : u16 (length bytes) ≡ length bytes = omega arith in
    let b = build-put_payload bytes p lay room in
    rw same (record {
      carries =
          b.carries
          ∙ ap (λ x. done (some x)) (unfold put_payload in put_payload-slice bytes p lay room);
      states = b.states ∙ unfold put_payload in refl;
      whole = b.whole ∙ unfold put_payload in refl;
      laid_out = b.laid_out;
      same_place = b.same_place ∙ unfold put_payload in refl;
    })

-- Let the packetizer be laid out. If the source answers with bytes, at least one and so few that the packet fits sixteen bits, then
-- the result is a packet that carries exactly these bytes, whose header states its true length, and
-- the packetizer is laid out as before.
pub packetize_read-IsPacketOf :
    (read : ℕ → IoResult (List ℕ)) (limit : Option ℕ) (p : Packetizer) (b : ℕ) (bytes : List ℕ)
    → IsLaidOut p
    → read (chunk limit (length p.buffer - p.payload_index)) ≡ ok (b ∷ bytes)
    → p.payload_index + length (b ∷ bytes) < 2 ^ 16
    → (packet : IpPacket) × (p' : Packetizer) × (packetize_read read limit p
        ≡ (ok (some packet), p'))
      × IsPacketOf (b ∷ bytes) p packet p'
unfolding packetize_read
packetize_read-IsPacketOf read limit p b bytes lay answer room =
    let r = build (u16 (length (b ∷ bytes))) (put_payload (b ∷ bytes) p) in
    (r.0, r.1, rw answer (unfold read_answer in refl), build-IsPacketOf (b ∷ bytes) p lay room)
