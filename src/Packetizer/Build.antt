-- ===== src/Packetizer/Build.antt =====
-- The packets that `build` makes.
use gnirehtet.Base.{
  true, done, le→leb, ℕ, ◌+◌, ◌-◌, ◌≤◌, ◌<◌, ◌^◌, ◌≡◌, refl, sym, ap, ◌∙◌, arith, List, some,
  length, take, drop, slice, length-take, length-drop, length-splice, u16, drop-take,
}
use gnirehtet.Header.Ip
use gnirehtet.Header.Ip.{IpHeaderData, v4, v6, IpHeader, h4, h6}
use gnirehtet.Header.Transport
use gnirehtet.Header.Transport.{TransportHeaderData, dtcp, dudp, TransportHeader, htcp, hudp}
use gnirehtet.IpPacket.{
  IpPacket, payload, bytes_behind, holds_headers, packet_length, compute_checksums,
}
use gnirehtet.IpPacket.Checksums.{bytes_behind-compute_checksums, length-compute_checksums}
use gnirehtet.Packetizer.{
  Packetizer, max_packet_length, ip_header, transport_header, put_ip_header, put_transport_header,
  build, set_lengths, inflate,
}
use gnirehtet.Packetizer.Layout.{
  IsLaidOut, set_total_length-sizes, set_total_length-total, set_payload_length-sizes,
  put_ip_header-IsLaidOut, put_transport_header-IsLaidOut,
}

module _ (n : ℕ) (p : Packetizer) (lay : IsLaidOut p) where
  abbrev total : ℕ
  total = u16 (p.payload_index + n)

  abbrev with_total : Packetizer
  with_total = put_ip_header (Ip.set_total_length total (ip_header p)) p

  ip_sizes :
      (length (Ip.raw (Ip.set_total_length total (ip_header p))) ≡ p.transport_index)
      × (Ip.header_length (Ip.data_clone (Ip.set_total_length total (ip_header p)))
          ≡ p.transport_index)
  unfolding ip_header
  ip_sizes =
      let s = set_total_length-sizes total p.ip_header_data (take p.transport_index p.buffer) in
      (
        s.0
            ∙ omega
                (arith, length-take p.transport_index p.buffer, lay.full, lay.payload_at, lay.fits),
        s.1 ∙ sym lay.transport_at,
      )

  step1 :
      IsLaidOut with_total
      × (drop p.payload_index with_total.buffer ≡ drop p.payload_index p.buffer)
  step1 =
      put_ip_header-IsLaidOut (Ip.set_total_length total (ip_header p)) p lay ip_sizes.0 ip_sizes.1

  same_indices :
      (with_total.transport_index ≡ p.transport_index)
      × (with_total.payload_index ≡ p.payload_index)
      × (with_total.transport_header_data ≡ p.transport_header_data)
  unfolding put_ip_header
  same_indices = (refl, refl, refl)

  transport_sizes :
      (with_total.transport_index
          + length (Transport.raw (Transport.set_payload_length n (transport_header with_total)))
        ≡ with_total.payload_index)
      × (Transport.header_length
            (Transport.data_clone (Transport.set_payload_length n (transport_header with_total)))
          ≡ Transport.header_length with_total.transport_header_data)
  unfolding transport_header
  transport_sizes =
      let s =
        set_payload_length-sizes n with_total.transport_header_data
          (slice with_total.transport_index with_total.payload_index with_total.buffer) in
      (
        omega (
          arith,
          s.0,
          step1.0.full,
          step1.0.fits,
          step1.0.payload_at,
          length-take (with_total.payload_index - with_total.transport_index)
              (drop with_total.transport_index with_total.buffer),
          length-drop with_total.transport_index with_total.buffer,
        ),
        s.1,
      )

  untouched :
      drop p.payload_index
          (put_transport_header
            (Transport.set_payload_length n (transport_header with_total))
            with_total).buffer
        ≡ drop p.payload_index with_total.buffer
      → drop p.payload_index
          (put_transport_header
            (Transport.set_payload_length n (transport_header with_total))
            with_total).buffer
        ≡ drop p.payload_index p.buffer
  untouched e = e ∙ step1.1

  pub set_lengths-IsLaidOut :
      IsLaidOut (set_lengths n p)
      × ((set_lengths n p).payload_index ≡ p.payload_index)
      × (drop p.payload_index (set_lengths n p).buffer ≡ drop p.payload_index p.buffer)
  unfolding set_lengths
  set_lengths-IsLaidOut =
      let s =
        put_transport_header-IsLaidOut
          (Transport.set_payload_length n (transport_header with_total)) with_total step1.0
          transport_sizes.0 transport_sizes.1 in
      (
        s.0,
        unfold put_transport_header put_ip_header in refl,
        untouched (unfold put_ip_header in s.1),
      )

  set_lengths-total : Ip.total_length (set_lengths n p).ip_header_data ≡ total
  unfolding set_lengths put_transport_header put_ip_header ip_header
  set_lengths-total =
      set_total_length-total total p.ip_header_data (take p.transport_index p.buffer) (omega arith)

  module _ (room : p.payload_index + n < 2 ^ 16) where
    abbrev ready : Packetizer
    ready = set_lengths n p

    lay' : IsLaidOut ready
    lay' = set_lengths-IsLaidOut.0

    at' :
        ready.payload_index
        ≡ Ip.header_length ready.ip_header_data
          + Transport.header_length ready.transport_header_data
    at' =
        lay'.payload_at
        ∙ ap (λ k. k + Transport.header_length ready.transport_header_data) lay'.transport_at

    front : List ℕ
    front = take total ready.buffer

    length-front : length (take total ready.buffer) ≡ p.payload_index + n
    length-front = omega (arith, length-take total ready.buffer, lay'.full)

    fits' :
        Ip.header_length ready.ip_header_data + Transport.header_length ready.transport_header_data
        ≤ length (take total ready.buffer)
    fits' = omega (arith, length-front, at', set_lengths-IsLaidOut.1)

    here :
        Ip.header_length ready.ip_header_data + Transport.header_length ready.transport_header_data
        ≡ p.payload_index
    here = sym at' ∙ set_lengths-IsLaidOut.1

    amount : total - p.payload_index ≡ p.payload_index + n - p.payload_index
    amount = omega arith

    carried :
        drop
          (Ip.header_length ready.ip_header_data
            + Transport.header_length ready.transport_header_data)
          (take total ready.buffer)
        ≡ slice p.payload_index (p.payload_index + n) p.buffer
    carried =
        ap (λ k. drop k (take total ready.buffer)) here
        ∙ drop-take p.payload_index total ready.buffer
        ∙ ap (take (total - p.payload_index)) set_lengths-IsLaidOut.2
        ∙ ap (λ k. take k (drop p.payload_index p.buffer)) amount

    bytes_behind-build :
        bytes_behind (build n p).0 ≡ some (slice p.payload_index (p.payload_index + n) p.buffer)
    unfolding build inflate
    bytes_behind-build =
        bytes_behind-compute_checksums ready.ip_header_data ready.transport_header_data
          (take total ready.buffer) fits'
        ∙ ap some carried

    build-total : packet_length (build n p).0 ≡ p.payload_index + n
    unfolding build inflate compute_checksums packet_length
    build-total = set_lengths-total ∙ omega arith

    build-length : length (build n p).0.raw ≡ p.payload_index + n
    unfolding build inflate
    build-length =
        length-compute_checksums ready.ip_header_data ready.transport_header_data
          (take total ready.buffer) fits'
        ∙ length-front

    holds_headers-build : holds_headers (build n p).0 ≡ true
    unfolding build inflate compute_checksums holds_headers
    holds_headers-build = le→leb _ _ (omega (arith, build-length, fits', length-front))

    payload-build :
        payload (build n p).0 ≡ done (some (slice p.payload_index (p.payload_index + n) p.buffer))
    unfolding payload
    payload-build = rw (holds_headers-build, bytes_behind-build) refl

    build-buffer : length (build n p).1.buffer ≡ max_packet_length
    unfolding build
    build-buffer =
        length-splice 0 (build n p).0.raw ready.buffer
          (omega (arith, build-length, lay'.full, room))
        ∙ lay'.full

-- What `build` promises for `n` bytes that stand behind the headers.
pub record IsBuilt (n : ℕ) (p : Packetizer) (packet : IpPacket) (p' : Packetizer) : Type 0 where
  pub carries : payload packet ≡ done (some (slice p.payload_index (p.payload_index + n) p.buffer))
  pub states : packet_length packet ≡ p.payload_index + n
  pub whole : length packet.raw ≡ p.payload_index + n
  pub laid_out : IsLaidOut p'
  pub same_place : p'.payload_index ≡ p.payload_index

-- Let the packetizer be laid out. If headers and payload together fit sixteen bits, the packet carries exactly the bytes behind the
-- headers, its header states its true length, and the packetizer is laid out as before.
pub build-IsBuilt :
    (n : ℕ) (p : Packetizer)
    → IsLaidOut p
    → p.payload_index + n < 2 ^ 16
    → IsBuilt n p (build n p).0 (build n p).1
build-IsBuilt n p lay room = record {
  carries = payload-build n p lay room;
  states = build-total n p lay room;
  whole = build-length n p lay room;
  laid_out =
      unfold build in
      record {
        full = build-buffer n p lay room;
        transport_at = (set_lengths-IsLaidOut n p lay).0.transport_at;
        payload_at = (set_lengths-IsLaidOut n p lay).0.payload_at;
        fits = (set_lengths-IsLaidOut n p lay).0.fits;
      };
  same_place = unfold build in (set_lengths-IsLaidOut n p lay).1;
}
