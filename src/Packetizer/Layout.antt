-- ===== src/Packetizer/Layout.antt =====
-- The layout of the packetizer's buffer: IP header, transport header, payload.
use gnirehtet.Base.{
  ℕ, ◌+◌, ◌<◌, ◌^◌, ◌≡◌, refl, sym, ap, ◌∙◌, arith, List, length, drop, length-splice,
  length-write_u16, drop-splice_low,
}
use gnirehtet.Header.Ip
use gnirehtet.Header.Ip.{IpHeaderData, v4, v6, IpHeader, h4, h6}
use gnirehtet.Header.Transport
use gnirehtet.Header.Transport.{TransportHeaderData, dtcp, dudp, TransportHeader, htcp, hudp}
use gnirehtet.IpPacket.{bind_ip}
use gnirehtet.Packetizer.{Packetizer, max_packet_length, put_ip_header, put_transport_header}

-- The indices are those of the headers, and both headers lie in the buffer.
pub record IsLaidOut (p : Packetizer) : Type 0 where
  pub full : length p.buffer ≡ max_packet_length
  pub transport_at : p.transport_index ≡ Ip.header_length p.ip_header_data
  pub payload_at :
      p.payload_index ≡ p.transport_index + Transport.header_length p.transport_header_data
  pub fits : p.payload_index < max_packet_length

-- Setting the lengths leaves the headers' sizes as they are.
pub set_total_length-sizes :
    (n : ℕ) (d : IpHeaderData) (raw : List ℕ)
    → let h = Ip.set_total_length n (bind_ip d raw) in
      (length (Ip.raw h) ≡ length raw) × (Ip.header_length (Ip.data_clone h) ≡ Ip.header_length d)
unfolding Ip.set_total_length Ip.raw Ip.data_clone Ip.header_length bind_ip
set_total_length-sizes n (v4 d) raw = (length-write_u16 2 n raw, refl)
set_total_length-sizes n (v6 d) raw = (length-write_u16 4 _ raw, refl)

pub set_total_length-total :
    (n : ℕ) (d : IpHeaderData) (raw : List ℕ)
    → n < 2 ^ 16
    → Ip.total_length (Ip.data_clone (Ip.set_total_length n (bind_ip d raw))) ≡ n
unfolding Ip.set_total_length Ip.data_clone Ip.total_length bind_ip
set_total_length-total n (v4 d) raw h = refl
set_total_length-total n (v6 d) raw h = omega arith

pub set_payload_length-sizes :
    (n : ℕ) (t : TransportHeaderData) (raw : List ℕ)
    → let h = Transport.set_payload_length n (Transport.bind t raw) in
      (length (Transport.raw h) ≡ length raw)
      × (Transport.header_length (Transport.data_clone h) ≡ Transport.header_length t)
unfolding Transport.set_payload_length Transport.raw Transport.data_clone Transport.header_length
    Transport.bind
set_payload_length-sizes n (dtcp d) raw = (refl, refl)
set_payload_length-sizes n (dudp d) raw = (length-write_u16 4 _ raw, refl)

-- A header of the right size that is put back.
pub put_ip_header-IsLaidOut :
    (h : IpHeader) (p : Packetizer)
    → IsLaidOut p
    → length (Ip.raw h) ≡ p.transport_index
    → Ip.header_length (Ip.data_clone h) ≡ p.transport_index
    → IsLaidOut (put_ip_header h p)
      × (drop p.payload_index (put_ip_header h p).buffer ≡ drop p.payload_index p.buffer)
unfolding put_ip_header
put_ip_header-IsLaidOut h p lay size same = (
  record {
    full =
        length-splice 0 (Ip.raw h) p.buffer (omega (arith, lay.full, lay.fits, lay.payload_at))
        ∙ lay.full;
    transport_at = sym same;
    payload_at = lay.payload_at;
    fits = lay.fits;
  },
  drop-splice_low p.buffer (Ip.raw h) p.payload_index 0 (omega (arith, lay.payload_at))
      (omega (arith, lay.full, lay.fits)),
)

pub put_transport_header-IsLaidOut :
    (h : TransportHeader) (p : Packetizer)
    → IsLaidOut p
    → p.transport_index + length (Transport.raw h) ≡ p.payload_index
    → Transport.header_length (Transport.data_clone h)
      ≡ Transport.header_length p.transport_header_data
    → IsLaidOut (put_transport_header h p)
      × (drop p.payload_index (put_transport_header h p).buffer ≡ drop p.payload_index p.buffer)
unfolding put_transport_header
put_transport_header-IsLaidOut h p lay size same = (
  record {
    full =
        length-splice p.transport_index (Transport.raw h) p.buffer
          (omega (arith, lay.full, lay.fits))
        ∙ lay.full;
    transport_at = lay.transport_at;
    payload_at = lay.payload_at ∙ ap (λ k. p.transport_index + k) (sym same);
    fits = lay.fits;
  },
  drop-splice_low p.buffer (Transport.raw h) p.payload_index p.transport_index (omega arith)
      (omega (arith, lay.full, lay.fits)),
)
