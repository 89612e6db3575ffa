-- ===== src/IpPacket/Checksums.antt =====
-- Computing the checksums moves no bytes: the headers keep their lengths, and the payload is the same.
use gnirehtet.Base.{
  subst, check, ◌>>◌, done, Bool-cases, inl, inr, ℕ, ◌+◌, ◌-◌, ◌≤◌, ◌≡◌, refl, sym, ap, ◌∙◌, arith,
  List, ◌++◌, some, length, take, drop, slice, length-append, length-take, length-drop,
  length-write_u16, drop_left, append_assoc, write_u16,
}
use gnirehtet.Header.Ipv4
use gnirehtet.Header.Ip
use gnirehtet.Header.Ip.{IpHeaderData, v4, v6}
use gnirehtet.Header.Udp
use gnirehtet.Header.Tcp
use gnirehtet.Header.Tcp.{TcpHeader}
use gnirehtet.Header.Transport
use gnirehtet.Header.Transport.{TransportHeaderData, dtcp, dudp, TransportHeader, htcp, hudp}
use gnirehtet.IpPacket.{IpPacket, payload, holds_headers, bytes_behind, bind_ip, compute_checksums}

pub length-update_ip :
    (d : IpHeaderData) (raw : List ℕ)
    → length (Ip.raw (Ip.update_checksum (bind_ip d raw))) ≡ length raw
unfolding Ip.raw Ip.update_checksum bind_ip Ipv4.update_checksum
length-update_ip (v4 d) raw = length-write_u16 10 _ raw
length-update_ip (v6 d) raw = refl

finish_checksum-length :
    (pseudo n : ℕ) (bytes : List ℕ) (h : TcpHeader)
    → length (Tcp.finish_checksum pseudo n bytes h).raw ≡ length h.raw
unfolding Tcp.finish_checksum Tcp.set_checksum
finish_checksum-length pseudo n bytes h =
    length-write_u16 16 _ (write_u16 16 0 h.raw) ∙ length-write_u16 16 0 h.raw

pub length-update_transport :
    (ip : IpHeaderData) (bytes : List ℕ) (t : TransportHeaderData) (raw : List ℕ)
    → length (Transport.raw (Transport.update_checksum ip bytes (Transport.bind t raw)))
      ≡ length raw
unfolding Transport.raw Transport.update_checksum Transport.bind
length-update_transport ip bytes (dudp d) raw =
    unfold Udp.update_checksum in length-write_u16 6 0 raw
length-update_transport (v4 ip) bytes (dtcp d) raw =
    unfold Tcp.update_checksum in finish_checksum-length _ _ bytes (record { raw = raw; info = d })
length-update_transport (v6 ip) bytes (dtcp d) raw =
    unfold Tcp.update_checksum in finish_checksum-length _ _ bytes (record { raw = raw; info = d })

module _ (ip : IpHeaderData) (t : TransportHeaderData) (raw : List ℕ)
    (fits : Ip.header_length ip + Transport.header_length t ≤ length raw) where
  abbrev packet : IpPacket
  packet = record { raw = raw; ip_header_data = ip; transport_header_data = some t }

  abbrev transport_index : ℕ
  transport_index = Ip.header_length ip

  abbrev payload_index : ℕ
  payload_index = Ip.header_length ip + Transport.header_length t

  abbrev bytes : List ℕ
  bytes = drop payload_index raw

  abbrev ip_raw : List ℕ
  ip_raw = Ip.raw (Ip.update_checksum (bind_ip ip (take transport_index raw)))

  abbrev transport_raw : List ℕ
  transport_raw = Transport.raw (
      Transport.update_checksum ip bytes
        (Transport.bind t (slice transport_index payload_index raw)))

  raw-compute_checksums : (compute_checksums packet).raw ≡ ip_raw ++ (transport_raw ++ bytes)
  unfolding compute_checksums
  raw-compute_checksums = refl

  headers_fill : length (ip_raw ++ transport_raw) ≡ payload_index
  headers_fill = omega (
    arith,
    length-append ip_raw transport_raw,
    length-update_ip ip (take transport_index raw),
    length-update_transport ip bytes t (slice transport_index payload_index raw),
    length-take transport_index raw,
    length-take (payload_index - transport_index) (drop transport_index raw),
    length-drop transport_index raw,
  )

  pub bytes_behind-compute_checksums : bytes_behind (compute_checksums packet) ≡ some bytes
  unfolding bytes_behind compute_checksums
  bytes_behind-compute_checksums = ap some (
      ap (drop payload_index) (sym (append_assoc ip_raw transport_raw bytes))
      ∙ drop_left payload_index (ip_raw ++ transport_raw) bytes (sym headers_fill))

  pub length-compute_checksums : length (compute_checksums packet).raw ≡ length raw
  length-compute_checksums = rw (raw-compute_checksums) (
      omega (
        arith,
        headers_fill,
        length-append ip_raw (transport_raw ++ bytes),
        length-append transport_raw bytes,
        length-append ip_raw transport_raw,
        length-drop payload_index raw,
      ))

-- A payload that comes without a panic is the bytes behind the headers.
pub bytes_behind-payload :
    {bytes : List ℕ} (p : IpPacket) → payload p ≡ done (some bytes) → bytes_behind p ≡ some bytes
unfolding payload
bytes_behind-payload {bytes} p e = elim (Bool-cases (holds_headers p)) [
  | inl h ↦
      (let k = subst (λ b. (check b >> done (bytes_behind p)) ≡ done (some bytes)) h e in cc k)
  | inr h ↦
      (let k = subst (λ b. (check b >> done (bytes_behind p)) ≡ done (some bytes)) h e in cc k)
]
