-- ===== src/Examples/Proxy.antt =====
-- The SOCKS5 proxy at concrete inputs.
use gnirehtet.Base.{ℕ, ◌≡◌, refl, arith, List, [], ◌∷◌, ◌++◌, some, ok, failed, inl}
use gnirehtet.Header.Ip.{IpAddr, ipv4}
use gnirehtet.TcpConnection.Socks.{build_socks5_connect_request, connect_via_socks5}
use gnirehtet.TcpConnection.Tunnel.{
  read_request, reply, request_of, read_request-build, connect_via_socks5-left,
  connect_via_socks5_name,
}

abbrev destination : IpAddr × ℕ
destination = (ipv4 0x08080404, 443)

read_request-build_example :
    read_request (build_socks5_connect_request destination) ≡ some destination
read_request-build_example = read_request-build (ipv4 0x08080404) 443 (omega arith) (omega arith)

-- The proxy is bound to 10.0.0.1:1080, and the destination has sent two bytes.
abbrev bound : List ℕ
bound = 10 ∷ 0 ∷ 0 ∷ 1 ∷ 4 ∷ 56 ∷ []

connect_via_socks5-left_example :
    connect_via_socks5 destination
      (record { incoming = reply 0 1 (bound ++ (7 ∷ 8 ∷ [])); written = [] })
    ≡ ok (tt, record { incoming = 7 ∷ 8 ∷ []; written = request_of destination })
connect_via_socks5-left_example =
    connect_via_socks5-left destination 0 1 bound (7 ∷ 8 ∷ []) (inl refl) refl

-- The proxy is bound to the name `px`, port 1080.
abbrev named : List ℕ
named = b'p' ∷ b'x' ∷ 4 ∷ 56 ∷ []

connect_via_socks5_name_example :
    (connect_via_socks5 destination
        (record { incoming = reply 0 3 (2 ∷ (named ++ (7 ∷ 8 ∷ []))); written = [] })
      ≡ ok (tt, record { incoming = 8 ∷ []; written = request_of destination }))
    × (connect_via_socks5 destination (record { incoming = reply 0 3 (2 ∷ named); written = [] })
        ≡ failed)
connect_via_socks5_name_example = connect_via_socks5_name destination 0 2 7 named (8 ∷ []) refl
