-- ===== src/TcpConnection/Socks.antt =====
-- The opening of a connection through a SOCKS5 proxy. The proxy's bytes are what is read, to the end of
-- its stream.
use gnirehtet.Base.{
  ℕ, zero, suc, ◌+◌, ◌/◌, ◌%◌, Bool, true, false, ◌&&◌, List, [], ◌∷◌, ◌++◌, length, take, drop,
  ltb, ◌==◌, byte_at, if◌then◌else◌, IoResult, ok, would_block, failed,
}
use gnirehtet.Header.Ip.{IpAddr, ipv4, ipv6}

-- The bytes that are to come, and those that were written.
pub record Wire : Type 0 where
  pub incoming : List ℕ
  pub written : List ℕ

abbrev pub Io : Type 0 → Type 0
Io A = Wire → IoResult (A × Wire)

infixl 5 ◌>>=◌ ◌>>◌
abbrev pub ◌>>=◌ : {A B : Type 0} → Io A → (A → Io B) → Io B
◌>>=◌ m f w = elim (m w) [ ok (a, w') ↦ f a w' | would_block ↦ would_block | failed ↦ failed ]

abbrev pub ◌>>◌ : {A B : Type 0} → Io A → Io B → Io B
m >> k = m >>= λ _. k

abbrev pub give : {A : Type 0} → A → Io A
give a w = ok (a, w)

abbrev pub refuse : {A : Type 0} → Io A
refuse w = failed

unfoldable pub write_all : List ℕ → Io (Unit {0})
write_all bytes w = ok (tt, record w { written = w.written ++ bytes })

-- The end of the stream is an error.
unfoldable pub read_exact : ℕ → Io (List ℕ)
read_exact n w =
    if ltb (length w.incoming) n
    then failed
    else ok (take n w.incoming, record w { incoming = drop n w.incoming })

-- `octets` and `to_be_bytes`.
unfoldable pub be_bytes : ℕ → ℕ → List ℕ
be_bytes zero n = []
be_bytes (suc k) n = be_bytes k (n / 256) ++ (n % 256 ∷ [])

unfoldable pub address_bytes : IpAddr → List ℕ
address_bytes (ipv4 a) = 1 ∷ be_bytes 4 a
address_bytes (ipv6 octets) = 4 ∷ octets

unfoldable pub build_socks5_connect_request : IpAddr × ℕ → List ℕ
unfolding address_bytes
build_socks5_connect_request (ip, port) = 5 ∷ 1 ∷ 0 ∷ (address_bytes ip ++ be_bytes 2 port)

-- The bytes of the reply that are left after its address type.
unfoldable pub remaining_len : ℕ → Io ℕ
remaining_len addr_type =
    if addr_type == 1
    then give 6
    else if addr_type == 3
    then (read_exact 1 >>= λ len_byte. give (byte_at 0 len_byte + 1 + 2))
    else if addr_type == 4
    then give 18
    else refuse

abbrev pub greeting : List ℕ
greeting = 5 ∷ 1 ∷ 0 ∷ []

-- Fails unless the test holds.
abbrev pub expect : Bool → Io (Unit {0})
expect true = give tt
expect false = refuse

-- What the code tests of the answer to the greeting.
unfoldable pub is_accepted : List ℕ → Bool
is_accepted response = byte_at 0 response == 5 && byte_at 1 response == 0

-- `connect_via_socks5`, once the stream to the proxy is open.
unfoldable pub connect_via_socks5 : IpAddr × ℕ → Io (Unit {0})
connect_via_socks5 destination = do
  write_all greeting
  response ← read_exact 2
  expect (is_accepted response)
  write_all (build_socks5_connect_request destination)
  reply ← read_exact 4
  expect (is_accepted reply)
  n ← remaining_len (byte_at 3 reply)
  rest ← read_exact n
  give tt
