-- ===== src/TcpConnection/Tunnel.antt =====
-- What the SOCKS5 proxy is asked for, and what is left of its stream.
use gnirehtet.Base.{
  ℕ, zero, suc, ◌+◌, ◌*◌, ◌/◌, ◌%◌, ◌^◌, ◌<◌, ◌≡◌, ◌⊎◌, ◌&&◌, if◌then◌else◌, ◌∙◌, refl, ap, arith,
  List, [], ◌∷◌, ◌++◌, append_assoc, Option, some, none, length, take, drop, length-append,
  take_left, drop_left, le→ltb, lt→ltb, sym, ◌==◌, ok, failed, byte_at,
}
use gnirehtet.Header.Ip.{IpAddr, ipv4, ipv6}
use gnirehtet.TcpConnection.Socks.{
  Wire, Io, ◌>>=◌, give, read_exact, write_all, be_bytes, address_bytes,
  build_socks5_connect_request, remaining_len, greeting, connect_via_socks5, is_accepted,
}

-- The number that bytes stand for, the first the highest.
from_be : ℕ → List ℕ → ℕ
from_be acc [] = acc
from_be acc (b ∷ bs) = from_be (acc * 256 + b) bs

from_be-append : (acc : ℕ) (xs ys : List ℕ) → from_be acc (xs ++ ys) ≡ from_be (from_be acc xs) ys
unfolding from_be
from_be-append acc [] ys = refl
from_be-append acc (x ∷ xs) ys = from_be-append (acc * 256 + x) xs ys

-- The number has at most so many bytes.
abbrev IsBelow : ℕ → ℕ → Type 0
IsBelow zero n = n ≡ 0
IsBelow (suc k) n = IsBelow k (n / 256)

from_be_last : (bs : List ℕ) (b : ℕ) → from_be 0 (bs ++ (b ∷ [])) ≡ from_be 0 bs * 256 + b
from_be_last bs b = from_be-append 0 bs (b ∷ []) ∙ unfold from_be in refl

from_be-be_bytes : (k n : ℕ) → IsBelow k n → from_be 0 (be_bytes k n) ≡ n
unfolding be_bytes
from_be-be_bytes zero n h = unfold from_be in omega arith
from_be-be_bytes (suc k) n h =
    from_be_last (be_bytes k (n / 256)) (n % 256) ∙ omega (arith, from_be-be_bytes k (n / 256) h)

length-be_bytes : (k n : ℕ) → length (be_bytes k n) ≡ k
unfolding be_bytes
length-be_bytes zero n = omega arith
length-be_bytes (suc k) n =
    omega (arith, length-append (be_bytes k (n / 256)) (n % 256 ∷ []), length-be_bytes k (n / 256))

-- How a proxy reads the address and the port, after RFC 1928.
read_address : ℕ → List ℕ → Option (IpAddr × ℕ)
unfolding from_be
read_address kind rest =
    if kind == 1 && length rest == 6
    then some (ipv4 (from_be 0 (take 4 rest)), from_be 0 (drop 4 rest))
    else if kind == 4 && length rest == 18
    then some (ipv6 (take 16 rest), from_be 0 (drop 16 rest))
    else none

-- How a proxy reads a request: the version, CONNECT, a byte that is not used, and the type of the address.
pub read_request : List ℕ → Option (IpAddr × ℕ)
unfolding read_address
read_request raw =
    if byte_at 0 raw == 5 && byte_at 1 raw == 1
    then read_address (byte_at 3 raw) (drop 4 raw)
    else none

-- A four-byte number, or sixteen octets.
abbrev pub IsAddress : IpAddr → Type 0
IsAddress (ipv4 a) = a < 2 ^ 32
IsAddress (ipv6 octets) = length octets ≡ 16

split_at :
    (n : ℕ) (xs ys : List ℕ) → length xs ≡ n → (take n (xs ++ ys) ≡ xs) × (drop n (xs ++ ys) ≡ ys)
split_at n xs ys e = (take_left n xs ys (omega arith), drop_left n xs ys (omega arith))

six : (a port : ℕ) → length (be_bytes 4 a ++ be_bytes 2 port) ≡ 6
six a port = omega (
  arith,
  length-append (be_bytes 4 a) (be_bytes 2 port),
  length-be_bytes 4 a,
  length-be_bytes 2 port,
)

eighteen :
    (octets : List ℕ) (port : ℕ) → length octets ≡ 16 → length (octets ++ be_bytes 2 port) ≡ 18
eighteen octets port e =
    omega (arith, length-append octets (be_bytes 2 port), length-be_bytes 2 port)

-- The request names the destination, an IPv4 or an IPv6 address and a port, as a proxy reads it.
pub read_request-build :
    (ip : IpAddr) (port : ℕ)
    → IsAddress ip
    → port < 2 ^ 16
    → read_request (build_socks5_connect_request (ip, port)) ≡ some (ip, port)
unfolding read_request build_socks5_connect_request address_bytes read_address
read_request-build (ipv4 a) port h p =
    let (front, back) = split_at 4 (be_bytes 4 a) (be_bytes 2 port) (length-be_bytes 4 a) in
    rw
      (
        six a port,
        front,
        back,
        from_be-be_bytes 4 a (omega arith),
        from_be-be_bytes 2 port (omega arith),
      )
      refl
read_request-build (ipv6 octets) port h p =
    let (front, back) = split_at 16 octets (be_bytes 2 port) h in
    rw (eighteen octets port h, front, back, from_be-be_bytes 2 port (omega arith)) refl

-- What a proxy that accepts sends before the destination's bytes: the answer to the greeting, then the reply
-- with its address type, and what stands behind it.
abbrev pub reply : ℕ → ℕ → List ℕ → List ℕ
reply reserved kind bound = 5 ∷ 0 ∷ 5 ∷ 0 ∷ reserved ∷ kind ∷ bound

abbrev pub request_of : IpAddr × ℕ → List ℕ
request_of d = greeting ++ build_socks5_connect_request d

-- The address that the proxy is bound to, of a fixed size by its type.
abbrev pub bound_size : ℕ → ℕ
bound_size kind = if kind == 1 then 6 else 18

fixed_len :
    (kind : ℕ) (w : Wire) → (kind ≡ 1) ⊎ (kind ≡ 4) → remaining_len kind w ≡ ok (bound_size kind, w)
unfolding remaining_len
fixed_len kind w h = ground arith

read_front :
    (n : ℕ) (xs ys written : List ℕ)
    → length xs ≡ n
    → read_exact n (record { incoming = xs ++ ys; written = written })
      ≡ ok (xs, record { incoming = ys; written = written })
unfolding read_exact
read_front n xs ys written e =
    let (front, back) = split_at n xs ys e in
    rw (le→ltb (length (xs ++ ys)) n (omega (arith, length-append xs ys)), front, back) refl

bind_ok :
    {A B : Type 0} (m : Io A) (f : A → Io B) (w w' : Wire) (a : A)
    → m w ≡ ok (a, w')
    → (m >>= f) w ≡ f a w'
bind_ok m f w w' a e = rw (e, ◌>>=◌) refl

abbrev finishing : ℕ → Io (Unit {0})
finishing kind = remaining_len kind >>= λ n. read_exact n >>= λ rest. give tt

handshake :
    (d : IpAddr × ℕ) (reserved kind : ℕ) (rest written : List ℕ)
    → connect_via_socks5 d (record { incoming = reply reserved kind rest; written = written })
      ≡ finishing kind (record {
        incoming = rest;
        written = (written ++ greeting) ++ build_socks5_connect_request d;
      })
unfolding connect_via_socks5 write_all is_accepted
handshake d reserved kind rest written =
    let first =
      read_front 2 (5 ∷ 0 ∷ []) (5 ∷ 0 ∷ reserved ∷ kind ∷ rest) (written ++ greeting)
        (omega arith) in
    let second =
      read_front 4 (5 ∷ 0 ∷ reserved ∷ kind ∷ []) rest
        ((written ++ greeting) ++ build_socks5_connect_request d) (omega arith) in
    bind_ok (read_exact 2) _ _ _ (5 ∷ 0 ∷ []) first
    ∙ bind_ok (read_exact 4) _ _ _ (5 ∷ 0 ∷ reserved ∷ kind ∷ []) second

finishing_fixed :
    (kind : ℕ) (bound tunnel written : List ℕ)
    → (kind ≡ 1) ⊎ (kind ≡ 4)
    → length bound ≡ bound_size kind
    → finishing kind (record { incoming = bound ++ tunnel; written = written })
      ≡ ok (tt, record { incoming = tunnel; written = written })
finishing_fixed kind bound tunnel written h e =
    let size = fixed_len kind (record { incoming = bound ++ tunnel; written = written }) h in
    let front = read_front (bound_size kind) bound tunnel written e in
    bind_ok (remaining_len kind) _ _ _ (bound_size kind) size
    ∙ bind_ok (read_exact (bound_size kind)) _ _ _ bound front

-- A bound address that is a name: its length, then so many bytes, then the port.
named_len :
    (n : ℕ) (rest written : List ℕ)
    → remaining_len 3 (record { incoming = n ∷ rest; written = written })
      ≡ ok (n + 1 + 2, record { incoming = rest; written = written })
unfolding remaining_len
named_len n rest written =
    let front = read_front 1 (n ∷ []) rest written (omega arith) in
    bind_ok (read_exact 1) _ _ _ (n ∷ []) front

-- A proxy that accepts and gives the address that it is bound to by four or sixteen bytes, with two of the
-- port, is sent the greeting and the request, and exactly the destination's bytes are left.
pub connect_via_socks5-left :
    (d : IpAddr × ℕ) (reserved kind : ℕ) (bound tunnel : List ℕ)
    → (kind ≡ 1) ⊎ (kind ≡ 4)
    → length bound ≡ bound_size kind
    → connect_via_socks5 d
        (record { incoming = reply reserved kind (bound ++ tunnel); written = [] })
      ≡ ok (tt, record { incoming = tunnel; written = request_of d })
connect_via_socks5-left d reserved kind bound tunnel h e =
    handshake d reserved kind (bound ++ tunnel) []
    ∙ finishing_fixed kind bound tunnel (request_of d) h e

read_short : (n : ℕ) (w : Wire) → length w.incoming < n → read_exact n w ≡ failed
unfolding read_exact
read_short n w h = rw (lt→ltb (length w.incoming) n h) refl

bind_failed :
    {A B : Type 0} (m : Io A) (f : A → Io B) (w : Wire) → m w ≡ failed → (m >>= f) w ≡ failed
bind_failed m f w e = rw (e, ◌>>=◌) refl

-- A proxy that accepts and gives the address that it is bound to by a name of any length, with two bytes of the
-- port, is read for one byte too many: the first byte of the destination is lost, and where
-- the destination has sent none when its stream ends, the opening fails.
pub connect_via_socks5_name :
    (d : IpAddr × ℕ) (reserved n b : ℕ) (bound tunnel : List ℕ)
    → length bound ≡ n + 2
    → (connect_via_socks5 d
          (record { incoming = reply reserved 3 (n ∷ (bound ++ (b ∷ tunnel))); written = [] })
        ≡ ok (tt, record { incoming = tunnel; written = request_of d }))
      × (connect_via_socks5 d (record { incoming = reply reserved 3 (n ∷ bound); written = [] })
          ≡ failed)
connect_via_socks5_name d reserved n b bound tunnel e =
    let w = request_of d in
    let split : bound ++ (b ∷ tunnel) ≡ (bound ++ (b ∷ [])) ++ tunnel =
      sym (append_assoc bound (b ∷ []) tunnel) in
    let front =
      read_front (n + 1 + 2) (bound ++ (b ∷ [])) tunnel w
        (omega (arith, length-append bound (b ∷ []))) in
    (
      handshake d reserved 3 (n ∷ (bound ++ (b ∷ tunnel))) []
          ∙ bind_ok (remaining_len 3) _ _ _ (n + 1 + 2) (named_len n (bound ++ (b ∷ tunnel)) w)
          ∙ bind_ok (read_exact (n + 1 + 2)) _ _ _ (bound ++ (b ∷ [])) (
              ap (λ xs. read_exact (n + 1 + 2) (record { incoming = xs; written = w })) split
              ∙ front),
      handshake d reserved 3 (n ∷ bound) []
          ∙ bind_ok (remaining_len 3) _ _ _ (n + 1 + 2) (named_len n bound w)
          ∙ bind_failed (read_exact (n + 1 + 2)) _ _ (read_short (n + 1 + 2) _ (omega arith)),
    )
