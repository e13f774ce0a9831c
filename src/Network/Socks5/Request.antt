-- ===== src/Network/Socks5/Request.antt =====
-- The connect request of client/src/network/Socks5Tunnel.ts, read as RFC 1928 lays it out.
use tor_e2ee_messenger.Common.{
  ℕ, ◌+◌, ◌*◌, ◌/◌, ◌%◌, ◌<◌, ◌≡◌, ap, ◌&&◌, Option, none, some, [], ◌∷◌, Bytes, nat_eq, length,
  take, drop, take-append, drop-append, arith, if◌then◌else◌,
}
use tor_e2ee_messenger.Network.Socks5.{connect_request_ipv4, connect_request_domain}

pub data Destination : Type 0 where
  ipv4 : ℕ → ℕ → ℕ → ℕ → Destination
  domain : Bytes → Destination

abbrev read_port : Destination → Bytes → Option (Destination × ℕ)
read_port d (high ∷ low ∷ []) = some (d, high * 256 + low)
read_port d _ = none

abbrev read_address : ℕ → Bytes → Option (Destination × ℕ)
read_address kind [] = none
read_address kind (n ∷ rest) =
    if nat_eq kind 3
    then read_port (domain (take n rest)) (drop n rest)
    else if nat_eq kind 1
    then read_four (n ∷ rest)
    else none
  where
    read_four : Bytes → Option (Destination × ℕ)
    read_four (a ∷ b ∷ c ∷ d ∷ port) = read_port (ipv4 a b c d) port
    read_four _ = none

-- Version 5, command CONNECT, a reserved 0, and the address with its port.
unfoldable pub read_request : Bytes → Option (Destination × ℕ)
read_request (version ∷ command ∷ reserved ∷ kind ∷ rest) =
    if nat_eq version 5 && nat_eq command 1 && nat_eq reserved 0
    then read_address kind rest
    else none
read_request _ = none

-- A proxy that reads the request by the RFC goes to the host and the port that were asked for: a name
-- of fewer than 256 bytes, or four octets, with a port of 16 bits.
pub read_request-connect_request :
    (name : Bytes) (a b c d port : ℕ)
    → length name < 256
    → a < 256
    → b < 256
    → c < 256
    → d < 256
    → port < 65536
    → (read_request (connect_request_domain name port) ≡ some (domain name, port))
      × (read_request (connect_request_ipv4 a b c d port) ≡ some (ipv4 a b c d, port))
unfolding read_request connect_request_domain connect_request_ipv4
read_request-connect_request name a b c d port hn ha hb hc hd hp = (
  let short : length name % 256 ≡ length name = omega arith in
      rw short
        (rw (take-append name _) (rw (drop-append name _) (ap (λ n. some (domain name, n)) whole))),
  rw (small a ha) (
      rw (small b hb) (rw (small c hc) (rw (small d hd) (ap (λ n. some (ipv4 a b c d, n)) whole)))),
)
  where
    whole : ((port / 256) % 256) * 256 + port % 256 ≡ port
    whole = omega arith

    small : (x : ℕ) → x < 256 → x % 256 ≡ x
    small x h = omega arith
