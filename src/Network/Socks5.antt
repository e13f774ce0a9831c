-- ===== src/Network/Socks5.antt =====
-- The packets of client/src/network/Socks5Tunnel.ts. A `Uint8Array` keeps a number modulo 256. Of a
-- host, a text of code units, `is_ipv4` and `parts_of` tell what the regular expression and `split`
-- read; the caller gives the UTF-8 bytes of a domain.
pub mod Request
pub mod Tunnel
use tor_e2ee_messenger.Common.{
  ℕ, ◌/◌, ◌%◌, [], ◌∷◌, ◌++◌, Bytes, nat_eq, length, not, if◌then◌else◌,
}
use tor_e2ee_messenger.Common.Result.{Result, ok, err}

pub data Socks5Error : Type 0 where
  invalid_auth_length invalid_connect_length : Socks5Error
  unsupported_version unsupported_reply_version auth_required : ℕ → Socks5Error
  refused : ℕ → Socks5Error

abbrev pub socks_version : ℕ
socks_version = 5

abbrev pub auth_none : ℕ
auth_none = 0

abbrev pub cmd_connect : ℕ
cmd_connect = 1

abbrev pub rsv : ℕ
rsv = 0

abbrev pub atyp_ipv4 : ℕ
atyp_ipv4 = 1

abbrev pub atyp_domainname : ℕ
atyp_domainname = 3

-- What an assignment to an element of a Uint8Array stores.
abbrev pub to_byte : ℕ → ℕ
to_byte n = n % 256

unfoldable pub build_auth_request : Bytes
build_auth_request = socks_version ∷ 1 ∷ auth_none ∷ []

unfoldable pub verify_auth_response : Bytes → Result Socks5Error (Unit {0})
verify_auth_response [] = err invalid_auth_length
verify_auth_response (v ∷ []) = err invalid_auth_length
verify_auth_response (v ∷ m ∷ rest) =
    if not (nat_eq v socks_version)
    then err (unsupported_version v)
    else if not (nat_eq m auth_none)
    then err (auth_required m)
    else ok tt

-- The packet for a host that is an IPv4 address in four numbers, of one to three digits each.
unfoldable pub connect_request_ipv4 : ℕ → ℕ → ℕ → ℕ → ℕ → Bytes
connect_request_ipv4 a b c d port =
    socks_version
    ∷ cmd_connect
    ∷ rsv
    ∷ atyp_ipv4
    ∷ to_byte a
    ∷ to_byte b
    ∷ to_byte c
    ∷ to_byte d
    ∷ ((port / 256) % 256)
    ∷ (port % 256)
    ∷ []

-- The packet for any other host, of the bytes of its name.
unfoldable pub connect_request_domain : Bytes → ℕ → Bytes
connect_request_domain domain port =
    socks_version
    ∷ cmd_connect
    ∷ rsv
    ∷ atyp_domainname
    ∷ to_byte (length domain)
    ∷ (domain ++ ((port / 256) % 256) ∷ (port % 256) ∷ [])

unfoldable pub verify_connect_response : Bytes → Result Socks5Error (Unit {0})
verify_connect_response (v ∷ reply ∷ x ∷ y ∷ rest) =
    if not (nat_eq v socks_version)
    then err (unsupported_reply_version v)
    else if not (nat_eq reply 0)
    then err (refused reply)
    else ok tt
verify_connect_response _ = err invalid_connect_length
