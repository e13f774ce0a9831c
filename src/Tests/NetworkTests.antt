-- ===== src/Tests/NetworkTests.antt =====
-- The theorems about client/src/network at concrete frames and clients.
use tor_e2ee_messenger.Common.{
  ℕ, ◌≡◌, ◌≤◌, refl, true, Option, none, some, [], ◌∷◌, ◌++◌, Bytes, codes, arith, if◌then◌else◌,
  nat_eq,
}
use tor_e2ee_messenger.Network.Socks5.{connect_request_domain, connect_request_ipv4}
use tor_e2ee_messenger.Network.Socks5.Request.{
  domain, ipv4, read_request, read_request-connect_request,
}
use tor_e2ee_messenger.Network.Socks5.Tunnel.{
  Tunnel, fresh_tunnel, on_connect, on_data as on_reply, IsOrderly, Reaches-Orderly,
  begins as dials, connects as opens, receives as replies,
}
use tor_e2ee_messenger.Network.Frame.{MaskKey, raw_frame, read_frame}
use tor_e2ee_messenger.Network.Frame.RoundTrip.{read_frame-raw_frame}
use tor_e2ee_messenger.Network.Frame.Stable.{read_frame-append}
use tor_e2ee_messenger.Network.Client.{
  Client, Wire, ServerWsMessage, challenge, authenticated, connected_authenticated, begin_connect,
  finish_connect, on_data, handle_raw_data, reconnect_delay, drain, process_frame,
}
use tor_e2ee_messenger.Network.Client.Chunks.{on_data-append, handle_raw_data-rests}
use tor_e2ee_messenger.Network.Client.Session.{
  reconnect_delay-bounds, GoesOn, finish_connect-after_disconnect,
}
use tor_e2ee_messenger.Network.Client.Authenticated.{
  initial, Reachable, started, begins, connects, receives, told, Reachable-Told,
}

abbrev mask : MaskKey
mask = record { m0 = 1; m1 = 2; m2 = 3; m3 = 4 }

read_frame-raw_frame_example :
    read_frame (raw_frame 1 (104 ∷ 105 ∷ []) mask ++ 9 ∷ [])
    ≡ some (record { opcode = 1; payload = 104 ∷ 105 ∷ []; rest = 9 ∷ [] })
read_frame-raw_frame_example =
    read_frame-raw_frame 1 (104 ∷ 105 ∷ []) mask (9 ∷ [])
      (omega arith, omega arith, omega arith, omega arith) (omega arith, (omega arith, tt))
      (omega arith)

-- A text frame of one byte, as a server sends it, without a mask.
abbrev one_byte : ℕ → Bytes
one_byte x = 129 ∷ 1 ∷ x ∷ []

read_one_byte :
    read_frame (one_byte 67) ≡ some (record { opcode = 1; payload = 67 ∷ []; rest = [] })
unfolding read_frame
read_one_byte = refl

read_frame-append_example :
    read_frame (one_byte 67 ++ 129 ∷ [])
    ≡ some (record { opcode = 1; payload = 67 ∷ []; rest = 129 ∷ [] })
read_frame-append_example =
    read_frame-append (one_byte 67) (129 ∷ []) (record { opcode = 1; payload = 67 ∷ []; rest = [] })
      read_one_byte

-- A server whose messages are one byte: 67 for a challenge and 65 for the authentication.
abbrev read_code : Bytes → Option ServerWsMessage
read_code [] = none
read_code (x ∷ xs) =
    if nat_eq x 67
    then some (challenge (codes "ab"))
    else if nat_eq x 65
    then some (authenticated (codes "cd"))
    else none

abbrev wire : Wire
wire = record {
  parse = read_code;
  sign = λ hex. some hex;
  auth_reply = λ signature. signature;
  ping = codes "p";
}

abbrev connected : Client
connected = finish_connect wire [] (begin_connect wire initial).0

on_data-append_example :
    on_data wire (1 ∷ 67 ∷ one_byte 65) (on_data wire (129 ∷ []) connected)
    ≡ on_data wire (one_byte 67 ++ one_byte 65) connected
on_data-append_example = on_data-append wire (129 ∷ []) (1 ∷ 67 ∷ one_byte 65) connected

handle_raw_data-rests_example :
    read_frame (handle_raw_data wire (one_byte 67 ++ 129 ∷ []) connected).buffer ≡ none
handle_raw_data-rests_example = handle_raw_data-rests wire (one_byte 67 ++ 129 ∷ []) connected

reconnect_delay-bounds_example :
    (2000 ≤ reconnect_delay 2)
    × (reconnect_delay 2 ≤ reconnect_delay 7)
    × (reconnect_delay 7 ≤ 30000)
reconnect_delay-bounds_example = reconnect_delay-bounds 2 7 (omega arith) (omega arith)

finish_connect-after_disconnect_example : GoesOn wire initial
finish_connect-after_disconnect_example =
    finish_connect-after_disconnect wire initial (λ e. cc) (λ e. cc)

abbrev authenticated_client : Client
authenticated_client = on_data wire (one_byte 67 ++ one_byte 65) connected

reached : Reachable wire authenticated_client
reached = receives (one_byte 67 ++ one_byte 65) (connects [] (begins started))

is_authenticated : authenticated_client.state ≡ connected_authenticated
unfolding begin_connect finish_connect on_data read_frame drain process_frame
is_authenticated = refl

Reachable-Told_example : told authenticated_client.events ≡ true
Reachable-Told_example = Reachable-Told wire authenticated_client reached is_authenticated

read_request-connect_request_example :
    (read_request (connect_request_domain (codes "a.onion") 9050)
      ≡ some (domain (codes "a.onion"), 9050))
    × (read_request (connect_request_ipv4 127 0 0 1 9050) ≡ some (ipv4 127 0 0 1, 9050))
read_request-connect_request_example =
    read_request-connect_request (codes "a.onion") 127 0 0 1 9050 (omega arith) (omega arith)
      (omega arith) (omega arith) (omega arith) (omega arith)

abbrev tunnelled : Tunnel
tunnelled =
    on_reply (9 ∷ []) (5 ∷ 0 ∷ 0 ∷ 1 ∷ [])
      (on_reply (9 ∷ []) (5 ∷ 0 ∷ []) (on_connect fresh_tunnel))

Reaches-Orderly_example : IsOrderly tunnelled
Reaches-Orderly_example =
    Reaches-Orderly (9 ∷ []) tunnelled
      (replies (5 ∷ 0 ∷ 0 ∷ 1 ∷ []) (replies (5 ∷ 0 ∷ []) (opens dials)))
