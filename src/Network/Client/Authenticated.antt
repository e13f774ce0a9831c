-- ===== src/Network/Client/Authenticated.antt =====
-- What a run of client/src/network/TorWebSocketClient.ts can reach: every method and callback is a step.
use tor_e2ee_messenger.Common.{
  ℕ, zero, suc, ◌≡◌, refl, Bool, true, false, Option, none, some, List, [], ◌∷◌, ◌++◌, Bytes, Text,
  arith,
}
use tor_e2ee_messenger.Network.Frame.{Frame, read_frame}
use tor_e2ee_messenger.Network.Client.{
  Client, Wire, WsClientState, disconnected, connecting, awaiting_challenge, authenticating,
  connected_authenticated, reconnecting, closed, begin_connect, finish_connect, disconnect,
  on_close, on_data, handle_server_message, ServerWsMessage, challenge, authenticated, message,
  pong, other, server_error, handle_server_challenge, handle_text_message, process_frame, drain,
  drain_all, handle_raw_data, handle_connection_failure, ping_tick, Event, on_authenticated,
  on_state_change, on_message, on_server_error, on_error, on_disconnect,
}

-- No connection yet.
abbrev pub initial : Client
initial = record {
  state = disconnected;
  socket = false;
  auto_reconnect = true;
  reconnect_attempts = 0;
  reconnect_timer = none;
  ping_timer = false;
  buffer = [];
  written = [];
  events = [];
}

pub data Reachable (wire : Wire) : Client → Type 0 where
  started : Reachable wire initial
  begins : {c : Client} → Reachable wire c → Reachable wire (begin_connect wire c).0
  connects :
      {c : Client} (leftover : Bytes)
      → Reachable wire c
      → Reachable wire (finish_connect wire leftover c)
  fails : {c : Client} → Reachable wire c → Reachable wire (handle_connection_failure c)
  receives : {c : Client} (chunk : Bytes) → Reachable wire c → Reachable wire (on_data wire chunk c)
  pings : {c : Client} → Reachable wire c → Reachable wire (ping_tick wire c)
  closes : {c : Client} → Reachable wire c → Reachable wire (on_close c)
  hangs_up : {c : Client} → Reachable wire c → Reachable wire (disconnect c)

-- `onAuthenticated` was called.
unfoldable pub told : List Event → Bool
told [] = false
told (on_authenticated hash ∷ es) = true
told (on_state_change s ∷ es) = told es
told (on_message payload nonce created_at ∷ es) = told es
told (on_server_error text ∷ es) = told es
told (on_error ∷ es) = told es
told (on_disconnect ∷ es) = told es

told-append : (es fs : List Event) → told es ≡ true → told (es ++ fs) ≡ true
unfolding told
told-append [] fs h = cc
told-append (on_authenticated hash ∷ es) fs h = refl
told-append (on_state_change s ∷ es) fs h = told-append es fs h
told-append (on_message payload nonce created_at ∷ es) fs h = told-append es fs h
told-append (on_server_error text ∷ es) fs h = told-append es fs h
told-append (on_error ∷ es) fs h = told-append es fs h
told-append (on_disconnect ∷ es) fs h = told-append es fs h

told-last : (es : List Event) (hash : Text) → told (es ++ on_authenticated hash ∷ []) ≡ true
unfolding told
told-last [] hash = refl
told-last (on_authenticated h ∷ es) hash = refl
told-last (on_state_change s ∷ es) hash = told-last es hash
told-last (on_message payload nonce created_at ∷ es) hash = told-last es hash
told-last (on_server_error text ∷ es) hash = told-last es hash
told-last (on_error ∷ es) hash = told-last es hash
told-last (on_disconnect ∷ es) hash = told-last es hash

abbrev pub Told : Client → Type 0
Told c = c.state ≡ connected_authenticated → told c.events ≡ true

failure-Told : (c : Client) → Told (handle_connection_failure c)
unfolding handle_connection_failure
failure-Told c = ground arith

on_close-state :
    (s : WsClientState) (c : Client)
    → Told (record c { state = s })
    → Told (on_close (record c { state = s }))
unfolding on_close
on_close-state disconnected c h = h
on_close-state connecting c h = ground arith
on_close-state awaiting_challenge c h = ground arith
on_close-state authenticating c h = ground arith
on_close-state connected_authenticated c h = ground arith
on_close-state reconnecting c h = ground arith
on_close-state closed c h = h

on_close-Told : (c : Client) → Told c → Told (on_close c)
on_close-Told c h = on_close-state c.state c h

hang_up-Told : (c : Client) → Told (disconnect c)
unfolding disconnect
hang_up-Told c e = cc

module _ (wire : Wire) where
  ping-Told : (c : Client) → Told c → Told (ping_tick wire c)
  unfolding ping_tick
  ping-Told c h = ground arith

  begin-state :
      (s : WsClientState) (c : Client)
      → Told (record c { state = s })
      → Told (begin_connect wire (record c { state = s })).0
  unfolding begin_connect
  begin-state disconnected c h = ground arith
  begin-state connecting c h = h
  begin-state awaiting_challenge c h = ground arith
  begin-state authenticating c h = ground arith
  begin-state connected_authenticated c h = h
  begin-state reconnecting c h = ground arith
  begin-state closed c h = ground arith

  begin-Told : (c : Client) → Told c → Told (begin_connect wire c).0
  begin-Told c h = begin-state c.state c h

  challenge-Told : (hex : Text) (c : Client) → Told (handle_server_challenge wire hex c)
  unfolding handle_server_challenge
  challenge-Told hex c = ground arith

  message-Told : (m : ServerWsMessage) (c : Client) → Told c → Told (handle_server_message wire m c)
  unfolding handle_server_message
  message-Told (challenge hex) c h = challenge-Told hex c
  message-Told (authenticated hash) c h = λ e. told-last _ hash
  message-Told (message payload nonce created_at) c h = λ e. told-append _ _ (h e)
  message-Told pong c h = h
  message-Told other c h = h
  message-Told (server_error text) c h = λ e. told-append _ _ (h e)

  text-Told : (payload : Bytes) (c : Client) → Told c → Told (handle_text_message wire payload c)
  unfolding handle_text_message
  text-Told payload c h = parsed (wire.parse payload)
    where
      parsed :
          (m : Option ServerWsMessage)
          → Told (elim m [ none ↦ c | some x ↦ handle_server_message wire x c ])
      parsed none = h
      parsed (some x) = message-Told x c h

  process_frame-Told :
      (opcode : ℕ) (payload : Bytes) (c : Client)
      → Told c
      → Told (process_frame wire opcode payload c)
  unfolding process_frame
  process_frame-Told opcode payload c h e = ground (arith, text-Told payload c h)

  drain-Told : (fuel : ℕ) (c : Client) → Told c → Told (drain wire fuel c)
  unfolding drain
  drain-Told zero c h = h
  drain-Told (suc fuel) c h = whole (λ d k. drain-Told fuel d k) (read_frame c.buffer)
    where
      whole :
          ((d : Client) → Told d → Told (drain wire fuel d))
          → (f : Option Frame)
          → Told (elim f [
            | none ↦ c
            | some x ↦
                drain wire fuel
                  (process_frame wire x.opcode x.payload (record c { buffer = x.rest }))
          ])
      whole later none = h
      whole later (some x) = later _ (process_frame-Told x.opcode x.payload _ h)

  handle-Told : (chunk : Bytes) (c : Client) → Told c → Told (handle_raw_data wire chunk c)
  unfolding handle_raw_data drain_all
  handle-Told chunk c h = drain-Told _ _ h

  data-Told : (chunk : Bytes) (c : Client) → Told c → Told (on_data wire chunk c)
  unfolding on_data
  data-Told chunk c h e = ground (arith, handle-Told chunk c h)

  finish-Told : (leftover : Bytes) (c : Client) → Told (finish_connect wire leftover c)
  unfolding finish_connect
  finish-Told [] c = λ e. cc
  finish-Told (b ∷ leftover) c = handle-Told (b ∷ leftover) _ (λ e. cc)

  -- In every run of the methods and callbacks, in whatever order: a client that is in the state
  -- CONNECTED_AUTHENTICATED has called `onAuthenticated`.
  pub Reachable-Told :
      (c : Client) → Reachable wire c → c.state ≡ connected_authenticated → told c.events ≡ true
  Reachable-Told _ started = λ e. cc
  Reachable-Told _ (begins r) = begin-Told _ (Reachable-Told _ r)
  Reachable-Told _ (connects leftover r) = finish-Told leftover _
  Reachable-Told _ (fails r) = failure-Told _
  Reachable-Told _ (receives chunk r) = data-Told chunk _ (Reachable-Told _ r)
  Reachable-Told _ (pings r) = ping-Told _ (Reachable-Told _ r)
  Reachable-Told _ (closes r) = on_close-Told _ (Reachable-Told _ r)
  Reachable-Told _ (hangs_up r) = hang_up-Told _
