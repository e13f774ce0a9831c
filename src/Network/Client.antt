-- ===== src/Network/Client.antt =====
-- client/src/network/TorWebSocketClient.ts as a state with one function for each method and each
-- callback. `socket` says whether there is a live socket; `written` are the frames given to
-- `sendRawFrame`, before masking; `events` are the calls of the callbacks, in order. The random part
-- of the delay, below 1000 ms, is left out of `reconnect_timer`.
pub mod Drain
pub mod Authenticated
pub mod Behind
pub mod Chunks
pub mod Session
use tor_e2ee_messenger.Common.{
  ℕ, zero, suc, ◌+◌, ◌*◌, ◌^◌, Bool, true, false, Option, none, some, List, [], ◌∷◌, ◌++◌, Bytes,
  Text, nat_eq, min, length, if◌then◌else◌,
}
use tor_e2ee_messenger.Network.Frame.{Frame, read_frame}

pub data WsClientState : Type 0 where
  disconnected connecting awaiting_challenge authenticating : WsClientState
  connected_authenticated reconnecting closed : WsClientState

-- `ServerWsMessage`; `other` is an object of any other type.
pub data ServerWsMessage : Type 0 where
  challenge : Text → ServerWsMessage
  authenticated : Text → ServerWsMessage
  message : Text → Text → ℕ → ServerWsMessage
  pong other : ServerWsMessage
  server_error : Text → ServerWsMessage

pub data Event : Type 0 where
  on_state_change : WsClientState → Event
  on_authenticated : Text → Event
  on_message : Text → Text → ℕ → Event
  on_server_error : Text → Event
  on_error on_disconnect : Event

pub record Client : Type 0 where
  pub state : WsClientState
  pub socket : Bool
  pub auto_reconnect : Bool
  pub reconnect_attempts : ℕ
  pub reconnect_timer : Option ℕ
  pub ping_timer : Bool
  pub buffer : Bytes
  pub written : List (ℕ × Bytes)
  pub events : List Event

-- What the client calls: `JSON.parse` of a payload (`none` where it throws), `signChallenge` under
-- the identity's key, and the JSON of the reply with the signature and of a ping.
pub record Wire : Type 0 where
  pub parse : Bytes → Option ServerWsMessage
  pub sign : Text → Option Text
  pub auth_reply : Text → Bytes
  pub ping : Bytes

abbrev emit : Event → Client → Client
emit e c = record c { events = c.events ++ e ∷ [] }

unfoldable pub set_state : WsClientState → Client → Client
set_state new c = record c { state = new; events = c.events ++ on_state_change new ∷ [] }

unfoldable pub send_raw_frame : ℕ → Bytes → Client → Client
send_raw_frame opcode payload c =
    if c.socket then record c { written = c.written ++ (opcode, payload) ∷ [] } else c

unfoldable pub cleanup_timers : Client → Client
cleanup_timers c = record c { ping_timer = false; reconnect_timer = none }

unfoldable pub cleanup_socket : Client → Client
cleanup_socket c = record c { socket = false; buffer = [] }

abbrev pub max_reconnect_delay_ms : ℕ
max_reconnect_delay_ms = 30000

unfoldable pub reconnect_delay : ℕ → ℕ
reconnect_delay attempts = min (1000 * 2 ^ min attempts 5) max_reconnect_delay_ms

unfoldable pub schedule_reconnect : Client → Client
unfolding set_state cleanup_socket
schedule_reconnect c =
    let d = cleanup_socket (set_state reconnecting c) in
    record d {
      reconnect_attempts = d.reconnect_attempts + 1;
      reconnect_timer = some (reconnect_delay (d.reconnect_attempts + 1));
    }

unfoldable pub handle_connection_failure : Client → Client
unfolding schedule_reconnect
handle_connection_failure c =
    let d = emit on_error c in
    if d.auto_reconnect then schedule_reconnect d else set_state disconnected d

unfoldable pub disconnect : Client → Client
unfolding cleanup_timers cleanup_socket set_state
disconnect c =
    set_state closed (cleanup_socket (cleanup_timers (record c { auto_reconnect = false })))

unfoldable pub start_ping_keep_alive : Client → Client
unfolding cleanup_timers
start_ping_keep_alive c = record (cleanup_timers c) { ping_timer = true }

module _ (wire : Wire) where
  -- The callback of the ping interval.
  unfoldable pub ping_tick : Client → Client
  unfolding send_raw_frame
  ping_tick c = if c.ping_timer then send_raw_frame 1 wire.ping c else c

  unfoldable pub handle_server_challenge : Text → Client → Client
  unfolding set_state send_raw_frame handle_connection_failure
  handle_server_challenge challenge_hex c =
      let d = set_state authenticating c in
      elim (wire.sign challenge_hex) [
        | none ↦ handle_connection_failure d
        | some signature ↦ send_raw_frame 1 (wire.auth_reply signature) d
      ]

  unfoldable pub handle_server_message : ServerWsMessage → Client → Client
  unfolding handle_server_challenge start_ping_keep_alive set_state
  handle_server_message (challenge hex) c = handle_server_challenge hex c
  handle_server_message (authenticated hash) c =
      emit (on_authenticated hash) (start_ping_keep_alive (set_state connected_authenticated c))
  handle_server_message (message payload nonce created_at) c =
      emit (on_message payload nonce created_at) c
  handle_server_message pong c = c
  handle_server_message other c = c
  handle_server_message (server_error text) c = emit (on_server_error text) c

  unfoldable pub handle_text_message : Bytes → Client → Client
  unfolding handle_server_message
  handle_text_message payload c = elim (wire.parse payload) [
    | none ↦ c
    | some m ↦ handle_server_message m c
  ]

  unfoldable pub process_frame : ℕ → Bytes → Client → Client
  unfolding handle_text_message disconnect send_raw_frame
  process_frame opcode payload c =
      if nat_eq opcode 1
      then handle_text_message payload c
      else if nat_eq opcode 8
      then disconnect c
      else if nat_eq opcode 9
      then send_raw_frame 10 payload c
      else c

  -- The loop of `handleRawData`, on fuel; a frame is taken off the buffer before it is processed.
  unfoldable pub drain : ℕ → Client → Client
  drain zero c = c
  drain (suc fuel) c = elim (read_frame c.buffer) [
    | none ↦ c
    | some f ↦ drain fuel (process_frame f.opcode f.payload (record c { buffer = f.rest }))
  ]

  -- The fuel is the length of the buffer.
  unfoldable pub drain_all : Client → Client
  drain_all c = drain (length c.buffer) c

  unfoldable pub handle_raw_data : Bytes → Client → Client
  unfolding drain_all
  handle_raw_data chunk c = drain_all (record c { buffer = c.buffer ++ chunk })

  -- The socket's `data` callback: a socket that was cleaned up has no listeners.
  unfoldable pub on_data : Bytes → Client → Client
  unfolding handle_raw_data
  on_data chunk c = if c.socket then handle_raw_data chunk c else c

  -- `connect` up to its first `await`: the client, and whether it goes on.
  unfoldable pub begin_connect : Client → Client × Bool
  unfolding set_state
  begin_connect c = elim c.state [
    | connecting ↦ (c, false)
    | connected_authenticated ↦ (c, false)
    | _ ↦ (set_state connecting (record c { auto_reconnect = true }), true)
  ]

  -- The rest of `connect`, when the upgrade left these bytes.
  unfoldable pub finish_connect : Bytes → Client → Client
  unfolding set_state handle_raw_data
  finish_connect [] c = record (set_state awaiting_challenge (record c { socket = true })) {
    reconnect_attempts = 0;
  }
  finish_connect (b ∷ leftover) c =
      let d =
        handle_raw_data (b ∷ leftover)
          (set_state awaiting_challenge (record c { socket = true })) in
      record d { reconnect_attempts = 0 }

-- The socket's `close` callback.
unfoldable pub on_close : Client → Client
unfolding cleanup_timers set_state schedule_reconnect
on_close c = elim c.state [
  | closed ↦ cleanup_timers c
  | disconnected ↦ cleanup_timers c
  | _ ↦
      let d = emit on_disconnect (cleanup_timers c) in
      if d.auto_reconnect then schedule_reconnect d else set_state disconnected d
]
