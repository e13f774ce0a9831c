-- ===== src/Network/Client/Behind.antt =====
-- Bytes that arrive behind a frame of client/src/network/TorWebSocketClient.ts wait while the frame is
-- handled.
use tor_e2ee_messenger.Common.{
  ℕ, ◌≡◌, refl, ap, Bool, true, false, Option, none, some, ◌++◌, Bytes, Text, nat_eq, Bool-cases,
  inl, inr, if◌then◌else◌,
}
use tor_e2ee_messenger.Network.Client.{
  Client, Wire, ServerWsMessage, challenge, authenticated, message, pong, other, server_error,
  handle_server_message, handle_text_message, process_frame, set_state, handle_server_challenge,
  handle_connection_failure, send_raw_frame, authenticating,
}

-- The client with a live socket and this buffer.
abbrev pub live : Bytes → Client → Client
live b c = record c { socket = true; buffer = b }

-- Bytes that arrive at a client: without a socket they are lost.
unfoldable pub behind : Bytes → Client → Client
behind more c = if c.socket then live (c.buffer ++ more) c else c

module _ (wire : Wire) where
  failure-behind :
      (more b : Bytes) (c : Client) (again : Bool)
      → handle_connection_failure
          (record c { socket = true; buffer = b ++ more; auto_reconnect = again })
        ≡ behind more (
            handle_connection_failure
              (record c { socket = true; buffer = b; auto_reconnect = again }))
  unfolding handle_connection_failure behind
  failure-behind more b c true = refl
  failure-behind more b c false = refl

  signed-behind :
      (more b : Bytes) (c : Client) (s : Option Text)
      → elim s [
        | none ↦ handle_connection_failure (live (b ++ more) c)
        | some signature ↦ send_raw_frame 1 (wire.auth_reply signature) (live (b ++ more) c)
      ]
        ≡ behind more (elim s [
          | none ↦ handle_connection_failure (live b c)
          | some signature ↦ send_raw_frame 1 (wire.auth_reply signature) (live b c)
        ])
  unfolding send_raw_frame behind
  signed-behind more b c none = failure-behind more b c c.auto_reconnect
  signed-behind more b c (some x) = refl

  message-behind :
      (more b : Bytes) (m : ServerWsMessage) (c : Client)
      → handle_server_message wire m (live (b ++ more) c)
        ≡ behind more (handle_server_message wire m (live b c))
  unfolding handle_server_message handle_server_challenge behind
  message-behind more b (challenge hex) c =
      signed-behind more b (unfold set_state in set_state authenticating c) (wire.sign hex)
  message-behind more b (authenticated hash) c = refl
  message-behind more b (message payload nonce created_at) c = refl
  message-behind more b pong c = refl
  message-behind more b other c = refl
  message-behind more b (server_error text) c = refl

  text-behind :
      (more b : Bytes) (c : Client) (m : Option ServerWsMessage)
      → elim m [
        | none ↦ live (b ++ more) c
        | some x ↦ handle_server_message wire x (live (b ++ more) c)
      ]
        ≡ behind more
            (elim m [ none ↦ live b c | some x ↦ handle_server_message wire x (live b c) ])
  unfolding behind
  text-behind more b c none = refl
  text-behind more b c (some m) = message-behind more b m c

  pub process_frame-behind :
      (more b : Bytes) (opcode : ℕ) (payload : Bytes) (c : Client)
      → process_frame wire opcode payload (live (b ++ more) c)
        ≡ behind more (process_frame wire opcode payload (live b c))
  unfolding process_frame
  process_frame-behind more b opcode payload c = elim (Bool-cases (nat_eq opcode 1)) [
    | inl e ↦ rw e (unfold handle_text_message in text-behind more b c (wire.parse payload))
    | inr e ↦ elim (Bool-cases (nat_eq opcode 8)) [
      | inl e' ↦ rw e (rw e' (unfold behind in refl))
      | inr e' ↦ elim (Bool-cases (nat_eq opcode 9)) [
        | inl e'' ↦ rw e (rw e' (rw e'' (unfold behind in refl)))
        | inr e'' ↦ rw e (rw e' (rw e'' (unfold behind in refl)))
      ]
    ]
  ]

pub behind-live :
    (more : Bytes) (c : Client) → c.socket ≡ true → behind more c ≡ live (c.buffer ++ more) c
unfolding behind
behind-live more c h = rw h refl

pub behind-dead : (more : Bytes) (c : Client) → c.socket ≡ false → behind more c ≡ c
unfolding behind
behind-dead more c h = rw h refl

pub is_live : (c : Client) → c.socket ≡ true → c ≡ live c.buffer c
is_live c h = ap (λ s. record c { socket = s }) h
