-- ===== src/Network/Client/Drain.antt =====
-- The loop of `handleRawData` ends: each frame takes bytes off the buffer, and nothing that a frame
-- does puts any back.
use tor_e2ee_messenger.Common.{
  ℕ, ◌%◌, ◌/◌, ◌≤◌, ◌<◌, ◌≡◌, Bool, true, false, Option, none, some, [], ◌∷◌, Bytes, Text, length,
  length-drop, nat_eq, arith, Option-cases, inl, inr,
}
use tor_e2ee_messenger.Network.Frame.{
  MaskKey, Frame, read_length, read_mask, read_payload, read_frame,
}
use tor_e2ee_messenger.Network.Client.{
  Client, Wire, ServerWsMessage, challenge, authenticated, message, pong, other, server_error,
  handle_server_message, handle_text_message, process_frame, handle_server_challenge,
}

read_length-le :
    (s : ℕ) (b : Bytes) (n : ℕ) (r : Bytes) → read_length s b ≡ some (n, r) → length r ≤ length b
unfolding read_length
read_length-le s b n r h = ground (arith, length-drop 2 b, length-drop 8 b)

read_mask-le :
    (m : Bool) (b : Bytes) (key : Option MaskKey) (r : Bytes)
    → read_mask m b ≡ some (key, r)
    → length r ≤ length b
unfolding read_mask
read_mask-le false b key r h = ground arith
read_mask-le true b key r h = ground arith

read_payload-le :
    (opcode n : ℕ) (key : Option MaskKey) (b : Bytes) (f : Frame)
    → read_payload opcode n key b ≡ some f
    → length f.rest ≤ length b
unfolding read_payload
read_payload-le opcode n key b f h = ground (arith, length-drop n b)

-- A frame takes at least two bytes.
pub read_frame-shorter : (b : Bytes) (f : Frame) → read_frame b ≡ some f → length f.rest < length b
unfolding read_frame
read_frame-shorter [] f h = cc
read_frame-shorter (b0 ∷ []) f h = cc
read_frame-shorter (b0 ∷ b1 ∷ b) f h = elim (Option-cases (read_length (b1 % 128) b)) [
  | inl e ↦ absurd (let bad : none ≡ some f = rw (e, read_frame) at h in cc)
  | inr ((n, r), e) ↦ elim (Option-cases (read_mask (nat_eq ((b1 / 128) % 2) 1) r)) [
    | inl e' ↦ absurd (let bad : none ≡ some f = rw e' at (rw (e, read_frame) at h) in cc)
    | inr ((key, r'), e') ↦
        let e'' : read_payload (b0 % 16) n key r' ≡ some f = rw e' at (rw (e, read_frame) at h) in
        omega (
          arith,
          read_length-le (b1 % 128) b n r e,
          read_mask-le _ r key r' e',
          read_payload-le (b0 % 16) n key r' f e'',
        )
  ]
]

module _ (wire : Wire) where
  abbrev Shrinks : Client → Client → Type 0
  Shrinks c d = length d.buffer ≤ length c.buffer

  challenge-Shrinks : (hex : Text) (c : Client) → Shrinks c (handle_server_challenge wire hex c)
  unfolding handle_server_challenge
  challenge-Shrinks hex c = ground arith

  message-Shrinks : (m : ServerWsMessage) (c : Client) → Shrinks c (handle_server_message wire m c)
  unfolding handle_server_message
  message-Shrinks (challenge hex) c = challenge-Shrinks hex c
  message-Shrinks (authenticated hash) c = omega arith
  message-Shrinks (message payload nonce created_at) c = omega arith
  message-Shrinks pong c = omega arith
  message-Shrinks other c = omega arith
  message-Shrinks (server_error text) c = omega arith

  text-Shrinks : (payload : Bytes) (c : Client) → Shrinks c (handle_text_message wire payload c)
  unfolding handle_text_message
  text-Shrinks payload c = parsed (wire.parse payload)
    where
      parsed :
          (m : Option ServerWsMessage)
          → Shrinks c (elim m [ none ↦ c | some x ↦ handle_server_message wire x c ])
      parsed none = omega arith
      parsed (some x) = message-Shrinks x c

  pub process_frame-Shrinks :
      (opcode : ℕ) (payload : Bytes) (c : Client) → Shrinks c (process_frame wire opcode payload c)
  unfolding process_frame
  process_frame-Shrinks opcode payload c = ground (arith, text-Shrinks payload c)

  -- Whatever a frame does to a client with a socket, it leaves no bytes without a socket.
  abbrev Sound : Client → Type 0
  Sound c = c.socket ≡ false → c.buffer ≡ []

  challenge-Sound : (hex : Text) (c : Client) → Sound c → Sound (handle_server_challenge wire hex c)
  unfolding handle_server_challenge
  challenge-Sound hex c s h = ground arith

  message-Sound :
      (m : ServerWsMessage) (c : Client) → Sound c → Sound (handle_server_message wire m c)
  unfolding handle_server_message
  message-Sound (challenge hex) c s = challenge-Sound hex c s
  message-Sound (authenticated hash) c s = s
  message-Sound (message payload nonce created_at) c s = s
  message-Sound pong c s = s
  message-Sound other c s = s
  message-Sound (server_error text) c s = s

  text-Sound : (payload : Bytes) (c : Client) → Sound c → Sound (handle_text_message wire payload c)
  unfolding handle_text_message
  text-Sound payload c s = parsed (wire.parse payload)
    where
      parsed :
          (m : Option ServerWsMessage)
          → Sound (elim m [ none ↦ c | some x ↦ handle_server_message wire x c ])
      parsed none = s
      parsed (some x) = message-Sound x c s

  pub process_frame-Sound :
      (opcode : ℕ) (payload : Bytes) (c : Client)
      → Sound c
      → Sound (process_frame wire opcode payload c)
  unfolding process_frame
  process_frame-Sound opcode payload c s h = ground (arith, text-Sound payload c s)
