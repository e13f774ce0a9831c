-- ===== src/Network/Client/Session.antt =====
-- The session of client/src/network/TorWebSocketClient.ts: the delays of its reconnects, and what opens,
-- closes and reopens it.
use tor_e2ee_messenger.Common.{
  ℕ, zero, suc, ◌+◌, ◌≤◌, ◌≡◌, refl, subst, ◌-◌, true, false, none, ◌≢◌, [], min, arith,
}
use tor_e2ee_messenger.Network.Client.{
  Client, Wire, WsClientState, disconnected, connecting, awaiting_challenge, authenticating,
  connected_authenticated, reconnecting, closed, on_close, begin_connect, finish_connect,
  disconnect, reconnect_delay,
}

at_cap : (n : ℕ) → 5 ≤ n → reconnect_delay n ≡ 30000
unfolding reconnect_delay
at_cap n h = let e : min n 5 ≡ 5 = omega arith in rw e refl

delay-suc : (n : ℕ) → reconnect_delay n ≤ reconnect_delay (suc n)
unfolding reconnect_delay
delay-suc zero = omega arith
delay-suc (suc zero) = omega arith
delay-suc (suc (suc zero)) = omega arith
delay-suc (suc (suc (suc zero))) = omega arith
delay-suc (suc (suc (suc (suc zero)))) = omega arith
delay-suc (suc (suc (suc (suc (suc n))))) = omega (
  arith,
  at_cap (suc (suc (suc (suc (suc n))))) (omega arith),
  at_cap (suc (suc (suc (suc (suc (suc n)))))) (omega arith),
)

delay_mono : (n k : ℕ) → reconnect_delay n ≤ reconnect_delay (k + n)
delay_mono n zero =
    subst (λ j. reconnect_delay n ≤ reconnect_delay j) (let e : n ≡ 0 + n = omega arith in e)
      (omega arith)
delay_mono n (suc k) =
    subst (λ j. reconnect_delay n ≤ reconnect_delay j)
      (let e : suc (k + n) ≡ suc k + n = omega arith in e)
      (omega (arith, delay_mono n k, delay-suc (k + n)))

first_delay : reconnect_delay 1 ≡ 2000
unfolding reconnect_delay
first_delay = refl

delay-cap : (n : ℕ) → reconnect_delay n ≤ 30000
unfolding reconnect_delay
delay-cap n = omega arith

-- The delay before the n-th attempt to reconnect, without its random part: from 2 seconds to 30, never
-- shorter than that of an earlier attempt.
pub reconnect_delay-bounds :
    (n m : ℕ)
    → 1 ≤ n
    → n ≤ m
    → (2000 ≤ reconnect_delay n)
      × (reconnect_delay n ≤ reconnect_delay m)
      × (reconnect_delay m ≤ 30000)
reconnect_delay-bounds n m h k =
    let apart : (m - n) + n ≡ m = omega arith in
    let lower : (n - 1) + 1 ≡ n = omega arith in
    (
      subst (λ j. 2000 ≤ reconnect_delay j) lower
          (omega (arith, first_delay, delay_mono 1 (n - 1))),
      subst (λ j. reconnect_delay n ≤ reconnect_delay j) apart (delay_mono n (m - n)),
      delay-cap m,
    )

-- What a `connect` does that goes on, a `disconnect` while it waits for the socket, and the rest of the
-- `connect` when the socket is there and the upgrade left no bytes; then the socket closes.
abbrev pub GoesOn : Wire → Client → Type 0
GoesOn wire c =
    let (began, goes_on) = begin_connect wire c in
    let stopped = disconnect began in
    let there = finish_connect wire [] stopped in
    (goes_on ≡ true)
    × (began.state ≡ connecting)
    × (began.auto_reconnect ≡ true)
    × (stopped.state ≡ closed)
    × (stopped.socket ≡ false)
    × (stopped.ping_timer ≡ false)
    × (stopped.reconnect_timer ≡ none)
    × (there.state ≡ awaiting_challenge)
    × (there.socket ≡ true)
    × (there.auto_reconnect ≡ false)
    × ((on_close there).state ≡ disconnected)
    × ((on_close there).reconnect_timer ≡ none)

module _ (wire : Wire) (c : Client) where
  goes_on :
      (s : WsClientState)
      → s ≢ connecting
      → s ≢ connected_authenticated
      → c.state ≡ s
      → GoesOn wire c
  unfolding begin_connect finish_connect disconnect on_close
  goes_on connecting h k e = absurd (h refl)
  goes_on connected_authenticated h k e = absurd (k refl)
  goes_on disconnected h k e =
      rw e (refl, refl, refl, refl, refl, refl, refl, refl, refl, refl, refl, refl)
  goes_on awaiting_challenge h k e =
      rw e (refl, refl, refl, refl, refl, refl, refl, refl, refl, refl, refl, refl)
  goes_on authenticating h k e =
      rw e (refl, refl, refl, refl, refl, refl, refl, refl, refl, refl, refl, refl)
  goes_on reconnecting h k e =
      rw e (refl, refl, refl, refl, refl, refl, refl, refl, refl, refl, refl, refl)
  goes_on closed h k e =
      rw e (refl, refl, refl, refl, refl, refl, refl, refl, refl, refl, refl, refl)

  -- From every state but CONNECTING and CONNECTED_AUTHENTICATED a `connect` goes on, as CONNECTING and
  -- with automatic reconnects. A `disconnect` while it waits for the socket closes the old socket, stops
  -- both timers, forbids reconnects and sets CLOSED, and yet the `connect` is not stopped: when the
  -- socket is there and the upgrade left no bytes, the client has it open and waits for the challenge.
  -- What lasts is that reconnects are forbidden: when this socket closes, the client is DISCONNECTED
  -- and no reconnect is planned.
  pub finish_connect-after_disconnect :
      c.state ≢ connecting → c.state ≢ connected_authenticated → GoesOn wire c
  finish_connect-after_disconnect h k = goes_on c.state h k refl
