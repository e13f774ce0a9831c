-- ===== src/Network/Socks5/Tunnel.antt =====
-- `connectViaSocks5` of client/src/network/Socks5Tunnel.ts: the stages of one connection, with a function
-- for each event of the socket and one for the timer. `settled` is what the promise has come to; a
-- promise keeps the first.
use tor_e2ee_messenger.Common.{
  ◌≡◌, ◌≢◌, refl, ap, Bool, true, false, Option, none, some, List, [], ◌∷◌, ◌++◌, Bytes, not, ◌&&◌,
  if◌then◌else◌,
}
use tor_e2ee_messenger.Common.Result.{Result, ok, err}
use tor_e2ee_messenger.Network.Socks5.{
  Socks5Error, build_auth_request, verify_auth_response, verify_connect_response,
}

pub data Stage : Type 0 where
  auth connect connected : Stage

pub data Outcome : Type 0 where
  resolved : Outcome
  bad_reply : Socks5Error → Outcome
  timed_out socket_error : Outcome

pub record Tunnel : Type 0 where
  pub stage : Stage
  pub timer : Bool
  pub destroyed : Bool
  pub listening : Bool
  pub settled : Option Outcome
  pub written : List Bytes

unfoldable pub fresh_tunnel : Tunnel
fresh_tunnel = record {
  stage = auth;
  timer = true;
  destroyed = false;
  listening = true;
  settled = none;
  written = [];
}

abbrev settle : Outcome → Option Outcome → Option Outcome
settle new none = some new
settle new (some old) = some old

abbrev write_packet : Bytes → Tunnel → Tunnel
write_packet packet t = record t { written = t.written ++ packet ∷ [] }

unfoldable pub on_connect : Tunnel → Tunnel
unfolding build_auth_request
on_connect t = if t.destroyed then t else write_packet build_auth_request t

-- The timer calls back only while it is set.
unfoldable pub on_timeout : Tunnel → Tunnel
on_timeout t =
    if t.timer
    then record t { timer = false; destroyed = true; settled = settle timed_out t.settled }
    else t

unfoldable pub fail : Socks5Error → Tunnel → Tunnel
fail e t = record t { timer = false; destroyed = true; settled = settle (bad_reply e) t.settled }

-- An error closes the socket.
unfoldable pub on_error : Tunnel → Tunnel
on_error t = record t { timer = false; destroyed = true; settled = settle socket_error t.settled }

module _ (connect_request : Bytes) where
  unfoldable pub handle_reply : Stage → Bytes → Tunnel → Tunnel
  unfolding fail
  handle_reply auth reply t = elim (verify_auth_response reply) [
    | err e ↦ fail e t
    | ok _ ↦ write_packet connect_request (record t { stage = connect })
  ]
  handle_reply connect reply t = elim (verify_connect_response reply) [
    | err e ↦ fail e t
    | ok _ ↦ record t {
      stage = connected;
      timer = false;
      listening = false;
      settled = settle resolved t.settled;
    }
  ]
  handle_reply connected reply t = t

  -- No data comes from a socket that was destroyed, or when the listener was taken away.
  unfoldable pub on_data : Bytes → Tunnel → Tunnel
  unfolding handle_reply
  on_data reply t = if t.listening && not t.destroyed then handle_reply t.stage reply t else t

  pub data Reaches : Tunnel → Type 0 where
    begins : Reaches fresh_tunnel
    connects : {t : Tunnel} → Reaches t → Reaches (on_connect t)
    receives : {t : Tunnel} (reply : Bytes) → Reaches t → Reaches (on_data reply t)
    errs : {t : Tunnel} → Reaches t → Reaches (on_error t)
    times_out : {t : Tunnel} → Reaches t → Reaches (on_timeout t)

-- The promise is open as long as the timer runs, and settles only with it; and it resolves only at the
-- last stage.
abbrev pub Orderly : Bool → Option Outcome → Stage → Type 0
Orderly timer settled stage =
    (timer ≡ true → settled ≡ none)
    × (timer ≡ false → settled ≢ none)
    × (settled ≡ some resolved → stage ≡ connected)

abbrev pub IsOrderly : Tunnel → Type 0
IsOrderly t = Orderly t.timer t.settled t.stage

abbrev chosen : Outcome → Option Outcome → Outcome
chosen otherwise none = otherwise
chosen otherwise (some x) = x

settle-Orderly :
    (new : Outcome) (timer : Bool) (o : Option Outcome) (stage : Stage)
    → new ≢ resolved
    → Orderly timer o stage
    → Orderly false (settle new o) stage
settle-Orderly new timer none stage other h =
    ((λ e. cc), (λ e bad. cc), (λ e. absurd (other (ap (chosen new) e))))
settle-Orderly new timer (some old) stage other (h, k, l) = ((λ e. cc), (λ e bad. cc), l)

resolve-Orderly : (timer : Bool) (o : Option Outcome) → Orderly false (settle resolved o) connected
resolve-Orderly timer none = ((λ e. cc), (λ e bad. cc), (λ e. refl))
resolve-Orderly timer (some old) = ((λ e. cc), (λ e bad. cc), (λ e. refl))

if-Orderly : (b : Bool) (t u : Tunnel) → IsOrderly t → IsOrderly u → IsOrderly (if b then t else u)
if-Orderly true t u h k = h
if-Orderly false t u h k = k

module _ (connect_request : Bytes) where
  handle-Orderly :
      (stage : Stage) (reply : Bytes) (t : Tunnel)
      → t.stage ≡ stage
      → IsOrderly t
      → IsOrderly (handle_reply connect_request stage reply t)
  unfolding handle_reply fail
  handle-Orderly auth reply t e (h, k, l) = replied (verify_auth_response reply)
    where
      replied :
          (r : Result Socks5Error (Unit {0}))
          → IsOrderly (elim r [
            | err e ↦ fail e t
            | ok _ ↦ write_packet connect_request (record t { stage = connect })
          ])
      replied (err x) = settle-Orderly (bad_reply x) t.timer t.settled t.stage (λ bad. cc) (h, k, l)
      replied (ok _) = (h, k, (λ r. let late = l r in cc))
  handle-Orderly connect reply t e (h, k, l) = replied (verify_connect_response reply)
    where
      replied :
          (r : Result Socks5Error (Unit {0}))
          → IsOrderly (elim r [
            | err e ↦ fail e t
            | ok _ ↦ record t {
              stage = connected;
              timer = false;
              listening = false;
              settled = settle resolved t.settled;
            }
          ])
      replied (err x) = settle-Orderly (bad_reply x) t.timer t.settled t.stage (λ bad. cc) (h, k, l)
      replied (ok _) = resolve-Orderly t.timer t.settled
  handle-Orderly connected reply t e h = h

  on_data-Orderly :
      (reply : Bytes) (t : Tunnel) → IsOrderly t → IsOrderly (on_data connect_request reply t)
  unfolding on_data
  on_data-Orderly reply t h =
      if-Orderly (t.listening && not t.destroyed) _ t (handle-Orderly t.stage reply t refl h) h

  begin-Orderly : IsOrderly fresh_tunnel
  unfolding fresh_tunnel
  begin-Orderly = ((λ e. refl), (λ e bad. cc), (λ e. cc))

  connect-Orderly : (t : Tunnel) → IsOrderly t → IsOrderly (on_connect t)
  unfolding on_connect
  connect-Orderly t h = if-Orderly _ _ _ h h

  error-Orderly : (t : Tunnel) → IsOrderly t → IsOrderly (on_error t)
  unfolding on_error
  error-Orderly t h = settle-Orderly socket_error t.timer t.settled t.stage (λ bad. cc) h

  timeout-Orderly : (t : Tunnel) → IsOrderly t → IsOrderly (on_timeout t)
  unfolding on_timeout
  timeout-Orderly t h =
      if-Orderly _ _ _ (settle-Orderly timed_out t.timer t.settled t.stage (λ bad. cc) h) h

  -- Whatever the socket and the timer do, in whatever order: the promise is open as long as the timer
  -- runs, it has settled once the timer is off, and it resolves only at the last stage.
  pub Reaches-Orderly : (t : Tunnel) → Reaches connect_request t → IsOrderly t
  Reaches-Orderly _ begins = begin-Orderly
  Reaches-Orderly _ (connects r) = connect-Orderly _ (Reaches-Orderly _ r)
  Reaches-Orderly _ (receives reply r) = on_data-Orderly reply _ (Reaches-Orderly _ r)
  Reaches-Orderly _ (errs r) = error-Orderly _ (Reaches-Orderly _ r)
  Reaches-Orderly _ (times_out r) = timeout-Orderly _ (Reaches-Orderly _ r)
