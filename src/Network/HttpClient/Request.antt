-- ===== src/Network/HttpClient/Request.antt =====
-- The promise of `rawRequest` in client/src/network/TorHttpClient.ts, with the callbacks that settle it.
use tor_e2ee_messenger.Common.{
  ℕ, Bool, true, false, Option, none, some, List, [], ◌∷◌, ◌++◌, Text, codes, length, to_lower,
  is_empty, leb, if◌then◌else◌,
}
use tor_e2ee_messenger.Common.Result.{Result, ok, err}
use tor_e2ee_messenger.Platform.{Platform}
use tor_e2ee_messenger.Network.HttpClient.{
  HttpResponse, HttpError, timed_out, socket_failed, split_first, content_length, crlf,
  parse_http_response,
}

-- `is_faulted`: a callback threw, outside every `try`.
pub record Request : Type 0 where
  pub raw_data : Text
  pub timer_set : Bool
  pub is_destroyed : Bool
  pub is_faulted : Bool
  pub settled : Option (Result HttpError HttpResponse)

abbrev pub fresh_request : Request
fresh_request = record {
  raw_data = [];
  timer_set = true;
  is_destroyed = false;
  is_faulted = false;
  settled = none;
}

-- A promise settles once.
abbrev pub first_settled :
    Option (Result HttpError HttpResponse)
    → Result HttpError HttpResponse
    → Option (Result HttpError HttpResponse)
first_settled (some r) later = some r
first_settled none later = some later

abbrev pub settle : Result HttpError HttpResponse → Request → Request
settle r q = record q { settled = first_settled q.settled r }

pub data RequestEvent : Type 0 where
  data_chunk : Text → RequestEvent
  ended failed timer_fired : RequestEvent

-- An exception of the parser leaves the callback.
abbrev pub resolved_or_thrown : Result HttpError HttpResponse → Request → Request
resolved_or_thrown (ok response) q = settle (ok response) q
resolved_or_thrown (err e) q = record q { is_faulted = true }

module _ (p : Platform) where
  -- Enough bytes of the body have come.
  unfoldable pub complete : ℕ → Request → Request
  unfolding parse_http_response
  complete expected q =
      resolved_or_thrown (parse_http_response p q.raw_data (some expected))
        (record q { timer_set = false; is_destroyed = true })

  unfoldable pub check_length : Option ℕ → Text → Request → Request
  unfolding complete
  check_length none body q = q
  check_length (some expected) body q =
      if leb expected (length (p.utf8_encode body)) then complete expected q else q

  unfoldable pub check_complete : Option (Text × Text) → Request → Request
  unfolding check_length content_length
  check_complete none q = q
  check_complete (some parts) q = check_length (content_length (to_lower parts.0)) parts.1 q

  unfoldable pub on_data : Text → Request → Request
  unfolding check_complete split_first
  on_data chunk q =
      let grown = record q { raw_data = q.raw_data ++ chunk } in
      check_complete (split_first (crlf ++ crlf) grown.raw_data) grown

  -- No data, no answer.
  unfoldable pub on_end : Request → Request
  unfolding parse_http_response
  on_end q =
      let quiet = record q { timer_set = false } in
      if is_empty q.raw_data then quiet else settle (parse_http_response p q.raw_data none) quiet

  unfoldable pub on_error : Request → Request
  on_error q = settle (err socket_failed) (record q { timer_set = false })

  -- The timer fires only while it is set.
  unfoldable pub on_timer : Request → Request
  on_timer q =
      if q.timer_set
      then settle (err timed_out) (record q { timer_set = false; is_destroyed = true })
      else q

  unfoldable pub request_step : RequestEvent → Request → Request
  unfolding on_data on_end on_error on_timer
  request_step (data_chunk chunk) q = on_data chunk q
  request_step ended q = on_end q
  request_step failed q = on_error q
  request_step timer_fired q = on_timer q

  unfoldable pub request_steps : List RequestEvent → Request → Request
  unfolding request_step
  request_steps [] q = q
  request_steps (e ∷ events) q = request_steps events (request_step e q)

-- The text of the request, before its body.
abbrev header_line : Text × Text → Text
header_line (k, v) = k ++ codes ": " ++ v ++ crlf

unfoldable pub header_lines : List (Text × Text) → Text
header_lines [] = []
header_lines (h ∷ headers) = header_line h ++ header_lines headers

unfoldable pub request_head : Text → Text → List (Text × Text) → Text
unfolding header_lines
request_head method path headers =
    method ++ codes " " ++ path ++ codes " HTTP/1.1" ++ crlf ++ header_lines headers ++ crlf
