-- ===== src/Network/HttpClient.antt =====
-- client/src/network/TorHttpClient.ts: the parsing of a response, and the callbacks of a request. Texts
-- are what Buffer's `toString` makes of a chunk. The tunnel is Socks5Tunnel.ts or a direct connection.
pub mod Request
pub mod Orderly
use tor_e2ee_messenger.Common.{
  ℕ, zero, suc, ◌+◌, ◌*◌, ◌-◌, Bool, true, false, ◌&&◌, ◌||◌, Option, none, some, List, [], ◌∷◌,
  ◌++◌, Text, Bytes, codes, take, drop, length, text_eq, to_lower, is_empty, leb, nat_eq, put,
  text_keys, if◌then◌else◌,
}
use tor_e2ee_messenger.Common.Result.{Result, ok, err, require, ◌>>=◌}
use tor_e2ee_messenger.Platform.{Platform}
use tor_e2ee_messenger.Exchange.Uri.{trim, is_space, drop_start}

pub record HttpResponse : Type 0 where
  pub status : ℕ
  pub status_text : Text
  pub headers : List (Text × Text)
  pub body : Text

pub data HttpError : Type 0 where
  malformed_response invalid_status_line timed_out socket_failed bad_json : HttpError
  rejected : ℕ → HttpError

abbrev pub is_digit : ℕ → Bool
is_digit c = leb 48 c && leb c 57

-- The text after a prefix.
unfoldable pub after_prefix : Text → Text → Option Text
after_prefix [] t = some t
after_prefix (c ∷ prefix) [] = none
after_prefix (c ∷ prefix) (d ∷ t) =
    let later = after_prefix prefix t in if nat_eq c d then later else none

-- The parts around the first occurrence of a separator.
unfoldable pub split_first : Text → Text → Option (Text × Text)
unfolding after_prefix
split_first separator [] = none
split_first separator (c ∷ t) =
    let later = split_first separator t in
    elim (after_prefix separator (c ∷ t)) [
      | some rest ↦ some ([], rest)
      | none ↦ elim later [ none ↦ none | some parts ↦ some (c ∷ parts.0, parts.1) ]
    ]

-- `split(separator)`, on fuel: each part takes one character of the text or more, so its length is enough.
unfoldable pub split_all : ℕ → Text → Text → List Text
unfolding split_first
split_all zero separator t = t ∷ []
split_all (suc fuel) separator t = elim (split_first separator t) [
  | none ↦ t ∷ []
  | some parts ↦ parts.0 ∷ split_all fuel separator parts.1
]

unfoldable pub leading_digits : Text → Text
leading_digits [] = []
leading_digits (c ∷ t) = let rest = leading_digits t in if is_digit c then c ∷ rest else []

-- `parseInt` of decimal digits.
abbrev pub number_from : ℕ → Text → ℕ
number_from n [] = n
number_from n (c ∷ t) = number_from (10 * n + (c - 48)) t

-- `\s*(\d+)`: the number, and what follows its digits.
unfoldable pub match_number : Text → Option (ℕ × Text)
unfolding drop_start leading_digits
match_number t =
    let rest = drop_start is_space t in
    let digits = leading_digits rest in
    if is_empty digits then none else some (number_from 0 digits, drop (length digits) rest)

-- `/content-length:\s*(\d+)/i`, on a header in lower case.
unfoldable pub content_length : Text → Option ℕ
unfolding after_prefix match_number
content_length [] = none
content_length (c ∷ t) =
    let later = content_length t in
    elim (after_prefix (codes "content-length:") (c ∷ t)) [
      | none ↦ later
      | some rest ↦ elim (match_number rest) [ none ↦ later | some found ↦ some found.0 ]
    ]

-- `.*` stops at the end of a line.
unfoldable pub to_line_end : Text → Text
to_line_end [] = []
to_line_end (c ∷ t) =
    let rest = to_line_end t in
    if nat_eq c 10 || nat_eq c 13 || nat_eq c 8232 || nat_eq c 8233 then [] else c ∷ rest

-- `\d\.\d\s+(\d+)\s*(.*)`
unfoldable pub match_version : Text → Option (ℕ × Text)
unfolding match_number to_line_end drop_start
match_version (d ∷ dot ∷ e ∷ space ∷ t) =
    if is_digit d && nat_eq dot 46 && is_digit e && is_space space
    then elim (match_number t) [
      | none ↦ none
      | some found ↦ some (found.0, to_line_end (drop_start is_space found.1))
    ]
    else none
match_version _ = none

-- `/HTTP\/\d\.\d\s+(\d+)\s*(.*)/`, at the first place where it fits.
unfoldable pub match_status : Text → Option (ℕ × Text)
unfolding after_prefix match_version
match_status [] = none
match_status (c ∷ t) =
    let later = match_status t in
    elim (after_prefix (codes "HTTP/") (c ∷ t)) [
      | none ↦ later
      | some rest ↦ elim (match_version rest) [ none ↦ later | some found ↦ some found ]
    ]

abbrev pub crlf : Text
crlf = 13 ∷ 10 ∷ []

-- The headers by name, in lower case; a line without a colon is left out.
unfoldable pub read_headers : List Text → List (Text × Text) → List (Text × Text)
unfolding split_first trim put
read_headers [] headers = headers
read_headers (line ∷ lines) headers = elim (split_first (codes ":") line) [
  | none ↦ read_headers lines headers
  | some parts ↦ read_headers lines (put (to_lower (trim parts.0)) (trim parts.1) headers)
]

abbrev head_line : List Text → Text
head_line [] = []
head_line (line ∷ _) = line

abbrev other_lines : List Text → List Text
other_lines [] = []
other_lines (_ ∷ lines) = lines

module _ (p : Platform) where
  abbrev exact_body : Option ℕ → Text → Text
  exact_body none body = body
  exact_body (some n) body = p.utf8_decode (take n (p.utf8_encode body))

  unfoldable pub parse_http_response : Text → Option ℕ → Result HttpError HttpResponse
  unfolding split_first split_all match_status read_headers
  parse_http_response raw exact_content_length = do
    parts ← require (split_first (crlf ++ crlf) raw) malformed_response
    let lines = split_all (length parts.0) crlf parts.0
    status ← require (match_status (head_line lines)) invalid_status_line
    ok (record {
      status = status.0;
      status_text = status.1;
      headers = read_headers (other_lines lines) [];
      body = exact_body exact_content_length parts.1;
    })

-- `sendMessage`, on the result of its request: whether the relay delivered live.
unfoldable pub send_message_result :
    (Text → Option Bool) → Result HttpError HttpResponse → Result HttpError Bool
unfolding trim
send_message_result delivered_live result = do
  response ← result
  if nat_eq response.status 200
      then require (delivered_live (trim response.body)) bad_json
      else err (rejected response.status)

unfoldable pub check_health : Result HttpError HttpResponse → Bool
check_health (ok response) = nat_eq response.status 200
check_health (err e) = false
