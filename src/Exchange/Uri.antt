-- ===== src/Exchange/Uri.antt =====
-- The URIs of client/src/orchestration/ContactExchange.ts and client/src/devices/DeviceLinkManager.ts.
use tor_e2ee_messenger.Common.{
  ℕ, zero, suc, ◌%◌, Bool, ◌&&◌, ◌||◌, Option, none, some, [], ◌∷◌, ◌++◌, Text, codes, length, take,
  text_eq, is_empty, truthy, leb, nat_eq, map, if◌then◌else◌,
}
use tor_e2ee_messenger.Common.Result.{Result, ok, require, ◌>>=◌}
use tor_e2ee_messenger.Platform.{Platform}
use tor_e2ee_messenger.Exchange.{SearchParam, JsonOf}

pub data ExchangeError : Type 0 where
  missing_parameter unreadable missing_keys bad_signature library_error : ExchangeError

-- The white space of `trim`.
abbrev pub is_space : ℕ → Bool
is_space c =
    (leb 9 c && leb c 13)
    || nat_eq c 32
    || nat_eq c 160
    || nat_eq c 5760
    || (leb 8192 c && leb c 8202)
    || nat_eq c 8232
    || nat_eq c 8233
    || nat_eq c 8239
    || nat_eq c 8287
    || nat_eq c 12288
    || nat_eq c 65279

unfoldable pub drop_start : (ℕ → Bool) → Text → Text
drop_start test [] = []
drop_start test (c ∷ s) = let rest = drop_start test s in if test c then rest else c ∷ s

unfoldable pub drop_end : (ℕ → Bool) → Text → Text
drop_end test [] = []
drop_end test (c ∷ s) =
    let rest = drop_end test s in if test c && is_empty rest then [] else c ∷ rest

unfoldable pub trim : Text → Text
unfolding drop_start drop_end
trim s = drop_end is_space (drop_start is_space s)

-- What follows the first `?`.
unfoldable pub after_question : Text → Option Text
after_question [] = none
after_question (c ∷ s) = let later = after_question s in if nat_eq c 63 then some s else later

abbrev pub to_url_unit : ℕ → ℕ
to_url_unit c = if nat_eq c 43 then 45 else if nat_eq c 47 then 95 else c

abbrev pub from_url_unit : ℕ → ℕ
from_url_unit c = if nat_eq c 45 then 43 else if nat_eq c 95 then 47 else c

abbrev pub is_pad : ℕ → Bool
is_pad c = nat_eq c 61

-- Base64 to its URL-safe form without padding.
unfoldable pub url_safe : Text → Text
unfolding drop_end
url_safe t = drop_end is_pad (map to_url_unit t)

-- The loop that pads. It adds at most three, so three rounds are enough.
unfoldable pub pad : ℕ → Text → Text
pad zero t = t
pad (suc n) t = let padded = pad n (t ++ 61 ∷ []) in if nat_eq (length t % 4) 0 then t else padded

unfoldable pub standard_base64 : Text → Text
unfolding pad
standard_base64 t = pad 3 (map from_url_unit t)

module _ (p : Platform) {A : Type 0} (json : JsonOf A) where
  unfoldable pub export_uri : Text → A → Text
  unfolding url_safe
  export_uri scheme payload =
      scheme ++ (codes "?v=1&d=" ++ url_safe (p.to_base64 (p.utf8_encode (json.write payload))))

-- The base64 text of a URI, or the text itself where it is no URI.
unfoldable pub query_data : SearchParam → Option Text → Text → Result ExchangeError Text
query_data search none t = ok t
query_data search (some query) t = require (truthy (search query (codes "d"))) missing_parameter

unfoldable pub read_data : SearchParam → Text → Text → Result ExchangeError Text
unfolding trim after_question query_data
read_data search scheme uri =
    let t = trim uri in
    if text_eq (take (length scheme) t) scheme then query_data search (after_question t) t else ok t

module _ (p : Platform) (search : SearchParam) {A : Type 0} (json : JsonOf A) where
  unfoldable pub read_payload_of : Text → Text → Result ExchangeError A
  unfolding read_data standard_base64
  read_payload_of scheme uri = do
    data_text ← read_data search scheme uri
    require (json.read (p.utf8_decode (p.from_base64 (standard_base64 data_text)))) unreadable
