-- ===== src/Exchange.antt =====
-- What client/src/orchestration/ContactExchange.ts and client/src/devices/DeviceLinkManager.ts share: a
-- payload as JSON, in URL-safe base64, in the query of a URI. JSON and URLSearchParams are parameters.
pub mod Uri
pub mod UriRound
pub mod Contact
pub mod Import
pub mod Link
pub mod Provision
pub mod LinkRound
use tor_e2ee_messenger.Common.{
  ℕ, ◌+◌, ◌%◌, ◌≤◌, ◌≡◌, ◌≢◌, Bool, true, false, ◌&&◌, ◌||◌, Option, some, List, [], ◌∷◌, ◌++◌,
  Text, Bytes, All, length, codes, zero, suc, leb, nat_eq,
}
use tor_e2ee_messenger.Platform.{Platform}

-- `new URLSearchParams(query).get(key)`
abbrev pub SearchParam : Type 0
SearchParam = Text → Text → Option Text

-- JSON of one kind of payload; a field that is missing or null reads as empty, which the checks treat
-- alike.
pub record JsonOf (A : Type 0) : Type 0 where
  pub write : A → Text
  pub read : Text → Option A

abbrev pub is_alnum : ℕ → Bool
is_alnum c = (leb 48 c && leb c 57) || (leb 65 c && leb c 90) || (leb 97 c && leb c 122)

-- A letter, a digit, `+` or `/`.
abbrev pub is_base64 : ℕ → Bool
is_base64 c = is_alnum c || nat_eq c 43 || nat_eq c 47

-- A letter, a digit, `-` or `_`.
abbrev pub is_url_safe : ℕ → Bool
is_url_safe c = is_alnum c || nat_eq c 45 || nat_eq c 95

abbrev pub pads : ℕ → Text
pads zero = []
pads (suc n) = 61 ∷ pads n

-- The base64 text of some bytes: units, and at most two `=` that fill it up to a multiple of four.
pub record IsBase64 (p : Platform) (b : Bytes) : Type 0 where
  pub body : Text
  pub padding : ℕ
  pub split : p.to_base64 b ≡ body ++ pads padding
  pub units : All (λ c. is_base64 c ≡ true) body
  pub few : padding ≤ 2
  pub total : length (p.to_base64 b) % 4 ≡ 0
  pub there : 1 ≤ length body

-- The JSON text of a payload reads back, and survives UTF-8, since JSON.stringify writes well-formed text.
pub record IsJson (p : Platform) {A : Type 0} (json : JsonOf A) (a : A) : Type 0 where
  pub json_round : json.read (json.write a) ≡ some a
  pub json_utf8 : p.utf8_decode (p.utf8_encode (json.write a)) ≡ json.write a

-- What the two files rely on for a payload: its JSON text, the shape of base64, and that a query of the
-- form that they write has its parameter.
pub record IsRuntime (p : Platform) (search : SearchParam) {A : Type 0} (json : JsonOf A) (a : A)
    : Type 0 where
  pub text : IsJson p json a
  pub base64 : IsBase64 p (p.utf8_encode (json.write a))
  pub query :
      (data_text : Text)
      → All (λ c. is_url_safe c ≡ true) data_text
      → search (codes "v=1&d=" ++ data_text) (codes "d") ≡ some data_text
