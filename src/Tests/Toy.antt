-- ===== src/Tests/Toy.antt =====
-- Small functions that stand for the libraries: with no secrecy, and with the laws that the client
-- relies on. The hex code is the real one.
use tor_e2ee_messenger.Common.{
  ℕ, zero, suc, ◌+◌, ◌-◌, ◌*◌, ◌/◌, ◌%◌, ◌<◌, ◌≡◌, refl, ap, ap₂, ◌&&◌, Option, none, some, [], ◌∷◌,
  ◌++◌, Text, Bytes, All, length, take, drop, take-append, drop-append, text_eq, text_eq_refl,
  to_lower, lower_unit, ltb, leb, if◌then◌else◌, arith,
}
use tor_e2ee_messenger.Platform.{Platform, IsPlatform, IsUint8Array}

abbrev zip_add : Bytes → Bytes → Bytes
zip_add [] b = []
zip_add (x ∷ a) [] = []
zip_add (x ∷ a) (y ∷ b) = ((x + y) % 256) ∷ zip_add a b

zip_add_comm : (a b : Bytes) → zip_add a b ≡ zip_add b a
zip_add_comm [] [] = refl
zip_add_comm [] (y ∷ b) = refl
zip_add_comm (x ∷ a) [] = refl
zip_add_comm (x ∷ a) (y ∷ b) = ap₂ (λ c d. c ∷ d) (omega arith) (zip_add_comm a b)

abbrev sum : Bytes → ℕ
sum [] = 0
sum (x ∷ b) = x + sum b

abbrev pub stretch : ℕ → ℕ → Bytes
stretch zero seed = []
stretch (suc n) seed = (seed % 256) ∷ stretch n (seed + 7)

pub stretch-bytes : (n seed : ℕ) → IsUint8Array n (stretch n seed)
stretch-bytes zero seed = (refl, tt)
stretch-bytes (suc n) seed =
    let (len, rest) = stretch-bytes n (seed + 7) in (ap suc len, (omega arith, rest))

abbrev hex_digit : ℕ → ℕ
hex_digit d = if ltb d 10 then 48 + d else 87 + d

abbrev from_digit : ℕ → Option ℕ
from_digit c =
    if leb 48 c && leb c 57
    then some (c - 48)
    else if leb 97 c && leb c 102
    then some (c - 87)
    else if leb 65 c && leb c 70
    then some (c - 55)
    else none

abbrev pub to_hex : Bytes → Text
to_hex [] = []
to_hex (x ∷ b) = hex_digit (x / 16) ∷ hex_digit (x % 16) ∷ to_hex b

abbrev join_digits : Option ℕ → Option ℕ → Option Bytes → Option Bytes
join_digits (some h) (some l) (some rest) = some ((16 * h + l) ∷ rest)
join_digits _ _ _ = none

abbrev from_hex : Text → Option Bytes
from_hex [] = some []
from_hex (c ∷ []) = none
from_hex (c ∷ d ∷ t) = join_digits (from_digit c) (from_digit d) (from_hex t)

from_digit-hex_digit : (d : ℕ) → d < 16 → from_digit (hex_digit d) ≡ some d
from_digit-hex_digit d h = ground arith

from_hex-to_hex : (b : Bytes) → All (λ c. c < 256) b → from_hex (to_hex b) ≡ some b
from_hex-to_hex [] h = refl
from_hex-to_hex (x ∷ b) (lt, h) = rw (from_digit-hex_digit (x / 16) (omega arith)) (
    rw (from_digit-hex_digit (x % 16) (omega arith))
      (rw (from_hex-to_hex b h) (ap (λ y. some (y ∷ b)) (omega arith))))

lower-hex_digit : (d : ℕ) → lower_unit (hex_digit d) ≡ hex_digit d
lower-hex_digit d = ground arith

lower-to_hex : (b : Bytes) → to_lower (to_hex b) ≡ to_hex b
lower-to_hex [] = refl
lower-to_hex (x ∷ b) =
    ap₂ (λ c t. c ∷ t) (lower-hex_digit (x / 16))
      (ap₂ (λ c t. c ∷ t) (lower-hex_digit (x % 16)) (lower-to_hex b))

length-to_hex : (b : Bytes) → length (to_hex b) ≡ 2 * length b
length-to_hex [] = refl
length-to_hex (x ∷ b) = omega (arith, length-to_hex b)

abbrev pub open_after : Bytes → Bytes → Option Bytes
open_after tag c = if text_eq (take (length tag) c) tag then some (drop (length tag) c) else none

pub open_after-append : (tag m : Bytes) → open_after tag (tag ++ m) ≡ some m
open_after-append tag m =
    rw (take-append tag m) (rw (text_eq_refl tag) (ap some (drop-append tag m)))

abbrev pub toy : Platform
toy = record {
  scalar_mult = λ a b. some (zip_add a b);
  box_public = λ a. a;
  secretbox = λ m nonce key. some ((nonce ++ key) ++ m);
  secretbox_open = λ c nonce key. some (open_after (nonce ++ key) c);
  sign_detached = λ m key. some m;
  sign_verify = λ m signature key. some (text_eq m signature);
  hkdf = λ ikm salt info n. stretch n (sum ikm + 3 * sum salt + sum info);
  sha256 = λ b. stretch 32 (sum b);
  bytes_to_hex = to_hex;
  hex_to_bytes = from_hex;
  to_base64 = λ b. b;
  from_base64 = λ t. t;
  utf8_encode = λ t. t;
  utf8_decode = λ b. b;
}

pub toy-IsPlatform : IsPlatform toy
toy-IsPlatform = record {
  hkdf_bytes = λ ikm salt info n. stretch-bytes n _;
  hex_round = from_hex-to_hex;
  hex_lower = lower-to_hex;
  hex_length = length-to_hex;
  public_bytes = λ a h. h;
  agreement = λ a b ha hb. (zip_add a b, refl, ap some (zip_add_comm b a));
  sealed = λ m nonce key hn hk.
      ((nonce ++ key) ++ m, refl, ap some (open_after-append (nonce ++ key) m));
  base64_round = λ b. refl;
}
