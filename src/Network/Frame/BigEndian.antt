-- ===== src/Network/Frame/BigEndian.antt =====
-- Numbers in big-endian bytes, and the mask.
use Prim.Native.Nat.{bit_xor}
use tor_e2ee_messenger.Common.{
  ℕ, zero, suc, ◌+◌, ◌*◌, ◌/◌, ◌%◌, ◌<◌, ◌≡◌, refl, ap, ap₂, ◌∙◌, Bool, true, [], ◌∷◌, ◌++◌, Bytes,
  All, nat_eq, nat_eq_iff, length, length-append, arith, ◌&&◌,
}
use tor_e2ee_messenger.Network.Frame.{to_be, from_be, MaskKey, mask_byte, mask_from}

from_be-append :
    (acc : ℕ) (xs : Bytes) (y : ℕ) → from_be acc (xs ++ y ∷ []) ≡ from_be acc xs * 256 + y
unfolding from_be
from_be-append acc [] y = refl
from_be-append acc (x ∷ xs) y = from_be-append (acc * 256 + x) xs y

pub length-to_be : (k n : ℕ) → length (to_be k n) ≡ k
unfolding to_be
length-to_be zero n = refl
length-to_be (suc k) n =
    omega (arith, length-append (to_be k (n / 256)) ((n % 256) ∷ []), length-to_be k (n / 256))

abbrev power : ℕ → ℕ
power zero = 1
power (suc k) = 256 * power k

pub from_be-to_be : (k n : ℕ) → n < power k → from_be 0 (to_be k n) ≡ n
unfolding from_be to_be
from_be-to_be zero n h = omega arith
from_be-to_be (suc k) n h =
    from_be-append 0 (to_be k (n / 256)) (n % 256)
    ∙ omega (arith, from_be-to_be k (n / 256) (omega arith))

all_below : ℕ → (ℕ → Bool) → Bool
all_below zero q = true
all_below (suc n) q = q n && all_below n q

all_below_sound : (n : ℕ) (q : ℕ → Bool) (x : ℕ) → all_below n q ≡ true → x < n → q x ≡ true
unfolding all_below
all_below_sound zero q x h lt = absurd (omega arith)
all_below_sound (suc n) q x h lt = ground (arith, all_below_sound n q x)

xor_row : ℕ → Bool
unfolding all_below
xor_row m = all_below 256 (λ x. nat_eq (bit_xor (bit_xor x m) m) x)

xor_table : all_below 256 xor_row ≡ true
unfolding xor_row
xor_table = refl

xor_twice : (x m : ℕ) → x < 256 → m < 256 → bit_xor (bit_xor x m) m ≡ x
xor_twice x m hx hm = (nat_eq_iff _ x).0 (
    all_below_sound 256 (λ y. nat_eq (bit_xor (bit_xor y m) m) y) x
      (unfold xor_row in all_below_sound 256 xor_row m xor_table hm) hx)

abbrev pub IsMaskKey : MaskKey → Type 0
IsMaskKey key = (key.m0 < 256) × (key.m1 < 256) × (key.m2 < 256) × (key.m3 < 256)

mask_byte-lt : (key : MaskKey) (i : ℕ) → IsMaskKey key → mask_byte key i < 256
unfolding mask_byte
mask_byte-lt key i h = ground arith

pub mask_from-twice :
    (i : ℕ) (key : MaskKey) (b : Bytes)
    → IsMaskKey key
    → All (λ c. c < 256) b
    → mask_from i key (mask_from i key b) ≡ b
unfolding mask_from
mask_from-twice i key [] hk h = refl
mask_from-twice i key (x ∷ b) hk (lt, h) =
    ap₂ (λ c d. c ∷ d)
      (unfold mask_byte in xor_twice x (mask_byte key i) lt (mask_byte-lt key i hk))
      (mask_from-twice (i + 1) key b hk h)

pub length-mask_from : (i : ℕ) (key : MaskKey) (b : Bytes) → length (mask_from i key b) ≡ length b
unfolding mask_from
length-mask_from i key [] = refl
length-mask_from i key (x ∷ b) = ap suc (length-mask_from (i + 1) key b)
