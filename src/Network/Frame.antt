-- ===== src/Network/Frame.antt =====
-- The WebSocket frames of client/src/network/TorWebSocketClient.ts: what `sendRawFrame` writes, and
-- how a round of the loop of `handleRawData` reads one. Bytes are numbers below 256; of bits that do
-- not overlap, `|` is a sum, and a mask of the low or high bits is `%` or `/`.
pub mod BigEndian
pub mod RoundTrip
pub mod Stable
use Prim.Native.Nat.{bit_xor}
use tor_e2ee_messenger.Common.{
  ℕ, zero, suc, ◌+◌, ◌-◌, ◌*◌, ◌/◌, ◌%◌, ◌^◌, Bool, true, false, Option, none, some, List, [], ◌∷◌,
  ◌++◌, Bytes, nat_eq, ltb, leb, length, take, drop, if◌then◌else◌,
}

-- `writeUInt16BE` and `writeBigUInt64BE`, in k bytes.
unfoldable pub to_be : ℕ → ℕ → Bytes
to_be zero n = []
to_be (suc k) n = to_be k (n / 256) ++ (n % 256) ∷ []

-- `readUInt16BE` and `readBigUInt64BE`.
unfoldable pub from_be : ℕ → Bytes → ℕ
from_be acc [] = acc
from_be acc (x ∷ xs) = from_be (acc * 256 + x) xs

pub record MaskKey : Type 0 where
  pub m0 : ℕ
  pub m1 : ℕ
  pub m2 : ℕ
  pub m3 : ℕ

-- `maskKey[i % 4]`
unfoldable pub mask_byte : MaskKey → ℕ → ℕ
mask_byte key i =
    if nat_eq (i % 4) 0
    then key.m0
    else if nat_eq (i % 4) 1
    then key.m1
    else if nat_eq (i % 4) 2
    then key.m2
    else key.m3

-- The masking loop, from index i on.
unfoldable pub mask_from : ℕ → MaskKey → Bytes → Bytes
unfolding mask_byte
mask_from i key [] = []
mask_from i key (x ∷ xs) = bit_xor x (mask_byte key i) ∷ mask_from (i + 1) key xs

-- The second byte and the extended length; the first bit says that the payload is masked.
unfoldable pub length_bytes : ℕ → Bytes
unfolding to_be
length_bytes n =
    if leb n 125
    then (128 + n) ∷ []
    else if leb n 65535
    then (128 + 126) ∷ to_be 2 n
    else (128 + 127) ∷ to_be 8 n

unfoldable pub raw_frame : ℕ → Bytes → MaskKey → Bytes
unfolding length_bytes mask_from
raw_frame opcode payload key =
    (128 + opcode % 16)
    ∷ (length_bytes (length payload)
        ++ (key.m0 ∷ key.m1 ∷ key.m2 ∷ key.m3 ∷ mask_from 0 key payload))

pub record Frame : Type 0 where
  pub opcode : ℕ
  pub payload : Bytes
  pub rest : Bytes

-- The payload length, and the bytes behind it; `none` where the buffer is too short.
unfoldable pub read_length : ℕ → Bytes → Option (ℕ × Bytes)
unfolding from_be
read_length short buffer =
    if nat_eq short 126
    then (if ltb (length buffer) 2 then none else some (from_be 0 (take 2 buffer), drop 2 buffer))
    else if nat_eq short 127
    then (if ltb (length buffer) 8 then none else some (from_be 0 (take 8 buffer), drop 8 buffer))
    else some (short, buffer)

unfoldable pub read_mask : Bool → Bytes → Option (Option MaskKey × Bytes)
read_mask false buffer = some (none, buffer)
read_mask true (a ∷ b ∷ c ∷ d ∷ buffer) =
    some (some (record { m0 = a; m1 = b; m2 = c; m3 = d }), buffer)
read_mask true _ = none

unfoldable pub unmask : Option MaskKey → Bytes → Bytes
unfolding mask_from
unmask none payload = payload
unmask (some key) payload = mask_from 0 key payload

unfoldable pub read_payload : ℕ → ℕ → Option MaskKey → Bytes → Option Frame
unfolding unmask
read_payload opcode n key buffer =
    if ltb (length buffer) n
    then none
    else some
        (record { opcode = opcode; payload = unmask key (take n buffer); rest = drop n buffer })

-- One round of the loop: the first frame of the buffer, if it is there in full.
unfoldable pub read_frame : Bytes → Option Frame
unfolding read_length read_mask read_payload
read_frame [] = none
read_frame (b0 ∷ []) = none
read_frame (b0 ∷ b1 ∷ buffer) = elim (read_length (b1 % 128) buffer) [
  | none ↦ none
  | some (n, after_length) ↦ elim (read_mask (nat_eq ((b1 / 128) % 2) 1) after_length) [
    | none ↦ none
    | some (key, after_mask) ↦ read_payload (b0 % 16) n key after_mask
  ]
]
