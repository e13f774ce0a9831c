-- ===== src/Network/Frame/RoundTrip.antt =====
-- What `sendRawFrame` writes is read back by `handleRawData`, whatever follows it in the buffer; and a
-- frame that can be read stays the same when more bytes arrive.
use tor_e2ee_messenger.Common.{
  ℕ, ◌+◌, ◌/◌, ◌%◌, ◌^◌, ◌<◌, ◌≤◌, ◌≡◌, refl, ap, ◌∙◌, Option, none, some, [], ◌∷◌, ◌++◌, Bytes,
  All, ltb, length, length-append, take, drop, take-append, drop-append, arith, if◌then◌else◌,
  le→ltb, subst,
}
use mathlib.Core.List.{append_assoc}
use native.Mathlib.Decide.{dec_le}
use tor_e2ee_messenger.Network.Frame.{
  to_be, from_be, MaskKey, mask_from, length_bytes, raw_frame, read_length, read_mask, unmask,
  read_payload, read_frame,
}
use tor_e2ee_messenger.Network.Frame.BigEndian.{
  length-to_be, from_be-to_be, IsMaskKey, mask_from-twice, length-mask_from,
}

take_exact : (n : ℕ) (xs ys : Bytes) → length xs ≡ n → take n (xs ++ ys) ≡ xs
take_exact n xs ys h = subst (λ k. take k (xs ++ ys) ≡ xs) h (take-append xs ys)

drop_exact : (n : ℕ) (xs ys : Bytes) → length xs ≡ n → drop n (xs ++ ys) ≡ ys
drop_exact n xs ys h = subst (λ k. drop k (xs ++ ys) ≡ ys) h (drop-append xs ys)

-- An extended length of k bytes is read back.
long_length :
    (k n : ℕ) (ys : Bytes)
    → from_be 0 (to_be k n) ≡ n
    → ◌≡◌ {A = Option (ℕ × Bytes)}
        (if◌then◌else◌ {A = Option (ℕ × Bytes)}
          (ltb (length (to_be k n ++ ys)) k)
          none
          (some (from_be 0 (take k (to_be k n ++ ys)), drop k (to_be k n ++ ys))))
        (some (n, ys))
long_length k n ys h =
    rw
      (le→ltb (length (to_be k n ++ ys)) k
        (omega (arith, length-append (to_be k n) ys, length-to_be k n)))
      (rw (take_exact k (to_be k n) ys (length-to_be k n))
        (rw (drop_exact k (to_be k n) ys (length-to_be k n)) (ap (λ m. some (m, ys)) h)))

payload_read :
    (opcode : ℕ) (key : MaskKey) (payload more : Bytes)
    → IsMaskKey key
    → All (λ c. c < 256) payload
    → read_payload opcode (length payload) (some key) (mask_from 0 key payload ++ more)
      ≡ some (record { opcode = opcode; payload = payload; rest = more })
unfolding read_payload unmask
payload_read opcode key payload more hk h =
    let masked = mask_from 0 key payload in
    let len : length masked ≡ length payload = length-mask_from 0 key payload in
    rw
      (le→ltb (length (masked ++ more)) (length payload)
        (omega (arith, length-append masked more, len)))
      (rw (take_exact (length payload) masked more len) (
        rw (drop_exact (length payload) masked more len)
          (rw (mask_from-twice 0 key payload hk h) refl)))

-- The second byte and the extended length of n, which `read_length` reads back.
record Header (n : ℕ) (ys : Bytes) : Type 0 where
  second : ℕ
  extended : Bytes
  written : length_bytes n ≡ second ∷ extended
  masked : (second / 128) % 2 ≡ 1
  reads : read_length (second % 128) (extended ++ ys) ≡ some (n, ys)

Header-short : (n : ℕ) (ys : Bytes) → n ≤ 125 → Header n ys
unfolding length_bytes read_length
Header-short n ys h =
    let e : (128 + n) % 128 ≡ n = omega arith in
    record {
      second = 128 + n;
      extended = [];
      written = ground arith;
      masked = omega arith;
      reads = rw e (ground arith);
    }

Header-middle : (n : ℕ) (ys : Bytes) → 125 < n → n ≤ 65535 → Header n ys
Header-middle n ys h k = record {
  second = 128 + 126;
  extended = to_be 2 n;
  written = unfold length_bytes in ground arith;
  masked = refl;
  reads = unfold read_length in long_length 2 n ys (from_be-to_be 2 n (omega arith));
}

Header-large : (n : ℕ) (ys : Bytes) → 65535 < n → n < 2 ^ 64 → Header n ys
Header-large n ys h k = record {
  second = 128 + 127;
  extended = to_be 8 n;
  written = unfold length_bytes in ground arith;
  masked = refl;
  reads = unfold read_length in long_length 8 n ys (from_be-to_be 8 n (omega arith));
}

header : (n : ℕ) (ys : Bytes) → n < 2 ^ 64 → Header n ys
header n ys h = elim (dec_le n 125) [
  | yes short ↦ Header-short n ys short
  | no long ↦ elim (dec_le n 65535) [
    | yes middle ↦ Header-middle n ys (omega arith) middle
    | no large ↦ Header-large n ys (omega arith) h
  ]
]

module _ (opcode : ℕ) (payload : Bytes) (key : MaskKey) (more : Bytes) (mask_bytes : IsMaskKey key)
    (payload_bytes : All (λ c. c < 256) payload) (short_enough : length payload < 2 ^ 64) where
  abbrev tail_bytes : Bytes
  tail_bytes = key.m0 ∷ key.m1 ∷ key.m2 ∷ key.m3 ∷ (mask_from 0 key payload ++ more)

  -- Each frame that is sent, of a payload of fewer than 2^64 bytes and with a mask of bytes, is
  -- read as one frame whatever bytes are behind it: with the opcode's low four bits and the
  -- payload that was sent, and the bytes behind it are left.
  pub read_frame-raw_frame :
      read_frame (raw_frame opcode payload key ++ more)
      ≡ some (record { opcode = opcode % 16; payload = payload; rest = more })
  unfolding raw_frame
  read_frame-raw_frame =
      let h = header (length payload) tail_bytes short_enough in
      let tail = key.m0 ∷ key.m1 ∷ key.m2 ∷ key.m3 ∷ mask_from 0 key payload in
      let low : (128 + opcode % 16) % 16 ≡ opcode % 16 = omega arith in
      ap (λ l. read_frame ((128 + opcode % 16) ∷ (l ++ tail) ++ more)) h.written
      ∙ ap (λ l. read_frame ((128 + opcode % 16) ∷ h.second ∷ l))
          (append_assoc h.extended tail more)
      ∙ unfold read_frame in
        rw (h.reads, read_frame)
          (rw h.masked (
            unfold read_mask in
            rw low (payload_read (opcode % 16) key payload more mask_bytes payload_bytes)))
