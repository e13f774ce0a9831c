-- ===== src/Network/Frame/Stable.antt =====
-- A frame that can be read stays the same when more bytes arrive: the loop of `handleRawData` does
-- not depend on how the stream is cut into chunks.
use tor_e2ee_messenger.Common.{
  ℕ, ◌%◌, ◌/◌, ◌<◌, ◌≡◌, ap, Bool, true, false, Option, none, some, [], ◌∷◌, ◌++◌, Bytes, nat_eq,
  ltb, length, length-append, take, drop, drop-append_le, take-append_le, arith, if◌then◌else◌,
  le→ltb, lt→ltb, Bool-cases, inl, inr, Option-cases,
}
use native.Mathlib.Decide.{dec_lt}
use tor_e2ee_messenger.Network.Frame.{
  MaskKey, Frame, read_length, read_mask, unmask, read_payload, read_frame, from_be,
}

-- A frame with more bytes behind it.
abbrev pub extend : Bytes → Frame → Frame
extend more f = record f { rest = f.rest ++ more }

abbrev extend_all : Bytes → Option Frame → Option Frame
extend_all more none = none
extend_all more (some f) = some (extend more f)

abbrev behind : Bytes → Option (ℕ × Bytes) → Option (ℕ × Bytes)
behind more none = none
behind more (some (n, r)) = some (n, r ++ more)

-- The read of an extended length of k bytes.
abbrev extended : ℕ → Bytes → Option (ℕ × Bytes)
extended k b =
    if◌then◌else◌ {A = Option (ℕ × Bytes)} (ltb (length b) k) none
      (some (from_be 0 (take k b), drop k b))

cut :
    (k : ℕ) (b more : Bytes) (n : ℕ) (r : Bytes)
    → extended k b ≡ some (n, r)
    → extended k (b ++ more) ≡ some (n, r ++ more)
cut k b more n r h = elim (dec_lt (length b) k) [
  | yes short ↦ let e = lt→ltb (length b) k short in absurd (ground arith)
  | no enough ↦
      let e : some (from_be 0 (take k b), drop k b) ≡ some (n, r) =
        rw (le→ltb (length b) k (omega arith)) at h in
      rw (le→ltb (length (b ++ more)) k (omega (arith, length-append b more))) (
        rw (take-append_le k b more (omega arith))
          (rw (drop-append_le k b more (omega arith)) (ap (behind more) e)))
]

read_length-append :
    (s : ℕ) (b more : Bytes) (n : ℕ) (r : Bytes)
    → read_length s b ≡ some (n, r)
    → read_length s (b ++ more) ≡ some (n, r ++ more)
unfolding read_length
read_length-append s b more n r h = elim (Bool-cases (nat_eq s 126)) [
  | inl e ↦ rw e (cut 2 b more n r (rw e at h))
  | inr e ↦ elim (Bool-cases (nat_eq s 127)) [
    | inl e' ↦ rw e (rw e' (cut 8 b more n r (rw e' at (rw e at h))))
    | inr e' ↦ ground arith
  ]
]

read_mask-append :
    (m : Bool) (b more : Bytes) (key : Option MaskKey) (r : Bytes)
    → read_mask m b ≡ some (key, r)
    → read_mask m (b ++ more) ≡ some (key, r ++ more)
unfolding read_mask
read_mask-append false b more key r h = ground arith
read_mask-append true (a ∷ b ∷ c ∷ d ∷ rest) more key r h = ground arith
read_mask-append true [] more key r h = cc
read_mask-append true (a ∷ []) more key r h = cc
read_mask-append true (a ∷ b ∷ []) more key r h = cc
read_mask-append true (a ∷ b ∷ c ∷ []) more key r h = cc

read_payload-append :
    (opcode n : ℕ) (key : Option MaskKey) (b more : Bytes) (f : Frame)
    → read_payload opcode n key b ≡ some f
    → read_payload opcode n key (b ++ more) ≡ some (extend more f)
unfolding read_payload
read_payload-append opcode n key b more f h = elim (dec_lt (length b) n) [
  | yes short ↦ let e = lt→ltb (length b) n short in absurd (ground arith)
  | no enough ↦ rw (le→ltb (length (b ++ more)) n (omega (arith, length-append b more))) (
      rw (take-append_le n b more (omega arith))
        (rw (drop-append_le n b more (omega arith)) (ap (extend_all more) (whole enough))))
]
  where
    whole :
        ¬ (length b < n)
        → some (record { opcode = opcode; payload = unmask key (take n b); rest = drop n b })
          ≡ some f
    whole enough = rw (le→ltb (length b) n (omega arith)) at h

-- Bytes that arrive later do not change the frame that the buffer begins with; they are left behind it.
pub read_frame-append :
    (b more : Bytes) (f : Frame)
    → read_frame b ≡ some f
    → read_frame (b ++ more) ≡ some (extend more f)
unfolding read_frame
read_frame-append [] more f h = cc
read_frame-append (b0 ∷ []) more f h = cc
read_frame-append (b0 ∷ b1 ∷ b) more f h = elim (Option-cases (read_length (b1 % 128) b)) [
  | inl e ↦ absurd (let bad : none ≡ some f = rw (e, read_frame) at h in cc)
  | inr ((n, r), e) ↦ elim (Option-cases (read_mask (nat_eq ((b1 / 128) % 2) 1) r)) [
    | inl e' ↦ absurd (let bad : none ≡ some f = rw e' at (rw (e, read_frame) at h) in cc)
    | inr ((key, r'), e') ↦
        let e'' : read_payload (b0 % 16) n key r' ≡ some f = rw e' at (rw (e, read_frame) at h) in
        rw (read_length-append (b1 % 128) b more n r e, read_frame)
          (rw (read_mask-append _ r more key r' e')
            (read_payload-append (b0 % 16) n key r' more f e''))
  ]
]
