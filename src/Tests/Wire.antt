-- ===== src/Tests/Wire.antt =====
-- A text for each message, which reads back: each part after its length.
use tor_e2ee_messenger.Common.{
  ℕ, zero, suc, ◌≡◌, refl, Option, none, some, [], ◌∷◌, ◌++◌, Text, length, take, drop, take-append,
  drop-append,
}
use tor_e2ee_messenger.Crypto.{EncryptedMessage}

abbrev put_text : Text → Text → Text
put_text t rest = length t ∷ (t ++ rest)

take_text : Text → Text × Text
take_text [] = ([], [])
take_text (n ∷ s) = (take n s, drop n s)

take_text-put_text : (t rest : Text) → take_text (put_text t rest) ≡ (t, rest)
unfolding take_text
take_text-put_text t rest = rw (take-append t rest) (rw (drop-append t rest) refl)

abbrev put_option : Option Text → Text → Text
put_option none rest = zero ∷ rest
put_option (some t) rest = suc zero ∷ put_text t rest

abbrev as_some : Text × Text → Option Text × Text
as_some r = (some r.0, r.1)

take_option : Text → Option Text × Text
take_option [] = (none, [])
take_option (zero ∷ s) = (none, s)
take_option (suc n ∷ s) = as_some (take_text s)

take_option-put_option :
    (o : Option Text) (rest : Text) → take_option (put_option o rest) ≡ (o, rest)
unfolding take_option
take_option-put_option none rest = refl
take_option-put_option (some t) rest = rw (take_text-put_text t rest) refl

abbrev number_option : Option ℕ → Option Text
number_option none = none
number_option (some n) = some (n ∷ [])

abbrev option_number : Option Text → Option ℕ
option_number none = none
option_number (some []) = none
option_number (some (n ∷ _)) = some n

number_round : (o : Option ℕ) → option_number (number_option o) ≡ o
number_round none = refl
number_round (some n) = refl

abbrev first_of : Text → ℕ
first_of [] = zero
first_of (n ∷ _) = n

abbrev pub write_wire : EncryptedMessage → Text
write_wire m =
    m.sequence_number
    ∷ m.previous_chain_length
    ∷ put_text m.ephemeral_public_key_hex (
        put_text m.ciphertext (
          put_text m.nonce (
            put_option (number_option m.one_time_pre_key_id)
              (put_option m.initial_identity_key_hex (put_option m.initial_ephemeral_key_hex [])))))

pub read_wire : Text → Option EncryptedMessage
read_wire [] = none
read_wire (_ ∷ []) = none
read_wire (number ∷ previous ∷ s) =
    let e = take_text s in
    let c = take_text e.1 in
    let n = take_text c.1 in
    let k = take_option n.1 in
    let i = take_option k.1 in
    let j = take_option i.1 in
    some (record {
      ephemeral_public_key_hex = e.0;
      sequence_number = number;
      previous_chain_length = previous;
      ciphertext = c.0;
      nonce = n.0;
      one_time_pre_key_id = option_number k.0;
      initial_identity_key_hex = i.0;
      initial_ephemeral_key_hex = j.0;
    })

pub read_wire-write_wire : (m : EncryptedMessage) → read_wire (write_wire m) ≡ some m
unfolding read_wire
read_wire-write_wire m =
    let r3 = put_option m.initial_ephemeral_key_hex [] in
    let r2 = put_option m.initial_identity_key_hex r3 in
    let r1 = put_option (number_option m.one_time_pre_key_id) r2 in
    let n = put_text m.nonce r1 in
    let c = put_text m.ciphertext n in
    rw (take_text-put_text m.ephemeral_public_key_hex c) (
      rw (take_text-put_text m.ciphertext n) (
        rw (take_text-put_text m.nonce r1) (
          rw (take_option-put_option (number_option m.one_time_pre_key_id) r2) (
            rw (take_option-put_option m.initial_identity_key_hex r3) (
              rw (take_option-put_option m.initial_ephemeral_key_hex [])
                (rw (number_round m.one_time_pre_key_id) refl))))))
