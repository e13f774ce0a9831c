-- ===== src/Exchange/Contact.antt =====
-- client/src/orchestration/ContactExchange.ts.
use tor_e2ee_messenger.Common.{
  ◌≡◌, refl, subst, Bool, true, not, ◌||◌, Option, some, Text, Bytes, codes, is_empty,
  if◌then◌else◌, Bool-cases, inl, inr, Option-cases,
}
use tor_e2ee_messenger.Common.Result.{Result, ok, err, require, ◌>>=◌}
use tor_e2ee_messenger.Platform.{Platform}
use tor_e2ee_messenger.Identity.{compute_pubkey_hash, verify_signature, IdentityError}
use tor_e2ee_messenger.Crypto.{PreKeyBundle, BundleSignedPreKey, BundleOneTimePreKey}
use tor_e2ee_messenger.Exchange.{SearchParam, JsonOf}
use tor_e2ee_messenger.Exchange.Uri.{
  ExchangeError, missing_keys, bad_signature, library_error, export_uri, read_payload_of,
}

pub record ContactExportPayload : Type 0 where
  pub signing_key_hex : Text
  pub identity_key_hex : Text
  pub signed_pre_key : BundleSignedPreKey
  pub one_time_pre_key : Option BundleOneTimePreKey
  pub alias_name : Option Text

pub record ParsedContact : Type 0 where
  pub payload : ContactExportPayload
  pub recipient_pubkey_hash : Text
  pub bundle : PreKeyBundle

abbrev pub contact_uri_scheme : Text
contact_uri_scheme = codes "tore2ee://contact"

unfoldable pub export_payload : PreKeyBundle → Option Text → ContactExportPayload
export_payload bundle alias_name = record {
  signing_key_hex = bundle.signing_key_hex;
  identity_key_hex = bundle.identity_key_hex;
  signed_pre_key = bundle.signed_pre_key;
  one_time_pre_key = bundle.one_time_pre_key;
  alias_name = alias_name;
}

unfoldable pub payload_bundle : ContactExportPayload → PreKeyBundle
payload_bundle payload = record {
  identity_key_hex = payload.identity_key_hex;
  signing_key_hex = payload.signing_key_hex;
  signed_pre_key = payload.signed_pre_key;
  one_time_pre_key = payload.one_time_pre_key;
}

-- The fields that must be there.
unfoldable pub misses_keys : ContactExportPayload → Bool
misses_keys payload =
    is_empty payload.signing_key_hex
    || is_empty payload.identity_key_hex
    || is_empty payload.signed_pre_key.public_key_hex
    || is_empty payload.signed_pre_key.signature_hex

abbrev pub as_exchange {ℓ} : {A : Type ℓ} → Result IdentityError A → Result ExchangeError A
as_exchange (ok a) = ok a
as_exchange (err e) = err library_error

module _ (p : Platform) (json : JsonOf ContactExportPayload) where
  unfoldable pub export_contact_uri : PreKeyBundle → Option Text → Text
  unfolding export_payload export_uri
  export_contact_uri bundle alias_name =
      export_uri p json contact_uri_scheme (export_payload bundle alias_name)

module _ (p : Platform) where
  -- The signature over the signed pre-key.
  abbrev pub is_signed : ContactExportPayload → Bool
  is_signed payload =
      verify_signature p payload.signed_pre_key.public_key_hex payload.signed_pre_key.signature_hex
        payload.signing_key_hex

  unfoldable pub parsed_contact : ContactExportPayload → Result ExchangeError ParsedContact
  unfolding payload_bundle
  parsed_contact payload = do
    signing_key ← require (p.hex_to_bytes payload.signing_key_hex) library_error
    hash ← as_exchange (compute_pubkey_hash p signing_key)
    ok (record { payload = payload; recipient_pubkey_hash = hash; bundle = payload_bundle payload })

  -- The checks of a payload.
  unfoldable pub check_contact : ContactExportPayload → Result ExchangeError ParsedContact
  unfolding misses_keys parsed_contact
  check_contact payload =
      if misses_keys payload
      then err missing_keys
      else if not (is_signed payload)
      then err bad_signature
      else parsed_contact payload

module _ (p : Platform) where
  -- The keys of a payload, a signature that verifies, and the mailbox hash of the signing key.
  abbrev pub IsVerified : ParsedContact → Type 0
  IsVerified contact =
      (is_signed p contact.payload ≡ true)
      × (contact.bundle ≡ payload_bundle contact.payload)
      × (key : Bytes) × (p.hex_to_bytes contact.payload.signing_key_hex ≡ some key)
      × (compute_pubkey_hash p key ≡ ok contact.recipient_pubkey_hash)

  made-IsVerified :
      (payload : ContactExportPayload) (key : Bytes) (r : Result IdentityError Text)
      (contact : ParsedContact)
      → is_signed p payload ≡ true
      → p.hex_to_bytes payload.signing_key_hex ≡ some key
      → compute_pubkey_hash p key ≡ r
      → (as_exchange r >>= λ hash. ok (record {
        payload = payload;
        recipient_pubkey_hash = hash;
        bundle = payload_bundle payload;
      }))
        ≡ ok contact
      → IsVerified contact
  made-IsVerified payload key (err e) contact signed bytes hashed h = absurd cc
  made-IsVerified payload key (ok hash) contact signed bytes hashed h =
      let made : ParsedContact = record {
        payload = payload;
        recipient_pubkey_hash = hash;
        bundle = payload_bundle payload;
      } in
      let same : made ≡ contact = cc in subst IsVerified same (signed, refl, key, bytes, hashed)

  parsed-IsVerified :
      (payload : ContactExportPayload) (contact : ParsedContact)
      → is_signed p payload ≡ true
      → parsed_contact p payload ≡ ok contact
      → IsVerified contact
  unfolding parsed_contact
  parsed-IsVerified payload contact signed h =
      elim (Option-cases (p.hex_to_bytes payload.signing_key_hex)) [
        | inl e ↦ absurd (let bad : err library_error ≡ ok contact = rw e at h in cc)
        | inr (key, e) ↦
            made-IsVerified payload key (compute_pubkey_hash p key) contact signed e refl
              (rw e at h)
      ]

  checked-IsVerified :
      (payload : ContactExportPayload) (contact : ParsedContact)
      → check_contact p payload ≡ ok contact
      → IsVerified contact
  unfolding check_contact
  checked-IsVerified payload contact h = elim (Bool-cases (misses_keys payload)) [
    | inl e ↦ absurd (let bad : err missing_keys ≡ ok contact = rw e at h in cc)
    | inr e ↦ elim (Bool-cases (is_signed p payload)) [
      | inl signed ↦ parsed-IsVerified payload contact signed (rw signed at (rw e at h))
      | inr signed ↦
          absurd (let bad : err bad_signature ≡ ok contact = rw signed at (rw e at h) in cc)
    ]
  ]

module _ (p : Platform) (search : SearchParam) (json : JsonOf ContactExportPayload) where
  unfoldable pub parse_contact_uri : Text → Result ExchangeError ParsedContact
  unfolding check_contact
  parse_contact_uri uri = do
    payload ← read_payload_of p search json contact_uri_scheme uri
    check_contact p payload

  -- Whatever text is parsed, a contact that comes out has the keys that its payload names, a signature
  -- of the signed pre-key that verifies under its signing key, and the mailbox hash of that key.
  pub parse_contact_uri-IsVerified :
      (uri : Text) (contact : ParsedContact)
      → parse_contact_uri uri ≡ ok contact
      → IsVerified p contact
  unfolding parse_contact_uri
  parse_contact_uri-IsVerified uri contact h =
      checked (read_payload_of p search json contact_uri_scheme uri) h
    where
      checked :
          (r : Result ExchangeError ContactExportPayload)
          → (r >>= check_contact p) ≡ ok contact
          → IsVerified p contact
      checked (ok payload) e = checked-IsVerified p payload contact e
      checked (err x) e = absurd cc
