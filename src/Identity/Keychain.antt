-- ===== src/Identity/Keychain.antt =====
-- The derivation of an identity from its words, and the keychain, of client/src/identity/IdentityManager.ts.
-- bip39, `nacl.sign.keyPair.fromSeed` and JSON are parameters; the keychain holds one password, and the
-- arguments tell how a call of it ends.
use tor_e2ee_messenger.Common.{
  ◌≡◌, refl, ap, sym, ◌∙◌, Bool, true, false, not, Option, none, some, [], ◌∷◌, Text, Bytes, take,
  drop, to_lower, truthy, if◌then◌else◌,
}
use tor_e2ee_messenger.Common.Result.{Result, ok, err, require, ◌>>=◌}
use tor_e2ee_messenger.Platform.{Platform}
use tor_e2ee_messenger.Identity.{UserIdentity, IdentityError, compute_pubkey_hash}
use tor_e2ee_messenger.Exchange.{JsonOf}
use tor_e2ee_messenger.Exchange.Uri.{trim, is_space}

-- `validateMnemonic`, `mnemonicToSeed`, and the two keys of `nacl.sign.keyPair.fromSeed`.
pub record Bip39 : Type 0 where
  pub validate_mnemonic : Text → Bool
  pub mnemonic_to_seed : Text → Bytes
  pub sign_public : Bytes → Bytes
  pub sign_secret : Bytes → Bytes

pub data KeychainError : Type 0 where
  invalid_mnemonic keychain_failed bad_json : KeychainError
  identity_failed : IdentityError → KeychainError

-- `replace(/\s+/g, ' ')`; the flag tells whether the character before was white space.
unfoldable pub collapse_spaces : Bool → Text → Text
collapse_spaces in_space [] = []
collapse_spaces in_space (c ∷ t) =
    let after_space = collapse_spaces true t in
    let after_other = collapse_spaces false t in
    if is_space c then (if in_space then after_space else 32 ∷ after_space) else c ∷ after_other

unfoldable pub normalize_mnemonic : Text → Text
unfolding trim collapse_spaces
normalize_mnemonic t = collapse_spaces false (to_lower (trim t))

abbrev pub as_keychain {ℓ} : {A : Type ℓ} → Result IdentityError A → Result KeychainError A
as_keychain (ok a) = ok a
as_keychain (err e) = err (identity_failed e)

module _ (p : Platform) (bip : Bip39) where
  unfoldable pub derive_identity_from_mnemonic : Text → Result KeychainError UserIdentity
  derive_identity_from_mnemonic mnemonic = do
    let seed = bip.mnemonic_to_seed mnemonic
    let sign_seed = take 32 seed
    let box_secret = take 32 (drop 32 seed)
    hash ← as_keychain (compute_pubkey_hash p (bip.sign_public sign_seed))
    ok (record {
      mnemonic = mnemonic;
      signing_key = record {
        public_key = bip.sign_public sign_seed;
        secret_key = bip.sign_secret sign_seed;
        public_key_hex = p.bytes_to_hex (bip.sign_public sign_seed);
      };
      encryption_key = record {
        public_key = p.box_public box_secret;
        secret_key = box_secret;
        public_key_hex = p.bytes_to_hex (p.box_public box_secret);
      };
      recipient_pubkey_hash = hash;
    })

  unfoldable pub restore_identity : Text → Result KeychainError UserIdentity
  unfolding normalize_mnemonic derive_identity_from_mnemonic
  restore_identity mnemonic =
      let trimmed = normalize_mnemonic mnemonic in
      if not (bip.validate_mnemonic trimmed)
      then err invalid_mnemonic
      else derive_identity_from_mnemonic trimmed

pub record Keychain : Type 0 where
  pub is_installed : Bool
  pub password : Option Text

-- How `setGenericPassword` ends: it saves and resolves to an object, resolves to another value and
-- saves nothing, or throws.
pub data PasswordReply : Type 0 where
  password_saved password_refused password_throws : PasswordReply

module _ (json : JsonOf Text) where
  abbrev password_set :
      PasswordReply → UserIdentity → Keychain → Result KeychainError Bool × Keychain
  password_set password_saved identity keychain =
      (ok true, record keychain { password = some (json.write identity.mnemonic) })
  password_set password_refused identity keychain = (ok false, keychain)
  password_set password_throws identity keychain = (err keychain_failed, keychain)

  -- Without the module, the call reports success.
  unfoldable pub save_identity_to_keychain :
      PasswordReply → UserIdentity → Keychain → Result KeychainError Bool × Keychain
  save_identity_to_keychain reply identity keychain =
      if not keychain.is_installed
      then (ok true, keychain)
      else password_set reply identity keychain

unfoldable pub clear_identity_from_keychain : Bool → Keychain → Result KeychainError Bool × Keychain
clear_identity_from_keychain works keychain =
    if not keychain.is_installed
    then (ok true, keychain)
    else if works
    then (ok true, record keychain { password = none })
    else (err keychain_failed, keychain)

module _ (p : Platform) (bip : Bip39) (json : JsonOf Text) where
  abbrev some_identity :
      Result KeychainError UserIdentity → Result KeychainError (Option UserIdentity)
  some_identity (ok identity) = ok (some identity)
  some_identity (err e) = err e

  -- A mnemonic that is empty is as good as none.
  abbrev load_mnemonic : Option Text → Result KeychainError (Option UserIdentity)
  load_mnemonic none = ok none
  load_mnemonic (some mnemonic) = some_identity (restore_identity p bip mnemonic)

  abbrev load_password : Option Text → Result KeychainError (Option UserIdentity)
  load_password none = ok none
  load_password (some password) = do
    mnemonic ← require (json.read password) bad_json
    load_mnemonic (truthy (some mnemonic))

  unfoldable pub load_identity_from_keychain :
      Bool → Keychain → Result KeychainError (Option UserIdentity)
  unfolding restore_identity
  load_identity_from_keychain works keychain =
      if not keychain.is_installed
      then ok none
      else if works
      then load_password (truthy keychain.password)
      else err keychain_failed

  hashed-mnemonic :
      (r : Result KeychainError Text) (f : Text → UserIdentity) (mnemonic : Text)
      (identity : UserIdentity)
      → ((hash : Text) → (f hash).mnemonic ≡ mnemonic)
      → (r >>= λ hash. ok (f hash)) ≡ ok identity
      → identity.mnemonic ≡ mnemonic
  hashed-mnemonic (ok hash) f mnemonic identity h e =
      let same : f hash ≡ identity = cc in sym (ap (λ i. i.mnemonic) same) ∙ h hash
  hashed-mnemonic (err x) f mnemonic identity h e = absurd cc

  derived-mnemonic :
      (mnemonic : Text) (identity : UserIdentity)
      → derive_identity_from_mnemonic p bip mnemonic ≡ ok identity
      → identity.mnemonic ≡ mnemonic
  unfolding derive_identity_from_mnemonic
  derived-mnemonic mnemonic identity e = hashed-mnemonic _ _ mnemonic identity (λ hash. refl) e

  restored :
      (mnemonic : Text) (identity : UserIdentity)
      → normalize_mnemonic mnemonic ≡ mnemonic
      → bip.validate_mnemonic mnemonic ≡ true
      → derive_identity_from_mnemonic p bip mnemonic ≡ ok identity
      → restore_identity p bip mnemonic ≡ ok identity
  unfolding restore_identity
  restored mnemonic identity normal valid derived = rw normal (rw valid derived)

  saved_lem :
      (mnemonic : Text) (identity : UserIdentity) (keychain : Keychain)
      → identity.mnemonic ≡ mnemonic
      → keychain.is_installed ≡ true
      → (save_identity_to_keychain json password_saved identity keychain).1
        ≡ record { is_installed = true; password = some (json.write mnemonic) }
  unfolding save_identity_to_keychain
  saved_lem mnemonic identity keychain words installed =
      let kept : Text → Keychain =
        λ t. record { is_installed = true; password = some (json.write t) } in
      rw installed (ap kept words)

  -- An identity derived from words that bip39 accepts, written as it writes them, is saved to a keychain
  -- that is installed and works. Whatever the keychain held, loading then gives the same identity, with the
  -- same keys.
  pub load_identity-save_identity :
      (mnemonic : Text) (identity : UserIdentity) (keychain : Keychain)
      → normalize_mnemonic mnemonic ≡ mnemonic
      → bip.validate_mnemonic mnemonic ≡ true
      → derive_identity_from_mnemonic p bip mnemonic ≡ ok identity
      → truthy (some mnemonic) ≡ some mnemonic
      → truthy (some (json.write mnemonic)) ≡ some (json.write mnemonic)
      → json.read (json.write mnemonic) ≡ some mnemonic
      → keychain.is_installed ≡ true
      → load_identity_from_keychain true
          (save_identity_to_keychain json password_saved identity keychain).1
        ≡ ok (some identity)
  unfolding load_identity_from_keychain save_identity_to_keychain
  load_identity-save_identity mnemonic identity keychain normal valid derived some_words some_text
        round installed =
      rw
        (saved_lem mnemonic identity keychain (derived-mnemonic mnemonic identity derived)
          installed)
        (rw some_text
          (rw round (rw some_words (rw (restored mnemonic identity normal valid derived) refl))))
