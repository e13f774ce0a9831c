-- ===== src/Tests/IdentityTests.antt =====
-- An identity that is saved and loaded.
use tor_e2ee_messenger.Common.{
  ◌≡◌, refl, true, Option, none, some, [], ◌∷◌, Text, codes, take, drop,
}
use tor_e2ee_messenger.Common.Result.{ok}
use tor_e2ee_messenger.Identity.{UserIdentity, compute_pubkey_hash}
use tor_e2ee_messenger.Identity.Keychain.{
  Bip39, Keychain, password_saved, normalize_mnemonic, derive_identity_from_mnemonic,
  save_identity_to_keychain, load_identity_from_keychain, load_identity-save_identity,
}
use tor_e2ee_messenger.Exchange.{JsonOf}
use tor_e2ee_messenger.Tests.Toy.{toy, stretch}

abbrev bip : Bip39
bip = record {
  validate_mnemonic = λ t. true;
  mnemonic_to_seed = λ t. stretch 64 9;
  sign_public = λ seed. seed;
  sign_secret = λ seed. stretch 64 3;
}

abbrev words : Text
words = codes "able acid"

abbrev able : UserIdentity
able = record {
  mnemonic = words;
  signing_key = record {
    public_key = take 32 (stretch 64 9);
    secret_key = stretch 64 3;
    public_key_hex = toy.bytes_to_hex (take 32 (stretch 64 9));
  };
  encryption_key = record {
    public_key = take 32 (drop 32 (stretch 64 9));
    secret_key = take 32 (drop 32 (stretch 64 9));
    public_key_hex = toy.bytes_to_hex (take 32 (drop 32 (stretch 64 9)));
  };
  recipient_pubkey_hash = toy.bytes_to_hex (toy.sha256 (take 32 (stretch 64 9)));
}

derives : derive_identity_from_mnemonic toy bip words ≡ ok able
unfolding derive_identity_from_mnemonic compute_pubkey_hash
derives = refl

words_normal : normalize_mnemonic words ≡ words
unfolding normalize_mnemonic
words_normal = refl

abbrev unquoted : Text → Option Text
unquoted [] = none
unquoted (_ ∷ t) = some t

abbrev json : JsonOf Text
json = record { write = λ t. 34 ∷ t; read = unquoted }

abbrev locked : Keychain
locked = record { is_installed = true; password = some (codes "old") }

load_identity-save_identity_example :
    load_identity_from_keychain toy bip json true
      (save_identity_to_keychain json password_saved able locked).1
    ≡ ok (some able)
load_identity-save_identity_example =
    load_identity-save_identity toy bip json words able locked words_normal refl derives refl refl
      refl refl
