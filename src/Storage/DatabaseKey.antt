-- ===== src/Storage/DatabaseKey.antt =====
-- `getOrCreateDatabaseKey` of client/src/storage/DatabaseManager.ts.
use tor_e2ee_messenger.Common.{
  ◌≡◌, refl, ap, ◌∙◌, Bool, true, not, Option, none, some, Text, truthy, if◌then◌else◌,
  Option-cases, inl, inr,
}
use tor_e2ee_messenger.Identity.Keychain.{Keychain}

-- Whether the two calls of the keychain work, and the two keys that may be drawn.
pub record KeyDraws : Type 0 where
  pub get_works : Bool
  pub set_works : Bool
  pub new_key : Text
  pub fallback_key : Text

abbrev pub kept_or_new : KeyDraws → Option Text → Keychain → Text × Keychain
kept_or_new draws (some key) keychain = (key, keychain)
kept_or_new draws none keychain =
    if draws.set_works
    then (draws.new_key, record keychain { password = some draws.new_key })
    else (draws.fallback_key, keychain)

-- A call of the keychain that fails is ignored, and the key is then a fresh one that is not kept.
unfoldable pub get_or_create_database_key : KeyDraws → Keychain → Text × Keychain
get_or_create_database_key draws keychain =
    if not keychain.is_installed
    then (draws.fallback_key, keychain)
    else if draws.get_works
    then kept_or_new draws (truthy keychain.password) keychain
    else (draws.fallback_key, keychain)

abbrev pub holding : Option Text → Keychain
holding password = record { is_installed = true; password = password }

reads_key :
    (draws : KeyDraws) (password : Option Text)
    → draws.get_works ≡ true
    → get_or_create_database_key draws (holding password)
      ≡ kept_or_new draws (truthy password) (holding password)
unfolding get_or_create_database_key
reads_key draws password gets = rw gets refl

kept_key :
    (draws : KeyDraws) (password : Option Text) (key : Text)
    → draws.get_works ≡ true
    → truthy password ≡ some key
    → get_or_create_database_key draws (holding password) ≡ (key, holding password)
kept_key draws password key gets there =
    reads_key draws password gets ∙ ap (λ o. kept_or_new draws o (holding password)) there

-- With a keychain that is installed and works, a later call gives the key of the first one and leaves the
-- keychain as it is, whatever either draws, as long as a drawn key is not empty.
pub get_or_create_database_key-again :
    (first later : KeyDraws) (password : Option Text)
    → first.get_works ≡ true
    → first.set_works ≡ true
    → later.get_works ≡ true
    → truthy (some first.new_key) ≡ some first.new_key
    → (let r = get_or_create_database_key first (holding password) in
        get_or_create_database_key later r.1 ≡ r)
get_or_create_database_key-again first later password gets sets gets_later there =
    elim (Option-cases (truthy password)) [
      | inr (key, e) ↦
          rw (kept_key first password key gets e) (kept_key later password key gets_later e)
      | inl e ↦
          let made : get_or_create_database_key first (holding password)
              ≡ (first.new_key, holding (some first.new_key)) =
            reads_key first password gets
            ∙ ap (λ o. kept_or_new first o (holding password)) e
            ∙ rw sets refl in
          rw made (kept_key later (some first.new_key) first.new_key gets_later there)
    ]
