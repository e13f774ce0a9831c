-- ===== src/Storage/Sqlite.antt =====
-- client/src/storage/SqliteSignalStore.ts, with a table as the list of its rows under their primary key:
-- `INSERT … ON CONFLICT DO UPDATE` is `put`, `SELECT … WHERE` is `lookup`, `DELETE` is `remove`. Of
-- signed pre-keys with one creation time, SQL may take any; here it takes the first.
use tor_e2ee_messenger.Common.{
  ℕ, ◌≡◌, refl, ap, ◌∙◌, Bool, true, false, Option, none, some, List, [], ◌∷◌, Text, to_lower, ltb,
  lookup, put, remove, lookup-put, lookup-remove, number_keys, text_keys, length, if◌then◌else◌,
  ◌==◌,
}
use tor_e2ee_messenger.Common.Result.{Result, ok, err}
use tor_e2ee_messenger.Platform.{Platform}
use tor_e2ee_messenger.Identity.{UserIdentity}
use tor_e2ee_messenger.Crypto.{SessionRecord, CryptoError}
use tor_e2ee_messenger.Crypto.Store.{SignalStore, IsSignalStore}
use tor_e2ee_messenger.Storage.Records.{
  StoredSignedPreKey, StoredOneTimePreKey, StoredSession, serialize_signed_pre_key,
  deserialize_signed_pre_key, serialize_one_time_pre_key, deserialize_one_time_pre_key,
  serialize_session, deserialize_session, deserialize_session-serialize_session,
}

pub record SqliteStore : Type 0 where
  pub identity : UserIdentity
  pub signed_prekeys : List (ℕ × (StoredSignedPreKey × ℕ))
  pub one_time_prekeys : List (ℕ × StoredOneTimePreKey)
  pub sessions : List (Text × (StoredSession × ℕ))

-- A row that was found is decoded.
abbrev pub decode {ℓ κ} :
    {A : Type ℓ} {B : Type κ}
    → (A → Result CryptoError B)
    → Option A
    → Result CryptoError (Option B)
decode f none = ok none
decode f (some a) = elim (f a) [ ok b ↦ ok (some b) | err e ↦ err e ]

-- `ORDER BY created_at DESC LIMIT 1`
unfoldable pub newest :
    Option (StoredSignedPreKey × ℕ)
    → List (ℕ × (StoredSignedPreKey × ℕ))
    → Option (StoredSignedPreKey × ℕ)
newest best [] = best
newest none ((_, row) ∷ rows) = newest (some row) rows
newest (some best) ((_, row) ∷ rows) =
    newest (if ltb best.1 row.1 then some row else some best) rows

abbrev pub counted {ℓ} : {A : Type ℓ} → Option A → Bool
counted none = false
counted (some _) = true

module _ (p : Platform) where
  unfoldable pub sqlite_store : SignalStore SqliteStore
  unfolding newest lookup put remove
  sqlite_store = record {
    get_identity = λ s. s.identity;
    save_signed_pre_key = λ key_id key s. record s {
      signed_prekeys = put key_id (serialize_signed_pre_key p key, key.created_at) s.signed_prekeys;
    };
    get_signed_pre_key = λ s key_id.
        decode (λ row. deserialize_signed_pre_key p row.0) (lookup key_id s.signed_prekeys);
    get_latest_signed_pre_key =
        λ s. decode (λ row. deserialize_signed_pre_key p row.0) (newest none s.signed_prekeys);
    save_one_time_pre_key = λ key_id key s. record s {
      one_time_prekeys = put key_id (serialize_one_time_pre_key p key) s.one_time_prekeys;
    };
    get_one_time_pre_key =
        λ s key_id. decode (deserialize_one_time_pre_key p) (lookup key_id s.one_time_prekeys);
    remove_one_time_pre_key =
        λ key_id s. record s { one_time_prekeys = remove key_id s.one_time_prekeys };
    count_one_time_pre_keys = λ s. length s.one_time_prekeys;
    save_session = λ recipient session s. record s {
      sessions =
          put (to_lower recipient) (serialize_session p session, session.updated_at) s.sessions;
    };
    get_session = λ s recipient.
        decode (λ row. deserialize_session p row.0) (lookup (to_lower recipient) s.sessions);
    has_session = λ s recipient. counted (lookup (to_lower recipient) s.sessions);
    remove_session = λ recipient s. record s { sessions = remove (to_lower recipient) s.sessions };
  }

  saved :
      (same : Bool) (v : SessionRecord) (old : Option (StoredSession × ℕ))
      → deserialize_session p (serialize_session p v) ≡ ok v
      → decode
          (λ row. deserialize_session p row.0)
          (if same then some (serialize_session p v, v.updated_at) else old)
        ≡ (if same then ok (some v) else decode (λ row. deserialize_session p row.0) old)
  saved true v old h = rw (h, decode) refl
  saved false v old h = refl

  removed :
      (same : Bool) (old : Option StoredOneTimePreKey)
      → decode (deserialize_one_time_pre_key p) (if same then none else old)
        ≡ (if same then ok none else decode (deserialize_one_time_pre_key p) old)
  removed true old = refl
  removed false old = refl

  -- The SQLite store does what the engine relies on, over the stored form of the records.
  pub sqlite_store-IsSignalStore : IsSignalStore p sqlite_store
  unfolding sqlite_store
  sqlite_store-IsSignalStore = record {
    get_session-save_session = λ k j v s h.
        ap (decode (λ row. deserialize_session p row.0))
          (lookup-put (to_lower j) (to_lower k) _ s.sessions)
        ∙ saved (to_lower k == to_lower j) v _ (deserialize_session-serialize_session p v h);
    get_session-remove_one_time_pre_key = λ n j s. refl;
    get_one_time_pre_key-remove_one_time_pre_key = λ n m s.
        ap (decode (deserialize_one_time_pre_key p)) (lookup-remove m n s.one_time_prekeys)
        ∙ removed (n == m) _;
    get_one_time_pre_key-save_session = λ k v m s. refl;
    get_identity-save_session = λ k v s. refl;
  }
