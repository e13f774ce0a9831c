-- ===== src/Storage/SqliteShows.antt =====
-- That client/src/storage/SqliteSignalStore.ts gives what was written: its tables are those of the store in
-- memory, row by row in their stored form.
use tor_e2ee_messenger.Common.{
  ℕ, ◌≡◌, refl, ap, sym, subst, ◌∙◌, Option, none, some, List, [], ◌∷◌, to_lower, ltb, lookup,
  number_keys, text_keys, Bool-cases, inl, inr,
}
use mathlib.Core.Option
use tor_e2ee_messenger.Common.Result.{ok}
use tor_e2ee_messenger.Platform.{Platform}
use tor_e2ee_messenger.Identity.{UserIdentity}
use tor_e2ee_messenger.Crypto.{SignedPreKey, SessionRecord}
use tor_e2ee_messenger.Crypto.Store.{IsKeyPair}
use tor_e2ee_messenger.Storage.Records.{
  StoredSignedPreKey, StoredSession, serialize_signed_pre_key, serialize_one_time_pre_key,
  serialize_session, deserialize_signed_pre_key, deserialize_one_time_pre_key, deserialize_session,
  deserialize_session-serialize_session, deserialize-serialize_one_time_pre_key,
  deserialize-serialize_signed_pre_key,
}
use tor_e2ee_messenger.Storage.Memory.{MemoryStore, memory_store, latest_from}
use tor_e2ee_messenger.Storage.MemoryShows.{new_memory_store, memory_store-Shows}
use tor_e2ee_messenger.Storage.Sqlite.{SqliteStore, sqlite_store, newest, decode, counted}
use tor_e2ee_messenger.Storage.Rows.{
  rows_of, rows_of-put, rows_of-remove, lookup-rows_of, length-rows_of, counted-map, decode-map,
}
use tor_e2ee_messenger.Storage.Stored.{
  signed_stored, one_time_stored, session_stored, latest_stored,
}
use tor_e2ee_messenger.Storage.History.{
  StoreWrite, saves_signed_pre_key, saves_one_time_pre_key, removes_one_time_pre_key, saves_session,
  removes_session, written, after_writes, signed_at, one_time_at, session_at, Shows, IsStorable,
}

module _ (p : Platform) where
  abbrev signed_row : SignedPreKey → StoredSignedPreKey × ℕ
  signed_row key = (serialize_signed_pre_key p key, key.created_at)

  abbrev session_row : SessionRecord → StoredSession × ℕ
  session_row session = (serialize_session p session, session.updated_at)

  abbrev image : MemoryStore → SqliteStore
  image s = record {
    identity = s.identity;
    signed_prekeys = rows_of signed_row s.signed_pre_keys;
    one_time_prekeys = rows_of (serialize_one_time_pre_key p) s.one_time_pre_keys;
    sessions = rows_of session_row s.sessions;
  }

  written-image :
      (w : StoreWrite) (s : MemoryStore)
      → written (sqlite_store p) w (image s) ≡ image (written memory_store w s)
  unfolding sqlite_store memory_store
  written-image (saves_signed_pre_key k key) s =
      ap (λ t. record (image s) { signed_prekeys = t })
        (rows_of-put signed_row k key s.signed_pre_keys)
  written-image (saves_one_time_pre_key k key) s =
      ap (λ t. record (image s) { one_time_prekeys = t })
        (rows_of-put (serialize_one_time_pre_key p) k key s.one_time_pre_keys)
  written-image (removes_one_time_pre_key k) s =
      ap (λ t. record (image s) { one_time_prekeys = t })
        (rows_of-remove (serialize_one_time_pre_key p) k s.one_time_pre_keys)
  written-image (saves_session who session) s =
      ap (λ t. record (image s) { sessions = t })
        (rows_of-put session_row (to_lower who) session s.sessions)
  written-image (removes_session who) s =
      ap (λ t. record (image s) { sessions = t })
        (rows_of-remove session_row (to_lower who) s.sessions)

  newest-rows_of :
      (best : Option SignedPreKey) (rows : List (ℕ × SignedPreKey))
      → newest (Option.map signed_row best) (rows_of signed_row rows)
        ≡ Option.map signed_row (latest_from best rows)
  unfolding newest latest_from rows_of
  newest-rows_of best [] = refl
  newest-rows_of none ((k, key) ∷ rows) = newest-rows_of (some key) rows
  newest-rows_of (some best) ((k, key) ∷ rows) =
      elim (Bool-cases (ltb best.created_at key.created_at)) [
        | inl newer ↦ rw newer (newest-rows_of (some key) rows)
        | inr older ↦ rw older (newest-rows_of (some best) rows)
      ]

  -- The tables of a client that has written nothing yet.
  abbrev pub new_sqlite_store : UserIdentity → SqliteStore
  new_sqlite_store me = record {
    identity = me;
    signed_prekeys = [];
    one_time_prekeys = [];
    sessions = [];
  }

  after_writes-image :
      (me : UserIdentity) (ws : List StoreWrite)
      → after_writes (sqlite_store p) ws (new_sqlite_store me)
        ≡ image (after_writes memory_store ws (new_memory_store me))
  unfolding rows_of
  after_writes-image me [] = refl
  after_writes-image me (w ∷ ws) =
      ap (written (sqlite_store p) w) (after_writes-image me ws)
      ∙ written-image w (after_writes memory_store ws (new_memory_store me))

  read_signed :
      (ws : List StoreWrite) (o : Option SignedPreKey)
      → ((key : SignedPreKey) → o ≡ some key → IsKeyPair p key.key_pair)
      → decode (λ row. deserialize_signed_pre_key p row.0) (Option.map signed_row o) ≡ ok o
  read_signed ws o h =
      decode-map signed_row (λ row. deserialize_signed_pre_key p row.0) o
        (λ key e. deserialize-serialize_signed_pre_key p key (h key e))

  image-Shows :
      (me : UserIdentity) (ws : List StoreWrite) (s : MemoryStore)
      → IsStorable p ws
      → Shows memory_store me ws s
      → Shows (sqlite_store p) me ws (image s)
  unfolding sqlite_store memory_store
  image-Shows me ws s hs h =
      let (latest, e, is_latest) = h.latest_signed_pre_key in
      let read_latest : latest_from none s.signed_pre_keys ≡ latest = cc in
      record {
        identity = h.identity;
        signed_pre_key = λ n.
            let e : lookup n s.signed_pre_keys ≡ signed_at ws n =
              (let q = h.signed_pre_key n in cc) in
            ap (decode (λ row. deserialize_signed_pre_key p row.0))
              (lookup-rows_of signed_row n s.signed_pre_keys ∙ ap (Option.map signed_row) e)
            ∙ read_signed ws (signed_at ws n) (λ key found. signed_stored p ws n key hs found);
        latest_signed_pre_key = (
          latest,
          ap (decode (λ row. deserialize_signed_pre_key p row.0))
                (newest-rows_of none s.signed_pre_keys ∙ ap (Option.map signed_row) read_latest)
              ∙ read_signed ws latest (latest_stored p ws latest hs is_latest),
          is_latest,
        );
        one_time_pre_key = λ n.
            let e : lookup n s.one_time_pre_keys ≡ one_time_at ws n =
              (let q = h.one_time_pre_key n in cc) in
            ap (decode (deserialize_one_time_pre_key p)) (
              lookup-rows_of (serialize_one_time_pre_key p) n s.one_time_pre_keys
              ∙ ap (Option.map (serialize_one_time_pre_key p)) e)
            ∙ decode-map (serialize_one_time_pre_key p) (deserialize_one_time_pre_key p)
                (one_time_at ws n)
                (λ key found.
                  deserialize-serialize_one_time_pre_key p key
                    (one_time_stored p ws n key hs found));
        one_time_pre_keys_left =
            length-rows_of (serialize_one_time_pre_key p) s.one_time_pre_keys
            ∙ h.one_time_pre_keys_left;
        session = λ who.
            let e : lookup (to_lower who) s.sessions ≡ session_at ws who =
              (let q = h.session who in cc) in
            ap (decode (λ row. deserialize_session p row.0))
              (lookup-rows_of session_row (to_lower who) s.sessions ∙ ap (Option.map session_row) e)
            ∙ decode-map session_row (λ row. deserialize_session p row.0) (session_at ws who)
                (λ session found.
                  deserialize_session-serialize_session p session
                    (session_stored p ws who session hs found));
        session_known = λ who.
            let e : lookup (to_lower who) s.sessions ≡ session_at ws who =
              (let q = h.session who in cc) in
            ap counted
              (lookup-rows_of session_row (to_lower who) s.sessions ∙ ap (Option.map session_row) e)
            ∙ counted-map session_row (session_at ws who);
      }

  -- After any writes to new tables, of keys and sessions whose key pairs survive a round trip through hex,
  -- the seven reads of the SQLite store give what was written: the keys and the sessions that were saved
  -- last and not removed since, every field, a signed pre-key that none is newer than, and how many ids
  -- have a one-time pre-key.
  pub sqlite_store-Shows :
      (me : UserIdentity) (ws : List StoreWrite)
      → IsStorable p ws
      → Shows (sqlite_store p) me ws (after_writes (sqlite_store p) ws (new_sqlite_store me))
  sqlite_store-Shows me ws hs =
      subst (Shows (sqlite_store p) me ws) (sym (after_writes-image me ws)) (
        image-Shows me ws (after_writes memory_store ws (new_memory_store me)) hs
          (memory_store-Shows me ws))
