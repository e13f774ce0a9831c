-- ===== src/Storage/Stored.antt =====
-- That what is left of the writes to a store was written, in the form that the theorems about
-- client/src/storage/SqliteSignalStore.ts ask for.
use tor_e2ee_messenger.Common.{
  ℕ, ◌≡◌, subst, Option, none, some, List, [], ◌∷◌, Text, to_lower, number_keys, text_keys,
  Bool-cases, inl, inr, ◌==◌,
}
use tor_e2ee_messenger.Platform.{Platform}
use tor_e2ee_messenger.Crypto.{SignedPreKey, OneTimePreKey, SessionRecord}
use tor_e2ee_messenger.Crypto.Store.{IsKeyPair}
use tor_e2ee_messenger.Storage.History.{
  StoreWrite, saves_signed_pre_key, saves_one_time_pre_key, removes_one_time_pre_key, saves_session,
  removes_session, signed_at, one_time_at, session_at, IsLatest, IsStorable,
}

module _ (p : Platform) where
  -- A key or a session that the writes left was written, so it is decoded.
  pub signed_stored :
      (ws : List StoreWrite) (n : ℕ) (key : SignedPreKey)
      → IsStorable p ws
      → signed_at ws n ≡ some key
      → IsKeyPair p key.key_pair
  unfolding signed_at
  signed_stored [] n key h e = absurd cc
  signed_stored (saves_signed_pre_key k new ∷ ws) n key (h, hs) e = elim (Bool-cases (k == n)) [
    | inl same ↦
        let e' : some new ≡ some key = rw same at e in
        let i : new ≡ key = cc in subst (λ key. IsKeyPair p key.key_pair) i h
    | inr other ↦ signed_stored ws n key hs (rw other at e)
  ]
  signed_stored (saves_one_time_pre_key k new ∷ ws) n key (h, hs) e = signed_stored ws n key hs e
  signed_stored (removes_one_time_pre_key k ∷ ws) n key hs e = signed_stored ws n key hs e
  signed_stored (saves_session who session ∷ ws) n key (h, hs) e = signed_stored ws n key hs e
  signed_stored (removes_session who ∷ ws) n key hs e = signed_stored ws n key hs e

  pub one_time_stored :
      (ws : List StoreWrite) (n : ℕ) (key : OneTimePreKey)
      → IsStorable p ws
      → one_time_at ws n ≡ some key
      → IsKeyPair p key.key_pair
  unfolding one_time_at
  one_time_stored [] n key h e = absurd cc
  one_time_stored (saves_signed_pre_key k new ∷ ws) n key (h, hs) e = one_time_stored ws n key hs e
  one_time_stored (saves_one_time_pre_key k new ∷ ws) n key (h, hs) e = elim (Bool-cases (k == n)) [
    | inl same ↦
        let e' : some new ≡ some key = rw same at e in
        let i : new ≡ key = cc in subst (λ key. IsKeyPair p key.key_pair) i h
    | inr other ↦ one_time_stored ws n key hs (rw other at e)
  ]
  one_time_stored (removes_one_time_pre_key k ∷ ws) n key hs e = elim (Bool-cases (k == n)) [
    | inl same ↦ absurd (let e' : none ≡ some key = rw same at e in cc)
    | inr other ↦ one_time_stored ws n key hs (rw other at e)
  ]
  one_time_stored (saves_session who session ∷ ws) n key (h, hs) e = one_time_stored ws n key hs e
  one_time_stored (removes_session who ∷ ws) n key hs e = one_time_stored ws n key hs e

  pub session_stored :
      (ws : List StoreWrite) (who : Text) (session : SessionRecord)
      → IsStorable p ws
      → session_at ws who ≡ some session
      → IsKeyPair p session.local_dh_key_pair
  unfolding session_at
  session_stored [] who session h e = absurd cc
  session_stored (saves_signed_pre_key k key ∷ ws) who session (h, hs) e =
      session_stored ws who session hs e
  session_stored (saves_one_time_pre_key k key ∷ ws) who session (h, hs) e =
      session_stored ws who session hs e
  session_stored (removes_one_time_pre_key k ∷ ws) who session hs e =
      session_stored ws who session hs e
  session_stored (saves_session whom new ∷ ws) who session (h, hs) e =
      elim (Bool-cases (to_lower whom == to_lower who)) [
        | inl same ↦
            let e' : some new ≡ some session = rw same at e in
            let i : new ≡ session = cc in subst (λ s. IsKeyPair p s.local_dh_key_pair) i h
        | inr other ↦ session_stored ws who session hs (rw other at e)
      ]
  session_stored (removes_session whom ∷ ws) who session hs e =
      elim (Bool-cases (to_lower whom == to_lower who)) [
        | inl same ↦ absurd (let e' : none ≡ some session = rw same at e in cc)
        | inr other ↦ session_stored ws who session hs (rw other at e)
      ]

  pub latest_stored :
      (ws : List StoreWrite) (latest : Option SignedPreKey)
      → IsStorable p ws
      → IsLatest (signed_at ws) latest
      → (key : SignedPreKey) → latest ≡ some key
      → IsKeyPair p key.key_pair
  latest_stored ws none hs h key e = absurd cc
  latest_stored ws (some best) hs ((n, found), bound) key e =
      let same : best ≡ key = cc in
      subst (λ key. IsKeyPair p key.key_pair) same (signed_stored ws n best hs found)
