-- ===== src/Storage/Memory.antt =====
-- client/src/crypto/InMemorySignalStore.ts, with the three maps as association lists. The maps hold
-- values: that a caller who keeps a session object could change it without a save is left out.
use tor_e2ee_messenger.Common.{
  ℕ, ◌≡◌, refl, Bool, true, false, Option, none, some, List, [], ◌∷◌, Text, to_lower, ltb, lookup,
  put, remove, lookup-put, lookup-remove, number_keys, text_keys, length, if◌then◌else◌,
}
use tor_e2ee_messenger.Common.Result.{Result, ok}
use tor_e2ee_messenger.Platform.{Platform}
use tor_e2ee_messenger.Identity.{UserIdentity}
use tor_e2ee_messenger.Crypto.{SignedPreKey, OneTimePreKey, SessionRecord, CryptoError}
use tor_e2ee_messenger.Crypto.Store.{SignalStore, IsSignalStore}

pub record MemoryStore : Type 0 where
  pub identity : UserIdentity
  pub signed_pre_keys : List (ℕ × SignedPreKey)
  pub one_time_pre_keys : List (ℕ × OneTimePreKey)
  pub sessions : List (Text × SessionRecord)

abbrev pub is_some {ℓ} : {A : Type ℓ} → Option A → Bool
is_some none = false
is_some (some _) = true

-- The loop of `getLatestSignedPreKey`: a later key wins only if it is newer.
unfoldable pub latest_from : Option SignedPreKey → List (ℕ × SignedPreKey) → Option SignedPreKey
latest_from latest [] = latest
latest_from none ((_, key) ∷ keys) = latest_from (some key) keys
latest_from (some best) ((_, key) ∷ keys) =
    latest_from (if ltb best.created_at key.created_at then some key else some best) keys

unfoldable pub memory_store : SignalStore MemoryStore
unfolding latest_from lookup put remove
memory_store = record {
  get_identity = λ s. s.identity;
  save_signed_pre_key =
      λ key_id key s. record s { signed_pre_keys = put key_id key s.signed_pre_keys };
  get_signed_pre_key = λ s key_id. ok (lookup key_id s.signed_pre_keys);
  get_latest_signed_pre_key = λ s. ok (latest_from none s.signed_pre_keys);
  save_one_time_pre_key =
      λ key_id key s. record s { one_time_pre_keys = put key_id key s.one_time_pre_keys };
  get_one_time_pre_key = λ s key_id. ok (lookup key_id s.one_time_pre_keys);
  remove_one_time_pre_key =
      λ key_id s. record s { one_time_pre_keys = remove key_id s.one_time_pre_keys };
  count_one_time_pre_keys = λ s. length s.one_time_pre_keys;
  save_session =
      λ recipient session s. record s { sessions = put (to_lower recipient) session s.sessions };
  get_session = λ s recipient. ok (lookup (to_lower recipient) s.sessions);
  has_session = λ s recipient. is_some (lookup (to_lower recipient) s.sessions);
  remove_session = λ recipient s. record s { sessions = remove (to_lower recipient) s.sessions };
}

ok_if {ℓ} :
    {A : Type ℓ} (b : Bool) (x y : A)
    → ◌≡◌ {A = Result CryptoError A} (ok (if b then x else y)) (if b then ok x else ok y)
ok_if true x y = refl
ok_if false x y = refl

-- The store in memory does what the engine relies on.
pub memory_store-IsSignalStore : (p : Platform) → IsSignalStore p memory_store
unfolding memory_store
memory_store-IsSignalStore p = record {
  get_session-save_session =
      λ k j v s h. simp (lookup-put (to_lower j) (to_lower k) v s.sessions) (ok_if _ _ _);
  get_session-remove_one_time_pre_key = λ n j s. refl;
  get_one_time_pre_key-remove_one_time_pre_key =
      λ n m s. simp (lookup-remove m n s.one_time_pre_keys) (ok_if _ _ _);
  get_one_time_pre_key-save_session = λ k v m s. refl;
  get_identity-save_session = λ k v s. refl;
}
