-- ===== src/Storage/History.antt =====
-- What client/src/crypto/ISignalStore.ts promises, told without a store: the writes that were made, the
-- last one first, and what each read of the interface must give after them.
use tor_e2ee_messenger.Common.{
  ℕ, ◌+◌, ◌-◌, ◌≤◌, ◌≡◌, Bool, true, false, Option, none, some, List, [], ◌∷◌, Text, to_lower, ◌==◌,
  text_keys, number_keys, if◌then◌else◌,
}
use tor_e2ee_messenger.Common.Result.{ok}
use tor_e2ee_messenger.Platform.{Platform}
use tor_e2ee_messenger.Identity.{UserIdentity}
use tor_e2ee_messenger.Crypto.{SignedPreKey, OneTimePreKey, SessionRecord}
use tor_e2ee_messenger.Crypto.Store.{SignalStore, IsKeyPair}

-- The calls that write.
pub data StoreWrite : Type 0 where
  saves_signed_pre_key : ℕ → SignedPreKey → StoreWrite
  saves_one_time_pre_key : ℕ → OneTimePreKey → StoreWrite
  removes_one_time_pre_key : ℕ → StoreWrite
  saves_session : Text → SessionRecord → StoreWrite
  removes_session : Text → StoreWrite

module _ {S : Type 0} (store : SignalStore S) where
  abbrev pub written : StoreWrite → S → S
  written (saves_signed_pre_key n key) s = store.save_signed_pre_key n key s
  written (saves_one_time_pre_key n key) s = store.save_one_time_pre_key n key s
  written (removes_one_time_pre_key n) s = store.remove_one_time_pre_key n s
  written (saves_session who session) s = store.save_session who session s
  written (removes_session who) s = store.remove_session who s

  abbrev pub after_writes : List StoreWrite → S → S
  after_writes [] s = s
  after_writes (w ∷ ws) s = written w (after_writes ws s)

abbrev pub is_found {ℓ} : {A : Type ℓ} → Option A → Bool
is_found none = false
is_found (some _) = true

-- The signed pre-key of an id is the one that was saved last.
unfoldable pub signed_at : List StoreWrite → ℕ → Option SignedPreKey
signed_at [] n = none
signed_at (saves_signed_pre_key k key ∷ ws) n =
    let before = signed_at ws n in if k == n then some key else before
signed_at (saves_one_time_pre_key k key ∷ ws) n = signed_at ws n
signed_at (removes_one_time_pre_key k ∷ ws) n = signed_at ws n
signed_at (saves_session who session ∷ ws) n = signed_at ws n
signed_at (removes_session who ∷ ws) n = signed_at ws n

-- So is the one-time pre-key, unless it was removed since.
unfoldable pub one_time_at : List StoreWrite → ℕ → Option OneTimePreKey
one_time_at [] n = none
one_time_at (saves_signed_pre_key k key ∷ ws) n = one_time_at ws n
one_time_at (saves_one_time_pre_key k key ∷ ws) n =
    let before = one_time_at ws n in if k == n then some key else before
one_time_at (removes_one_time_pre_key k ∷ ws) n =
    let before = one_time_at ws n in if k == n then none else before
one_time_at (saves_session who session ∷ ws) n = one_time_at ws n
one_time_at (removes_session who ∷ ws) n = one_time_at ws n

-- And so is the session with a recipient, whose key is read in either case.
unfoldable pub session_at : List StoreWrite → Text → Option SessionRecord
session_at [] who = none
session_at (saves_signed_pre_key k key ∷ ws) who = session_at ws who
session_at (saves_one_time_pre_key k key ∷ ws) who = session_at ws who
session_at (removes_one_time_pre_key k ∷ ws) who = session_at ws who
session_at (saves_session whom session ∷ ws) who =
    let before = session_at ws who in if to_lower whom == to_lower who then some session else before
session_at (removes_session whom ∷ ws) who =
    let before = session_at ws who in if to_lower whom == to_lower who then none else before

-- How many ids have a one-time pre-key.
unfoldable pub one_time_left : List StoreWrite → ℕ
unfolding one_time_at
one_time_left [] = 0
one_time_left (saves_signed_pre_key k key ∷ ws) = one_time_left ws
one_time_left (saves_one_time_pre_key k key ∷ ws) =
    let before = one_time_left ws in if is_found (one_time_at ws k) then before else before + 1
one_time_left (removes_one_time_pre_key k ∷ ws) =
    let before = one_time_left ws in if is_found (one_time_at ws k) then before - 1 else before
one_time_left (saves_session who session ∷ ws) = one_time_left ws
one_time_left (removes_session who ∷ ws) = one_time_left ws

-- A key that some id has, where any id has one, and that no id's key is newer than.
abbrev pub IsLatest : (ℕ → Option SignedPreKey) → Option SignedPreKey → Type 0
IsLatest keys none = (n : ℕ) → keys n ≡ none
IsLatest keys (some best) =
    ((n : ℕ) × (keys n ≡ some best))
    × ((n : ℕ) (key : SignedPreKey) → keys n ≡ some key → key.created_at ≤ best.created_at)

-- What the seven reads of the interface give after the writes.
pub record Shows {S : Type 0} (store : SignalStore S) (me : UserIdentity) (ws : List StoreWrite)
    (s : S) : Type 0 where
  pub identity : store.get_identity s ≡ me
  pub signed_pre_key : (n : ℕ) → store.get_signed_pre_key s n ≡ ok (signed_at ws n)
  pub latest_signed_pre_key :
      (latest : Option SignedPreKey) × (store.get_latest_signed_pre_key s ≡ ok latest)
      × IsLatest (signed_at ws) latest
  pub one_time_pre_key : (n : ℕ) → store.get_one_time_pre_key s n ≡ ok (one_time_at ws n)
  pub one_time_pre_keys_left : store.count_one_time_pre_keys s ≡ one_time_left ws
  pub session : (who : Text) → store.get_session s who ≡ ok (session_at ws who)
  pub session_known : (who : Text) → store.has_session s who ≡ is_found (session_at ws who)

-- The key pairs that are written survive a round trip through hex.
abbrev pub IsStorable : Platform → List StoreWrite → Type 0
IsStorable p [] = Unit
IsStorable p (saves_signed_pre_key k key ∷ ws) = IsKeyPair p key.key_pair × IsStorable p ws
IsStorable p (saves_one_time_pre_key k key ∷ ws) = IsKeyPair p key.key_pair × IsStorable p ws
IsStorable p (removes_one_time_pre_key k ∷ ws) = IsStorable p ws
IsStorable p (saves_session who session ∷ ws) =
    IsKeyPair p session.local_dh_key_pair × IsStorable p ws
IsStorable p (removes_session who ∷ ws) = IsStorable p ws
