-- ===== src/Storage/MemoryShows.antt =====
-- That client/src/crypto/InMemorySignalStore.ts gives what was written.
use tor_e2ee_messenger.Common.{
  ℕ, ◌+◌, ◌-◌, ◌≡◌, refl, ap, sym, ◌∙◌, Option, none, some, List, [], ◌∷◌, Text, to_lower, lookup,
  lookup-put, lookup-remove, number_keys, text_keys, length, ◌==◌, if◌then◌else◌,
}
use tor_e2ee_messenger.Common.Result.{ok}
use tor_e2ee_messenger.Identity.{UserIdentity}
use tor_e2ee_messenger.Crypto.{SignedPreKey, SessionRecord}
use tor_e2ee_messenger.Storage.Memory.{MemoryStore, memory_store, latest_from, is_some}
use tor_e2ee_messenger.Storage.Newest.{latest_from-IsLatest}
use tor_e2ee_messenger.Storage.Distinct.{
  IsDistinct, put-IsDistinct, remove-IsDistinct, length-put, length-remove,
}
use tor_e2ee_messenger.Storage.History.{
  StoreWrite, saves_signed_pre_key, saves_one_time_pre_key, removes_one_time_pre_key, saves_session,
  removes_session, written, after_writes, is_found, signed_at, one_time_at, session_at,
  one_time_left, IsLatest, Shows,
}

-- The three maps hold what was written, each key once.
record Holds (me : UserIdentity) (ws : List StoreWrite) (s : MemoryStore) : Type 0 where
  identity : s.identity ≡ me
  signed : (n : ℕ) → lookup n s.signed_pre_keys ≡ signed_at ws n
  signed_once : IsDistinct s.signed_pre_keys
  one_time : (n : ℕ) → lookup n s.one_time_pre_keys ≡ one_time_at ws n
  one_time_once : IsDistinct s.one_time_pre_keys
  left : length s.one_time_pre_keys ≡ one_time_left ws
  session : (who : Text) → lookup (to_lower who) s.sessions ≡ session_at ws who

written-Holds :
    (me : UserIdentity) (w : StoreWrite) (ws : List StoreWrite) (s : MemoryStore)
    → Holds me ws s
    → Holds me (w ∷ ws) (written memory_store w s)
unfolding signed_at one_time_at session_at one_time_left memory_store
written-Holds me (saves_signed_pre_key k key) ws s h = record {
  identity = h.identity;
  signed = λ n.
      lookup-put n k key s.signed_pre_keys ∙ ap (λ o. if k == n then some key else o) (h.signed n);
  signed_once = put-IsDistinct k key s.signed_pre_keys h.signed_once;
  one_time = h.one_time;
  one_time_once = h.one_time_once;
  left = h.left;
  session = h.session;
}
written-Holds me (saves_one_time_pre_key k key) ws s h = record {
  identity = h.identity;
  signed = h.signed;
  signed_once = h.signed_once;
  one_time = λ n.
      lookup-put n k key s.one_time_pre_keys
      ∙ ap (λ o. if k == n then some key else o) (h.one_time n);
  one_time_once = put-IsDistinct k key s.one_time_pre_keys h.one_time_once;
  left =
      length-put k key s.one_time_pre_keys
      ∙ ap (λ o. if is_found o then length s.one_time_pre_keys else length s.one_time_pre_keys + 1)
          (h.one_time k)
      ∙ ap (λ n. if is_found (one_time_at ws k) then n else n + 1) h.left;
  session = h.session;
}
written-Holds me (removes_one_time_pre_key k) ws s h = record {
  identity = h.identity;
  signed = h.signed;
  signed_once = h.signed_once;
  one_time = λ n.
      lookup-remove n k s.one_time_pre_keys ∙ ap (λ o. if k == n then none else o) (h.one_time n);
  one_time_once = remove-IsDistinct k s.one_time_pre_keys h.one_time_once;
  left =
      length-remove k s.one_time_pre_keys h.one_time_once
      ∙ ap (λ o. if is_found o then length s.one_time_pre_keys - 1 else length s.one_time_pre_keys)
          (h.one_time k)
      ∙ ap (λ n. if is_found (one_time_at ws k) then n - 1 else n) h.left;
  session = h.session;
}
written-Holds me (saves_session whom session) ws s h = record {
  identity = h.identity;
  signed = h.signed;
  signed_once = h.signed_once;
  one_time = h.one_time;
  one_time_once = h.one_time_once;
  left = h.left;
  session = λ who.
      lookup-put (to_lower who) (to_lower whom) session s.sessions
      ∙ ap (λ o. if to_lower whom == to_lower who then some session else o) (h.session who);
}
written-Holds me (removes_session whom) ws s h = record {
  identity = h.identity;
  signed = h.signed;
  signed_once = h.signed_once;
  one_time = h.one_time;
  one_time_once = h.one_time_once;
  left = h.left;
  session = λ who.
      lookup-remove (to_lower who) (to_lower whom) s.sessions
      ∙ ap (λ o. if to_lower whom == to_lower who then none else o) (h.session who);
}

-- The store of a client that has written nothing yet.
abbrev pub new_memory_store : UserIdentity → MemoryStore
new_memory_store me = record {
  identity = me;
  signed_pre_keys = [];
  one_time_pre_keys = [];
  sessions = [];
}

after_writes-Holds :
    (me : UserIdentity) (ws : List StoreWrite)
    → Holds me ws (after_writes memory_store ws (new_memory_store me))
unfolding signed_at one_time_at session_at one_time_left lookup
after_writes-Holds me [] = record {
  identity = refl;
  signed = λ n. refl;
  signed_once = tt;
  one_time = λ n. refl;
  one_time_once = tt;
  left = refl;
  session = λ who. refl;
}
after_writes-Holds me (w ∷ ws) =
    written-Holds me w ws (after_writes memory_store ws (new_memory_store me))
      (after_writes-Holds me ws)

lookup-IsLatest :
    (rows : List (ℕ × SignedPreKey)) (keys : ℕ → Option SignedPreKey) (latest : Option SignedPreKey)
    → ((n : ℕ) → lookup n rows ≡ keys n)
    → IsLatest (λ n. lookup n rows) latest
    → IsLatest keys latest
lookup-IsLatest rows keys none same h = λ n. sym (same n) ∙ h n
lookup-IsLatest rows keys (some best) same ((n, e), bound) =
    ((n, sym (same n) ∙ e), λ i key f. bound i key (same i ∙ f))

-- After any writes to a new store in memory, its seven reads give what was written: the keys and the
-- sessions that were saved last and not removed since, a signed pre-key that none is newer than, and how
-- many ids have a one-time pre-key.
pub memory_store-Shows :
    (me : UserIdentity) (ws : List StoreWrite)
    → Shows memory_store me ws (after_writes memory_store ws (new_memory_store me))
unfolding memory_store
memory_store-Shows me ws =
    let h = after_writes-Holds me ws in
    let s = after_writes memory_store ws (new_memory_store me) in
    record {
      identity = h.identity;
      signed_pre_key = λ n. ap ok (h.signed n);
      latest_signed_pre_key = (
        latest_from none s.signed_pre_keys,
        refl,
        lookup-IsLatest s.signed_pre_keys (signed_at ws) (latest_from none s.signed_pre_keys)
            h.signed (latest_from-IsLatest s.signed_pre_keys h.signed_once),
      );
      one_time_pre_key = λ n. ap ok (h.one_time n);
      one_time_pre_keys_left = h.left;
      session = λ who. ap ok (h.session who);
      session_known = λ who. known _ _ (h.session who);
    }
  where
    known : (a b : Option SessionRecord) → a ≡ b → is_some a ≡ is_found b
    known none b e = ap is_found e
    known (some a) b e = ap is_found e
