-- ===== src/Messenger/Known.antt =====
-- The contact that client/src/orchestration/AppOrchestrator.ts finds, or makes up, for a sender.
use tor_e2ee_messenger.Common.{
  ℕ, ◌≡◌, refl, ap, sym, subst, ◌∙◌, none, some, List, [], ◌∷◌, Text, to_lower, lookup, text_keys,
  text_eq, text_eq_refl, Option-cases, Bool-cases, inl, inr, ◌==◌, lookup-put_self,
}
use tor_e2ee_messenger.Common.Result.{ok}
use tor_e2ee_messenger.Crypto.Store.{SignalStore}
use tor_e2ee_messenger.Storage.Database.{ContactRecord, Database}
use tor_e2ee_messenger.Storage.Contacts.{
  get_contact_by_identity_key, find_identity, map_row_to_contact, save_contact, contact_row,
}
use tor_e2ee_messenger.Storage.Keyed.{IsKeyed}
use tor_e2ee_messenger.Messenger.{App}
use tor_e2ee_messenger.Messenger.Sender.{placeholder, named_sender}
use tor_e2ee_messenger.Messenger.Storing.{HasRow}

lookup-cons :
    (k j : Text) (row : ContactRecord) (rows : List (Text × ContactRecord))
    → (r : ContactRecord) × (lookup k rows ≡ some r)
    → (r : ContactRecord) × (lookup k ((j, row) ∷ rows) ≡ some r)
unfolding lookup
lookup-cons k j row rows (r, e) = elim (Bool-cases (j == k)) [
  | inl same ↦ (row, rw same refl)
  | inr other ↦ (r, rw other e)
]

find_identity-row :
    (key : Text) (rows : List (Text × ContactRecord)) (row : ContactRecord)
    → IsKeyed rows
    → find_identity key rows ≡ some row
    → (r : ContactRecord) × (lookup (to_lower row.recipient_pubkey_hash) rows ≡ some r)
unfolding find_identity lookup
find_identity-row key [] row keyed found = absurd cc
find_identity-row key ((j, r) ∷ rows) row ((same, lower), keyed) found =
    elim (Bool-cases (text_eq r.identity_pubkey_hex key)) [
      | inl e ↦
          let here : some r ≡ some row = rw e at found in
          let hash : to_lower row.recipient_pubkey_hash ≡ j =
            (let c : r ≡ row = cc in
              ap (λ c. to_lower c.recipient_pubkey_hash) (sym c) ∙ ap to_lower same ∙ lower) in
          (r, rw hash (rw (text_eq_refl j) refl))
      | inr e ↦ lookup-cons _ j r rows (find_identity-row key rows row keyed (rw e at found))
    ]

get_contact_by_identity_key-HasRow :
    (key : Text) (tables : Database) (contact : ContactRecord)
    → IsKeyed tables.contacts
    → get_contact_by_identity_key key tables ≡ some contact
    → HasRow contact.recipient_pubkey_hash tables
unfolding get_contact_by_identity_key map_row_to_contact
get_contact_by_identity_key-HasRow key tables contact keyed found =
    elim (Option-cases (find_identity (to_lower key) tables.contacts)) [
      | inl e ↦ absurd (let bad : none ≡ some contact = rw e at found in cc)
      | inr (row, e) ↦
          let same : some (map_row_to_contact row) ≡ some contact = rw e at found in
          let c : map_row_to_contact row ≡ contact = cc in
          subst (λ c. HasRow c.recipient_pubkey_hash tables) c
            (find_identity-row (to_lower key) tables.contacts row keyed e)
    ]

pub save_contact-HasRow :
    (c : ContactRecord) (tables : Database) → HasRow c.recipient_pubkey_hash (save_contact c tables)
unfolding save_contact contact_row
save_contact-HasRow c tables =
    (_, lookup-put_self (to_lower c.recipient_pubkey_hash) _ tables.contacts)

module _ {S : Type 0} (store : SignalStore S) where
  -- The contact of a message that names its sender: one of the table, or a new row of it.
  pub named_sender-known :
      (alias_name : Text) (now : ℕ) (key : Text) (app : App S)
      → IsKeyed app.tables.contacts
      → (contact : ContactRecord) × (tables : Database) × HasRow contact.recipient_pubkey_hash
          tables
        × (tables.messages ≡ app.tables.messages)
        × (named_sender store alias_name now key app
            ≡ (ok (to_lower key, contact), record app { tables = tables }))
  unfolding named_sender
  named_sender-known alias_name now key app keyed =
      elim (Option-cases (get_contact_by_identity_key (to_lower key) app.tables)) [
        | inl e ↦ (
          placeholder alias_name (to_lower key) now,
          save_contact (placeholder alias_name (to_lower key) now) app.tables,
          save_contact-HasRow _ app.tables,
          unfold save_contact in refl,
          rw (e, named_sender) refl,
        )
        | inr (c, e) ↦ (
          c,
          app.tables,
          get_contact_by_identity_key-HasRow (to_lower key) app.tables c keyed e,
          refl,
          rw (e, named_sender) refl,
        )
      ]
