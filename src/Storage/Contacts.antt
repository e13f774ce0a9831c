-- ===== src/Storage/Contacts.antt =====
-- client/src/storage/ContactRepository.ts. The list of linked devices is stored as the text of
-- `JSON.stringify`, and is read back as the list. Of contacts with one creation time, SQL may order any
-- way; here they keep the order of the table.
use tor_e2ee_messenger.Common.{
  ℕ, Bool, true, false, not, Option, none, some, List, [], ◌∷◌, ◌++◌, Text, codes, to_lower, leb,
  nat_eq, text_eq, lookup, put, remove, text_keys, number_keys, if◌then◌else◌, keep_if, map,
}
use tor_e2ee_messenger.Common.Result.{Result, ok, err}
use tor_e2ee_messenger.Storage.Database.{
  ContactRecord, DeviceRecord, OwnDeviceRecord, StoredMessage, Database, DatabaseError,
  foreign_key_failed, contact_not_found,
}

-- The parameters of the INSERT.
unfoldable pub contact_row : ContactRecord → ContactRecord
contact_row contact = record contact {
  recipient_pubkey_hash = to_lower contact.recipient_pubkey_hash;
  identity_pubkey_hex = to_lower contact.identity_pubkey_hex;
  signing_pubkey_hex = to_lower contact.signing_pubkey_hex;
}

-- On a conflict the creation time stays.
unfoldable pub merge_contact : Option ContactRecord → ContactRecord → ContactRecord
merge_contact none new = new
merge_contact (some old) new = record new { created_at = old.created_at }

unfoldable pub save_contact : ContactRecord → Database → Database
unfolding contact_row merge_contact lookup put
save_contact contact db =
    let row = contact_row contact in
    record db {
      contacts =
          put row.recipient_pubkey_hash
            (merge_contact (lookup row.recipient_pubkey_hash db.contacts) row) db.contacts;
    }

-- The primary device, where no device is stored.
unfoldable pub primary_device : ContactRecord → DeviceRecord
primary_device row = record {
  device_id = 1;
  recipient_pubkey_hash = row.recipient_pubkey_hash;
  identity_pubkey_hex = row.identity_pubkey_hex;
  device_name = some (codes "Primary Device");
  created_at = row.created_at;
}

abbrev or_primary : ContactRecord → List DeviceRecord → List DeviceRecord
or_primary row [] = primary_device row ∷ []
or_primary row (d ∷ ds) = d ∷ ds

unfoldable pub map_row_to_contact : ContactRecord → ContactRecord
unfolding primary_device
map_row_to_contact row = record row { linked_devices = or_primary row row.linked_devices }

abbrev mapped : Option ContactRecord → Option ContactRecord
mapped none = none
mapped (some row) = some (map_row_to_contact row)

unfoldable pub get_contact_by_hash : Text → Database → Option ContactRecord
unfolding map_row_to_contact lookup
get_contact_by_hash hash db = mapped (lookup (to_lower hash) db.contacts)

unfoldable pub find_identity : Text → List (Text × ContactRecord) → Option ContactRecord
find_identity key [] = none
find_identity key ((_, row) ∷ rows) =
    if text_eq row.identity_pubkey_hex key then some row else find_identity key rows

unfoldable pub get_contact_by_identity_key : Text → Database → Option ContactRecord
unfolding map_row_to_contact find_identity
get_contact_by_identity_key key db = mapped (find_identity (to_lower key) db.contacts)

-- `ORDER BY created_at DESC`
unfoldable pub insert_newest : ContactRecord → List ContactRecord → List ContactRecord
insert_newest c [] = c ∷ []
insert_newest c (d ∷ rest) =
    let later = insert_newest c rest in
    if leb d.created_at c.created_at then c ∷ d ∷ rest else d ∷ later

unfoldable pub newest_first : List (Text × ContactRecord) → List ContactRecord
unfolding insert_newest
newest_first [] = []
newest_first ((_, row) ∷ rows) = insert_newest row (newest_first rows)

unfoldable pub list_contacts : Database → List ContactRecord
unfolding newest_first map_row_to_contact
list_contacts db = map map_row_to_contact (newest_first db.contacts)

unfoldable pub add_linked_device : Text → DeviceRecord → Database → Result DatabaseError Database
unfolding get_contact_by_hash save_contact
add_linked_device hash device db = elim (get_contact_by_hash hash db) [
  | none ↦ err contact_not_found
  | some contact ↦
      let filtered =
        keep_if (λ d. not (nat_eq d.device_id device.device_id)) contact.linked_devices in
      ok (save_contact (record contact { linked_devices = filtered ++ device ∷ [] }) db)
]

unfoldable pub get_linked_devices : Text → Database → List DeviceRecord
unfolding get_contact_by_hash
get_linked_devices hash db = elim (get_contact_by_hash hash db) [
  | none ↦ []
  | some contact ↦ contact.linked_devices
]

unfoldable pub update_alias : Text → Option Text → Database → Database
unfolding lookup put
update_alias hash name db = elim (lookup (to_lower hash) db.contacts) [
  | none ↦ db
  | some row ↦ record db {
    contacts = put (to_lower hash) (record row { alias_name = name }) db.contacts;
  }
]

unfoldable pub refers_to : Text → List StoredMessage → Bool
refers_to hash [] = false
refers_to hash (m ∷ rest) = if text_eq m.contact_pubkey_hash hash then true else refers_to hash rest

-- The messages of a contact refer to it, so the DELETE fails while there are any.
unfoldable pub delete_contact : Text → Database → Result DatabaseError Database
unfolding lookup remove refers_to
delete_contact hash db = elim (lookup (to_lower hash) db.contacts) [
  | none ↦ ok db
  | some _ ↦
      if refers_to (to_lower hash) db.messages
      then err foreign_key_failed
      else ok (record db { contacts = remove (to_lower hash) db.contacts })
]

unfoldable pub own_device_row : OwnDeviceRecord → OwnDeviceRecord
own_device_row device = record device {
  recipient_pubkey_hash = to_lower device.recipient_pubkey_hash;
  identity_pubkey_hex = to_lower device.identity_pubkey_hex;
}

unfoldable pub merge_own_device : Option OwnDeviceRecord → OwnDeviceRecord → OwnDeviceRecord
merge_own_device none new = new
merge_own_device (some old) new = record new { created_at = old.created_at }

unfoldable pub save_own_linked_device : OwnDeviceRecord → Database → Database
unfolding own_device_row merge_own_device lookup put
save_own_linked_device device db =
    let row = own_device_row device in
    record db {
      own_linked_devices =
          put row.device_id (merge_own_device (lookup row.device_id db.own_linked_devices) row)
            db.own_linked_devices;
    }

-- `ORDER BY device_id ASC`
unfoldable pub insert_by_id : OwnDeviceRecord → List OwnDeviceRecord → List OwnDeviceRecord
insert_by_id c [] = c ∷ []
insert_by_id c (d ∷ rest) =
    let later = insert_by_id c rest in
    if leb c.device_id d.device_id then c ∷ d ∷ rest else d ∷ later

unfoldable pub by_id : List (ℕ × OwnDeviceRecord) → List OwnDeviceRecord
unfolding insert_by_id
by_id [] = []
by_id ((_, row) ∷ rows) = insert_by_id row (by_id rows)

unfoldable pub list_own_linked_devices : Database → List OwnDeviceRecord
unfolding by_id
list_own_linked_devices db = by_id db.own_linked_devices

unfoldable pub delete_own_linked_device : ℕ → Database → Database
unfolding remove
delete_own_linked_device device_id db = record db {
  own_linked_devices = remove device_id db.own_linked_devices;
}
