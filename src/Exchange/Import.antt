-- ===== src/Exchange/Import.antt =====
-- `importContact` of client/src/orchestration/ContactExchange.ts.
use tor_e2ee_messenger.Common.{ℕ, Option, none, some, [], Text, Bytes, truthy}
use tor_e2ee_messenger.Common.Result.{Result, ok, err}
use tor_e2ee_messenger.Common.Action.{Action}
use tor_e2ee_messenger.Platform.{Platform}
use tor_e2ee_messenger.Crypto.{CryptoError, SessionRecord}
use tor_e2ee_messenger.Crypto.Store.{SignalStore}
use tor_e2ee_messenger.Crypto.Initiate.{initiate_session}
use tor_e2ee_messenger.Storage.Database.{ContactRecord}
use tor_e2ee_messenger.Storage.Contacts.{save_contact}
use tor_e2ee_messenger.Messenger.{App}
use tor_e2ee_messenger.Exchange.{SearchParam, JsonOf}
use tor_e2ee_messenger.Exchange.Uri.{ExchangeError}
use tor_e2ee_messenger.Exchange.Contact.{ContactExportPayload, ParsedContact, parse_contact_uri}

pub data ImportError : Type 0 where
  bad_uri : ExchangeError → ImportError
  no_session : CryptoError → ImportError

pub record ImportDraws : Type 0 where
  pub secret : Bytes
  pub session_created_at : ℕ
  pub session_updated_at : ℕ
  pub now : ℕ

-- `customAlias || payload.alias || null`
abbrev chosen_alias : Option Text → Option Text → Option Text
chosen_alias (some t) other = some t
chosen_alias none other = other

unfoldable pub imported_contact : ParsedContact → Option Text → ℕ → ContactRecord
imported_contact parsed custom_alias now = record {
  recipient_pubkey_hash = parsed.recipient_pubkey_hash;
  identity_pubkey_hex = parsed.payload.identity_key_hex;
  signing_pubkey_hex = parsed.payload.signing_key_hex;
  alias_name = chosen_alias (truthy custom_alias) (truthy parsed.payload.alias_name);
  created_at = now;
  linked_devices = [];
}

module _ (p : Platform) {S : Type 0} (store : SignalStore S) (search : SearchParam)
    (json : JsonOf ContactExportPayload) where
  abbrev session_made :
      ContactRecord → Result CryptoError SessionRecord → Result ImportError ContactRecord
  session_made contact (ok _) = ok contact
  session_made contact (err e) = err (no_session e)

  unfoldable pub import_parsed :
      ImportDraws
      → Option Text
      → Result ExchangeError ParsedContact
      → Action (App S) ImportError ContactRecord
  unfolding imported_contact
  import_parsed draws custom_alias (err e) app = (err (bad_uri e), app)
  import_parsed draws custom_alias (ok parsed) app =
      let contact = imported_contact parsed custom_alias draws.now in
      let r =
        initiate_session p store draws.secret draws.session_created_at draws.session_updated_at
          contact.identity_pubkey_hex parsed.bundle app.signal_store in
      (
        session_made contact r.0,
        record app { tables = save_contact contact app.tables; signal_store = r.1 },
      )

  unfoldable pub import_contact :
      ImportDraws → Option Text → Text → Action (App S) ImportError ContactRecord
  unfolding import_parsed
  import_contact draws custom_alias uri =
      import_parsed draws custom_alias (parse_contact_uri p search json uri)
