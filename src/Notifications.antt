-- ===== src/Notifications.antt =====
-- client/src/notifications/NotificationManager.ts, with its default driver. What is handed to the
-- platform's notifee, where it is installed, is kept in a list.
use tor_e2ee_messenger.Common.{
  ℕ, ◌≡◌, refl, Bool, true, Option, none, some, List, [], ◌∷◌, ◌++◌, Text, codes, truthy, put,
  remove, text_keys, if◌then◌else◌, Bool-cases, inl, inr,
}

pub record NotificationOptions : Type 0 where
  pub title : Text
  pub body : Text
  pub contact_pubkey_hash : Option Text
  pub message_id : Option Text
  pub privacy_mode : Bool
  pub sound : Bool

pub record NotificationChannelConfig : Type 0 where
  pub id : Text
  pub name : Text
  pub importance : ℕ
  pub vibration : Bool

-- The arguments of `notifee.displayNotification` that depend on the message.
pub record Shown : Type 0 where
  pub id : Text
  pub title : Text
  pub body : Text
  pub contact_pubkey_hash : Text
  pub message_id : Text

pub data PlatformCall : Type 0 where
  channel_made : NotificationChannelConfig → PlatformCall
  shown : Shown → PlatformCall
  cancelled : Text → PlatformCall
  all_cancelled : PlatformCall

pub record Notifications : Type 0 where
  pub has_notifee : Bool
  pub notifications : List (Text × NotificationOptions)
  pub platform : List PlatformCall
  pub is_initialized : Bool

-- A call of notifee, where there is one.
abbrev call_platform : PlatformCall → Notifications → Notifications
call_platform c s = if s.has_notifee then record s { platform = s.platform ++ c ∷ [] } else s

abbrev or_text : Option Text → Text → Text
or_text none d = d
or_text (some t) d = t

unfoldable pub shown_options : Text → NotificationOptions → Shown
shown_options id options = record {
  id = id;
  title = if options.privacy_mode then codes "TorE2EE Messenger" else options.title;
  body =
      if options.privacy_mode then codes "Máte novou šifrovanou zprávu přes Tor." else options.body;
  contact_pubkey_hash = or_text options.contact_pubkey_hash [];
  message_id = or_text options.message_id [];
}

-- The drawn id stands for the clock and `Math.random`.
unfoldable pub display_notification :
    Text → NotificationOptions → Notifications → Text × Notifications
unfolding shown_options put
display_notification drawn_id options s =
    let id = or_text (truthy options.message_id) drawn_id in
    (
      id,
      call_platform (shown (shown_options id options))
          (record s { notifications = put id options s.notifications }),
    )

unfoldable pub cancel_notification : Text → Notifications → Notifications
unfolding remove
cancel_notification id s =
    call_platform (cancelled id) (record s { notifications = remove id s.notifications })

unfoldable pub cancel_all : Notifications → Notifications
cancel_all s = call_platform all_cancelled (record s { notifications = [] })

abbrev message_channel : NotificationChannelConfig
message_channel = record {
  id = codes "tore2ee_messages";
  name = codes "TorE2EE Zprávy";
  importance = 4;
  vibration = true;
}

unfoldable pub initialize : Notifications → Notifications
initialize s =
    if s.is_initialized
    then s
    else record (call_platform (channel_made message_channel) s) { is_initialized = true }

unfoldable pub display_message_notification :
    Text → Text → Text → Option Text → Bool → Notifications → Text × Notifications
unfolding initialize display_notification
display_message_notification drawn_id sender_alias message_body contact privacy_mode s =
    display_notification drawn_id
      (record {
        title = sender_alias;
        body = message_body;
        contact_pubkey_hash = contact;
        message_id = none;
        privacy_mode = privacy_mode;
        sound = true;
      })
      (initialize s)

-- In privacy mode, what is handed to the platform is the same whatever the alias and the text are: for
-- two messages of one contact, the calls made are equal.
pub display_message_notification-private :
    (id alias_1 alias_2 body_1 body_2 : Text) (contact : Option Text) (s : Notifications)
    → (display_message_notification id alias_1 body_1 contact true s).1.platform
      ≡ (display_message_notification id alias_2 body_2 contact true s).1.platform
unfolding display_message_notification display_notification shown_options
display_message_notification-private id alias_1 alias_2 body_1 body_2 contact s =
    elim (Bool-cases (initialize s).has_notifee) [ inl e ↦ rw e refl | inr e ↦ rw e refl ]
