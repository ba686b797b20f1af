-- ===== src/Listeners/Tests.antt =====
-- Runs of the models of src/runtime/plugin_data.py and its plugins at concrete inputs.
use tele_group.Base.{◌≡◌, refl, true, none, some, List, [], ◌∷◌, arith, false}
use tele_group.Text.{codes, strip, lstrip, rstrip, is_space, after_prefix, text_eq}
use tele_group.Listeners.Tables.{PluginRows, above, below, AutoReply}
use tele_group.Listeners.Rules.{
  upsert_auto_reply, save_rule, saved, choose_rule, matches, contains, is_in_chat,
}
use tele_group.Listeners.RuleTable.{
  RuleCommand, upsert, remove, obey_rules, IsKept, obey_rules-IsKept,
}
use tele_group.Accounts.Rows.{Db, ManagedAccount, valid}
use tele_group.Accounts.Gating.{
  Plugin, plugin_is_enabled, get_plugin_account, joined, plan_of, enabled_on, enabled_on_plan,
  enabled_flag, stored_flag, override_of, allowed_names,
}
use tele_group.Accounts.Admins.{is_account_admin}
use tele_group.Grants.Apply.{latest}
use tele_group.Commands.Roles.{
  is_self_outgoing, is_trusted_sender, classify_actor, message_sender_id, role_on,
}
use tele_group.Listeners.Incoming.{ChatMessage, supergroup, lock_matches, check, list_locks}
use tele_group.Listeners.Handlers.{locks_on_message, autoreply_on_message}
use tele_group.Listeners.Safety.{IsDeleted, IsReply, IsCounted, acted, listeners-IsSafe}
use tele_group.Listeners.Answers.{upsert-choose_rule}
use tele_group.Listeners.Permits.{get_pm_permit}
use tele_group.Listeners.Standing.{
  PermitEvent, writes, decides, handle_events, permit, standing, permit-handle_events,
}
use tele_group.Listeners.Warnings.{messages, after_messages, handle_events-warnings}

abbrev nothing_yet : PluginRows
nothing_yet = record { replies = []; permits = []; locks = [] }

abbrev edits : List RuleCommand
edits =
    upsert 7 (below 4) (codes " hi ") (codes "hello")
    ∷ upsert 7 (above 0) (codes "bye") (codes "later")
    ∷ remove 7 (below 4) (codes "hi")
    ∷ []

nothing_yet-IsKept : IsKept nothing_yet
nothing_yet-IsKept = record {
  bounded = λ a c. omega arith;
  keyed = λ a c k. omega arith;
  sound = tt;
}

obey_rules-IsKept_example : IsKept (obey_rules edits nothing_yet)
obey_rules-IsKept_example = obey_rules-IsKept edits nothing_yet nothing_yet-IsKept

saved_hi : (upsert_auto_reply 7 (below 4) (codes " hi ") (codes "hello") nothing_yet).0 ≡ saved
unfolding upsert_auto_reply save_rule strip lstrip rstrip is_space
saved_hi = refl

fits_hi : matches (λ s. s) (codes "oh, hi!") (strip (codes " hi ")) ≡ true
unfolding matches contains strip lstrip rstrip is_space after_prefix
fits_hi = refl

upsert-choose_rule_example :
    (r : AutoReply) × (choose_rule
        (λ s. s)
        7
        (below 4)
        (codes "oh, hi!")
        (upsert_auto_reply 7 (below 4) (codes " hi ") (codes "hello") nothing_yet).1
      ≡ some r)
    × (is_in_chat 7 (below 4) r ≡ true)
    × (matches (λ s. s) (codes "oh, hi!") r.keyword ≡ true)
upsert-choose_rule_example =
    upsert-choose_rule (λ s. s) 7 (below 4) (codes "oh, hi!") (codes " hi ") (codes "hello")
      nothing_yet saved_hi fits_hi

abbrev talk : List PermitEvent
talk = writes 7 5 2 ∷ writes 7 6 2 ∷ decides 7 6 true ∷ writes 7 5 2 ∷ writes 7 6 2 ∷ []

permit-handle_events_example :
    permit 7 6 (handle_events talk nothing_yet) ≡ standing 7 6 talk (permit 7 6 nothing_yet)
permit-handle_events_example = permit-handle_events 7 6 talk nothing_yet

unknown_yet : get_pm_permit 7 5 nothing_yet ≡ none
unfolding get_pm_permit
unknown_yet = refl

handle_events-warnings_example :
    permit 7 5 (handle_events (messages 2 ((7, 5) ∷ (8, 5) ∷ (7, 6) ∷ (7, 5) ∷ [])) nothing_yet)
    ≡ after_messages 2 2
handle_events-warnings_example =
    handle_events-warnings 7 5 2 ((7, 5) ∷ (8, 5) ∷ (7, 6) ∷ (7, 5) ∷ []) nothing_yet unknown_yet

abbrev one_account : ManagedAccount
one_account = record {
  id = 7;
  user_id = 1;
  phone = codes "1";
  session_string = codes "s";
  proxy_id = none;
  device_profile_id = none;
  is_running = false;
  flood_wait_until = none;
  session_status = valid;
  is_active = false;
  code_monitor_enabled = false;
  next_creation_time = none;
  backoff_level = 0;
  last_error = none;
  deleted_at = none;
}

abbrev small : Db
small = record {
  users =
      record { id = 1; telegram_id = 100; first_name = "A"; username = none; language_code = "en" }
      ∷ [];
  plans = record { id = 3; name = "basic"; max_accounts = 2 } ∷ [];
  subscriptions =
      record { id = 1; user_id = 1; plan_id = 3; start_date = 0; end_date = 90; is_active = true }
      ∷ [];
  accounts = one_account ∷ [];
  managers = [];
  admins = [];
  account_plugins = [];
  plan_plugins = record { plan_id = 3; plugin_name = codes "locks" } ∷ [];
  leases = [];
  signals = [];
}

-- A photo that a stranger sends to a group with a lock on photos.
abbrev photo_there : ChatMessage
photo_there = record {
  message = record {
    text = [];
    outgoing = false;
    from_user = some record { id = 9; is_self = false };
  };
  kind = supergroup;
  chat_id = some (below 4);
  message_id = some 33;
  me_id = some (above 5);
  sender_is_bot = false;
  service = false;
  link = false;
  photo = true;
  video = false;
  audio = false;
  document = false;
  voice = false;
  video_note = false;
  animation = false;
  gif = false;
  sticker = false;
  forwarded = false;
}

photo_fits : lock_matches photo_there (codes "links" ∷ codes "photos" ∷ []) ≡ true
unfolding lock_matches check text_eq
photo_fits = refl

abbrev locks_plugin : Plugin
locks_plugin = record { name = codes "locks"; commands = []; default_enabled = true }

abbrev locked : PluginRows
locked = record {
  replies = [];
  permits = [];
  locks = record { account_id = 7; chat_id = below 4; lock_name = codes "photos" } ∷ [];
}

listeners-IsSafe_example :
    IsDeleted locks_plugin 7 10 small photo_there locked
      (locks_on_message locks_plugin 7 10 small photo_there locked)
    × IsReply locks_plugin 7 10 small photo_there locked
        (λ s. s)
        true
        (codes ".")
        (autoreply_on_message locks_plugin 7 10 small photo_there locked (λ s. s) true (codes "."))
    × IsCounted locks_plugin 7 10 small photo_there locked true 3
        (acted locks_plugin 7 10 small photo_there locked true 3)
listeners-IsSafe_example =
    listeners-IsSafe locks_plugin 7 10 small photo_there locked (λ s. s) true (codes ".") 3

photo_goes : locks_on_message locks_plugin 7 10 small photo_there locked ≡ true
unfolding locks_on_message lock_matches check text_eq list_locks plugin_is_enabled
    get_plugin_account joined plan_of latest enabled_on enabled_on_plan enabled_flag stored_flag
    override_of allowed_names is_self_outgoing is_trusted_sender classify_actor message_sender_id
    role_on is_account_admin
photo_goes = refl
