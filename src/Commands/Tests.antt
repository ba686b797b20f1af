-- ===== src/Commands/Tests.antt =====
-- Runs of the models of src/runtime/plugins.py and src/runtime/actors.py at concrete inputs.
use tele_group.Base.{ℕ, ◌≡◌, ◌≢◌, refl, true, false, ◌&&◌, none, some, [], ◌∷◌, arith, exists, ◌==◌}
use tele_group.Text.{Text, codes}
use tele_group.Accounts.Rows.{valid, Db}
use tele_group.Accounts.Gating.{Plugin, PluginAccount, get_plugin_account, joined, plan_of}
use tele_group.Actors.Limit.{default_limits, no_hits}
use tele_group.Commands.Dispatch.{Incoming, ignored, handle_message}
use tele_group.Commands.Longest.{IsPicked, resolve_in-Picked}
use tele_group.Commands.Roles.{message_sender_id}
use tele_group.Commands.Safety.{IsSafe, handle_message-IsSafe, handle_message-stranger}
use tele_group.Commands.Resolve.{rows_of, resolve_in}
use tele_group.Grants.Apply.{latest}

abbrev id_text : Text → Text
id_text s = s

abbrev tools : Plugin
tools = record {
  name = codes "tools";
  commands =
      record { name = codes "set" }
      ∷ record { name = codes "set name" }
      ∷ record { name = codes "id" }
      ∷ [];
  default_enabled = true;
}

resolve_in-Picked_example :
    IsPicked id_text
      (codes "set name x")
      (rows_of (tools ∷ []))
      (resolve_in id_text (some (codes "set name x")) (tools ∷ []))
resolve_in-Picked_example = resolve_in-Picked id_text (codes "set name x") (tools ∷ [])

abbrev small : Db
small = record {
  users =
      record { id = 1; telegram_id = 100; first_name = "A"; username = none; language_code = "en" }
      ∷ [];
  plans = [];
  subscriptions =
      record { id = 1; user_id = 1; plan_id = 3; start_date = 0; end_date = 90; is_active = true }
      ∷ [];
  accounts =
      record {
        id = 7;
        user_id = 1;
        phone = codes "1";
        session_string = codes "s";
        proxy_id = none;
        device_profile_id = none;
        is_running = false;
        flood_wait_until = none;
        session_status = valid;
        is_active = true;
        code_monitor_enabled = false;
        next_creation_time = none;
        backoff_level = 0;
        last_error = none;
        deleted_at = none;
      }
      ∷ [];
  managers = [];
  admins = record { account_id = 7; telegram_id = 300; username = none; added_by = some 100 } ∷ [];
  account_plugins = [];
  plan_plugins = record { plan_id = 3; plugin_name = codes "tools" } ∷ [];
  leases = [];
  signals = [];
}

abbrev from_sender : ℕ → Incoming
from_sender sender = record {
  account_id = 7;
  message = record {
    text = codes ".id";
    outgoing = false;
    from_user = some record { id = sender; is_self = false };
  };
  prefix = codes ".";
  now = 50;
  tick = 9;
}

handle_message-IsSafe_example :
    IsSafe id_text default_limits
      (tools ∷ [])
      (from_sender 300)
      small
      no_hits
      (handle_message id_text default_limits (tools ∷ []) (from_sender 300) small no_hits).0
handle_message-IsSafe_example =
    handle_message-IsSafe id_text default_limits (tools ∷ []) (from_sender 300) small no_hits

not_100 :
    (s : ℕ) (a : PluginAccount)
    → message_sender_id (from_sender 400).message ≡ some s
    → get_plugin_account 7 50 small ≡ some a
    → a.deleted ≡ false
    → a.telegram_id ≢ s
unfolding message_sender_id get_plugin_account joined plan_of latest
not_100 s a m e live same = ground (arith, m, e, same)

not_300 :
    (s : ℕ)
    → message_sender_id (from_sender 400).message ≡ some s
    → exists (λ r. r.account_id == 7 && r.telegram_id == s) small.admins ≡ false
unfolding message_sender_id
not_300 s m = ground (arith, m)

handle_message-stranger_example :
    handle_message id_text default_limits (tools ∷ []) (from_sender 400) small no_hits
    ≡ (ignored, no_hits)
handle_message-stranger_example =
    handle_message-stranger id_text default_limits (tools ∷ []) (from_sender 400) small no_hits refl
      refl not_100 not_300
