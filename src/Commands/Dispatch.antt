-- ===== src/Commands/Dispatch.antt =====
-- `Dispatcher.handle_message` of src/runtime/plugins.py: what is done with one message. `now` is the
-- time that the database is read at, `tick` the reading of the clock of the command limit.
use tele_group.Base.{ℕ, Bool, true, false, ◌&&◌, Option, none, some, List, if◌then◌else◌}
use tele_group.Text.{Text}
use tele_group.Accounts.Rows.{Db}
use tele_group.Accounts.Gating.{Plugin, BotCommand, plugin_is_enabled}
use tele_group.Actors.Limit.{
  Role, self, admin, Decision, ok, notice, limited, Limits, Hits, Request, decide,
}
use tele_group.Commands.Roles.{
  Message, is_owner_only, is_self_outgoing, classify_actor, message_sender_id,
}
use tele_group.Commands.Resolve.{resolve_command}

pub data Notice : Type 0 where
  rate_limit owner_only : Notice

-- Nothing is done, one notice is sent, or a plugin handles the command for a sender of a role.
pub data Handled : Type 0 where
  ignored : Handled
  noticed : Notice → Handled
  ran : Plugin → BotCommand → Text → Role → Handled

pub record Incoming : Type 0 where
  pub account_id : ℕ
  pub message : Message
  pub prefix : Text
  pub now : ℕ
  pub tick : ℕ

abbrev pub sender_or_zero : Option ℕ → ℕ
sender_or_zero none = 0
sender_or_zero (some sender) = sender

abbrev pub request_of : Incoming → Role → Request
request_of i role = record {
  account = i.account_id;
  user = sender_or_zero (message_sender_id i.message);
  role = role;
  now = i.tick;
}

abbrev pub is_admin_role : Role → Bool
is_admin_role admin = true
is_admin_role _ = false

-- The end of `handle_message`, once the limit has decided.
unfoldable pub after_decision : Role → Plugin × BotCommand × Text → Decision × Hits → Handled × Hits
after_decision role (p, c, args) (limited, h) = (ignored, h)
after_decision role (p, c, args) (notice, h) = (noticed rate_limit, h)
after_decision role (p, c, args) (ok, h) =
    if is_admin_role role && is_owner_only c.name
    then (noticed owner_only, h)
    else (ran p c args role, h)

-- The account itself is not counted.
unfoldable pub run_as :
    Limits → Incoming → Role → Plugin × BotCommand × Text → Hits → Handled × Hits
run_as l i self (p, c, args) h = (ran p c args self, h)
run_as l i role found h = after_decision role found (decide l (request_of i role) h)

unfoldable pub run_enabled :
    Limits → Incoming → Role → Plugin × BotCommand × Text → Db → Hits → Handled × Hits
run_enabled l i role found d h =
    if plugin_is_enabled i.account_id found.0 i.now d then run_as l i role found h else (ignored, h)

-- A command from a sender who was classified.
unfoldable pub handle_as :
    Limits → Incoming → Option Role → Plugin × BotCommand × Text → Db → Hits → Handled × Hits
handle_as l i none found d h = (ignored, h)
handle_as l i (some role) found d h = run_enabled l i role found d h

unfoldable pub handle_matched :
    Limits → Incoming → Option (Plugin × BotCommand × Text) → Db → Hits → Handled × Hits
handle_matched l i none d h = (ignored, h)
handle_matched l i (some found) d h =
    if is_self_outgoing i.message
    then run_enabled l i self found d h
    else handle_as l i (classify_actor i.account_id i.message i.now d) found d h

unfoldable pub handle_message :
    (Text → Text) → Limits → List Plugin → Incoming → Db → Hits → Handled × Hits
handle_message casefold l plugins i d h =
    handle_matched l i (resolve_command casefold i.message.text i.prefix plugins) d h
