-- ===== src/Listeners/Handlers.antt =====
-- `on_message` of src/plugins/locks.py, src/plugins/autoreply.py and src/plugins/pmpermit.py. The
-- settings of a plugin and the prefix of commands are arguments.
use tele_group.Base.{ℕ, Bool, false, not, ◌||◌, Option, none, some, if◌then◌else◌, is_some}
use tele_group.Text.{Text, is_empty, after_prefix}
use tele_group.Accounts.Rows.{Db}
use tele_group.Accounts.Gating.{Plugin, plugin_is_enabled}
use tele_group.Commands.Roles.{
  is_self_outgoing, is_trusted_sender, message_sender_id, is_self_sender,
}
use tele_group.Listeners.Tables.{ChatId, AutoReply, PluginRows}
use tele_group.Listeners.Rules.{choose_rule}
use tele_group.Listeners.Permits.{Answer, nothing, stranger_message}
use tele_group.Listeners.Incoming.{
  ChatMessage, is_group_chat, is_private_chat, is_saved_chat, lock_matches, list_locks,
}

module _ (p : Plugin) (account_id now : ℕ) (d : Db) (m : ChatMessage) (t : PluginRows) where
  -- The test that every listener starts with.
  abbrev pub is_passed_over : Bool
  is_passed_over = not (plugin_is_enabled account_id p now d) || is_self_outgoing m.message

  abbrev pub is_trusted : Bool
  is_trusted = is_trusted_sender account_id m.message now d

  abbrev pub delete_in : Option ChatId → Option ℕ → Bool
  delete_in (some chat_id) (some message_id) =
      if lock_matches m (list_locks account_id chat_id t) then not is_trusted else false
  delete_in _ _ = false

  -- Whether the message is deleted.
  unfoldable pub locks_on_message : Bool
  locks_on_message =
      if is_passed_over
      then false
      else if is_group_chat m.kind
      then delete_in m.chat_id m.message_id
      else false

  module _ (casefold : Text → Text) (enabled : Bool) (prefix : Text) where
    abbrev pub send : Option AutoReply → Option Text
    send none = none
    send (some r) = if is_trusted then none else some r.response

    abbrev pub reply_in : Option ChatId → Option Text
    reply_in none = none
    reply_in (some chat_id) = send (choose_rule casefold account_id chat_id m.message.text t)

    abbrev pub is_command : Bool
    is_command = is_some (after_prefix prefix m.message.text)

    -- The text of the reply that is sent.
    unfoldable pub autoreply_on_message : Option Text
    autoreply_on_message =
        if is_passed_over || not enabled || is_empty m.message.text || is_command
        then none
        else reply_in m.chat_id

  module _ (enabled : Bool) (raw_limit : ℕ) where
    abbrev pub count_for : Option ℕ → Answer × PluginRows
    count_for none = (nothing, t)
    count_for (some user_id) = stranger_message account_id raw_limit user_id t

    -- Nothing can be sent to a chat without an id, but the message is counted.
    abbrev pub sent_to : Option ChatId → Answer × PluginRows → Answer × PluginRows
    sent_to none r = (nothing, r.1)
    sent_to (some chat_id) r = r

    unfoldable pub pmpermit_on_message : Answer × PluginRows
    pmpermit_on_message =
        if is_passed_over || is_trusted || not enabled
        then (nothing, t)
        else if not (is_private_chat m.kind) || is_saved_chat m
        then (nothing, t)
        else if is_self_sender m.message.from_user || m.sender_is_bot
        then (nothing, t)
        else sent_to m.chat_id (count_for (message_sender_id m.message))
