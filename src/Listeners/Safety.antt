-- ===== src/Listeners/Safety.antt =====
-- Whom the listeners of src/plugins/locks.py, src/plugins/autoreply.py and src/plugins/pmpermit.py act
-- on.
use tele_group.Base.{
  ℕ, ◌≡◌, refl, inl, inr, Bool, true, false, Option, none, some, arith, Bool-cases, if_cases, ◌||◌,
  ◌⊎◌, not,
}
use tele_group.Accounts.Rows.{Db}
use tele_group.Accounts.Gating.{Plugin, plugin_is_enabled}
use tele_group.Commands.Roles.{is_trusted_sender, message_sender_id, is_self_sender}
use tele_group.Listeners.Tables.{ChatId, PluginRows, AutoReply}
use tele_group.Listeners.Incoming.{
  ChatMessage, is_group_chat, lock_matches, list_locks, is_private_chat, is_saved_chat,
}
use tele_group.Listeners.Handlers.{
  is_passed_over, delete_in, locks_on_message, pmpermit_on_message, autoreply_on_message, reply_in,
  send, sent_to, count_for, is_trusted, is_command,
}
use tele_group.Listeners.Permits.{Answer, nothing, stranger_message}
use tele_group.Listeners.Found.{
  IsStranger, IsLocked, IsRuleFor, is_trusted_sender-IsStranger, lock_matches-IsLocked,
  choose_rule-IsRuleFor,
}
use tele_group.Text.{Text, is_empty}
use tele_group.Listeners.Rules.{choose_rule}

module _ (p : Plugin) (account_id now : ℕ) (d : Db) (m : ChatMessage) (t : PluginRows) where
  -- The plugin is enabled on the account, and the sender is not the account, its owner or an admin.
  abbrev pub IsTarget : Type 0
  IsTarget = (plugin_is_enabled account_id p now d ≡ true) × IsStranger account_id m.message now d

  abbrev pub passed_over : Bool
  passed_over = is_passed_over p account_id now d m t

  delete_in-true :
      (chat : Option ChatId) (message_id : Option ℕ)
      → delete_in p account_id now d m t chat message_id ≡ true
      → (is_trusted_sender account_id m.message now d ≡ false)
        × ((c : ChatId) × (chat ≡ some c) × (lock_matches m (list_locks account_id c t) ≡ true))
  delete_in-true none message_id h = cc
  delete_in-true (some c) none h = cc
  delete_in-true (some c) (some i) h = (ground (arith, h), (c, refl, ground (arith, h)))

  -- A message is deleted only in a group, for a lock of this chat.
  abbrev pub IsDeleted : Bool → Type 0
  IsDeleted deleted =
      (deleted ≡ false)
      ⊎ (IsTarget
          × (is_group_chat m.kind ≡ true)
          × ((c : ChatId) × (m.chat_id ≡ some c) × IsLocked account_id c m t))

  locks-IsDeleted : IsDeleted (locks_on_message p account_id now d m t)
  unfolding locks_on_message
  locks-IsDeleted =
      if_cases IsDeleted passed_over (λ _. inl refl)
        (λ listens.
          if_cases IsDeleted (is_group_chat m.kind)
            (λ in_group.
              go listens in_group
                (Bool-cases (delete_in p account_id now d m t m.chat_id m.message_id)))
            (λ _. inl refl))
    where
      go :
          passed_over ≡ false
          → is_group_chat m.kind ≡ true
          → (delete_in p account_id now d m t m.chat_id m.message_id ≡ true)
            ⊎ (delete_in p account_id now d m t m.chat_id m.message_id ≡ false)
          → IsDeleted (delete_in p account_id now d m t m.chat_id m.message_id)
      go listens in_group (inr stays) = inl stays
      go listens in_group (inl gone) =
          let found = delete_in-true m.chat_id m.message_id gone in
          let (c, at, fits) = found.1 in
          inr (
            (
              ground (arith, listens),
              is_trusted_sender-IsStranger account_id m.message now d found.0,
            ),
            in_group,
            (c, at, lock_matches-IsLocked account_id c m t fits),
          )

  module _ (casefold : Text → Text) (enabled : Bool) (prefix : Text) where
    -- A reply is sent only as the chosen rule says, which is one for the chat that fits the text.
    abbrev pub IsReply : Option Text → Type 0
    IsReply o =
        (o ≡ none)
        ⊎ (IsTarget
            × ((c : ChatId) × (r : AutoReply) × (m.chat_id ≡ some c)
                × (choose_rule casefold account_id c m.message.text t ≡ some r)
                × IsRuleFor casefold account_id c m.message.text t r
                × (o ≡ some r.response)))

    send-IsReply :
        (c : ChatId) (o : Option AutoReply)
        → plugin_is_enabled account_id p now d ≡ true
        → m.chat_id ≡ some c
        → choose_rule casefold account_id c m.message.text t ≡ o
        → IsReply (send p account_id now d m t casefold enabled prefix o)
    send-IsReply c none on at e = inl refl
    send-IsReply c (some r) on at e =
        if_cases IsReply (is_trusted p account_id now d m t) (λ _. inl refl)
          (λ stranger. inr (
            (on, is_trusted_sender-IsStranger account_id m.message now d stranger),
            (c, r, at, e, choose_rule-IsRuleFor casefold account_id m.message.text t c r e, refl),
          ))

    reply_in-IsReply :
        (chat : Option ChatId)
        → plugin_is_enabled account_id p now d ≡ true
        → m.chat_id ≡ chat
        → IsReply (reply_in p account_id now d m t casefold enabled prefix chat)
    reply_in-IsReply none on at = inl refl
    reply_in-IsReply (some c) on at =
        send-IsReply c (choose_rule casefold account_id c m.message.text t) on at refl

    autoreply-IsReply :
        IsReply (autoreply_on_message p account_id now d m t casefold enabled prefix)
    unfolding autoreply_on_message
    autoreply-IsReply =
        if_cases IsReply
          (passed_over
            || not enabled
            || is_empty m.message.text
            || is_command p account_id now d m t casefold enabled prefix)
          (λ _. inl refl) (λ listens. reply_in-IsReply m.chat_id (ground (arith, listens)) refl)

  module _ (enabled : Bool) (raw_limit : ℕ) where
    abbrev pub acted : Answer × PluginRows
    acted = pmpermit_on_message p account_id now d m t enabled raw_limit

    -- Nothing happens, or the message of a stranger is counted and perhaps answered.
    abbrev pub IsCounted : Answer × PluginRows → Type 0
    IsCounted r =
        (r ≡ (nothing, t))
        ⊎ (IsTarget
            × (is_private_chat m.kind ≡ true)
            × ((u : ℕ) × (message_sender_id m.message ≡ some u)
                × (r.1 ≡ (stranger_message account_id raw_limit u t).1)))

    sent_to-IsCounted :
        (chat : Option ChatId) (sender : Option ℕ)
        → message_sender_id m.message ≡ sender
        → IsTarget
        → is_private_chat m.kind ≡ true
        → IsCounted (
            sent_to p account_id now d m t enabled raw_limit chat
              (count_for p account_id now d m t enabled raw_limit sender))
    sent_to-IsCounted none none e target alone = inl refl
    sent_to-IsCounted (some c) none e target alone = inl refl
    sent_to-IsCounted none (some u) e target alone = inr (target, alone, (u, e, refl))
    sent_to-IsCounted (some c) (some u) e target alone = inr (target, alone, (u, e, refl))

    pmpermit-IsCounted : IsCounted acted
    unfolding pmpermit_on_message
    pmpermit-IsCounted =
        if_cases IsCounted (passed_over || is_trusted p account_id now d m t || not enabled)
          (λ _. inl refl)
          (λ listens.
            if_cases IsCounted (not (is_private_chat m.kind) || is_saved_chat m) (λ _. inl refl)
              (λ alone.
                if_cases IsCounted (is_self_sender m.message.from_user || m.sender_is_bot)
                  (λ _. inl refl)
                  (λ _.
                    sent_to-IsCounted m.chat_id (message_sender_id m.message) refl
                      (
                        ground (arith, listens),
                        is_trusted_sender-IsStranger account_id m.message now d
                            (ground (arith, listens)),
                      )
                      (ground (arith, alone)))))

  -- The listeners act only for a plugin that is enabled on the account, and never on a message of the
  -- account itself, of its registered owner or of one in its table of admins: a message is deleted
  -- only in a group and for a row of the locks of this account and chat that is for all messages or
  -- fits this one; a reply is the response of the chosen rule, a row of this account for this chat or
  -- for all chats whose keyword the text matches;
  -- and a permit changes only by the counting of a private message for its sender, else no row does.
  pub listeners-IsSafe :
      (casefold : Text → Text) (enabled : Bool) (prefix : Text) (raw_limit : ℕ)
      → IsDeleted (locks_on_message p account_id now d m t)
        × IsReply casefold enabled prefix
            (autoreply_on_message p account_id now d m t casefold enabled prefix)
        × IsCounted enabled raw_limit (acted enabled raw_limit)
  listeners-IsSafe casefold enabled prefix raw_limit = (
    locks-IsDeleted,
    autoreply-IsReply casefold enabled prefix,
    pmpermit-IsCounted enabled raw_limit,
  )
