-- ===== src/Commands/Safety.antt =====
-- What `Dispatcher.handle_message` of src/runtime/plugins.py lets run.
use tele_group.Base.{
  ℕ, ◌≡◌, ◌≢◌, refl, ap, inl, inr, true, false, ◌&&◌, Option, none, some, List, ◌==◌, Bool-cases,
  if_cases, none≢some, subst_some, ==→≡, exists,
}
use tele_group.Text.{Text}
use tele_group.Accounts.Rows.{Db}
use tele_group.Accounts.Gating.{
  Plugin, BotCommand, PluginAccount, get_plugin_account, plugin_is_enabled,
}
use tele_group.Actors.Limit.{
  Role, self, owner, admin, Decision, ok, notice, limited, Limits, Hits, decide,
}
use tele_group.Commands.Dispatch.{
  Handled, ignored, ran, Incoming, handle_matched, handle_message, handle_as, request_of, run_as,
  run_enabled, after_decision,
}
use tele_group.Commands.Resolve.{resolve_command}
use tele_group.Commands.Roles.{
  classify_actor, is_self_outgoing, message_sender_id, role_on, role_of_sender, is_owner_only,
  is_self_sender,
}
use tele_group.Accounts.Admins.{is_account_admin}

module _ (i : Incoming) (d : Db) where
  -- The sender is the registered owner of an account that is not deleted.
  abbrev pub SentByOwner : Type 0
  SentByOwner =
      (s : ℕ) × (a : PluginAccount) × (message_sender_id i.message ≡ some s)
      × (get_plugin_account i.account_id i.now d ≡ some a)
      × (a.deleted ≡ false)
      × (a.telegram_id ≡ s)

  -- The sender stands in the table of admins of the account.
  abbrev pub SentByAdmin : Type 0
  SentByAdmin =
      (s : ℕ) × (message_sender_id i.message ≡ some s) × (is_account_admin i.account_id s d ≡ true)

  abbrev pub SentBy : Role → Type 0
  SentBy self = is_self_outgoing i.message ≡ true
  SentBy owner = SentByOwner
  SentBy admin = SentByAdmin

  role_on-SentBy :
      (s : ℕ) (o : Option PluginAccount) (role : Role)
      → message_sender_id i.message ≡ some s
      → get_plugin_account i.account_id i.now d ≡ o
      → role_on i.account_id s o d ≡ some role
      → SentBy role
  unfolding role_on
  role_on-SentBy s none role m e = λ h. none≢some h
  role_on-SentBy s (some a) role m e =
      if_cases (λ o. o ≡ some role → SentBy role) a.deleted (λ _ h. none≢some h)
        (λ live.
          if_cases (λ o. o ≡ some role → SentBy role) (a.telegram_id == s)
            (λ same h. subst_some SentBy h (s, a, m, e, live, ==→≡ a.telegram_id s same))
            (λ _.
              if_cases (λ o. o ≡ some role → SentBy role) (is_account_admin i.account_id s d)
                (λ there h. subst_some SentBy h (s, m, there)) (λ _ h. none≢some h)))

  classify_actor-SentBy :
      (role : Role) → classify_actor i.account_id i.message i.now d ≡ some role → SentBy role
  unfolding classify_actor
  classify_actor-SentBy role =
      if_cases (λ o. o ≡ some role → SentBy role) (is_self_outgoing i.message)
        (λ mine h. subst_some SentBy h mine) (λ _. go (message_sender_id i.message) refl)
    where
      go :
          (o : Option ℕ)
          → message_sender_id i.message ≡ o
          → role_of_sender i.account_id o i.now d ≡ some role
          → SentBy role
      go none e h = none≢some h
      go (some s) e h = role_on-SentBy s (get_plugin_account i.account_id i.now d) role e refl h

-- The role may send the command, and the limit lets it through now.
abbrev pub MaySend : Limits → Incoming → Hits → Role → Text → Type 0
MaySend l i h self name = Unit
MaySend l i h owner name = (decide l (request_of i owner) h).0 ≡ ok
MaySend l i h admin name = ((decide l (request_of i admin) h).0 ≡ ok) × (is_owner_only name ≡ false)

module _ (casefold : Text → Text) (l : Limits) (plugins : List Plugin) (i : Incoming) (d : Db)
    (h : Hits) where
  -- What is true when a plugin runs.
  abbrev pub IsSafe : Handled → Type 0
  IsSafe (ran p c args role) =
      (resolve_command casefold i.message.text i.prefix plugins ≡ some (p, c, args))
      × (plugin_is_enabled i.account_id p i.now d ≡ true)
      × SentBy i d role
      × MaySend l i h role c.name
  IsSafe _ = Unit

  module _ (p : Plugin) (c : BotCommand) (args : Text)
      (found : resolve_command casefold i.message.text i.prefix plugins ≡ some (p, c, args)) where
    decided_owner :
        SentBy i d owner
        → plugin_is_enabled i.account_id p i.now d ≡ true
        → (o : Decision × Hits) → decide l (request_of i owner) h ≡ o
        → IsSafe (after_decision owner (p, c, args) o).0
    unfolding after_decision
    decided_owner sent on (ok, h') e = (found, on, sent, ap (λ (r : Decision × Hits). r.0) e)
    decided_owner sent on (notice, h') e = tt
    decided_owner sent on (limited, h') e = tt

    decided_admin :
        SentBy i d admin
        → plugin_is_enabled i.account_id p i.now d ≡ true
        → (o : Decision × Hits) → decide l (request_of i admin) h ≡ o
        → IsSafe (after_decision admin (p, c, args) o).0
    unfolding after_decision
    decided_admin sent on (ok, h') e =
        if_cases (λ (r : Handled × Hits). IsSafe r.0) (is_owner_only c.name) (λ _. tt)
          (λ plain. (found, on, sent, (ap (λ (r : Decision × Hits). r.0) e, plain)))
    decided_admin sent on (notice, h') e = tt
    decided_admin sent on (limited, h') e = tt

    run_as-IsSafe :
        (role : Role)
        → SentBy i d role
        → plugin_is_enabled i.account_id p i.now d ≡ true
        → IsSafe (run_as l i role (p, c, args) h).0
    unfolding run_as
    run_as-IsSafe self sent on = (found, on, sent, tt)
    run_as-IsSafe owner sent on = decided_owner sent on (decide l (request_of i owner) h) refl
    run_as-IsSafe admin sent on = decided_admin sent on (decide l (request_of i admin) h) refl

    run_enabled-IsSafe :
        (role : Role) → SentBy i d role → IsSafe (run_enabled l i role (p, c, args) d h).0
    unfolding run_enabled
    run_enabled-IsSafe role sent =
        if_cases (λ (r : Handled × Hits). IsSafe r.0) (plugin_is_enabled i.account_id p i.now d)
          (run_as-IsSafe role sent) (λ _. tt)

    handle_as-IsSafe :
        (o : Option Role)
        → classify_actor i.account_id i.message i.now d ≡ o
        → IsSafe (handle_as l i o (p, c, args) d h).0
    unfolding handle_as
    handle_as-IsSafe none e = tt
    handle_as-IsSafe (some role) e = run_enabled-IsSafe role (classify_actor-SentBy i d role e)

  handle_matched-IsSafe :
      (o : Option (Plugin × BotCommand × Text))
      → resolve_command casefold i.message.text i.prefix plugins ≡ o
      → IsSafe (handle_matched l i o d h).0
  unfolding handle_matched
  handle_matched-IsSafe none e = tt
  handle_matched-IsSafe (some (p, c, args)) e =
      if_cases (λ (r : Handled × Hits). IsSafe r.0) (is_self_outgoing i.message)
        (run_enabled-IsSafe p c args e self)
        (λ _. handle_as-IsSafe p c args e (classify_actor i.account_id i.message i.now d) refl)

  -- A plugin runs a command only if the message picks it, the plugin is enabled on the account, the
  -- sender is the account, its registered owner or one of its admins, the limit lets the command of
  -- an owner or admin through, and a command of an admin is not for owners only.
  pub handle_message-IsSafe : IsSafe (handle_message casefold l plugins i d h).0
  unfolding handle_message
  handle_message-IsSafe =
      handle_matched-IsSafe (resolve_command casefold i.message.text i.prefix plugins) refl

  nobody_none : handle_matched l i none d h ≡ (ignored, h)
  unfolding handle_matched
  nobody_none = refl

  module _ (sent : i.message.outgoing ≡ false) (other : is_self_sender i.message.from_user ≡ false)
      (not_owner : (s : ℕ) (a : PluginAccount)
        → message_sender_id i.message ≡ some s
        → get_plugin_account i.account_id i.now d ≡ some a
        → a.deleted ≡ false
        → a.telegram_id ≢ s)
      (not_admin : (s : ℕ)
        → message_sender_id i.message ≡ some s
        → exists (λ r. r.account_id == i.account_id && r.telegram_id == s) d.admins ≡ false) where
    not_self : is_self_outgoing i.message ≡ false
    unfolding is_self_outgoing
    not_self = rw (sent, other) refl

    role_on-stranger :
        (s : ℕ) (o : Option PluginAccount)
        → message_sender_id i.message ≡ some s
        → get_plugin_account i.account_id i.now d ≡ o
        → role_on i.account_id s o d ≡ none
    unfolding role_on is_account_admin
    role_on-stranger s none m e = refl
    role_on-stranger s (some a) m e = elim (Bool-cases a.deleted) [
      | inl gone ↦ rw gone refl
      | inr live ↦ elim (Bool-cases (a.telegram_id == s)) [
        | inl same ↦ absurd (not_owner s a m e live (==→≡ a.telegram_id s same))
        | inr differs ↦ rw (live, differs, not_admin s m) refl
      ]
    ]

    no_role : classify_actor i.account_id i.message i.now d ≡ none
    unfolding classify_actor
    no_role = rw not_self (go (message_sender_id i.message) refl)
      where
        go :
            (o : Option ℕ)
            → message_sender_id i.message ≡ o
            → role_of_sender i.account_id o i.now d ≡ none
        go none m = refl
        go (some s) m = role_on-stranger s (get_plugin_account i.account_id i.now d) m refl

    nobody :
        (found : Plugin × BotCommand × Text) → handle_matched l i (some found) d h ≡ (ignored, h)
    unfolding handle_matched handle_as
    nobody found = rw (not_self, no_role) refl

    -- A message that the account did not send, and whose sender is neither the registered owner of
    -- the account, if that is not deleted, nor in the table of its admins, does nothing and is not
    -- counted.
    pub handle_message-stranger : handle_message casefold l plugins i d h ≡ (ignored, h)
    unfolding handle_message
    handle_message-stranger = go (resolve_command casefold i.message.text i.prefix plugins)
      where
        go : (o : Option (Plugin × BotCommand × Text)) → handle_matched l i o d h ≡ (ignored, h)
        go none = nobody_none
        go (some found) = nobody found
