-- ===== src/Accounts/Flipping.antt =====
-- `set_account_plugin` of src/runtime/gating.py switches one plugin of one account.
use tele_group.Base.{
  ℕ, ◌≡◌, refl, sym, ap, ◌∙◌, inl, inr, Bool, true, false, not, Option, some, arith, ◌==◌,
  if◌then◌else◌, Bool-cases, subst, ==→≡,
}
use tele_group.Text.{Text, text_eq, text_eq→≡}
use tele_group.Accounts.Rows.{Db, ManagedAccount, account_by_id}
use tele_group.Accounts.Gating.{
  Plugin, PluginAccount, joined, has_name, allowed_names, groups_plugin, plugin_is_enabled,
  stored_flag, codemon_plugin, get_plugin_account, enabled_on, override_of, joined_row,
}
use tele_group.Accounts.Switching.{
  enabled, disabled, answer, set_active, switch_active, switch_monitor, change_account, answered,
  set_monitor,
}
use tele_group.Accounts.Flipped.{
  Flipped, allowed_flag, is_here, joined-fields, other_than_codemon, other_than_groups,
}
use tele_group.Accounts.Switched.{
  changed_enabled, joined-set_active, joined-set_monitor, joined_active, joined_monitor,
  other_enabled,
}

set_active-id : (b : Bool) (r : ManagedAccount) → (set_active b r).id ≡ r.id
set_active-id true r = refl
set_active-id false r = refl

-- The answer and the flag follow from the flag before.
pub told_active : (b : Bool) → answer (some b) ≡ (if b then enabled else disabled)
told_active true = refl
told_active false = refl

module _ (account_id actor now : ℕ) (p : Plugin) (d : Db) (r : ManagedAccount) (a : PluginAccount)
    (row : account_by_id account_id d ≡ some r) (join : joined now d r ≡ some a)
    (live : a.deleted ≡ false) (n : ℕ) (plan : a.plan_id ≡ some n)
    (names : has_name p.name (allowed_names n d) ≡ true) where
  pub now_enabled :
      plugin_is_enabled account_id p now d ≡ stored_flag p a (override_of a.account_id p.name d)
  unfolding plugin_is_enabled get_plugin_account
  now_enabled =
      ap (λ o. enabled_on p o d) (ap (joined_row now d) row ∙ join)
      ∙ allowed_flag p a d n live plan names

  before_other : (q : Plugin) → plugin_is_enabled account_id q now d ≡ enabled_on q (some a) d
  unfolding plugin_is_enabled get_plugin_account
  before_other q = ap (λ o. enabled_on q o d) (ap (joined_row now d) row ∙ join)

  active_after :
      (b : Bool) (q : Plugin)
      → plugin_is_enabled account_id q now (change_account account_id (set_active b) d)
        ≡ enabled_on q (some record a { is_active = b }) d
  active_after b q =
      changed_enabled now account_id (set_active b) d (set_active-id b) q row
      ∙ ap (λ o. enabled_on q o d) (joined-set_active now d r b ∙ ap (joined_active b) join)

  monitor_after :
      (b : Bool) (q : Plugin)
      → plugin_is_enabled account_id q now (change_account account_id (set_monitor b) d)
        ≡ enabled_on q (some record a { code_monitor_enabled = b }) d
  monitor_after b q =
      changed_enabled now account_id (set_monitor b) d (λ _. refl) q row
      ∙ ap (λ o. enabled_on q o d) (joined-set_monitor now d r b ∙ ap (joined_monitor b) join)

  not_here :
      (b : ℕ) (q : Plugin) (name : Text)
      → text_eq p.name name ≡ true
      → is_here account_id p b q ≡ false
      → (b == account_id) ≡ true
      → text_eq q.name name ≡ false
  not_here b q name same other e = rw (← text_eq→≡ p.name name same) (ground (arith, other, e))

  groups_flag :
      text_eq p.name groups_plugin ≡ true
      → (b : Bool) (o : Option Bool) → stored_flag p record a { is_active = b } o ≡ b
  unfolding stored_flag
  groups_flag e b o = ground (arith, e)

  codemon_flag :
      text_eq p.name groups_plugin ≡ false
      → text_eq p.name codemon_plugin ≡ true
      → (b : Bool) (o : Option Bool) → stored_flag p record a { code_monitor_enabled = b } o ≡ b
  unfolding stored_flag
  codemon_flag ne e b o = ground (arith, ne, e)

  groups_after :
      text_eq p.name groups_plugin ≡ true
      → (b : Bool)
      → plugin_is_enabled account_id p now (change_account account_id (set_active b) d) ≡ b
  groups_after e b =
      active_after b p
      ∙ allowed_flag p record a { is_active = b } d n live plan names
      ∙ groups_flag e b _

  codemon_after :
      text_eq p.name groups_plugin ≡ false
      → text_eq p.name codemon_plugin ≡ true
      → (b : Bool)
      → plugin_is_enabled account_id p now (change_account account_id (set_monitor b) d) ≡ b
  codemon_after ne e b =
      monitor_after b p
      ∙ allowed_flag p record a { code_monitor_enabled = b } d n live plan names
      ∙ codemon_flag ne e b _

  pub Flipped-groups :
      text_eq p.name groups_plugin ≡ true
      → Flipped account_id now p d (answered (switch_active account_id (some r) d))
  unfolding switch_active
  Flipped-groups e = record {
    switched =
        groups_after e (not r.is_active)
        ∙ ap not (sym (now_enabled ∙ groups_flag e a.is_active _ ∙ (joined-fields now d r join).1));
    told =
        told_active (not r.is_active)
        ∙ ap (λ x. if x then enabled else disabled) (sym (groups_after e (not r.is_active)));
    others = λ b q other. elim (Bool-cases (b == account_id)) [
      | inl same ↦
          subst
            (λ x.
              plugin_is_enabled x q now (change_account account_id (set_active (not r.is_active)) d)
              ≡ plugin_is_enabled x q now d)
            (sym (==→≡ b account_id same))
            (active_after (not r.is_active) q
              ∙ other_than_groups q a d (not r.is_active) (not_here b q groups_plugin e other same)
              ∙ sym (before_other q))
      | inr ne ↦
          other_enabled now account_id (set_active (not r.is_active)) d
            (set_active-id (not r.is_active)) q b ne
    ];
  }

  pub Flipped-codemon :
      text_eq p.name groups_plugin ≡ false
      → text_eq p.name codemon_plugin ≡ true
      → Flipped account_id now p d (answered (switch_monitor account_id (some r) d))
  unfolding switch_monitor
  Flipped-codemon ne e = record {
    switched =
        codemon_after ne e (not r.code_monitor_enabled)
        ∙ ap not (
            sym (
              now_enabled
              ∙ codemon_flag ne e a.code_monitor_enabled _
              ∙ (joined-fields now d r join).2));
    told =
        told_active (not r.code_monitor_enabled)
        ∙ ap (λ x. if x then enabled else disabled)
            (sym (codemon_after ne e (not r.code_monitor_enabled)));
    others = λ b q other. elim (Bool-cases (b == account_id)) [
      | inl same ↦
          subst
            (λ x.
              plugin_is_enabled x q now
                (change_account account_id (set_monitor (not r.code_monitor_enabled)) d)
              ≡ plugin_is_enabled x q now d)
            (sym (==→≡ b account_id same))
            (monitor_after (not r.code_monitor_enabled) q
              ∙ other_than_codemon q a d (not r.code_monitor_enabled)
                  (not_here b q codemon_plugin e other same)
              ∙ sym (before_other q))
      | inr ne ↦
          other_enabled now account_id (set_monitor (not r.code_monitor_enabled)) d (λ _. refl) q b
            ne
    ];
  }
