-- ===== src/Accounts/Flipped.antt =====
-- What `set_account_plugin` of src/runtime/gating.py does to the plugins of all accounts.
use tele_group.Base.{
  ℕ, ◌≡◌, refl, inl, inr, Bool, true, false, not, ◌&&◌, Option, none, some, arith, ◌==◌,
  if◌then◌else◌, Option-cases, is_some, first,
}
use tele_group.Text.{text_eq}
use tele_group.Accounts.Rows.{Db, ManagedAccount}
use tele_group.Accounts.Gating.{
  Plugin, PluginAccount, enabled_on, joined, plugin_is_enabled, enabled_on_plan, enabled_flag,
  has_name, stored_flag, allowed_names, codemon_plugin, groups_plugin, override_of,
}
use tele_group.Accounts.Switching.{Switched, enabled, disabled}

abbrev pub is_refusal : Switched → Bool
is_refusal enabled = false
is_refusal disabled = false
is_refusal _ = true

abbrev pub is_here : ℕ → Plugin → ℕ → Plugin → Bool
is_here account_id p b q = b == account_id && text_eq q.name p.name

-- The plugin is switched, the answer says what it is now, and every other plugin of every account
-- is as before.
pub record Flipped (account_id now : ℕ) (p : Plugin) (d : Db) (r : Switched × Db) : Type 0 where
  pub switched : plugin_is_enabled account_id p now r.1 ≡ not (plugin_is_enabled account_id p now d)
  pub told : r.0 ≡ (if plugin_is_enabled account_id p now r.1 then enabled else disabled)
  pub others :
      (b : ℕ) (q : Plugin)
      → is_here account_id p b q ≡ false
      → plugin_is_enabled b q now r.1 ≡ plugin_is_enabled b q now d

pub joined-fields :
    (now : ℕ) (d : Db) (r : ManagedAccount) {a : PluginAccount}
    → joined now d r ≡ some a
    → (a.account_id ≡ r.id)
      × (a.is_active ≡ r.is_active)
      × (a.code_monitor_enabled ≡ r.code_monitor_enabled)
      × (a.deleted ≡ is_some r.deleted_at)
unfolding joined
joined-fields now d r h = elim (Option-cases (first (λ u. u.id == r.user_id) d.users)) [
  | inl e ↦ ground (arith, h, e)
  | inr (u, e) ↦ ground (arith, h, e)
]

module _ (q : Plugin) (a : PluginAccount) (d : Db) where
  -- The flag of a plugin that the plan allows.
  pub allowed_flag :
      (n : ℕ)
      → a.deleted ≡ false
      → a.plan_id ≡ some n
      → has_name q.name (allowed_names n d) ≡ true
      → enabled_on q (some a) d ≡ stored_flag q a (override_of a.account_id q.name d)
  unfolding enabled_on enabled_on_plan enabled_flag
  allowed_flag n live plan names = simp (live, plan, names) refl

  pub other_than_groups :
      (b : Bool)
      → text_eq q.name groups_plugin ≡ false
      → enabled_on q (some record a { is_active = b }) d ≡ enabled_on q (some a) d
  unfolding enabled_on enabled_on_plan enabled_flag stored_flag
  other_than_groups b h = go a.plan_id
    where
      go :
          (o : Option ℕ)
          → (if a.deleted then false else enabled_on_plan q record a { is_active = b } o d)
            ≡ (if a.deleted then false else enabled_on_plan q a o d)
      go none = refl
      go (some n) = ground (arith, h)

  pub other_than_codemon :
      (b : Bool)
      → text_eq q.name codemon_plugin ≡ false
      → enabled_on q (some record a { code_monitor_enabled = b }) d ≡ enabled_on q (some a) d
  unfolding enabled_on enabled_on_plan enabled_flag stored_flag
  other_than_codemon b h = go a.plan_id
    where
      go :
          (o : Option ℕ)
          → (if a.deleted
              then false
              else enabled_on_plan q record a { code_monitor_enabled = b } o d)
            ≡ (if a.deleted then false else enabled_on_plan q a o d)
      go none = refl
      go (some n) = ground (arith, h)
