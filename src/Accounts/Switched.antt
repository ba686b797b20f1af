-- ===== src/Accounts/Switched.antt =====
-- What `set_account_plugin` of src/runtime/gating.py does to the plugins of all accounts.
use tele_group.Base.{
  ℕ, ◌≡◌, refl, ap, ◌∙◌, inl, inr, Bool, true, false, Option, none, some, arith, ◌==◌, Option-cases,
  first, first-update_other, first-update_where,
}
use tele_group.Accounts.Rows.{Db, ManagedAccount, enqueue_signal, account_by_id}
use tele_group.Accounts.Gating.{
  Plugin, PluginAccount, enabled_on, enabled_on_plan, joined, joined_row, plugin_is_enabled,
  get_plugin_account, override_of, plan_of, allowed_names, enabled_flag,
}
use tele_group.Accounts.Switching.{change_account, set_active, set_monitor}

abbrev pub joined_active : Bool → Option PluginAccount → Option PluginAccount
joined_active b none = none
joined_active b (some a) = some record a { is_active = b }

abbrev pub joined_monitor : Bool → Option PluginAccount → Option PluginAccount
joined_monitor b none = none
joined_monitor b (some a) = some record a { code_monitor_enabled = b }

module _ (now : ℕ) (d : Db) (r : ManagedAccount) where
  pub joined-set_active :
      (b : Bool) → joined now d (set_active b r) ≡ joined_active b (joined now d r)
  unfolding joined
  joined-set_active true = elim (Option-cases (first (λ u. u.id == r.user_id) d.users)) [
    | inl e ↦ rw (joined, e) refl
    | inr (u, e) ↦ rw (joined, e) refl
  ]
  joined-set_active false = elim (Option-cases (first (λ u. u.id == r.user_id) d.users)) [
    | inl e ↦ rw (joined, e) refl
    | inr (u, e) ↦ rw (joined, e) refl
  ]

  pub joined-set_monitor :
      (b : Bool) → joined now d (set_monitor b r) ≡ joined_monitor b (joined now d r)
  unfolding joined
  joined-set_monitor b = elim (Option-cases (first (λ u. u.id == r.user_id) d.users)) [
    | inl e ↦ rw (joined, e) refl
    | inr (u, e) ↦ rw (joined, e) refl
  ]

-- Nothing but the rows of accounts and the overrides decides what a change of the accounts touches.
module _ (now account_id : ℕ) (f : ManagedAccount → ManagedAccount) (d : Db) where
  enabled_on_plan-change :
      (q : Plugin) (a : PluginAccount) (o : Option ℕ)
      → enabled_on_plan q a o (change_account account_id f d) ≡ enabled_on_plan q a o d
  unfolding enabled_on_plan override_of allowed_names enqueue_signal enabled_flag
  enabled_on_plan-change q a none = refl
  enabled_on_plan-change q a (some n) = refl

  enabled_on-change :
      (q : Plugin) (o : Option PluginAccount)
      → enabled_on q o (change_account account_id f d) ≡ enabled_on q o d
  unfolding enabled_on
  enabled_on-change q none = refl
  enabled_on-change q (some a) = ground (arith, enabled_on_plan-change q a a.plan_id)

  joined-change :
      (r : ManagedAccount) → joined now (change_account account_id f d) r ≡ joined now d r
  unfolding joined plan_of enqueue_signal
  joined-change r = refl

  joined_row-change :
      (o : Option ManagedAccount)
      → joined_row now (change_account account_id f d) o ≡ joined_row now d o
  joined_row-change none = refl
  joined_row-change (some r) = joined-change r

  module _ (keeps : (r : ManagedAccount) → (f r).id ≡ r.id) where
    account_by_id-change :
        {r : ManagedAccount}
        → account_by_id account_id d ≡ some r
        → account_by_id account_id (change_account account_id f d) ≡ some (f r)
    unfolding enqueue_signal
    account_by_id-change {r} h =
        first-update_where (λ a. a.id == account_id) f d.accounts {x = r}
          (λ y. ap (λ i. i == account_id) (keeps y)) h

    -- The changed account.
    pub changed_enabled :
        (q : Plugin) {r : ManagedAccount}
        → account_by_id account_id d ≡ some r
        → plugin_is_enabled account_id q now (change_account account_id f d)
          ≡ enabled_on q (joined now d (f r)) d
    unfolding plugin_is_enabled get_plugin_account
    changed_enabled q {r} h =
        enabled_on-change q (
          joined_row now (change_account account_id f d)
            (account_by_id account_id (change_account account_id f d)))
        ∙ ap (λ o. enabled_on q o d)
            (ap (joined_row now (change_account account_id f d)) (account_by_id-change h)
              ∙ joined-change (f r))

    -- Another account.
    pub other_enabled :
        (q : Plugin) (b : ℕ)
        → (b == account_id) ≡ false
        → plugin_is_enabled b q now (change_account account_id f d) ≡ plugin_is_enabled b q now d
    unfolding plugin_is_enabled get_plugin_account enqueue_signal
    other_enabled q b ne =
        enabled_on-change q (
          joined_row now (change_account account_id f d)
            (account_by_id b (change_account account_id f d)))
        ∙ ap (λ o. enabled_on q o d)
            (joined_row-change (account_by_id b (change_account account_id f d))
              ∙ ap (joined_row now d) (
                  first-update_other (λ a. a.id == b) (λ a. a.id == account_id) f d.accounts
                    (λ y e. ground (arith, e, keeps y))))
