-- ===== src/Accounts/Overrides.antt =====
-- The overrides that `upsert_account_plugin` of src/runtime/store.py writes.
use tele_group.Base.{
  ℕ, ◌≡◌, refl, sym, ap, ◌∙◌, inl, inr, Bool, true, false, ◌&&◌, Option, none, some, arith, ◌==◌,
  if◌then◌else◌, Bool-cases, Option-cases, none≢some, subst, exists, first-exists, ==→≡,
  first-update_other, first-update_where, first-eq_some, first-append, first-snoc, first-none,
}
use tele_group.Text.{Text, text_eq, text_eq→≡, text_eq_sym, text_eq_refl}
use tele_group.Accounts.Rows.{Db, ManagedAccount, AccountPlugin, account_by_id, enqueue_signal}
use tele_group.Accounts.Gating.{
  Plugin, PluginAccount, enabled_on, enabled_on_plan, get_plugin_account, override_of,
  plugin_is_enabled, is_override, enabled_flag, allowed_names, joined, joined_row, enabled_of,
  plan_of,
}
use tele_group.Accounts.Switching.{upsert_account_plugin, set_override}
use tele_group.Accounts.Flipped.{joined-fields}

-- The other plugins: their override is written.
module _ (now account_id : ℕ) (name : Text) (value : Bool) (d : Db) where
  abbrev new_override : AccountPlugin
  new_override = record { account_id = account_id; plugin_name = name; enabled = value }

  not_other :
      (b : ℕ) (other : Text)
      → (b == account_id && text_eq other name) ≡ false
      → (y : AccountPlugin) → is_override account_id name y ≡ true
      → is_override b other y ≡ false
  not_other b other ne y e =
      subst (λ s. (y.account_id == b && text_eq s other) ≡ false)
        (sym (text_eq→≡ y.plugin_name name (ground (arith, e))))
        (ground (arith, e, ne, text_eq_sym other name))

  pub override_of-here :
      override_of account_id name (upsert_account_plugin account_id name value d) ≡ some value
  unfolding override_of upsert_account_plugin enqueue_signal
  override_of-here = elim (Bool-cases (exists (is_override account_id name) d.account_plugins)) [
    | inl e ↦
        (let (x, found) = first-exists (is_override account_id name) d.account_plugins e in
          rw e (
            ap enabled_of (
              first-update_where (is_override account_id name) (set_override value)
                d.account_plugins {x = x} (λ _. refl) found)))
    | inr e ↦ rw e (
        ap enabled_of (
          first-append (is_override account_id name) d.account_plugins
            record { account_id = account_id; plugin_name = name; enabled = value }
            (first-none (is_override account_id name) d.account_plugins e)
            (ground (arith, text_eq_refl name))))
  ]

  override_of-other :
      (b : ℕ) (other : Text)
      → (b == account_id && text_eq other name) ≡ false
      → override_of b other (upsert_account_plugin account_id name value d) ≡ override_of b other d
  unfolding override_of upsert_account_plugin enqueue_signal
  override_of-other b other ne =
      elim (Bool-cases (exists (is_override account_id name) d.account_plugins)) [
        | inl e ↦ rw e (
            ap enabled_of (
              first-update_other (is_override b other) (is_override account_id name)
                (set_override value) d.account_plugins
                (λ y here. (not_other b other ne y here, not_other b other ne y here))))
        | inr e ↦ rw e (
            ap enabled_of (
              first-snoc (is_override b other) d.account_plugins new_override
                (not_other b other ne new_override (ground (arith, text_eq_refl name)))))
      ]

  module _ (q : Plugin) where
    enabled_on_plan-upsert :
        (a : PluginAccount) (o : Option ℕ)
        → (a.account_id == account_id && text_eq q.name name) ≡ false
        → enabled_on_plan q a o (upsert_account_plugin account_id name value d)
          ≡ enabled_on_plan q a o d
    unfolding enabled_on_plan upsert_account_plugin enqueue_signal allowed_names
    enabled_on_plan-upsert a none ne = refl
    enabled_on_plan-upsert a (some n) ne =
        ap (λ x. enabled_flag q a x (allowed_names n d)) (override_of-other a.account_id q.name ne)

    enabled_on-upsert :
        (b : ℕ) (o : Option PluginAccount)
        → ((a : PluginAccount) → o ≡ some a → a.account_id ≡ b)
        → (b == account_id && text_eq q.name name) ≡ false
        → enabled_on q o (upsert_account_plugin account_id name value d) ≡ enabled_on q o d
    unfolding enabled_on
    enabled_on-upsert b none at ne = refl
    enabled_on-upsert b (some a) at ne =
        ap (λ x. if a.deleted then false else x)
          (enabled_on_plan-upsert a a.plan_id (rw (at a refl) ne))

    pub get_plugin_account-upsert :
        (b : ℕ)
        → get_plugin_account b now (upsert_account_plugin account_id name value d)
          ≡ get_plugin_account b now d
    unfolding get_plugin_account upsert_account_plugin enqueue_signal joined plan_of
    get_plugin_account-upsert b = go (account_by_id b d)
      where
        go :
            (o : Option ManagedAccount)
            → joined_row now (upsert_account_plugin account_id name value d) o ≡ joined_row now d o
        go none = refl
        go (some r) = refl

    pub get_plugin_account-id :
        (b : ℕ) (a : PluginAccount) → get_plugin_account b now d ≡ some a → a.account_id ≡ b
    unfolding get_plugin_account
    get_plugin_account-id b a h = elim (Option-cases (account_by_id b d)) [
      | inl e ↦ none≢some (sym (ap (joined_row now d) e) ∙ h)
      | inr (r, e) ↦
          (joined-fields now d r (sym (ap (joined_row now d) e) ∙ h)).0
          ∙ ==→≡ r.id b (first-eq_some (λ x. x.id == b) d.accounts e)
    ]

    pub upsert_other :
        (b : ℕ)
        → (b == account_id && text_eq q.name name) ≡ false
        → plugin_is_enabled b q now (upsert_account_plugin account_id name value d)
          ≡ plugin_is_enabled b q now d
    unfolding plugin_is_enabled
    upsert_other b ne =
        ap (λ o. enabled_on q o (upsert_account_plugin account_id name value d))
          (get_plugin_account-upsert b)
        ∙ enabled_on-upsert b (get_plugin_account b now d) (λ a. get_plugin_account-id b a) ne
