-- ===== src/Accounts/Enabled.antt =====
-- What src/runtime/gating.py lets run: only plugins of the current plan, on an account that is not
-- deleted, and the same in the check of a command, in the screen and in the choice of accounts.
use tele_group.Base.{
  ℕ, zero, suc, ◌≤◌, ◌≡◌, refl, ap, ◌∙◌, ◌≢◌, inl, inr, true, false, Option, none, some, List, [],
  ◌∷◌, map, arith, if◌then◌else◌, All, In, In-select, select, select-In, exists, exists-cong, first,
  is_some, Bool-cases, ◌==◌, ==→≡,
}
use tele_group.Text.{Text, text_eq, text_eq→≡, text_eq_refl}
use tele_group.Grants.Tables.{Subscription, User}
use tele_group.Grants.Apply.{latest, is_current_of}
use tele_group.Grants.Rows.{latest-In, latest-longest}
use tele_group.Accounts.Rows.{Db, ManagedAccount, PlanPlugin, account_by_id}
use tele_group.Accounts.Batches.{should_run, accounts_that_should_run-select}
use tele_group.Accounts.Gating.{
  Plugin, PluginAccount, PluginView, accounts_that_should_run, has_name, list_plugin_views,
  plugin_is_enabled, allowed_names, enabled_on, plugin_view, enabled_flag, enabled_on_plan,
  get_plugin_account, stored_flag, joined, joined_row, plan_of,
}

-- Why a plugin of this name may run on the account: the row of the account is there and not deleted,
-- a row of the user's subscriptions is marked active, has not ended and ends as late as any such row,
-- and a row of the table of plans allows the plugin on the plan of that subscription.
pub record IsEntitled (account_id : ℕ) (name : Text) (now : ℕ) (d : Db) : Type 0 where
  pub account : ManagedAccount
  pub found : account_by_id account_id d ≡ some account
  pub live : account.deleted_at ≡ none
  pub subscription : Subscription
  pub subscribed : In subscription d.subscriptions
  pub of_user : subscription.user_id ≡ account.user_id
  pub active : subscription.is_active ≡ true
  pub lasts : now ≤ subscription.end_date
  pub longest :
      (s : Subscription)
      → In s d.subscriptions
      → s.user_id ≡ account.user_id
      → s.is_active ≡ true
      → now ≤ s.end_date
      → s.end_date ≤ subscription.end_date
  pub allowed : PlanPlugin
  pub listed : In allowed d.plan_plugins
  pub on_plan : allowed.plan_id ≡ subscription.plan_id
  pub named : allowed.plugin_name ≡ name

has_name-row :
    (plan_id : ℕ) (name : Text) (rows : List PlanPlugin)
    → has_name name (map (λ r. r.plugin_name) (select (λ r. r.plan_id == plan_id) rows)) ≡ true
    → (r : PlanPlugin) × In r rows × (r.plan_id ≡ plan_id) × (r.plugin_name ≡ name)
has_name-row plan_id name [] h = cc
has_name-row plan_id name (r ∷ rows) h = elim (Bool-cases (r.plan_id == plan_id)) [
  | inr other ↦
      (let (q, k, e, n) = has_name-row plan_id name rows (rw other at h) in (q, inr k, e, n))
  | inl same ↦ elim (Bool-cases (text_eq r.plugin_name name)) [
    | inl e ↦ (r, inl refl, ==→≡ r.plan_id plan_id same, text_eq→≡ r.plugin_name name e)
    | inr e ↦
        (let (q, k, f, n) = has_name-row plan_id name rows (ground (arith, h, same, e)) in
          (q, inr k, f, n))
  ]
]

not_deleted_none : (o : Option ℕ) → is_some o ≡ false → o ≡ none
not_deleted_none none h = refl
not_deleted_none (some n) h = cc

module _ (account_id now : ℕ) (p : Plugin) (d : Db) where
  with_subscription :
      (a : ManagedAccount) (v : PluginAccount) (o : Option Subscription)
      → account_by_id account_id d ≡ some a
      → a.deleted_at ≡ none
      → latest (select (is_current_of a.user_id now) d.subscriptions) ≡ o
      → enabled_on_plan p v (elim o as (λ _. Option ℕ) [ none ↦ none | some s ↦ some s.plan_id ]) d
        ≡ true
      → IsEntitled account_id p.name now d
  unfolding enabled_on_plan enabled_flag allowed_names
  with_subscription a v none found live e h = cc
  with_subscription a v (some s) found live e h =
      let (here, current) =
        select-In (is_current_of a.user_id now) d.subscriptions
          (latest-In (select (is_current_of a.user_id now) d.subscriptions) e) in
      let (row, listed, on_plan, named) =
        has_name-row s.plan_id p.name d.plan_plugins (ground (arith, h)) in
      record {
        account = a;
        found = found;
        live = live;
        subscription = s;
        subscribed = here;
        of_user = ground (arith, current);
        active = ground (arith, current);
        lasts = ground (arith, current);
        longest = λ x k u act l.
            latest-longest (select (is_current_of a.user_id now) d.subscriptions) x e (
              In-select (is_current_of a.user_id now) d.subscriptions k
                (ground (arith, u, act, l)));
        allowed = row;
        listed = listed;
        on_plan = on_plan;
        named = named;
      }

  with_user :
      (a : ManagedAccount) (o : Option User)
      → first (λ u. u.id == a.user_id) d.users ≡ o
      → account_by_id account_id d ≡ some a
      → (q : Option PluginAccount) → joined now d a ≡ q
      → enabled_on p q d ≡ true
      → IsEntitled account_id p.name now d
  unfolding joined enabled_on plan_of
  with_user a none e found q j h = ground (arith, e, j, h)
  with_user a (some u) e found none j h = cc
  with_user a (some u) e found (some v) j h =
      with_subscription a v (latest (select (is_current_of a.user_id now) d.subscriptions)) found
        (not_deleted_none a.deleted_at (ground (arith, e, j, h))) refl (ground (arith, e, j, h))

-- A plugin runs on an account only if the account is there and not deleted and the plugin is in the
-- plan of the subscription of the account's user that is marked active, has not ended, and ends last.
pub plugin_is_enabled-Allows :
    (account_id now : ℕ) (p : Plugin) (d : Db)
    → plugin_is_enabled account_id p now d ≡ true
    → IsEntitled account_id p.name now d
unfolding plugin_is_enabled get_plugin_account enabled_on
plugin_is_enabled-Allows account_id now p d h = go (account_by_id account_id d) refl h
  where
    go :
        (o : Option ManagedAccount)
        → account_by_id account_id d ≡ o
        → enabled_on p (joined_row now d o) d ≡ true
        → IsEntitled account_id p.name now d
    go none e k = cc
    go (some a) e k =
        with_user account_id now p d a (first (λ u. u.id == a.user_id) d.users) refl e
          (joined now d a) refl k

module _ (d : Db) (a : PluginAccount) (p : Plugin) where
  -- The screen shows a plugin as enabled exactly when the check of a command lets it run.
  view_enabled :
      (o : Option ℕ)
      → a.plan_id ≡ o
      → a.plan_id ≢ some 0
      → (plugin_view a d p).enabled ≡ enabled_on_plan p a a.plan_id d
  unfolding plugin_view enabled_flag enabled_on_plan
  view_enabled none e h = rw e (ground arith)
  view_enabled (some zero) e h = absurd (h e)
  view_enabled (some (suc n)) e h = rw e (ground (arith, text_eq_refl p.name))

-- The screen of the plugins of an account that is there and not deleted has one row for each plugin
-- and shows it as enabled exactly when a command of it would run, if the plan of the account is not
-- numbered 0.
pub list_plugin_views-enabled :
    (plugins : List Plugin) (account_id now : ℕ) (d : Db) (a : PluginAccount)
    → get_plugin_account account_id now d ≡ some a
    → a.deleted ≡ false
    → a.plan_id ≢ some 0
    → list_plugin_views plugins account_id now d ≡ some (map (plugin_view a d) plugins)
      × (map (λ (v : PluginView). v.enabled) (map (plugin_view a d) plugins)
          ≡ map (λ p. plugin_is_enabled account_id p now d) plugins)
unfolding list_plugin_views plugin_is_enabled enabled_on plugin_view enabled_on_plan enabled_flag
    stored_flag
list_plugin_views-enabled plugins account_id now d a e live positive =
    rw e (rw live (refl, go plugins))
  where
    go :
        (ps : List Plugin)
        → map (λ (v : PluginView). v.enabled) (map (plugin_view a d) ps)
          ≡ map (λ p. enabled_on_plan p a a.plan_id d) ps
    go [] = refl
    go (p ∷ ps) = rw (view_enabled d a p a.plan_id refl positive, go ps) refl

enabled_at :
    (p : Plugin) (now : ℕ) (d : Db) (a : PluginAccount)
    → get_plugin_account a.account_id now d ≡ some a
    → a.deleted ≡ false
    → plugin_is_enabled a.account_id p now d ≡ enabled_on_plan p a a.plan_id d
unfolding plugin_is_enabled enabled_on
enabled_at p now d a e live =
    ap (λ o. enabled_on p o d) e
    ∙ ap (λ b. if b then false else enabled_on_plan p a a.plan_id d) live

-- Among candidates that are the current data of accounts that are not deleted, an account is kept
-- by the choice of accounts to run exactly when some registered plugin would run on it.
pub accounts_that_should_run-exact :
    (plugins : List Plugin) (candidates : List PluginAccount) (now : ℕ) (d : Db)
    → All (λ a. (get_plugin_account a.account_id now d ≡ some a) × (a.deleted ≡ false)) candidates
    → accounts_that_should_run (λ a. a) plugins candidates d
      ≡ select (λ a. exists (λ p. plugin_is_enabled a.account_id p now d) plugins) candidates
accounts_that_should_run-exact plugins candidates now d h =
    accounts_that_should_run-select (λ a. a) plugins d candidates ∙ go candidates h
  where
    go :
        (rows : List PluginAccount)
        → All (λ a. (get_plugin_account a.account_id now d ≡ some a) × (a.deleted ≡ false)) rows
        → select (should_run plugins d) rows
          ≡ select (λ a. exists (λ p. plugin_is_enabled a.account_id p now d) plugins) rows
    go [] k = refl
    go (a ∷ rest) k = ground (
      arith,
      exists-cong (λ p. plugin_is_enabled a.account_id p now d)
          (λ p. enabled_on_plan p a a.plan_id d) plugins (λ p. enabled_at p now d a k.0.0 k.0.1),
      go rest k.1,
    )
