-- ===== src/Accounts/Gating.antt =====
-- src/runtime/gating.py: which plugins an account runs. A plugin is its name, its commands and its
-- default; the handlers of the plugins are not modelled.
use tele_group.Base.{
  ℕ, Bool, true, false, not, ◌&&◌, ◌||◌, Option, none, some, List, [], ◌∷◌, map, ◌==◌,
  if◌then◌else◌, exists, first, select, is_some,
}
use tele_group.Text.{Text, text_eq, codes}
use tele_group.Grants.Apply.{latest, is_current_of}
use tele_group.Accounts.Rows.{Db, ManagedAccount, AccountPlugin, PlanPlugin, account_by_id}

pub record BotCommand : Type 0 where
  pub name : Text

pub record Plugin : Type 0 where
  pub name : Text
  pub commands : List BotCommand
  pub default_enabled : Bool

abbrev pub groups_plugin : Text
groups_plugin = codes "groups"

abbrev pub codemon_plugin : Text
codemon_plugin = codes "codemon"

-- The dictionary that `get_plugin_account` gives, without the language and the session status.
pub record PluginAccount : Type 0 where
  pub account_id : ℕ
  pub is_active : Bool
  pub code_monitor_enabled : Bool
  pub deleted : Bool
  pub telegram_id : ℕ
  pub plan_id : Option ℕ

-- The plan of the user's current subscription.
unfoldable pub plan_of : ℕ → ℕ → Db → Option ℕ
plan_of user_id now d = elim (latest (select (is_current_of user_id now) d.subscriptions)) [
  | none ↦ none
  | some s ↦ some s.plan_id
]

unfoldable pub joined : ℕ → Db → ManagedAccount → Option PluginAccount
joined now d a = elim (first (λ u. u.id == a.user_id) d.users) [
  | none ↦ none
  | some u ↦ some record {
    account_id = a.id;
    is_active = a.is_active;
    code_monitor_enabled = a.code_monitor_enabled;
    deleted = is_some a.deleted_at;
    telegram_id = u.telegram_id;
    plan_id = plan_of a.user_id now d;
  }
]

abbrev pub joined_row : ℕ → Db → Option ManagedAccount → Option PluginAccount
joined_row now d none = none
joined_row now d (some a) = joined now d a

unfoldable pub get_plugin_account : ℕ → ℕ → Db → Option PluginAccount
get_plugin_account account_id now d = joined_row now d (account_by_id account_id d)

-- `load_allowed_plugins` for one plan: the names that it allows.
unfoldable pub allowed_names : ℕ → Db → List Text
allowed_names plan_id d =
    map (λ r. r.plugin_name) (select (λ r. r.plan_id == plan_id) d.plan_plugins)

abbrev pub has_name : Text → List Text → Bool
has_name name names = exists (λ n. text_eq n name) names

abbrev pub is_override : ℕ → Text → AccountPlugin → Bool
is_override account_id name r = r.account_id == account_id && text_eq r.plugin_name name

abbrev pub enabled_of : Option AccountPlugin → Option Bool
enabled_of none = none
enabled_of (some r) = some r.enabled

-- `load_plugin_overrides` for one account, at one name.
unfoldable pub override_of : ℕ → Text → Db → Option Bool
override_of account_id name d = enabled_of (first (is_override account_id name) d.account_plugins)

abbrev pub or_default : Bool → Option Bool → Bool
or_default default_value none = default_value
or_default default_value (some value) = value

-- `_enabled_flag` after the test of the plan.
unfoldable pub stored_flag : Plugin → PluginAccount → Option Bool → Bool
stored_flag p a override =
    if text_eq p.name groups_plugin
    then a.is_active
    else if text_eq p.name codemon_plugin
    then a.code_monitor_enabled
    else or_default p.default_enabled override

-- `_enabled_flag`
unfoldable pub enabled_flag : Plugin → PluginAccount → Option Bool → List Text → Bool
enabled_flag p a override allowed =
    if not (has_name p.name allowed) then false else stored_flag p a override

unfoldable pub enabled_on_plan : Plugin → PluginAccount → Option ℕ → Db → Bool
enabled_on_plan p a none d = false
enabled_on_plan p a (some plan_id) d =
    enabled_flag p a (override_of a.account_id p.name d) (allowed_names plan_id d)

unfoldable pub enabled_on : Plugin → Option PluginAccount → Db → Bool
enabled_on p none d = false
enabled_on p (some a) d = if a.deleted then false else enabled_on_plan p a a.plan_id d

unfoldable pub plugin_is_enabled : ℕ → Plugin → ℕ → Db → Bool
plugin_is_enabled account_id p now d = enabled_on p (get_plugin_account account_id now d) d

abbrev pub is_among : List ℕ → ℕ → Bool
is_among ids n = exists (λ i. i == n) ids

-- `load_allowed_plugins` and `load_plugin_overrides` for many: the rows that the dictionaries are
-- made of, with the look-ups in them.
unfoldable pub load_allowed_plugins : List ℕ → Db → List PlanPlugin
load_allowed_plugins plan_ids d = select (λ r. is_among plan_ids r.plan_id) d.plan_plugins

unfoldable pub load_plugin_overrides : List ℕ → Db → List AccountPlugin
load_plugin_overrides account_ids d =
    select (λ r. is_among account_ids r.account_id) d.account_plugins

abbrev pub allowed_in : ℕ → List PlanPlugin → List Text
allowed_in plan_id rows = map (λ r. r.plugin_name) (select (λ r. r.plan_id == plan_id) rows)

abbrev pub override_in : ℕ → Text → List AccountPlugin → Option Bool
override_in account_id name rows = enabled_of (first (is_override account_id name) rows)

abbrev pub has_none {ℓ} : {A : Type ℓ} → List A → Bool
has_none [] = true
has_none (_ ∷ _) = false

abbrev pub with_plan : Option ℕ → List ℕ → List ℕ
with_plan none ids = ids
with_plan (some plan_id) ids = plan_id ∷ ids

-- The listing of candidates hands over rows that hold more than gating reads.
module _ {C : Type 0} (account : C → PluginAccount) where
  abbrev pub plan_ids : List C → List ℕ
  plan_ids [] = []
  plan_ids (c ∷ rows) = with_plan (account c).plan_id (plan_ids rows)

  abbrev pub account_ids : List C → List ℕ
  account_ids rows = map (λ c. (account c).account_id) rows

  -- The test of one row in the loop.
  abbrev pub is_selected :
      List Plugin → List AccountPlugin → List PlanPlugin → PluginAccount → Option ℕ → Bool
  is_selected plugins overrides allowed_by_plan a none = false
  is_selected plugins overrides allowed_by_plan a (some plan_id) =
      exists
        (λ p.
          enabled_flag p a (override_in a.account_id p.name overrides)
            (allowed_in plan_id allowed_by_plan))
        plugins

  -- The loop.
  unfoldable pub selected_rows :
      List Plugin → List AccountPlugin → List PlanPlugin → List C → List C
  selected_rows plugins overrides allowed_by_plan [] = []
  selected_rows plugins overrides allowed_by_plan (c ∷ rows) =
      let rest = selected_rows plugins overrides allowed_by_plan rows in
      if is_selected plugins overrides allowed_by_plan (account c) (account c).plan_id
      then c ∷ rest
      else rest

  -- `plugins` are those that are registered.
  unfoldable pub accounts_that_should_run : List Plugin → List C → Db → List C
  accounts_that_should_run plugins candidates d =
      if has_none candidates || has_none plugins
      then []
      else selected_rows plugins (load_plugin_overrides (account_ids candidates) d)
          (load_allowed_plugins (plan_ids candidates) d) candidates

-- `plan_id` counts as absent when it is 0.
abbrev pub allowed_if_set : Option ℕ → Db → List Text
allowed_if_set none d = []
allowed_if_set (some plan_id) d = if plan_id == 0 then [] else allowed_names plan_id d

pub record PluginView : Type 0 where
  pub name : Text
  pub allowed : Bool
  pub enabled : Bool
  pub stored_enabled : Bool

unfoldable pub plugin_view : PluginAccount → Db → Plugin → PluginView
plugin_view a d p =
    let allowed = allowed_if_set a.plan_id d in
    let stored = enabled_flag p a (override_of a.account_id p.name d) (p.name ∷ allowed) in
    record {
      name = p.name;
      allowed = has_name p.name allowed;
      enabled = stored && has_name p.name allowed;
      stored_enabled = stored;
    }

abbrev pub views_on : Option PluginAccount → List Plugin → Db → Option (List PluginView)
views_on none plugins d = none
views_on (some a) plugins d = if a.deleted then none else some (map (plugin_view a d) plugins)

unfoldable pub list_plugin_views : List Plugin → ℕ → ℕ → Db → Option (List PluginView)
list_plugin_views plugins account_id now d =
    views_on (get_plugin_account account_id now d) plugins d

-- The screen of a plan: each plugin with whether the plan allows it.
unfoldable pub list_plan_plugin_views : List Plugin → ℕ → Db → Option (List (Text × Bool))
list_plan_plugin_views plugins plan_id d =
    if exists (λ p. p.id == plan_id) d.plans
    then some (map (λ p. (p.name, has_name p.name (allowed_names plan_id d))) plugins)
    else none
