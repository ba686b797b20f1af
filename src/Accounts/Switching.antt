-- ===== src/Accounts/Switching.antt =====
-- The switches of the plugins of an account: `set_account_plugin` of src/runtime/gating.py,
-- `upsert_account_plugin` and `set_plan_plugin_allowed` of src/runtime/store.py, and
-- `toggle_account_status` and `toggle_code_monitor` of src/database.py.
use tele_group.Base.{
  ℕ, Bool, true, false, not, ◌&&◌, Option, none, some, List, [], ◌∷◌, ◌++◌, ◌==◌, if◌then◌else◌,
  exists, delete_where, first, is_some, update_where,
}
use tele_group.Text.{Text, text_eq, codes}
use tele_group.Accounts.Rows.{
  Db, ManagedAccount, AccountPlugin, PlanPlugin, account_by_id, enqueue_signal, user_owns,
}
use tele_group.Accounts.Gating.{
  Plugin, PluginAccount, get_plugin_account, groups_plugin, has_name, is_override, allowed_if_set,
  codemon_plugin, enabled_flag, override_of,
}

abbrev pub set_active : Bool → ManagedAccount → ManagedAccount
set_active true a = record a {
  is_active = true;
  next_creation_time = none;
  backoff_level = 0;
  last_error = none;
}
set_active false a = record a { is_active = false }

abbrev pub change_account : ℕ → (ManagedAccount → ManagedAccount) → Db → Db
change_account account_id f d =
    enqueue_signal (some account_id) (codes "reload")
      record d { accounts = update_where (λ a. a.id == account_id) f d.accounts }

-- The row that a toggle changes: `none` where there is none or it is deleted.
abbrev pub live_account : ℕ → Db → Option ManagedAccount
live_account account_id d = elim (account_by_id account_id d) [
  | none ↦ none
  | some a ↦ if is_some a.deleted_at then none else some a
]

unfoldable pub switch_active : ℕ → Option ManagedAccount → Db → Option Bool × Db
switch_active account_id none d = (none, d)
switch_active account_id (some a) d =
    (some (not a.is_active), change_account account_id (set_active (not a.is_active)) d)

unfoldable pub toggle_account_status : ℕ → ℕ → Db → Option Bool × Db
toggle_account_status account_id actor d =
    if user_owns account_id actor d
    then switch_active account_id (live_account account_id d) d
    else (none, d)

abbrev pub set_monitor : Bool → ManagedAccount → ManagedAccount
set_monitor value a = record a { code_monitor_enabled = value }

unfoldable pub switch_monitor : ℕ → Option ManagedAccount → Db → Option Bool × Db
switch_monitor account_id none d = (none, d)
switch_monitor account_id (some a) d = (
  some (not a.code_monitor_enabled),
  change_account account_id (set_monitor (not a.code_monitor_enabled)) d,
)

unfoldable pub toggle_code_monitor : ℕ → ℕ → Db → Option Bool × Db
toggle_code_monitor account_id actor d =
    if user_owns account_id actor d
    then switch_monitor account_id (live_account account_id d) d
    else (none, d)

abbrev pub set_override : Bool → AccountPlugin → AccountPlugin
set_override value r = record r { enabled = value }

unfoldable pub upsert_account_plugin : ℕ → Text → Bool → Db → Db
upsert_account_plugin account_id name value d =
    enqueue_signal (some account_id) (codes "reload") record d {
      account_plugins =
          if exists (is_override account_id name) d.account_plugins
          then update_where (is_override account_id name) (set_override value) d.account_plugins
          else d.account_plugins
            ++ record { account_id = account_id; plugin_name = name; enabled = value } ∷ [];
    }

pub data Switched : Type 0 where
  enabled disabled locked missing denied : Switched

abbrev pub answer : Option Bool → Switched
answer none = denied
answer (some true) = enabled
answer (some false) = disabled

-- `set_account_plugin` once the plan is known to allow the plugin.
abbrev pub answered : Option Bool × Db → Switched × Db
answered r = (answer r.0, r.1)

unfoldable pub flip : ℕ → ℕ → Plugin → PluginAccount → Db → Switched × Db
flip account_id actor p a d =
    if text_eq p.name groups_plugin
    then answered (toggle_account_status account_id actor d)
    else if text_eq p.name codemon_plugin
    then answered (toggle_code_monitor account_id actor d)
    else let current =
        enabled_flag p a (override_of account_id p.name d) (allowed_if_set a.plan_id d) in
      (
        (if current then disabled else enabled),
        upsert_account_plugin account_id p.name (not current) d,
      )

unfoldable pub flip_on : ℕ → ℕ → Plugin → Option PluginAccount → Db → Switched × Db
flip_on account_id actor p none d = (missing, d)
flip_on account_id actor p (some a) d =
    if a.deleted
    then (missing, d)
    else if has_name p.name (allowed_if_set a.plan_id d)
    then flip account_id actor p a d
    else (locked, d)

unfoldable pub flip_plugin : ℕ → ℕ → Option Plugin → ℕ → Db → Switched × Db
flip_plugin account_id actor none now d = (missing, d)
flip_plugin account_id actor (some p) now d =
    flip_on account_id actor p (get_plugin_account account_id now d) d

unfoldable pub set_account_plugin : List Plugin → ℕ → ℕ → Text → ℕ → Db → Switched × Db
set_account_plugin plugins account_id actor name now d =
    if user_owns account_id actor d
    then flip_plugin account_id actor (first (λ p. text_eq p.name name) plugins) now d
    else (denied, d)

abbrev pub allows : ℕ → Text → PlanPlugin → Bool
allows plan_id name r = r.plan_id == plan_id && text_eq r.plugin_name name

-- `set_plan_plugin_allowed`
unfoldable pub set_plan_plugin_allowed : ℕ → Text → Bool → Db → Bool × Db
set_plan_plugin_allowed plan_id name allowed d =
    if exists (λ p. p.id == plan_id) d.plans
    then (
      true,
      enqueue_signal none (codes "reload") record d {
        plan_plugins =
            if allowed
            then (if exists (allows plan_id name) d.plan_plugins
                then d.plan_plugins
                else d.plan_plugins ++ record { plan_id = plan_id; plugin_name = name } ∷ [])
            else delete_where (allows plan_id name) d.plan_plugins;
      },
    )
    else (false, d)
