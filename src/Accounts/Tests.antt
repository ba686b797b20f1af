-- ===== src/Accounts/Tests.antt =====
-- Runs of the models of src/runtime/store.py and src/runtime/gating.py at concrete inputs.
use tele_group.Base.{
  ◌≡◌, refl, true, false, not, ◌&&◌, ◌||◌, none, some, List, [], ◌∷◌, map, arith, ◌==◌, select,
  exists,
}
use tele_group.Text.{text_eq, codes}
use tele_group.Grants.Tables.{User}
use tele_group.Accounts.Rows.{valid, Db, ManagedAccount}
use tele_group.Accounts.Gating.{
  Plugin, PluginAccount, accounts_that_should_run, get_plugin_account, list_plugin_views,
  plugin_is_enabled, joined, plugin_view, PluginView, plan_of, enabled_on, enabled_on_plan,
  enabled_flag, stored_flag, override_of, allowed_names,
}
use tele_group.Accounts.AdminTable.{add, remove, IsValid, obey_all, obey_all-IsValid}
use tele_group.Accounts.AdminMembers.{
  is_in, add_account_admin-members, remove_account_admin-members,
}
use tele_group.Accounts.Admins.{
  added, AdminRequest, add_account_admin, is_account_admin, add_to_found, remove_account_admin,
  add_to_account, clean_username, list_account_admins,
}
use tele_group.Accounts.Verdict.{Outcome, set_account_plugin-Outcome}
use tele_group.Accounts.Enabled.{
  IsEntitled, plugin_is_enabled-Allows, accounts_that_should_run-exact, list_plugin_views-enabled,
}
use tele_group.Accounts.Switching.{set_account_plugin}
use tele_group.Grants.Apply.{latest}

abbrev two_users : List User
two_users =
    record { id = 1; telegram_id = 100; first_name = "A"; username = none; language_code = "en" }
    ∷ record { id = 2; telegram_id = 200; first_name = "B"; username = none; language_code = "ar" }
    ∷ []

abbrev one_account : ManagedAccount
one_account = record {
  id = 7;
  user_id = 1;
  phone = codes "1";
  session_string = codes "s";
  proxy_id = none;
  device_profile_id = none;
  is_running = false;
  flood_wait_until = none;
  session_status = valid;
  is_active = false;
  code_monitor_enabled = false;
  next_creation_time = some 5;
  backoff_level = 2;
  last_error = none;
  deleted_at = none;
}

abbrev small : Db
small = record {
  users = two_users;
  plans = record { id = 3; name = "basic"; max_accounts = 2 } ∷ [];
  subscriptions =
      record { id = 1; user_id = 1; plan_id = 3; start_date = 0; end_date = 90; is_active = true }
      ∷ [];
  accounts = one_account ∷ [];
  managers = [];
  admins = record { account_id = 7; telegram_id = 300; username = none; added_by = some 100 } ∷ [];
  account_plugins = [];
  plan_plugins =
      record { plan_id = 3; plugin_name = codes "groups" }
      ∷ record { plan_id = 3; plugin_name = codes "calc" }
      ∷ [];
  leases = [];
  signals = [];
}

abbrev calc : Plugin
calc = record {
  name = codes "calc";
  commands = record { name = codes "calc" } ∷ [];
  default_enabled = true;
}

abbrev groups : Plugin
groups = record { name = codes "groups"; commands = []; default_enabled = true }

abbrev ask : AdminRequest
ask = record { account_id = 7; telegram_id = 200; username = none; added_by = some 100 }

added_once : (add_account_admin ask small).0 ≡ added
unfolding add_account_admin add_to_found add_to_account is_account_admin clean_username
added_once = refl

small-IsValid : IsValid small
small-IsValid = record {
  distinct = (refl, tt);
  bounded = λ account. ground arith;
  positive = (omega arith, tt);
}

obey_all-IsValid_example : IsValid (obey_all (add ask ∷ remove 7 300 ∷ add ask ∷ []) small)
obey_all-IsValid_example =
    obey_all-IsValid (add ask ∷ remove 7 300 ∷ add ask ∷ []) small small-IsValid

add_account_admin-members_example : is_account_admin 7 200 (add_account_admin ask small).1 ≡ (
    is_account_admin 7 200 small || (7 == 7 && 200 == 200 && is_in (add_account_admin ask small).0))
add_account_admin-members_example = add_account_admin-members ask small 7 200

remove_account_admin-members_example :
    (is_account_admin 7 300 (remove_account_admin 7 300 small).1
      ≡ (is_account_admin 7 300 small && not (7 == 7 && 300 == 300)))
    × ((remove_account_admin 7 300 small).0 ≡ is_account_admin 7 300 small)
    × (exists
          (λ r. r.telegram_id == 300)
          (list_account_admins 7 (remove_account_admin 7 300 small).1)
        ≡ is_account_admin 7 300 (remove_account_admin 7 300 small).1)
remove_account_admin-members_example = remove_account_admin-members 7 300 small 7 300

abbrev account_read : PluginAccount
account_read = record {
  account_id = 7;
  is_active = false;
  code_monitor_enabled = false;
  deleted = false;
  telegram_id = 100;
  plan_id = some 3;
}

read_back : get_plugin_account 7 50 small ≡ some account_read
unfolding get_plugin_account joined plan_of latest
read_back = refl

calc_runs : plugin_is_enabled 7 calc 50 small ≡ true
unfolding plugin_is_enabled get_plugin_account joined plan_of latest enabled_on enabled_on_plan
    enabled_flag stored_flag override_of allowed_names text_eq
calc_runs = refl

plugin_is_enabled-Allows_example : IsEntitled 7 (codes "calc") 50 small
plugin_is_enabled-Allows_example = plugin_is_enabled-Allows 7 50 calc small calc_runs

list_plugin_views-enabled_example :
    list_plugin_views (calc ∷ groups ∷ []) 7 50 small
      ≡ some (map (plugin_view account_read small) (calc ∷ groups ∷ []))
    × (map
          (λ (v : PluginView). v.enabled)
          (map (plugin_view account_read small) (calc ∷ groups ∷ []))
        ≡ map (λ p. plugin_is_enabled 7 p 50 small) (calc ∷ groups ∷ []))
list_plugin_views-enabled_example =
    list_plugin_views-enabled (calc ∷ groups ∷ []) 7 50 small account_read read_back refl (λ e. cc)

accounts_that_should_run-exact_example :
    accounts_that_should_run (λ a. a) (calc ∷ groups ∷ []) (account_read ∷ []) small
    ≡ select
        (λ a. exists (λ p. plugin_is_enabled a.account_id p 50 small) (calc ∷ groups ∷ []))
        (account_read ∷ [])
accounts_that_should_run-exact_example =
    accounts_that_should_run-exact (calc ∷ groups ∷ []) (account_read ∷ []) 50 small
      ((read_back, refl), tt)

set_account_plugin-Outcome_example :
    Outcome
      (calc ∷ groups ∷ [])
      7
      100
      (codes "groups")
      50
      small
      (set_account_plugin (calc ∷ groups ∷ []) 7 100 (codes "groups") 50 small)
set_account_plugin-Outcome_example =
    set_account_plugin-Outcome (calc ∷ groups ∷ []) 7 100 (codes "groups") 50 small
