-- ===== src/Accounts/Rows.antt =====
-- The rows of src/db/models.py that src/runtime/store.py and src/runtime/gating.py use, and the
-- reads that several operations share.
use tele_group.Base.{ℕ, Bool, ◌&&◌, ◌||◌, Option, List, [], ◌∷◌, ◌++◌, ◌==◌, exists, first, is_none}
use tele_group.Text.{Text}
use tele_group.Grants.Tables.{User, Plan, Subscription}

pub data SessionStatus : Type 0 where
  valid unknown invalid : SessionStatus

pub record ManagedAccount : Type 0 where
  pub id : ℕ
  pub user_id : ℕ
  pub phone : Text
  pub session_string : Text
  pub proxy_id : Option ℕ
  pub device_profile_id : Option ℕ
  pub is_active : Bool
  pub is_running : Bool
  pub flood_wait_until : Option ℕ
  pub session_status : SessionStatus
  pub code_monitor_enabled : Bool
  pub next_creation_time : Option ℕ
  pub backoff_level : ℕ
  pub last_error : Option Text
  pub deleted_at : Option ℕ

pub record AccountAdmin : Type 0 where
  pub account_id : ℕ
  pub telegram_id : ℕ
  pub username : Option Text
  pub added_by : Option ℕ

pub record AccountManager : Type 0 where
  pub owner_user_id : ℕ
  pub manager_telegram_id : ℕ

pub record AccountPlugin : Type 0 where
  pub account_id : ℕ
  pub plugin_name : Text
  pub enabled : Bool

pub record PlanPlugin : Type 0 where
  pub plan_id : ℕ
  pub plugin_name : Text

pub record RuntimeSignal : Type 0 where
  pub account_id : Option ℕ
  pub event : Text

pub record SessionLease : Type 0 where
  pub account_id : ℕ
  pub holder : Text
  pub expires_at : ℕ
  pub acked : Bool

pub record Db : Type 0 where
  pub users : List User
  pub plans : List Plan
  pub subscriptions : List Subscription
  pub accounts : List ManagedAccount
  pub managers : List AccountManager
  pub admins : List AccountAdmin
  pub account_plugins : List AccountPlugin
  pub plan_plugins : List PlanPlugin
  pub leases : List SessionLease
  pub signals : List RuntimeSignal

-- `enqueue_signal`: the row that wakes the worker.
unfoldable pub enqueue_signal : Option ℕ → Text → Db → Db
enqueue_signal account_id event d = record d {
  signals = d.signals ++ record { account_id = account_id; event = event } ∷ [];
}

abbrev pub not_deleted : ManagedAccount → Bool
not_deleted a = is_none a.deleted_at

-- `session.get(ManagedAccount, account_id)`
abbrev pub account_by_id : ℕ → Db → Option ManagedAccount
account_by_id account_id d = first (λ a. a.id == account_id) d.accounts

-- The owner of an account row, or a manager whom the owner let in.
abbrev pub may_manage : ℕ → Db → ManagedAccount → Bool
may_manage telegram_id d a =
    exists (λ u. u.id == a.user_id && u.telegram_id == telegram_id) d.users
    || (exists (λ u. u.id == a.user_id) d.users
        && exists (λ m. m.owner_user_id == a.user_id && m.manager_telegram_id == telegram_id)
            d.managers)

-- `_user_owns`
unfoldable pub user_owns : ℕ → ℕ → Db → Bool
user_owns account_id telegram_id d =
    exists (λ a. a.id == account_id && not_deleted a && may_manage telegram_id d a) d.accounts
