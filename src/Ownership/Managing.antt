-- ===== src/Ownership/Managing.antt =====
-- `delete_managed_account`, `reassign_proxy`, `add_account_manager` and `remove_account_manager` of
-- src/database.py. The proxy that `_random_proxy_id` draws is an argument.
use tele_group.Base.{
  ℕ, Bool, true, false, ◌&&◌, Option, none, some, [], ◌∷◌, ◌++◌, ◌==◌, if◌then◌else◌, exists,
  update_where, delete_where,
}
use tele_group.Text.{codes}
use tele_group.Accounts.Rows.{
  Db, ManagedAccount, AccountManager, not_deleted, enqueue_signal, user_owns,
}
use tele_group.Accounts.Switching.{live_account}
use tele_group.Ownership.Transfer.{internal_user_id}

abbrev pub is_live_row : ℕ → ManagedAccount → Bool
is_live_row account_id a = a.id == account_id && not_deleted a

abbrev pub set_deleted : ℕ → ManagedAccount → ManagedAccount
set_deleted now a = record a { deleted_at = some now; is_active = false; is_running = false }

unfoldable pub delete_managed_account : ℕ → ℕ → ℕ → Db → Bool × Db
delete_managed_account account_id actor now d =
    if user_owns account_id actor d && exists (is_live_row account_id) d.accounts
    then (
      true,
      enqueue_signal (some account_id) (codes "stop") record d {
        accounts = update_where (is_live_row account_id) (set_deleted now) d.accounts;
      },
    )
    else (false, d)

pub data ProxyResult : Type 0 where
  db_error no_available_proxies proxy_update_success : ProxyResult

abbrev pub set_proxy : ℕ → ManagedAccount → ManagedAccount
set_proxy proxy_id a = record a { proxy_id = some proxy_id }

abbrev pub use_proxy : ℕ → Option ℕ → Db → ProxyResult × Db
use_proxy account_id none d = (no_available_proxies, d)
use_proxy account_id (some proxy_id) d = (
  proxy_update_success,
  enqueue_signal (some account_id) (codes "reload") record d {
    accounts = update_where (λ a. a.id == account_id) (set_proxy proxy_id) d.accounts;
  },
)

abbrev pub proxy_for : ℕ → Option ℕ → Option ManagedAccount → Db → ProxyResult × Db
proxy_for account_id drawn none d = (db_error, d)
proxy_for account_id drawn (some a) d = use_proxy account_id drawn d

-- `drawn` is the second draw where the first finds nothing.
unfoldable pub reassign_proxy : ℕ → ℕ → Option ℕ → Db → ProxyResult × Db
reassign_proxy account_id actor drawn d =
    if user_owns account_id actor d
    then proxy_for account_id drawn (live_account account_id d) d
    else (db_error, d)

pub data ManagerResult : Type 0 where
  self not_found added exists_already : ManagerResult

abbrev pub is_manager_row : ℕ → ℕ → AccountManager → Bool
is_manager_row owner_user_id manager r =
    r.owner_user_id == owner_user_id && r.manager_telegram_id == manager

abbrev pub add_manager_of : Option ℕ → ℕ → Db → ManagerResult × Db
add_manager_of none manager d = (not_found, d)
add_manager_of (some owner_user_id) manager d =
    if exists (is_manager_row owner_user_id manager) d.managers then (exists_already, d) else (
      added,
      record d {
        managers =
            d.managers
            ++ record { owner_user_id = owner_user_id; manager_telegram_id = manager } ∷ [];
      },
    )

unfoldable pub add_account_manager : ℕ → ℕ → Db → ManagerResult × Db
add_account_manager owner manager d =
    if owner == manager then (self, d) else add_manager_of (internal_user_id owner d) manager d

abbrev pub remove_manager_of : Option ℕ → ℕ → Db → Bool × Db
remove_manager_of none manager d = (false, d)
remove_manager_of (some owner_user_id) manager d =
    if exists (is_manager_row owner_user_id manager) d.managers
    then (
      true,
      record d { managers = delete_where (is_manager_row owner_user_id manager) d.managers },
    )
    else (false, d)

-- At most one row is of a pair of owner and manager, so the row that is deleted is all of them.
unfoldable pub remove_account_manager : ℕ → ℕ → Db → Bool × Db
remove_account_manager owner manager d = remove_manager_of (internal_user_id owner d) manager d
