-- ===== src/Ownership/Commands.antt =====
-- The operations of src/database.py on an account, as commands of the person who asks for them.
use tele_group.Base.{ℕ, ◌≡◌, Bool, not, Option, List, ◌==◌, select, true, ◌⊎◌}
use tele_group.Text.{Text}
use tele_group.Accounts.Rows.{Db, ManagedAccount, user_owns}
use tele_group.Accounts.Switching.{toggle_account_status, toggle_code_monitor}
use tele_group.Ownership.Target.{Unicode}
use tele_group.Ownership.Transfer.{transfer_managed_account, user_is_owner}
use tele_group.Ownership.Managing.{delete_managed_account, reassign_proxy}

-- The operations on an account that exists, each with the person who asks for it.
pub data AccountCommand : Type 0 where
  toggle_status toggle_monitor : ℕ → ℕ → AccountCommand
  delete : ℕ → ℕ → ℕ → AccountCommand
  reassign : ℕ → ℕ → Option ℕ → AccountCommand
  transfer : ℕ → ℕ → Text → ℕ → AccountCommand

module _ (k : Unicode) where
  unfoldable pub obey_account : AccountCommand → Db → Db
  obey_account (toggle_status account_id actor) d = (toggle_account_status account_id actor d).1
  obey_account (toggle_monitor account_id actor) d = (toggle_code_monitor account_id actor d).1
  obey_account (delete account_id actor now) d = (delete_managed_account account_id actor now d).1
  obey_account (reassign account_id actor drawn) d = (reassign_proxy account_id actor drawn d).1
  obey_account (transfer account_id actor recipient fresh) d =
      (transfer_managed_account k account_id actor recipient fresh d).1

abbrev pub account_of : AccountCommand → ℕ
account_of (toggle_status account_id actor) = account_id
account_of (toggle_monitor account_id actor) = account_id
account_of (delete account_id actor now) = account_id
account_of (reassign account_id actor drawn) = account_id
account_of (transfer account_id actor recipient fresh) = account_id

-- The right that the command needs: to own the account for a transfer, and else to own it or to be
-- among the owner's managers.
abbrev pub may_ask : AccountCommand → Db → Bool
may_ask (toggle_status account_id actor) d = user_owns account_id actor d
may_ask (toggle_monitor account_id actor) d = user_owns account_id actor d
may_ask (delete account_id actor now) d = user_owns account_id actor d
may_ask (reassign account_id actor drawn) d = user_owns account_id actor d
may_ask (transfer account_id actor recipient fresh) d = user_is_owner account_id actor d

abbrev pub others : ℕ → Db → List ManagedAccount
others account_id d = select (λ a. not (a.id == account_id)) d.accounts

-- What a command may do to the accounts: nothing without the right, and nothing to another account.
abbrev pub Respects : ℕ → Bool → Db → Db → Type 0
Respects account_id allowed d d' =
    ((allowed ≡ true) ⊎ (d'.accounts ≡ d.accounts)) × (others account_id d' ≡ others account_id d)
