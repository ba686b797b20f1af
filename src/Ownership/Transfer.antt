-- ===== src/Ownership/Transfer.antt =====
-- `transfer_managed_account` of src/database.py, on the tables of the accounts.
use tele_group.Base.{
  ℕ, Bool, false, ◌&&◌, Option, none, some, leb, ltb, ◌==◌, if◌then◌else◌, count_where, exists,
  first, select, update_where,
}
use tele_group.Text.{Text, strip, codes}
use tele_group.Grants.Tables.{User, Plan, Subscription}
use tele_group.Grants.Apply.{latest, is_active_of, max_telegram_id}
use tele_group.Accounts.Rows.{Db, ManagedAccount, not_deleted, enqueue_signal}
use tele_group.Ownership.Target.{
  Unicode, Target, by_id, by_name, unreadable, no_target, read_target, get_user_by_username,
  user_by_telegram, get_or_create_user,
}

pub data TransferResult : Type 0 where
  not_owner self_transfer recipient_not_found recipient_no_subscription : TransferResult
  recipient_plan_full ok account_not_found db_error : TransferResult

-- `_internal_user_id`
abbrev pub id_or_none : Option User → Option ℕ
id_or_none none = none
id_or_none (some u) = some u.id

unfoldable pub internal_user_id : ℕ → Db → Option ℕ
internal_user_id telegram_id d = id_or_none (user_by_telegram telegram_id d)

abbrev pub is_known : Option ℕ → ℕ → Bool
is_known none n = false
is_known (some m) n = n == m

abbrev pub is_owned_by : ℕ → Option ℕ → ManagedAccount → Bool
is_owned_by account_id owner a = a.id == account_id && not_deleted a && is_known owner a.user_id

-- `_user_is_owner`
unfoldable pub user_is_owner : ℕ → ℕ → Db → Bool
user_is_owner account_id telegram_id d =
    exists (is_owned_by account_id (internal_user_id telegram_id d)) d.accounts

abbrev pub is_live_of : ℕ → ManagedAccount → Bool
is_live_of user_id a = a.user_id == user_id && not_deleted a

-- The subscription and the accounts of `_get_user_details`.
abbrev pub has_plan : Db → Subscription → Bool
has_plan d s = exists (λ p. p.id == s.plan_id) d.plans

unfoldable pub details_subscription : ℕ → Db → Option Subscription
details_subscription user_id d =
    latest (select (λ s. is_active_of user_id s && has_plan d s) d.subscriptions)

abbrev pub account_count : ℕ → Db → ℕ
account_count user_id d = count_where (is_live_of user_id) d.accounts

abbrev pub plan_of_subscription : Db → Option Subscription → Option Plan
plan_of_subscription d none = none
plan_of_subscription d (some s) = first (λ p. p.id == s.plan_id) d.plans

abbrev pub give_to : ℕ → ManagedAccount → ManagedAccount
give_to user_id a = record a { user_id = user_id }

-- The update of the row, and what its row count says.
unfoldable pub move_account : ℕ → Option ℕ → ℕ → Db → TransferResult × Db
move_account account_id sender user_id d =
    if exists (is_owned_by account_id sender) d.accounts
    then (
      ok,
      enqueue_signal (some account_id) (codes "reload") record d {
        accounts = update_where (is_owned_by account_id sender) (give_to user_id) d.accounts;
      },
    )
    else (account_not_found, d)

unfoldable pub move_on_plan : ℕ → Option ℕ → User → Db → Option Plan → TransferResult × Db
move_on_plan account_id sender recipient d none = (recipient_no_subscription, d)
move_on_plan account_id sender recipient d (some plan) =
    if leb plan.max_accounts (account_count recipient.id d)
    then (recipient_plan_full, d)
    else move_account account_id sender recipient.id d

-- Once the recipient is known.
unfoldable pub move_to : ℕ → ℕ → Option ℕ → User → Db → TransferResult × Db
move_to account_id sender_telegram_id sender recipient d =
    if recipient.telegram_id == sender_telegram_id
    then (self_transfer, d)
    else move_on_plan account_id sender recipient d
        (plan_of_subscription d (details_subscription recipient.id d))

abbrev pub move_to_found : ℕ → ℕ → Option ℕ → Option User → Db → TransferResult × Db
move_to_found account_id sender_telegram_id sender none d = (recipient_not_found, d)
move_to_found account_id sender_telegram_id sender (some u) d =
    move_to account_id sender_telegram_id sender u d

abbrev pub again : Db → Option User → Option User
again d none = none
again d (some u) = user_by_telegram u.telegram_id d

-- `fresh` is the id of a user row that is added. An exception rolls the session back: the database
-- refuses an id that its column can not hold.
unfoldable pub transfer_to : Unicode → ℕ → ℕ → Option ℕ → ℕ → Db → Target → TransferResult × Db
transfer_to k account_id sender_telegram_id sender fresh d unreadable = (db_error, d)
transfer_to k account_id sender_telegram_id sender fresh d no_target = (recipient_not_found, d)
transfer_to k account_id sender_telegram_id sender fresh d (by_name s) =
    move_to_found account_id sender_telegram_id sender (again d (get_user_by_username k s d)) d
transfer_to k account_id sender_telegram_id sender fresh d (by_id target) =
    if target == sender_telegram_id
    then (self_transfer, d)
    else if ltb max_telegram_id target
    then (db_error, d)
    else let found = get_or_create_user fresh target d in
      move_to account_id sender_telegram_id sender found.0 found.1

unfoldable pub transfer_managed_account : Unicode → ℕ → ℕ → Text → ℕ → Db → TransferResult × Db
transfer_managed_account k account_id sender_telegram_id recipient_identifier fresh d =
    if user_is_owner account_id sender_telegram_id d
    then transfer_to k account_id sender_telegram_id (internal_user_id sender_telegram_id d) fresh d
        (read_target k (strip recipient_identifier))
    else (not_owner, d)
