-- ===== src/Accounts/Admins.antt =====
-- The admins of an account: `is_account_admin`, `add_account_admin` and `remove_account_admin` of
-- src/runtime/store.py. A Telegram id is a number, so an id below 1 is 0.
use tele_group.Base.{
  ℕ, Bool, true, false, ◌&&◌, Option, none, some, [], ◌∷◌, ◌++◌, leb, ◌==◌, if◌then◌else◌,
  count_where, delete_where, exists, first, update_where, is_some, List, select,
}
use tele_group.Text.{Text, strip, take, is_empty}
use tele_group.Accounts.Rows.{AccountAdmin, Db, ManagedAccount, account_by_id}

abbrev pub max_account_admins : ℕ
max_account_admins = 20

pub data Added : Type 0 where
  added exists_already is_owner full invalid missing : Added

unfoldable pub drop_at_signs : Text → Text
drop_at_signs [] = []
drop_at_signs (c ∷ s) = let rest = drop_at_signs s in if c == 64 then rest else c ∷ s

-- `_clean_username`
unfoldable pub clean_username : Option Text → Option Text
clean_username none = none
clean_username (some username) =
    let text = drop_at_signs (strip username) in if is_empty text then none else some (take 64 text)

abbrev pub is_admin_row : ℕ → ℕ → AccountAdmin → Bool
is_admin_row account_id telegram_id r = r.account_id == account_id && r.telegram_id == telegram_id

unfoldable pub is_account_admin : ℕ → ℕ → Db → Bool
is_account_admin account_id telegram_id d = exists (is_admin_row account_id telegram_id) d.admins

abbrev pub admin_count : ℕ → Db → ℕ
admin_count account_id d = count_where (λ r. r.account_id == account_id) d.admins

-- `SELECT users.telegram_id WHERE users.id = …`
abbrev pub owner_is : ℕ → ManagedAccount → Db → Bool
owner_is telegram_id a d = elim (first (λ u. u.id == a.user_id) d.users) [
  | none ↦ false
  | some owner ↦ owner.telegram_id == telegram_id
]

pub record AdminRequest : Type 0 where
  pub account_id : ℕ
  pub telegram_id : ℕ
  pub username : Option Text
  pub added_by : Option ℕ

abbrev pub fill_username : Option Text → AccountAdmin → AccountAdmin
fill_username none r = r
fill_username (some cleaned) r = record r {
  username = elim r.username [
    | none ↦ some cleaned
    | some old ↦ some (if is_empty old then cleaned else old)
  ];
}

abbrev pub new_row : AdminRequest → AccountAdmin
new_row q = record {
  account_id = q.account_id;
  telegram_id = q.telegram_id;
  username = clean_username q.username;
  added_by = q.added_by;
}

-- The part of `add_account_admin` after the account was read.
unfoldable pub add_to_account : AdminRequest → ManagedAccount → Db → Added × Db
add_to_account q a d =
    if owner_is q.telegram_id a d
    then (is_owner, d)
    else if is_account_admin q.account_id q.telegram_id d
    then (
      exists_already,
      record d {
        admins =
            update_where (is_admin_row q.account_id q.telegram_id)
              (fill_username (clean_username q.username)) d.admins;
      },
    )
    else if leb max_account_admins (admin_count q.account_id d)
    then (full, d)
    else (added, record d { admins = d.admins ++ new_row q ∷ [] })

unfoldable pub add_to_found : AdminRequest → Option ManagedAccount → Db → Added × Db
add_to_found q none d = (missing, d)
add_to_found q (some a) d = if is_some a.deleted_at then (missing, d) else add_to_account q a d

unfoldable pub add_account_admin : AdminRequest → Db → Added × Db
add_account_admin q d =
    if q.telegram_id == 0 then (invalid, d) else add_to_found q (account_by_id q.account_id d) d

-- The pair of an account and a user is unique, so the row that is deleted is every such row.
unfoldable pub remove_account_admin : ℕ → ℕ → Db → Bool × Db
remove_account_admin account_id telegram_id d =
    if is_account_admin account_id telegram_id d
    then (true, record d { admins = delete_where (is_admin_row account_id telegram_id) d.admins })
    else (false, d)

-- `list_account_admins`: the rows of the account, oldest first.
unfoldable pub list_account_admins : ℕ → Db → List AccountAdmin
list_account_admins account_id d = select (λ r. r.account_id == account_id) d.admins
