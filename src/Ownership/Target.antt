-- ===== src/Ownership/Target.antt =====
-- The recipient that `transfer_managed_account` of src/database.py reads from a text, with
-- `_get_or_create_user` and `_get_user_by_username`.
use tele_group.Base.{
  ℕ, String, Bool, true, false, not, ◌&&◌, ◌||◌, Option, none, some, [], ◌∷◌, ◌++◌, ◌==◌,
  if◌then◌else◌, first, is_some,
}
use tele_group.Text.{Text, strip, is_empty, text_eq, codes}
use tele_group.Grants.Tables.{User}
use tele_group.Accounts.Rows.{Db}
use tele_group.Payments.Payload.{int_of, is_too_long}

-- What Python knows of characters: `str.isdigit`, the value of a decimal digit for `int`,
-- `str.isalnum` and `str.lower`, and the `lower` of the database.
pub record Unicode : Type 0 where
  pub isdigit : ℕ → Bool
  pub digit : ℕ → Option ℕ
  pub isalnum : ℕ → Bool
  pub lower : Text → Text
  pub sql_lower : Text → Text

abbrev pub every : (ℕ → Bool) → Text → Bool
every p [] = true
every p (c ∷ s) = p c && every p s

-- `str.isdigit` and `str.isalnum` of a whole text.
abbrev pub is_all : (ℕ → Bool) → Text → Bool
is_all p s = not (is_empty s) && every p s

abbrev pub starts_at : Text → Bool
starts_at [] = false
starts_at (c ∷ s) = c == b'@'

pub data Target : Type 0 where
  by_id : ℕ → Target
  by_name : Text → Target
  -- `int` raises `ValueError`
  unreadable : Target
  no_target : Target

module _ (k : Unicode) where
  abbrev pub is_decimal : ℕ → Bool
  is_decimal c = is_some (k.digit c)

  unfoldable pub read_target : Text → Target
  read_target s =
      if is_all k.isdigit s
      then (if every is_decimal s && not (is_too_long s)
          then by_id (int_of k.digit 0 s)
          else unreadable)
      else if starts_at s || is_all k.isalnum s
      then by_name s
      else no_target

  abbrev pub drop_ats : Text → Text
  drop_ats [] = []
  drop_ats (c ∷ s) = let rest = drop_ats s in if c == b'@' then rest else c ∷ s

  abbrev pub name_of : Option String → Text → Bool
  name_of none wanted = false
  name_of (some u) wanted = text_eq (k.sql_lower (codes u)) wanted

  unfoldable pub get_user_by_username : Text → Db → Option User
  get_user_by_username s d =
      let clean = strip (drop_ats s) in
      if is_empty clean then none else first (λ u. name_of u.username (k.lower clean)) d.users

abbrev pub user_by_telegram : ℕ → Db → Option User
user_by_telegram telegram_id d = first (λ u. u.telegram_id == telegram_id) d.users

abbrev pub created : ℕ → ℕ → User
created fresh telegram_id = record {
  id = fresh;
  telegram_id = telegram_id;
  first_name = "User";
  username = none;
  language_code = "en";
}

abbrev pub found_or_created : ℕ → ℕ → Db → Option User → User × Db
found_or_created fresh telegram_id d (some u) = (u, d)
found_or_created fresh telegram_id d none =
    (created fresh telegram_id, record d { users = d.users ++ created fresh telegram_id ∷ [] })

-- `_get_or_create_user`; `fresh` is the id that a new row gets.
unfoldable pub get_or_create_user : ℕ → ℕ → Db → User × Db
get_or_create_user fresh telegram_id d =
    found_or_created fresh telegram_id d (user_by_telegram telegram_id d)
