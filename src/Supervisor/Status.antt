-- ===== src/Supervisor/Status.antt =====
-- `mark_session_status` of src/database.py.
use tele_group.Base.{ℕ, Bool, true, false, Option, none, some, if◌then◌else◌, exists, update_where}
use tele_group.Text.{Text, codes, text_eq, is_empty}
use tele_group.Accounts.Rows.{
  Db, ManagedAccount, SessionStatus, valid, unknown, invalid, enqueue_signal,
}
use tele_group.Ownership.Managing.{is_live_row}

abbrev pub session_invalid : Text
session_invalid = codes "SESSION_INVALID"

-- `error_message or "SESSION_INVALID"`
abbrev pub or_session_invalid : Option Text → Text
or_session_invalid none = session_invalid
or_session_invalid (some s) = if is_empty s then session_invalid else s

abbrev pub cleared_error : Option Text → Option Text
cleared_error none = none
cleared_error (some s) = if text_eq s session_invalid then none else some s

abbrev pub set_status : SessionStatus → Option Text → ManagedAccount → ManagedAccount
set_status invalid message a = record a {
  session_status = invalid;
  last_error = some (or_session_invalid message);
}
set_status valid message a = record a {
  session_status = valid;
  last_error = cleared_error a.last_error;
}
set_status unknown message a = record a { session_status = unknown }

abbrev pub wake_if_invalid : SessionStatus → ℕ → Db → Db
wake_if_invalid invalid account_id d = enqueue_signal (some account_id) (codes "stop") d
wake_if_invalid _ account_id d = d

unfoldable pub mark_session_status : ℕ → SessionStatus → Option Text → Db → Bool × Db
mark_session_status account_id status message d =
    if exists (is_live_row account_id) d.accounts
    then (
      true,
      wake_if_invalid status account_id record d {
        accounts = update_where (is_live_row account_id) (set_status status message) d.accounts;
      },
    )
    else (false, d)
