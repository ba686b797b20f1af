-- ===== src/Listeners/Permits.antt =====
-- The permits of src/runtime/plugin_data.py and the counting of warnings in
-- src/plugins/pmpermit.py.
use tele_group.Base.{
  ℕ, ◌+◌, Bool, false, ◌&&◌, ◌||◌, Option, none, some, [], ◌∷◌, ◌++◌, leb, ◌==◌, if◌then◌else◌,
  exists, first, update_where,
}
use tele_group.Listeners.Tables.{PmPermit, PluginRows}

abbrev pub is_permit_of : ℕ → ℕ → PmPermit → Bool
is_permit_of account_id user_id r = r.account_id == account_id && r.user_id == user_id

pub record Permit : Type 0 where
  pub approved : Bool
  pub warnings : ℕ
  pub blocked : Bool

abbrev pub permit_of : Option PmPermit → Option Permit
permit_of none = none
permit_of (some r) =
    some record { approved = r.approved; warnings = r.warnings; blocked = r.blocked }

unfoldable pub get_pm_permit : ℕ → ℕ → PluginRows → Option Permit
get_pm_permit account_id user_id t = permit_of (first (is_permit_of account_id user_id) t.permits)

abbrev pub with_permit : Permit → PmPermit → PmPermit
with_permit p r = record r { approved = p.approved; warnings = p.warnings; blocked = p.blocked }

unfoldable pub set_pm_permit : ℕ → ℕ → Permit → PluginRows → PluginRows
set_pm_permit account_id user_id p t = record t {
  permits =
      if exists (is_permit_of account_id user_id) t.permits
      then update_where (is_permit_of account_id user_id) (with_permit p) t.permits
      else t.permits
        ++ record {
          account_id = account_id;
          user_id = user_id;
          approved = p.approved;
          warnings = p.warnings;
          blocked = p.blocked;
        }
          ∷ [];
}

abbrev pub new_sender : Permit
new_sender = record { approved = false; warnings = 0; blocked = false }

abbrev pub or_new : Option Permit → Permit
or_new none = new_sender
or_new (some p) = p

-- `int(settings.get("warn_limit", 3) or 3)`
abbrev pub limit_or_default : ℕ → ℕ
limit_or_default raw = if raw == 0 then 3 else raw

-- What is sent after a message of a stranger.
pub data Answer : Type 0 where
  nothing block : Answer
  warn : ℕ → ℕ → Answer

-- The record of a sender who is not known yet.
unfoldable pub count_message : ℕ → Permit → Permit
count_message limit p = record {
  approved = false;
  warnings = p.warnings + 1;
  blocked = leb limit (p.warnings + 1);
}

abbrev pub answer_to : ℕ → Permit → Answer
answer_to limit p = if p.blocked then block else warn p.warnings limit

-- The end of `on_message`, for a private message of a person who may not command the account.
unfoldable pub stranger_message : ℕ → ℕ → ℕ → PluginRows → Answer × PluginRows
stranger_message account_id raw_limit user_id t =
    let old = or_new (get_pm_permit account_id user_id t) in
    let new = count_message (limit_or_default raw_limit) old in
    if old.approved || old.blocked
    then (nothing, t)
    else (answer_to (limit_or_default raw_limit) new, set_pm_permit account_id user_id new t)

-- `_set_approval`, once the user is known.
unfoldable pub set_approval : ℕ → ℕ → Bool → PluginRows → PluginRows
set_approval account_id user_id approved t =
    set_pm_permit account_id user_id record { approved = approved; warnings = 0; blocked = false } t
