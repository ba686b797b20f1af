-- ===== src/Grants/Ops.antt =====
-- `apply_plan_grant` and `revoke_subscription` of src/subscription_grants.py. Each runs in one
-- transaction; `now` is the time that `_utcnow()` returns. A negative id or day count is refused by
-- the same test as 0.
use tele_group.Base.{
  ℕ, String, Bool, true, false, not, ◌&&◌, Option, none, some, ltb, if◌then◌else◌, select,
  update_where,
}
use tele_group.Grants.Tables.{
  Action, grant, revoke, Source, manual, ErrorCode, invalid_target, plan_not_found,
  invalid_duration, choose_mode, no_subscription, db_error, User, Plan, Subscription, Tables,
  Session, pure, reads, writes, ◌>>=◌, ◌>>◌, transaction,
}
use tele_group.Grants.Apply.{
  is_valid_telegram_id, is_valid_duration, is_active_of, latest, current_subscription,
  apply_subscription, add_audit, find_user, find_plan, insert_user,
}

pub record GrantOutcome : Type 0 where
  pub ok : Bool
  pub error : Option ErrorCode
  pub action : Option Action
  pub plan_name : Option String
  pub plan_id : Option ℕ
  pub duration_days : Option ℕ
  pub end_date : Option ℕ
  pub telegram_id : ℕ
  pub user_created : Bool

abbrev pub refused : ℕ → ErrorCode → GrantOutcome
refused telegram_id e = record {
  ok = false;
  error = some e;
  action = none;
  plan_name = none;
  plan_id = none;
  duration_days = none;
  end_date = none;
  telegram_id = telegram_id;
  user_created = false;
}

-- The arguments of `apply_plan_grant`.
pub record GrantRequest : Type 0 where
  pub telegram_id : ℕ
  pub plan_id : ℕ
  pub duration_days : ℕ
  pub mode : Action
  pub admin_telegram_id : ℕ
  pub source : Source
  pub create_user : Bool
  pub activation_code_id : Option ℕ

-- `mode in {ACTION_GRANT, ACTION_EXTEND, ACTION_REPLACE}`
abbrev pub is_grant_mode : Action → Bool
is_grant_mode revoke = false
is_grant_mode _ = true

abbrev pub current_of : ℕ → Tables → Option User → Option Subscription
current_of now t none = none
current_of now t (some user) = current_subscription user.id now t

-- `mode == ACTION_GRANT and current is not None`
abbrev pub must_choose : Action → Option Subscription → Bool
must_choose grant (some _) = true
must_choose _ _ = false

unfoldable pub grant_to :
    GrantRequest → ℕ → Plan → Option Subscription → User → Bool → Session GrantOutcome
grant_to q now plan current user created = do
  (action, end_date) ← apply_subscription user.id plan.id q.duration_days q.mode now current
  add_audit (record {
    admin_telegram_id = q.admin_telegram_id;
    target_user_id = user.id;
    plan_id = plan.id;
    duration_days = q.duration_days;
    source = q.source;
    action = action;
    activation_code_id = q.activation_code_id;
  })
  pure (record {
    ok = true;
    error = none;
    action = some action;
    plan_name = some plan.name;
    plan_id = some plan.id;
    duration_days = some q.duration_days;
    end_date = some end_date;
    telegram_id = q.telegram_id;
    user_created = created;
  })

unfoldable pub grant_to_user :
    GrantRequest → ℕ → Plan → Option Subscription → Option User → Session GrantOutcome
grant_to_user q now plan current (some user) = grant_to q now plan current user false
grant_to_user q now plan current none =
    if q.create_user
    then (do user ← insert_user q.telegram_id; grant_to q now plan current user true)
    else pure (refused q.telegram_id invalid_target)

unfoldable pub grant_on_plan : GrantRequest → ℕ → Option Plan → Session GrantOutcome
grant_on_plan q now none t = pure (refused q.telegram_id plan_not_found) t
grant_on_plan q now (some plan) t =
    let user = find_user q.telegram_id t in
    let current = current_of now t user in
    if must_choose q.mode current
    then pure
        (record (refused q.telegram_id choose_mode) {
          plan_name = some plan.name;
          plan_id = some q.plan_id;
          duration_days = some q.duration_days;
        })
        t
    else grant_to_user q now plan current user t

-- The checks that `apply_plan_grant` makes before it opens a session.
unfoldable pub request_error : GrantRequest → Option ErrorCode
request_error q =
    if not (is_valid_telegram_id q.telegram_id && is_valid_telegram_id q.admin_telegram_id)
    then some invalid_target
    else if not (is_valid_duration q.duration_days)
    then some invalid_duration
    else if not (is_grant_mode q.mode)
    then some db_error
    else none

unfoldable pub grant_checked : GrantRequest → ℕ → Option ErrorCode → Tables → GrantOutcome × Tables
grant_checked q now (some e) t = (refused q.telegram_id e, t)
grant_checked q now none t =
    transaction (refused q.telegram_id db_error)
      (λ s. grant_on_plan q now (find_plan q.plan_id s) s) t

unfoldable pub apply_plan_grant : GrantRequest → ℕ → Tables → GrantOutcome × Tables
unfolding grant_checked
apply_plan_grant q now t = grant_checked q now (request_error q) t

-- The rows that `revoke_subscription` closes, with their end brought forward to `now`.
abbrev pub close_at : ℕ → Subscription → Subscription
close_at now s = record s {
  end_date = if ltb now s.end_date then now else s.end_date;
  is_active = false;
}

unfoldable pub revoke_rows : ℕ → ℕ → User → Option Subscription → ℕ → Session GrantOutcome
revoke_rows telegram_id admin user none now = pure (refused telegram_id no_subscription)
revoke_rows telegram_id admin user (some primary) now = do
  writes (λ t. record t {
    subscriptions = update_where (is_active_of user.id) (close_at now) t.subscriptions;
  })
  add_audit (record {
    admin_telegram_id = admin;
    target_user_id = user.id;
    plan_id = primary.plan_id;
    duration_days = 0;
    source = manual;
    action = revoke;
    activation_code_id = none;
  })
  plan ← reads (find_plan primary.plan_id)
  pure (record {
    ok = true;
    error = none;
    action = some revoke;
    plan_name = elim plan [ none ↦ none | some p ↦ some p.name ];
    plan_id = some primary.plan_id;
    duration_days = some 0;
    end_date = some now;
    telegram_id = telegram_id;
    user_created = false;
  })

unfoldable pub revoke_user : ℕ → ℕ → ℕ → Option User → Session GrantOutcome
revoke_user telegram_id admin now none t = pure (refused telegram_id no_subscription) t
revoke_user telegram_id admin now (some user) t =
    revoke_rows telegram_id admin user (latest (select (is_active_of user.id) t.subscriptions)) now
      t

unfoldable pub revoke_subscription : ℕ → ℕ → ℕ → Tables → GrantOutcome × Tables
revoke_subscription telegram_id admin now t =
    if not (is_valid_telegram_id telegram_id && is_valid_telegram_id admin)
    then (refused telegram_id invalid_target, t)
    else transaction (refused telegram_id db_error)
        (λ s. revoke_user telegram_id admin now (find_user telegram_id s) s) t
