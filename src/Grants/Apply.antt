-- ===== src/Grants/Apply.antt =====
-- The subscription of a user: `_current_subscription`, `_apply_subscription`, `_add_audit` and
-- `_ensure_user`, then `apply_plan_grant` and `revoke_subscription` of src/subscription_grants.py.
use tele_group.Base.{
  ℕ, ◌+◌, Bool, true, false, not, ◌&&◌, Option, none, some, List, [], ◌∷◌, ◌++◌, ltb, leb, ◌==◌,
  if◌then◌else◌, select, first, update_where,
}
use tele_group.Clock.{add_days}
use tele_group.Grants.Tables.{
  Action, grant, extend, replace, User, Plan, Subscription, PlanGrant, Tables, Session, pure,
  or_raise, writes, ◌>>=◌, ◌>>◌,
}

abbrev pub max_duration_days : ℕ
max_duration_days = 3650

abbrev pub max_telegram_id : ℕ
max_telegram_id = 9_223_372_036_854_775_807

abbrev pub is_valid_telegram_id : ℕ → Bool
is_valid_telegram_id value = ltb 0 value && leb value max_telegram_id

abbrev pub is_valid_duration : ℕ → Bool
is_valid_duration days = leb 1 days && leb days max_duration_days

abbrev pub is_active_of : ℕ → Subscription → Bool
is_active_of user_id s = s.user_id == user_id && s.is_active

abbrev pub is_current_of : ℕ → ℕ → Subscription → Bool
is_current_of user_id now s = is_active_of user_id s && leb now s.end_date

-- `ORDER BY end_date DESC LIMIT 1`
unfoldable pub latest : List Subscription → Option Subscription
latest [] = none
latest (s ∷ rest) = elim (latest rest) [
  | none ↦ some s
  | some best ↦ some (if ltb s.end_date best.end_date then best else s)
]

unfoldable pub current_subscription : ℕ → ℕ → Tables → Option Subscription
current_subscription user_id now t = latest (select (is_current_of user_id now) t.subscriptions)

abbrev pub deactivate : Subscription → Subscription
deactivate s = record s { is_active = false }

abbrev pub renew : ℕ → ℕ → Subscription → Subscription
renew plan_id end_date s = record s { plan_id = plan_id; end_date = end_date }

-- The branch of `_apply_subscription` that extends the current row.
unfoldable pub extend_rows : ℕ → ℕ → Subscription → ℕ → List Subscription → List Subscription
extend_rows user_id plan_id current end_date rows =
    update_where (λ s. s.id == current.id) (renew plan_id end_date)
      (update_where (λ s. is_active_of user_id s && not (s.id == current.id)) deactivate rows)

abbrev pub drop_current : Option Subscription → List Subscription → List Subscription
drop_current none rows = rows
drop_current (some current) rows = update_where (λ s. s.id == current.id) deactivate rows

-- The other branch: every row of the user is closed, and a new one is added.
unfoldable pub replace_rows :
    ℕ → Option Subscription → Subscription → List Subscription → List Subscription
replace_rows user_id current row rows =
    update_where (is_active_of user_id) deactivate (drop_current current rows) ++ row ∷ []

abbrev pub action_taken : Action → Option Subscription → Action
action_taken replace (some _) = replace
action_taken _ _ = grant

unfoldable pub open_subscription :
    ℕ → ℕ → ℕ → Action → ℕ → Option Subscription → Session (Action × ℕ)
open_subscription user_id plan_id days mode now current = do
  end_date ← or_raise (add_days now days)
  writes (λ t. record t {
    subscriptions =
        replace_rows user_id current
          (record {
            id = t.next_subscription;
            user_id = user_id;
            plan_id = plan_id;
            start_date = now;
            end_date = end_date;
            is_active = true;
          })
          t.subscriptions;
    next_subscription = t.next_subscription + 1;
  })
  pure (action_taken mode current, end_date)

unfoldable pub extend_subscription : ℕ → ℕ → ℕ → Subscription → Session (Action × ℕ)
extend_subscription user_id plan_id days current = do
  end_date ← or_raise (add_days current.end_date days)
  writes (λ t. record t {
    subscriptions = extend_rows user_id plan_id current end_date t.subscriptions;
  })
  pure (extend, end_date)

unfoldable pub apply_subscription :
    ℕ → ℕ → ℕ → Action → ℕ → Option Subscription → Session (Action × ℕ)
apply_subscription user_id plan_id days extend now (some current) =
    extend_subscription user_id plan_id days current
apply_subscription user_id plan_id days mode now current =
    open_subscription user_id plan_id days mode now current

abbrev pub add_audit : PlanGrant → Session (Unit {0})
add_audit row = writes (λ t. record t { grants = t.grants ++ row ∷ [] })

abbrev pub find_user : ℕ → Tables → Option User
find_user telegram_id t = first (λ u. u.telegram_id == telegram_id) t.users

abbrev pub find_plan : ℕ → Tables → Option Plan
find_plan plan_id t = first (λ p. p.id == plan_id) t.plans

unfoldable pub insert_user : ℕ → Session User
insert_user telegram_id t =
    let user : User = record {
      id = t.next_user;
      telegram_id = telegram_id;
      first_name = "User";
      username = none;
      language_code = "en";
    } in
    some (user, record t { users = t.users ++ user ∷ []; next_user = t.next_user + 1 })

abbrev pub found_or_insert : ℕ → Option User → Session User
found_or_insert telegram_id (some user) = pure user
found_or_insert telegram_id none = insert_user telegram_id

unfoldable pub ensure_user : ℕ → Session User
ensure_user telegram_id t = found_or_insert telegram_id (find_user telegram_id t) t
