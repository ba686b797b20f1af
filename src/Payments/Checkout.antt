-- ===== src/Payments/Checkout.antt =====
-- `validate_stars_payment` of src/payments.py, the two handlers of src/user_handlers.py that call it,
-- and `grant_subscription` of src/database.py. `digit` is the value of a decimal digit and `upper`
-- the upper case of a text, as Python has them.
use tele_group.Base.{
  ℕ, ◌+◌, Bool, true, false, not, Option, none, some, List, [], ◌∷◌, ◌++◌, ◌==◌, if◌then◌else◌,
  first, is_some, update_where,
}
use tele_group.Text.{Text, text_eq, codes}
use tele_group.Clock.{add_days}
use tele_group.Grants.Tables.{
  Tables, Session, User, pure, or_raise, reads, writes, ◌>>=◌, ◌>>◌, transaction,
}
use tele_group.Grants.Apply.{is_active_of, deactivate, find_user, find_plan}
use tele_group.Payments.Payload.{Payload, no_payload, raised, parsed, parse_invoice_payload}

-- A price that is no whole number above or at 0 is `no_price`.
pub data Price : Type 0 where
  stars : ℕ → Price
  no_price : Price

pub record PaidPlan : Type 0 where
  pub id : ℕ
  pub price_stars : Price
  pub duration_days : ℕ
  pub is_active : Bool

pub data Message : Type 0 where
  no_message invalid_payload wrong_user user_missing plan_missing plan_inactive : Message
  invalid_price bad_currency amount_mismatch : Message

pub record StarsPaymentCheck : Type 0 where
  pub ok : Bool
  pub message : Message
  pub plan_id : Option ℕ

abbrev pub fails_with : Message → ℕ → StarsPaymentCheck
fails_with message plan_id = record { ok = false; message = message; plan_id = some plan_id }

abbrev pub or_empty : Option Text → Text
or_empty none = []
or_empty (some s) = s

abbrev pub is_amount : ℕ → Option ℕ → Bool
is_amount price none = false
is_amount price (some n) = n == price

-- What Telegram says of a payment.
pub record Payment : Type 0 where
  pub payload : Option Text
  pub currency : Option Text
  pub total_amount : Option ℕ
  pub payer : ℕ

module _ (upper : Text → Text) where
  abbrev pub check_price : Payment → ℕ → Price → StarsPaymentCheck
  check_price p plan_id no_price = fails_with invalid_price plan_id
  check_price p plan_id (stars price) =
      if price == 0
      then fails_with invalid_price plan_id
      else if not (text_eq (upper (or_empty p.currency)) (codes "XTR"))
      then fails_with bad_currency plan_id
      else if not (is_amount price p.total_amount)
      then fails_with amount_mismatch plan_id
      else record { ok = true; message = no_message; plan_id = some plan_id }

  abbrev pub check_plan : Payment → ℕ → Option PaidPlan → StarsPaymentCheck
  check_plan p plan_id none = fails_with plan_missing plan_id
  check_plan p plan_id (some plan) =
      if not plan.is_active
      then fails_with plan_inactive plan_id
      else check_price p plan_id plan.price_stars

  abbrev pub check_parsed : Payment → Option PaidPlan → Bool → Payload → Option StarsPaymentCheck
  check_parsed p plan user_exists raised = none
  check_parsed p plan user_exists no_payload =
      some record { ok = false; message = invalid_payload; plan_id = none }
  check_parsed p plan user_exists (parsed plan_id user_id) =
      if not (user_id == p.payer)
      then some (fails_with wrong_user plan_id)
      else if not user_exists
      then some (fails_with user_missing plan_id)
      else some (check_plan p plan_id plan)

  module _ (digit : ℕ → Option ℕ) where
    -- `none` is a `ValueError`.
    unfoldable pub validate_stars_payment :
        Payment → Option PaidPlan → Bool → Option StarsPaymentCheck
    validate_stars_payment p plan user_exists =
        check_parsed p plan user_exists (parse_invoice_payload digit p.payload)

-- `get_plan_by_id` on the plan of the payload.
abbrev pub plan_of_payload : List PaidPlan → Payload → Option PaidPlan
plan_of_payload plans (parsed plan_id user_id) = first (λ p. p.id == plan_id) plans
plan_of_payload plans _ = none

pub data GrantResult : Type 0 where
  user_not_found grant_subscription_success db_error : GrantResult

abbrev pub requires : Bool → Session (Unit {0})
requires true t = some (tt, t)
requires false t = none

-- The last test is the foreign key of the new row, which the database checks at the flush.
unfoldable pub insert_subscription : ℕ → ℕ → ℕ → ℕ → Session GrantResult
insert_subscription user_id plan_id duration_days now = do
  writes (λ t. record t {
    subscriptions = update_where (is_active_of user_id) deactivate t.subscriptions;
  })
  end_date ← or_raise (add_days now duration_days)
  writes (λ t. record t {
    subscriptions =
        t.subscriptions
        ++ record {
          id = t.next_subscription;
          user_id = user_id;
          plan_id = plan_id;
          start_date = now;
          end_date = end_date;
          is_active = true;
        }
          ∷ [];
    next_subscription = t.next_subscription + 1;
  })
  there ← reads (λ t. is_some (find_plan plan_id t))
  requires there
  pure grant_subscription_success

abbrev pub insert_for : ℕ → ℕ → ℕ → Option User → Session GrantResult
insert_for plan_id duration_days now none = pure user_not_found
insert_for plan_id duration_days now (some u) = insert_subscription u.id plan_id duration_days now

unfoldable pub grant_subscription : ℕ → ℕ → ℕ → ℕ → Tables → GrantResult × Tables
grant_subscription telegram_id plan_id duration_days now t =
    transaction db_error (insert_for plan_id duration_days now (find_user telegram_id t)) t

-- The answer to a payment that Telegram has taken.
pub data Receipt : Type 0 where
  refused : Message → Receipt
  answered : GrantResult → Receipt

module _ (upper : Text → Text) (digit : ℕ → Option ℕ) (plans : List PaidPlan) where
  abbrev pub checked : Payment → Tables → Option StarsPaymentCheck
  checked p t =
      validate_stars_payment upper digit p
        (plan_of_payload plans (parse_invoice_payload digit p.payload))
        (is_some (find_user p.payer t))

  abbrev pub grant_checked_plan :
      Payment → ℕ → Tables → StarsPaymentCheck → Option PaidPlan → Receipt × Tables
  grant_checked_plan p now t check none = (refused check.message, t)
  grant_checked_plan p now t check (some plan) =
      if check.ok
      then (
        answered (grant_subscription p.payer plan.id plan.duration_days now t).0,
        (grant_subscription p.payer plan.id plan.duration_days now t).1,
      )
      else (refused check.message, t)

  abbrev pub grant_checked :
      Payment → ℕ → Tables → Option StarsPaymentCheck → Option (Receipt × Tables)
  grant_checked p now t none = none
  grant_checked p now t (some check) = some (
      grant_checked_plan p now t check
        (plan_of_payload plans (parse_invoice_payload digit p.payload)))

  -- `none` is an exception.
  unfoldable pub precheckout_callback : Payment → Tables → Option Bool
  precheckout_callback p t = elim (checked p t) [ none ↦ none | some check ↦ some check.ok ]

  unfoldable pub successful_payment_callback : Payment → ℕ → Tables → Option (Receipt × Tables)
  successful_payment_callback p now t = grant_checked p now t (checked p t)
