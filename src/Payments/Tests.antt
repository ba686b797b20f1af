-- ===== src/Payments/Tests.antt =====
-- Runs of the models of src/payments.py and its callers at concrete inputs.
use tele_group.Base.{
  ℕ, ◌+◌, ◌-◌, ◌≤◌, ◌<◌, ◌≡◌, refl, ◌↔◌, true, Option, none, some, [], ◌∷◌, arith, ltb,
  if◌then◌else◌, length,
}
use tele_group.Text.{codes}
use tele_group.Grants.Tables.{Tables, User}
use tele_group.Payments.Payload.{
  invoice_payload, parsed, parse_invoice_payload, int_max_str_digits, decimal, digits_of,
}
use tele_group.Payments.RoundTrip.{parse_invoice_payload-invoice_payload}
use tele_group.Payments.Checkout.{
  PaidPlan, stars, Payment, precheckout_callback, grant_subscription, grant_subscription_success,
  db_error, insert_subscription,
}
use tele_group.Payments.Purchases.{IsDue, precheckout_callback-IsDue}

-- The decimal digits of ASCII.
abbrev ascii_digit : ℕ → Option ℕ
ascii_digit c = if ltb c 48 then none else if ltb c 58 then some (c - 48) else none

ascii_values : (d : ℕ) → d < 10 → ascii_digit (48 + d) ≡ some d
ascii_values d h = ground arith

abbrev buyer : User
buyer = record {
  id = 1;
  telegram_id = 100;
  first_name = "A";
  username = none;
  language_code = "en";
}

abbrev registered : Tables
registered = record {
  plans = record { id = 3; name = "basic"; max_accounts = 2 } ∷ [];
  users = buyer ∷ [];
  next_user = 2;
  subscriptions =
      record { id = 1; user_id = 1; plan_id = 3; start_date = 0; end_date = 90; is_active = true }
      ∷ [];
  next_subscription = 2;
  codes = [];
  next_code = 1;
  grants = [];
}

abbrev basic : PaidPlan
basic = record { id = 3; price_stars = stars 50; duration_days = 30; is_active = true }

abbrev paid : Payment
paid = record {
  payload = some (codes "plan_3_user_100");
  currency = some (codes "XTR");
  total_amount = some 50;
  payer = 100;
}

short_id : length (decimal 3) ≤ int_max_str_digits
unfolding decimal digits_of
short_id = omega arith

short_user : length (decimal 100) ≤ int_max_str_digits
unfolding decimal digits_of
short_user = omega arith

parse_invoice_payload-invoice_payload_example :
    parse_invoice_payload ascii_digit (some (invoice_payload 3 100)) ≡ parsed 3 100
parse_invoice_payload-invoice_payload_example =
    parse_invoice_payload-invoice_payload ascii_digit ascii_values refl 3 100 short_id short_user

precheckout_callback-IsDue_example :
    (precheckout_callback (λ s. s) ascii_digit (basic ∷ []) paid registered ≡ some true)
    ↔ ((plan : PaidPlan) × IsDue (λ s. s) ascii_digit (basic ∷ []) paid registered plan)
precheckout_callback-IsDue_example =
    precheckout_callback-IsDue (λ s. s) ascii_digit (basic ∷ []) paid registered

grant_runs : (grant_subscription 100 3 30 10 registered).0 ≡ grant_subscription_success
unfolding grant_subscription insert_subscription
grant_runs = refl

grant_without_plan : (grant_subscription 100 4 30 10 registered).0 ≡ db_error
unfolding grant_subscription insert_subscription
grant_without_plan = refl
