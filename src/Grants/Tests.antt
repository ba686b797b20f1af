-- ===== src/Grants/Tests.antt =====
-- Runs of the model of src/subscription_grants.py on small tables, and the theorems at them.
use tele_group.Base.{
  ℕ, ◌+◌, ◌*◌, ◌≡◌, refl, true, false, none, some, [], ◌∷◌, map, arith, ◌==◌, if◌then◌else◌,
  is_none,
}
use tele_group.Grants.Tables.{
  extend, manual, ActivationCode, Plan, Subscription, Tables, User, db_error, transaction,
}
use tele_group.Grants.Codes.{
  unused, RedeemOutcome, redeem_token, status_filter, claim_and_spend, redeem_found, redeem_refused,
  terminal_error, code_status, matches_claim, redeem_row, redeem_on_plan, claim, after_claim, spend,
}
use tele_group.Grants.Granting.{Verdict, apply_plan_grant-Verdict}
use tele_group.Grants.Issue.{
  IssueRequest, issue_activation_codes, issue_error, issue_on_plan, insert_codes, insert_code,
  IssuedCode,
}
use tele_group.Grants.Issuing.{IssueVerdict, issue_activation_codes-Verdict}
use tele_group.Grants.Ops.{
  GrantRequest, apply_plan_grant, request_error, revoke_subscription, grant_on_plan, grant_to_user,
  grant_to,
}
use tele_group.Grants.Redemption.{RedeemVerdict, redeem_token-Verdict}
use tele_group.Grants.Revoking.{RevokeVerdict, revoke_subscription-Verdict}
use tele_group.Grants.Steps.{IsValid, next, here, grants}
use tele_group.Text.{Text, text_eq}
use tele_group.Grants.Invariant.{Reach-IsValid}
use tele_group.Grants.Status.{same_status, status_filter-code_status, terminal_error-claim}
use tele_group.Grants.Apply.{
  current_subscription, latest, apply_subscription, ensure_user, extend_subscription, insert_user,
  extend_rows, open_subscription, replace_rows,
}
use tele_group.Clock.{day}
use tele_group.Grants.SingleUse.{claim_once}

abbrev pro : Plan
pro = record { id = 1; name = "pro"; max_accounts = 5 }

abbrev alice : User
alice = record {
  id = 1;
  telegram_id = 700;
  first_name = "Alice";
  username = none;
  language_code = "en";
}

abbrev running : Subscription
running = record {
  id = 4;
  user_id = 1;
  plan_id = 1;
  start_date = 0;
  end_date = 2_000_000;
  is_active = true;
}

-- "act_x"
abbrev x_token : Text
x_token = 97 ∷ 99 ∷ 116 ∷ 95 ∷ 120 ∷ []

abbrev x_code : ActivationCode
x_code = record {
  id = 3;
  token = x_token;
  plan_id = 1;
  duration_days = 30;
  created_by = 900;
  expires_at = some 5_000_000;
  used_at = none;
  used_by = none;
  revoked_at = none;
  revoked_by = none;
}

abbrev shop : Tables
shop = record {
  plans = pro ∷ [];
  users = alice ∷ [];
  next_user = 2;
  subscriptions = running ∷ [];
  next_subscription = 5;
  codes = x_code ∷ [];
  next_code = 4;
  grants = [];
}

abbrev extension : GrantRequest
extension = record {
  telegram_id = 700;
  plan_id = 1;
  duration_days = 30;
  mode = extend;
  admin_telegram_id = 900;
  source = manual;
  create_user = false;
  activation_code_id = none;
}

apply_plan_grant_runs :
    (apply_plan_grant extension 1_000_000 shop).0.end_date ≡ some (2_000_000 + 30 * day)
unfolding apply_plan_grant request_error grant_on_plan grant_to_user grant_to current_subscription
    latest apply_subscription extend_subscription extend_rows
apply_plan_grant_runs = refl

redeem_runs : (redeem_token x_token 701 1_000_000 shop).0.end_date ≡ some (1_000_000 + 30 * day)
unfolding redeem_token redeem_found redeem_row redeem_on_plan claim_and_spend claim after_claim
    spend ensure_user insert_user current_subscription latest apply_subscription open_subscription
    replace_rows terminal_error code_status text_eq
redeem_runs = refl

shop-IsValid : IsValid shop
shop-IsValid = record {
  at_most_one = λ u. ground arith;
  ascending = omega arith;
  ascending_codes = omega arith;
  distinct = (refl, tt);
}

apply_plan_grant-Verdict_example :
    Verdict extension 1_000_000 shop (apply_plan_grant extension 1_000_000 shop)
apply_plan_grant-Verdict_example = apply_plan_grant-Verdict extension 1_000_000 shop (omega arith)

revoke_subscription-Verdict_example :
    RevokeVerdict 700 900 1_000_000 shop (revoke_subscription 700 900 1_000_000 shop)
revoke_subscription-Verdict_example = revoke_subscription-Verdict 700 900 1_000_000 shop

redeem_token-Verdict_example :
    RedeemVerdict x_token 701 1_000_000 shop (redeem_token x_token 701 1_000_000 shop)
redeem_token-Verdict_example = redeem_token-Verdict x_token 701 1_000_000 shop (omega arith)

abbrev batch : IssueRequest
batch = record {
  plan_id = 1;
  duration_days = 30;
  count = 2;
  admin_telegram_id = 900;
  expires_at = none;
}

-- The first draw is taken, so it is drawn again.
abbrev draws : ℕ → Text
draws n = if n == 0 then 120 ∷ [] else n ∷ []

issue_runs :
    map (λ (c : IssuedCode). c.token) (issue_activation_codes batch draws 0 shop).0.codes
    ≡ (97 ∷ 99 ∷ 116 ∷ 95 ∷ 1 ∷ []) ∷ (97 ∷ 99 ∷ 116 ∷ 95 ∷ 2 ∷ []) ∷ []
unfolding issue_activation_codes issue_error issue_on_plan insert_codes insert_code text_eq
issue_runs = refl

issue_activation_codes-Verdict_example :
    IssueVerdict batch shop (issue_activation_codes batch draws 0 shop)
issue_activation_codes-Verdict_example = issue_activation_codes-Verdict batch draws 0 shop

status_filter-code_status_example :
    status_filter unused 1_000_000 x_code ≡ same_status (code_status x_code 1_000_000) unused
status_filter-code_status_example = status_filter-code_status unused 1_000_000 x_code

terminal_error-claim_example :
    is_none (terminal_error (some x_code) 1_000_000) ≡ matches_claim 3 1_000_000 x_code
terminal_error-claim_example = terminal_error-claim 1_000_000 x_code

Reach-IsValid_example : IsValid (apply_plan_grant extension 1_000_000 shop).1
Reach-IsValid_example = Reach-IsValid shop-IsValid (next here (grants extension 1_000_000))

abbrev once : RedeemOutcome × Tables
once = transaction (redeem_refused db_error) (claim_and_spend x_code pro alice 1_000_000) shop

abbrev twice : RedeemOutcome × Tables
twice = transaction (redeem_refused db_error) (claim_and_spend x_code pro alice 1_500_000) once.1

claim_once_example : twice.0.ok ≡ false
unfolding claim_and_spend claim after_claim spend current_subscription latest apply_subscription
    extend_subscription extend_rows terminal_error code_status
claim_once_example =
    claim_once x_code x_code pro pro alice alice 1_000_000 1_500_000 shop once.1 once twice
      shop-IsValid refl refl here refl refl
