-- ===== src/Grants/Issue.antt =====
-- `_insert_code` and `issue_activation_codes` of src/subscription_grants.py. `draws n` is what the
-- n-th call of `secrets.token_urlsafe` returns; a code that is taken makes the nested transaction
-- fail with `IntegrityError`, and is drawn again, five times at most.
use tele_group.Base.{
  ℕ, zero, suc, ◌+◌, String, Bool, true, false, not, ◌||◌, Option, none, some, List, [], ◌∷◌, ◌++◌,
  map, ltb, if◌then◌else◌, exists,
}
use tele_group.Grants.Tables.{
  ◌>>=◌, ErrorCode, Plan, ActivationCode, Session, Tables, invalid_target, pure, transaction,
  db_error, plan_not_found, invalid_duration, invalid_batch, invalid_expiry,
}
use tele_group.Text.{Text, text_eq}
use tele_group.Grants.Apply.{is_valid_telegram_id, is_valid_duration, find_plan}
use tele_group.Grants.Codes.{is_past}

-- What `issue_activation_codes` is called with.
pub record IssueRequest : Type 0 where
  pub plan_id : ℕ
  pub duration_days : ℕ
  pub count : ℕ
  pub admin_telegram_id : ℕ
  pub expires_at : Option ℕ

pub record IssuedCode : Type 0 where
  pub id : ℕ
  pub token : Text
  pub plan_id : ℕ
  pub plan_name : String
  pub duration_days : ℕ
  pub expires_at : Option ℕ

pub record IssueOutcome : Type 0 where
  pub ok : Bool
  pub error : Option ErrorCode
  pub codes : List IssuedCode

abbrev pub min_batch : ℕ
min_batch = 1

abbrev pub max_batch : ℕ
max_batch = 50

-- "act_"
abbrev pub code_prefix : Text
code_prefix = 97 ∷ 99 ∷ 116 ∷ 95 ∷ []

abbrev pub issue_refused : ErrorCode → IssueOutcome
issue_refused e = record { ok = false; error = some e; codes = [] }

abbrev pub has_token : Text → List ActivationCode → Bool
has_token token = exists (λ c. text_eq c.token token)

-- The row that an insertion of `token` adds.
abbrev pub new_code : IssueRequest → ℕ → Text → ActivationCode
new_code q id token = record {
  id = id;
  token = token;
  plan_id = q.plan_id;
  duration_days = q.duration_days;
  created_by = q.admin_telegram_id;
  expires_at = q.expires_at;
  used_at = none;
  used_by = none;
  revoked_at = none;
  revoked_by = none;
}

-- The row, and the number of the next draw.
unfoldable pub insert_code : IssueRequest → (ℕ → Text) → ℕ → ℕ → Session (ActivationCode × ℕ)
insert_code q draws zero n t = none
insert_code q draws (suc attempts) n t =
    let again = insert_code q draws attempts (n + 1) t in
    let row = new_code q t.next_code (code_prefix ++ draws n) in
    if has_token row.token t.codes
    then again
    else some ((row, n + 1), record t { codes = t.codes ++ row ∷ []; next_code = t.next_code + 1 })

abbrev pub max_attempts : ℕ
max_attempts = 5

unfoldable pub insert_codes : IssueRequest → (ℕ → Text) → ℕ → ℕ → Session (List ActivationCode)
insert_codes q draws zero n = pure []
insert_codes q draws (suc count) n = do
  (row, n') ← insert_code q draws max_attempts n
  rows ← insert_codes q draws count n'
  pure (row ∷ rows)

abbrev pub issued : Plan → ActivationCode → IssuedCode
issued plan row = record {
  id = row.id;
  token = row.token;
  plan_id = plan.id;
  plan_name = plan.name;
  duration_days = row.duration_days;
  expires_at = row.expires_at;
}

unfoldable pub issue_on_plan : IssueRequest → (ℕ → Text) → Option Plan → Session IssueOutcome
issue_on_plan q draws none = pure (issue_refused plan_not_found)
issue_on_plan q draws (some plan) = do
  rows ← insert_codes (record q { plan_id = plan.id }) draws q.count 0
  pure (record { ok = true; error = none; codes = map (issued plan) rows })

unfoldable pub issue_error : IssueRequest → ℕ → Option ErrorCode
issue_error q now =
    if not (is_valid_telegram_id q.admin_telegram_id)
    then some invalid_target
    else if not (is_valid_duration q.duration_days)
    then some invalid_duration
    else if ltb q.count min_batch || ltb max_batch q.count
    then some invalid_batch
    else if is_past q.expires_at now
    then some invalid_expiry
    else none

unfoldable pub issue_checked :
    IssueRequest → (ℕ → Text) → Option ErrorCode → Tables → IssueOutcome × Tables
issue_checked q draws (some e) t = (issue_refused e, t)
issue_checked q draws none t =
    transaction (issue_refused db_error) (λ s. issue_on_plan q draws (find_plan q.plan_id s) s) t

unfoldable pub issue_activation_codes :
    IssueRequest → (ℕ → Text) → ℕ → Tables → IssueOutcome × Tables
unfolding issue_checked
issue_activation_codes q draws now t = issue_checked q draws (issue_error q now) t
