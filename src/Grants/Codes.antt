-- ===== src/Grants/Codes.antt =====
-- Activation codes of src/subscription_grants.py: their status, `revoke_activation_code`,
-- `redeem_activation_code` and `issue_activation_codes`. `now` is the time that `_utcnow()` returns,
-- and `draws n` is what the n-th call of `secrets.token_urlsafe` returns.
use tele_group.Base.{
  ℕ, String, Bool, true, false, not, ◌&&◌, ◌||◌, Option, none, some, ltb, leb, ◌==◌, if◌then◌else◌,
  exists, first, is_none, is_some, update_where,
}
use tele_group.Grants.Tables.{
  ◌>>=◌, ◌>>◌, ActivationCode, ErrorCode, Session, Tables, Action, Plan, invalid_code, pure,
  used_code, User, invalid_target, not_revocable, plan_not_found, revoked_code, transaction,
  db_error, expired_code, reads, extend, code,
}
use tele_group.Text.{is_empty, Text, strip, text_eq}
use tele_group.Grants.Apply.{
  is_valid_telegram_id, find_plan, ensure_user, current_subscription, apply_subscription, add_audit,
}

pub data CodeStatus : Type 0 where
  unused used expired revoked : CodeStatus

-- `expires_at is not None and expires_at <= now`
abbrev pub is_past : Option ℕ → ℕ → Bool
is_past none now = false
is_past (some e) now = leb e now

-- `expires_at IS NULL OR expires_at > now`
abbrev pub is_ahead : Option ℕ → ℕ → Bool
is_ahead none now = true
is_ahead (some e) now = ltb now e

unfoldable pub code_status : ActivationCode → ℕ → CodeStatus
code_status c now =
    if is_some c.used_at
    then used
    else if is_some c.revoked_at
    then revoked
    else if is_past c.expires_at now
    then expired
    else unused

-- The condition of the listing of one status, as the database reads it.
unfoldable pub status_filter : CodeStatus → ℕ → ActivationCode → Bool
status_filter unused now c = is_none c.used_at && is_none c.revoked_at && is_ahead c.expires_at now
status_filter used now c = is_some c.used_at
status_filter revoked now c = is_some c.revoked_at && is_none c.used_at
status_filter expired now c =
    is_none c.used_at && is_none c.revoked_at && is_some c.expires_at && is_past c.expires_at now

abbrev pub status_error : CodeStatus → Option ErrorCode
status_error used = some used_code
status_error revoked = some revoked_code
status_error expired = some expired_code
status_error unused = none

unfoldable pub terminal_error : Option ActivationCode → ℕ → Option ErrorCode
terminal_error none now = some invalid_code
terminal_error (some c) now = status_error (code_status c now)

abbrev pub mark_revoked : ℕ → ℕ → ActivationCode → ActivationCode
mark_revoked now admin c = record c { revoked_at = some now; revoked_by = some admin }

abbrev pub is_open : ActivationCode → Bool
is_open c = is_none c.used_at && is_none c.revoked_at

abbrev pub matches_revocation : ℕ → ActivationCode → Bool
matches_revocation code_id c = c.id == code_id && is_open c

unfoldable pub revoke_code : ℕ → ℕ → ℕ → Session (Option ErrorCode)
revoke_code code_id admin now t = some (
  (if exists (matches_revocation code_id) t.codes then none else some not_revocable),
  record t { codes = update_where (matches_revocation code_id) (mark_revoked now admin) t.codes },
)

-- `none` is the answer "ok".
unfoldable pub revoke_activation_code : ℕ → ℕ → ℕ → Tables → Option ErrorCode × Tables
revoke_activation_code code_id admin now t =
    if not (is_valid_telegram_id admin)
    then (some invalid_target, t)
    else transaction (some db_error) (revoke_code code_id admin now) t

-- The race gate: `UPDATE activation_codes SET used_at … WHERE id = … AND used_at IS NULL …`.
abbrev pub matches_claim : ℕ → ℕ → ActivationCode → Bool
matches_claim code_id now c = c.id == code_id && is_open c && is_ahead c.expires_at now

abbrev pub mark_used : ℕ → ℕ → ActivationCode → ActivationCode
mark_used now user_id c = record c { used_at = some now; used_by = some user_id }

unfoldable pub claim : ℕ → ℕ → ℕ → Session Bool
claim code_id now user_id t = some (
  exists (matches_claim code_id now) t.codes,
  record t { codes = update_where (matches_claim code_id now) (mark_used now user_id) t.codes },
)

pub record RedeemOutcome : Type 0 where
  pub ok : Bool
  pub error : Option ErrorCode
  pub action : Option Action
  pub plan_name : Option String
  pub duration_days : Option ℕ
  pub end_date : Option ℕ

abbrev pub redeem_refused : ErrorCode → RedeemOutcome
redeem_refused e = record {
  ok = false;
  error = some e;
  action = none;
  plan_name = none;
  duration_days = none;
  end_date = none;
}

abbrev pub find_token : Text → Tables → Option ActivationCode
find_token token t = first (λ c. text_eq c.token token) t.codes

abbrev pub find_code : ℕ → Tables → Option ActivationCode
find_code code_id t = first (λ c. c.id == code_id) t.codes

abbrev pub error_or_used : Option ErrorCode → ErrorCode
error_or_used none = used_code
error_or_used (some e) = e

-- After a claim that matched: the subscription and the audit row.
unfoldable pub spend : ActivationCode → Plan → User → ℕ → Session RedeemOutcome
spend row plan user now = do
  current ← reads (current_subscription user.id now)
  (action, end_date) ← apply_subscription user.id plan.id row.duration_days extend now current
  add_audit (record {
    admin_telegram_id = row.created_by;
    target_user_id = user.id;
    plan_id = plan.id;
    duration_days = row.duration_days;
    source = code;
    action = action;
    activation_code_id = some row.id;
  })
  pure (record {
    ok = true;
    error = none;
    action = some action;
    plan_name = some plan.name;
    duration_days = some row.duration_days;
    end_date = some end_date;
  })

unfoldable pub after_claim : ActivationCode → Plan → User → ℕ → Bool → Session RedeemOutcome
after_claim row plan user now true = spend row plan user now
after_claim row plan user now false = do
  fresh ← reads (find_code row.id)
  pure (redeem_refused (error_or_used (terminal_error fresh now)))

-- From the claim to the end of the transaction. The row and the plan were read before it, and other
-- transactions may have changed the tables since.
unfoldable pub claim_and_spend : ActivationCode → Plan → User → ℕ → Session RedeemOutcome
claim_and_spend row plan user now = do
  claimed ← claim row.id now user.id
  after_claim row plan user now claimed

unfoldable pub redeem_on_plan : ActivationCode → ℕ → ℕ → Option Plan → Session RedeemOutcome
redeem_on_plan row telegram_id now none = pure (redeem_refused plan_not_found)
redeem_on_plan row telegram_id now (some plan) = do
  user ← ensure_user telegram_id
  claim_and_spend row plan user now

unfoldable pub redeem_row : ActivationCode → ℕ → ℕ → Option ErrorCode → Session RedeemOutcome
redeem_row row telegram_id now (some early) t = pure (redeem_refused early) t
redeem_row row telegram_id now none t =
    redeem_on_plan row telegram_id now (find_plan row.plan_id t) t

unfoldable pub redeem_found : ℕ → ℕ → Option ActivationCode → Session RedeemOutcome
redeem_found telegram_id now none = pure (redeem_refused invalid_code)
redeem_found telegram_id now (some row) =
    redeem_row row telegram_id now (terminal_error (some row) now)

unfoldable pub redeem_token : Text → ℕ → ℕ → Tables → RedeemOutcome × Tables
redeem_token token telegram_id now t =
    if is_empty token || not (is_valid_telegram_id telegram_id)
    then (redeem_refused invalid_code, t)
    else transaction (redeem_refused db_error)
        (λ s. redeem_found telegram_id now (find_token token s) s) t

unfoldable pub redeem_activation_code : Text → ℕ → ℕ → Tables → RedeemOutcome × Tables
unfolding redeem_token
redeem_activation_code text telegram_id now t = redeem_token (strip text) telegram_id now t
