-- ===== src/Grants/Steps.antt =====
-- What the users of src/subscription_grants.py can do to the tables, one transaction after another,
-- with the invariant of the tables.
use tele_group.Base.{ℕ, ◌≤◌, ◌≡◌, refl, ◌≢◌, List, [], ◌∷◌, arith, length, select}
use native.Mathlib.Decide.{ℕ_discrete}
use tele_group.Grants.Tables.{
  Subscription, Tables, ActivationCode, Plan, User, transaction, db_error,
}
use tele_group.Grants.Ops.{GrantRequest, apply_plan_grant, revoke_subscription}
use tele_group.Grants.Apply.{is_active_of}
use tele_group.Grants.Rows.{is_row_of, Ascending}
use tele_group.Grants.Issue.{IssueRequest, issue_activation_codes}
use tele_group.Grants.Tokens.{AscendingCodes, DistinctTokens}
use tele_group.Text.{Text}
use tele_group.Grants.Codes.{revoke_activation_code, redeem_token, redeem_refused, claim_and_spend}

-- One transaction. `claims` is the part of a redemption from its race gate on, run on tables that
-- others may have changed since it read `row`, `plan` and `user`.
pub data Step (t : Tables) : Tables → Type 0 where
  grants : (q : GrantRequest) (now : ℕ) → Step t (apply_plan_grant q now t).1
  revokes : (telegram_id admin now : ℕ) → Step t (revoke_subscription telegram_id admin now t).1
  issues :
      (q : IssueRequest) (draws : ℕ → Text) (now : ℕ)
      → Step t (issue_activation_codes q draws now t).1
  revokes_code : (code_id admin now : ℕ) → Step t (revoke_activation_code code_id admin now t).1
  redeems : (token : Text) (telegram_id now : ℕ) → Step t (redeem_token token telegram_id now t).1
  claims :
      (row : ActivationCode) (plan : Plan) (user : User) (now : ℕ)
      → Step t (transaction (redeem_refused db_error) (claim_and_spend row plan user now) t).1

pub data Reach (t : Tables) : Tables → Type 0 where
  here : Reach t t
  next : {s u : Tables} → Reach t s → Step s u → Reach t u

-- No user has two active subscriptions, and the ids ascend.
pub record IsValid (t : Tables) : Type 0 where
  pub at_most_one : (u : ℕ) → length (select (is_active_of u) t.subscriptions) ≤ 1
  pub ascending : Ascending 0 t.subscriptions t.next_subscription
  pub ascending_codes : AscendingCodes 0 t.codes t.next_code
  pub distinct : DistinctTokens t.codes

-- The active rows of a user are found among the rows of that user.
select-is_active_of :
    (u : ℕ) (rows : List Subscription)
    → select (is_active_of u) rows ≡ select (λ s. s.is_active) (select (is_row_of u) rows)
select-is_active_of u [] = refl
select-is_active_of u (r ∷ rows) = ground (arith, select-is_active_of u rows)

active_same :
    (u : ℕ) (rows rows' : List Subscription)
    → select (is_row_of u) rows' ≡ select (is_row_of u) rows
    → select (is_active_of u) rows' ≡ select (is_active_of u) rows
active_same u rows rows' h = rw (select-is_active_of, h, ← select-is_active_of)

-- A renewal of one user keeps the bound for all.
pub at_most_one_after :
    (v : ℕ) (rows rows' : List Subscription) {active : List Subscription}
    → ((u : ℕ) → length (select (is_active_of u) rows) ≤ 1)
    → select (is_active_of v) rows' ≡ active
    → length active ≤ 1
    → ((u : ℕ) → u ≢ v → select (is_row_of u) rows' ≡ select (is_row_of u) rows)
    → (u : ℕ) → length (select (is_active_of u) rows') ≤ 1
at_most_one_after v rows rows' {active} h e len others u = elim (ℕ_discrete u v) [
  | yes same ↦ rw (same, e) len
  | no ne ↦ rw (active_same u rows rows' (others u ne)) (h u)
]
