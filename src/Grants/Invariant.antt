-- ===== src/Grants/Invariant.antt =====
-- Every transaction of src/subscription_grants.py keeps the tables valid.
use tele_group.Base.{
  ℕ, suc, ◌≡◌, refl, inl, inr, Bool, List, [], ◌∷◌, arith, Bool-cases, update_where,
}
use tele_group.Grants.Redemption.{IsUntouched, redeem_token-Verdict}
use tele_group.Grants.Redeeming.{IsSpent, claim_and_spend-Verdict}
use tele_group.Grants.Tables.{
  ActivationCode, Tables, Plan, User, transaction, db_error, transaction_cases,
}
use tele_group.Grants.Issuing.{issue_activation_codes-Verdict}
use tele_group.Grants.Tokens.{AscendingCodes, DistinctTokens}
use tele_group.Grants.Steps.{
  IsValid, Reach, Step, grants, next, here, revokes, issues, revokes_code, redeems, claims,
  at_most_one_after,
}
use tele_group.Text.{Text}
use tele_group.Grants.Codes.{
  redeem_token, revoke_activation_code, revoke_code, RedeemOutcome, matches_claim,
  matches_revocation, redeem_refused, mark_revoked, mark_used, claim_and_spend,
}
use tele_group.Grants.Issue.{IssueRequest, has_token, issue_activation_codes}
use tele_group.Grants.Ops.{GrantRequest, revoke_subscription, apply_plan_grant}
use tele_group.Grants.Revoking.{revoke_subscription-Verdict}
use tele_group.Grants.Apply.{is_valid_telegram_id}
use tele_group.Grants.Granting.{apply_plan_grant-Verdict}

AscendingCodes-update_where :
    (p : ActivationCode → Bool) (f : ActivationCode → ActivationCode) (lo hi : ℕ)
    (rows : List ActivationCode)
    → ((c : ActivationCode) → (f c).id ≡ c.id)
    → AscendingCodes lo rows hi
    → AscendingCodes lo (update_where p f rows) hi
AscendingCodes-update_where p f lo hi [] same asc = asc
AscendingCodes-update_where p f lo hi (r ∷ rows) same asc =
    ground (arith, same r, AscendingCodes-update_where p f (suc r.id) hi rows same asc.1)

has_token-update_where :
    (p : ActivationCode → Bool) (f : ActivationCode → ActivationCode) (token : Text)
    (rows : List ActivationCode)
    → ((c : ActivationCode) → (f c).token ≡ c.token)
    → has_token token (update_where p f rows) ≡ has_token token rows
has_token-update_where p f token [] same = refl
has_token-update_where p f token (r ∷ rows) same =
    ground (arith, same r, has_token-update_where p f token rows same)

DistinctTokens-update_where :
    (p : ActivationCode → Bool) (f : ActivationCode → ActivationCode) (rows : List ActivationCode)
    → ((c : ActivationCode) → (f c).token ≡ c.token)
    → DistinctTokens rows
    → DistinctTokens (update_where p f rows)
DistinctTokens-update_where p f [] same d = d
DistinctTokens-update_where p f (r ∷ rows) same d = ground (
  arith,
  same r,
  has_token-update_where p f r.token rows same,
  DistinctTokens-update_where p f rows same d.1,
)

module _ {t : Tables} (v : IsValid t) where
  -- The codes are changed by an update that keeps ids and tokens.
  codes_updated :
      (p : ActivationCode → Bool) (f : ActivationCode → ActivationCode) (t' : Tables)
      → ((c : ActivationCode) → (f c).id ≡ c.id)
      → ((c : ActivationCode) → (f c).token ≡ c.token)
      → t'.codes ≡ update_where p f t.codes
      → t'.next_code ≡ t.next_code
      → AscendingCodes 0 t'.codes t'.next_code × DistinctTokens t'.codes
  codes_updated p f t' ids tokens e n =
      rw (e, n)
        (
          AscendingCodes-update_where p f 0 t.next_code t.codes ids v.ascending_codes,
          DistinctTokens-update_where p f t.codes tokens v.distinct,
        )

  IsUntouched-IsValid : {t' : Tables} → IsUntouched t t' → IsValid t'
  IsUntouched-IsValid u = record {
    at_most_one = rw u.subscriptions_same v.at_most_one;
    ascending = rw (u.subscriptions_same, u.next_subscription_same) v.ascending;
    ascending_codes = rw (u.codes_same, u.next_code_same) v.ascending_codes;
    distinct = rw u.codes_same v.distinct;
  }

  grants-IsValid : (q : GrantRequest) (now : ℕ) → IsValid (apply_plan_grant q now t).1
  grants-IsValid q now = elim (apply_plan_grant-Verdict q now t v.ascending) [
    | inl (bad, same) ↦ rw same v
    | inr (good, w) ↦ record {
      at_most_one =
          at_most_one_after w.user.id t.subscriptions (apply_plan_grant q now t).1.subscriptions
            v.at_most_one w.one_active (omega arith) w.others;
      ascending = w.ascending;
      ascending_codes = rw (w.codes_same, w.next_code_same) v.ascending_codes;
      distinct = rw w.codes_same v.distinct;
    }
  ]

  revokes-IsValid :
      (telegram_id admin now : ℕ) → IsValid (revoke_subscription telegram_id admin now t).1
  revokes-IsValid telegram_id admin now =
      elim (revoke_subscription-Verdict telegram_id admin now t) [
        | inl (bad, same) ↦ rw same v
        | inr (good, w) ↦ record {
          at_most_one =
              at_most_one_after w.user.id t.subscriptions
                (revoke_subscription telegram_id admin now t).1.subscriptions v.at_most_one
                w.none_active (omega arith) w.others;
          ascending = w.ascending v.ascending;
          ascending_codes = rw (w.codes_same, w.next_code_same) v.ascending_codes;
          distinct = rw w.codes_same v.distinct;
        }
      ]

  issues-IsValid :
      (q : IssueRequest) (draws : ℕ → Text) (now : ℕ)
      → IsValid (issue_activation_codes q draws now t).1
  issues-IsValid q draws now = elim (issue_activation_codes-Verdict q draws now t) [
    | inl (bad, same) ↦ rw same v
    | inr (good, w) ↦ record {
      at_most_one = rw w.inserted.subscriptions_same v.at_most_one;
      ascending = rw (w.inserted.subscriptions_same, w.inserted.next_subscription_same) v.ascending;
      ascending_codes = w.inserted.ascending v.ascending_codes;
      distinct = w.inserted.distinct v.distinct;
    }
  ]

  pub IsSpent-IsValid :
      (row : ActivationCode) (plan : Plan) (user : User) (now : ℕ) (o : RedeemOutcome) (t' : Tables)
      → IsSpent row plan user now t o t'
      → IsValid t'
  IsSpent-IsValid row plan user now o t' w =
      let (a, d) =
        codes_updated (matches_claim row.id now) (mark_used now user.id) t' (λ c. refl) (λ c. refl)
          w.marked w.next_code_same in
      record {
        at_most_one =
            at_most_one_after user.id t.subscriptions t'.subscriptions v.at_most_one w.one_active
              (omega arith) w.others;
        ascending = w.ascending;
        ascending_codes = a;
        distinct = d;
      }

  redeems-IsValid :
      (token : Text) (telegram_id now : ℕ) → IsValid (redeem_token token telegram_id now t).1
  redeems-IsValid token telegram_id now =
      elim (redeem_token-Verdict token telegram_id now t v.ascending) [
        | inl (bad, same) ↦ IsUntouched-IsValid same
        | inr (good, w) ↦ IsSpent-IsValid w.row w.plan w.user now _ _ w.spent
      ]

  claims-IsValid :
      (row : ActivationCode) (plan : Plan) (user : User) (now : ℕ)
      → IsValid (transaction (redeem_refused db_error) (claim_and_spend row plan user now) t).1
  claims-IsValid row plan user now =
      transaction_cases (λ x. IsValid x.1) (redeem_refused db_error)
        (claim_and_spend row plan user now) t v
        λ r h. elim (claim_and_spend-Verdict row plan user now t v.ascending r h) [
          | inl (bad, same) ↦ rw same v
          | inr (good, w, kept) ↦ IsSpent-IsValid row plan user now r.0 r.1 w
        ]

  revokes_code-IsValid :
      (code_id admin now : ℕ) → IsValid (revoke_activation_code code_id admin now t).1
  unfolding revoke_activation_code revoke_code
  revokes_code-IsValid code_id admin now = elim (Bool-cases (is_valid_telegram_id admin)) [
    | inr bad ↦ rw bad v
    | inl good ↦
        let (a, d) =
          codes_updated (matches_revocation code_id) (mark_revoked now admin)
            (record t {
              codes = update_where (matches_revocation code_id) (mark_revoked now admin) t.codes;
            })
            (λ c. refl) (λ c. refl) refl refl in
        rw good (record {
          at_most_one = v.at_most_one;
          ascending = v.ascending;
          ascending_codes = a;
          distinct = d;
        })
  ]

pub Step-IsValid : {t t' : Tables} → IsValid t → Step t t' → IsValid t'
Step-IsValid v (grants q now) = grants-IsValid v q now
Step-IsValid v (revokes telegram_id admin now) = revokes-IsValid v telegram_id admin now
Step-IsValid v (issues q draws now) = issues-IsValid v q draws now
Step-IsValid v (revokes_code code_id admin now) = revokes_code-IsValid v code_id admin now
Step-IsValid v (redeems token telegram_id now) = redeems-IsValid v token telegram_id now
Step-IsValid v (claims row plan user now) = claims-IsValid v row plan user now

-- Whatever grants, revocations, issues and redemptions follow one another, also redemptions that
-- another transaction overtakes before their claim, no user has two active subscriptions, row ids
-- ascend and no two codes share a token, if that held at the start.
pub Reach-IsValid : {t t' : Tables} → IsValid t → Reach t t' → IsValid t'
Reach-IsValid v here = v
Reach-IsValid v (next r s) = Step-IsValid (Reach-IsValid v r) s
