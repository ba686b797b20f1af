-- ===== src/Grants/SingleUse.antt =====
-- The race gate of `redeem_activation_code` (src/subscription_grants.py): a code is spent once,
-- whatever runs between two redemptions or inside one.
use tele_group.Base.{
  ℕ, suc, ◌≤◌, ◌≡◌, refl, inl, inr, Bool, true, false, some, List, [], ◌∷◌, arith, Bool-cases, All,
  update_where, exists-append,
}
use tele_group.Grants.Redeeming.{IsSpent, claim_and_spend-Verdict, ClaimVerdict}
use tele_group.Grants.Tables.{ActivationCode, Tables, Plan, User, transaction_cases, db_error}
use tele_group.Grants.Codes.{
  is_open, matches_claim, matches_revocation, mark_used, revoke_activation_code, RedeemOutcome,
  revoke_code, claim_and_spend, mark_revoked, redeem_refused,
}
use tele_group.Grants.Issuing.{IsIssue, issue_activation_codes-Verdict}
use tele_group.Grants.Steps.{
  IsValid, Reach, Step, grants, next, here, revokes, issues, revokes_code, redeems, claims,
}
use tele_group.Grants.Issue.{IssueRequest}
use tele_group.Grants.Apply.{is_valid_telegram_id}
use tele_group.Grants.Granting.{apply_plan_grant-Verdict}
use tele_group.Grants.Invariant.{Reach-IsValid, IsSpent-IsValid}
use tele_group.Grants.Revoking.{revoke_subscription-Verdict}
use tele_group.Grants.Redemption.{redeem_token-Verdict}
use tele_group.Grants.Closing.{
  IsClosed, closed-unclaimed, closed-update_where, exists-above, claim-closes,
}

module _ (code_id : ℕ) {t : Tables} (v : IsValid t) (c : IsClosed code_id t) where
  IsClosed-same :
      (t' : Tables) → t'.codes ≡ t.codes → t'.next_code ≡ t.next_code → IsClosed code_id t'
  IsClosed-same t' e n = record {
    none_open = rw e c.none_open;
    issued_before = rw n c.issued_before;
  }

  IsClosed-updated :
      (p : ActivationCode → Bool) (f : ActivationCode → ActivationCode) (t' : Tables)
      → ((x : ActivationCode) → is_open (f x) ≡ false)
      → t'.codes ≡ update_where p f t.codes
      → t'.next_code ≡ t.next_code
      → IsClosed code_id t'
  IsClosed-updated p f t' closes e n = record {
    none_open = rw e (closed-update_where code_id p f t.codes closes c.none_open);
    issued_before = rw n c.issued_before;
  }

  IsClosed-spent :
      (row : ActivationCode) (plan : Plan) (user : User) (now : ℕ) (o : RedeemOutcome) (t' : Tables)
      → IsSpent row plan user now t o t'
      → IsClosed code_id t'
  IsClosed-spent row plan user now o t' w =
      IsClosed-updated (matches_claim row.id now) (mark_used now user.id) t' (λ x. refl) w.marked
        w.next_code_same

  above_next :
      (rows : List ActivationCode)
      → All (λ (x : ActivationCode). t.next_code ≤ x.id) rows
      → All (λ (x : ActivationCode). suc code_id ≤ x.id) rows
  above_next [] h = tt
  above_next (r ∷ rows) h = (omega (arith, h.0, c.issued_before), above_next rows h.1)

  IsClosed-issued :
      (q : IssueRequest) (rows : List ActivationCode) (t' : Tables)
      → IsIssue q rows t t'
      → IsClosed code_id t'
  IsClosed-issued q rows t' i = record {
    none_open =
        rw (i.added, exists-append (matches_revocation code_id) t.codes rows, c.none_open)
          (exists-above code_id rows (above_next rows i.new_ids));
    issued_before = omega (arith, c.issued_before, i.next_grows);
  }

  IsClosed-revoked : (id admin now : ℕ) → IsClosed code_id (revoke_activation_code id admin now t).1
  unfolding revoke_activation_code revoke_code
  IsClosed-revoked id admin now = elim (Bool-cases (is_valid_telegram_id admin)) [
    | inr bad ↦ rw bad c
    | inl good ↦ rw good (
        IsClosed-updated (matches_revocation id) (mark_revoked now admin)
          (record t {
            codes = update_where (matches_revocation id) (mark_revoked now admin) t.codes;
          })
          (λ x. ground arith) refl refl)
  ]

  Step-IsClosed : {t' : Tables} → Step t t' → IsClosed code_id t'
  Step-IsClosed (grants q now) = elim (apply_plan_grant-Verdict q now t v.ascending) [
    | inl (_, same) ↦ rw same c
    | inr (_, w) ↦ IsClosed-same _ w.codes_same w.next_code_same
  ]
  Step-IsClosed (revokes telegram_id admin now) =
      elim (revoke_subscription-Verdict telegram_id admin now t) [
        | inl (_, same) ↦ rw same c
        | inr (_, w) ↦ IsClosed-same _ w.codes_same w.next_code_same
      ]
  Step-IsClosed (issues q draws now) = elim (issue_activation_codes-Verdict q draws now t) [
    | inl (_, same) ↦ rw same c
    | inr (_, w) ↦ IsClosed-issued q w.rows _ w.inserted
  ]
  Step-IsClosed (revokes_code id admin now) = IsClosed-revoked id admin now
  Step-IsClosed (redeems token telegram_id now) =
      elim (redeem_token-Verdict token telegram_id now t v.ascending) [
        | inl (_, same) ↦ IsClosed-same _ same.codes_same same.next_code_same
        | inr (_, w) ↦ IsClosed-spent w.row w.plan w.user now _ _ w.spent
      ]
  Step-IsClosed (claims row plan user now) =
      transaction_cases (λ x. IsClosed code_id x.1) (redeem_refused db_error)
        (claim_and_spend row plan user now) t c
        λ r h. elim (claim_and_spend-Verdict row plan user now t v.ascending r h) [
          | inl (_, same) ↦ rw same c
          | inr (_, w, _) ↦ IsClosed-spent row plan user now r.0 r.1 w
        ]

Reach-IsClosed :
    (code_id : ℕ) {t t' : Tables}
    → IsValid t
    → IsClosed code_id t
    → Reach t t'
    → IsClosed code_id t'
Reach-IsClosed code_id v c here = c
Reach-IsClosed code_id v c (next r s) =
    Step-IsClosed code_id (Reach-IsValid v r) (Reach-IsClosed code_id v c r) s

-- A code that has been spent is spent once and for all: after a claim that succeeds, and whatever
-- transactions follow, also by other users or with a row that was read before, every further claim
-- of the code is refused.
pub claim_once :
    (row row' : ActivationCode) (plan plan' : Plan) (user user' : User) (now now' : ℕ)
    (t s : Tables) (r r' : RedeemOutcome × Tables)
    → IsValid t
    → claim_and_spend row plan user now t ≡ some r
    → r.0.ok ≡ true
    → Reach r.1 s
    → row'.id ≡ row.id
    → claim_and_spend row' plan' user' now' s ≡ some r'
    → r'.0.ok ≡ false
claim_once row row' plan plan' user user' now now' t s r r' v ran good reach same ran' =
    first_claim (claim_and_spend-Verdict row plan user now t v.ascending r ran)
  where
    second_claim : IsClosed row'.id s → ClaimVerdict row' plan' user' now' s r' → r'.0.ok ≡ false
    second_claim closed (inl (bad, _)) = bad
    second_claim closed (inr (_, w, _)) =
        cc (w.matched, closed-unclaimed row'.id now' s.codes closed.none_open)

    first_claim : ClaimVerdict row plan user now t r → r'.0.ok ≡ false
    first_claim (inl (bad, _)) = cc
    first_claim (inr (_, w, _)) =
        let v1 = IsSpent-IsValid v row plan user now r.0 r.1 w in
        let (shut, below) =
          claim-closes row.id now user.id 0 t.next_code t.codes v.ascending_codes w.matched in
        let closed : IsClosed row.id r.1 = record {
          none_open = rw w.marked shut;
          issued_before = rw w.next_code_same below;
        } in
        second_claim (rw same (Reach-IsClosed row.id v1 closed reach)) (
          claim_and_spend-Verdict row' plan' user' now' s (Reach-IsValid v1 reach).ascending r'
            ran')
