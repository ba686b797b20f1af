-- ===== src/Grants/Redeeming.antt =====
-- `redeem_activation_code` of src/subscription_grants.py: a redemption either is refused and leaves
-- subscriptions, codes and audit rows alone, or marks its code used and extends the subscription.
use tele_group.Base.{
  ℕ, ◌+◌, ◌*◌, ◌≡◌, refl, ◌∙◌, ◌≢◌, ◌⊎◌, inl, inr, Bool, true, false, none, some, [], ◌∷◌, ◌++◌,
  exists, update_where, update_where_none, select, subst_some,
}
use tele_group.Grants.Tables.{
  ActivationCode, Plan, User, Tables, Subscription, Action, extend, code, >>=-eq_some,
}
use tele_group.Grants.Codes.{
  RedeemOutcome, claim_and_spend, spend, claim, matches_claim, after_claim, mark_used,
}
use tele_group.Grants.Rows.{Ascending, is_row_of}
use tele_group.Grants.Apply.{current_subscription, apply_subscription, is_active_of}
use tele_group.Grants.Renewal.{
  renewal_start, apply_subscription-IsRenewal, current_subscription-IsOwned, renewal_action,
}
use tele_group.Clock.{day}

-- What a claim that matched has done by the end of its transaction, the users apart.
pub record IsSpent (row : ActivationCode) (plan : Plan) (user : User) (now : ℕ) (t : Tables)
    (o : RedeemOutcome) (t' : Tables) : Type 0 where
  pub subscription : Subscription
  pub matched : exists (matches_claim row.id now) t.codes ≡ true
  pub marked : t'.codes ≡ update_where (matches_claim row.id now) (mark_used now user.id) t.codes
  pub one_active : select (is_active_of user.id) t'.subscriptions ≡ subscription ∷ []
  pub on_plan : subscription.plan_id ≡ plan.id
  pub period :
      subscription.end_date
      ≡ renewal_start extend now (current_subscription user.id now t) + row.duration_days * day
  pub reported_end : o.end_date ≡ some subscription.end_date
  pub others :
      (v : ℕ)
      → v ≢ user.id
      → select (is_row_of v) t'.subscriptions ≡ select (is_row_of v) t.subscriptions
  pub audited :
      t'.grants
      ≡ t.grants
        ++ record {
          admin_telegram_id = row.created_by;
          target_user_id = user.id;
          plan_id = plan.id;
          duration_days = row.duration_days;
          source = code;
          action = renewal_action extend (current_subscription user.id now t);
          activation_code_id = some row.id;
        }
          ∷ []
  pub ascending : Ascending 0 t'.subscriptions t'.next_subscription
  pub next_code_same : t'.next_code ≡ t.next_code

abbrev pub ClaimVerdict :
    ActivationCode → Plan → User → ℕ → Tables → RedeemOutcome × Tables → Type 0
ClaimVerdict row plan user now t (o, t') =
    ((o.ok ≡ false) × (t' ≡ t))
    ⊎ ((o.ok ≡ true) × IsSpent row plan user now t o t' × (t'.users ≡ t.users))

module _ (row : ActivationCode) (plan : Plan) (user : User) (now : ℕ) (t : Tables)
    (asc : Ascending 0 t.subscriptions t.next_subscription) where
  abbrev marked_tables : Tables
  marked_tables = record t {
    codes = update_where (matches_claim row.id now) (mark_used now user.id) t.codes;
  }

  spend-IsSpent :
      (r : RedeemOutcome × Tables)
      → exists (matches_claim row.id now) t.codes ≡ true
      → spend row plan user now marked_tables ≡ some r
      → (r.0.ok ≡ true) × IsSpent row plan user now t r.0 r.1 × (r.1.users ≡ t.users)
  unfolding spend current_subscription
  spend-IsSpent r hit h =
      let (a, s1, ran, rest) =
        >>=-eq_some
          (apply_subscription user.id plan.id row.duration_days extend now
            (current_subscription user.id now t))
          _ marked_tables h in
      subst_some Spent rest (spent a.0 a.1 s1 ran)
    where
      Spent : RedeemOutcome × Tables → Type 0
      Spent x = (x.0.ok ≡ true) × IsSpent row plan user now t x.0 x.1 × (x.1.users ≡ t.users)

      spent :
          (action : Action) (e : ℕ) (s1 : Tables)
          → apply_subscription user.id plan.id row.duration_days extend now
              (current_subscription user.id now t)
              marked_tables
            ≡ some ((action, e), s1)
          → Spent (
            record {
              ok = true;
              error = none;
              action = some action;
              plan_name = some plan.name;
              duration_days = some row.duration_days;
              end_date = some e;
            },
            record s1 {
              grants =
                  s1.grants
                  ++ record {
                    admin_telegram_id = row.created_by;
                    target_user_id = user.id;
                    plan_id = plan.id;
                    duration_days = row.duration_days;
                    source = code;
                    action = action;
                    activation_code_id = some row.id;
                  }
                    ∷ [];
            },
          )
      spent action e s1 ran =
          let w =
            apply_subscription-IsRenewal user.id plan.id row.duration_days now marked_tables asc
              extend (current_subscription user.id now t) action e s1
              (current_subscription-IsOwned user.id now t) ran in
          let (s, one, on_plan, ends) = w.one_active in
          (
            refl,
            record {
              subscription = s;
              matched = hit;
              marked = w.codes_same;
              one_active = one;
              on_plan = on_plan;
              period = ends ∙ w.period;
              reported_end = cc ends;
              others = w.others;
              audited = cc (w.grants_same, w.action_kind);
              ascending = w.ascending;
              next_code_same = w.next_code_same;
            },
            w.users_same,
          )

  -- A claim that matches no row changes nothing.
  missed : exists (matches_claim row.id now) t.codes ≡ false → marked_tables ≡ t
  missed h = cc (update_where_none (matches_claim row.id now) (mark_used now user.id) t.codes h)

  pub claim_and_spend-Verdict :
      (r : RedeemOutcome × Tables)
      → claim_and_spend row plan user now t ≡ some r
      → ClaimVerdict row plan user now t r
  unfolding claim_and_spend claim after_claim
  claim_and_spend-Verdict r h = go (exists (matches_claim row.id now) t.codes) refl h
    where
      go :
          (b : Bool)
          → exists (matches_claim row.id now) t.codes ≡ b
          → after_claim row plan user now b marked_tables ≡ some r
          → ClaimVerdict row plan user now t r
      go true e k = inr (spend-IsSpent r e k)
      go false e k = inl (subst_some (λ x. (x.0.ok ≡ false) × (x.1 ≡ t)) k (refl, missed e))
