-- ===== src/Payments/Purchases.antt =====
-- What the two payment handlers of src/user_handlers.py accept and grant.
use tele_group.Base.{
  ℕ, ◌<◌, ◌≡◌, ◌≢◌, refl, true, Option, none, some, arith, List, subst, sym, Bool-cases, ap, inl,
  is_some, inr, ◌∙◌, ==_refl, first, ◌==◌, ==→≡, Bool, ◌↔◌,
}
use tele_group.Text.{Text, codes, text_eq→≡, text_eq, text_eq_refl}
use tele_group.Payments.Checkout.{
  Price, stars, no_price, Payment, check_price, is_amount, or_empty, no_message, PaidPlan,
  StarsPaymentCheck, check_plan, validate_stars_payment, check_parsed, checked, plan_of_payload,
  Receipt, precheckout_callback, refused, answered, GrantResult, user_not_found,
  grant_subscription_success, db_error,
}
use tele_group.Grants.Tables.{Tables}
use tele_group.Payments.Payload.{Payload, parse_invoice_payload, parsed, raised, no_payload}
use tele_group.Grants.Apply.{find_user}
use tele_group.Payments.Term.{Granted}

is_amount→≡ : (n : ℕ) (o : Option ℕ) → is_amount n o ≡ true → o ≡ some n
is_amount→≡ n none h = cc
is_amount→≡ n (some m) h = ground (arith, h)

module _ (upper : Text → Text) where
  -- The price is a number above 0, and it was paid in full in Stars.
  abbrev pub IsPriced : Payment → Price → Type 0
  IsPriced p price =
      (n : ℕ) × (price ≡ stars n)
      × (0 < n)
      × (upper (or_empty p.currency) ≡ codes "XTR")
      × (p.total_amount ≡ some n)

  check_price-ok :
      (p : Payment) (plan_id : ℕ) (price : Price)
      → (check_price upper p plan_id price).ok ≡ true
      → IsPriced p price
  check_price-ok p plan_id no_price h = cc
  check_price-ok p plan_id (stars n) h = (
    n,
    refl,
    ground (arith, h),
    text_eq→≡ (upper (or_empty p.currency)) (codes "XTR") (ground (arith, h)),
    is_amount→≡ n p.total_amount (ground (arith, h)),
  )

  check_price-IsPriced :
      (p : Payment) (plan_id : ℕ) (price : Price)
      → IsPriced p price
      → check_price upper p plan_id price
        ≡ record { ok = true; message = no_message; plan_id = some plan_id }
  check_price-IsPriced p plan_id price (n, priced, positive, currency, paid) =
      subst (λ x. check_price upper p plan_id x ≡ good) (sym priced)
        (ground (
          arith,
          positive,
          ap (λ s. text_eq s (codes "XTR")) currency ∙ text_eq_refl (codes "XTR"),
          ap (is_amount n) paid ∙ ==_refl n,
        ))
    where
      good : StarsPaymentCheck
      good = record { ok = true; message = no_message; plan_id = some plan_id }

module _ (upper : Text → Text) (digit : ℕ → Option ℕ) (plans : List PaidPlan) (p : Payment)
    (t : Tables) where
  -- The payment is for a plan that is on sale, by the user of the invoice, who is registered, and it
  -- is paid in full.
  pub record IsDue (plan : PaidPlan) : Type 0 where
    pub plan_id : ℕ
    pub read : parse_invoice_payload digit p.payload ≡ parsed plan_id p.payer
    pub registered : is_some (find_user p.payer t) ≡ true
    pub found : first (λ q. q.id == plan_id) plans ≡ some plan
    pub active : plan.is_active ≡ true
    pub priced : IsPriced upper p plan.price_stars

  abbrev good : ℕ → StarsPaymentCheck
  good plan_id = record { ok = true; message = no_message; plan_id = some plan_id }

  IsDue-checked :
      (plan : PaidPlan) (due : IsDue plan) → checked upper digit plans p t ≡ some (good due.plan_id)
  unfolding validate_stars_payment
  IsDue-checked plan due =
      ap (λ o. check_parsed upper p (plan_of_payload plans o) (is_some (find_user p.payer t)) o)
        due.read
      ∙ ap
          (λ o. check_parsed upper p o (is_some (find_user p.payer t)) (parsed due.plan_id p.payer))
          due.found
      ∙ ground (
        arith,
        ==_refl p.payer,
        due.registered,
        due.active,
        check_price-IsPriced upper p due.plan_id plan.price_stars due.priced,
      )

  check_plan-ok :
      (plan_id : ℕ) (o : Option PaidPlan)
      → (check_plan upper p plan_id o).ok ≡ true
      → (plan : PaidPlan) × (o ≡ some plan)
        × (plan.is_active ≡ true)
        × IsPriced upper p plan.price_stars
  check_plan-ok plan_id none h = cc
  check_plan-ok plan_id (some plan) h = elim (Bool-cases plan.is_active) [
    | inl active ↦ (
      plan,
      refl,
      active,
      check_price-ok upper p plan_id plan.price_stars (ground (arith, h, active)),
    )
    | inr idle ↦ absurd (ground (arith, h, idle))
  ]

  check_parsed-ok :
      (o : Payload)
      → parse_invoice_payload digit p.payload ≡ o
      → (check : StarsPaymentCheck)
      → check_parsed upper p (plan_of_payload plans o) (is_some (find_user p.payer t)) o
        ≡ some check
      → check.ok ≡ true
      → (plan : PaidPlan) × (plan_of_payload plans o ≡ some plan) × IsDue plan
  check_parsed-ok raised e check h ok = cc
  check_parsed-ok no_payload e check h ok = absurd (ground (arith, h, ok))
  check_parsed-ok (parsed plan_id user_id) e check h ok = elim (Bool-cases (user_id == p.payer)) [
    | inl same ↦ elim (Bool-cases (is_some (find_user p.payer t))) [
      | inl known ↦
          (let (plan, found, active, priced) =
              check_plan-ok plan_id (first (λ q. q.id == plan_id) plans)
                (ground (arith, h, ok, same, known)) in
            (
              plan,
              found,
              record {
                plan_id = plan_id;
                read = e ∙ ap (parsed plan_id) (==→≡ user_id p.payer same);
                registered = known;
                found = found;
                active = active;
                priced = priced;
              },
            ))
      | inr unknown ↦ absurd (ground (arith, h, ok, same, unknown))
    ]
    | inr other ↦ absurd (ground (arith, h, ok, other))
  ]

  -- The bot lets Telegram take a payment exactly when it is due: the payload names a plan that is on
  -- sale and the payer, who is registered, and the whole price above 0 is paid in Stars.
  pub precheckout_callback-IsDue :
      (precheckout_callback upper digit plans p t ≡ some true) ↔ ((plan : PaidPlan) × IsDue plan)
  unfolding precheckout_callback validate_stars_payment
  precheckout_callback-IsDue = (to (checked upper digit plans p t) refl, from)
    where
      to :
          (o : Option StarsPaymentCheck)
          → checked upper digit plans p t ≡ o
          → elim o as (λ _. Option Bool) [ none ↦ none | some check ↦ some check.ok ] ≡ some true
          → (plan : PaidPlan) × IsDue plan
      to none e h = cc
      to (some check) e h =
          let (plan, _, due) =
            check_parsed-ok (parse_invoice_payload digit p.payload) refl check e
              (ground (arith, h)) in
          (plan, due)

      from : (plan : PaidPlan) × IsDue plan → precheckout_callback upper digit plans p t ≡ some true
      from (plan, due) =
          ap (λ o. elim o as (λ _. Option Bool) [ none ↦ none | some check ↦ some check.ok ])
            (IsDue-checked plan due)

  abbrev pub Settled : ℕ → Option (Receipt × Tables) → Type 0
  Settled now none = parse_invoice_payload digit p.payload ≡ raised
  Settled now (some (refused m, t')) = (t' ≡ t) × ¬ ((plan : PaidPlan) × IsDue plan)
  Settled now (some (answered g, t')) =
      (plan : PaidPlan) × IsDue plan
      × Granted p.payer plan.id plan.duration_days now t (g, t')
      × (g ≢ user_not_found)

  abbrev offered : Option PaidPlan
  offered = plan_of_payload plans (parse_invoice_payload digit p.payload)

  known :
      (plan_id days now : ℕ) (r : GrantResult × Tables)
      → Granted p.payer plan_id days now t r
      → is_some (find_user p.payer t) ≡ true
      → r.0 ≢ user_not_found
  known plan_id days now (grant_subscription_success, t') g there e = cc
  known plan_id days now (db_error, t') g there e = cc
  known plan_id days now (user_not_found, t') g there e = ground (arith, g.0, there)
