-- ===== src/Grants/Granting.antt =====
-- `apply_plan_grant` of src/subscription_grants.py: it either refuses and changes nothing, or renews
-- the subscription of the target and writes one audit row.
use tele_group.Base.{
  refl, ℕ, ◌+◌, ◌*◌, Option, Bool, ◌≡◌, false, some, select, ◌⊎◌, true, ◌∷◌, [], none, ◌++◌, ◌∙◌,
  ap, ◌≢◌, subst_some, inl, inr, Bool-cases, first-append, ==→≡, ◌==◌, ==_refl, first-eq_some,
}
use tele_group.Grants.Tables.{
  User, Plan, Tables, Subscription, Action, >>=-eq_some, transaction_cases, ErrorCode, db_error,
}
use tele_group.Grants.Ops.{
  GrantRequest, GrantOutcome, current_of, grant_to, apply_plan_grant, grant_on_plan, grant_to_user,
  grant_checked, must_choose, request_error, refused,
}
use tele_group.Grants.Apply.{find_user, is_active_of, apply_subscription, find_plan, insert_user}
use tele_group.Grants.Rows.{Ascending, is_row_of}
use tele_group.Grants.OtherRows.{IsOwned}
use tele_group.Grants.Renewal.{
  renewal_start, renewal_action, apply_subscription-IsRenewal, current_subscription-IsOwned,
}
use tele_group.Clock.{day}

-- What a grant that is reported as done has done to the tables.
pub record IsGranted (q : GrantRequest) (now : ℕ) (t : Tables) (current : Option Subscription)
    (o : GrantOutcome) (t' : Tables) : Type 0 where
  pub user : User
  pub action : Action
  pub row : Subscription
  pub found : find_user q.telegram_id t' ≡ some user
  pub one_active : select (is_active_of user.id) t'.subscriptions ≡ row ∷ []
  pub on_plan : row.plan_id ≡ q.plan_id
  pub period : row.end_date ≡ renewal_start q.mode now current + q.duration_days * day
  pub reported_end : o.end_date ≡ some row.end_date
  pub reported_action : o.action ≡ some (renewal_action q.mode current)
  pub others :
      (v : ℕ)
      → v ≢ user.id
      → select (is_row_of v) t'.subscriptions ≡ select (is_row_of v) t.subscriptions
  pub audited :
      t'.grants
      ≡ t.grants
        ++ record {
          admin_telegram_id = q.admin_telegram_id;
          target_user_id = user.id;
          plan_id = q.plan_id;
          duration_days = q.duration_days;
          source = q.source;
          action = renewal_action q.mode current;
          activation_code_id = q.activation_code_id;
        }
          ∷ []
  pub ascending : Ascending 0 t'.subscriptions t'.next_subscription
  pub codes_same : t'.codes ≡ t.codes
  pub next_code_same : t'.next_code ≡ t.next_code

-- A grant is refused and the tables are as before, or it is done.
abbrev pub Verdict : GrantRequest → ℕ → Tables → GrantOutcome × Tables → Type 0
Verdict q now t (o, t') =
    ((o.ok ≡ false) × (t' ≡ t))
    ⊎ ((o.ok ≡ true) × IsGranted q now t (current_of now t (find_user q.telegram_id t)) o t')

-- `s` is `t`, perhaps with the user added.
module _ (q : GrantRequest) (now : ℕ) (t s : Tables) (plan : Plan) (current : Option Subscription)
    (user : User) (created : Bool) (rows_same : s.subscriptions ≡ t.subscriptions)
    (grants_same : s.grants ≡ t.grants) (codes_same : s.codes ≡ t.codes)
    (next_same : s.next_code ≡ t.next_code) (here : find_user q.telegram_id s ≡ some user)
    (planned : plan.id ≡ q.plan_id) (asc : Ascending 0 s.subscriptions s.next_subscription)
    (own : IsOwned user.id current s.subscriptions) where
  grant_to-IsGranted :
      (o : GrantOutcome) (t' : Tables)
      → grant_to q now plan current user created s ≡ some (o, t')
      → (o.ok ≡ true) × IsGranted q now t current o t'
  unfolding grant_to
  grant_to-IsGranted o t' h =
      let (r, s1, ran, rest) =
        >>=-eq_some (apply_subscription user.id plan.id q.duration_days q.mode now current) _ s h in
      subst_some Granted rest (granted r.0 r.1 s1 ran)
    where
      Granted : GrantOutcome × Tables → Type 0
      Granted r = (r.0.ok ≡ true) × IsGranted q now t current r.0 r.1

      granted :
          (action : Action) (e : ℕ) (s1 : Tables)
          → apply_subscription user.id plan.id q.duration_days q.mode now current s
            ≡ some ((action, e), s1)
          → Granted (
            record {
              ok = true;
              error = none;
              action = some action;
              plan_name = some plan.name;
              plan_id = some plan.id;
              duration_days = some q.duration_days;
              end_date = some e;
              telegram_id = q.telegram_id;
              user_created = created;
            },
            record s1 {
              grants =
                  s1.grants
                  ++ record {
                    admin_telegram_id = q.admin_telegram_id;
                    target_user_id = user.id;
                    plan_id = plan.id;
                    duration_days = q.duration_days;
                    source = q.source;
                    action = action;
                    activation_code_id = q.activation_code_id;
                  }
                    ∷ [];
            },
          )
      granted action e s1 fits =
          let w =
            apply_subscription-IsRenewal user.id plan.id q.duration_days now s asc q.mode current
              action e s1 own fits in
          let (row, one, on_plan, ends) = w.one_active in
          (
            refl,
            record {
              user = user;
              action = action;
              row = row;
              found = cc (w.users_same, here);
              one_active = one;
              on_plan = on_plan ∙ planned;
              period = ends ∙ w.period;
              reported_end = cc ends;
              reported_action = cc (w.action_kind);
              others = λ v ne. w.others v ne ∙ ap (select (is_row_of v)) rows_same;
              audited = cc (w.grants_same, grants_same, planned, w.action_kind);
              ascending = w.ascending;
              codes_same = w.codes_same ∙ codes_same;
              next_code_same = w.next_code_same ∙ next_same;
            },
          )

module _ (q : GrantRequest) (now : ℕ) (t : Tables)
    (asc : Ascending 0 t.subscriptions t.next_subscription) where
  abbrev new_user : User
  new_user = record {
    id = t.next_user;
    telegram_id = q.telegram_id;
    first_name = "User";
    username = none;
    language_code = "en";
  }

  abbrev inserted : Tables
  inserted = record t { users = t.users ++ new_user ∷ []; next_user = t.next_user + 1 }

  grant_to_user-Verdict :
      (plan : Plan) (o : Option User)
      → find_user q.telegram_id t ≡ o
      → plan.id ≡ q.plan_id
      → (r : GrantOutcome × Tables) → grant_to_user q now plan (current_of now t o) o t ≡ some r
      → Verdict q now t r
  unfolding grant_to_user insert_user grant_to
  grant_to_user-Verdict plan (some user) e planned r h = inr (
      rw e (
        grant_to-IsGranted q now t t plan (current_of now t (some user)) user false refl refl refl
          refl e planned asc (current_subscription-IsOwned user.id now t) r.0 r.1 h))
  grant_to_user-Verdict plan none e planned r h = elim (Bool-cases q.create_user) [
    | inr no_user ↦
        inl (subst_some (λ x. (x.0.ok ≡ false) × (x.1 ≡ t)) (rw no_user at h) (refl, refl))
    | inl create ↦ inr (
        rw e (
          grant_to-IsGranted q now t inserted plan none new_user true refl refl refl refl
            (first-append (λ u. u.telegram_id == q.telegram_id) t.users new_user e
              (==_refl q.telegram_id))
            planned asc tt r.0 r.1 (rw create at h)))
  ]

  grant_on_plan-Verdict :
      (r : GrantOutcome × Tables)
      → grant_on_plan q now (find_plan q.plan_id t) t ≡ some r
      → Verdict q now t r
  unfolding grant_on_plan
  grant_on_plan-Verdict r h = go (find_plan q.plan_id t) refl h
    where
      Unchanged : GrantOutcome × Tables → Type 0
      Unchanged x = (x.0.ok ≡ false) × (x.1 ≡ t)

      go :
          (p : Option Plan)
          → find_plan q.plan_id t ≡ p
          → grant_on_plan q now p t ≡ some r
          → Verdict q now t r
      go none e k = inl (subst_some Unchanged k (refl, refl))
      go (some plan) e k =
          elim (Bool-cases (must_choose q.mode (current_of now t (find_user q.telegram_id t)))) [
            | inl asked ↦ inl (subst_some Unchanged (rw asked at k) (refl, refl))
            | inr free ↦
                grant_to_user-Verdict plan (find_user q.telegram_id t) refl
                  (==→≡ plan.id q.plan_id (first-eq_some (λ p. p.id == q.plan_id) t.plans e)) r
                  (rw free at k)
          ]

  grant_checked-Verdict : (e : Option ErrorCode) → Verdict q now t (grant_checked q now e t)
  unfolding grant_checked
  grant_checked-Verdict (some e) = inl (refl, refl)
  grant_checked-Verdict none =
      transaction_cases (Verdict q now t) (refused q.telegram_id db_error)
        (λ s. grant_on_plan q now (find_plan q.plan_id s) s) t (inl (refl, refl))
        grant_on_plan-Verdict

  -- A grant is refused, with any error, and changes nothing; or it is reported as done, and then the
  -- target has one active subscription, on the plan asked for, that ends the days asked for after
  -- the end of the current one (extend) or after `now`; one audit row that says so is added; and the
  -- subscriptions of the other users and the codes are as before.
  pub apply_plan_grant-Verdict : Verdict q now t (apply_plan_grant q now t)
  unfolding apply_plan_grant
  apply_plan_grant-Verdict = grant_checked-Verdict (request_error q)
