-- ===== src/Grants/Revoking.antt =====
-- `revoke_subscription` of src/subscription_grants.py.
use tele_group.Base.{
  ℕ, ◌≡◌, refl, ◌≢◌, ◌⊎◌, inl, inr, true, false, not, ◌&&◌, Option, none, some, List, [], ◌∷◌, ◌++◌,
  arith, Bool-cases, select, update_where, In, subst_some, select-In,
}
use tele_group.Grants.Tables.{
  Subscription, Tables, User, transaction_cases, db_error, manual, revoke,
}
use tele_group.Grants.Ops.{
  GrantOutcome, revoke_rows, revoke_subscription, revoke_user, close_at, refused,
}
use tele_group.Grants.Apply.{
  is_active_of, is_valid_telegram_id, find_user, is_current_of, latest, current_subscription,
}
use tele_group.Grants.Rows.{is_row_of, latest-In, Ascending-update_where, Ascending}
use tele_group.Grants.OtherRows.{select-update_where_ne}

-- What a revocation that is reported as done has done.
pub record IsRevoked (telegram_id admin now : ℕ) (t : Tables) (o : GrantOutcome) (t' : Tables)
    : Type 0 where
  pub user : User
  pub primary : Subscription
  pub found : find_user telegram_id t ≡ some user
  pub was_active : In primary t.subscriptions × (is_active_of user.id primary ≡ true)
  pub none_active : select (is_active_of user.id) t'.subscriptions ≡ []
  pub no_current : (later : ℕ) → current_subscription user.id later t' ≡ none
  pub others :
      (v : ℕ)
      → v ≢ user.id
      → select (is_row_of v) t'.subscriptions ≡ select (is_row_of v) t.subscriptions
  pub audited :
      t'.grants
      ≡ t.grants
        ++ record {
          admin_telegram_id = admin;
          target_user_id = user.id;
          plan_id = primary.plan_id;
          duration_days = 0;
          source = manual;
          action = revoke;
          activation_code_id = none;
        }
          ∷ []
  pub ascending :
      Ascending 0 t.subscriptions t.next_subscription
      → Ascending 0 t'.subscriptions t'.next_subscription
  pub codes_same : t'.codes ≡ t.codes
  pub next_code_same : t'.next_code ≡ t.next_code

-- A revocation is refused and changes nothing, or it is done.
abbrev pub RevokeVerdict : ℕ → ℕ → ℕ → Tables → GrantOutcome × Tables → Type 0
RevokeVerdict telegram_id admin now t (o, t') =
    ((o.ok ≡ false) × (t' ≡ t)) ⊎ ((o.ok ≡ true) × IsRevoked telegram_id admin now t o t')

select-close_at :
    (u now : ℕ) (rows : List Subscription)
    → select (is_active_of u) (update_where (is_active_of u) (close_at now) rows) ≡ []
select-close_at u now [] = refl
select-close_at u now (r ∷ rows) = ground (arith, select-close_at u now rows)

-- With no active row there is no current one.
current-none :
    (u later : ℕ) (rows : List Subscription)
    → select (is_active_of u) rows ≡ []
    → select (is_current_of u later) rows ≡ []
current-none u later [] h = refl
current-none u later (r ∷ rows) h = ground (arith, current-none u later rows)

module _ (telegram_id admin now : ℕ) (t : Tables) where
  revoke_rows-Verdict :
      (user : User) (primary : Option Subscription)
      → find_user telegram_id t ≡ some user
      → latest (select (is_active_of user.id) t.subscriptions) ≡ primary
      → (r : GrantOutcome × Tables) → revoke_rows telegram_id admin user primary now t ≡ some r
      → RevokeVerdict telegram_id admin now t r
  unfolding revoke_rows
  revoke_rows-Verdict user none e l r h =
      inl (subst_some (λ x. (x.0.ok ≡ false) × (x.1 ≡ t)) h (refl, refl))
  revoke_rows-Verdict user (some primary) e l r h = inr (
      subst_some (λ x. (x.0.ok ≡ true) × IsRevoked telegram_id admin now t x.0 x.1) h
        (
          refl,
          record {
            user = user;
            primary = primary;
            found = e;
            was_active =
                select-In (is_active_of user.id) t.subscriptions
                  (latest-In (select (is_active_of user.id) t.subscriptions) l);
            none_active = select-close_at user.id now t.subscriptions;
            no_current = λ later.
                unfold current_subscription latest in
                rw
                  (current-none user.id later
                    (update_where (is_active_of user.id) (close_at now) t.subscriptions)
                    (select-close_at user.id now t.subscriptions))
                  refl;
            others = λ v ne.
                select-update_where_ne v (is_active_of user.id) (close_at now) t.subscriptions
                  (λ s. refl) (λ s hs a same. ground arith);
            audited = refl;
            ascending = λ asc.
                Ascending-update_where (is_active_of user.id) (close_at now) 0 t.next_subscription
                  t.subscriptions (λ s. refl) asc;
            codes_same = refl;
            next_code_same = refl;
          },
        ))

  revoke_user-Verdict :
      (o : Option User)
      → find_user telegram_id t ≡ o
      → (r : GrantOutcome × Tables) → revoke_user telegram_id admin now o t ≡ some r
      → RevokeVerdict telegram_id admin now t r
  unfolding revoke_user
  revoke_user-Verdict none e r h =
      inl (subst_some (λ x. (x.0.ok ≡ false) × (x.1 ≡ t)) h (refl, refl))
  revoke_user-Verdict (some user) e r h =
      revoke_rows-Verdict user (latest (select (is_active_of user.id) t.subscriptions)) e refl r h

  -- A revocation is refused, with any error, and changes nothing; or the user had an active
  -- subscription, has none at any later time, one audit row that says so is added, and the
  -- subscriptions of the other users and the codes are as before.
  pub revoke_subscription-Verdict :
      RevokeVerdict telegram_id admin now t (revoke_subscription telegram_id admin now t)
  unfolding revoke_subscription
  revoke_subscription-Verdict =
      elim (Bool-cases (not (is_valid_telegram_id telegram_id && is_valid_telegram_id admin))) [
        | inl bad ↦ rw bad (inl (refl, refl))
        | inr good ↦ rw good (
            transaction_cases (RevokeVerdict telegram_id admin now t) (refused telegram_id db_error)
              (λ s. revoke_user telegram_id admin now (find_user telegram_id s) s) t
              (inl (refl, refl)) (revoke_user-Verdict (find_user telegram_id t) refl))
      ]
