-- ===== src/Payments/Term.antt =====
-- What `grant_subscription` of src/database.py leaves.
use tele_group.Base.{
  ℕ, ◌≡◌, ◌⊎◌, Bool, true, false, none, some, List, [], ◌∷◌, ◌++◌, ◌==◌, select, update_where,
}
use tele_group.Clock.{add_days}
use tele_group.Grants.Tables.{Tables, Subscription, User, Plan}
use tele_group.Grants.Apply.{is_active_of, deactivate, find_user, find_plan}
use tele_group.Payments.Checkout.{GrantResult, grant_subscription_success, user_not_found, db_error}

abbrev pub is_of : ℕ → Subscription → Bool
is_of user_id s = s.user_id == user_id

module _ (telegram_id plan_id duration_days now : ℕ) (t : Tables) where
  abbrev pub new_row : User → ℕ → Subscription
  new_row u end_date = record {
    id = t.next_subscription;
    user_id = u.id;
    plan_id = plan_id;
    start_date = now;
    end_date = end_date;
    is_active = true;
  }

  -- What a grant that is reported as done has done.
  pub record IsGrant (t' : Tables) : Type 0 where
    pub user : User
    pub plan : Plan
    pub end_date : ℕ
    pub known : find_user telegram_id t ≡ some user
    pub planned : find_plan plan_id t ≡ some plan
    pub fits : add_days now duration_days ≡ some end_date
    pub single : select (is_active_of user.id) t'.subscriptions ≡ new_row user end_date ∷ []
    pub others :
        (v : ℕ)
        → (user.id == v) ≡ false
        → select (is_of v) t'.subscriptions ≡ select (is_of v) t.subscriptions

  abbrev pub Granted : GrantResult × Tables → Type 0
  Granted (grant_subscription_success, t') = IsGrant t'
  Granted (user_not_found, t') = (find_user telegram_id t ≡ none) × (t' ≡ t)
  Granted (db_error, t') =
      ((add_days now duration_days ≡ none) ⊎ (find_plan plan_id t ≡ none)) × (t' ≡ t)

  abbrev rows_after : User → ℕ → List Subscription
  rows_after u end_date =
      update_where (is_active_of u.id) deactivate t.subscriptions ++ new_row u end_date ∷ []
