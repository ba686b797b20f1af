-- ===== src/Grants/Renewal.antt =====
-- `_apply_subscription` of src/subscription_grants.py: the one active row it leaves, for how long,
-- and what it leaves alone.
use tele_group.Base.{
  ℕ, ◌+◌, ◌*◌, ◌≡◌, ◌≢◌, refl, inl, inr, true, Option, none, some, [], ◌∷◌, arith, Option-cases,
  select, select-In, sym, none≢some, subst_some,
}
use tele_group.Clock.{day, add_days}
use tele_group.Grants.Tables.{Action, extend, Subscription, Tables}
use tele_group.Grants.Apply.{
  is_active_of, is_current_of, current_subscription, apply_subscription, open_subscription,
  extend_subscription, action_taken, extend_rows, replace_rows, renew, latest,
}
use tele_group.Grants.Rows.{
  Ascending, is_row_of, latest-In, select-extend_rows, others-extend_rows, extend_rows-Ascending,
  select-replace_rows, replace_rows-Ascending,
}
use tele_group.Grants.OtherRows.{IsOwned, others-replace_rows}

-- The period that a renewal adds its days to: the end of the current row, or the present.
abbrev pub renewal_start : Action → ℕ → Option Subscription → ℕ
renewal_start extend now (some c) = c.end_date
renewal_start _ now _ = now

abbrev pub renewal_action : Action → Option Subscription → Action
renewal_action extend (some _) = extend
renewal_action mode current = action_taken mode current

-- What a successful renewal of `u` has done to the tables.
pub record IsRenewal (u plan_id days : ℕ) (mode : Action) (now : ℕ) (current : Option Subscription)
    (action : Action) (end_date : ℕ) (t t' : Tables) : Type 0 where
  pub one_active :
      (row : Subscription) × (select (is_active_of u) t'.subscriptions ≡ row ∷ [])
      × (row.plan_id ≡ plan_id)
      × (row.end_date ≡ end_date)
  pub period : end_date ≡ renewal_start mode now current + days * day
  pub action_kind : action ≡ renewal_action mode current
  pub others :
      (v : ℕ) → v ≢ u → select (is_row_of v) t'.subscriptions ≡ select (is_row_of v) t.subscriptions
  pub ascending : Ascending 0 t'.subscriptions t'.next_subscription
  pub codes_same : t'.codes ≡ t.codes
  pub next_code_same : t'.next_code ≡ t.next_code
  pub users_same : t'.users ≡ t.users
  pub grants_same : t'.grants ≡ t.grants

-- The current subscription of a user is an active row of theirs that has not ended.
pub current_subscription-IsOwned :
    (u now : ℕ) (t : Tables) → IsOwned u (current_subscription u now t) t.subscriptions
unfolding current_subscription
current_subscription-IsOwned u now t =
    go (latest (select (is_current_of u now) t.subscriptions)) refl
  where
    go :
        (o : Option Subscription)
        → latest (select (is_current_of u now) t.subscriptions) ≡ o
        → IsOwned u o t.subscriptions
    go none e = tt
    go (some c) e =
        let (here, test) =
          select-In (is_current_of u now) t.subscriptions
            (latest-In (select (is_current_of u now) t.subscriptions) e) in
        (here, ground arith, ground arith)

add_days-eq_some :
    (moment days : ℕ) {end_date : ℕ}
    → add_days moment days ≡ some end_date
    → end_date ≡ moment + days * day
add_days-eq_some moment days h = ground arith

module _ (u plan_id days now : ℕ) (t : Tables)
    (asc : Ascending 0 t.subscriptions t.next_subscription) where
  extend_subscription-IsRenewal :
      (c : Subscription) (action : Action) (end_date : ℕ) (t' : Tables)
      → IsOwned u (some c) t.subscriptions
      → extend_subscription u plan_id days c t ≡ some ((action, end_date), t')
      → IsRenewal u plan_id days extend now (some c) action end_date t t'
  unfolding extend_subscription
  extend_subscription-IsRenewal c action end_date t' cur h =
      elim (Option-cases (add_days c.end_date days)) [
        | inl late ↦ none≢some (rw late at h)
        | inr (e, fits) ↦ subst_some Renewed (rw fits at h) (renewed e fits)
      ]
    where
      Renewed : (Action × ℕ) × Tables → Type 0
      Renewed r = IsRenewal u plan_id days extend now (some c) r.0.0 r.0.1 t r.1

      renewed :
          (e : ℕ)
          → add_days c.end_date days ≡ some e
          → IsRenewal u plan_id days extend now
              (some c)
              extend
              e
              t
              (record t { subscriptions = extend_rows u plan_id c e t.subscriptions })
      renewed e fits =
          let (here, own, active) = cur in
          record {
            one_active = (
              renew plan_id e c,
              select-extend_rows u plan_id c e 0 t.next_subscription t.subscriptions asc here
                  active,
              refl,
              refl,
            );
            period = add_days-eq_some c.end_date days fits;
            action_kind = refl;
            others = λ v ne.
                others-extend_rows u plan_id c e v 0 t.next_subscription t.subscriptions ne own asc
                  here;
            ascending =
                extend_rows-Ascending u plan_id c e 0 t.next_subscription t.subscriptions asc;
            codes_same = refl;
            next_code_same = refl;
            users_same = refl;
            grants_same = refl;
          }

  open_subscription-IsRenewal :
      (mode : Action) (current : Option Subscription) (action : Action) (end_date : ℕ) (t' : Tables)
      → IsOwned u current t.subscriptions
      → renewal_start mode now current ≡ now
      → renewal_action mode current ≡ action_taken mode current
      → open_subscription u plan_id days mode now current t ≡ some ((action, end_date), t')
      → IsRenewal u plan_id days mode now current action end_date t t'
  unfolding open_subscription
  open_subscription-IsRenewal mode current action end_date t' own start kind h =
      elim (Option-cases (add_days now days)) [
        | inl late ↦ none≢some (rw late at h)
        | inr (e, fits) ↦ subst_some Opened (rw fits at h) (opened e fits)
      ]
    where
      Opened : (Action × ℕ) × Tables → Type 0
      Opened r = IsRenewal u plan_id days mode now current r.0.0 r.0.1 t r.1

      new_row : ℕ → Subscription
      new_row e = record {
        id = t.next_subscription;
        user_id = u;
        plan_id = plan_id;
        start_date = now;
        end_date = e;
        is_active = true;
      }

      opened :
          (e : ℕ)
          → add_days now days ≡ some e
          → IsRenewal u plan_id days mode now current (action_taken mode current) e t (record t {
            subscriptions = replace_rows u current (new_row e) t.subscriptions;
            next_subscription = t.next_subscription + 1;
          })
      opened e fits = record {
        one_active = (
          new_row e,
          select-replace_rows u current (new_row e) t.subscriptions (ground arith),
          refl,
          refl,
        );
        period = rw start (add_days-eq_some now days fits);
        action_kind = sym kind;
        others = λ v ne.
            others-replace_rows v u 0 t.next_subscription current (new_row e) t.subscriptions ne
              refl asc own;
        ascending =
            replace_rows-Ascending u current (new_row e) 0 t.next_subscription t.subscriptions asc
              refl;
        codes_same = refl;
        next_code_same = refl;
        users_same = refl;
        grants_same = refl;
      }

  -- A renewal that ends leaves the user with one active subscription, on the plan asked for, for
  -- the days asked for beyond the current end (extend) or the present.
  pub apply_subscription-IsRenewal :
      (mode : Action) (current : Option Subscription) (action : Action) (end_date : ℕ) (t' : Tables)
      → IsOwned u current t.subscriptions
      → apply_subscription u plan_id days mode now current t ≡ some ((action, end_date), t')
      → IsRenewal u plan_id days mode now current action end_date t t'
  unfolding apply_subscription
  apply_subscription-IsRenewal extend (some c) action end_date t' cur h =
      extend_subscription-IsRenewal c action end_date t' cur h
  apply_subscription-IsRenewal extend none action end_date t' cur h =
      open_subscription-IsRenewal extend none action end_date t' tt refl refl h
  apply_subscription-IsRenewal mode current action end_date t' cur h =
      open_subscription-IsRenewal mode current action end_date t' cur refl refl h
