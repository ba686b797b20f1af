-- ===== src/Grants/Redemption.antt =====
-- `redeem_activation_code` of src/subscription_grants.py as a whole: the search of the code, its
-- status, the plan, the user, and then the claim.
use tele_group.Base.{
  ℕ, ◌+◌, ◌≡◌, refl, sym, ap, ◌∙◌, subst, List, first, first-append, ==_refl, ◌⊎◌, inl, inr, true,
  false, not, ◌||◌, Option, none, some, [], ◌∷◌, ◌++◌, arith, ◌==◌, Bool-cases, subst_some, ==→≡,
  first-eq_some,
}
use tele_group.Grants.Tables.{
  Tables, ActivationCode, User, Plan, transaction_cases, db_error, ErrorCode, >>=-eq_some,
}
use tele_group.Grants.Codes.{
  unused, RedeemOutcome, redeem_found, redeem_token, terminal_error, code_status, redeem_row,
  find_token, redeem_on_plan, redeem_refused, claim_and_spend,
}
use tele_group.Text.{is_empty, Text}
use tele_group.Grants.Rows.{Ascending}
use tele_group.Grants.Apply.{
  current_subscription, ensure_user, insert_user, find_user, is_valid_telegram_id, find_plan,
  found_or_insert,
}
use tele_group.Grants.Redeeming.{IsSpent, ClaimVerdict, claim_and_spend-Verdict}

-- What a redemption that is reported as done has done: the code was found by its token and was
-- unused, and its claim is spent for the user who redeems it.
pub record IsRedeemed (token : Text) (telegram_id now : ℕ) (t : Tables) (o : RedeemOutcome)
    (t' : Tables) : Type 0 where
  pub row : ActivationCode
  pub plan : Plan
  pub user : User
  pub found : find_token token t ≡ some row
  pub unspent : code_status row now ≡ unused
  pub planned : find_plan row.plan_id t ≡ some plan
  pub owner : user.telegram_id ≡ telegram_id
  -- The redeemer was there or is added with the next id, and nothing else happens to the users.
  pub users :
      ((find_user telegram_id t ≡ some user) × (t'.users ≡ t.users))
      ⊎ ((find_user telegram_id t ≡ none)
          × (user.id ≡ t.next_user)
          × (t'.users ≡ t.users ++ user ∷ []))
  pub stored : find_user telegram_id t' ≡ some user
  pub spent : IsSpent row plan user now t o t'

-- A redemption that is refused leaves the subscriptions, the codes, the audit rows and the plans as
-- they were.
pub record IsUntouched (t t' : Tables) : Type 0 where
  pub subscriptions_same : t'.subscriptions ≡ t.subscriptions
  pub next_subscription_same : t'.next_subscription ≡ t.next_subscription
  pub codes_same : t'.codes ≡ t.codes
  pub next_code_same : t'.next_code ≡ t.next_code
  pub grants_same : t'.grants ≡ t.grants

abbrev pub RedeemVerdict : Text → ℕ → ℕ → Tables → RedeemOutcome × Tables → Type 0
RedeemVerdict token telegram_id now t (o, t') =
    ((o.ok ≡ false) × IsUntouched t t') ⊎ ((o.ok ≡ true) × IsRedeemed token telegram_id now t o t')

module _ (token : Text) (telegram_id now : ℕ) (t : Tables)
    (asc : Ascending 0 t.subscriptions t.next_subscription) where
  abbrev new_user : User
  new_user = record {
    id = t.next_user;
    telegram_id = telegram_id;
    first_name = "User";
    username = none;
    language_code = "en";
  }

  abbrev inserted : Tables
  inserted = record t { users = t.users ++ new_user ∷ []; next_user = t.next_user + 1 }

  new_user-IsSpent :
      (row : ActivationCode) (plan : Plan) (o : RedeemOutcome) (t' : Tables)
      → IsSpent row plan new_user now inserted o t'
      → IsSpent row plan new_user now t o t'
  unfolding current_subscription
  new_user-IsSpent row plan o t' w = record {
    subscription = w.subscription;
    matched = w.matched;
    marked = w.marked;
    one_active = w.one_active;
    on_plan = w.on_plan;
    period = w.period;
    reported_end = w.reported_end;
    others = w.others;
    audited = w.audited;
    ascending = w.ascending;
    next_code_same = w.next_code_same;
  }

  untouched : IsUntouched t t
  untouched = record {
    subscriptions_same = refl;
    next_subscription_same = refl;
    codes_same = refl;
    next_code_same = refl;
    grants_same = refl;
  }

  inserted-IsUntouched : IsUntouched t inserted
  inserted-IsUntouched = record {
    subscriptions_same = refl;
    next_subscription_same = refl;
    codes_same = refl;
    next_code_same = refl;
    grants_same = refl;
  }

  -- `_ensure_user` finds the user, or adds one.
  ensure_user-cases :
      (user : User) (s : Tables)
      → ensure_user telegram_id t ≡ some (user, s)
      → ((find_user telegram_id t ≡ some user) × (s ≡ t))
        ⊎ ((find_user telegram_id t ≡ none) × (user ≡ new_user) × (s ≡ inserted))
  unfolding ensure_user insert_user
  ensure_user-cases user s h = go (find_user telegram_id t) refl h
    where
      go :
          (o : Option User)
          → find_user telegram_id t ≡ o
          → found_or_insert telegram_id o t ≡ some (user, s)
          → ((find_user telegram_id t ≡ some user) × (s ≡ t))
            ⊎ ((find_user telegram_id t ≡ none) × (user ≡ new_user) × (s ≡ inserted))
      go none e k = inr (e, cc, cc)
      go (some u) e k = inl (cc, cc)

  module _ (row : ActivationCode) (plan : Plan) (found : find_token token t ≡ some row)
      (fresh : code_status row now ≡ unused) (planned : find_plan row.plan_id t ≡ some plan) where
    claimed_as :
        (user : User) (r : RedeemOutcome × Tables)
        → (s : Tables)
        → ((find_user telegram_id t ≡ some user) × (s.users ≡ t.users))
          ⊎ ((find_user telegram_id t ≡ none)
              × (user.id ≡ t.next_user)
              × (s.users ≡ t.users ++ user ∷ []))
        → find_user telegram_id s ≡ some user
        → IsUntouched t s
        → (IsSpent row plan user now s r.0 r.1 → IsSpent row plan user now t r.0 r.1)
        → ClaimVerdict row plan user now s r
        → RedeemVerdict token telegram_id now t r
    claimed_as user r s users here same back (inl (bad, e)) = inl (bad, rw e same)
    claimed_as user r s users here same back (inr (good, w, kept)) = inr (
      good,
      record {
        row = row;
        plan = plan;
        user = user;
        found = found;
        unspent = fresh;
        planned = planned;
        owner =
            ==→≡ user.telegram_id telegram_id
              (first-eq_some (λ u. u.telegram_id == telegram_id) s.users here);
        users =
            subst
              (λ (l : List User).
                ((find_user telegram_id t ≡ some user) × (l ≡ t.users))
                ⊎ ((find_user telegram_id t ≡ none)
                    × (user.id ≡ t.next_user)
                    × (l ≡ t.users ++ user ∷ [])))
              (sym kept) users;
        stored = ap (first (λ u. u.telegram_id == telegram_id)) kept ∙ here;
        spent = back w;
      },
    )

    redeem_as-Verdict :
        (r : RedeemOutcome × Tables)
        → redeem_on_plan row telegram_id now (some plan) t ≡ some r
        → RedeemVerdict token telegram_id now t r
    unfolding redeem_on_plan
    redeem_as-Verdict r h =
        let (user, s, ran, rest) = >>=-eq_some (ensure_user telegram_id) _ t h in
        go user s rest (ensure_user-cases user s ran)
      where
        go :
            (user : User) (s : Tables)
            → claim_and_spend row plan user now s ≡ some r
            → ((find_user telegram_id t ≡ some user) × (s ≡ t))
              ⊎ ((find_user telegram_id t ≡ none) × (user ≡ new_user) × (s ≡ inserted))
            → RedeemVerdict token telegram_id now t r
        go user s rest (inl (e, same)) =
            claimed_as user r t (inl (e, refl)) e untouched (λ w. w)
              (claim_and_spend-Verdict row plan user now t asc r (rw same at rest))
        go user s rest (inr (e, fresh_user, same)) =
            claimed_as new_user r inserted (inr (e, refl, refl))
              (first-append (λ u. u.telegram_id == telegram_id) t.users new_user e
                (==_refl telegram_id))
              inserted-IsUntouched (new_user-IsSpent row plan r.0 r.1)
              (claim_and_spend-Verdict row plan new_user now inserted asc r
                (rw (same, fresh_user) at rest))

  terminal_error-unused :
      (row : ActivationCode) (at_time : ℕ)
      → terminal_error (some row) at_time ≡ none
      → code_status row at_time ≡ unused
  unfolding terminal_error code_status
  terminal_error-unused row at_time h = ground arith

  redeem_found-Verdict :
      (r : RedeemOutcome × Tables)
      → redeem_found telegram_id now (find_token token t) t ≡ some r
      → RedeemVerdict token telegram_id now t r
  unfolding redeem_found redeem_row redeem_on_plan
  redeem_found-Verdict r h = by_token (find_token token t) refl h
    where
      Refused : RedeemOutcome × Tables → Type 0
      Refused x = (x.0.ok ≡ false) × IsUntouched t x.1

      by_plan :
          (row : ActivationCode) (p : Option Plan)
          → find_token token t ≡ some row
          → code_status row now ≡ unused
          → find_plan row.plan_id t ≡ p
          → redeem_on_plan row telegram_id now p t ≡ some r
          → RedeemVerdict token telegram_id now t r
      by_plan row none found fresh e k = inl (subst_some Refused k (refl, untouched))
      by_plan row (some plan) found fresh e k = redeem_as-Verdict row plan found fresh e r k

      by_error :
          (row : ActivationCode) (x : Option ErrorCode)
          → find_token token t ≡ some row
          → terminal_error (some row) now ≡ x
          → redeem_row row telegram_id now x t ≡ some r
          → RedeemVerdict token telegram_id now t r
      by_error row (some x) found e k = inl (subst_some Refused k (refl, untouched))
      by_error row none found e k =
          by_plan row (find_plan row.plan_id t) found (terminal_error-unused row now e) refl k

      by_token :
          (c : Option ActivationCode)
          → find_token token t ≡ c
          → redeem_found telegram_id now c t ≡ some r
          → RedeemVerdict token telegram_id now t r
      by_token none found k = inl (subst_some Refused k (refl, untouched))
      by_token (some row) found k = by_error row (terminal_error (some row) now) found refl k

  -- A redemption is refused, with any error, and leaves subscriptions, codes and audit rows alone; or
  -- its code was unused, and it is done: the code is marked used for the redeemer, who is the user
  -- with that Telegram id, registered before or added with the next id, and no other user changes;
  -- the redeemer's one active subscription is extended, with one audit row.
  pub redeem_token-Verdict :
      RedeemVerdict token telegram_id now t (redeem_token token telegram_id now t)
  unfolding redeem_token
  redeem_token-Verdict =
      elim (Bool-cases (is_empty token || not (is_valid_telegram_id telegram_id))) [
        | inl bad ↦ rw bad (inl (refl, untouched))
        | inr good ↦ rw good (
            transaction_cases (RedeemVerdict token telegram_id now t) (redeem_refused db_error)
              (λ s. redeem_found telegram_id now (find_token token s) s) t (inl (refl, untouched))
              redeem_found-Verdict)
      ]
