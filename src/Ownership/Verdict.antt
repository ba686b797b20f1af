-- ===== src/Ownership/Verdict.antt =====
-- What a transfer of src/database.py does to the accounts.
use tele_group.Base.{
  ℕ, ◌+◌, ◌≤◌, ◌≡◌, refl, Bool, true, false, Option, none, some, List, [], ◌∷◌, arith, leb, ltb,
  ◌==◌, count_where, update_where, if_cases, exists, ◌++◌,
}
use tele_group.Grants.Tables.{User, Plan}
use tele_group.Grants.Apply.{max_telegram_id}
use tele_group.Accounts.Rows.{Db, ManagedAccount, enqueue_signal}
use tele_group.Ownership.Transfer.{
  TransferResult, ok, internal_user_id, is_owned_by, user_is_owner, is_live_of,
  details_subscription, account_count, plan_of_subscription, give_to, move_account, move_on_plan,
  move_to, transfer_managed_account, move_to_found, transfer_to, again,
}
use tele_group.Ownership.Target.{
  Unicode, get_or_create_user, Target, read_target, user_by_telegram, by_name, created,
  get_user_by_username, by_id, unreadable, no_target, found_or_created,
}
use tele_group.Text.{Text, strip}

count-give_to :
    (user_id : ℕ) (p : ManagedAccount → Bool) (rows : List ManagedAccount)
    → count_where (is_live_of user_id) (update_where p (give_to user_id) rows)
      ≤ count_where (is_live_of user_id) rows + count_where p rows
count-give_to user_id p [] = omega arith
count-give_to user_id p (a ∷ rows) = ground (arith, count-give_to user_id p rows)

count-is_owned_by :
    (account_id : ℕ) (owner : Option ℕ) (rows : List ManagedAccount)
    → count_where (is_owned_by account_id owner) rows ≤ count_where (λ a. a.id == account_id) rows
count-is_owned_by account_id owner [] = omega arith
count-is_owned_by account_id owner (a ∷ rows) =
    ground (arith, count-is_owned_by account_id owner rows)

module _ (account_id sender : ℕ) (d : Db) where
  abbrev owner : Option ℕ
  owner = internal_user_id sender d

  -- The account has gone from the sender, who owned it, to another user, whose latest subscription that
  -- is marked active is on a plan with room for it, and no other account has changed.
  pub record IsMoved (d' : Db) : Type 0 where
    pub owned : user_is_owner account_id sender d ≡ true
    pub recipient : User
    pub plan : Plan
    pub other : (recipient.telegram_id == sender) ≡ false
    pub subscribed : plan_of_subscription d (details_subscription recipient.id d) ≡ some plan
    pub moved :
        d'.accounts
        ≡ update_where
            (is_owned_by account_id (internal_user_id sender d))
            (give_to recipient.id)
            d.accounts
    pub has_room : account_count recipient.id d' ≤ plan.max_accounts

  abbrev pub Judged : TransferResult → Db → Type 0
  Judged ok d' = IsMoved d'
  Judged _ d' = d'.accounts ≡ d.accounts

  module _ (one : count_where (λ a. a.id == account_id) d.accounts ≤ 1)
      (owned : user_is_owner account_id sender d ≡ true) (users : List User) where
    abbrev with_users : Db
    with_users = record d { users = users }

    move_account-Judged :
        (recipient : User) (plan : Plan)
        → (recipient.telegram_id == sender) ≡ false
        → plan_of_subscription d (details_subscription recipient.id d) ≡ some plan
        → leb plan.max_accounts (account_count recipient.id d) ≡ false
        → Judged
            (move_account account_id owner recipient.id with_users).0
            (move_account account_id owner recipient.id with_users).1
    unfolding move_account enqueue_signal
    move_account-Judged recipient plan other subscribed room =
        if_cases (λ (r : TransferResult × Db). Judged r.0 r.1)
          (exists (is_owned_by account_id owner) d.accounts)
          (λ e. record {
            owned = owned;
            recipient = recipient;
            plan = plan;
            other = other;
            subscribed = subscribed;
            moved = refl;
            has_room = ground (
              arith,
              room,
              one,
              count-give_to recipient.id (is_owned_by account_id owner) d.accounts,
              count-is_owned_by account_id owner d.accounts,
            );
          })
          (λ _. refl)

    move_on_plan-Judged :
        (recipient : User) (o : Option Plan)
        → (recipient.telegram_id == sender) ≡ false
        → plan_of_subscription d (details_subscription recipient.id d) ≡ o
        → Judged
            (move_on_plan account_id owner recipient with_users o).0
            (move_on_plan account_id owner recipient with_users o).1
    unfolding move_on_plan
    move_on_plan-Judged recipient none other e = refl
    move_on_plan-Judged recipient (some plan) other e =
        if_cases (λ (r : TransferResult × Db). Judged r.0 r.1)
          (leb plan.max_accounts (account_count recipient.id d)) (λ _. refl)
          (λ room. move_account-Judged recipient plan other e room)

    move_to-Judged :
        (recipient : User)
        → Judged
            (move_to account_id sender owner recipient with_users).0
            (move_to account_id sender owner recipient with_users).1
    unfolding move_to details_subscription
    move_to-Judged recipient =
        if_cases (λ (r : TransferResult × Db). Judged r.0 r.1) (recipient.telegram_id == sender)
          (λ _. refl)
          (λ other.
            move_on_plan-Judged recipient
              (plan_of_subscription d (details_subscription recipient.id d)) other refl)

  module _ (one : count_where (λ a. a.id == account_id) d.accounts ≤ 1)
      (owned : user_is_owner account_id sender d ≡ true) (k : Unicode) (fresh : ℕ) where
    abbrev IsJudged : TransferResult × Db → Type 0
    IsJudged r = Judged r.0 r.1

    to_created :
        (target : ℕ) (o : Option User)
        → IsJudged (
            move_to account_id sender owner
              (found_or_created fresh target d o).0
              (found_or_created fresh target d o).1)
    to_created target none =
        move_to-Judged one owned (d.users ++ created fresh target ∷ []) (created fresh target)
    to_created target (some u) = move_to-Judged one owned d.users u

    to_found : (o : Option User) → IsJudged (move_to_found account_id sender owner o d)
    to_found none = refl
    to_found (some u) = move_to-Judged one owned d.users u

    transfer_to-Judged : (to : Target) → IsJudged (transfer_to k account_id sender owner fresh d to)
    unfolding transfer_to get_or_create_user
    transfer_to-Judged unreadable = refl
    transfer_to-Judged no_target = refl
    transfer_to-Judged (by_name s) = to_found (again d (get_user_by_username k s d))
    transfer_to-Judged (by_id target) =
        if_cases IsJudged (target == sender) (λ _. refl)
          (λ _.
            if_cases IsJudged (ltb max_telegram_id target) (λ _. refl)
              (λ _. to_created target (user_by_telegram target d)))

pub transfer_managed_account-Judged :
    (k : Unicode) (account_id sender : ℕ) (recipient_identifier : Text) (fresh : ℕ) (d : Db)
    → count_where (λ a. a.id == account_id) d.accounts ≤ 1
    → Judged account_id sender d
        (transfer_managed_account k account_id sender recipient_identifier fresh d).0
        (transfer_managed_account k account_id sender recipient_identifier fresh d).1
unfolding transfer_managed_account
transfer_managed_account-Judged k account_id sender recipient_identifier fresh d one =
    if_cases (λ (r : TransferResult × Db). Judged account_id sender d r.0 r.1)
      (user_is_owner account_id sender d)
      (λ owned.
        transfer_to-Judged account_id sender d one owned k fresh
          (read_target k (strip recipient_identifier)))
      (λ _. refl)
