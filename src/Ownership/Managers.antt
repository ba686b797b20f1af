-- ===== src/Ownership/Managers.antt =====
-- What adding and removing a manager in src/database.py changes for the accounts of the owner.
use tele_group.Base.{
  ℕ, ◌≡◌, refl, ◌∙◌, inl, inr, Bool, true, false, some, List, [], ◌∷◌, arith, ◌==◌, Bool-cases,
  exists, first, delete_where, exists-snoc, ==_refl, ap, if_cases, ◌&&◌, ◌||◌, subst, sym,
}
use tele_group.Grants.Tables.{User}
use tele_group.Accounts.Rows.{Db, AccountManager, ManagedAccount, may_manage}
use tele_group.Ownership.Transfer.{internal_user_id, id_or_none}
use tele_group.Ownership.Managing.{
  is_manager_row, add_account_manager, remove_account_manager, ManagerResult,
}

exists-deleted :
    (p : AccountManager → Bool) (rows : List AccountManager)
    → exists p (delete_where p rows) ≡ false
exists-deleted p [] = refl
exists-deleted p (r ∷ rows) = ground (arith, exists-deleted p rows)

-- The user row of an owner who is known.
owner_row :
    (telegram_id owner_id : ℕ) (users : List User)
    → id_or_none (first (λ u. u.telegram_id == telegram_id) users) ≡ some owner_id
    → exists (λ u. u.id == owner_id) users ≡ true
owner_row telegram_id owner_id [] h = cc
owner_row telegram_id owner_id (u ∷ users) h = elim (Bool-cases (u.telegram_id == telegram_id)) [
  | inl here ↦ ground (arith, h, here)
  | inr other ↦ ground (arith, h, other, owner_row telegram_id owner_id users)
]

module _ (owner manager owner_id : ℕ) (d : Db)
    (known : internal_user_id owner d ≡ some owner_id) where
  abbrev is_theirs : AccountManager → Bool
  is_theirs = is_manager_row owner_id manager

  added_row :
      (owner == manager) ≡ false
      → exists is_theirs (add_account_manager owner manager d).1.managers ≡ true
  unfolding add_account_manager
  added_row other =
      rw (other, known)
        (elim (Bool-cases (exists is_theirs d.managers)) [
          | inl old ↦ rw old old
          | inr new ↦ rw new (
              exists-snoc is_theirs d.managers
                record { owner_user_id = owner_id; manager_telegram_id = manager }
              ∙ ground (arith, ==_refl owner_id, ==_refl manager))
        ])

  removed_row : exists is_theirs (remove_account_manager owner manager d).1.managers ≡ false
  unfolding remove_account_manager
  removed_row = rw known (elim (Bool-cases (exists is_theirs d.managers)) [
    | inl old ↦ rw old (exists-deleted is_theirs d.managers)
    | inr new ↦ rw new new
  ])

  added_users : (add_account_manager owner manager d).1.users ≡ d.users
  unfolding add_account_manager
  added_users =
      if_cases (λ (r : ManagerResult × Db). r.1.users ≡ d.users) (owner == manager) (λ _. refl)
        (λ _. rw known (
          if_cases (λ (r : ManagerResult × Db). r.1.users ≡ d.users) (exists is_theirs d.managers)
            (λ _. refl) (λ _. refl)))

  removed_users : (remove_account_manager owner manager d).1.users ≡ d.users
  unfolding remove_account_manager
  removed_users = rw known (
      if_cases (λ (r : Bool × Db). r.1.users ≡ d.users) (exists is_theirs d.managers) (λ _. refl)
        (λ _. refl))

  -- The right to manage what belongs to the user row `n`.
  abbrev managed : ℕ → List User → List AccountManager → Bool
  managed n users managers =
      exists (λ u. u.id == n && u.telegram_id == manager) users
      || (exists (λ u. u.id == n) users && exists (is_manager_row n manager) managers)

  exists_owner : exists (λ u. u.id == owner_id) d.users ≡ true
  unfolding internal_user_id
  exists_owner = owner_row owner owner_id d.users known

  managed_added :
      (owner == manager) ≡ false
      → managed owner_id
          (add_account_manager owner manager d).1.users
          (add_account_manager owner manager d).1.managers
        ≡ true
  managed_added other =
      ground (arith, added_row other, ap (exists (λ u. u.id == owner_id)) added_users, exists_owner)

  -- Someone else whom a known owner adds to the managers may then manage every account of the owner, and
  -- someone whom the owner removes may manage an account of the owner only by owning it.
  pub account_managers-may_manage :
      (owner == manager) ≡ false
      → (a : ManagedAccount) → a.user_id ≡ owner_id
      → (may_manage manager (add_account_manager owner manager d).1 a ≡ true)
        × (may_manage manager (remove_account_manager owner manager d).1 a
            ≡ exists (λ u. u.id == a.user_id && u.telegram_id == manager) d.users)
  account_managers-may_manage other a theirs = (
    subst
        (λ n.
          managed n (add_account_manager owner manager d).1.users
            (add_account_manager owner manager d).1.managers
          ≡ true)
        (sym theirs) (managed_added other),
    subst
        (λ n.
          managed n (remove_account_manager owner manager d).1.users
            (remove_account_manager owner manager d).1.managers
          ≡ exists (λ u. u.id == n && u.telegram_id == manager) d.users)
        (sym theirs)
        (ground (
          arith,
          removed_row,
          ap (exists (λ u. u.id == owner_id && u.telegram_id == manager)) removed_users,
        )),
  )
