-- ===== src/Accounts/AdminMembers.antt =====
-- Who is an admin after `add_account_admin` and `remove_account_admin` of src/runtime/store.py.
use tele_group.Base.{
  ℕ, ◌≡◌, refl, ◌∙◌, inl, inr, Bool, true, false, not, ◌&&◌, ◌||◌, Option, none, some, List, [],
  ◌∷◌, arith, leb, ◌==◌, Bool-cases, exists, delete_where, if_cases, is_some, exists-update_where,
  exists-snoc, select,
}
use tele_group.Accounts.Rows.{AccountAdmin, Db, ManagedAccount, account_by_id}
use tele_group.Accounts.Admins.{
  add_account_admin, Added, AdminRequest, remove_account_admin, add_to_account, add_to_found, added,
  is_account_admin, is_admin_row, exists_already, fill_username, missing, invalid, owner_is,
  is_owner, clean_username, max_account_admins, admin_count, full, new_row, list_account_admins,
}
use tele_group.Text.{Text}

fill_username-is_admin_row :
    (name : Option Text) (a t : ℕ) (r : AccountAdmin)
    → is_admin_row a t (fill_username name r) ≡ is_admin_row a t r
fill_username-is_admin_row none a t r = refl
fill_username-is_admin_row (some n) a t r = refl

abbrev pub is_in : Added → Bool
is_in added = true
is_in exists_already = true
is_in _ = false

module _ (a t b u : ℕ) (rs : List AccountAdmin) where
  same_key : (a == b && t == u) ≡ true → exists (is_admin_row a t) rs ≡ exists (is_admin_row b u) rs
  same_key e = at (ground (arith, e)) (ground (arith, e))
    where
      at : a ≡ b → t ≡ u → exists (is_admin_row a t) rs ≡ exists (is_admin_row b u) rs
      at ab tu = rw (ab, tu) refl

  found_already :
      exists (is_admin_row b u) rs ≡ true
      → exists (is_admin_row a t) rs ≡ (exists (is_admin_row a t) rs || (a == b && t == u && true))
  found_already there = elim (Bool-cases (a == b && t == u)) [
    | inl same ↦ ground (arith, same_key same)
    | inr other ↦ ground arith
  ]

  not_found :
      exists (is_admin_row b u) rs ≡ false
      → exists (is_admin_row a t) rs ≡ (exists (is_admin_row a t) rs && not (a == b && t == u))
  not_found absent = elim (Bool-cases (a == b && t == u)) [
    | inl same ↦ ground (arith, same_key same)
    | inr other ↦ ground arith
  ]

module _ (q : AdminRequest) (d : Db) (a t : ℕ) where
  abbrev HasMembers : Added × Db → Type 0
  HasMembers r =
      is_account_admin a t r.1
      ≡ (is_account_admin a t d || (a == q.account_id && t == q.telegram_id && is_in r.0))

  not_in : (r : Added) → is_in r ≡ false → HasMembers (r, d)
  unfolding is_account_admin
  not_in r h = ground (arith, h)

  add_to_account-members : (m : ManagedAccount) → HasMembers (add_to_account q m d)
  unfolding add_to_account is_account_admin
  add_to_account-members m =
      if_cases HasMembers (owner_is q.telegram_id m d) (λ _. not_in is_owner refl)
        (λ _.
          if_cases HasMembers (exists (is_admin_row q.account_id q.telegram_id) d.admins)
            (λ there.
              exists-update_where (is_admin_row a t) (is_admin_row q.account_id q.telegram_id)
                (fill_username (clean_username q.username)) d.admins
                (fill_username-is_admin_row (clean_username q.username) a t)
              ∙ found_already a t q.account_id q.telegram_id d.admins there)
            (λ fresh.
              if_cases HasMembers (leb max_account_admins (admin_count q.account_id d))
                (λ _. not_in full refl)
                (λ room. ground (arith, exists-snoc (is_admin_row a t) d.admins (new_row q)))))

  add_to_found-members : (found : Option ManagedAccount) → HasMembers (add_to_found q found d)
  unfolding add_to_found
  add_to_found-members none = not_in missing refl
  add_to_found-members (some m) =
      if_cases HasMembers (is_some m.deleted_at) (λ _. not_in missing refl)
        (λ _. add_to_account-members m)

-- After an addition the admins are those of before, and the user that was asked for if the answer
-- is that the user was added or is an admin already.
pub add_account_admin-members :
    (q : AdminRequest) (d : Db) (a t : ℕ)
    → is_account_admin a t (add_account_admin q d).1 ≡ (
        is_account_admin a t d
        || (a == q.account_id && t == q.telegram_id && is_in (add_account_admin q d).0))
unfolding add_account_admin
add_account_admin-members q d a t =
    if_cases (HasMembers q d a t) (q.telegram_id == 0) (λ _. not_in q d a t invalid refl)
      (λ _. add_to_found-members q d a t (account_by_id q.account_id d))

exists-delete_where-row :
    (a t b u : ℕ) (rs : List AccountAdmin)
    → exists (is_admin_row a t) (delete_where (is_admin_row b u) rs)
      ≡ (exists (is_admin_row a t) rs && not (a == b && t == u))
exists-delete_where-row a t b u [] = refl
exists-delete_where-row a t b u (r ∷ rs) = ground (arith, exists-delete_where-row a t b u rs)

removed_members :
    (b u : ℕ) (d : Db) (a t : ℕ)
    → (is_account_admin a t (remove_account_admin b u d).1
        ≡ (is_account_admin a t d && not (a == b && t == u)))
      × ((remove_account_admin b u d).0 ≡ is_account_admin b u d)
unfolding remove_account_admin is_account_admin
removed_members b u d a t = elim (Bool-cases (exists (is_admin_row b u) d.admins)) [
  | inl there ↦ rw there (exists-delete_where-row a t b u d.admins, refl)
  | inr absent ↦ rw absent (not_found a t b u d.admins absent, refl)
]

exists-select :
    (a t : ℕ) (rs : List AccountAdmin)
    → exists (λ r. r.telegram_id == t) (select (λ r. r.account_id == a) rs)
      ≡ exists (is_admin_row a t) rs
exists-select a t [] = refl
exists-select a t (r ∷ rs) = ground (arith, exists-select a t rs)

listed_members :
    (a t : ℕ) (d : Db)
    → exists (λ r. r.telegram_id == t) (list_account_admins a d) ≡ is_account_admin a t d
unfolding list_account_admins is_account_admin
listed_members a t d = exists-select a t d.admins

-- After a removal the admins are those of before without the user that was asked for, the answer says
-- whether the user was an admin, and the list that is shown has exactly the users who may command
-- the account as admins.
pub remove_account_admin-members :
    (b u : ℕ) (d : Db) (a t : ℕ)
    → (is_account_admin a t (remove_account_admin b u d).1
        ≡ (is_account_admin a t d && not (a == b && t == u)))
      × ((remove_account_admin b u d).0 ≡ is_account_admin b u d)
      × (exists (λ r. r.telegram_id == t) (list_account_admins a (remove_account_admin b u d).1)
          ≡ is_account_admin a t (remove_account_admin b u d).1)
remove_account_admin-members b u d a t =
    let gone = removed_members b u d a t in
    (gone.0, gone.1, listed_members a t (remove_account_admin b u d).1)
