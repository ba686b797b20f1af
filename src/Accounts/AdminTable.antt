-- ===== src/Accounts/AdminTable.antt =====
-- The table of admins that src/runtime/store.py keeps, over any run of additions and removals.
use tele_group.Base.{
  ℕ, ◌≤◌, ◌≡◌, refl, sym, ap, ◌∙◌, inl, inr, Bool, false, Option, none, some, List, [], ◌∷◌, ◌++◌,
  arith, leb, ◌==◌, Bool-cases, delete_where, exists, if_cases, update_where, All, exists-append,
  exists-delete_where, exists-update_where, count_where-delete_where, subst, All-delete_where,
  count_where-update_where, is_some, All-update_where, All-append, ==→≡, count_where-snoc,
}
use tele_group.Accounts.Rows.{AccountAdmin, Db, ManagedAccount, account_by_id}
use tele_group.Accounts.Admins.{
  add_account_admin, AdminRequest, admin_count, remove_account_admin, fill_username, is_admin_row,
  max_account_admins, add_to_account, is_account_admin, owner_is, clean_username, Added,
  add_to_found, new_row,
}
use tele_group.Text.{Text}

-- No pair of an account and a user stands in two rows.
abbrev pub IsDistinct : List AccountAdmin → Type 0
IsDistinct [] = Unit
IsDistinct (r ∷ rs) = (exists (is_admin_row r.account_id r.telegram_id) rs ≡ false) × IsDistinct rs

pub record IsValid (d : Db) : Type 0 where
  pub distinct : IsDistinct d.admins
  pub bounded : (account : ℕ) → admin_count account d ≤ max_account_admins
  pub positive : All (λ r. 1 ≤ r.telegram_id) d.admins

pub data AdminCommand : Type 0 where
  add : AdminRequest → AdminCommand
  remove : ℕ → ℕ → AdminCommand

abbrev pub obey : AdminCommand → Db → Db
obey (add q) d = (add_account_admin q d).1
obey (remove account_id telegram_id) d = (remove_account_admin account_id telegram_id d).1

unfoldable pub obey_all : List AdminCommand → Db → Db
obey_all [] d = d
obey_all (c ∷ cs) d = obey_all cs (obey c d)

IsDistinct-fill_username :
    (name : Option Text) (r : AccountAdmin) (rs : List AccountAdmin)
    → IsDistinct (r ∷ rs)
    → IsDistinct (fill_username name r ∷ rs)
IsDistinct-fill_username none r rs h = h
IsDistinct-fill_username (some n) r rs h = h

fill_username-is_admin_row :
    (name : Option Text) (a t : ℕ) (r : AccountAdmin)
    → is_admin_row a t (fill_username name r) ≡ is_admin_row a t r
fill_username-is_admin_row none a t r = refl
fill_username-is_admin_row (some n) a t r = refl

fill_username-account :
    (name : Option Text) (a : ℕ) (r : AccountAdmin)
    → ((fill_username name r).account_id == a) ≡ (r.account_id == a)
fill_username-account none a r = refl
fill_username-account (some n) a r = refl

IsDistinct-update_where :
    (p : AccountAdmin → Bool) (name : Option Text) (rs : List AccountAdmin)
    → IsDistinct rs
    → IsDistinct (update_where p (fill_username name) rs)
IsDistinct-update_where p name [] h = tt
IsDistinct-update_where p name (r ∷ rs) h =
    let below : IsDistinct (r ∷ update_where p (fill_username name) rs) = (
      exists-update_where (is_admin_row r.account_id r.telegram_id) p (fill_username name) rs
            (fill_username-is_admin_row name r.account_id r.telegram_id)
          ∙ h.0,
      IsDistinct-update_where p name rs h.1,
    ) in
    if_cases (λ x. IsDistinct (x ∷ update_where p (fill_username name) rs)) (p r)
      (λ _. IsDistinct-fill_username name r (update_where p (fill_username name) rs) below)
      (λ _. below)

IsDistinct-delete_where :
    (p : AccountAdmin → Bool) (rs : List AccountAdmin)
    → IsDistinct rs
    → IsDistinct (delete_where p rs)
IsDistinct-delete_where p [] h = tt
IsDistinct-delete_where p (r ∷ rs) h =
    if_cases IsDistinct (p r) (λ _. IsDistinct-delete_where p rs h.1)
      (λ _. (
        exists-delete_where (is_admin_row r.account_id r.telegram_id) p rs h.0,
        IsDistinct-delete_where p rs h.1,
      ))

IsDistinct-append :
    (rs : List AccountAdmin) (r : AccountAdmin)
    → IsDistinct rs
    → exists (is_admin_row r.account_id r.telegram_id) rs ≡ false
    → IsDistinct (rs ++ r ∷ [])
IsDistinct-append [] r h fresh = (refl, tt)
IsDistinct-append (s ∷ rs) r h fresh = (
  ground (arith, exists-append (is_admin_row s.account_id s.telegram_id) rs (r ∷ []), h.0),
  IsDistinct-append rs r h.1 (ground arith),
)

abbrev HasPositiveId : AccountAdmin → Type 0
HasPositiveId r = 1 ≤ r.telegram_id

fill_username-HasPositiveId :
    (name : Option Text) (r : AccountAdmin) → HasPositiveId r → HasPositiveId (fill_username name r)
fill_username-HasPositiveId none r h = h
fill_username-HasPositiveId (some n) r h = h

module _ (q : AdminRequest) (d : Db) (v : IsValid d) (h : 1 ≤ q.telegram_id) where
  add_to_account-IsValid : (a : ManagedAccount) → IsValid (add_to_account q a d).1
  unfolding add_to_account is_account_admin
  add_to_account-IsValid a =
      if_cases (λ (r : Added × Db). IsValid r.1) (owner_is q.telegram_id a d) (λ _. v)
        (λ _.
          if_cases (λ (r : Added × Db). IsValid r.1)
            (exists (is_admin_row q.account_id q.telegram_id) d.admins)
            (λ _. record {
              distinct = IsDistinct-update_where _ (clean_username q.username) d.admins v.distinct;
              bounded = λ account.
                  subst (λ n. n ≤ max_account_admins)
                    (sym (
                      count_where-update_where (λ r. r.account_id == account) _ _ d.admins
                        (fill_username-account (clean_username q.username) account)))
                    (v.bounded account);
              positive =
                  All-update_where HasPositiveId (is_admin_row q.account_id q.telegram_id)
                    (fill_username (clean_username q.username)) d.admins
                    (fill_username-HasPositiveId (clean_username q.username)) v.positive;
            })
            (λ fresh.
              if_cases (λ (r : Added × Db). IsValid r.1)
                (leb max_account_admins (admin_count q.account_id d)) (λ _. v)
                (λ room. record {
                  distinct = IsDistinct-append d.admins _ v.distinct fresh;
                  bounded = λ account. elim (Bool-cases (q.account_id == account)) [
                    | inl same ↦ ground (
                      arith,
                      ap (λ x. admin_count x d) (==→≡ q.account_id account same),
                      count_where-snoc (λ r. r.account_id == account) d.admins (new_row q),
                    )
                    | inr other ↦ ground (
                      arith,
                      v.bounded account,
                      count_where-snoc (λ r. r.account_id == account) d.admins (new_row q),
                    )
                  ];
                  positive = All-append HasPositiveId d.admins v.positive h;
                })))

add_to_found-IsValid :
    (q : AdminRequest) (d : Db)
    → IsValid d
    → 1 ≤ q.telegram_id
    → (found : Option ManagedAccount) → IsValid (add_to_found q found d).1
unfolding add_to_found
add_to_found-IsValid q d v h none = v
add_to_found-IsValid q d v h (some a) =
    if_cases (λ (r : Added × Db). IsValid r.1) (is_some a.deleted_at) (λ _. v)
      (λ _. add_to_account-IsValid q d v h a)

add_account_admin-IsValid :
    (q : AdminRequest) (d : Db) → IsValid d → IsValid (add_account_admin q d).1
unfolding add_account_admin
add_account_admin-IsValid q d v =
    if_cases (λ (r : Added × Db). IsValid r.1) (q.telegram_id == 0) (λ _. v)
      (λ positive. add_to_found-IsValid q d v (ground arith) (account_by_id q.account_id d))

remove_account_admin-IsValid :
    (account_id telegram_id : ℕ) (d : Db)
    → IsValid d
    → IsValid (remove_account_admin account_id telegram_id d).1
unfolding remove_account_admin
remove_account_admin-IsValid account_id telegram_id d v =
    if_cases (λ (r : Bool × Db). IsValid r.1) (is_account_admin account_id telegram_id d)
      (λ _. record {
        distinct =
            IsDistinct-delete_where (is_admin_row account_id telegram_id) d.admins v.distinct;
        bounded = λ account. omega (
          arith,
          v.bounded account,
          count_where-delete_where (λ r. r.account_id == account)
              (is_admin_row account_id telegram_id) d.admins,
        );
        positive =
            All-delete_where HasPositiveId (is_admin_row account_id telegram_id) d.admins
              v.positive;
      })
      (λ _. v)

-- Over any run of additions and removals that starts from a table with the three properties, no
-- account has more than 20 admins, no pair of an account and a user stands twice, and every admin
-- has a positive Telegram id.
pub obey_all-IsValid : (cs : List AdminCommand) (d : Db) → IsValid d → IsValid (obey_all cs d)
unfolding obey_all
obey_all-IsValid [] d v = v
obey_all-IsValid (add q ∷ cs) d v =
    obey_all-IsValid cs (add_account_admin q d).1 (add_account_admin-IsValid q d v)
obey_all-IsValid (remove a t ∷ cs) d v =
    obey_all-IsValid cs (remove_account_admin a t d).1 (remove_account_admin-IsValid a t d v)
