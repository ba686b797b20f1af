-- ===== src/Ownership/Rights.antt =====
-- The rights that the operations of src/database.py on an account ask for, as rows of the tables.
use tele_group.Base.{
  ℕ, ◌≡◌, refl, sym, ◌⊎◌, inl, inr, Bool, true, ◌&&◌, Option, none, some, List, [], ◌∷◌, arith,
  ◌==◌, Bool-cases, In, exists, first, is_none, ==→≡, first-eq_some, count_where, ◌≤◌,
}
use tele_group.Grants.Tables.{User}
use tele_group.Accounts.Rows.{
  Db, ManagedAccount, AccountManager, not_deleted, user_owns, may_manage,
}
use tele_group.Ownership.Target.{user_by_telegram, Unicode}
use tele_group.Ownership.Transfer.{internal_user_id, id_or_none, user_is_owner, is_owned_by}
use tele_group.Ownership.Commands.{
  AccountCommand, may_ask, toggle_status, account_of, toggle_monitor, delete, obey_account,
  reassign, others, transfer, Respects,
}
use tele_group.Ownership.Access.{obey_account-Respects}

module _ {A : Type 0} where
  exists-In : (p : A → Bool) (xs : List A) → exists p xs ≡ true → (x : A) × In x xs × (p x ≡ true)
  exists-In p [] h = cc
  exists-In p (x ∷ xs) h = elim (Bool-cases (p x)) [
    | inl e ↦ (x, inl refl, e)
    | inr e ↦ (let (y, there, fits) = exists-In p xs (ground (arith, h, e)) in (y, inr there, fits))
  ]

  first-In : (p : A → Bool) (xs : List A) {x : A} → first p xs ≡ some x → In x xs
  first-In p [] h = cc
  first-In p (y ∷ xs) {x} h = elim (Bool-cases (p y)) [
    | inl e ↦ inl (ground (arith, h, e))
    | inr e ↦ inr (first-In p xs (rw e at h))
  ]

is_none→≡ : (o : Option ℕ) → is_none o ≡ true → o ≡ none
is_none→≡ none h = refl
is_none→≡ (some n) h = cc

-- The actor is the user whom the account belongs to.
abbrev pub Owns : ℕ → ManagedAccount → Db → Type 0
Owns actor a d = (u : User) × In u d.users × (u.id ≡ a.user_id) × (u.telegram_id ≡ actor)

-- The user whom the account belongs to has let the actor in.
abbrev pub Manages : ℕ → ManagedAccount → Db → Type 0
Manages actor a d =
    (r : AccountManager) × In r d.managers
    × (r.owner_user_id ≡ a.user_id)
    × (r.manager_telegram_id ≡ actor)

-- There is such an account that is not deleted.
abbrev pub Live : ℕ → (ManagedAccount → Type 0) → Db → Type 0
Live account_id P d =
    (a : ManagedAccount) × In a d.accounts × (a.id ≡ account_id) × (a.deleted_at ≡ none) × P a

user_owns-Live :
    (account_id actor : ℕ) (d : Db)
    → user_owns account_id actor d ≡ true
    → Live account_id (λ a. Owns actor a d ⊎ Manages actor a d) d
unfolding user_owns
user_owns-Live account_id actor d h =
    let (a, there, fits) =
      exists-In (λ a. a.id == account_id && not_deleted a && may_manage actor d a) d.accounts h in
    (
      a,
      there,
      ==→≡ a.id account_id (ground (arith, fits)),
      is_none→≡ a.deleted_at (ground (arith, fits)),
      right a (ground (arith, fits)),
    )
  where
    owns_it :
        (a : ManagedAccount)
        → exists (λ u. u.id == a.user_id && u.telegram_id == actor) d.users ≡ true
        → Owns actor a d
    owns_it a e =
        let (u, there, fits) =
          exists-In (λ u. u.id == a.user_id && u.telegram_id == actor) d.users e in
        (
          u,
          there,
          ==→≡ u.id a.user_id (ground (arith, fits)),
          ==→≡ u.telegram_id actor (ground (arith, fits)),
        )

    manages_it :
        (a : ManagedAccount)
        → exists (λ m. m.owner_user_id == a.user_id && m.manager_telegram_id == actor) d.managers
          ≡ true
        → Manages actor a d
    manages_it a e =
        let (r, there, fits) =
          exists-In (λ m. m.owner_user_id == a.user_id && m.manager_telegram_id == actor) d.managers
            e in
        (
          r,
          there,
          ==→≡ r.owner_user_id a.user_id (ground (arith, fits)),
          ==→≡ r.manager_telegram_id actor (ground (arith, fits)),
        )

    right : (a : ManagedAccount) → may_manage actor d a ≡ true → Owns actor a d ⊎ Manages actor a d
    right a e =
        elim (Bool-cases (exists (λ u. u.id == a.user_id && u.telegram_id == actor) d.users)) [
          | inl own ↦ inl (owns_it a own)
          | inr foreign ↦ inr (manages_it a (ground (arith, e, foreign)))
        ]

user_is_owner-Live :
    (account_id actor : ℕ) (d : Db)
    → user_is_owner account_id actor d ≡ true
    → Live account_id (λ a. Owns actor a d) d
unfolding user_is_owner internal_user_id
user_is_owner-Live account_id actor d h = go (user_by_telegram actor d) refl h
  where
    go :
        (o : Option User)
        → user_by_telegram actor d ≡ o
        → exists (is_owned_by account_id (id_or_none o)) d.accounts ≡ true
        → Live account_id (λ a. Owns actor a d) d
    go none e k =
        let (a, there, fits) = exists-In (is_owned_by account_id none) d.accounts k in
        absurd (ground (arith, fits))
    go (some u) e k =
        let (a, there, fits) = exists-In (is_owned_by account_id (some u.id)) d.accounts k in
        (
          a,
          there,
          ==→≡ a.id account_id (ground (arith, fits)),
          is_none→≡ a.deleted_at (ground (arith, fits)),
          (
            u,
            first-In (λ v. v.telegram_id == actor) d.users e,
            sym (==→≡ a.user_id u.id (ground (arith, fits))),
            ==→≡ u.telegram_id actor (first-eq_some (λ v. v.telegram_id == actor) d.users e),
          ),
        )

-- The right that a command needs.
abbrev pub MayAsk : AccountCommand → Db → Type 0
MayAsk (toggle_status account_id actor) d =
    Live account_id (λ a. Owns actor a d ⊎ Manages actor a d) d
MayAsk (toggle_monitor account_id actor) d =
    Live account_id (λ a. Owns actor a d ⊎ Manages actor a d) d
MayAsk (delete account_id actor now) d = Live account_id (λ a. Owns actor a d ⊎ Manages actor a d) d
MayAsk (reassign account_id actor drawn) d =
    Live account_id (λ a. Owns actor a d ⊎ Manages actor a d) d
MayAsk (transfer account_id actor recipient fresh) d = Live account_id (λ a. Owns actor a d) d

may_ask-MayAsk : (c : AccountCommand) (d : Db) → may_ask c d ≡ true → MayAsk c d
may_ask-MayAsk (toggle_status account_id actor) d h = user_owns-Live account_id actor d h
may_ask-MayAsk (toggle_monitor account_id actor) d h = user_owns-Live account_id actor d h
may_ask-MayAsk (delete account_id actor now) d h = user_owns-Live account_id actor d h
may_ask-MayAsk (reassign account_id actor drawn) d h = user_owns-Live account_id actor d h
may_ask-MayAsk (transfer account_id actor recipient fresh) d h =
    user_is_owner-Live account_id actor d h

-- A command on an account changes no account unless the account is there and not deleted and the
-- person who asks for it is its owner or, but for a transfer, among the managers of the owner; and it
-- never changes another account than the one that it names. At most one row has the id of that
-- account.
pub obey_account-MayAsk :
    (k : Unicode) (d : Db) (c : AccountCommand)
    → count_where (λ a. a.id == account_of c) d.accounts ≤ 1
    → (MayAsk c d ⊎ ((obey_account k c d).accounts ≡ d.accounts))
      × (others (account_of c) (obey_account k c d) ≡ others (account_of c) d)
obey_account-MayAsk k d c one = go (obey_account-Respects k d c one)
  where
    go :
        Respects (account_of c) (may_ask c d) d (obey_account k c d)
        → (MayAsk c d ⊎ ((obey_account k c d).accounts ≡ d.accounts))
          × (others (account_of c) (obey_account k c d) ≡ others (account_of c) d)
    go (inl right, rest) = (inl (may_ask-MayAsk c d right), rest)
    go (inr same, rest) = (inr same, rest)
