-- ===== src/Ownership/Access.antt =====
-- Who may change an account in src/database.py, and who no longer may.
use tele_group.Base.{
  ℕ, ◌≡◌, refl, inl, inr, Bool, true, not, Option, List, [], ◌∷◌, arith, ◌==◌, Bool-cases, select,
  update_where, false, some, count_where, if_cases, ◌&&◌, ◌≤◌, exists, ap, ◌∙◌,
}
use tele_group.Text.{Text}
use tele_group.Accounts.Rows.{Db, ManagedAccount, user_owns, enqueue_signal}
use tele_group.Accounts.Switching.{
  toggle_account_status, toggle_code_monitor, switch_active, set_active, switch_monitor,
  live_account, set_monitor,
}
use tele_group.Ownership.Commands.{
  AccountCommand, toggle_status, toggle_monitor, delete, reassign, transfer, obey_account,
  account_of, may_ask, others, Respects,
}
use tele_group.Ownership.Target.{Unicode}
use tele_group.Ownership.Transfer.{
  transfer_managed_account, user_is_owner, TransferResult, is_owned_by, internal_user_id, give_to,
  ok,
}
use tele_group.Ownership.Managing.{
  delete_managed_account, reassign_proxy, proxy_for, set_proxy, ProxyResult, is_live_row,
  set_deleted,
}
use mathlib.Core.Option.{none}
use tele_group.Ownership.Verdict.{transfer_managed_account-Judged, Judged}

-- An update of rows of one account leaves the others.
select-others :
    (account_id : ℕ) (p : ManagedAccount → Bool) (f : ManagedAccount → ManagedAccount)
    (rows : List ManagedAccount)
    → ((a : ManagedAccount) → p a ≡ true → (a.id == account_id) ≡ true)
    → ((a : ManagedAccount) → (f a).id ≡ a.id)
    → select (λ a. not (a.id == account_id)) (update_where p f rows)
      ≡ select (λ a. not (a.id == account_id)) rows
select-others account_id p f [] here keeps = refl
select-others account_id p f (a ∷ rows) here keeps = elim (Bool-cases (p a)) [
  | inl e ↦ ground (arith, e, here a e, keeps a, select-others account_id p f rows here keeps)
  | inr e ↦ ground (arith, e, select-others account_id p f rows here keeps)
]

kept : (account_id : ℕ) (allowed : Bool) (d : Db) → Respects account_id allowed d d
kept account_id allowed d = (inr refl, refl)

-- An update of rows of the account, by someone with the right.
updated :
    (account_id : ℕ) (allowed : Bool) (d : Db) (p : ManagedAccount → Bool)
    (f : ManagedAccount → ManagedAccount)
    → allowed ≡ true
    → ((a : ManagedAccount) → p a ≡ true → (a.id == account_id) ≡ true)
    → ((a : ManagedAccount) → (f a).id ≡ a.id)
    → Respects account_id allowed d (record d { accounts = update_where p f d.accounts })
updated account_id allowed d p f right here keeps =
    (inl right, select-others account_id p f d.accounts here keeps)

module _ (k : Unicode) (d : Db) where
  toggle_status-Respects :
      (account_id actor : ℕ)
      → Respects account_id
          (user_owns account_id actor d)
          d
          (toggle_account_status account_id actor d).1
  unfolding toggle_account_status switch_active enqueue_signal
  toggle_status-Respects account_id actor =
      if_cases (λ (r : Option Bool × Db). Respects account_id (user_owns account_id actor d) d r.1)
        (user_owns account_id actor d) (λ right. go (live_account account_id d) right)
        (λ _. kept account_id (user_owns account_id actor d) d)
    where
      same_id : (v : Bool) (b : ManagedAccount) → (set_active v b).id ≡ b.id
      same_id true b = refl
      same_id false b = refl

      go :
          (o : Option ManagedAccount)
          → user_owns account_id actor d ≡ true
          → Respects account_id (user_owns account_id actor d) d (switch_active account_id o d).1
      go none right = kept account_id (user_owns account_id actor d) d
      go (some a) right =
          updated account_id (user_owns account_id actor d) d (λ b. b.id == account_id)
            (set_active (not a.is_active)) right (λ b e. e) (same_id (not a.is_active))

  toggle_monitor-Respects :
      (account_id actor : ℕ)
      → Respects account_id
          (user_owns account_id actor d)
          d
          (toggle_code_monitor account_id actor d).1
  unfolding toggle_code_monitor switch_monitor enqueue_signal
  toggle_monitor-Respects account_id actor =
      if_cases (λ (r : Option Bool × Db). Respects account_id (user_owns account_id actor d) d r.1)
        (user_owns account_id actor d) (λ right. go (live_account account_id d) right)
        (λ _. kept account_id (user_owns account_id actor d) d)
    where
      go :
          (o : Option ManagedAccount)
          → user_owns account_id actor d ≡ true
          → Respects account_id (user_owns account_id actor d) d (switch_monitor account_id o d).1
      go none right = kept account_id (user_owns account_id actor d) d
      go (some a) right =
          updated account_id (user_owns account_id actor d) d (λ b. b.id == account_id)
            (set_monitor (not a.code_monitor_enabled)) right (λ b e. e) (λ b. refl)

  delete-Respects :
      (account_id actor now : ℕ)
      → Respects account_id
          (user_owns account_id actor d)
          d
          (delete_managed_account account_id actor now d).1
  unfolding delete_managed_account enqueue_signal
  delete-Respects account_id actor now =
      if_cases (λ (r : Bool × Db). Respects account_id (user_owns account_id actor d) d r.1)
        (user_owns account_id actor d && exists (is_live_row account_id) d.accounts)
        (λ both.
          updated account_id (user_owns account_id actor d) d (is_live_row account_id)
            (set_deleted now) (ground (arith, both)) (λ b e. ground (arith, e)) (λ b. refl))
        (λ _. kept account_id (user_owns account_id actor d) d)

  reassign-Respects :
      (account_id actor : ℕ) (drawn : Option ℕ)
      → Respects account_id
          (user_owns account_id actor d)
          d
          (reassign_proxy account_id actor drawn d).1
  unfolding reassign_proxy enqueue_signal
  reassign-Respects account_id actor drawn =
      if_cases (λ (r : ProxyResult × Db). Respects account_id (user_owns account_id actor d) d r.1)
        (user_owns account_id actor d) (λ right. go drawn (live_account account_id d) right)
        (λ _. kept account_id (user_owns account_id actor d) d)
    where
      go :
          (drawn : Option ℕ) (o : Option ManagedAccount)
          → user_owns account_id actor d ≡ true
          → Respects account_id (user_owns account_id actor d) d (proxy_for account_id drawn o d).1
      go drawn none right = kept account_id (user_owns account_id actor d) d
      go none (some a) right = kept account_id (user_owns account_id actor d) d
      go (some proxy_id) (some a) right =
          updated account_id (user_owns account_id actor d) d (λ b. b.id == account_id)
            (set_proxy proxy_id) right (λ b e. e) (λ b. refl)

  Judged-others :
      (account_id actor : ℕ) (r : TransferResult) (d' : Db)
      → Judged account_id actor d r d'
      → others account_id d' ≡ others account_id d
  Judged-others account_id actor ok d' m =
      ap (select (λ a. not (a.id == account_id))) m.moved
      ∙ select-others account_id (is_owned_by account_id (internal_user_id actor d))
          (give_to m.recipient.id) d.accounts (λ a e. ground (arith, e)) (λ a. refl)
  Judged-others account_id actor _ d' same = ap (select (λ a. not (a.id == account_id))) same

  transfer-refused :
      (account_id actor : ℕ) (recipient : Text) (fresh : ℕ)
      → user_is_owner account_id actor d ≡ false
      → (transfer_managed_account k account_id actor recipient fresh d).1.accounts ≡ d.accounts
  unfolding transfer_managed_account
  transfer-refused account_id actor recipient fresh no_right = rw no_right refl

  transfer-Respects :
      (account_id actor : ℕ) (recipient : Text) (fresh : ℕ)
      → count_where (λ a. a.id == account_id) d.accounts ≤ 1
      → Respects account_id
          (user_is_owner account_id actor d)
          d
          (transfer_managed_account k account_id actor recipient fresh d).1
  transfer-Respects account_id actor recipient fresh one = (
    elim (Bool-cases (user_is_owner account_id actor d)) [
      | inl right ↦ inl right
      | inr no_right ↦ inr (transfer-refused account_id actor recipient fresh no_right)
    ],
    Judged-others account_id actor (transfer_managed_account k account_id actor recipient fresh d).0
        (transfer_managed_account k account_id actor recipient fresh d).1
        (transfer_managed_account-Judged k account_id actor recipient fresh d one),
  )

  -- The same with the tests that the code makes.
  pub obey_account-Respects :
      (c : AccountCommand)
      → count_where (λ a. a.id == account_of c) d.accounts ≤ 1
      → Respects (account_of c) (may_ask c d) d (obey_account k c d)
  unfolding obey_account
  obey_account-Respects (toggle_status account_id actor) one =
      toggle_status-Respects account_id actor
  obey_account-Respects (toggle_monitor account_id actor) one =
      toggle_monitor-Respects account_id actor
  obey_account-Respects (delete account_id actor now) one = delete-Respects account_id actor now
  obey_account-Respects (reassign account_id actor drawn) one =
      reassign-Respects account_id actor drawn
  obey_account-Respects (transfer account_id actor recipient fresh) one =
      transfer-Respects account_id actor recipient fresh one
