-- ===== src/Supervisor/Invalid.antt =====
-- An account whose session is marked invalid in src/database.py is stopped by the next round of
-- src/runtime/supervisor.py.
use tele_group.Base.{
  ℕ, ◌≡◌, refl, ap, ◌∙◌, inl, inr, Bool, true, false, not, ◌&&◌, ◌||◌, Option, none, some, List, [],
  ◌∷◌, map, arith, ◌==◌, Bool-cases, exists, insert_desc, sort_desc, exists-append, first, select,
  if_cases, update_where,
}
use tele_group.Text.{Text}
use tele_group.Grants.Tables.{User, Subscription}
use tele_group.Grants.Apply.{latest, is_current_of}
use tele_group.Accounts.Rows.{Db, ManagedAccount, invalid, enqueue_signal}
use tele_group.Accounts.Gating.{accounts_that_should_run}
use tele_group.Accounts.Batches.{should_run, accounts_that_should_run-select}
use tele_group.Ownership.Managing.{is_live_row}
use tele_group.Supervisor.Candidates.{
  Candidate, may_run, with_rows, candidates_of, all_candidates, list_runtime_candidates, owns,
}
use tele_group.Supervisor.Reconcile.{Slot, Shard, desired_rows, id_of, is_id, leased_ids, reconcile}
use tele_group.Supervisor.Rounds.{has_slot}
use tele_group.Supervisor.Matching.{wanted, reconcile-has_slot}
use tele_group.Supervisor.Status.{mark_session_status, set_status}
use tele_group.Leases.Table.{active_lease_ids, ack_session_leases}

exists-insert_desc :
    {A : Type 0} (p : A → Bool) (f : A → ℕ) (x : A) (xs : List A)
    → exists p (insert_desc f x xs) ≡ (p x || exists p xs)
unfolding insert_desc
exists-insert_desc p f x [] = refl
exists-insert_desc p f x (y ∷ xs) = ground (arith, exists-insert_desc p f x xs)

exists-sort_desc :
    {A : Type 0} (p : A → Bool) (f : A → ℕ) (xs : List A) → exists p (sort_desc f xs) ≡ exists p xs
unfolding sort_desc
exists-sort_desc p f [] = refl
exists-sort_desc p f (x ∷ xs) =
    exists-insert_desc p f x (sort_desc f xs) ∙ ap (λ b. p x || b) (exists-sort_desc p f xs)

exists-select :
    {A : Type 0} (p q : A → Bool) (xs : List A)
    → exists p xs ≡ false
    → exists p (select q xs) ≡ false
exists-select p q [] h = refl
exists-select p q (x ∷ xs) h = ground (arith, h, exists-select p q xs)

module _ (a : ℕ) where
  abbrev is_of : Candidate → Bool
  is_of c = id_of c == a

  is_id-exists : (cs : List Candidate) → is_id (map id_of cs) a ≡ exists is_of cs
  is_id-exists [] = refl
  is_id-exists (c ∷ cs) = ap (λ b. id_of c == a || b) (is_id-exists cs)

  candidates_of-other :
      (decrypt : Text → Text) (now : ℕ) (d : Db) (r : ManagedAccount)
      → (r.id == a) ≡ false
      → exists is_of (candidates_of decrypt now d r) ≡ false
  unfolding candidates_of
  candidates_of-other decrypt now d r ne =
      go (first (λ u. u.id == r.user_id) d.users)
        (latest (select (is_current_of r.user_id now) d.subscriptions))
    where
      go :
          (u : Option User) (s : Option Subscription)
          → exists is_of (with_rows decrypt r u s) ≡ false
      go none none = refl
      go none (some s) = refl
      go (some u) none = refl
      go (some u) (some s) = ground (arith, ne)

  all_candidates-other :
      (decrypt : Text → Text) (now : ℕ) (d : Db) (rows : List ManagedAccount)
      → exists (λ r. r.id == a) rows ≡ false
      → exists is_of (all_candidates decrypt now d rows) ≡ false
  unfolding all_candidates
  all_candidates-other decrypt now d [] h = refl
  all_candidates-other decrypt now d (r ∷ rows) h = ground (
    arith,
    exists-append is_of (candidates_of decrypt now d r) (all_candidates decrypt now d rows),
    candidates_of-other decrypt now d r (ground (arith, h)),
    all_candidates-other decrypt now d rows (ground (arith, h)),
  )

  list_runtime_candidates-other :
      (decrypt : Text → Text) (shard_id shard_count now : ℕ) (d : Db)
      → exists (λ r. r.id == a) (select (may_run shard_id shard_count) d.accounts) ≡ false
      → exists is_of (list_runtime_candidates decrypt shard_id shard_count now d) ≡ false
  unfolding list_runtime_candidates
  list_runtime_candidates-other decrypt shard_id shard_count now d h =
      if_cases (λ cs. exists is_of cs ≡ false) (shard_count == 0) (λ _. refl)
        (λ _.
          exists-sort_desc is_of (λ c. c.end_date)
            (all_candidates decrypt now d (select (may_run shard_id shard_count) d.accounts))
          ∙ all_candidates-other decrypt now d (select (may_run shard_id shard_count) d.accounts) h)

  desired_rows-other :
      (w : Shard) (leased : List ℕ) (now : ℕ) (d : Db)
      → exists (λ r. r.id == a) (select (may_run w.shard_id w.shard_count) d.accounts) ≡ false
      → is_id (map id_of (desired_rows w leased now d)) a ≡ false
  unfolding desired_rows
  desired_rows-other w leased now d h =
      is_id-exists (desired_rows w leased now d)
      ∙ exists-select is_of
          (λ c. not (is_id leased (id_of c)) && owns w.shard_id w.shard_count (id_of c))
          (accounts_that_should_run (λ (c : Candidate). c.account) w.plugins
            (list_runtime_candidates w.decrypt w.shard_id w.shard_count now d) d)
          (ap (exists is_of) (
              accounts_that_should_run-select (λ (c : Candidate). c.account) w.plugins d
                (list_runtime_candidates w.decrypt w.shard_id w.shard_count now d))
            ∙ exists-select is_of (λ c. should_run w.plugins d c.account)
                (list_runtime_candidates w.decrypt w.shard_id w.shard_count now d)
                (list_runtime_candidates-other w.decrypt w.shard_id w.shard_count now d h))

  -- No row of the account may run once the one that is not deleted is marked.
  marked-may_run :
      (shard_id shard_count : ℕ) (message : Option Text) (rows : List ManagedAccount)
      → exists
          (λ r. r.id == a)
          (select
            (may_run shard_id shard_count)
            (update_where (is_live_row a) (set_status invalid message) rows))
        ≡ false
  marked-may_run shard_id shard_count message [] = refl
  marked-may_run shard_id shard_count message (r ∷ rows) =
      ground (arith, marked-may_run shard_id shard_count message rows)

marked_accounts :
    (account_id : ℕ) (message : Option Text) (d : Db)
    → (mark_session_status account_id invalid message d).0 ≡ true
    → (mark_session_status account_id invalid message d).1.accounts
      ≡ update_where (is_live_row account_id) (set_status invalid message) d.accounts
unfolding mark_session_status enqueue_signal
marked_accounts account_id message d done =
    elim (Bool-cases (exists (is_live_row account_id) d.accounts)) [
      | inl there ↦ rw there refl
      | inr gone ↦ absurd (ground (arith, done, gone))
    ]

wanted-other :
    (w : Shard) (a now : ℕ) (d : Db)
    → exists (λ r. r.id == a) (select (may_run w.shard_id w.shard_count) d.accounts) ≡ false
    → is_id (map id_of (wanted w now d)) a ≡ false
unfolding active_lease_ids ack_session_leases
wanted-other w a now d h =
    desired_rows-other a w (leased_ids w (active_lease_ids now d).0) now
      (ack_session_leases (leased_ids w (active_lease_ids now d).0) (active_lease_ids now d).1) h

-- Once the session of an account is marked invalid, the next round of a worker that nothing disturbs
-- leaves the account without a client, whichever clients there were.
pub mark_session_status-has_slot :
    (w : Shard) (account_id now : ℕ) (message : Option Text) (slots : List Slot) (d : Db)
    → (mark_session_status account_id invalid message d).0 ≡ true
    → has_slot account_id
        (reconcile w now slots (mark_session_status account_id invalid message d).1).0
      ≡ false
mark_session_status-has_slot w account_id now message slots d done =
    let marked = (mark_session_status account_id invalid message d).1 in
    reconcile-has_slot w account_id now slots marked
    ∙ wanted-other w account_id now marked (
        ap
          (λ rows.
            exists (λ r. r.id == account_id) (select (may_run w.shard_id w.shard_count) rows))
          (marked_accounts account_id message d done)
        ∙ marked-may_run account_id w.shard_id w.shard_count message d.accounts)
