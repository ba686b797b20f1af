-- ===== src/Leases/Waiting.antt =====
-- `pause_remote_runtime` and `resume_remote_runtime` of src/runtime/lease.py: the bot takes a lease and
-- polls until the worker acknowledges it or the time is over, and gives the lease back afterwards.
use tele_group.Base.{
  ℕ, zero, suc, ◌+◌, ◌≤◌, ◌<◌, ◌≡◌, refl, ◌∙◌, sym, inl, inr, Bool, true, false, not, Option, none,
  some, List, [], ◌∷◌, arith, leb, ◌==◌, if◌then◌else◌, Bool-cases, leb→le, subst, ==→≡, exists,
  delete_where, ==_refl, exists-snoc, exists-update_where,
}
use tele_group.Text.{Text, text_eq, codes}
use tele_group.Accounts.Rows.{Db, SessionLease, enqueue_signal}
use tele_group.Leases.Table.{
  acquire_session_lease, is_lease_of, release_session_lease, renewed, new_lease,
}

-- What the loop reads in its rounds: whether the lease is acknowledged, and then the clock.
pub record Readings : Type 0 where
  pub acked : ℕ → Bool
  pub clock : ℕ → ℕ

-- What a call leaves behind: its answer, and whether it logged that the time was over.
pub record Pause : Type 0 where
  pub answer : Bool
  pub warned : Bool

-- The loop from round `n` on. Every round but the last sleeps.
unfoldable pub poll : Readings → ℕ → ℕ → ℕ → Option Pause
poll r deadline zero n = none
poll r deadline (suc fuel) n =
    let later = poll r deadline fuel (suc n) in
    if r.acked n
    then some record { answer = true; warned = false }
    else if leb deadline (r.clock n)
    then some record { answer = true; warned = true }
    else later

-- The role of the process is an argument, `now` is the date of the lease, and `start` the reading of
-- the clock before the loop.
unfoldable pub pause_remote_runtime : Text → ℕ → ℕ → Readings → ℕ → ℕ → Db → Option Pause × Db
pause_remote_runtime role account_id now r start timeout d =
    if text_eq role (codes "bot")
    then (
      poll r (start + timeout) (timeout + 1) 0,
      acquire_session_lease account_id (codes "bot") 180 now d,
    )
    else (some record { answer = false; warned = false }, d)

unfoldable pub resume_remote_runtime : ℕ → Bool → Db → Db
resume_remote_runtime account_id paused d = if paused then release_session_lease account_id d else d

-- How the loop may end in a round: always with the answer that a lease was taken, without a warning
-- if the round read the acknowledgement, and with one if it did not and the deadline has come.
abbrev pub IsRight : Readings → ℕ → ℕ → Option Pause → Type 0
IsRight r deadline n none = ⊥
IsRight r deadline n (some p) =
    (p.answer ≡ true) × (r.acked n ≡ not p.warned) × (p.warned ≡ true → deadline ≤ r.clock n)

module _ (r : Readings) (deadline : ℕ) (passes : (n : ℕ) → r.clock n + 1 ≤ r.clock (suc n)) where
  -- No round before the last one saw the acknowledgement or the deadline.
  abbrev Ends : ℕ → Option Pause → Type 0
  Ends n o =
      (last : ℕ) × (n ≤ last)
      × IsRight r deadline last o
      × ((m : ℕ) → n ≤ m → m < last → (r.acked m ≡ false) × (r.clock m < deadline))

  goes_on :
      (n : ℕ) (o : Option Pause)
      → r.acked n ≡ false
      → leb deadline (r.clock n) ≡ false
      → Ends (suc n) o
      → Ends n o
  goes_on n o silent early (last, after, right, before) = (last, omega arith, right, earlier)
    where
      earlier : (m : ℕ) → n ≤ m → m < last → (r.acked m ≡ false) × (r.clock m < deadline)
      earlier m lo hi = elim (Bool-cases (m == n)) [
        | inl same ↦
            subst (λ k. (r.acked k ≡ false) × (r.clock k < deadline)) (sym (==→≡ m n same))
              (silent, ground (arith, early))
        | inr other ↦ before m (ground (arith, other, lo)) hi
      ]

  one_round :
      (fuel n : ℕ)
      → (leb deadline (r.clock n) ≡ false → Ends (suc n) (poll r deadline fuel (suc n)))
      → Ends n (poll r deadline (suc fuel) n)
  unfolding poll
  one_round fuel n later = elim (Bool-cases (r.acked n)) [
    | inl seen ↦
        (n, omega arith, rw seen (refl, seen, λ e. cc), λ m lo hi. absurd (omega (arith, lo, hi)))
    | inr silent ↦ elim (Bool-cases (leb deadline (r.clock n))) [
      | inl over ↦ (
        n,
        omega arith,
        rw (silent, over) (refl, silent, λ _. leb→le deadline (r.clock n) over),
        λ m lo hi. absurd (omega (arith, lo, hi)),
      )
      | inr early ↦
          rw (silent, early) (goes_on n (poll r deadline fuel (suc n)) silent early (later early))
    ]
  ]

  poll-Ends : (fuel n : ℕ) → deadline ≤ r.clock n + fuel → Ends n (poll r deadline (suc fuel) n)
  poll-Ends zero n h = one_round zero n (λ early. absurd (too_late early))
    where
      too_late : leb deadline (r.clock n) ≡ false → ⊥
      too_late early = ground (arith, early, h)
  poll-Ends (suc fuel) n h =
      one_round (suc fuel) n (λ early. poll-Ends fuel (suc n) (omega (arith, h, passes n)))

-- After the bot has asked for a lease, the account has one.
acquire-exists :
    (account_id : ℕ) (holder : Text) (ttl now : ℕ) (d : Db)
    → exists (is_lease_of account_id) (acquire_session_lease account_id holder ttl now d).leases
      ≡ true
unfolding acquire_session_lease enqueue_signal
acquire-exists account_id holder ttl now d =
    elim (Bool-cases (exists (is_lease_of account_id) d.leases)) [
      | inl held ↦ rw held (
          exists-update_where (is_lease_of account_id) (is_lease_of account_id)
            (renewed holder (now + ttl)) d.leases (λ _. refl)
          ∙ held)
      | inr free ↦ rw free (
          exists-snoc (is_lease_of account_id) d.leases (new_lease account_id holder (now + ttl))
          ∙ ground (arith, ==_refl account_id))
    ]

exists-deleted :
    (account_id : ℕ) (rows : List SessionLease)
    → exists (is_lease_of account_id) (delete_where (is_lease_of account_id) rows) ≡ false
exists-deleted account_id [] = refl
exists-deleted account_id (r ∷ rows) = ground (arith, exists-deleted account_id rows)

-- In the process of the bot the loop always ends, with one round for each tick of the timeout and one
-- more, if the clock moves on in every round. The answer is then that a lease was taken, the account
-- has a lease, and the resumption with that answer leaves it none. The warning is logged exactly if
-- the last round did not read the acknowledgement, the time is then over, and no earlier round read
-- the acknowledgement or came after the deadline.
pub pause_remote_runtime-ends :
    (r : Readings) (account_id now start timeout : ℕ) (d : Db)
    → start ≤ r.clock 0
    → ((n : ℕ) → r.clock n + 1 ≤ r.clock (suc n))
    → ((last : ℕ) × IsRight r
          (start + timeout)
          last
          (pause_remote_runtime (codes "bot") account_id now r start timeout d).0
        × ((m : ℕ) → m < last → (r.acked m ≡ false) × (r.clock m < start + timeout)))
      × (exists
            (is_lease_of account_id)
            (pause_remote_runtime (codes "bot") account_id now r start timeout d).1.leases
          ≡ true)
      × (exists
            (is_lease_of account_id)
            (resume_remote_runtime account_id true
              (pause_remote_runtime (codes "bot") account_id now r start timeout d).1).leases
          ≡ false)
unfolding pause_remote_runtime resume_remote_runtime text_eq release_session_lease enqueue_signal
pause_remote_runtime-ends r account_id now start timeout d h passes = (
  (let (last, _, right, before) = poll-Ends r (start + timeout) passes timeout 0 (omega arith) in
      (
        last,
        subst (λ k. IsRight r (start + timeout) last (poll r (start + timeout) k 0)) (omega arith)
            right,
        λ m k. before m (omega arith) k,
      )),
  acquire-exists account_id (codes "bot") 180 now d,
  exists-deleted account_id (acquire_session_lease account_id (codes "bot") 180 now d).leases,
)
