-- ===== src/Leases/Tests.antt =====
-- Runs of the model of the leases in src/runtime/store.py at concrete inputs.
use tele_group.Base.{◌≡◌, refl, true, List, [], ◌∷◌, arith, leb, some, exists, ℕ, ◌+◌, ◌<◌, false}
use tele_group.Text.{codes, text_eq}
use tele_group.Leases.Waiting.{
  Readings, pause_remote_runtime, resume_remote_runtime, poll, IsRight, pause_remote_runtime-ends,
}
use tele_group.Accounts.Rows.{Db, enqueue_signal}
use tele_group.Leases.View.{lease_is_acked-follow_all}
use tele_group.Leases.Contract.{
  acquire, acknowledge, release, list_active, LeaseCommand, obey_leases, is_acked, unless_over,
  follow_all, lease_of,
}
use tele_group.Leases.Table.{
  lease_is_acked, acquire_session_lease, ack_session_leases, release_session_lease,
  active_lease_ids, is_lease_of,
}

abbrev empty : Db
empty = record {
  users = [];
  plans = [];
  subscriptions = [];
  accounts = [];
  managers = [];
  admins = [];
  account_plugins = [];
  plan_plugins = [];
  leases = [];
  signals = [];
}

abbrev borrow : List LeaseCommand
borrow = acquire 7 (codes "bot") 180 10 ∷ list_active 20 ∷ acknowledge (7 ∷ 8 ∷ []) ∷ release 8 ∷ []

acked_in_time : lease_is_acked 7 100 (obey_leases borrow empty) ≡ true
unfolding obey_leases acquire_session_lease ack_session_leases release_session_lease
    active_lease_ids enqueue_signal lease_is_acked
acked_in_time = refl

lease_is_acked-follow_all_example :
    lease_is_acked 7 100 (obey_leases borrow empty)
    ≡ is_acked (unless_over 100 (follow_all 7 borrow (lease_of 7 empty)))
lease_is_acked-follow_all_example = lease_is_acked-follow_all 7 borrow 100 empty (λ a. omega arith)

-- The worker acknowledges in the third round.
abbrev rounds : Readings
rounds = record { acked = λ n. leb 2 n; clock = λ n. 10 + n }

pause_third :
    (pause_remote_runtime (codes "bot") 7 40 rounds 10 5 empty).0
    ≡ some record { answer = true; warned = false }
unfolding pause_remote_runtime poll text_eq
pause_third = refl

pause_late :
    (pause_remote_runtime (codes "bot") 7 40 rounds 10 1 empty).0
    ≡ some record { answer = true; warned = true }
unfolding pause_remote_runtime poll text_eq
pause_late = refl

pause_remote_runtime-ends_example :
    ((last : ℕ) × IsRight rounds
        (10 + 5)
        last
        (pause_remote_runtime (codes "bot") 7 40 rounds 10 5 empty).0
      × ((m : ℕ) → m < last → (rounds.acked m ≡ false) × (rounds.clock m < 10 + 5)))
    × (exists (is_lease_of 7) (pause_remote_runtime (codes "bot") 7 40 rounds 10 5 empty).1.leases
        ≡ true)
    × (exists
          (is_lease_of 7)
          (resume_remote_runtime 7 true
            (pause_remote_runtime (codes "bot") 7 40 rounds 10 5 empty).1).leases
        ≡ false)
pause_remote_runtime-ends_example =
    pause_remote_runtime-ends rounds 7 40 10 5 empty (omega arith) (λ n. omega arith)
