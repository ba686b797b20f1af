-- ===== src/Actors/Tests.antt =====
-- Runs of the models of src/runtime/actors.py at concrete inputs.
use tele_group.Base.{ℕ, ◌+◌, ◌≤◌, ◌≡◌, refl, [], ◌∷◌, arith}
use tele_group.Actors.Limit.{
  Limits, Request, Hits, no_hits, decide, decide_as, decide_counted, refuse, pruned, recorded,
  prune, user_fresh, account_fresh, admin,
}
use tele_group.Actors.Window.{run, accepted, within_quota}
use tele_group.Actors.Quota.{decide-run_exact, is_ok}
use tele_group.Actors.Notice.{notice_spacing}

abbrev tight : Limits
tight = record { admin_limit = 1; owner_limit = 2; account_limit = 3; window = 30 }

abbrev sent_at : ℕ → Request
sent_at t = record { account = 4; user = 9; role = admin; now = t }

decide-run_exact_example :
    is_ok (decide tight (sent_at 20) (run tight (sent_at 5 ∷ []) no_hits)).0
    ≡ within_quota tight (sent_at 20) (accepted tight (sent_at 5 ∷ []) no_hits)
decide-run_exact_example =
    decide-run_exact tight (sent_at 5 ∷ []) (sent_at 20) (omega arith, omega arith) (λ e. cc)

abbrev after_one : Hits
after_one = run tight (sent_at 40 ∷ []) no_hits

notice_spacing_example : 45 + 30 ≤ 80
unfolding decide decide_as decide_counted refuse pruned recorded prune user_fresh account_fresh run
notice_spacing_example =
    notice_spacing tight (sent_at 45) (sent_at 80) (sent_at 76 ∷ []) after_one refl refl refl refl
