-- ===== src/Flood/Tests.antt =====
-- Runs of the model of src/runtime/flood.py at concrete inputs.
use tele_group.Base.{◌+◌, ◌≤◌, ◌≡◌, refl, [], ◌∷◌, map, arith, All}
use tele_group.Flood.Limiter.{
  AccountLimiter, value, flood_wait, Sleep, State, run_locked, after_first, after_retry, pace,
  finish, note_flood, wait_over, Call,
}
use tele_group.Flood.Queue.{come, leave, queue_after, queue_after-bound}
use tele_group.Flood.Spacing.{Job, IsSpaced, calls, calls-IsSpaced, TakesTime}

abbrev usual : AccountLimiter
usual = record { min_interval = 1; max_queue = 8; retry_threshold = 30 }

abbrev exact : Sleep
exact start seconds = start + seconds

abbrev told_to_wait : Job
told_to_wait = record {
  idle = 0;
  func = λ start. (flood_wait 5, start + 1);
  retry = λ start. (value, start + 2);
}

abbrev fresh : State
fresh = record { clock = 10; next_at = 0; flood_until = 0 }

-- The call at 10 ends at 11 and is told to wait 5, the retry at 16 ends at 18, and so on.
starts :
    map (λ (c : Call). c.start) (calls usual exact (told_to_wait ∷ told_to_wait ∷ []) fresh)
    ≡ 10 ∷ 16 ∷ 19 ∷ 25 ∷ []
unfolding calls run_locked after_first after_retry pace finish note_flood wait_over
starts = refl

honest : TakesTime told_to_wait.func × TakesTime told_to_wait.retry
honest = (λ start. omega arith, λ start. omega arith)

one_honest : All (λ (j : Job). TakesTime j.func × TakesTime j.retry) (told_to_wait ∷ [])
one_honest = (honest, tt)

calls-IsSpaced_example : IsSpaced usual (calls usual exact (told_to_wait ∷ told_to_wait ∷ []) fresh)
calls-IsSpaced_example =
    calls-IsSpaced usual exact (λ start seconds. omega arith) (told_to_wait ∷ told_to_wait ∷ [])
      fresh (honest, one_honest)

queue_after-bound_example : queue_after usual (come ∷ come ∷ leave ∷ come ∷ []) 7 ≤ 8
queue_after-bound_example =
    queue_after-bound usual (come ∷ come ∷ leave ∷ come ∷ []) 7 (omega arith)
