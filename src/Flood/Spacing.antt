-- ===== src/Flood/Spacing.antt =====
-- The times of the calls that `AccountLimiter` of src/runtime/flood.py makes.
use tele_group.Base.{ℕ, ◌+◌, ◌-◌, ◌≤◌, List, [], ◌∷◌, ◌++◌, arith, ltb, All, if_cases}
use tele_group.Flood.Limiter.{
  value, error, flood_wait, Reply, AccountLimiter, Action, Sleep, State, Call, after_retry, maximum,
  pace, finish, run_locked, note_flood, call, Result, after_first, then_calls, wait_over,
}

-- An action of a run: the time that passes before it, and the two calls that it may make.
pub record Job : Type 0 where
  pub idle : ℕ
  pub func : Action
  pub retry : Action

abbrev pub do_job : AccountLimiter → Sleep → Job → State → Result × List Call × State
do_job l sleep j s = run_locked l sleep j.func j.retry record s { clock = s.clock + j.idle }

-- All calls of a run of actions.
unfoldable pub calls : AccountLimiter → Sleep → List Job → State → List Call
calls l sleep [] s = []
calls l sleep (j ∷ js) s = (do_job l sleep j s).1 ++ calls l sleep js (do_job l sleep j s).2

-- When the next call may start after a call: Telegram's wait is over. The gap after a value counts
-- from the end of the call.
abbrev pub release : AccountLimiter → Call → ℕ
release l c = elim c.reply [
  | value ↦ c.end + l.min_interval
  | error ↦ c.end
  | flood_wait seconds ↦ c.end + seconds
]

abbrev pub IsSpaced : AccountLimiter → List Call → Type 0
IsSpaced l [] = Unit
IsSpaced l (c ∷ cs) = All (λ later. release l c ≤ later.start) cs × IsSpaced l cs

-- A sleep lasts at least as long as it was asked to.
abbrev pub Sleeps : Sleep → Type 0
Sleeps sleep = (start seconds : ℕ) → start + seconds ≤ sleep start seconds

-- A call does not end before it starts.
abbrev pub TakesTime : Action → Type 0
TakesTime func = (start : ℕ) → start ≤ (func start).1

-- The time before which no call starts.
abbrev ready : State → ℕ
ready s = maximum s.clock (maximum s.next_at s.flood_until)

module _ (l : AccountLimiter) (sleep : Sleep) (slept : Sleeps sleep) where
  pace-ready : (s : State) → ready s ≤ (pace sleep s).clock
  unfolding pace
  pace-ready s = ground (arith, slept s.clock (maximum s.next_at s.flood_until - s.clock))

  -- What a run of one action promises.
  abbrev Promise : ℕ → Result × List Call × State → Type 0
  Promise from (r, cs, s) =
      IsSpaced l cs
      × All (λ c. from ≤ c.start) cs
      × All (λ c. release l c ≤ ready s) cs
      × (from ≤ ready s)

  after_retry-Promise :
      (s : State) (reply : Reply) (end : ℕ)
      → s.clock ≤ end
      → Promise s.clock (
          after_retry l
            (record { start = s.clock; reply = reply; end = end }, record s { clock = end }))
  unfolding after_retry finish note_flood
  after_retry-Promise s value end h =
      ((tt, tt), (omega arith, tt), (ground arith, tt), ground arith)
  after_retry-Promise s error end h =
      ((tt, tt), (omega arith, tt), (ground arith, tt), ground arith)
  after_retry-Promise s (flood_wait n) end h =
      ((tt, tt), (omega arith, tt), (ground arith, tt), ground arith)

  All-from :
      (m n : ℕ) (cs : List Call) → m ≤ n → All (λ c. n ≤ c.start) cs → All (λ c. m ≤ c.start) cs
  All-from m n [] h k = tt
  All-from m n (c ∷ cs) h k = (omega (arith, k.0), All-from m n cs h k.1)

  then_calls-Promise :
      (from n : ℕ) (c : Call) (o : Result × List Call × State)
      → release l c ≤ n
      → from ≤ c.start
      → from ≤ n
      → Promise n o
      → Promise from (then_calls c o)
  then_calls-Promise from n c (r, cs, s) rel at le h = (
    (All-from (release l c) n cs rel h.1, h.0),
    (at, All-from from n cs le h.1),
    (omega (arith, rel, h.3), h.2),
    omega (arith, h.3),
  )

  after_first-Promise :
      (retry : Action) (s : State) (reply : Reply) (end : ℕ)
      → TakesTime retry
      → s.clock ≤ end
      → Promise s.clock (
          after_first l sleep retry
            (record { start = s.clock; reply = reply; end = end }, record s { clock = end }))
  unfolding after_first finish note_flood wait_over
  after_first-Promise retry s value end time h =
      ((tt, tt), (omega arith, tt), (ground arith, tt), ground arith)
  after_first-Promise retry s error end time h =
      ((tt, tt), (omega arith, tt), (ground arith, tt), ground arith)
  after_first-Promise retry s (flood_wait n) end time h =
      if_cases (Promise s.clock) (ltb l.retry_threshold n)
        (λ _. ((tt, tt), (omega arith, tt), (ground arith, tt), ground arith))
        (λ _.
          let s' : State = wait_over sleep n (note_flood n record s { clock = end }) in
          then_calls-Promise s.clock (sleep end n)
            record { start = s.clock; reply = flood_wait n; end = end }
            (after_retry l (call retry s')) (slept end n) (omega arith)
            (omega (arith, h, slept end n))
            (after_retry-Promise s' (retry s'.clock).0 (retry s'.clock).1 (time s'.clock)))

  Promise-weaken : (m n : ℕ) (o : Result × List Call × State) → m ≤ n → Promise n o → Promise m o
  Promise-weaken m n (r, cs, s) le h = (h.0, All-from m n cs le h.1, h.2, omega (arith, le, h.3))

  ready-idle : (s : State) (n : ℕ) → ready s ≤ ready record s { clock = s.clock + n }
  ready-idle s n = ground arith

  do_job-Promise :
      (j : Job) (s : State)
      → TakesTime j.func
      → TakesTime j.retry
      → Promise (ready s) (do_job l sleep j s)
  unfolding run_locked
  do_job-Promise j s time time' =
      let later : State = record s { clock = s.clock + j.idle } in
      let s' : State = pace sleep later in
      Promise-weaken (ready s) s'.clock (do_job l sleep j s)
        (omega (arith, ready-idle s j.idle, pace-ready later))
        (after_first-Promise j.retry s' (j.func s'.clock).0 (j.func s'.clock).1 time'
          (time s'.clock))

  All-both :
      (m n : ℕ) (xs ys : List Call)
      → m ≤ n
      → All (λ c. m ≤ c.start) xs
      → All (λ c. n ≤ c.start) ys
      → All (λ c. m ≤ c.start) (xs ++ ys)
  All-both m n [] ys le h k = All-from m n ys le k
  All-both m n (x ∷ xs) ys le h k = (h.0, All-both m n xs ys le h.1 k)

  IsSpaced-append :
      (n : ℕ) (xs ys : List Call)
      → IsSpaced l xs
      → All (λ c. release l c ≤ n) xs
      → IsSpaced l ys
      → All (λ c. n ≤ c.start) ys
      → IsSpaced l (xs ++ ys)
  IsSpaced-append n [] ys h rel k at = k
  IsSpaced-append n (x ∷ xs) ys h rel k at =
      (All-both (release l x) n xs ys rel.0 h.0 at, IsSpaced-append n xs ys h.1 rel.1 k at)

  calls_after :
      (js : List Job) (s : State)
      → All (λ j. TakesTime j.func × TakesTime j.retry) js
      → IsSpaced l (calls l sleep js s) × All (λ c. ready s ≤ c.start) (calls l sleep js s)
  unfolding calls
  calls_after [] s h = (tt, tt)
  calls_after (j ∷ js) s h =
      let o : Result × List Call × State = do_job l sleep j s in
      let first_job : Promise (ready s) o = do_job-Promise j s h.0.0 h.0.1 in
      let others = calls_after js o.2 h.1 in
      (
        IsSpaced-append (ready o.2) o.1 (calls l sleep js o.2) first_job.0 first_job.2 others.0
            others.1,
        All-both (ready s) (ready o.2) o.1 (calls l sleep js o.2) first_job.3 first_job.1 others.1,
      )

  -- Over any run of actions, whatever the calls reply, no call starts before the wait that an
  -- earlier call was told has passed since its end, nor before the interval has passed since the
  -- end of an earlier call that gave a value, if a sleep is not shorter than asked and no call ends
  -- before it starts.
  pub calls-IsSpaced :
      (js : List Job) (s : State)
      → All (λ j. TakesTime j.func × TakesTime j.retry) js
      → IsSpaced l (calls l sleep js s)
  calls-IsSpaced js s h = (calls_after js s h).0
