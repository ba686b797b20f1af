-- ===== src/Flood/Limiter.antt =====
-- `AccountLimiter` of src/runtime/flood.py. The calls of an account run one after the other under a
-- lock, so the state is what one call leaves for the next, and `clock` is the reading of the clock.
-- The call to Telegram and the sleep are parameters: a call that starts at a time gives a reply and
-- the time that it ends, and a sleep that starts at a time gives the time that it ends.
use tele_group.Base.{ℕ, ◌+◌, ◌-◌, Option, none, some, List, [], ◌∷◌, ltb, leb, if◌then◌else◌}

-- What a call gives: a value, a FloodWait of some seconds, or another exception.
pub data Reply : Type 0 where
  value error : Reply
  flood_wait : ℕ → Reply

pub record AccountLimiter : Type 0 where
  pub min_interval : ℕ
  pub max_queue : ℕ
  pub retry_threshold : ℕ

pub record State : Type 0 where
  pub clock : ℕ
  pub next_at : ℕ
  pub flood_until : ℕ

-- One call that was made.
pub record Call : Type 0 where
  pub start : ℕ
  pub reply : Reply
  pub end : ℕ

pub data Result : Type 0 where
  returned raised : Result
  deferred : ℕ → Result

abbrev pub maximum : ℕ → ℕ → ℕ
maximum a b = if ltb a b then b else a

abbrev pub Sleep : Type 0
Sleep = ℕ → ℕ → ℕ

abbrev pub Action : Type 0
Action = ℕ → Reply × ℕ

-- `_pace`
unfoldable pub pace : Sleep → State → State
pace sleep s =
    let until = maximum s.next_at s.flood_until in
    if ltb s.clock until then record s { clock = sleep s.clock (until - s.clock) } else s

-- `_note_flood`
unfoldable pub note_flood : ℕ → State → State
note_flood seconds s = record s { flood_until = maximum s.flood_until (s.clock + seconds) }

-- `await func(…)`
abbrev pub call : Action → State → Call × State
call func s =
    let (reply, end) = func s.clock in
    (record { start = s.clock; reply = reply; end = end }, record s { clock = end })

-- The end of `_run_locked`.
unfoldable pub finish : AccountLimiter → State → State
finish l s = record s { next_at = s.clock + l.min_interval }

-- The second call, after a short wait.
unfoldable pub after_retry : AccountLimiter → Call × State → Result × List Call × State
after_retry l (c, s) = elim c.reply [
  | value ↦ (returned, c ∷ [], finish l s)
  | error ↦ (raised, c ∷ [], s)
  | flood_wait seconds ↦ (deferred seconds, c ∷ [], note_flood seconds s)
]

-- `await self._sleep(seconds)`, after which the wait is over.
unfoldable pub wait_over : Sleep → ℕ → State → State
wait_over sleep seconds s =
    let now = sleep s.clock seconds in record s { clock = now; flood_until = now }

abbrev pub then_calls : Call → Result × List Call × State → Result × List Call × State
then_calls c (r, cs, s) = (r, c ∷ cs, s)

-- The first call. `retry` is what the second one would give at its time.
unfoldable pub after_first :
    AccountLimiter → Sleep → Action → Call × State → Result × List Call × State
after_first l sleep retry (c, s) = elim c.reply [
  | value ↦ (returned, c ∷ [], finish l s)
  | error ↦ (raised, c ∷ [], s)
  | flood_wait seconds ↦
      if ltb l.retry_threshold seconds
      then (deferred seconds, c ∷ [], note_flood seconds s)
      else then_calls c
          (after_retry l (call retry (wait_over sleep seconds (note_flood seconds s))))
]

-- `_run_locked`, with the calls that it made.
unfoldable pub run_locked :
    AccountLimiter → Sleep → Action → Action → State → Result × List Call × State
run_locked l sleep func retry s = after_first l sleep retry (call func (pace sleep s))

-- `run`: at most `max_queue` actions are in the queue.
unfoldable pub enter : AccountLimiter → ℕ → Option ℕ
enter l waiting = if leb l.max_queue waiting then none else some (waiting + 1)
