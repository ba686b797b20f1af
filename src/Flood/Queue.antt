-- ===== src/Flood/Queue.antt =====
-- The queue of `AccountLimiter.run` (src/runtime/flood.py).
use tele_group.Base.{ℕ, ◌-◌, ◌≤◌, Option, none, some, List, [], ◌∷◌, arith}
use tele_group.Flood.Limiter.{AccountLimiter, enter}

-- An action asks for a place, or one that has a place leaves.
pub data Move : Type 0 where
  come leave : Move

abbrev pub entered : ℕ → Option ℕ → ℕ
entered waiting none = waiting
entered waiting (some more) = more

-- `_waiting` after a move.
unfoldable pub moved : AccountLimiter → Move → ℕ → ℕ
moved l come waiting = entered waiting (enter l waiting)
moved l leave waiting = waiting - 1

unfoldable pub queue_after : AccountLimiter → List Move → ℕ → ℕ
queue_after l [] waiting = waiting
queue_after l (m ∷ ms) waiting = queue_after l ms (moved l m waiting)

moved-bound : (l : AccountLimiter) (m : Move) (n : ℕ) → n ≤ l.max_queue → moved l m n ≤ l.max_queue
unfolding moved enter
moved-bound l come n h = ground arith
moved-bound l leave n h = omega arith

-- Whatever the order in which actions come and leave, the queue never holds more than `max_queue`
-- of them.
pub queue_after-bound :
    (l : AccountLimiter) (ms : List Move) (n : ℕ)
    → n ≤ l.max_queue
    → queue_after l ms n ≤ l.max_queue
unfolding queue_after
queue_after-bound l [] n h = h
queue_after-bound l (m ∷ ms) n h = queue_after-bound l ms (moved l m n) (moved-bound l m n h)
