-- ===== src/Supervisor/Backoff.antt =====
-- The waits of `Supervisor._run_account` (src/runtime/supervisor.py) between its attempts, and the
-- shard that an account belongs to.
use tele_group.Base.{
  ℕ, zero, suc, ◌*◌, ◌≤◌, ◌<◌, ◌≡◌, refl, true, List, [], ◌∷◌, arith, ltb, if◌then◌else◌, All, ◌%◌,
  ap, ◌∙◌,
}
use tele_group.Supervisor.Candidates.{owns}

-- How one attempt ends: the account is leased, the connection fails, it was made and dropped later,
-- or Telegram refuses the session.
pub data Attempt : Type 0 where
  leased failed dropped refused : Attempt

pub record Backoff : Type 0 where
  pub initial : ℕ
  pub longest : ℕ

abbrev pub minimum : ℕ → ℕ → ℕ
minimum a b = if ltb b a then b else a

unfoldable pub doubled : Backoff → ℕ → ℕ
doubled b delay = minimum (delay * 2) b.longest

-- The waits of the loop that starts with `delay`. A refused session ends it.
unfoldable pub waits : Backoff → ℕ → List Attempt → List ℕ
waits b delay [] = []
waits b delay (leased ∷ rest) = delay ∷ waits b delay rest
waits b delay (failed ∷ rest) = delay ∷ waits b (doubled b delay) rest
waits b delay (dropped ∷ rest) = b.initial ∷ waits b (doubled b b.initial) rest
waits b delay (refused ∷ rest) = []

abbrev pub run_account_waits : Backoff → List Attempt → List ℕ
run_account_waits b attempts = waits b b.initial attempts

abbrev pub fails : ℕ → List Attempt
fails zero = []
fails (suc n) = failed ∷ fails n

-- `initial`, `2 * initial`, `4 * initial` and so on, never above the longest wait.
abbrev pub schedule : Backoff → ℕ → ℕ → List ℕ
schedule b delay zero = []
schedule b delay (suc n) = minimum delay b.longest ∷ schedule b (delay * 2) n

module _ (b : Backoff) where
  waits-bounded :
      (delay : ℕ) (attempts : List Attempt)
      → b.initial ≤ b.longest
      → delay ≤ b.longest
      → All (λ n. n ≤ b.longest) (waits b delay attempts)
  unfolding waits doubled
  waits-bounded delay [] h k = tt
  waits-bounded delay (leased ∷ rest) h k = (k, waits-bounded delay rest h k)
  waits-bounded delay (failed ∷ rest) h k =
      (k, waits-bounded (doubled b delay) rest h (ground arith))
  waits-bounded delay (dropped ∷ rest) h k =
      (h, waits-bounded (doubled b b.initial) rest h (ground arith))
  waits-bounded delay (refused ∷ rest) h k = tt

  doubled-minimum :
      (delay : ℕ) → doubled b (minimum delay b.longest) ≡ minimum (delay * 2) b.longest
  unfolding doubled
  doubled-minimum delay = ground arith

  waits-schedule : (n delay : ℕ) → waits b (minimum delay b.longest) (fails n) ≡ schedule b delay n
  unfolding waits
  waits-schedule zero delay = refl
  waits-schedule (suc n) delay =
      ap (λ ns. minimum delay b.longest ∷ ns)
        (ap (λ d. waits b d (fails n)) (doubled-minimum delay) ∙ waits-schedule n (delay * 2))

  -- The waits after failures in a row are the initial wait doubled each time and cut at the longest
  -- wait, and after any attempts no wait is longer than that, if the initial one is not.
  pub run_account_waits-schedule :
      (n : ℕ) (attempts : List Attempt)
      → b.initial ≤ b.longest
      → (run_account_waits b (fails n) ≡ schedule b b.initial n)
        × All (λ k. k ≤ b.longest) (run_account_waits b attempts)
  run_account_waits-schedule n attempts h = (
    ap (λ d. waits b d (fails n)) (ground arith) ∙ waits-schedule n b.initial,
    waits-bounded b.initial attempts h h,
  )

-- Every account belongs to exactly one of the shards.
pub owns-one_shard :
    (shard_count account_id : ℕ)
    → 1 ≤ shard_count
    → (s : ℕ) × (s < shard_count)
      × (owns s shard_count account_id ≡ true)
      × ((t : ℕ) → owns t shard_count account_id ≡ true → t ≡ s)
unfolding owns
owns-one_shard n a h = (a % n, omega arith, ground arith, λ t e. ground (arith, e))
