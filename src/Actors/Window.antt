-- ===== src/Actors/Window.antt =====
-- The pruned lists of `IncomingCommandLimit` (src/runtime/actors.py) count what a full history of
-- the accepted commands counts.
use tele_group.Base.{
  ℕ, ◌+◌, ◌≤◌, ◌≡◌, refl, ◌∙◌, inl, inr, Bool, true, false, ◌&&◌, ◌||◌, List, [], ◌∷◌, ◌++◌, arith,
  ltb, ◌==◌, if◌then◌else◌, Bool-cases, count_where, length,
}
use tele_group.Actors.Limit.{
  Limits, Request, Role, Decision, Hits, is_fresh, limit_of, prune, decide, self, ok, refuse, owner,
  account_fresh, pruned, recorded, user_fresh, assign,
}

-- The state after some requests, and the requests that were accepted and counted, oldest first.
unfoldable pub run : Limits → List Request → Hits → Hits
run l [] s = s
run l (q ∷ qs) s = run l qs (decide l q s).1

abbrev pub is_counted : Role → Decision → Bool
is_counted self _ = false
is_counted _ ok = true
is_counted _ _ = false

abbrev pub logged : Request → Decision → List Request
logged q d = if is_counted q.role d then q ∷ [] else []

unfoldable pub accepted : Limits → List Request → Hits → List Request
accepted l [] s = []
accepted l (q ∷ qs) s = logged q (decide l q s).0 ++ accepted l qs (decide l q s).1

-- A command of the history counts under the key of its sender and under the key of the account.
abbrev pub counts_for : ℕ → ℕ → Request → Bool
counts_for account user e = e.account == account && (user == 0 || e.user == user)

-- The commands of the history that count under a key and are not older than the window.
abbrev pub used_quota : Limits → ℕ → ℕ → ℕ → List Request → ℕ
used_quota l now account user =
    count_where (λ e. counts_for account user e && is_fresh l.window now e.now)

-- The rule that the class states: fewer than the limit of the role from the sender, and fewer than
-- the limit of the account from all senders.
abbrev pub within_quota : Limits → Request → List Request → Bool
within_quota l q log =
    ltb (used_quota l q.now q.account q.user log) (limit_of l q.role)
    && ltb (used_quota l q.now q.account 0 log) l.account_limit

-- The clock does not run backwards.
abbrev pub InTime : ℕ → List Request → ℕ → Type 0
InTime from [] to = from ≤ to
InTime from (q ∷ qs) to = (from ≤ q.now) × InTime q.now qs to

pub record Tracks (l : Limits) (log : List Request) (last : ℕ) (s : Hits) : Type 0 where
  pub at_key :
      (account user now : ℕ)
      → last ≤ now
      → length (prune l now (s.hits account user)) ≡ used_quota l now account user log

module _ (l : Limits) where
  -- Pruning at one time does not change what a later time prunes to.
  prune_again :
      (now later : ℕ) (xs : List ℕ)
      → now ≤ later
      → prune l later (prune l now xs) ≡ prune l later xs
  unfolding prune
  prune_again now later [] h = refl
  prune_again now later (x ∷ xs) h = ground (arith, prune_again now later xs h)

  length-prune-append :
      (now x : ℕ) (xs : List ℕ)
      → length (prune l now (xs ++ x ∷ []))
        ≡ length (prune l now xs) + (if is_fresh l.window now x then 1 else 0)
  unfolding prune
  length-prune-append now x [] = ground arith
  length-prune-append now x (y ∷ xs) = ground (arith, length-prune-append now x xs)

  used_quota-append :
      (now account user : ℕ) (q : Request) (log : List Request)
      → used_quota l now account user (log ++ q ∷ [])
        ≡ used_quota l now account user log
          + (if counts_for account user q && is_fresh l.window now q.now then 1 else 0)
  used_quota-append now account user q [] = ground arith
  used_quota-append now account user q (e ∷ log) =
      ground (arith, used_quota-append now account user q log)

  prune_nothing : (now : ℕ) → prune l now [] ≡ []
  unfolding prune
  prune_nothing now = refl

  module _ (q : Request) (log : List Request) (last : ℕ) (s : Hits) (h : Tracks l log last s)
      (later : last ≤ q.now) where
    -- Storing the pruned lists changes no list for a later time.
    prune-user_fresh :
        (now : ℕ)
        → q.now ≤ now
        → prune l now (user_fresh l q s) ≡ prune l now (s.hits q.account q.user)
    unfolding user_fresh
    prune-user_fresh now after = prune_again q.now now (s.hits q.account q.user) after

    prune-account_fresh :
        (now : ℕ)
        → q.now ≤ now
        → prune l now (account_fresh l q s) ≡ prune l now (s.hits q.account 0)
    unfolding account_fresh
    prune-account_fresh now after = elim (Bool-cases (0 == q.user)) [
      | inl zero_user ↦
          prune_again q.now now (assign s.hits q.account q.user (user_fresh l q s) q.account 0)
            after
          ∙ ground (arith, prune-user_fresh now after)
      | inr real_user ↦
          prune_again q.now now (assign s.hits q.account q.user (user_fresh l q s) q.account 0)
            after
          ∙ ground arith
    ]

    pub length-user_fresh : length (user_fresh l q s) ≡ used_quota l q.now q.account q.user log
    unfolding user_fresh
    length-user_fresh = h.at_key q.account q.user q.now later

    pub length-account_fresh : length (account_fresh l q s) ≡ used_quota l q.now q.account 0 log
    unfolding account_fresh
    length-account_fresh = elim (Bool-cases (0 == q.user)) [
      | inl zero_user ↦
          ground
            (arith, prune-user_fresh q.now (omega arith), h.at_key q.account q.user q.now later)
      | inr real_user ↦ ground (arith, h.at_key q.account 0 q.now later)
    ]

    pub pruned-Tracks : Tracks l log q.now (pruned l q s)
    unfolding pruned
    pruned-Tracks = record {
      at_key = λ account user now after. ground (
        arith,
        prune-user_fresh now after,
        prune-account_fresh now after,
        h.at_key account user now (omega arith),
      );
    }

    pub recorded-Tracks : Tracks l (log ++ q ∷ []) q.now (recorded l q s)
    unfolding recorded
    recorded-Tracks = record {
      at_key = λ account user now after. ground (
        arith,
        prune-user_fresh now after,
        prune-account_fresh now after,
        length-prune-append now q.now (user_fresh l q s),
        length-prune-append now q.now (account_fresh l q s),
        used_quota-append now account user q log,
        h.at_key account user now (omega arith),
      );
    }

    pub refuse-hits : (r : Hits) → (refuse l q r).1.hits ≡ r.hits
    unfolding refuse
    refuse-hits r = ground arith

    pub refuse-not_ok : (r : Hits) → is_counted owner (refuse l q r).0 ≡ false
    unfolding refuse
    refuse-not_ok r = ground arith
