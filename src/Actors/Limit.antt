-- ===== src/Actors/Limit.antt =====
-- `IncomingCommandLimit` of src/runtime/actors.py. Times are readings of the clock in ticks of any
-- size. A key of `_hits` is an account and a user; the account itself counts under user 0.
use tele_group.Base.{
  ℕ, ◌+◌, Bool, ◌&&◌, ◌||◌, List, [], ◌∷◌, ◌++◌, ltb, leb, ◌==◌, if◌then◌else◌, length, select,
}

pub data Role : Type 0 where
  self owner admin : Role

pub data Decision : Type 0 where
  ok notice limited : Decision

pub record Limits : Type 0 where
  pub admin_limit : ℕ
  pub owner_limit : ℕ
  pub account_limit : ℕ
  pub window : ℕ

abbrev pub default_limits : Limits
default_limits = record { admin_limit = 6; owner_limit = 12; account_limit = 20; window = 30 }

pub record Hits : Type 0 where
  pub hits : ℕ → ℕ → List ℕ
  pub notified : ℕ → ℕ → ℕ

abbrev pub no_hits : Hits
no_hits = record { hits = λ _ _. []; notified = λ _ _. 0 }

-- `d[(account, user)] = v`
abbrev pub assign {ℓ} : {V : Type ℓ} → (ℕ → ℕ → V) → ℕ → ℕ → V → ℕ → ℕ → V
assign d account user v a u = if a == account && u == user then v else d a u

-- `now - item < window`
abbrev pub is_fresh : ℕ → ℕ → ℕ → Bool
is_fresh window now item = ltb now (item + window)

-- `_prune`: the fresh hits of a key, which are also stored.
unfoldable pub prune : Limits → ℕ → List ℕ → List ℕ
prune l now = select (is_fresh l.window now)

abbrev pub limit_of : Limits → Role → ℕ
limit_of l admin = l.admin_limit
limit_of l _ = l.owner_limit

pub record Request : Type 0 where
  pub account : ℕ
  pub user : ℕ
  pub role : Role
  pub now : ℕ

unfoldable pub refuse : Limits → Request → Hits → Decision × Hits
refuse l q s =
    if leb (s.notified q.account q.user) q.now
    then (notice, record s { notified = assign s.notified q.account q.user (q.now + l.window) })
    else (limited, s)

-- The two lists are pruned and stored one after the other. With user 0 they have one key.
unfoldable pub user_fresh : Limits → Request → Hits → List ℕ
user_fresh l q s = prune l q.now (s.hits q.account q.user)

unfoldable pub account_fresh : Limits → Request → Hits → List ℕ
account_fresh l q s = prune l q.now (assign s.hits q.account q.user (user_fresh l q s) q.account 0)

unfoldable pub pruned : Limits → Request → Hits → Hits
pruned l q s = record s {
  hits =
      assign (assign s.hits q.account q.user (user_fresh l q s)) q.account 0 (account_fresh l q s);
}

-- Each list gets the new hit. With user 0 the list that was stored last is the one that stays.
unfoldable pub recorded : Limits → Request → Hits → Hits
recorded l q s = record s {
  hits =
      assign (assign s.hits q.account q.user (user_fresh l q s ++ q.now ∷ [])) q.account 0
        (account_fresh l q s ++ q.now ∷ []);
}

abbrev pub is_over : Limits → Request → Hits → Bool
is_over l q s =
    leb (limit_of l q.role) (length (user_fresh l q s))
    || leb l.account_limit (length (account_fresh l q s))

unfoldable pub decide_counted : Limits → Request → Hits → Decision × Hits
decide_counted l q s = if is_over l q s then refuse l q (pruned l q s) else (ok, recorded l q s)

unfoldable pub decide_as : Limits → Request → Role → Hits → Decision × Hits
decide_as l q self s = (ok, s)
decide_as l q owner s = decide_counted l q s
decide_as l q admin s = decide_counted l q s

unfoldable pub decide : Limits → Request → Hits → Decision × Hits
unfolding decide_as
decide l q s = decide_as l q q.role s
