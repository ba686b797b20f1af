-- ===== src/Actors/Notice.antt =====
-- The notices of `IncomingCommandLimit` (src/runtime/actors.py): one in a window for each sender.
use tele_group.Base.{ℕ, ◌+◌, ◌≤◌, ◌≡◌, refl, List, [], ◌∷◌, arith}
use tele_group.Actors.Limit.{
  self, owner, admin, notice, Limits, Request, decide, decide_as, decide_counted, refuse, Hits,
  Role, pruned, recorded,
}
use tele_group.Actors.Window.{run}

module _ (l : Limits) where
  refuse_grows : (q : Request) (s : Hits) (a u : ℕ) → s.notified a u ≤ (refuse l q s).1.notified a u
  unfolding refuse
  refuse_grows q s a u = ground arith

  counted_grows :
      (q : Request) (s : Hits) (a u : ℕ) → s.notified a u ≤ (decide_counted l q s).1.notified a u
  unfolding decide_counted pruned recorded
  counted_grows q s a u = ground (arith, refuse_grows q (pruned l q s) a u)

  decide_as_grows :
      (q : Request) (r : Role) (s : Hits) (a u : ℕ)
      → s.notified a u ≤ (decide_as l q r s).1.notified a u
  unfolding decide_as
  decide_as_grows q self s a u = omega arith
  decide_as_grows q owner s a u = counted_grows q s a u
  decide_as_grows q admin s a u = counted_grows q s a u

  -- No command brings the time of the next notice forward.
  run_grows : (qs : List Request) (s : Hits) (a u : ℕ) → s.notified a u ≤ (run l qs s).notified a u
  unfolding run decide
  run_grows [] s a u = omega arith
  run_grows (q ∷ qs) s a u =
      omega (arith, decide_as_grows q q.role s a u, run_grows qs (decide_as l q q.role s).1 a u)

  -- A notice is given only when the time for it has come, and sets the time of the next.
  counted_notice :
      (q : Request) (s : Hits)
      → (decide_counted l q s).0 ≡ notice
      → (s.notified q.account q.user ≤ q.now)
        × ((decide_counted l q s).1.notified q.account q.user ≡ q.now + l.window)
  unfolding decide_counted refuse pruned
  counted_notice q s h = ground arith

  decide_notice :
      (q : Request) (s : Hits)
      → (decide l q s).0 ≡ notice
      → (s.notified q.account q.user ≤ q.now)
        × ((decide l q s).1.notified q.account q.user ≡ q.now + l.window)
  unfolding decide
  decide_notice q s h = go q.role h
    where
      go :
          (r : Role)
          → (decide_as l q r s).0 ≡ notice
          → (s.notified q.account q.user ≤ q.now)
            × ((decide_as l q r s).1.notified q.account q.user ≡ q.now + l.window)
      go self h = cc
      go owner h = counted_notice q s h
      go admin h = counted_notice q s h

  same_key : (s : Hits) {a b u v : ℕ} → a ≡ b → u ≡ v → s.notified a u ≡ s.notified b v
  same_key s ab uv = rw (ab, uv) refl

  -- Two notices to one sender on one account are at least a window apart, whatever commands, of
  -- whatever senders, come between.
  pub notice_spacing :
      (q q' : Request) (qs : List Request) (s : Hits)
      → q'.account ≡ q.account
      → q'.user ≡ q.user
      → (decide l q s).0 ≡ notice
      → (decide l q' (run l qs (decide l q s).1)).0 ≡ notice
      → q.now + l.window ≤ q'.now
  notice_spacing q q' qs s same_account same_user first_notice second_notice =
      let (_, set) = decide_notice q s first_notice in
      let (due, _) = decide_notice q' (run l qs (decide l q s).1) second_notice in
      omega (
        arith,
        set,
        due,
        same_key (run l qs (decide l q s).1) same_account same_user,
        run_grows qs (decide l q s).1 q.account q.user,
      )
