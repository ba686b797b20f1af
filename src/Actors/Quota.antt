-- ===== src/Actors/Quota.antt =====
-- `IncomingCommandLimit` of src/runtime/actors.py over a run of commands.
use mathlib.Core.List.{append-nil, append_assoc}
use tele_group.Base.{
  ◌++◌, if◌then◌else◌, inl, inr, Bool-cases, refl, List, [], ◌∷◌, ℕ, ◌≤◌, ◌≡◌, refl, ◌≢◌, inl, inr,
  Bool, true, false, not, List, [], ◌∷◌, ◌++◌, arith, if◌then◌else◌, Bool-cases,
}
use tele_group.Actors.Limit.{
  self, owner, admin, ok, Decision, Limits, Request, Hits, Role, decide_counted, is_over, decide,
  refuse, decide_as, prune, pruned, no_hits,
}
use tele_group.Actors.Window.{
  Tracks, logged, is_counted, within_quota, InTime, accepted, length-user_fresh,
  length-account_fresh, refuse-hits, run, pruned-Tracks, recorded-Tracks,
}

abbrev pub is_ok : Decision → Bool
is_ok ok = true
is_ok _ = false

Tracks-later :
    (l : Limits) (log : List Request) (last now : ℕ) (s : Hits)
    → Tracks l log last s
    → last ≤ now
    → Tracks l log now s
Tracks-later l log last now s h le = record {
  at_key = λ account user later after. h.at_key account user later (omega arith);
}

module _ (l : Limits) (q : Request) (log : List Request) (last : ℕ) (s : Hits)
    (h : Tracks l log last s) (later : last ≤ q.now) where
  -- The test on the pruned lists is the rule on the history.
  is_over-within_quota : is_over l q s ≡ not (within_quota l q log)
  is_over-within_quota =
      ground (
        arith,
        length-user_fresh l q log last s h later,
        length-account_fresh l q log last s h later,
      )

  counted-exact : is_ok (decide_counted l q s).0 ≡ within_quota l q log
  unfolding decide_counted refuse
  counted-exact = ground (arith, is_over-within_quota)

  refused_not_ok : (r : Hits) → is_ok (refuse l q r).0 ≡ false
  unfolding refuse
  refused_not_ok r = ground arith

  counted_ok : is_counted owner (decide_counted l q s).0 ≡ is_ok (decide_counted l q s).0
  unfolding decide_counted refuse
  counted_ok = ground arith

  hits_only : (r r' : Hits) → r'.hits ≡ r.hits → Tracks l log q.now r → Tracks l log q.now r'
  hits_only r r' e t = record { at_key = rw e t.at_key }

  counted-Tracks :
      Tracks l
        (log ++ (if is_ok (decide_counted l q s).0 then q ∷ [] else []))
        q.now
        (decide_counted l q s).1
  unfolding decide_counted
  counted-Tracks = elim (Bool-cases (is_over l q s)) [
    | inl over ↦ rw over (
        rw (refused_not_ok (pruned l q s), append-nil log)
          (hits_only (pruned l q s) (refuse l q (pruned l q s)).1
            (refuse-hits l q log last s h later (pruned l q s))
            (pruned-Tracks l q log last s h later)))
    | inr room ↦ rw room (recorded-Tracks l q log last s h later)
  ]

  decided-Tracks :
      (role : Role)
      → Tracks l
          (log ++ (if is_counted role (decide_as l q role s).0 then q ∷ [] else []))
          q.now
          (decide_as l q role s).1
  unfolding decide_as
  decided-Tracks self = rw (append-nil log) (Tracks-later l log last q.now s h later)
  decided-Tracks owner = rw counted_ok counted-Tracks
  decided-Tracks admin = rw counted_ok counted-Tracks

  pub decide-Tracks : Tracks l (log ++ logged q (decide l q s).0) q.now (decide l q s).1
  unfolding decide
  decide-Tracks = decided-Tracks q.role

  pub decide-exact : q.role ≢ self → is_ok (decide l q s).0 ≡ within_quota l q log
  unfolding decide
  decide-exact ne = go q.role ne
    where
      go : (role : Role) → role ≢ self → is_ok (decide_as l q role s).0 ≡ within_quota l q log
      go self ne = absurd (ne refl)
      go owner ne = counted-exact
      go admin ne = counted-exact

module _ (l : Limits) where
  -- The lists follow the history over any run.
  run-Tracks :
      (qs : List Request) (log : List Request) (last to : ℕ) (s : Hits)
      → Tracks l log last s
      → InTime last qs to
      → Tracks l (log ++ accepted l qs s) to (run l qs s)
  unfolding accepted run
  run-Tracks [] log last to s h t = rw (append-nil log) (Tracks-later l log last to s h t)
  run-Tracks (q ∷ qs) log last to s h t =
      rw (← append_assoc log (logged q (decide l q s).0) (accepted l qs (decide l q s).1)) (
        run-Tracks qs (log ++ logged q (decide l q s).0) q.now to (decide l q s).1
          (decide-Tracks l q log last s h t.0) t.1)

  start-Tracks : Tracks l [] 0 no_hits
  unfolding prune
  start-Tracks = record { at_key = λ account user now after. refl }

  -- After any run of commands in time order, a command of the owner or of an admin is let through
  -- exactly when the commands let through before it and within the window are fewer than the limit
  -- of the role for its sender, and fewer than the limit of the account for all senders.
  pub decide-run_exact :
      (qs : List Request) (q : Request)
      → InTime 0 qs q.now
      → q.role ≢ self
      → is_ok (decide l q (run l qs no_hits)).0 ≡ within_quota l q (accepted l qs no_hits)
  decide-run_exact qs q t ne =
      decide-exact l q (accepted l qs no_hits) q.now (run l qs no_hits)
        (run-Tracks qs [] 0 q.now no_hits start-Tracks t) (omega arith) ne
