-- ===== src/Supervisor/Exclusion.antt =====
-- The control bot and the worker never hold the session of one account together
-- (src/runtime/supervisor.py, src/runtime/store.py).
use tele_group.Base.{
  ℕ, ◌≡◌, refl, sym, ap, ◌∙◌, inl, inr, Bool, true, false, not, ◌&&◌, List, [], ◌∷◌, arith, ◌==◌,
  Bool-cases, subst, All, ==→≡, exists,
}
use tele_group.Accounts.Rows.{Db}
use tele_group.Supervisor.Candidates.{Candidate, owns, list_runtime_candidates}
use tele_group.Supervisor.Reconcile.{
  Slot, Shard, apply_one, is_id, leased_ids, stop_slot, id_of, desired_rows, desired_among,
  unwanted,
}
use tele_group.Supervisor.Rounds.{
  System, Phase, waiting, stopping, acking, choosing, clearing, applying, Step, acquire, release,
  change, read_leases, stop_leased, all_stopped, ack, choose, clear, all_cleared, apply_next,
  ack_fails, choose_unread, IsRead, AllRead, finish, Reach, here, next, has_ack, has_slot, owned,
  is_acked_row,
}
use tele_group.Leases.Table.{
  ack_session_leases, active_lease_ids, acquire_session_lease, lease_is_acked,
  release_session_lease, active_or_none,
}
use tele_group.Supervisor.Slots.{
  ack-has_ack, has_slot-stop_slot, active-has_ack, active-listed, is_id-select, apply_one-other,
  All-select, acquire-has_ack, lease_is_acked-has_ack, release-has_ack,
}
use tele_group.Accounts.Gating.{accounts_that_should_run}
use tele_group.Supervisor.Holding.{IsAllowed, InPhase, IsExclusive, was_acked, change-IsExclusive}

module _ (w : Shard) where
  stopped :
      (a b : ℕ) (slots : List Slot)
      → has_slot a slots ≡ false
      → has_slot a (stop_slot b slots) ≡ false
  stopped a b slots h = ground (arith, has_slot-stop_slot a b slots, h)

  told_apart : (q : ℕ → Bool) (b a : ℕ) → q b ≡ false → q a ≡ true → (b == a) ≡ false
  told_apart q b a h k = elim (Bool-cases (b == a)) [
    | inl same ↦ ground (arith, h, k, ap q (==→≡ b a same))
    | inr other ↦ other
  ]

  module _ (s : System) (i : IsExclusive w s) where
    at_phase : {p : Phase} → s.phase ≡ p → InPhase w p s.db s.slots
    at_phase e = subst (λ p. InPhase w p s.db s.slots) e i.in_phase

    stop-IsExclusive :
        (b : ℕ) (p : Phase)
        → InPhase w p s.db (stop_slot b s.slots)
        → IsExclusive w (record s { slots = stop_slot b s.slots; phase = p })
    stop-IsExclusive b p h = record {
      apart = λ a k. stopped a b s.slots (i.apart a k);
      of_shard = λ a k. stopped a b s.slots (i.of_shard a k);
      in_phase = h;
    }

    phase-IsExclusive :
        (p : Phase) → InPhase w p s.db s.slots → IsExclusive w (record s { phase = p })
    phase-IsExclusive p h = record { apart = i.apart; of_shard = i.of_shard; in_phase = h }

    read-IsExclusive :
        (now : ℕ)
        → IsExclusive w (record s {
          db = (active_lease_ids now s.db).1;
          phase =
              stopping
                (leased_ids w (active_lease_ids now s.db).0)
                (leased_ids w (active_lease_ids now s.db).0);
        })
    unfolding leased_ids
    read-IsExclusive now = record {
      apart = λ a k.
          i.apart a
            (was_acked w s.db (active_lease_ids now s.db).1 a (λ b. active-has_ack b now s.db) k);
      of_shard = i.of_shard;
      in_phase = (
        λ a n o. elim (Bool-cases (has_ack a (active_lease_ids now s.db).1)) [
          | inl e ↦ ground (
            arith,
            n,
            o,
            active-listed a now s.db e,
            is_id-select (owns w.shard_id w.shard_count) a (active_lease_ids now s.db).0,
          )
          | inr e ↦ e
        ],
        λ a k n. ground (arith, k, n),
      );
    }

    ack-IsExclusive :
        (leased : List ℕ)
        → s.phase ≡ acking leased
        → IsExclusive w (record s { db = ack_session_leases leased s.db; phase = choosing leased })
    ack-IsExclusive leased e =
        let h : InPhase w (acking leased) s.db s.slots = at_phase e in
        record {
          apart = λ a k. elim (Bool-cases (is_id leased a)) [
            | inl l ↦ h.1 a l
            | inr n ↦ elim (Bool-cases (has_ack a s.db)) [
              | inl old ↦ i.apart a old
              | inr new ↦ ground (arith, k, ack-has_ack a leased s.db new n)
            ]
          ];
          of_shard = i.of_shard;
          in_phase = (λ a n o. ack-has_ack a leased s.db (h.0 a n o) n, h.1);
        }

    apply-IsExclusive :
        (leased : List ℕ) (c : Candidate) (rest : List Candidate)
        → s.phase ≡ applying leased (c ∷ rest)
        → IsExclusive w (record s { slots = apply_one w c s.slots; phase = applying leased rest })
    apply-IsExclusive leased c rest e =
        let h : InPhase w (applying leased (c ∷ rest)) s.db s.slots = at_phase e in
        let (new, ours) : IsAllowed w leased c = h.2.0 in
        record {
          apart = λ a k.
              apply_one-other a w c s.slots (i.apart a k)
                (told_apart (λ x. has_ack x s.db) (id_of c) a (h.0 (id_of c) new ours) k);
          of_shard = λ a k.
              apply_one-other a w c s.slots (i.of_shard a k)
                (told_apart (λ x. not (owned w x)) (id_of c) a (ap not ours) (ap not k));
          in_phase = (
            h.0,
            λ a k.
                apply_one-other a w c s.slots (h.1 a k)
                  (told_apart (is_id leased) (id_of c) a new k),
            h.2.1,
          );
        }

  desired_among-IsAllowed :
      (leased : List ℕ) (rows : List Candidate)
      → All (IsAllowed w leased) (desired_among w leased rows)
  desired_among-IsAllowed leased rows =
      All-select (IsAllowed w leased) (λ c. not (is_id leased (id_of c)) && owned w (id_of c)) rows
        (λ c e. ground (arith, e))

  desired_rows-IsAllowed :
      (leased : List ℕ) (now : ℕ) (d : Db) → All (IsAllowed w leased) (desired_rows w leased now d)
  unfolding desired_rows
  desired_rows-IsAllowed leased now d = desired_among-IsAllowed leased (
      accounts_that_should_run (λ (c : Candidate). c.account) w.plugins
        (list_runtime_candidates w.decrypt w.shard_id w.shard_count now d) d)

  Step-IsExclusive :
      {s t : System} (st : Step w s t) → IsRead st → IsExclusive w s → IsExclusive w t
  unfolding active_or_none
  Step-IsExclusive (acquire s b holder ttl now) read i =
      change-IsExclusive w s (acquire_session_lease b holder ttl now s.db)
        (λ a h. acquire-has_ack a b holder ttl now s.db h) i
  Step-IsExclusive (release s b) read i =
      change-IsExclusive w s (release_session_lease b s.db) (λ a h. release-has_ack a b s.db h) i
  Step-IsExclusive (change s d e) read i =
      change-IsExclusive w s d (λ a h. ap (exists (is_acked_row a)) e ∙ h) i
  Step-IsExclusive (read_leases s true now e) read i = cc
  Step-IsExclusive (read_leases s false now e) read i = read-IsExclusive s i now
  Step-IsExclusive (stop_leased s leased b rest e) read i =
      let h : InPhase w (stopping leased (b ∷ rest)) s.db s.slots = at_phase s i e in
      stop-IsExclusive s i b (stopping leased rest) (
        h.0,
        λ a k n. elim (Bool-cases (b == a)) [
          | inl same ↦ ground (arith, has_slot-stop_slot a b s.slots, same)
          | inr other ↦ stopped a b s.slots (h.1 a k (ground (arith, other, n)))
        ],
      )
  Step-IsExclusive (all_stopped s leased e) read i =
      let h : InPhase w (stopping leased []) s.db s.slots = at_phase s i e in
      phase-IsExclusive s i (acking leased) (h.0, λ a k. h.1 a k refl)
  Step-IsExclusive (ack s leased e) read i = ack-IsExclusive s i leased e
  Step-IsExclusive (ack_fails s leased e) read i =
      phase-IsExclusive s i (choosing leased) (at_phase s i e)
  Step-IsExclusive (choose_unread s leased rows e) read i =
      let h : InPhase w (choosing leased) s.db s.slots = at_phase s i e in
      phase-IsExclusive s i
        (clearing leased (desired_among w leased rows)
          (unwanted (desired_among w leased rows) s.slots))
        (h.0, h.1, desired_among-IsAllowed leased rows)
  Step-IsExclusive (choose s leased now e) read i =
      let h : InPhase w (choosing leased) s.db s.slots = at_phase s i e in
      phase-IsExclusive s i
        (clearing leased (desired_rows w leased now s.db)
          (unwanted (desired_rows w leased now s.db) s.slots))
        (h.0, h.1, desired_rows-IsAllowed leased now s.db)
  Step-IsExclusive (clear s leased desired b rest e) read i =
      let h : InPhase w (clearing leased desired (b ∷ rest)) s.db s.slots = at_phase s i e in
      stop-IsExclusive s i b (clearing leased desired rest)
        (h.0, λ a k. stopped a b s.slots (h.1 a k), h.2)
  Step-IsExclusive (all_cleared s leased desired e) read i =
      let h : InPhase w (clearing leased desired []) s.db s.slots = at_phase s i e in
      phase-IsExclusive s i (applying leased desired) h
  Step-IsExclusive (apply_next s leased c rest e) read i = apply-IsExclusive s i leased c rest e
  Step-IsExclusive (finish s leased e) read i = phase-IsExclusive s i waiting tt

  Reach-IsExclusive :
      {s t : System} → IsExclusive w s → (r : Reach w s t) → AllRead r → IsExclusive w t
  Reach-IsExclusive i here read = i
  Reach-IsExclusive i (next r st) read = Step-IsExclusive st read.1 (Reach-IsExclusive i r read.0)

  -- From a state where the worker has no slot, and whatever the bot and the rest of the program do
  -- between the steps of its rounds, an account whose lease the bot sees as acknowledged has no slot
  -- at the worker, if no read of the leases fails in the run. The acknowledgement and the choice of
  -- the candidates may fail.
  pub lease_is_acked-has_slot :
      (s t : System)
      → s.slots ≡ []
      → s.phase ≡ waiting
      → (r : Reach w s t) → AllRead r
      → (a now : ℕ) → lease_is_acked a now t.db ≡ true
      → has_slot a t.slots ≡ false
  lease_is_acked-has_slot s t none_there idle r read a now k =
      (Reach-IsExclusive start r read).apart a (lease_is_acked-has_ack a now t.db k)
    where
      start : IsExclusive w s
      start = record {
        apart = λ a k. ap (has_slot a) none_there;
        of_shard = λ a k. ap (has_slot a) none_there;
        in_phase = subst (λ p. InPhase w p s.db s.slots) (sym idle) tt;
      }
