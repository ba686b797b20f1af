-- ===== src/Supervisor/Matching.antt =====
-- What one undisturbed `Supervisor.reconcile` of src/runtime/supervisor.py leaves running.
use tele_group.Base.{
  ℕ, ◌≡◌, refl, ap, ◌∙◌, inl, inr, not, ◌&&◌, ◌||◌, Option, none, some, List, [], ◌∷◌, map, arith,
  ◌==◌, Bool-cases, exists-snoc, first, delete_where, if_cases, exists-first, ==→≡,
}
use tele_group.Accounts.Rows.{Db}
use tele_group.Supervisor.Candidates.{Candidate, Fingerprint, fingerprint, same_fingerprint}
use tele_group.Supervisor.Reconcile.{
  Slot, Shard, apply_all, apply_one, desired_rows, is_id, reconcile, start_slot, stop_all, unwanted,
  leased_ids, id_of, stop_slot, is_slot_of, apply_slot,
}
use tele_group.Supervisor.Rounds.{has_slot}
use tele_group.Leases.Table.{active_lease_ids, ack_session_leases}
use tele_group.Supervisor.Slots.{has_slot-stop_slot, is_id-select}

is_id-map :
    (a : ℕ) (slots : List Slot)
    → is_id (map (λ (s : Slot). s.account_id) slots) a ≡ has_slot a slots
is_id-map a [] = refl
is_id-map a (s ∷ slots) = ground (arith, is_id-map a slots)

has_slot-stop_all :
    (a : ℕ) (ids : List ℕ) (slots : List Slot)
    → has_slot a (stop_all ids slots) ≡ (has_slot a slots && not (is_id ids a))
unfolding stop_all
has_slot-stop_all a [] slots = ground arith
has_slot-stop_all a (b ∷ ids) slots =
    ground (arith, has_slot-stop_all a ids (stop_slot b slots), has_slot-stop_slot a b slots)

has_slot-start_slot :
    (a b : ℕ) (mark : Fingerprint) (slots : List Slot)
    → has_slot a (start_slot b mark slots) ≡ (has_slot a slots || b == a)
unfolding start_slot stop_slot
has_slot-start_slot a b mark slots =
    exists-snoc (is_slot_of a) (delete_where (is_slot_of b) slots)
      record { account_id = b; mark = mark }
    ∙ ground (arith, has_slot-stop_slot a b slots)

-- The accounts that a round wants: they have no lease, and gating lets some plugin run.
abbrev pub wanted : Shard → ℕ → Db → List Candidate
wanted w now d =
    desired_rows w (leased_ids w (active_lease_ids now d).0) now
      (ack_session_leases (leased_ids w (active_lease_ids now d).0) (active_lease_ids now d).1)

module _ (w : Shard) (a : ℕ) where
  has_slot-apply_one :
      (c : Candidate) (slots : List Slot)
      → has_slot a (apply_one w c slots) ≡ (has_slot a slots || id_of c == a)
  unfolding apply_one
  has_slot-apply_one c slots = go (first (is_slot_of (id_of c)) slots) refl
    where
      go :
          (o : Option Slot)
          → first (is_slot_of (id_of c)) slots ≡ o
          → has_slot a (apply_slot (id_of c) (fingerprint w.digest c) o slots)
            ≡ (has_slot a slots || id_of c == a)
      go none e = has_slot-start_slot a (id_of c) (fingerprint w.digest c) slots
      go (some s) e =
          if_cases (λ l. has_slot a l ≡ (has_slot a slots || id_of c == a))
            (same_fingerprint s.mark (fingerprint w.digest c))
            (λ _. elim (Bool-cases (id_of c == a)) [
              | inl same ↦ ground (
                arith,
                same,
                exists-first (is_slot_of (id_of c)) slots e,
                ap (λ b. has_slot b slots) (==→≡ (id_of c) a same),
              )
              | inr other ↦ ground (arith, other)
            ])
            (λ _.
              has_slot-start_slot a (id_of c) (fingerprint w.digest c) (stop_slot (id_of c) slots)
              ∙ ground (arith, has_slot-stop_slot a (id_of c) slots))

  has_slot-apply_all :
      (cs : List Candidate) (slots : List Slot)
      → has_slot a (apply_all w cs slots) ≡ (has_slot a slots || is_id (map id_of cs) a)
  unfolding apply_all
  has_slot-apply_all [] slots = ground arith
  has_slot-apply_all (c ∷ cs) slots =
      ground (arith, has_slot-apply_all cs (apply_one w c slots), has_slot-apply_one c slots)

  is_id-unwanted :
      (desired : List Candidate) (slots : List Slot)
      → is_id (unwanted desired slots) a ≡ (has_slot a slots && not (is_id (map id_of desired) a))
  unfolding unwanted
  is_id-unwanted desired slots =
      is_id-select (λ b. not (is_id (map id_of desired) b)) a
        (map (λ (s : Slot). s.account_id) slots)
      ∙ ap (λ x. x && not (is_id (map id_of desired) a)) (is_id-map a slots)

  -- After a round that nothing disturbs, exactly the accounts that it wants have a slot, whichever
  -- had one before.
  pub reconcile-has_slot :
      (now : ℕ) (slots : List Slot) (d : Db)
      → has_slot a (reconcile w now slots d).0 ≡ is_id (map id_of (wanted w now d)) a
  unfolding reconcile
  reconcile-has_slot now slots d =
      let slots1 : List Slot = stop_all (leased_ids w (active_lease_ids now d).0) slots in
      let desired : List Candidate = wanted w now d in
      has_slot-apply_all desired (stop_all (unwanted desired slots1) slots1)
      ∙ ground (
        arith,
        has_slot-stop_all a (unwanted desired slots1) slots1,
        is_id-unwanted desired slots1,
      )
