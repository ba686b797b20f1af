-- ===== src/Supervisor/Marks.antt =====
-- The fingerprints of the slots that one undisturbed `Supervisor.reconcile` of
-- src/runtime/supervisor.py leaves.
use tele_group.Base.{
  ℕ, ◌≡◌, refl, sym, ◌∙◌, inl, inr, true, false, ◌&&◌, Option, none, some, List, [], ◌∷◌, ◌++◌, map,
  arith, ◌==◌, Bool-cases, ==_refl, exists, first, delete_where, first-append, first-snoc, if_cases,
  subst, first-none,
}
use tele_group.Text.{text_eq, text_eq_refl}
use tele_group.Accounts.Rows.{Db}
use tele_group.Supervisor.Candidates.{
  Candidate, Fingerprint, fingerprint, same_proxy, same_fingerprint,
}
use tele_group.Supervisor.Reconcile.{
  Slot, Shard, apply_all, apply_one, apply_slot, id_of, is_id, is_slot_of, leased_ids, reconcile,
  start_slot, stop_all, stop_slot, unwanted,
}
use tele_group.Supervisor.Rounds.{has_slot}
use tele_group.Supervisor.Matching.{wanted, reconcile-has_slot}
use tele_group.Leases.Table.{active_lease_ids}

same_fingerprint_refl : (f : Fingerprint) → same_fingerprint f f ≡ true
unfolding same_fingerprint
same_fingerprint_refl f = go f.proxy
  where
    go : (o : Option ℕ) → (same_proxy o o && text_eq f.session f.session) ≡ true
    go none = text_eq_refl f.session
    go (some n) = ground (arith, ==_refl n, text_eq_refl f.session)

first-delete_other :
    (a b : ℕ) (slots : List Slot)
    → (b == a) ≡ false
    → first (is_slot_of a) (delete_where (is_slot_of b) slots) ≡ first (is_slot_of a) slots
first-delete_other a b [] ne = refl
first-delete_other a b (s ∷ slots) ne = elim (Bool-cases (s.account_id == b)) [
  | inl here ↦ ground (arith, ne, here, first-delete_other a b slots ne)
  | inr there ↦ ground (arith, there, first-delete_other a b slots ne)
]

exists-delete_self :
    (b : ℕ) (slots : List Slot) → exists (is_slot_of b) (delete_where (is_slot_of b) slots) ≡ false
exists-delete_self b [] = refl
exists-delete_self b (s ∷ slots) = ground (arith, exists-delete_self b slots)

module _ (b : ℕ) (mark : Fingerprint) (slots : List Slot) where
  abbrev started : Slot
  started = record { account_id = b; mark = mark }

  first-start_self : first (is_slot_of b) (start_slot b mark slots) ≡ some started
  unfolding start_slot
  first-start_self =
      first-append (is_slot_of b) (delete_where (is_slot_of b) slots) started
        (first-none (is_slot_of b) (delete_where (is_slot_of b) slots) (exists-delete_self b slots))
        (==_refl b)

  first-start_other :
      (a : ℕ)
      → (b == a) ≡ false
      → first (is_slot_of a) (start_slot b mark slots) ≡ first (is_slot_of a) slots
  unfolding start_slot
  first-start_other a ne =
      first-snoc (is_slot_of a) (delete_where (is_slot_of b) slots) started ne
      ∙ first-delete_other a b slots ne

module _ (w : Shard) where
  -- The slot has the fingerprint of the candidate.
  abbrev pub IsCurrent : Candidate → Option Slot → Type 0
  IsCurrent c none = ⊥
  IsCurrent c (some s) = same_fingerprint s.mark (fingerprint w.digest c) ≡ true

  apply_one-IsCurrent :
      (c : Candidate) (slots : List Slot)
      → IsCurrent c (first (is_slot_of (id_of c)) (apply_one w c slots))
  unfolding apply_one
  apply_one-IsCurrent c slots = go (first (is_slot_of (id_of c)) slots) refl
    where
      fresh :
          (l : List Slot)
          → IsCurrent c
              (first (is_slot_of (id_of c)) (start_slot (id_of c) (fingerprint w.digest c) l))
      fresh l =
          subst (IsCurrent c) (sym (first-start_self (id_of c) (fingerprint w.digest c) l))
            (same_fingerprint_refl (fingerprint w.digest c))

      go :
          (o : Option Slot)
          → first (is_slot_of (id_of c)) slots ≡ o
          → IsCurrent c
              (first (is_slot_of (id_of c)) (apply_slot (id_of c) (fingerprint w.digest c) o slots))
      go none e = fresh slots
      go (some s) e =
          if_cases (λ l. IsCurrent c (first (is_slot_of (id_of c)) l))
            (same_fingerprint s.mark (fingerprint w.digest c))
            (λ same. subst (IsCurrent c) (sym e) same) (λ _. fresh (stop_slot (id_of c) slots))

  first-apply_one_other :
      (a : ℕ) (c : Candidate) (slots : List Slot)
      → (id_of c == a) ≡ false
      → first (is_slot_of a) (apply_one w c slots) ≡ first (is_slot_of a) slots
  unfolding apply_one stop_slot
  first-apply_one_other a c slots ne = go (first (is_slot_of (id_of c)) slots)
    where
      go :
          (o : Option Slot)
          → first (is_slot_of a) (apply_slot (id_of c) (fingerprint w.digest c) o slots)
            ≡ first (is_slot_of a) slots
      go none = first-start_other (id_of c) (fingerprint w.digest c) slots a ne
      go (some s) =
          if_cases (λ l. first (is_slot_of a) l ≡ first (is_slot_of a) slots)
            (same_fingerprint s.mark (fingerprint w.digest c)) (λ _. refl)
            (λ _.
              first-start_other (id_of c) (fingerprint w.digest c) (stop_slot (id_of c) slots) a ne
              ∙ first-delete_other a (id_of c) slots ne)

  first-apply_all_other :
      (a : ℕ) (cs : List Candidate) (slots : List Slot)
      → is_id (map id_of cs) a ≡ false
      → first (is_slot_of a) (apply_all w cs slots) ≡ first (is_slot_of a) slots
  unfolding apply_all
  first-apply_all_other a [] slots h = refl
  first-apply_all_other a (c ∷ cs) slots h =
      first-apply_all_other a cs (apply_one w c slots) (ground (arith, h))
      ∙ first-apply_one_other a c slots (ground (arith, h))

  apply_all-IsCurrent :
      (before : List Candidate) (c : Candidate) (after : List Candidate) (slots : List Slot)
      → is_id (map id_of after) (id_of c) ≡ false
      → IsCurrent c (first (is_slot_of (id_of c)) (apply_all w (before ++ c ∷ after) slots))
  unfolding apply_all
  apply_all-IsCurrent [] c after slots h =
      subst (IsCurrent c) (sym (first-apply_all_other (id_of c) after (apply_one w c slots) h))
        (apply_one-IsCurrent c slots)
  apply_all-IsCurrent (b ∷ before) c after slots h =
      apply_all-IsCurrent before c after (apply_one w b slots) h

  -- After a round that nothing disturbs, exactly the accounts that it wants have a slot, whichever
  -- had one before, and the slot of an account has the fingerprint of the last row of the account
  -- among the rows that the round wants.
  pub reconcile-IsCurrent :
      (now : ℕ) (slots : List Slot) (d : Db) (before : List Candidate) (c : Candidate)
      (after : List Candidate) (a : ℕ)
      → wanted w now d ≡ before ++ c ∷ after
      → is_id (map id_of after) (id_of c) ≡ false
      → (has_slot a (reconcile w now slots d).0 ≡ is_id (map id_of (wanted w now d)) a)
        × IsCurrent c (first (is_slot_of (id_of c)) (reconcile w now slots d).0)
  unfolding reconcile
  reconcile-IsCurrent now slots d before c after a rows last =
      let slots1 : List Slot = stop_all (leased_ids w (active_lease_ids now d).0) slots in
      let cleared : List Slot = stop_all (unwanted (wanted w now d) slots1) slots1 in
      (
        reconcile-has_slot w a now slots d,
        subst (λ rs. IsCurrent c (first (is_slot_of (id_of c)) (apply_all w rs cleared))) (sym rows)
            (apply_all-IsCurrent before c after cleared last),
      )
