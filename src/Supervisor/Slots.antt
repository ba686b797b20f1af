-- ===== src/Supervisor/Slots.antt =====
-- Lemmas on the slots of src/runtime/supervisor.py and on acknowledged leases.
use tele_group.Base.{
  ℕ, ◌+◌, ◌≡◌, refl, ap, inl, inr, Bool, true, false, not, ◌&&◌, Option, none, some, List, [], ◌∷◌,
  map, arith, ◌==◌, Bool-cases, All, exists, select, update_where, ==→≡, delete_where,
  exists-delete_where, exists-snoc, if_cases, first,
}
use tele_group.Text.{Text}
use tele_group.Accounts.Rows.{Db, SessionLease, enqueue_signal}
use tele_group.Supervisor.Candidates.{Candidate, Fingerprint, fingerprint, same_fingerprint}
use tele_group.Supervisor.Reconcile.{
  Slot, Shard, is_id, stop_slot, id_of, start_slot, apply_one, apply_slot, is_slot_of,
}
use tele_group.Leases.Table.{
  ack_session_leases, acquire_session_lease, active_lease_ids, lease_is_acked,
  release_session_lease, acked_at, is_among, acknowledged, has_expired, is_lease_of, renewed,
  new_lease,
}
use tele_group.Supervisor.Rounds.{has_slot, is_acked_row, has_ack}

pub has_slot-stop_slot :
    (a b : ℕ) (slots : List Slot)
    → has_slot a (stop_slot b slots) ≡ (has_slot a slots && not (a == b))
unfolding stop_slot
has_slot-stop_slot a b [] = refl
has_slot-stop_slot a b (s ∷ slots) = ground (arith, has_slot-stop_slot a b slots)

module _ (a : ℕ) (slots : List Slot) (absent : has_slot a slots ≡ false) where
  start_slot-other :
      (b : ℕ) (mark : Fingerprint) → (b == a) ≡ false → has_slot a (start_slot b mark slots) ≡ false
  unfolding start_slot
  start_slot-other b mark ne = ground (
    arith,
    exists-snoc (is_slot_of a) (delete_where (is_slot_of b) slots)
        record { account_id = b; mark = mark },
    exists-delete_where (is_slot_of a) (is_slot_of b) slots absent,
    ne,
  )

module _ (a : ℕ) (w : Shard) (c : Candidate) (slots : List Slot) (absent : has_slot a slots ≡ false)
    (other : (id_of c == a) ≡ false) where
  pub apply_one-other : has_slot a (apply_one w c slots) ≡ false
  unfolding apply_one stop_slot
  apply_one-other = go (first (is_slot_of (id_of c)) slots)
    where
      go :
          (o : Option Slot)
          → has_slot a (apply_slot (id_of c) (fingerprint w.digest c) o slots) ≡ false
      go none = start_slot-other a slots absent (id_of c) (fingerprint w.digest c) other
      go (some s) =
          if_cases (λ l. has_slot a l ≡ false) (same_fingerprint s.mark (fingerprint w.digest c))
            (λ _. absent)
            (λ _.
              start_slot-other a (stop_slot (id_of c) slots)
                (exists-delete_where (is_slot_of a) (is_slot_of (id_of c)) slots absent) (id_of c)
                (fingerprint w.digest c) other)

pub is_id-select :
    (p : ℕ → Bool) (a : ℕ) (ids : List ℕ) → is_id (select p ids) a ≡ (is_id ids a && p a)
is_id-select p a [] = refl
is_id-select p a (i ∷ ids) = elim (Bool-cases (i == a)) [
  | inl same ↦ ground (arith, same, ap p (==→≡ i a same), is_id-select p a ids)
  | inr other ↦ ground (arith, other, is_id-select p a ids)
]

pub All-select {κ} :
    {A : Type 0} (P : A → Type κ) (p : A → Bool) (xs : List A)
    → ((x : A) → p x ≡ true → P x)
    → All P (select p xs)
All-select P p [] h = tt
All-select P p (x ∷ xs) h =
    if_cases (All P) (p x) {x = x ∷ select p xs} {y = select p xs}
      (λ e. (h x e, All-select P p xs h)) (λ _. All-select P p xs h)

module _ (a : ℕ) where
  -- A row that a change leaves acknowledged was acknowledged before.
  still_acked :
      (q : SessionLease → Bool) (f : SessionLease → SessionLease) (rs : List SessionLease)
      → ((r : SessionLease) → is_acked_row a (f r) ≡ false)
      → exists (is_acked_row a) rs ≡ false
      → exists (is_acked_row a) (update_where q f rs) ≡ false
  still_acked q f [] k h = refl
  still_acked q f (r ∷ rs) k h = ground (arith, k r, still_acked q f rs k)

  pub acquire-has_ack :
      (b : ℕ) (holder : Text) (ttl now : ℕ) (d : Db)
      → has_ack a d ≡ false
      → has_ack a (acquire_session_lease b holder ttl now d) ≡ false
  unfolding acquire_session_lease enqueue_signal
  acquire-has_ack b holder ttl now d h =
      if_cases (λ rs. exists (is_acked_row a) rs ≡ false) (exists (is_lease_of b) d.leases)
        (λ _.
          still_acked (is_lease_of b) (renewed holder (now + ttl)) d.leases (λ r. ground arith) h)
        (λ _.
          ground (arith, h, exists-snoc (is_acked_row a) d.leases (new_lease b holder (now + ttl))))

  pub release-has_ack :
      (b : ℕ) (d : Db) → has_ack a d ≡ false → has_ack a (release_session_lease b d) ≡ false
  unfolding release_session_lease enqueue_signal
  release-has_ack b d h = exists-delete_where (is_acked_row a) (is_lease_of b) d.leases h

  pub active-has_ack :
      (now : ℕ) (d : Db) → has_ack a d ≡ false → has_ack a (active_lease_ids now d).1 ≡ false
  unfolding active_lease_ids
  active-has_ack now d h = exists-delete_where (is_acked_row a) (has_expired now) d.leases h

  acked_listed :
      (rs : List SessionLease)
      → exists (is_acked_row a) rs ≡ true
      → is_id (map (λ (r : SessionLease). r.account_id) rs) a ≡ true
  acked_listed [] h = cc
  acked_listed (r ∷ rs) h = ground (arith, h, acked_listed rs)

  -- The listing of the active leases has every account whose lease is acknowledged.
  pub active-listed :
      (now : ℕ) (d : Db)
      → has_ack a (active_lease_ids now d).1 ≡ true
      → is_id (active_lease_ids now d).0 a ≡ true
  unfolding active_lease_ids
  active-listed now d h = acked_listed (delete_where (has_expired now) d.leases) h

  acknowledge_rows :
      (ids : List ℕ) (rs : List SessionLease)
      → exists (is_acked_row a) rs ≡ false
      → is_id ids a ≡ false
      → exists (is_acked_row a) (update_where (is_among ids) acknowledged rs) ≡ false
  acknowledge_rows ids [] h k = refl
  acknowledge_rows ids (r ∷ rs) h k = elim (Bool-cases (r.account_id == a)) [
    | inl same ↦
        ground
          (arith, h, k, same, ap (is_id ids) (==→≡ r.account_id a same), acknowledge_rows ids rs)
    | inr other ↦ ground (arith, h, k, other, acknowledge_rows ids rs)
  ]

  pub ack-has_ack :
      (ids : List ℕ) (d : Db)
      → has_ack a d ≡ false
      → is_id ids a ≡ false
      → has_ack a (ack_session_leases ids d) ≡ false
  unfolding ack_session_leases
  ack-has_ack ids d h k = acknowledge_rows ids d.leases h k

  pub lease_is_acked-has_ack :
      (now : ℕ) (d : Db) → lease_is_acked a now d ≡ true → has_ack a d ≡ true
  unfolding lease_is_acked
  lease_is_acked-has_ack now d h = go d.leases h
    where
      go :
          (rs : List SessionLease)
          → acked_at now (first (is_lease_of a) rs) ≡ true
          → exists (is_acked_row a) rs ≡ true
      go [] h = cc
      go (r ∷ rs) h = elim (Bool-cases (r.account_id == a)) [
        | inl same ↦ ground (arith, h, same)
        | inr other ↦ ground (arith, h, other, go rs)
      ]
