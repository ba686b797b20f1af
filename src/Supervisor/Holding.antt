-- ===== src/Supervisor/Holding.antt =====
-- The invariant of the rounds of src/runtime/supervisor.py: an account whose lease is acknowledged has
-- no slot, and what each phase of a round knows.
use tele_group.Base.{ℕ, ◌≡◌, refl, Bool, true, false, List, arith, All}
use tele_group.Accounts.Rows.{Db}
use tele_group.Supervisor.Candidates.{Candidate}
use tele_group.Supervisor.Reconcile.{Slot, Shard, is_id, id_of}
use tele_group.Supervisor.Rounds.{
  System, Phase, waiting, stopping, acking, choosing, clearing, applying, has_ack, has_slot, owned,
}

module _ (w : Shard) where
  -- Every acknowledged lease of the shard is one that the round has read.
  abbrev pub AcksRead : List ℕ → Db → Type 0
  AcksRead leased d = (a : ℕ) → is_id leased a ≡ false → owned w a ≡ true → has_ack a d ≡ false

  abbrev pub IsClear : List ℕ → List Slot → Type 0
  IsClear ids slots = (a : ℕ) → is_id ids a ≡ true → has_slot a slots ≡ false

  abbrev pub IsAllowed : List ℕ → Candidate → Type 0
  IsAllowed leased c = (is_id leased (id_of c) ≡ false) × (owned w (id_of c) ≡ true)

  abbrev pub InPhase : Phase → Db → List Slot → Type 0
  InPhase waiting d slots = Unit
  InPhase (stopping leased rest) d slots =
      AcksRead leased d
      × ((a : ℕ) → is_id leased a ≡ true → is_id rest a ≡ false → has_slot a slots ≡ false)
  InPhase (acking leased) d slots = AcksRead leased d × IsClear leased slots
  InPhase (choosing leased) d slots = AcksRead leased d × IsClear leased slots
  InPhase (clearing leased desired rest) d slots =
      AcksRead leased d × IsClear leased slots × All (IsAllowed leased) desired
  InPhase (applying leased desired) d slots =
      AcksRead leased d × IsClear leased slots × All (IsAllowed leased) desired

  pub record IsExclusive (s : System) : Type 0 where
    -- An account with an acknowledged lease has no slot.
    pub apart : (a : ℕ) → has_ack a s.db ≡ true → has_slot a s.slots ≡ false
    pub of_shard : (a : ℕ) → owned w a ≡ false → has_slot a s.slots ≡ false
    pub in_phase : InPhase s.phase s.db s.slots

  -- A change that acknowledges nothing.
  abbrev pub NoNewAck : Db → Db → Type 0
  NoNewAck d d' = (a : ℕ) → has_ack a d ≡ false → has_ack a d' ≡ false

  pub InPhase-db :
      (p : Phase) (d d' : Db) (slots : List Slot)
      → NoNewAck d d'
      → InPhase p d slots
      → InPhase p d' slots
  InPhase-db waiting d d' slots h i = tt
  InPhase-db (stopping leased rest) d d' slots h i = (λ a n o. h a (i.0 a n o), i.1)
  InPhase-db (acking leased) d d' slots h i = (λ a n o. h a (i.0 a n o), i.1)
  InPhase-db (choosing leased) d d' slots h i = (λ a n o. h a (i.0 a n o), i.1)
  InPhase-db (clearing leased desired rest) d d' slots h i = (λ a n o. h a (i.0 a n o), i.1, i.2)
  InPhase-db (applying leased desired) d d' slots h i = (λ a n o. h a (i.0 a n o), i.1, i.2)

  pub was_acked : (d d' : Db) (a : ℕ) → NoNewAck d d' → has_ack a d' ≡ true → has_ack a d ≡ true
  was_acked d d' a h k = go (has_ack a d) refl
    where
      go : (b : Bool) → has_ack a d ≡ b → b ≡ true
      go true e = refl
      go false e = ground (arith, h a e, k)

  pub change-IsExclusive :
      (s : System) (d : Db) → NoNewAck s.db d → IsExclusive s → IsExclusive (record s { db = d })
  change-IsExclusive s d h i = record {
    apart = λ a k. i.apart a (was_acked s.db d a h k);
    of_shard = i.of_shard;
    in_phase = InPhase-db s.phase s.db d s.slots h i.in_phase;
  }
