-- ===== src/Supervisor/Rounds.antt =====
-- `Supervisor.reconcile` of src/runtime/supervisor.py step by step, with the control bot and the rest
-- of the program running between the steps. The replacement of a slot is one step: nothing that runs
-- in between looks at the slots.
use tele_group.Base.{ℕ, ◌≡◌, Bool, false, ◌&&◌, List, [], ◌∷◌, exists}
use tele_group.Text.{Text}
use tele_group.Accounts.Rows.{Db, SessionLease}
use tele_group.Supervisor.Candidates.{Candidate, owns}
use tele_group.Supervisor.Reconcile.{
  Slot, Shard, is_slot_of, leased_ids, stop_slot, desired_rows, desired_among, unwanted, apply_one,
}
use tele_group.Leases.Table.{
  acquire_session_lease, is_lease_of, release_session_lease, active_or_none, ack_session_leases,
}

-- Where the worker is in a round, with what the round has still to do.
pub data Phase : Type 0 where
  waiting : Phase
  stopping : List ℕ → List ℕ → Phase
  acking : List ℕ → Phase
  choosing : List ℕ → Phase
  clearing : List ℕ → List Candidate → List ℕ → Phase
  applying : List ℕ → List Candidate → Phase

pub record System : Type 0 where
  pub db : Db
  pub slots : List Slot
  pub phase : Phase

-- What one step does. The bot takes and gives back leases at any time, and everything else may
-- change any table but the leases.
pub data Step (w : Shard) : System → System → Type 0 where
  acquire :
      (s : System) (account_id : ℕ) (holder : Text) (ttl now : ℕ)
      → Step w s (record s { db = acquire_session_lease account_id holder ttl now s.db })
  release :
      (s : System) (account_id : ℕ)
      → Step w s (record s { db = release_session_lease account_id s.db })
  change : (s : System) (d : Db) → d.leases ≡ s.db.leases → Step w s (record s { db = d })
  read_leases :
      (s : System) (fails : Bool) (now : ℕ)
      → s.phase ≡ waiting
      → Step w s (record s {
        db = (active_or_none fails now s.db).1;
        phase =
            stopping
              (leased_ids w (active_or_none fails now s.db).0)
              (leased_ids w (active_or_none fails now s.db).0);
      })
  stop_leased :
      (s : System) (leased : List ℕ) (a : ℕ) (rest : List ℕ)
      → s.phase ≡ stopping leased (a ∷ rest)
      → Step w s (record s { slots = stop_slot a s.slots; phase = stopping leased rest })
  all_stopped :
      (s : System) (leased : List ℕ)
      → s.phase ≡ stopping leased []
      → Step w s (record s { phase = acking leased })
  ack :
      (s : System) (leased : List ℕ)
      → s.phase ≡ acking leased
      → Step w s (record s { db = ack_session_leases leased s.db; phase = choosing leased })
  -- A failed acknowledgement is logged, and the round goes on.
  ack_fails :
      (s : System) (leased : List ℕ)
      → s.phase ≡ acking leased
      → Step w s (record s { phase = choosing leased })
  -- When the candidates or what gating reads can not be read, other rows are chosen from.
  choose_unread :
      (s : System) (leased : List ℕ) (rows : List Candidate)
      → s.phase ≡ choosing leased
      → Step w s (record s {
        phase =
            clearing leased
              (desired_among w leased rows)
              (unwanted (desired_among w leased rows) s.slots);
      })
  choose :
      (s : System) (leased : List ℕ) (now : ℕ)
      → s.phase ≡ choosing leased
      → Step w s (record s {
        phase =
            clearing leased
              (desired_rows w leased now s.db)
              (unwanted (desired_rows w leased now s.db) s.slots);
      })
  clear :
      (s : System) (leased : List ℕ) (desired : List Candidate) (a : ℕ) (rest : List ℕ)
      → s.phase ≡ clearing leased desired (a ∷ rest)
      → Step w s (record s { slots = stop_slot a s.slots; phase = clearing leased desired rest })
  all_cleared :
      (s : System) (leased : List ℕ) (desired : List Candidate)
      → s.phase ≡ clearing leased desired []
      → Step w s (record s { phase = applying leased desired })
  apply_next :
      (s : System) (leased : List ℕ) (c : Candidate) (rest : List Candidate)
      → s.phase ≡ applying leased (c ∷ rest)
      → Step w s (record s { slots = apply_one w c s.slots; phase = applying leased rest })
  finish :
      (s : System) (leased : List ℕ)
      → s.phase ≡ applying leased []
      → Step w s (record s { phase = waiting })

-- The leases could be read in the step.
abbrev pub IsRead : {w : Shard} {s t : System} → Step w s t → Type 0
IsRead (read_leases s fails now e) = fails ≡ false
IsRead _ = Unit

pub data Reach (w : Shard) (s : System) : System → Type 0 where
  here : Reach w s s
  next : {t u : System} → Reach w s t → Step w t u → Reach w s u

-- Every step of a run that read the leases could read them.
abbrev pub AllRead : {w : Shard} {s t : System} → Reach w s t → Type 0
AllRead here = Unit
AllRead (next r st) = AllRead r × IsRead st

-- The worker has a slot for the account.
abbrev pub has_slot : ℕ → List Slot → Bool
has_slot a slots = exists (is_slot_of a) slots

abbrev pub is_acked_row : ℕ → SessionLease → Bool
is_acked_row a r = is_lease_of a r && r.acked

-- A lease row of the account is acknowledged, be it over or not.
abbrev pub has_ack : ℕ → Db → Bool
has_ack a d = exists (is_acked_row a) d.leases

abbrev pub owned : Shard → ℕ → Bool
owned w a = owns w.shard_id w.shard_count a
