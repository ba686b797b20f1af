-- ===== src/Supervisor/Reconcile.antt =====
-- `Supervisor.reconcile` of src/runtime/supervisor.py and the slots that it keeps. A slot stands for
-- the task that owns the client of an account: it is there until the task has ended.
use tele_group.Base.{
  ℕ, Bool, not, ◌&&◌, Option, none, some, List, [], ◌∷◌, ◌++◌, map, ◌==◌, if◌then◌else◌,
  delete_where, exists, select, first,
}
use tele_group.Text.{Text}
use tele_group.Accounts.Rows.{Db}
use tele_group.Accounts.Gating.{Plugin, accounts_that_should_run}
use tele_group.Supervisor.Candidates.{
  Candidate, Fingerprint, fingerprint, same_fingerprint, owns, list_runtime_candidates,
}
use tele_group.Leases.Table.{active_lease_ids, ack_session_leases}

pub record Slot : Type 0 where
  pub account_id : ℕ
  pub mark : Fingerprint

pub record Shard : Type 0 where
  pub shard_id : ℕ
  pub shard_count : ℕ
  pub plugins : List Plugin
  pub decrypt : Text → Text
  pub digest : Text → Text

abbrev pub is_slot_of : ℕ → Slot → Bool
is_slot_of account_id s = s.account_id == account_id

-- `_stop_slot`
unfoldable pub stop_slot : ℕ → List Slot → List Slot
stop_slot account_id slots = delete_where (is_slot_of account_id) slots

-- `_start_slot`: the entry of the dictionary is set.
unfoldable pub start_slot : ℕ → Fingerprint → List Slot → List Slot
start_slot account_id mark slots =
    delete_where (is_slot_of account_id) slots
    ++ record { account_id = account_id; mark = mark } ∷ []

unfoldable pub stop_all : List ℕ → List Slot → List Slot
stop_all [] slots = slots
stop_all (a ∷ rest) slots = stop_all rest (stop_slot a slots)

abbrev pub is_id : List ℕ → ℕ → Bool
is_id ids a = exists (λ i. i == a) ids

-- The accounts that have a lease and belong to the shard.
unfoldable pub leased_ids : Shard → List ℕ → List ℕ
leased_ids w active = select (owns w.shard_id w.shard_count) active

abbrev pub id_of : Candidate → ℕ
id_of c = c.account.account_id

-- `desired`, from the rows that may run.
abbrev pub desired_among : Shard → List ℕ → List Candidate → List Candidate
desired_among w leased rows =
    select (λ c. not (is_id leased (id_of c)) && owns w.shard_id w.shard_count (id_of c)) rows

unfoldable pub desired_rows : Shard → List ℕ → ℕ → Db → List Candidate
desired_rows w leased now d = desired_among w leased (
    accounts_that_should_run (λ (c : Candidate). c.account) w.plugins
      (list_runtime_candidates w.decrypt w.shard_id w.shard_count now d) d)

-- The slots of accounts that are not wanted.
unfoldable pub unwanted : List Candidate → List Slot → List ℕ
unwanted desired slots =
    select (λ a. not (is_id (map id_of desired) a)) (map (λ (s : Slot). s.account_id) slots)

abbrev pub apply_slot : ℕ → Fingerprint → Option Slot → List Slot → List Slot
apply_slot a mark none slots = start_slot a mark slots
apply_slot a mark (some s) slots =
    if same_fingerprint s.mark mark then slots else start_slot a mark (stop_slot a slots)

-- One round of the last loop.
unfoldable pub apply_one : Shard → Candidate → List Slot → List Slot
apply_one w c slots =
    apply_slot (id_of c) (fingerprint w.digest c) (first (is_slot_of (id_of c)) slots) slots

unfoldable pub apply_all : Shard → List Candidate → List Slot → List Slot
apply_all w [] slots = slots
apply_all w (c ∷ rest) slots = apply_all w rest (apply_one w c slots)

-- The whole of `reconcile`, when nothing else runs between its steps.
unfoldable pub reconcile : Shard → ℕ → List Slot → Db → List Slot × Db
reconcile w now slots d =
    let (active, d1) = active_lease_ids now d in
    let leased = leased_ids w active in
    let slots1 = stop_all leased slots in
    let d2 = ack_session_leases leased d1 in
    let desired = desired_rows w leased now d2 in
    (apply_all w desired (stop_all (unwanted desired slots1) slots1), d2)
