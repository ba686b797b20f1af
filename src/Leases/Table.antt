-- ===== src/Leases/Table.antt =====
-- `acquire_session_lease`, `ack_session_leases`, `release_session_lease`, `lease_is_acked` and
-- `active_lease_ids` of src/runtime/store.py.
use tele_group.Base.{
  ℕ, ◌+◌, Bool, true, false, Option, none, some, List, [], ◌∷◌, ◌++◌, map, leb, ◌==◌, if◌then◌else◌,
  delete_where, exists, first, update_where,
}
use tele_group.Text.{Text, codes}
use tele_group.Accounts.Rows.{Db, SessionLease, enqueue_signal}

abbrev pub is_lease_of : ℕ → SessionLease → Bool
is_lease_of account_id r = r.account_id == account_id

abbrev pub renewed : Text → ℕ → SessionLease → SessionLease
renewed holder expires r = record r { holder = holder; expires_at = expires; acked = false }

abbrev pub new_lease : ℕ → Text → ℕ → SessionLease
new_lease account_id holder expires = record {
  account_id = account_id;
  holder = holder;
  expires_at = expires;
  acked = false;
}

unfoldable pub acquire_session_lease : ℕ → Text → ℕ → ℕ → Db → Db
acquire_session_lease account_id holder ttl_seconds now d =
    enqueue_signal (some account_id) (codes "lease") record d {
      leases =
          if exists (is_lease_of account_id) d.leases
          then update_where (is_lease_of account_id) (renewed holder (now + ttl_seconds)) d.leases
          else d.leases ++ new_lease account_id holder (now + ttl_seconds) ∷ [];
    }

abbrev pub is_among : List ℕ → SessionLease → Bool
is_among account_ids r = exists (λ i. i == r.account_id) account_ids

abbrev pub acknowledged : SessionLease → SessionLease
acknowledged r = record r { acked = true }

unfoldable pub ack_session_leases : List ℕ → Db → Db
ack_session_leases account_ids d = record d {
  leases = update_where (is_among account_ids) acknowledged d.leases;
}

unfoldable pub release_session_lease : ℕ → Db → Db
release_session_lease account_id d =
    enqueue_signal (some account_id) (codes "reload")
      record d { leases = delete_where (is_lease_of account_id) d.leases }

abbrev pub has_expired : ℕ → SessionLease → Bool
has_expired now r = leb r.expires_at now

abbrev pub acked_at : ℕ → Option SessionLease → Bool
acked_at now none = false
acked_at now (some r) = if has_expired now r then false else r.acked

unfoldable pub lease_is_acked : ℕ → ℕ → Db → Bool
lease_is_acked account_id now d = acked_at now (first (is_lease_of account_id) d.leases)

-- The transaction of `active_lease_ids`: the ids, and the tables without the leases that are over.
unfoldable pub active_lease_ids : ℕ → Db → List ℕ × Db
active_lease_ids now d =
    let left = delete_where (has_expired now) d.leases in
    (map (λ (r : SessionLease). r.account_id) left, record d { leases = left })

-- The answer of `active_lease_ids`: a transaction that fails is answered with no lease at all.
unfoldable pub active_or_none : Bool → ℕ → Db → List ℕ × Db
active_or_none fails now d = if fails then ([], d) else active_lease_ids now d
