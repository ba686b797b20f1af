-- ===== src/Leases/Contract.antt =====
-- The contract of a lease of src/runtime/store.py as one account sees it.
use tele_group.Base.{
  ℕ, ◌+◌, Bool, true, false, Option, none, some, List, [], ◌∷◌, leb, ◌==◌, if◌then◌else◌, exists,
  first,
}
use tele_group.Text.{Text}
use tele_group.Accounts.Rows.{Db, SessionLease}
use tele_group.Leases.Table.{
  acquire_session_lease, ack_session_leases, is_lease_of, release_session_lease, active_lease_ids,
}

pub data LeaseCommand : Type 0 where
  acquire : ℕ → Text → ℕ → ℕ → LeaseCommand
  acknowledge : List ℕ → LeaseCommand
  release : ℕ → LeaseCommand
  list_active : ℕ → LeaseCommand

abbrev pub obey_lease : LeaseCommand → Db → Db
obey_lease (acquire account_id holder ttl now) d = acquire_session_lease account_id holder ttl now d
obey_lease (acknowledge ids) d = ack_session_leases ids d
obey_lease (release account_id) d = release_session_lease account_id d
obey_lease (list_active now) d = (active_lease_ids now d).1

unfoldable pub obey_leases : List LeaseCommand → Db → Db
obey_leases [] d = d
obey_leases (c ∷ cs) d = obey_leases cs (obey_lease c d)

-- A lease of an account: when it ends and whether the worker has let go.
pub data Lease : Type 0 where
  no_lease : Lease
  lease : ℕ → Bool → Lease

abbrev pub let_go : Lease → Lease
let_go no_lease = no_lease
let_go (lease expires _) = lease expires true

abbrev pub unless_over : ℕ → Lease → Lease
unless_over now no_lease = no_lease
unless_over now (lease expires acked) = if leb expires now then no_lease else lease expires acked

abbrev pub is_acked : Lease → Bool
is_acked no_lease = false
is_acked (lease _ acked) = acked

-- The contract: a new lease is not acknowledged yet, an acknowledgement counts for the lease that is
-- there, a release or the end of its time ends it, and other accounts play no part.
unfoldable pub follow : ℕ → LeaseCommand → Lease → Lease
follow a (acquire account_id holder ttl now) v =
    if account_id == a then lease (now + ttl) false else v
follow a (acknowledge ids) v = if exists (λ i. i == a) ids then let_go v else v
follow a (release account_id) v = if account_id == a then no_lease else v
follow a (list_active now) v = unless_over now v

unfoldable pub follow_all : ℕ → List LeaseCommand → Lease → Lease
follow_all a [] v = v
follow_all a (c ∷ cs) v = follow_all a cs (follow a c v)

abbrev pub seen : Option SessionLease → Lease
seen none = no_lease
seen (some r) = lease r.expires_at r.acked

abbrev pub lease_of : ℕ → Db → Lease
lease_of a d = seen (first (is_lease_of a) d.leases)
