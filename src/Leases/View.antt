-- ===== src/Leases/View.antt =====
-- The leases of src/runtime/store.py keep the contract.
use tele_group.Base.{
  ℕ, ◌+◌, ◌≤◌, ◌≡◌, refl, sym, ap, ◌∙◌, inl, inr, Bool, true, false, Option, none, some, List, [],
  ◌∷◌, arith, ◌==◌, if◌then◌else◌, Bool-cases, count_where, first, delete_where, exists,
  update_where, first-exists, first-none, first-update_other, subst, ==→≡, count_where-update_where,
  exists-delete_where, first-update_where, count_where-none, exists-none, first-append,
  first-eq_some, first-snoc, count_where-snoc, ==_refl, count_where-delete_where,
}
use tele_group.Text.{Text}
use tele_group.Accounts.Rows.{Db, SessionLease, enqueue_signal}
use tele_group.Leases.Table.{
  acquire_session_lease, ack_session_leases, is_lease_of, lease_is_acked, has_expired,
  release_session_lease, active_lease_ids, acked_at, is_among, acknowledged, renewed, new_lease,
}
use tele_group.Leases.Contract.{
  LeaseCommand, acquire, acknowledge, release, list_active, follow, obey_leases, seen, follow_all,
  is_acked, lease_of, no_lease, lease, obey_lease, unless_over, let_go,
}

-- `account_id` is the primary key.
abbrev pub IsKeyed : Db → Type 0
IsKeyed d = (a : ℕ) → count_where (is_lease_of a) d.leases ≤ 1

module _ (d : Db) (keyed : IsKeyed d) where
  obey_lease-IsKeyed : (c : LeaseCommand) → IsKeyed (obey_lease c d)
  unfolding acquire_session_lease ack_session_leases release_session_lease active_lease_ids
      enqueue_signal
  obey_lease-IsKeyed (acquire b holder ttl now) a =
      elim (Bool-cases (exists (is_lease_of b) d.leases)) [
        | inl e ↦ rw e (
            subst (λ n. n ≤ 1)
              (sym (
                count_where-update_where (is_lease_of a) (is_lease_of b)
                  (renewed holder (now + ttl)) d.leases (λ _. refl)))
              (keyed a))
        | inr e ↦ rw e (elim (Bool-cases (b == a)) [
          | inl same ↦ ground (
            arith,
            ap (λ i. count_where (is_lease_of i) d.leases) (==→≡ b a same),
            count_where-none (is_lease_of b) d.leases e,
            count_where-snoc (is_lease_of a) d.leases (new_lease b holder (now + ttl)),
          )
          | inr other ↦ ground (
            arith,
            keyed a,
            count_where-snoc (is_lease_of a) d.leases (new_lease b holder (now + ttl)),
          )
        ])
      ]
  obey_lease-IsKeyed (acknowledge ids) a =
      subst (λ n. n ≤ 1)
        (sym (
          count_where-update_where (is_lease_of a) (is_among ids) acknowledged d.leases
            (λ _. refl)))
        (keyed a)
  obey_lease-IsKeyed (release b) a =
      omega (arith, keyed a, count_where-delete_where (is_lease_of a) (is_lease_of b) d.leases)
  obey_lease-IsKeyed (list_active now) a =
      omega (arith, keyed a, count_where-delete_where (is_lease_of a) (has_expired now) d.leases)

module _ (a : ℕ) where
  -- Deleting rows when at most one is of the account.
  seen-delete_where :
      (q : SessionLease → Bool) (rs : List SessionLease)
      → count_where (is_lease_of a) rs ≤ 1
      → first (is_lease_of a) (delete_where q rs)
        ≡ elim (first (is_lease_of a) rs) [ none ↦ none | some r ↦ if q r then none else some r ]
  seen-delete_where q [] h = refl
  seen-delete_where q (r ∷ rs) h = elim (Bool-cases (is_lease_of a r)) [
    | inl here ↦ ground (
      arith,
      first-none (is_lease_of a) (delete_where q rs) (
          exists-delete_where (is_lease_of a) q rs (exists-none (is_lease_of a) rs (ground arith))),
    )
    | inr other ↦ ground (arith, seen-delete_where q rs)
  ]

  seen-acknowledged :
      (ids : List ℕ) (rs : List SessionLease)
      → seen (first (is_lease_of a) (update_where (is_among ids) acknowledged rs)) ≡ (
          if exists (λ i. i == a) ids
          then let_go (seen (first (is_lease_of a) rs))
          else seen (first (is_lease_of a) rs))
  seen-acknowledged ids [] = elim (Bool-cases (exists (λ i. i == a) ids)) [
    | inl e ↦ rw e refl
    | inr e ↦ rw e refl
  ]
  seen-acknowledged ids (r ∷ rs) = elim (Bool-cases (is_lease_of a r)) [
    | inl here ↦ ground (arith, here, ap (λ x. exists (λ i. i == x) ids) (==→≡ r.account_id a here))
    | inr other ↦ ground (arith, other, seen-acknowledged ids rs)
  ]

  acquired_here :
      (holder : Text) (ttl now : ℕ) (d : Db)
      → lease_of a (acquire_session_lease a holder ttl now d) ≡ lease (now + ttl) false
  unfolding acquire_session_lease enqueue_signal
  acquired_here holder ttl now d = elim (Bool-cases (exists (is_lease_of a) d.leases)) [
    | inl e ↦
        (let (x, found) = first-exists (is_lease_of a) d.leases e in
          rw e (
            ap seen (
              first-update_where (is_lease_of a) (renewed holder (now + ttl)) d.leases {x = x}
                (λ _. refl) found)))
    | inr e ↦ rw e (
        ap seen (
          first-append (is_lease_of a) d.leases (new_lease a holder (now + ttl))
            (first-none (is_lease_of a) d.leases e) (==_refl a)))
  ]

  acquired_other :
      (b : ℕ) (holder : Text) (ttl now : ℕ) (d : Db)
      → (b == a) ≡ false
      → lease_of a (acquire_session_lease b holder ttl now d) ≡ lease_of a d
  unfolding acquire_session_lease enqueue_signal
  acquired_other b holder ttl now d ne = elim (Bool-cases (exists (is_lease_of b) d.leases)) [
    | inl e ↦ rw e (
        ap seen (
          first-update_other (is_lease_of a) (is_lease_of b) (renewed holder (now + ttl)) d.leases
            (λ y here. (ground (arith, ne, here), ground (arith, ne, here)))))
    | inr e ↦
        rw e (ap seen (first-snoc (is_lease_of a) d.leases (new_lease b holder (now + ttl)) ne))
  ]

  released :
      (b : ℕ) (o : Option SessionLease)
      → ((r : SessionLease) → o ≡ some r → is_lease_of a r ≡ true)
      → seen (elim o [ none ↦ none | some r ↦ if is_lease_of b r then none else some r ])
        ≡ (if b == a then no_lease else seen o)
  released b none at = ground arith
  released b (some r) at = ground (arith, at r refl)

  listed :
      (now : ℕ) (o : Option SessionLease)
      → seen (elim o [ none ↦ none | some r ↦ if has_expired now r then none else some r ])
        ≡ unless_over now (seen o)
  listed now none = refl
  listed now (some r) = ground arith

  obey_lease-follow :
      (c : LeaseCommand) (d : Db)
      → IsKeyed d
      → lease_of a (obey_lease c d) ≡ follow a c (lease_of a d)
  unfolding follow ack_session_leases release_session_lease active_lease_ids enqueue_signal
  obey_lease-follow (acquire b holder ttl now) d keyed = elim (Bool-cases (b == a)) [
    | inl same ↦ rw same (
        subst (λ x. lease_of a (acquire_session_lease x holder ttl now d) ≡ lease (now + ttl) false)
          (sym (==→≡ b a same)) (acquired_here holder ttl now d))
    | inr other ↦ rw other (acquired_other b holder ttl now d other)
  ]
  obey_lease-follow (acknowledge ids) d keyed = seen-acknowledged ids d.leases
  obey_lease-follow (release b) d keyed =
      ap seen (seen-delete_where (is_lease_of b) d.leases (keyed a))
      ∙ released b (first (is_lease_of a) d.leases)
          (λ r e. first-eq_some (is_lease_of a) d.leases e)
  obey_lease-follow (list_active now) d keyed =
      ap seen (seen-delete_where (has_expired now) d.leases (keyed a))
      ∙ listed now (first (is_lease_of a) d.leases)

  -- Over any run of the operations on leases, the lease that the table holds for an account is the
  -- one that the contract gives, if no account has two rows at the start.
  obey_leases-follow :
      (cs : List LeaseCommand) (d : Db)
      → IsKeyed d
      → lease_of a (obey_leases cs d) ≡ follow_all a cs (lease_of a d)
  unfolding obey_leases follow_all
  obey_leases-follow [] d keyed = refl
  obey_leases-follow (c ∷ cs) d keyed =
      obey_leases-follow cs (obey_lease c d) (obey_lease-IsKeyed d keyed c)
      ∙ ap (follow_all a cs) (obey_lease-follow c d keyed)

  lease_is_acked-lease_of :
      (now : ℕ) (d : Db) → lease_is_acked a now d ≡ is_acked (unless_over now (lease_of a d))
  unfolding lease_is_acked
  lease_is_acked-lease_of now d = go (first (is_lease_of a) d.leases)
    where
      go : (o : Option SessionLease) → acked_at now o ≡ is_acked (unless_over now (seen o))
      go none = refl
      go (some r) = ground arith

  -- Over any run of the operations on leases, the bot is told that the worker has let go of an
  -- account exactly when the contract has a lease of that account, followed from the row at the
  -- start, that is not over and is acknowledged, if no account has two rows at the start.
  pub lease_is_acked-follow_all :
      (cs : List LeaseCommand) (now : ℕ) (d : Db)
      → IsKeyed d
      → lease_is_acked a now (obey_leases cs d)
        ≡ is_acked (unless_over now (follow_all a cs (lease_of a d)))
  lease_is_acked-follow_all cs now d keyed =
      lease_is_acked-lease_of now (obey_leases cs d)
      ∙ ap (λ v. is_acked (unless_over now v)) (obey_leases-follow cs d keyed)
