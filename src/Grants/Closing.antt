-- ===== src/Grants/Closing.antt =====
-- Activation codes that can not be claimed any more (src/subscription_grants.py).
use native.Mathlib.Decide.{ℕ_discrete}
use tele_group.Base.{
  ℕ, suc, ◌≤◌, ◌<◌, ◌≡◌, refl, inl, inr, Bool, true, false, List, [], ◌∷◌, arith, Bool-cases, All,
  exists, update_where, update_where_none,
}
use tele_group.Grants.Tables.{ActivationCode, Tables}
use tele_group.Grants.Codes.{is_open, matches_claim, matches_revocation, mark_used}
use tele_group.Grants.Tokens.{AscendingCodes}

-- No row with this id can be claimed or revoked any more, now or later.
pub record IsClosed (code_id : ℕ) (t : Tables) : Type 0 where
  pub none_open : exists (matches_revocation code_id) t.codes ≡ false
  pub issued_before : code_id < t.next_code

-- An update that only closes codes opens none.
pub closed-update_where :
    (code_id : ℕ) (p : ActivationCode → Bool) (f : ActivationCode → ActivationCode)
    (rows : List ActivationCode)
    → ((c : ActivationCode) → is_open (f c) ≡ false)
    → exists (matches_revocation code_id) rows ≡ false
    → exists (matches_revocation code_id) (update_where p f rows) ≡ false
closed-update_where code_id p f [] closes h = h
closed-update_where code_id p f (r ∷ rows) closes h =
    ground (arith, closes r, closed-update_where code_id p f rows closes)

-- Rows with greater ids do not match.
pub exists-above :
    (code_id : ℕ) (rows : List ActivationCode)
    → All (λ c. suc code_id ≤ c.id) rows
    → exists (matches_revocation code_id) rows ≡ false
exists-above code_id [] h = refl
exists-above code_id (r ∷ rows) h = ground (arith, exists-above code_id rows h.1)

pub All-above :
    (lo hi code_id : ℕ) (rows : List ActivationCode)
    → AscendingCodes lo rows hi
    → code_id < lo
    → All (λ c. suc code_id ≤ c.id) rows
All-above lo hi code_id [] asc h = tt
All-above lo hi code_id (r ∷ rows) asc h =
    (omega arith, All-above (suc r.id) hi code_id rows asc.1 (omega arith))

pub unmatched-above :
    (code_id now : ℕ) (rows : List ActivationCode)
    → All (λ c. suc code_id ≤ c.id) rows
    → exists (matches_claim code_id now) rows ≡ false
unmatched-above code_id now [] h = refl
unmatched-above code_id now (r ∷ rows) h = ground (arith, unmatched-above code_id now rows h.1)

pub ascending-le : (lo hi : ℕ) (rows : List ActivationCode) → AscendingCodes lo rows hi → lo ≤ hi
ascending-le lo hi [] asc = asc
ascending-le lo hi (r ∷ rows) asc = omega (arith, ascending-le (suc r.id) hi rows asc.1, asc.0)

-- A claim that matches closes its code: ids are unique.
pub claim-closes :
    (code_id now user_id lo hi : ℕ) (rows : List ActivationCode)
    → AscendingCodes lo rows hi
    → exists (matches_claim code_id now) rows ≡ true
    → (exists
          (matches_revocation code_id)
          (update_where (matches_claim code_id now) (mark_used now user_id) rows)
        ≡ false)
      × (code_id < hi)
claim-closes code_id now user_id lo hi [] asc h = cc
claim-closes code_id now user_id lo hi (r ∷ rows) asc h =
    elim (Bool-cases (matches_claim code_id now r)) [
      | inl hit ↦
          let above = All-above (suc r.id) hi code_id rows asc.1 (ground arith) in
          let missed = unmatched-above code_id now rows above in
          (
            rw hit (
                rw
                  (update_where_none (matches_claim code_id now) (mark_used now user_id) rows
                    missed)
                  (ground (arith, exists-above code_id rows above))),
            ground (arith, ascending-le (suc r.id) hi rows asc.1),
          )
      | inr miss ↦
          let rest = claim-closes code_id now user_id (suc r.id) hi rows asc.1 (rw miss at h) in
          elim (ℕ_discrete r.id code_id) [
            | yes same ↦ absurd (clash same (rw miss at h))
            | no other ↦ (rw miss (ground (arith, rest.0)), rest.1)
          ]
    ]
  where
    clash : r.id ≡ code_id → exists (matches_claim code_id now) rows ≡ true → ⊥
    clash same found = cc (
      found,
      unmatched-above code_id now rows (All-above (suc r.id) hi code_id rows asc.1 (omega arith)),
    )

-- A closed code is not claimed.
pub closed-unclaimed :
    (code_id now : ℕ) (rows : List ActivationCode)
    → exists (matches_revocation code_id) rows ≡ false
    → exists (matches_claim code_id now) rows ≡ false
closed-unclaimed code_id now [] h = refl
closed-unclaimed code_id now (r ∷ rows) h = ground (arith, closed-unclaimed code_id now rows)
