-- ===== src/Grants/Status.antt =====
-- The status of an activation code (src/subscription_grants.py): the listing, the redemption and the
-- revocation agree on it, and a used or revoked code stays so.
use tele_group.Base.{ℕ, ◌≡◌, Bool, true, false, some, arith, is_none}
use tele_group.Grants.Codes.{
  CodeStatus, status_filter, terminal_error, code_status, matches_claim, unused, used, expired,
  revoked,
}
use tele_group.Grants.Tables.{ActivationCode}

abbrev pub same_status : CodeStatus → CodeStatus → Bool
same_status unused unused = true
same_status used used = true
same_status expired expired = true
same_status revoked revoked = true
same_status _ _ = false

-- A code is in the listing of exactly the status that `_code_status` gives it.
pub status_filter-code_status :
    (s : CodeStatus) (now : ℕ) (c : ActivationCode)
    → status_filter s now c ≡ same_status (code_status c now) s
unfolding status_filter code_status
status_filter-code_status unused now c = ground arith
status_filter-code_status used now c = ground arith
status_filter-code_status expired now c = ground arith
status_filter-code_status revoked now c = ground arith

-- A code has no terminal error exactly when the conditional update of a claim matches its row.
pub terminal_error-claim :
    (now : ℕ) (c : ActivationCode)
    → is_none (terminal_error (some c) now) ≡ matches_claim c.id now c
unfolding terminal_error code_status
terminal_error-claim now c = ground arith
