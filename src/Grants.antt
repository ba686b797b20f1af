-- ===== src/Grants.antt =====
-- subscription_grants.py: plan grants by an admin, activation codes, the audit log.
pub mod Tables
pub mod Apply
pub mod Ops
pub mod OtherRows
pub mod Rows
pub mod Renewal
pub mod Granting
pub mod Codes
pub mod Issue
pub mod Status
pub mod Redeeming
pub mod Redemption
pub mod Tokens
pub mod Issuing
pub mod Revoking
pub mod Steps
pub mod Invariant
pub mod Closing
pub mod SingleUse
mod Tests
