-- ===== src/Grants/Tokens.antt =====
-- The table of activation codes (src/subscription_grants.py): distinct tokens and ascending ids.
use tele_group.Base.{ℕ, suc, ◌+◌, ◌≤◌, ◌≡◌, refl, false, List, [], ◌∷◌, ◌++◌, arith, exists-append}
use tele_group.Grants.Tables.{ActivationCode}
use tele_group.Grants.Issue.{has_token}
use tele_group.Text.{text_eq, text_eq_sym}

-- No two codes have the same token.
abbrev pub DistinctTokens : List ActivationCode → Type 0
DistinctTokens [] = Unit
DistinctTokens (c ∷ codes) = (has_token c.token codes ≡ false) × DistinctTokens codes

-- The ids ascend from `lo` and stay below `hi`.
abbrev pub AscendingCodes : ℕ → List ActivationCode → ℕ → Type 0
AscendingCodes lo [] hi = lo ≤ hi
AscendingCodes lo (c ∷ codes) hi = (lo ≤ c.id) × AscendingCodes (suc c.id) codes hi

pub DistinctTokens-append :
    (codes : List ActivationCode) (c : ActivationCode)
    → DistinctTokens codes
    → has_token c.token codes ≡ false
    → DistinctTokens (codes ++ c ∷ [])
DistinctTokens-append [] c d h = (refl, tt)
DistinctTokens-append (x ∷ codes) c d h = (
  rw (exists-append (λ y. text_eq y.token x.token) codes (c ∷ []))
      (ground (arith, d.0, text_eq_sym c.token x.token)),
  DistinctTokens-append codes c d.1 (ground arith),
)

pub AscendingCodes-append :
    (lo hi : ℕ) (codes : List ActivationCode) (c : ActivationCode)
    → AscendingCodes lo codes hi
    → c.id ≡ hi
    → AscendingCodes lo (codes ++ c ∷ []) (hi + 1)
AscendingCodes-append lo hi [] c asc e = ground arith
AscendingCodes-append lo hi (x ∷ codes) c asc e =
    (asc.0, AscendingCodes-append (suc x.id) hi codes c asc.1 e)
