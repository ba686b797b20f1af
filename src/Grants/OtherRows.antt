-- ===== src/Grants/OtherRows.antt =====
-- The subscription rows of other users under the two branches of `_apply_subscription`
-- (src/subscription_grants.py).
use tele_group.Base.{
  ℕ, suc, ◌≡◌, ◌≢◌, refl, inl, inr, Bool, true, Option, none, some, List, [], ◌∷◌, arith, ◌==◌,
  select, update_where, In, select-append, ==→≡,
}
use mathlib.Core.List.{append-nil}
use mathlib.Core.Path.{ap, sym, ◌∙◌}
use tele_group.Grants.Tables.{Subscription}
use tele_group.Grants.Apply.{is_active_of, deactivate, drop_current, replace_rows}
use tele_group.Grants.Rows.{Ascending, is_row_of, In-above}

-- An update that leaves the rows of `v` alone does not show in them.
pub select-update_where_ne :
    (v : ℕ) (p : Subscription → Bool) (f : Subscription → Subscription) (rows : List Subscription)
    → ((s : Subscription) → (f s).user_id ≡ s.user_id)
    → ((s : Subscription) → In s rows → p s ≡ true → s.user_id ≢ v)
    → select (is_row_of v) (update_where p f rows) ≡ select (is_row_of v) rows
select-update_where_ne v p f [] same out = refl
select-update_where_ne v p f (r ∷ rows) same out =
    ground (
      arith,
      same r,
      out r (inl refl),
      select-update_where_ne v p f rows same (λ s h. out s (inr h)),
    )

-- Rows of one table with the same id are the same row.
pub In-unique :
    (lo hi : ℕ) (rows : List Subscription) (s c : Subscription)
    → Ascending lo rows hi
    → In s rows
    → In c rows
    → s.id ≡ c.id
    → s ≡ c
In-unique lo hi [] s c asc hs hc e = absurd hs
In-unique lo hi (r ∷ rows) s c asc (inl a) (inl b) e = cc
In-unique lo hi (r ∷ rows) s c asc (inl a) (inr hc) e =
    absurd
      (omega (arith, In-above (suc r.id) hi rows c asc.1 hc, ap (λ (x : Subscription). x.id) a))
In-unique lo hi (r ∷ rows) s c asc (inr hs) (inl b) e =
    absurd
      (omega (arith, In-above (suc r.id) hi rows s asc.1 hs, ap (λ (x : Subscription). x.id) b))
In-unique lo hi (r ∷ rows) s c asc (inr hs) (inr hc) e =
    In-unique (suc r.id) hi rows s c asc.1 hs hc e

-- A current row is an active row of its user in the table.
abbrev pub IsOwned : ℕ → Option Subscription → List Subscription → Type 0
IsOwned u none rows = Unit
IsOwned u (some c) rows = In c rows × (c.user_id ≡ u) × (is_active_of u c ≡ true)

pub others-drop_current :
    (v u lo hi : ℕ) (current : Option Subscription) (rows : List Subscription)
    → v ≢ u
    → Ascending lo rows hi
    → IsOwned u current rows
    → select (is_row_of v) (drop_current current rows) ≡ select (is_row_of v) rows
others-drop_current v u lo hi none rows ne asc own = refl
others-drop_current v u lo hi (some c) rows ne asc own =
    select-update_where_ne v (λ s. s.id == c.id) deactivate rows (λ s. refl)
      λ s hs e same. ne (
        sym same
        ∙ ap (λ (x : Subscription). x.user_id)
            (In-unique lo hi rows s c asc hs own.0 (==→≡ s.id c.id e))
        ∙ own.1)

pub others-replace_rows :
    (v u lo hi : ℕ) (current : Option Subscription) (row : Subscription) (rows : List Subscription)
    → v ≢ u
    → row.user_id ≡ u
    → Ascending lo rows hi
    → IsOwned u current rows
    → select (is_row_of v) (replace_rows u current row rows) ≡ select (is_row_of v) rows
unfolding replace_rows
others-replace_rows v u lo hi current row rows ne new asc own = ground (
  arith,
  select-append (is_row_of v) (update_where (is_active_of u) deactivate (drop_current current rows))
      (row ∷ []),
  select-update_where_ne v (is_active_of u) deactivate (drop_current current rows) (λ s. refl)
      (λ s hs e same. ground arith),
  others-drop_current v u lo hi current rows ne asc own,
  append-nil (select (is_row_of v) rows),
)
