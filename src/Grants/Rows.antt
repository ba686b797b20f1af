-- ===== src/Grants/Rows.antt =====
-- The subscription rows of one user under the two branches of `_apply_subscription`
-- (src/subscription_grants.py): lemmas on the table, with no session around them.
use tele_group.Base.{
  ℕ, suc, ◌+◌, ◌≤◌, ◌<◌, ◌≡◌, ◌≢◌, refl, inl, inr, Bool, true, Option, none, some, List, [], ◌∷◌,
  ◌++◌, arith, ◌==◌, Option-cases, select, update_where, In, select-append,
}
use tele_group.Grants.Tables.{Subscription}
use tele_group.Grants.Apply.{
  is_active_of, latest, deactivate, renew, extend_rows, drop_current, replace_rows,
}

-- The ids ascend from `lo` and stay below `hi`, as the database hands them out.
abbrev pub Ascending : ℕ → List Subscription → ℕ → Type 0
Ascending lo [] hi = lo ≤ hi
Ascending lo (s ∷ rows) hi = (lo ≤ s.id) × Ascending (suc s.id) rows hi

abbrev pub is_row_of : ℕ → Subscription → Bool
is_row_of v s = s.user_id == v

-- The latest of the rows is one of them.
pub latest-In : (rows : List Subscription) {s : Subscription} → latest rows ≡ some s → In s rows
unfolding latest
latest-In [] h = cc
latest-In (r ∷ rows) {s} h = elim (Option-cases (latest rows)) [
  | inl e ↦ ground arith
  | inr (best, e) ↦ ground (arith, latest-In rows {s = best} e)
]

latest-none : (rows : List Subscription) (x : Subscription) → latest rows ≡ none → In x rows → ⊥
unfolding latest
latest-none [] x h k = k
latest-none (r ∷ rows) x h k = elim (Option-cases (latest rows)) [
  | inl e ↦ ground (arith, h, e)
  | inr (best, e) ↦ ground (arith, h, e)
]

-- No row ends after the latest one.
pub latest-longest :
    (rows : List Subscription) {s : Subscription} (x : Subscription)
    → latest rows ≡ some s
    → In x rows
    → x.end_date ≤ s.end_date
unfolding latest
latest-longest [] x h k = absurd k
latest-longest (r ∷ rows) {s} x h k = elim (Option-cases (latest rows)) [
  | inl e ↦ alone e k
  | inr (best, e) ↦ among best e (λ there. latest-longest rows {s = best} x e there) k
]
  where
    alone : latest rows ≡ none → In x (r ∷ rows) → x.end_date ≤ s.end_date
    alone e (inl same) = ground (arith, e, h, same)
    alone e (inr there) = absurd (latest-none rows x e there)

    among :
        (best : Subscription)
        → latest rows ≡ some best
        → (In x rows → x.end_date ≤ best.end_date)
        → In x (r ∷ rows)
        → x.end_date ≤ s.end_date
    among best e below (inl same) = ground (arith, e, h, same)
    among best e below (inr there) = ground (arith, e, h, below there)

-- Closing the rows of a user leaves none active.
pub select-deactivate :
    (u : ℕ) (rows : List Subscription)
    → select (is_active_of u) (update_where (is_active_of u) deactivate rows) ≡ []
select-deactivate u [] = refl
select-deactivate u (r ∷ rows) = ground (arith, select-deactivate u rows)

-- Every row in an ascending table has an id in the range of the table.
pub In-above :
    (lo hi : ℕ) (rows : List Subscription) (s : Subscription)
    → Ascending lo rows hi
    → In s rows
    → lo ≤ s.id
In-above lo hi [] s asc h = absurd h
In-above lo hi (r ∷ rows) s asc (inl e) = rw (← e) asc.0
In-above lo hi (r ∷ rows) s asc (inr h) =
    let above = In-above (suc r.id) hi rows s asc.1 h in omega (arith, asc.0)

module _ (u plan_id : ℕ) (current : Subscription) (end_date : ℕ) where
  -- Past the current row nothing of the user stays active.
  extend_rows-above :
      (lo hi : ℕ) (rows : List Subscription)
      → Ascending lo rows hi
      → current.id < lo
      → select (is_active_of u) (extend_rows u plan_id current end_date rows) ≡ []
  unfolding extend_rows
  extend_rows-above lo hi [] asc h = refl
  extend_rows-above lo hi (r ∷ rows) asc h =
      ground (arith, extend_rows-above (suc r.id) hi rows asc.1 (omega arith))

  -- After an extension the current row, renewed, is the one active row of the user.
  pub select-extend_rows :
      (lo hi : ℕ) (rows : List Subscription)
      → Ascending lo rows hi
      → In current rows
      → is_active_of u current ≡ true
      → select (is_active_of u) (extend_rows u plan_id current end_date rows)
        ≡ renew plan_id end_date current ∷ []
  unfolding extend_rows
  select-extend_rows lo hi [] asc h active = absurd h
  select-extend_rows lo hi (r ∷ rows) asc (inl e) active =
      ground (arith, extend_rows-above (suc r.id) hi rows asc.1)
  select-extend_rows lo hi (r ∷ rows) asc (inr h) active = ground (
    arith,
    select-extend_rows (suc r.id) hi rows asc.1 h active,
    In-above (suc r.id) hi rows current asc.1 h,
  )

  others-above :
      (v lo hi : ℕ) (rows : List Subscription)
      → v ≢ u
      → Ascending lo rows hi
      → current.id < lo
      → select (is_row_of v) (extend_rows u plan_id current end_date rows)
        ≡ select (is_row_of v) rows
  unfolding extend_rows
  others-above v lo hi [] ne asc h = refl
  others-above v lo hi (r ∷ rows) ne asc h =
      ground (arith, others-above v (suc r.id) hi rows ne asc.1 (omega arith))

  -- The rows of other users stay as they were.
  pub others-extend_rows :
      (v lo hi : ℕ) (rows : List Subscription)
      → v ≢ u
      → current.user_id ≡ u
      → Ascending lo rows hi
      → In current rows
      → select (is_row_of v) (extend_rows u plan_id current end_date rows)
        ≡ select (is_row_of v) rows
  unfolding extend_rows
  others-extend_rows v lo hi [] ne own asc h = refl
  others-extend_rows v lo hi (r ∷ rows) ne own asc (inl e) =
      ground (arith, others-above v (suc r.id) hi rows ne asc.1)
  others-extend_rows v lo hi (r ∷ rows) ne own asc (inr h) = ground (
    arith,
    others-extend_rows v (suc r.id) hi rows ne own asc.1 h,
    In-above (suc r.id) hi rows current asc.1 h,
  )

  -- The ids stay as they were.
  pub extend_rows-Ascending :
      (lo hi : ℕ) (rows : List Subscription)
      → Ascending lo rows hi
      → Ascending lo (extend_rows u plan_id current end_date rows) hi
  unfolding extend_rows
  extend_rows-Ascending lo hi [] asc = asc
  extend_rows-Ascending lo hi (r ∷ rows) asc =
      ground (arith, extend_rows-Ascending (suc r.id) hi rows asc.1)

pub Ascending-append :
    (lo hi : ℕ) (rows : List Subscription) (row : Subscription)
    → Ascending lo rows hi
    → row.id ≡ hi
    → Ascending lo (rows ++ row ∷ []) (hi + 1)
Ascending-append lo hi [] row asc e = ground arith
Ascending-append lo hi (r ∷ rows) row asc e =
    (asc.0, Ascending-append (suc r.id) hi rows row asc.1 e)

pub Ascending-update_where :
    (p : Subscription → Bool) (f : Subscription → Subscription) (lo hi : ℕ)
    (rows : List Subscription)
    → ((s : Subscription) → (f s).id ≡ s.id)
    → Ascending lo rows hi
    → Ascending lo (update_where p f rows) hi
Ascending-update_where p f lo hi [] same asc = asc
Ascending-update_where p f lo hi (r ∷ rows) same asc =
    ground (arith, same r, Ascending-update_where p f (suc r.id) hi rows same asc.1)

pub replace_rows-Ascending :
    (u : ℕ) (current : Option Subscription) (row : Subscription) (lo hi : ℕ)
    (rows : List Subscription)
    → Ascending lo rows hi
    → row.id ≡ hi
    → Ascending lo (replace_rows u current row rows) (hi + 1)
unfolding replace_rows
replace_rows-Ascending u none row lo hi rows asc e =
    Ascending-append lo hi _ row
      (Ascending-update_where (is_active_of u) deactivate lo hi rows (λ s. refl) asc) e
replace_rows-Ascending u (some c) row lo hi rows asc e =
    Ascending-append lo hi _ row
      (Ascending-update_where (is_active_of u) deactivate lo hi _ (λ s. refl)
        (Ascending-update_where (λ s. s.id == c.id) deactivate lo hi rows (λ s. refl) asc))
      e

-- After a replacement the new row is the one active row of the user.
pub select-replace_rows :
    (u : ℕ) (current : Option Subscription) (row : Subscription) (rows : List Subscription)
    → is_active_of u row ≡ true
    → select (is_active_of u) (replace_rows u current row rows) ≡ row ∷ []
unfolding replace_rows
select-replace_rows u current row rows active =
    rw (select-append (is_active_of u), select-deactivate u (drop_current current rows), active)
