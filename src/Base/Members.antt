-- ===== src/Base/Members.antt =====
-- The rows of a table.
use mathlib.Core.Path.{◌≡◌, refl, ap, ◌∙◌, subst}
use mathlib.Core.Bool.{Bool, true}
use mathlib.Core.List.{List, [], ◌∷◌, ◌++◌}
use native.Mathlib.Omega.{arith}
use mathlib.Core.Logic.{◌⊎◌, inl, inr}
use tele_group.Base.Tests.{Bool-cases}
use tele_group.Base.Lists.{All, select}

module _ {A : Type 0} where
  -- The row is in the table.
  abbrev pub In : A → List A → Type 0
  In s [] = ⊥
  In s (r ∷ rows) = (r ≡ s) ⊎ In s rows

  pub All-In {κ} : (P : A → Type κ) (xs : List A) {x : A} → All P xs → In x xs → P x
  All-In P [] h k = absurd k
  All-In P (y ∷ xs) h (inl e) = subst P e h.0
  All-In P (y ∷ xs) h (inr k) = All-In P xs h.1 k

  pub select-In :
      (p : A → Bool) (rows : List A) {s : A} → In s (select p rows) → In s rows × (p s ≡ true)
  select-In p [] h = absurd h
  select-In p (r ∷ rows) {s} h = elim (Bool-cases (p r)) [
    | inl e ↦ keep e (select-In p rows {s = s}) (rw e at h)
    | inr e ↦ let below = select-In p rows (rw e at h) in (inr below.0, below.1)
  ]
    where
      keep :
          p r ≡ true
          → (In s (select p rows) → In s rows × (p s ≡ true))
          → In s (r ∷ select p rows)
          → In s (r ∷ rows) × (p s ≡ true)
      keep e rest (inl same) = (inl same, rw same at e)
      keep e rest (inr below) = (inr (rest below).0, (rest below).1)

  pub In-select :
      (p : A → Bool) (rows : List A) {s : A} → In s rows → p s ≡ true → In s (select p rows)
  In-select p [] h e = absurd h
  In-select p (r ∷ rows) {s} (inl same) e = rw (ap p same ∙ e) (inl same)
  In-select p (r ∷ rows) {s} (inr k) e = elim (Bool-cases (p r)) [
    | inl t ↦ rw t (inr (In-select p rows k e))
    | inr f ↦ rw f (In-select p rows k e)
  ]

  pub select-append :
      (p : A → Bool) (xs ys : List A) → select p (xs ++ ys) ≡ select p xs ++ select p ys
  select-append p [] ys = refl
  select-append p (x ∷ xs) ys = ground (arith, select-append p xs ys)
