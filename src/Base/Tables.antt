-- ===== src/Base/Tables.antt =====
-- Lemmas on the statements on tables.
use Prim.Native.Nat.{◌+◌, ◌≤◌}
use mathlib.Core.Path.{◌≡◌, refl}
use mathlib.Core.Bool.{Bool, true, false, ◌||◌}
use mathlib.Core.Option.{none, some}
use mathlib.Core.List.{List, [], ◌∷◌, ◌++◌}
use native.Mathlib.Omega.{arith}
use mathlib.Core.Logic.{inl, inr}
use tele_group.Base.Tests.{if◌then◌else◌, Bool-cases, if_cases}
use tele_group.Base.Lists.{length, All, first, count_where, update_where, delete_where, exists}

module _ {ℓ} {A : Type ℓ} where
  pub length-append : (xs ys : List A) → length (xs ++ ys) ≡ length xs + length ys
  length-append [] ys = omega arith
  length-append (x ∷ xs) ys = omega (arith, length-append xs ys)

  pub count_where-append :
      (p : A → Bool) (xs ys : List A)
      → count_where p (xs ++ ys) ≡ count_where p xs + count_where p ys
  count_where-append p [] ys = omega arith
  count_where-append p (x ∷ xs) ys = ground (arith, count_where-append p xs ys)

  pub length-update_where :
      (p : A → Bool) (f : A → A) (xs : List A) → length (update_where p f xs) ≡ length xs
  length-update_where p f [] = refl
  length-update_where p f (x ∷ xs) = omega (arith, length-update_where p f xs)

  pub first-append :
      (p : A → Bool) (xs : List A) (y : A)
      → first p xs ≡ none
      → p y ≡ true
      → first p (xs ++ y ∷ []) ≡ some y
  first-append p [] y h e = ground arith
  first-append p (x ∷ xs) y h e = ground (arith, first-append p xs y)

  pub first-eq_some : (p : A → Bool) (xs : List A) {y : A} → first p xs ≡ some y → p y ≡ true
  first-eq_some p [] h = cc
  first-eq_some p (x ∷ xs) {y} h = ground (arith, first-eq_some p xs {y = y})

  -- An update that matches no row changes nothing.
  pub update_where_none :
      (p : A → Bool) (f : A → A) (xs : List A) → exists p xs ≡ false → update_where p f xs ≡ xs
  update_where_none p f [] h = refl
  update_where_none p f (x ∷ xs) h = ground (arith, update_where_none p f xs)

  pub exists-append :
      (p : A → Bool) (xs ys : List A) → exists p (xs ++ ys) ≡ (exists p xs || exists p ys)
  exists-append p [] ys = refl
  exists-append p (x ∷ xs) ys = ground (arith, exists-append p xs ys)

  -- The row that an update of every match leaves in front.
  pub first-update_where :
      (p : A → Bool) (f : A → A) (xs : List A) {x : A}
      → ((y : A) → p (f y) ≡ p y)
      → first p xs ≡ some x
      → first p (update_where p f xs) ≡ some (f x)
  first-update_where p f [] k h = cc
  first-update_where p f (y ∷ xs) {x} k h = elim (Bool-cases (p y)) [
    | inl e ↦ ground (arith, k y)
    | inr e ↦ ground (arith, first-update_where p f xs {x = x} k)
  ]

  -- A search that agrees on every row before and after an update.
  pub first-update_other :
      (p q : A → Bool) (f : A → A) (xs : List A)
      → ((y : A) → q y ≡ true → (p (f y) ≡ false) × (p y ≡ false))
      → first p (update_where q f xs) ≡ first p xs
  first-update_other p q f [] k = refl
  first-update_other p q f (y ∷ xs) k = elim (Bool-cases (q y)) [
    | inl e ↦ ground (arith, k y e, first-update_other p q f xs k)
    | inr e ↦ ground (arith, first-update_other p q f xs k)
  ]

  pub first-exists :
      (p : A → Bool) (xs : List A) → exists p xs ≡ true → (x : A) × (first p xs ≡ some x)
  first-exists p [] h = cc
  first-exists p (x ∷ xs) h = elim (Bool-cases (p x)) [
    | inl e ↦ (x, rw e refl)
    | inr e ↦ rw e (first-exists p xs (ground arith))
  ]

  pub exists-first : (p : A → Bool) (xs : List A) {x : A} → first p xs ≡ some x → exists p xs ≡ true
  exists-first p [] h = cc
  exists-first p (y ∷ xs) {x} h = ground (arith, exists-first p xs {x = x})

  pub first-none : (p : A → Bool) (xs : List A) → exists p xs ≡ false → first p xs ≡ none
  first-none p [] h = refl
  first-none p (x ∷ xs) h = ground (arith, first-none p xs)

  pub exists-cong :
      (p q : A → Bool) (xs : List A) → ((x : A) → p x ≡ q x) → exists p xs ≡ exists q xs
  exists-cong p q [] h = refl
  exists-cong p q (x ∷ xs) h = ground (arith, h x, exists-cong p q xs h)

  pub first-snoc :
      (p : A → Bool) (xs : List A) (y : A) → p y ≡ false → first p (xs ++ y ∷ []) ≡ first p xs
  first-snoc p [] y h = ground arith
  first-snoc p (x ∷ xs) y h = ground (arith, first-snoc p xs y h)

  pub count_where-none : (p : A → Bool) (xs : List A) → exists p xs ≡ false → count_where p xs ≡ 0
  count_where-none p [] h = refl
  count_where-none p (x ∷ xs) h = ground (arith, count_where-none p xs)

  pub exists-none : (p : A → Bool) (xs : List A) → count_where p xs ≤ 0 → exists p xs ≡ false
  exists-none p [] h = refl
  exists-none p (x ∷ xs) h = ground (arith, h, exists-none p xs)

  pub count_where-snoc :
      (p : A → Bool) (xs : List A) (y : A)
      → count_where p (xs ++ y ∷ []) ≡ count_where p xs + (if p y then 1 else 0)
  count_where-snoc p [] y = ground arith
  count_where-snoc p (x ∷ xs) y = ground (arith, count_where-snoc p xs y)

  pub exists-snoc :
      (p : A → Bool) (xs : List A) (y : A) → exists p (xs ++ y ∷ []) ≡ (exists p xs || p y)
  exists-snoc p [] y = ground arith
  exists-snoc p (x ∷ xs) y = ground (arith, exists-snoc p xs y)

  pub count_where-update_where :
      (p q : A → Bool) (f : A → A) (xs : List A)
      → ((x : A) → p (f x) ≡ p x)
      → count_where p (update_where q f xs) ≡ count_where p xs
  count_where-update_where p q f [] h = refl
  count_where-update_where p q f (x ∷ xs) h =
      ground (arith, h x, count_where-update_where p q f xs h)

  pub exists-update_where :
      (p q : A → Bool) (f : A → A) (xs : List A)
      → ((x : A) → p (f x) ≡ p x)
      → exists p (update_where q f xs) ≡ exists p xs
  exists-update_where p q f [] h = refl
  exists-update_where p q f (x ∷ xs) h = ground (arith, h x, exists-update_where p q f xs h)

  pub count_where-delete_where :
      (p q : A → Bool) (xs : List A) → count_where p (delete_where q xs) ≤ count_where p xs
  count_where-delete_where p q [] = omega arith
  count_where-delete_where p q (x ∷ xs) = ground (arith, count_where-delete_where p q xs)

  pub exists-delete_where :
      (p q : A → Bool) (xs : List A) → exists p xs ≡ false → exists p (delete_where q xs) ≡ false
  exists-delete_where p q [] h = refl
  exists-delete_where p q (x ∷ xs) h = ground (arith, exists-delete_where p q xs)

  pub All-delete_where {κ} :
      (P : A → Type κ) (q : A → Bool) (xs : List A) → All P xs → All P (delete_where q xs)
  All-delete_where P q [] h = tt
  All-delete_where P q (x ∷ xs) h =
      if_cases (All P) (q x) {x = delete_where q xs} (λ _. All-delete_where P q xs h.1)
        (λ _. (h.0, All-delete_where P q xs h.1))

  pub All-update_where {κ} :
      (P : A → Type κ) (q : A → Bool) (f : A → A) (xs : List A)
      → ((x : A) → P x → P (f x))
      → All P xs
      → All P (update_where q f xs)
  All-update_where P q f [] k h = tt
  All-update_where P q f (x ∷ xs) k h =
      (if_cases P (q x) (λ _. k x h.0) (λ _. h.0), All-update_where P q f xs k h.1)

  pub All-append {κ} :
      (P : A → Type κ) (xs : List A) {y : A} → All P xs → P y → All P (xs ++ y ∷ [])
  All-append P [] h k = (k, tt)
  All-append P (x ∷ xs) h k = (h.0, All-append P xs h.1 k)
