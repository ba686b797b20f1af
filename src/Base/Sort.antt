-- ===== src/Base/Sort.antt =====
-- `list.sort(key=…, reverse=True)`: greatest first, entries of one key in their order.
use Prim.Native.Nat.{ℕ, ◌≤◌}
use mathlib.Core.List.{List, [], ◌∷◌}
use mathlib.Core.Logic.{inl, inr}
use native.Mathlib.Omega.{arith}
use tele_group.Base.Tests.{leb, if◌then◌else◌, if_cases, leb→le}
use tele_group.Base.Lists.{All}
use tele_group.Base.Members.{In}

module _ {A : Type 0} (key : A → ℕ) where
  unfoldable pub insert_desc : A → List A → List A
  insert_desc x [] = x ∷ []
  insert_desc x (y ∷ ys) =
      let rest = insert_desc x ys in if leb (key y) (key x) then x ∷ y ∷ ys else y ∷ rest

  unfoldable pub sort_desc : List A → List A
  sort_desc [] = []
  sort_desc (x ∷ xs) = insert_desc x (sort_desc xs)

  -- No entry that comes after an entry has a greater key.
  abbrev pub IsDescending : List A → Type 0
  IsDescending [] = Unit
  IsDescending (x ∷ xs) = All (λ y. key y ≤ key x) xs × IsDescending xs

  All-insert_desc :
      (P : A → Type 0) (x : A) (ys : List A) → P x → All P ys → All P (insert_desc x ys)
  unfolding insert_desc
  All-insert_desc P x [] h k = (h, tt)
  All-insert_desc P x (y ∷ ys) h k =
      if_cases (All P) (leb (key y) (key x)) {x = x ∷ y ∷ ys} {y = y ∷ insert_desc x ys}
        (λ _. (h, k)) (λ _. (k.0, All-insert_desc P x ys h k.1))

  All-weaken : (m n : ℕ) (ys : List A) → m ≤ n → All (λ y. key y ≤ m) ys → All (λ y. key y ≤ n) ys
  All-weaken m n [] h k = tt
  All-weaken m n (y ∷ ys) h k = (omega (arith, k.0), All-weaken m n ys h k.1)

  insert_desc-IsDescending :
      (x : A) (ys : List A) → IsDescending ys → IsDescending (insert_desc x ys)
  unfolding insert_desc
  insert_desc-IsDescending x [] h = (tt, tt)
  insert_desc-IsDescending x (y ∷ ys) h =
      if_cases IsDescending (leb (key y) (key x)) {x = x ∷ y ∷ ys} {y = y ∷ insert_desc x ys}
        (λ e. (
          (leb→le (key y) (key x) e, All-weaken (key y) (key x) ys (leb→le (key y) (key x) e) h.0),
          h,
        ))
        (λ e. (
          All-insert_desc (λ z. key z ≤ key y) x ys (ground (arith, e)) h.0,
          insert_desc-IsDescending x ys h.1,
        ))

  pub sort_desc-IsDescending : (xs : List A) → IsDescending (sort_desc xs)
  unfolding sort_desc
  sort_desc-IsDescending [] = tt
  sort_desc-IsDescending (x ∷ xs) =
      insert_desc-IsDescending x (sort_desc xs) (sort_desc-IsDescending xs)

  -- The sort keeps the entries.
  module _ (z : A) where
    In-insert_desc : (x : A) (ys : List A) → In z (insert_desc x ys) → In z (x ∷ ys)
    unfolding insert_desc
    In-insert_desc x [] = λ h. h
    In-insert_desc x (y ∷ ys) =
        if_cases (λ l. In z l → In z (x ∷ y ∷ ys)) (leb (key y) (key x)) {x = x ∷ y ∷ ys}
          {y = y ∷ insert_desc x ys} (λ _ h. h) (λ _. below (In-insert_desc x ys))
      where
        below :
            (In z (insert_desc x ys) → In z (x ∷ ys))
            → In z (y ∷ insert_desc x ys)
            → In z (x ∷ y ∷ ys)
        below out (inl e) = inr (inl e)
        below out (inr k) = elim (out k) [ inl e ↦ inl e | inr k' ↦ inr (inr k') ]

    insert_desc-In : (x : A) (ys : List A) → In z (x ∷ ys) → In z (insert_desc x ys)
    unfolding insert_desc
    insert_desc-In x [] = λ h. h
    insert_desc-In x (y ∷ ys) =
        if_cases (λ l. In z (x ∷ y ∷ ys) → In z l) (leb (key y) (key x)) {x = x ∷ y ∷ ys}
          {y = y ∷ insert_desc x ys} (λ _ h. h) (λ _. below (insert_desc-In x ys))
      where
        below :
            (In z (x ∷ ys) → In z (insert_desc x ys))
            → In z (x ∷ y ∷ ys)
            → In z (y ∷ insert_desc x ys)
        below into (inl e) = inr (into (inl e))
        below into (inr (inl e)) = inl e
        below into (inr (inr k)) = inr (into (inr k))

    pub In-sort_desc : (xs : List A) → In z (sort_desc xs) → In z xs
    unfolding sort_desc
    In-sort_desc [] h = h
    In-sort_desc (x ∷ xs) h = elim (In-insert_desc x (sort_desc xs) h) [
      | inl e ↦ inl e
      | inr k ↦ inr (In-sort_desc xs k)
    ]

    pub sort_desc-In : (xs : List A) → In z xs → In z (sort_desc xs)
    unfolding sort_desc
    sort_desc-In [] h = h
    sort_desc-In (x ∷ xs) (inl e) = insert_desc-In x (sort_desc xs) (inl e)
    sort_desc-In (x ∷ xs) (inr k) = insert_desc-In x (sort_desc xs) (inr (sort_desc-In xs k))
