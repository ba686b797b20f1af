-- ===== src/Payments/RoundTrip.antt =====
-- The payload that src/user_handlers.py prints is read back by src/payments.py.
use mathlib.Core.List.{append-nil}
use tele_group.Base.{
  length, ℕ, zero, suc, ◌+◌, ◌-◌, ◌*◌, ◌≤◌, ◌<◌, ◌≡◌, refl, ap, ◌∙◌, inl, inr, false, Option, none,
  some, [], ◌∷◌, ◌++◌, arith, ltb, Bool-cases, All, if_cases, subst, ◌/◌, ◌%◌,
}
use tele_group.Text.{
  Text, strip, lstrip, rstrip, is_space, is_empty, codes, after_prefix-append, after_prefix,
}
use tele_group.Payments.Payload.{
  digits_of, decimal, span_digits, int_of, value_or_0, parse_invoice_payload, match_payload,
  int_max_str_digits, invoice_payload, parsed, numbers, user_part, is_too_long, plan_part,
}

abbrev IsAscii : ℕ → Type 0
IsAscii c = (48 ≤ c) × (c < 58)

abbrev IsShown : ℕ → Type 0
IsShown c = is_space c ≡ false

-- Texts without spaces keep every character.
rstrip-shown : (s : Text) → All IsShown s → rstrip s ≡ s
unfolding rstrip
rstrip-shown [] h = refl
rstrip-shown (c ∷ []) h = rw h.0 refl
rstrip-shown (c ∷ d ∷ s) h = rw (rstrip-shown (d ∷ s) h.1, rstrip) refl

strip-shown : (s : Text) → All IsShown s → strip s ≡ s
unfolding strip lstrip
strip-shown [] h = rstrip-shown [] tt
strip-shown (c ∷ s) h = rw h.0 (rstrip-shown (c ∷ s) h)

All-join {κ} : (P : ℕ → Type κ) (s t : Text) → All P s → All P t → All P (s ++ t)
All-join P [] t h k = k
All-join P (c ∷ s) t h k = (h.0, All-join P s t h.1 k)

digit-IsShown : (s : Text) → All IsAscii s → All IsShown s
unfolding is_space
digit-IsShown [] h = tt
digit-IsShown (c ∷ s) h = (ground arith, digit-IsShown s h.1)

digits_of-IsAscii :
    (fuel n : ℕ) (later : Text) → All IsAscii later → All IsAscii (digits_of fuel n later)
unfolding digits_of
digits_of-IsAscii zero n later h = h
digits_of-IsAscii (suc fuel) n later h =
    if_cases (All IsAscii) (ltb n 10) {x = (48 + n) ∷ later}
      {y = digits_of fuel (n / 10) ((48 + n % 10) ∷ later)}
      (λ small. ((omega arith, ground (arith, small)), h))
      (λ _. digits_of-IsAscii fuel (n / 10) ((48 + n % 10) ∷ later) ((omega arith, omega arith), h))

digits_of-cons : (fuel n c : ℕ) (later : Text) → is_empty (digits_of fuel n (c ∷ later)) ≡ false
unfolding digits_of
digits_of-cons zero n c later = refl
digits_of-cons (suc fuel) n c later =
    if_cases (λ s. is_empty s ≡ false) (ltb n 10) {x = (48 + n) ∷ c ∷ later} (λ _. refl)
      (λ _. digits_of-cons fuel (n / 10) (48 + n % 10) (c ∷ later))

decimal-IsAscii : (n : ℕ) → All IsAscii (decimal n)
unfolding decimal
decimal-IsAscii n = digits_of-IsAscii (n + 1) n [] tt

digits_of-is_empty : (fuel n : ℕ) → is_empty (digits_of (suc fuel) n []) ≡ false
unfolding digits_of
digits_of-is_empty fuel n =
    if_cases (λ s. is_empty s ≡ false) (ltb n 10) {x = (48 + n) ∷ []} (λ _. refl)
      (λ _. digits_of-cons fuel (n / 10) (48 + n % 10) [])

decimal-is_empty : (n : ℕ) → is_empty (decimal n) ≡ false
unfolding decimal
decimal-is_empty n =
    subst (λ k. is_empty (digits_of k n []) ≡ false) {x = suc n} (omega arith)
      (digits_of-is_empty n n)

-- What Unicode says of the characters of a payload: the ten ASCII digits have their values, and the
-- underscore is no digit.
module _ (digit : ℕ → Option ℕ) (ascii : (d : ℕ) → d < 10 → digit (48 + d) ≡ some d)
    (underscore : digit 95 ≡ none) where
  digit-ascii : (c : ℕ) → IsAscii c → digit c ≡ some (c - 48)
  digit-ascii c h =
      subst (λ x. digit x ≡ some (c - 48)) (omega arith) (ascii (c - 48) (omega arith))

  int_of-digits_of :
      (fuel n : ℕ) (later : Text)
      → n < fuel
      → int_of digit 0 (digits_of fuel n later) ≡ int_of digit n later
  unfolding digits_of int_of
  int_of-digits_of zero n later h = absurd (omega arith)
  int_of-digits_of (suc fuel) n later h = elim (Bool-cases (ltb n 10)) [
    | inl small ↦ rw small (
        ap (λ v. int_of digit v later)
          (ap (λ o. 0 * 10 + value_or_0 o) (ascii n (ground (arith, small))) ∙ omega arith))
    | inr large ↦ rw large (
        int_of-digits_of fuel (n / 10) ((48 + n % 10) ∷ later) (ground (arith, large, h))
        ∙ ap (λ v. int_of digit v later)
            (ap (λ o. n / 10 * 10 + value_or_0 o) (ascii (n % 10) (omega arith)) ∙ omega arith))
  ]

  span_digits-append :
      (s rest : Text)
      → All IsAscii s
      → span_digits digit rest ≡ ([], rest)
      → span_digits digit (s ++ rest) ≡ (s, rest)
  unfolding span_digits
  span_digits-append [] rest h stops = stops
  span_digits-append (c ∷ s) rest h stops =
      rw (digit-ascii c h.0, span_digits-append s rest h.1 stops) refl

  int_of-decimal : (n : ℕ) → int_of digit 0 (decimal n) ≡ n
  unfolding decimal int_of
  int_of-decimal n = int_of-digits_of (n + 1) n [] (omega arith)

  span_digits-decimal :
      (n : ℕ) (rest : Text)
      → span_digits digit rest ≡ ([], rest)
      → span_digits digit (decimal n ++ rest) ≡ (decimal n, rest)
  span_digits-decimal n rest stops = span_digits-append (decimal n) rest (decimal-IsAscii n) stops

  span_digits-end : (n : ℕ) → span_digits digit (decimal n) ≡ (decimal n, [])
  unfolding span_digits
  span_digits-end n =
      subst (λ s. span_digits digit s ≡ (decimal n, [])) (append-nil (decimal n))
        (span_digits-decimal n [] refl)

  span_digits-underscore : (s : Text) → span_digits digit (95 ∷ s) ≡ ([], 95 ∷ s)
  unfolding span_digits
  span_digits-underscore s = rw underscore refl

  invoice_payload-IsShown : (plan_id user_id : ℕ) → All IsShown (invoice_payload plan_id user_id)
  unfolding invoice_payload is_space
  invoice_payload-IsShown plan_id user_id =
      All-join IsShown (codes "plan_") (decimal plan_id ++ (codes "_user_" ++ decimal user_id))
        (refl, (refl, (refl, (refl, (refl, tt)))))
        (All-join IsShown (decimal plan_id) (codes "_user_" ++ decimal user_id)
          (digit-IsShown (decimal plan_id) (decimal-IsAscii plan_id))
          (All-join IsShown (codes "_user_") (decimal user_id)
            (refl, (refl, (refl, (refl, (refl, (refl, tt))))))
            (digit-IsShown (decimal user_id) (decimal-IsAscii user_id))))

  module _ (plan_id user_id : ℕ) (short : length (decimal plan_id) ≤ int_max_str_digits)
      (short_user : length (decimal user_id) ≤ int_max_str_digits) where
    numbers-decimal : numbers digit (decimal plan_id) (decimal user_id) ≡ parsed plan_id user_id
    numbers-decimal =
        rw
          (
            lt_max (decimal plan_id) short,
            lt_max (decimal user_id) short_user,
            int_of-decimal plan_id,
            int_of-decimal user_id,
          )
          refl
      where
        lt_max : (s : Text) → length s ≤ int_max_str_digits → is_too_long s ≡ false
        lt_max s q = ground (arith, q)

    user_part-decimal :
        user_part digit (decimal plan_id) (some (decimal user_id)) ≡ parsed plan_id user_id
    user_part-decimal =
        rw (span_digits-end user_id, decimal-is_empty plan_id, decimal-is_empty user_id)
          numbers-decimal

    match_payload-invoice_payload :
        match_payload digit (invoice_payload plan_id user_id) ≡ parsed plan_id user_id
    unfolding match_payload invoice_payload
    match_payload-invoice_payload =
        let later = codes "_user_" ++ decimal user_id in
        ap (plan_part digit) (after_prefix-append (codes "plan_") (decimal plan_id ++ later))
        ∙ ap (λ (x : Text × Text). user_part digit x.0 (after_prefix (codes "_user_") x.1))
            (span_digits-decimal plan_id later
              (span_digits-underscore (codes "user_" ++ decimal user_id)))
        ∙ ap (user_part digit (decimal plan_id))
            (after_prefix-append (codes "_user_") (decimal user_id))
        ∙ user_part-decimal

  -- The payload that the bot writes into an invoice is read back as the same plan and the same user,
  -- if neither id has more digits than `int` takes.
  pub parse_invoice_payload-invoice_payload :
      (plan_id user_id : ℕ)
      → length (decimal plan_id) ≤ int_max_str_digits
      → length (decimal user_id) ≤ int_max_str_digits
      → parse_invoice_payload digit (some (invoice_payload plan_id user_id))
        ≡ parsed plan_id user_id
  unfolding parse_invoice_payload invoice_payload
  parse_invoice_payload-invoice_payload plan_id user_id h k =
      ap (match_payload digit)
        (strip-shown (invoice_payload plan_id user_id) (invoice_payload-IsShown plan_id user_id))
      ∙ match_payload-invoice_payload plan_id user_id h k
