-- ===== src/Payments/Payload.antt =====
-- The payload of an invoice: how src/user_handlers.py prints it and `parse_invoice_payload` of
-- src/payments.py reads it. `digit` is the value of a character that Python counts as a decimal
-- digit, of any script.
use tele_group.Base.{
  ℕ, zero, suc, ◌+◌, ◌*◌, Bool, not, ◌||◌, Option, none, some, [], ◌∷◌, ◌++◌, ltb, if◌then◌else◌,
  is_some, length, ◌/◌, ◌%◌,
}
use tele_group.Text.{Text, strip, after_prefix, is_empty, codes}

-- `str(n)`. Every round takes one digit, so `n + 1` rounds are enough.
unfoldable pub digits_of : ℕ → ℕ → Text → Text
digits_of zero n later = later
digits_of (suc fuel) n later =
    let more = digits_of fuel (n / 10) ((b'0' + n % 10) ∷ later) in
    if ltb n 10 then (b'0' + n) ∷ later else more

unfoldable pub decimal : ℕ → Text
unfolding digits_of
decimal n = digits_of (n + 1) n []

-- `f"plan_{plan_id}_user_{user_id}"`
unfoldable pub invoice_payload : ℕ → ℕ → Text
invoice_payload plan_id user_id =
    codes "plan_" ++ (decimal plan_id ++ (codes "_user_" ++ decimal user_id))

-- `int` refuses a longer text of digits with a `ValueError`.
abbrev pub int_max_str_digits : ℕ
int_max_str_digits = 4300

pub data Payload : Type 0 where
  no_payload raised : Payload
  parsed : ℕ → ℕ → Payload

abbrev pub value_or_0 : Option ℕ → ℕ
value_or_0 none = 0
value_or_0 (some d) = d

abbrev pub is_too_long : Text → Bool
is_too_long ds = ltb int_max_str_digits (length ds)

module _ (digit : ℕ → Option ℕ) where
  abbrev pub is_digit : ℕ → Bool
  is_digit c = is_some (digit c)

  -- `\d*` at the start of a text, with the rest.
  unfoldable pub span_digits : Text → Text × Text
  span_digits [] = ([], [])
  span_digits (c ∷ s) =
      let rest = span_digits s in if is_digit c then (c ∷ rest.0, rest.1) else ([], c ∷ s)

  -- `int` of a text of digits.
  unfoldable pub int_of : ℕ → Text → ℕ
  int_of acc [] = acc
  int_of acc (c ∷ s) = int_of (acc * 10 + value_or_0 (digit c)) s

  abbrev pub numbers : Text → Text → Payload
  numbers ds es =
      if is_too_long ds || is_too_long es then raised else parsed (int_of 0 ds) (int_of 0 es)

  -- After `_user_`: digits up to the end of the text.
  abbrev pub user_part : Text → Option Text → Payload
  user_part ds none = no_payload
  user_part ds (some rest) =
      let user = span_digits rest in
      if is_empty ds || is_empty user.0 || not (is_empty user.1)
      then no_payload
      else numbers ds user.0

  -- After `plan_`.
  abbrev pub plan_part : Option Text → Payload
  plan_part none = no_payload
  plan_part (some rest) =
      let plan = span_digits rest in user_part plan.0 (after_prefix (codes "_user_") plan.1)

  -- `_PAYLOAD.fullmatch`, and the numbers of its groups. An underscore is no digit, so a group of
  -- digits ends where it must.
  unfoldable pub match_payload : Text → Payload
  match_payload s = plan_part (after_prefix (codes "plan_") s)

  unfoldable pub parse_invoice_payload : Option Text → Payload
  parse_invoice_payload none = no_payload
  parse_invoice_payload (some payload) =
      if is_empty payload then no_payload else match_payload (strip payload)
