-- ===== src/Listeners/Warnings.antt =====
-- The warnings that src/plugins/pmpermit.py counts over a run of messages.
use tele_group.Base.{
  ℕ, ◌≡◌, ap, ◌∙◌, Bool, true, false, List, [], ◌∷◌, map, arith, if◌then◌else◌, count_where, ltb,
  none, ◌+◌, leb, suc,
}
use tele_group.Listeners.Tables.{PluginRows}
use tele_group.Listeners.Permits.{Permit, get_pm_permit, or_new, limit_or_default, count_message}
use tele_group.Listeners.Standing.{
  PermitEvent, writes, handle_events, standing, standing_after, permit, is_pair, warned,
  permit-handle_events,
}

-- The messages of strangers alone, each with its account and its sender.
abbrev pub messages : ℕ → List (ℕ × ℕ) → List PermitEvent
messages raw_limit = map (λ ((account_id, user_id) : ℕ × ℕ). writes account_id user_id raw_limit)

abbrev pub messages_of : ℕ → ℕ → List (ℕ × ℕ) → ℕ
messages_of a u = count_where (λ ((account_id, user_id) : ℕ × ℕ). is_pair account_id user_id a u)

-- An unknown sender after so many messages.
abbrev pub after_messages : ℕ → ℕ → Permit
after_messages limit n = record {
  approved = false;
  warnings = if ltb n limit then n else limit;
  blocked = leb limit n;
}

warned-after_messages :
    (raw_limit n : ℕ)
    → warned raw_limit (after_messages (limit_or_default raw_limit) n)
      ≡ after_messages (limit_or_default raw_limit) (n + 1)
unfolding count_message
warned-after_messages raw_limit n = ground arith

-- One more message, of the user if the test holds.
one_message :
    (raw_limit n count : ℕ) (after : Permit → Permit)
    → ((m : ℕ)
        → after (after_messages (limit_or_default raw_limit) m)
          ≡ after_messages (limit_or_default raw_limit) (m + count))
    → (b : Bool)
    → after (
        if b
        then warned raw_limit (after_messages (limit_or_default raw_limit) n)
        else after_messages (limit_or_default raw_limit) n)
      ≡ after_messages (limit_or_default raw_limit) (n + (if b then suc count else count))
one_message raw_limit n count after ih true =
    ap after (warned-after_messages raw_limit n)
    ∙ ih (n + 1)
    ∙ ap (after_messages (limit_or_default raw_limit)) (omega arith)
one_message raw_limit n count after ih false = ih n

standing-messages :
    (a u raw_limit n : ℕ) (ms : List (ℕ × ℕ))
    → standing a u (messages raw_limit ms) (after_messages (limit_or_default raw_limit) n)
      ≡ after_messages (limit_or_default raw_limit) (n + messages_of a u ms)
unfolding standing standing_after
standing-messages a u raw_limit n [] =
    ap (after_messages (limit_or_default raw_limit)) (omega arith)
standing-messages a u raw_limit n ((b, v) ∷ ms) =
    one_message raw_limit n (messages_of a u ms) (standing a u (messages raw_limit ms))
      (λ m. standing-messages a u raw_limit m ms) (is_pair b v a u)

-- A user of whom nothing is known has, after any messages of any users to any accounts, as many
-- warnings as messages to this account, up to the limit, is blocked exactly from the message on that
-- reaches the limit, and is not approved. A limit of 0 stands for 3.
pub handle_events-warnings :
    (a u raw_limit : ℕ) (ms : List (ℕ × ℕ)) (t : PluginRows)
    → get_pm_permit a u t ≡ none
    → permit a u (handle_events (messages raw_limit ms) t)
      ≡ after_messages (limit_or_default raw_limit) (messages_of a u ms)
unfolding permit
handle_events-warnings a u raw_limit ms t unknown =
    permit-handle_events a u (messages raw_limit ms) t
    ∙ ap (standing a u (messages raw_limit ms)) (ap or_new unknown ∙ ground arith)
    ∙ standing-messages a u raw_limit 0 ms
    ∙ ap (after_messages (limit_or_default raw_limit)) (omega arith)
