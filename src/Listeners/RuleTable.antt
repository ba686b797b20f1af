-- ===== src/Listeners/RuleTable.antt =====
-- What the table of automatic replies of src/runtime/plugin_data.py keeps, whatever is saved and
-- deleted.
use tele_group.Base.{
  ℕ, ◌≤◌, ◌≡◌, refl, sym, inl, inr, Bool, true, false, List, [], ◌∷◌, ◌++◌, arith, leb, Bool-cases,
  count_where, exists, All, All-append, count_where-delete_where, count_where-snoc, subst,
  update_where, All-delete_where, count_where-update_where, All-update_where, count_where-none,
}
use tele_group.Text.{Text, strip, text_eq→≡}
use tele_group.Listeners.Tables.{AutoReply, ChatId, PluginRows, chat_eq, above, below}
use tele_group.Listeners.Rules.{
  is_in_chat, is_rule, is_bad_rule, set_response, save_rule, upsert_auto_reply, delete_auto_reply,
  max_rules,
}

pub data RuleCommand : Type 0 where
  upsert : ℕ → ChatId → Text → Text → RuleCommand
  remove : ℕ → ChatId → Text → RuleCommand

unfoldable pub obey_rule : RuleCommand → PluginRows → PluginRows
obey_rule (upsert account_id chat_id keyword response) t =
    (upsert_auto_reply account_id chat_id keyword response t).1
obey_rule (remove account_id chat_id keyword) t = (delete_auto_reply account_id chat_id keyword t).1

unfoldable pub obey_rules : List RuleCommand → PluginRows → PluginRows
obey_rules [] t = t
obey_rules (c ∷ cs) t = obey_rules cs (obey_rule c t)

abbrev pub IsSound : AutoReply → Type 0
IsSound r = is_bad_rule r.keyword r.response ≡ false

-- No list is longer than the limit, no keyword of a list has two replies, and every rule has a
-- keyword and a reply of an allowed length.
pub record IsKept (t : PluginRows) : Type 0 where
  pub bounded : (a : ℕ) (c : ChatId) → count_where (is_in_chat a c) t.replies ≤ max_rules
  pub keyed : (a : ℕ) (c : ChatId) (k : Text) → count_where (is_rule a c k) t.replies ≤ 1
  pub sound : All IsSound t.replies

chat_eq→≡ : (c d : ChatId) → chat_eq c d ≡ true → c ≡ d
chat_eq→≡ (above a) (above b) h = ground (arith, h)
chat_eq→≡ (below a) (below b) h = ground (arith, h)
chat_eq→≡ (above a) (below b) h = cc
chat_eq→≡ (below a) (above b) h = cc

-- The counts of a table after a row is added whose rule it does not have yet.
module _ (row : AutoReply) (t : PluginRows) (kept : IsKept t)
    (new : exists (is_rule row.account_id row.chat_id row.keyword) t.replies ≡ false) where
  none_yet :
      (a : ℕ) (c : ChatId) (k : Text)
      → is_rule a c k row ≡ true
      → count_where (is_rule a c k) t.replies ≡ 0
  none_yet a c k h =
      subst (λ b. count_where (is_rule b c k) t.replies ≡ 0) (ground (arith, h))
        (subst (λ e. count_where (is_rule row.account_id e k) t.replies ≡ 0)
          (chat_eq→≡ row.chat_id c (ground (arith, h)))
          (subst (λ w. count_where (is_rule row.account_id row.chat_id w) t.replies ≡ 0)
            (text_eq→≡ row.keyword k (ground (arith, h)))
            (count_where-none (is_rule row.account_id row.chat_id row.keyword) t.replies new)))

  keyed-snoc :
      (a : ℕ) (c : ChatId) (k : Text) → count_where (is_rule a c k) (t.replies ++ row ∷ []) ≤ 1
  keyed-snoc a c k = elim (Bool-cases (is_rule a c k row)) [
    | inl here ↦
        ground (arith, here, count_where-snoc (is_rule a c k) t.replies row, none_yet a c k here)
    | inr other ↦
        ground (arith, other, count_where-snoc (is_rule a c k) t.replies row, kept.keyed a c k)
  ]

  module _
      (room : leb max_rules (count_where (is_in_chat row.account_id row.chat_id) t.replies)
        ≡ false) where
    has_room :
        (a : ℕ) (c : ChatId)
        → is_in_chat a c row ≡ true
        → leb max_rules (count_where (is_in_chat a c) t.replies) ≡ false
    has_room a c h =
        subst (λ b. leb max_rules (count_where (is_in_chat b c) t.replies) ≡ false)
          (ground (arith, h))
          (subst (λ e. leb max_rules (count_where (is_in_chat row.account_id e) t.replies) ≡ false)
            (chat_eq→≡ row.chat_id c (ground (arith, h))) room)

    bounded-snoc :
        (a : ℕ) (c : ChatId) → count_where (is_in_chat a c) (t.replies ++ row ∷ []) ≤ max_rules
    bounded-snoc a c = elim (Bool-cases (is_in_chat a c row)) [
      | inl here ↦
          ground (arith, here, count_where-snoc (is_in_chat a c) t.replies row, has_room a c here)
      | inr other ↦
          ground (arith, other, count_where-snoc (is_in_chat a c) t.replies row, kept.bounded a c)
    ]

    snoc-IsKept : IsSound row → IsKept (record t { replies = t.replies ++ row ∷ [] })
    snoc-IsKept fine = record {
      bounded = bounded-snoc;
      keyed = keyed-snoc;
      sound = All-append IsSound t.replies kept.sound fine;
    }

module _ (account_id : ℕ) (chat_id : ChatId) (t : PluginRows) (kept : IsKept t) where
  update-IsKept :
      (p : AutoReply → Bool) (keyword response : Text)
      → is_bad_rule keyword response ≡ false
      → IsKept (record t { replies = update_where p (set_response response) t.replies })
  update-IsKept p keyword response fine = record {
    bounded = λ a c.
        subst (λ n. n ≤ max_rules)
          (sym (
            count_where-update_where (is_in_chat a c) p (set_response response) t.replies
              (λ _. refl)))
          (kept.bounded a c);
    keyed = λ a c k.
        subst (λ n. n ≤ 1)
          (sym (
            count_where-update_where (is_rule a c k) p (set_response response) t.replies
              (λ _. refl)))
          (kept.keyed a c k);
    sound =
        All-update_where IsSound p (set_response response) t.replies
          (λ r h. ground (arith, h, fine)) kept.sound;
  }

  save_rule-IsKept :
      (keyword response : Text)
      → is_bad_rule keyword response ≡ false
      → IsKept (save_rule account_id chat_id keyword response t).1
  unfolding save_rule
  save_rule-IsKept keyword response fine =
      elim (Bool-cases (exists (is_rule account_id chat_id keyword) t.replies)) [
        | inl old ↦
            rw old (update-IsKept (is_rule account_id chat_id keyword) keyword response fine)
        | inr new ↦
            rw new
              (elim (Bool-cases
                (leb max_rules (count_where (is_in_chat account_id chat_id) t.replies))) [
                  | inl full ↦ rw full kept
                  | inr room ↦ rw room (
                      snoc-IsKept
                        record {
                          account_id = account_id;
                          chat_id = chat_id;
                          keyword = keyword;
                          response = response;
                        }
                        t kept new room fine)
                ])
      ]

upsert-IsKept :
    (account_id : ℕ) (chat_id : ChatId) (keyword response : Text) (t : PluginRows)
    → IsKept t
    → IsKept (upsert_auto_reply account_id chat_id keyword response t).1
unfolding upsert_auto_reply
upsert-IsKept account_id chat_id keyword response t kept =
    elim (Bool-cases (is_bad_rule (strip keyword) (strip response))) [
      | inl bad ↦ rw bad kept
      | inr fine ↦
          rw fine (save_rule-IsKept account_id chat_id t kept (strip keyword) (strip response) fine)
    ]

obey_rule-IsKept : (c : RuleCommand) (t : PluginRows) → IsKept t → IsKept (obey_rule c t)
unfolding obey_rule delete_auto_reply
obey_rule-IsKept (upsert account_id chat_id keyword response) t kept =
    upsert-IsKept account_id chat_id keyword response t kept
obey_rule-IsKept (remove account_id chat_id keyword) t kept =
    let gone = is_rule account_id chat_id (strip keyword) in
    record {
      bounded = λ a c.
          omega (arith, kept.bounded a c, count_where-delete_where (is_in_chat a c) gone t.replies);
      keyed = λ a c k.
          omega (arith, kept.keyed a c k, count_where-delete_where (is_rule a c k) gone t.replies);
      sound = All-delete_where IsSound gone t.replies kept.sound;
    }

-- Whatever is saved and deleted, every chat keeps at most 100 rules, one for each keyword, and each
-- rule a keyword of 1 to 80 characters with a reply of 1 to 3500, if that holds at the start.
pub obey_rules-IsKept :
    (cs : List RuleCommand) (t : PluginRows) → IsKept t → IsKept (obey_rules cs t)
unfolding obey_rules
obey_rules-IsKept [] t kept = kept
obey_rules-IsKept (c ∷ cs) t kept = obey_rules-IsKept cs (obey_rule c t) (obey_rule-IsKept c t kept)
