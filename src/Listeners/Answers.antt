-- ===== src/Listeners/Answers.antt =====
-- The reply that src/plugins/autoreply.py chooses after a rule is saved in
-- src/runtime/plugin_data.py.
use tele_group.Base.{
  ℕ, ◌≡◌, refl, ap, ◌∙◌, inl, inr, Bool, true, some, List, [], ◌∷◌, arith, leb, Bool-cases, exists,
  first, exists-update_where, select, ==_refl, count_where, exists-snoc, first-exists,
  first-eq_some,
}
use tele_group.Text.{Text, strip, text_eq→≡, text_eq_refl}
use tele_group.Listeners.Tables.{AutoReply, ChatId, PluginRows, chat_eq, above, below}
use tele_group.Listeners.Rules.{
  saved, is_in_chat, is_rule, list_auto_replies, is_bad_rule, set_response, save_rule,
  upsert_auto_reply, max_rules, matches, choose_rule,
}

chat_eq_refl : (c : ChatId) → chat_eq c c ≡ true
chat_eq_refl (above n) = ==_refl n
chat_eq_refl (below n) = ==_refl n

-- A row that the listing keeps.
first-select :
    (p q : AutoReply → Bool) (rows : List AutoReply) {r : AutoReply}
    → first p (select q rows) ≡ some r
    → q r ≡ true
first-select p q [] h = cc
first-select p q (x ∷ rows) {r} h = elim (Bool-cases (q x)) [
  | inl kept ↦ ground (arith, h, kept, first-select p q rows {r = r})
  | inr left ↦ ground (arith, h, left, first-select p q rows {r = r})
]

module _ (account_id : ℕ) (chat_id : ChatId) (keyword response : Text) (t : PluginRows) where
  save_rule-exists :
      (save_rule account_id chat_id keyword response t).0 ≡ saved
      → exists
          (is_rule account_id chat_id keyword)
          (save_rule account_id chat_id keyword response t).1.replies
        ≡ true
  unfolding save_rule
  save_rule-exists done =
      elim (Bool-cases (exists (is_rule account_id chat_id keyword) t.replies)) [
        | inl old ↦ rw old (
            exists-update_where (is_rule account_id chat_id keyword)
              (is_rule account_id chat_id keyword) (set_response response) t.replies (λ _. refl)
            ∙ old)
        | inr new ↦
            rw new
              (elim (Bool-cases
                (leb max_rules (count_where (is_in_chat account_id chat_id) t.replies))) [
                  | inl full ↦ absurd (ground (arith, done, new, full))
                  | inr room ↦ rw room (
                      exists-snoc (is_rule account_id chat_id keyword) t.replies record {
                        account_id = account_id;
                        chat_id = chat_id;
                        keyword = keyword;
                        response = response;
                      }
                      ∙ ground
                          (arith, ==_refl account_id, chat_eq_refl chat_id, text_eq_refl keyword))
                ])
      ]

upsert-exists :
    (account_id : ℕ) (chat_id : ChatId) (keyword response : Text) (t : PluginRows)
    → (upsert_auto_reply account_id chat_id keyword response t).0 ≡ saved
    → exists
        (is_rule account_id chat_id (strip keyword))
        (upsert_auto_reply account_id chat_id keyword response t).1.replies
      ≡ true
unfolding upsert_auto_reply
upsert-exists account_id chat_id keyword response t done =
    elim (Bool-cases (is_bad_rule (strip keyword) (strip response))) [
      | inl bad ↦ absurd (ground (arith, done, bad))
      | inr fine ↦
          rw fine (
            save_rule-exists account_id chat_id (strip keyword) (strip response) t
              (rw fine at done))
    ]

module _ (casefold : Text → Text) (account_id : ℕ) (chat_id : ChatId) (text : Text) where
  listed_match :
      (keyword : Text) (rows : List AutoReply)
      → matches casefold text keyword ≡ true
      → exists (is_rule account_id chat_id keyword) rows ≡ true
      → exists (λ r. matches casefold text r.keyword) (select (is_in_chat account_id chat_id) rows)
        ≡ true
  listed_match keyword [] fits h = cc
  listed_match keyword (r ∷ rows) fits h =
      elim (Bool-cases (is_rule account_id chat_id keyword r)) [
        | inl here ↦ ground (
          arith,
          here,
          ap (matches casefold text) (text_eq→≡ r.keyword keyword (ground (arith, here))),
          fits,
        )
        | inr other ↦ elim (Bool-cases (is_in_chat account_id chat_id r)) [
          | inl same ↦ ground (arith, other, same, h, listed_match keyword rows fits)
          | inr apart ↦ ground (arith, other, apart, h, listed_match keyword rows fits)
        ]
      ]

  choose_rule-exists :
      (keyword : Text) (t : PluginRows)
      → matches casefold text keyword ≡ true
      → exists (is_rule account_id chat_id keyword) t.replies ≡ true
      → (r : AutoReply) × (choose_rule casefold account_id chat_id text t ≡ some r)
        × (is_in_chat account_id chat_id r ≡ true)
        × (matches casefold text r.keyword ≡ true)
  unfolding choose_rule list_auto_replies
  choose_rule-exists keyword t fits h =
      let fitting = λ (r : AutoReply). matches casefold text r.keyword in
      let listed = select (is_in_chat account_id chat_id) t.replies in
      let (r, found) = first-exists fitting listed (listed_match keyword t.replies fits h) in
      (
        r,
        rw found refl,
        first-select fitting (is_in_chat account_id chat_id) t.replies found,
        first-eq_some fitting listed found,
      )

  -- After a rule is saved in a chat, a text there that its keyword fits gets an answer, from a rule
  -- of this chat whose keyword fits the text: no rule for all chats comes before it.
  pub upsert-choose_rule :
      (keyword response : Text) (t : PluginRows)
      → (upsert_auto_reply account_id chat_id keyword response t).0 ≡ saved
      → matches casefold text (strip keyword) ≡ true
      → (r : AutoReply) × (choose_rule casefold account_id chat_id text
            (upsert_auto_reply account_id chat_id keyword response t).1
          ≡ some r)
        × (is_in_chat account_id chat_id r ≡ true)
        × (matches casefold text r.keyword ≡ true)
  upsert-choose_rule keyword response t done fits =
      choose_rule-exists (strip keyword) (upsert_auto_reply account_id chat_id keyword response t).1
        fits (upsert-exists account_id chat_id keyword response t done)
