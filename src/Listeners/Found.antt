-- ===== src/Listeners/Found.antt =====
-- The rows behind the answers of `list_locks` and `choose_rule`, and the senders whom
-- `is_trusted_sender` of src/runtime/actors.py does not trust.
use tele_group.Base.{
  ℕ, ◌≡◌, ◌≢◌, ◌⊎◌, ◌∙◌, refl, ap, inl, inr, Bool, true, false, ◌&&◌, ◌||◌, some, List, [], ◌∷◌,
  map, arith, Bool-cases, Option-cases, exists, first, first-eq_some, select, select-In, In, ◌==◌,
  ==_refl, ==→≡,
}
use tele_group.Text.{Text, text_eq, text_eq→≡, codes}
use tele_group.Accounts.Rows.{Db}
use tele_group.Accounts.Gating.{PluginAccount, get_plugin_account, has_name}
use tele_group.Accounts.Admins.{is_account_admin}
use tele_group.Commands.Roles.{
  Message, classify_actor, is_trusted_sender, is_self_outgoing, message_sender_id, role_on,
}
use tele_group.Listeners.Tables.{
  ChatId, above, below, chat_eq, AutoReply, ChatLock, PluginRows, global_chat_id,
}
use tele_group.Listeners.Incoming.{
  ChatMessage, lock_matches, list_locks, is_lock_in, check, has_no_names,
}
use tele_group.Listeners.Rules.{choose_rule, list_auto_replies, is_in_chat, matches}

chat_eq→≡ : (a b : ChatId) → chat_eq a b ≡ true → a ≡ b
chat_eq→≡ (above a) (above b) h = ap above (==→≡ a b h)
chat_eq→≡ (below a) (below b) h = ap below (==→≡ a b h)
chat_eq→≡ (above a) (below b) h = cc
chat_eq→≡ (below a) (above b) h = cc

first-In : {A : Type 0} (p : A → Bool) (rows : List A) {r : A} → first p rows ≡ some r → In r rows
first-In p [] h = cc
first-In p (x ∷ rows) {r} h = elim (Bool-cases (p x)) [
  | inl e ↦ inl (ground (arith, h, e))
  | inr e ↦ inr (first-In p rows {r = r} (rw e at h))
]

-- A lock of this chat that fits the message, which is no service message.
pub record IsLocked (account_id : ℕ) (c : ChatId) (m : ChatMessage) (t : PluginRows) : Type 0 where
  pub lock : ChatLock
  pub stored : In lock t.locks
  pub of_account : lock.account_id ≡ account_id
  pub of_chat : lock.chat_id ≡ c
  pub fits : (lock.lock_name ≡ codes "all") ⊎ (check m lock.lock_name ≡ true)
  pub no_service : m.service ≡ false

module _ (account_id : ℕ) (c : ChatId) where
  lock_row :
      (q : Text → Bool) (rows : List ChatLock)
      → exists q (map (λ (r : ChatLock). r.lock_name) (select (is_lock_in account_id c) rows))
        ≡ true
      → (r : ChatLock) × In r rows × (is_lock_in account_id c r ≡ true) × (q r.lock_name ≡ true)
  lock_row q [] h = cc
  lock_row q (r ∷ rows) h = elim (Bool-cases (is_lock_in account_id c r)) [
    | inr other ↦ (let (s, k, e, f) = lock_row q rows (rw other at h) in (s, inr k, e, f))
    | inl here ↦ elim (Bool-cases (q r.lock_name)) [
      | inl fits ↦ (r, inl refl, here, fits)
      | inr not_this ↦
          (let (s, k, e, f) = lock_row q rows (ground (arith, h, here, not_this)) in
            (s, inr k, e, f))
    ]
  ]

  module _ (m : ChatMessage) (t : PluginRows) where
    names : List Text
    names = map (λ (r : ChatLock). r.lock_name) (select (is_lock_in account_id c) t.locks)

    held_by :
        (q : Text → Bool)
        → exists q names ≡ true
        → ((name : Text) → q name ≡ true → (name ≡ codes "all") ⊎ (check m name ≡ true))
        → m.service ≡ false
        → IsLocked account_id c m t
    unfolding names
    held_by q h fits plain =
        let (r, stored, here, passes) = lock_row q t.locks h in
        record {
          lock = r;
          stored = stored;
          of_account = ==→≡ r.account_id account_id (ground (arith, here));
          of_chat = chat_eq→≡ r.chat_id c (ground (arith, here));
          fits = fits r.lock_name passes;
          no_service = plain;
        }

    pub lock_matches-IsLocked :
        lock_matches m (list_locks account_id c t) ≡ true → IsLocked account_id c m t
    unfolding lock_matches list_locks names
    lock_matches-IsLocked h = elim (Bool-cases (has_no_names names || m.service)) [
      | inl none_fits ↦ absurd (ground (arith, h, none_fits))
      | inr listens ↦ elim (Bool-cases (has_name (codes "all") names)) [
        | inl all ↦
            held_by (λ n. text_eq n (codes "all")) all
              (λ name e. inl (text_eq→≡ name (codes "all") e)) (ground (arith, listens))
        | inr some_names ↦
            held_by (check m) (ground (arith, h, listens, some_names)) (λ name e. inr e)
              (ground (arith, listens))
      ]
    ]

-- A rule of this chat, or of all chats, whose keyword the text matches.
pub record IsRuleFor (casefold : Text → Text) (account_id : ℕ) (c : ChatId) (text : Text)
    (t : PluginRows) (r : AutoReply) : Type 0 where
  pub stored : In r t.replies
  pub of_account : r.account_id ≡ account_id
  pub of_chat : (r.chat_id ≡ c) ⊎ (r.chat_id ≡ global_chat_id)
  pub fits : matches casefold text r.keyword ≡ true

module _ (casefold : Text → Text) (account_id : ℕ) (text : Text) (t : PluginRows) where
  rule_row :
      (chat : ChatId) (r : AutoReply)
      → first (λ r. matches casefold text r.keyword) (list_auto_replies account_id chat t) ≡ some r
      → In r t.replies
        × (is_in_chat account_id chat r ≡ true)
        × (matches casefold text r.keyword ≡ true)
  unfolding list_auto_replies
  rule_row chat r h =
      let (here, of) = select-In (is_in_chat account_id chat) t.replies (
        first-In (λ r. matches casefold text r.keyword)
          (select (is_in_chat account_id chat) t.replies) h) in
      (
        here,
        of,
        first-eq_some (λ (r : AutoReply). matches casefold text r.keyword)
            (select (is_in_chat account_id chat) t.replies) h,
      )

  rule_of :
      (c chat : ChatId) (r : AutoReply)
      → (chat ≡ c) ⊎ (chat ≡ global_chat_id)
      → In r t.replies
        × (is_in_chat account_id chat r ≡ true)
        × (matches casefold text r.keyword ≡ true)
      → IsRuleFor casefold account_id c text t r
  rule_of c chat r which (here, of, fits) = record {
    stored = here;
    of_account = ==→≡ r.account_id account_id (ground (arith, of));
    of_chat = elim which [
      | inl e ↦ inl (chat_eq→≡ r.chat_id chat (ground (arith, of)) ∙ e)
      | inr e ↦ inr (chat_eq→≡ r.chat_id chat (ground (arith, of)) ∙ e)
    ];
    fits = fits;
  }

  pub choose_rule-IsRuleFor :
      (c : ChatId) (r : AutoReply)
      → choose_rule casefold account_id c text t ≡ some r
      → IsRuleFor casefold account_id c text t r
  unfolding choose_rule
  choose_rule-IsRuleFor c r h =
      elim (Option-cases
        (first (λ r. matches casefold text r.keyword) (list_auto_replies account_id c t))) [
          | inl e ↦ rule_of c global_chat_id r (inr refl) (rule_row global_chat_id r (rw e at h))
          | inr (s, e) ↦ rule_of c c r (inl refl) (rule_row c r (e ∙ (rw e at h)))
        ]

-- The message is not the account's own, and its sender is neither the registered owner of the account,
-- if that is not deleted, nor in the table of its admins.
pub record IsStranger (account_id : ℕ) (m : Message) (now : ℕ) (d : Db) : Type 0 where
  pub not_self : is_self_outgoing m ≡ false
  pub not_owner :
      (s : ℕ) (a : PluginAccount)
      → message_sender_id m ≡ some s
      → get_plugin_account account_id now d ≡ some a
      → a.deleted ≡ false
      → a.telegram_id ≢ s
  pub not_admin :
      (s : ℕ) (a : PluginAccount)
      → message_sender_id m ≡ some s
      → get_plugin_account account_id now d ≡ some a
      → a.deleted ≡ false
      → exists (λ r. r.account_id == account_id && r.telegram_id == s) d.admins ≡ false

pub is_trusted_sender-IsStranger :
    (account_id : ℕ) (m : Message) (now : ℕ) (d : Db)
    → is_trusted_sender account_id m now d ≡ false
    → IsStranger account_id m now d
unfolding is_trusted_sender classify_actor role_on is_account_admin
is_trusted_sender-IsStranger account_id m now d h = record {
  not_self = other;
  not_owner = λ s a sent found live same.
      absurd (ground (arith, h, other, sent, found, live, same, ==_refl s));
  not_admin = λ s a sent found live. ground (arith, h, other, sent, found, live);
}
  where
    other : is_self_outgoing m ≡ false
    other = elim (Bool-cases (is_self_outgoing m)) [
      | inl mine ↦ absurd (ground (arith, h, mine))
      | inr e ↦ e
    ]
