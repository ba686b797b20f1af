-- ===== src/Listeners/Rules.antt =====
-- The automatic replies of src/runtime/plugin_data.py, and the reply that src/plugins/autoreply.py
-- chooses.
use tele_group.Base.{
  ℕ, Bool, true, false, ◌&&◌, ◌||◌, Option, none, some, List, [], ◌∷◌, ◌++◌, ltb, leb, ◌==◌,
  if◌then◌else◌, exists, first, is_some, length, select, delete_where, update_where, count_where,
}
use tele_group.Text.{Text, text_eq, strip, after_prefix, is_empty}
use tele_group.Listeners.Tables.{AutoReply, PluginRows, ChatId, chat_eq, global_chat_id}

abbrev pub max_rules : ℕ
max_rules = 100

pub data Saved : Type 0 where
  saved limit invalid : Saved

abbrev pub is_in_chat : ℕ → ChatId → AutoReply → Bool
is_in_chat account_id chat_id r = r.account_id == account_id && chat_eq r.chat_id chat_id

abbrev pub is_rule : ℕ → ChatId → Text → AutoReply → Bool
is_rule account_id chat_id keyword r = is_in_chat account_id chat_id r && text_eq r.keyword keyword

-- `list_auto_replies` for one chat, oldest first.
unfoldable pub list_auto_replies : ℕ → ChatId → PluginRows → List AutoReply
list_auto_replies account_id chat_id t = select (is_in_chat account_id chat_id) t.replies

abbrev pub is_bad_rule : Text → Text → Bool
is_bad_rule keyword response =
    is_empty keyword || is_empty response || ltb 80 (length keyword) || ltb 3500 (length response)

abbrev pub set_response : Text → AutoReply → AutoReply
set_response response r = record r { response = response }

-- The transaction of `upsert_auto_reply`, on the stripped texts.
unfoldable pub save_rule : ℕ → ChatId → Text → Text → PluginRows → Saved × PluginRows
save_rule account_id chat_id keyword response t =
    if exists (is_rule account_id chat_id keyword) t.replies
    then (
      saved,
      record t {
        replies =
            update_where (is_rule account_id chat_id keyword) (set_response response) t.replies;
      },
    )
    else if leb max_rules (count_where (is_in_chat account_id chat_id) t.replies)
    then (limit, t)
    else (
      saved,
      record t {
        replies =
            t.replies
            ++ record {
              account_id = account_id;
              chat_id = chat_id;
              keyword = keyword;
              response = response;
            }
              ∷ [];
      },
    )

unfoldable pub upsert_auto_reply : ℕ → ChatId → Text → Text → PluginRows → Saved × PluginRows
upsert_auto_reply account_id chat_id keyword response t =
    if is_bad_rule (strip keyword) (strip response)
    then (invalid, t)
    else save_rule account_id chat_id (strip keyword) (strip response) t

unfoldable pub delete_auto_reply : ℕ → ChatId → Text → PluginRows → Bool × PluginRows
delete_auto_reply account_id chat_id keyword t = (
  exists (is_rule account_id chat_id (strip keyword)) t.replies,
  record t { replies = delete_where (is_rule account_id chat_id (strip keyword)) t.replies },
)

-- `needle in text`
unfoldable pub contains : Text → Text → Bool
contains needle [] = is_empty needle
contains needle (c ∷ text) =
    let rest = contains needle text in is_some (after_prefix needle (c ∷ text)) || rest

abbrev pub all_ascii : Text → Bool
all_ascii [] = true
all_ascii (c ∷ s) = ltb c 128 && all_ascii s

module _ (casefold : Text → Text) where
  -- `_matches`
  unfoldable pub matches : Text → Text → Bool
  matches text keyword =
      if is_empty text || is_empty keyword
      then false
      else if all_ascii keyword
      then contains (casefold keyword) (casefold text)
      else contains keyword text

  abbrev pub or_else : Option AutoReply → Option AutoReply → Option AutoReply
  or_else none other = other
  or_else (some r) other = some r

  -- The rule that answers a text: one of the chat, or else one for all chats.
  unfoldable pub choose_rule : ℕ → ChatId → Text → PluginRows → Option AutoReply
  choose_rule account_id chat_id text t =
      or_else (first (λ r. matches text r.keyword) (list_auto_replies account_id chat_id t))
        (first (λ r. matches text r.keyword) (list_auto_replies account_id global_chat_id t))
