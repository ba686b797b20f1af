-- ===== src/Listeners/Incoming.antt =====
-- A message as the listening plugins read it (`src/plugins/common.py`), and the locks of a chat in
-- src/runtime/plugin_data.py. `link` is the answer of `has_link`.
use tele_group.Base.{
  ℕ, Bool, true, false, not, ◌&&◌, ◌||◌, Option, some, List, [], ◌∷◌, ◌++◌, map, ◌==◌,
  if◌then◌else◌, exists, select, delete_where,
}
use tele_group.Text.{Text, text_eq, codes, is_empty}
use tele_group.Accounts.Gating.{has_name}
use tele_group.Commands.Roles.{Message}
use tele_group.Listeners.Tables.{ChatId, chat_eq, ChatLock, PluginRows}

pub data ChatKind : Type 0 where
  private group supergroup forum channel other_kind : ChatKind

abbrev pub is_group_chat : ChatKind → Bool
is_group_chat group = true
is_group_chat supergroup = true
is_group_chat forum = true
is_group_chat _ = false

abbrev pub is_private_chat : ChatKind → Bool
is_private_chat private = true
is_private_chat _ = false

pub record ChatMessage : Type 0 where
  pub message : Message
  pub kind : ChatKind
  pub chat_id : Option ChatId
  pub message_id : Option ℕ
  pub me_id : Option ChatId
  pub sender_is_bot : Bool
  pub service : Bool
  pub link : Bool
  pub photo : Bool
  pub video : Bool
  pub audio : Bool
  pub document : Bool
  pub voice : Bool
  pub video_note : Bool
  pub animation : Bool
  pub gif : Bool
  pub sticker : Bool
  pub forwarded : Bool

abbrev pub same_chat : Option ChatId → Option ChatId → Bool
same_chat (some a) (some b) = chat_eq a b
same_chat _ _ = false

-- `is_saved_chat`
abbrev pub is_saved_chat : ChatMessage → Bool
is_saved_chat m = same_chat m.chat_id m.me_id

abbrev pub has_media : ChatMessage → Bool
has_media m =
    m.photo || m.video || m.audio || m.document || m.voice || m.video_note || m.animation
    || m.sticker

-- `checks.get(name, False)`
unfoldable pub check : ChatMessage → Text → Bool
check m name =
    if text_eq name (codes "links")
    then m.link
    else if text_eq name (codes "photos")
    then m.photo
    else if text_eq name (codes "videos")
    then m.video
    else if text_eq name (codes "stickers")
    then m.sticker
    else if text_eq name (codes "gifs")
    then m.animation || m.gif
    else if text_eq name (codes "voice")
    then m.voice || m.video_note || m.audio
    else if text_eq name (codes "forwards")
    then m.forwarded
    else if text_eq name (codes "media")
    then has_media m
    else if text_eq name (codes "text")
    then not (is_empty m.message.text) && not (has_media m)
    else false

abbrev pub has_no_names : List Text → Bool
has_no_names [] = true
has_no_names (_ ∷ _) = false

unfoldable pub lock_matches : ChatMessage → List Text → Bool
lock_matches m locks =
    if has_no_names locks || m.service
    then false
    else if has_name (codes "all") locks
    then true
    else exists (check m) locks

abbrev pub is_lock_in : ℕ → ChatId → ChatLock → Bool
is_lock_in account_id chat_id r = r.account_id == account_id && chat_eq r.chat_id chat_id

abbrev pub is_lock : ℕ → ChatId → Text → ChatLock → Bool
is_lock account_id chat_id name r = is_lock_in account_id chat_id r && text_eq r.lock_name name

-- `list_locks`, without the order that its caller forgets.
unfoldable pub list_locks : ℕ → ChatId → PluginRows → List Text
list_locks account_id chat_id t =
    map (λ (r : ChatLock). r.lock_name) (select (is_lock_in account_id chat_id) t.locks)

unfoldable pub add_lock : ℕ → ChatId → Text → PluginRows → PluginRows
add_lock account_id chat_id name t = record t {
  locks =
      if exists (is_lock account_id chat_id name) t.locks
      then t.locks
      else t.locks ++ record { account_id = account_id; chat_id = chat_id; lock_name = name } ∷ [];
}

unfoldable pub remove_lock : ℕ → ChatId → Text → PluginRows → Bool × PluginRows
remove_lock account_id chat_id name t = (
  exists (is_lock account_id chat_id name) t.locks,
  record t { locks = delete_where (is_lock account_id chat_id name) t.locks },
)
