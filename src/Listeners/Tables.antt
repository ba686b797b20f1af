-- ===== src/Listeners/Tables.antt =====
-- The rows of src/runtime/plugin_data.py. The id of a chat is an integer, which is negative for a
-- group: `below n` stands for `-(n + 1)`.
use tele_group.Base.{ℕ, Bool, false, List, ◌==◌}
use tele_group.Text.{Text}

pub data ChatId : Type 0 where
  above below : ℕ → ChatId

abbrev pub chat_eq : ChatId → ChatId → Bool
chat_eq (above a) (above b) = a == b
chat_eq (below a) (below b) = a == b
chat_eq _ _ = false

abbrev pub global_chat_id : ChatId
global_chat_id = above 0

pub record AutoReply : Type 0 where
  pub account_id : ℕ
  pub chat_id : ChatId
  pub keyword : Text
  pub response : Text

pub record PmPermit : Type 0 where
  pub account_id : ℕ
  pub user_id : ℕ
  pub approved : Bool
  pub warnings : ℕ
  pub blocked : Bool

pub record ChatLock : Type 0 where
  pub account_id : ℕ
  pub chat_id : ChatId
  pub lock_name : Text

pub record PluginRows : Type 0 where
  pub replies : List AutoReply
  pub permits : List PmPermit
  pub locks : List ChatLock
