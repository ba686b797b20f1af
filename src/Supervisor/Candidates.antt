-- ===== src/Supervisor/Candidates.antt =====
-- `list_runtime_candidates` of src/runtime/store.py and `_fingerprint` of src/runtime/supervisor.py.
-- `decrypt` is the decryption of a stored session, `digest` the SHA-256 of a text.
use tele_group.Base.{
  ℕ, Bool, true, false, not, ◌&&◌, Option, none, some, List, [], ◌∷◌, ◌++◌, ◌==◌, if◌then◌else◌,
  first, is_none, sort_desc, ◌%◌, select,
}
use tele_group.Text.{Text, text_eq}
use tele_group.Grants.Tables.{User, Subscription}
use tele_group.Grants.Apply.{latest, is_current_of}
use tele_group.Accounts.Rows.{Db, ManagedAccount, SessionStatus, invalid}
use tele_group.Accounts.Gating.{PluginAccount}

-- A row of the listing: what gating reads, when the subscription ends, and what a client needs.
pub record Candidate : Type 0 where
  pub account : PluginAccount
  pub end_date : ℕ
  pub session_string : Text
  pub proxy_id : Option ℕ

abbrev pub is_invalid : SessionStatus → Bool
is_invalid invalid = true
is_invalid _ = false

-- The conditions of the listing on the row of the account.
abbrev pub may_run : ℕ → ℕ → ManagedAccount → Bool
may_run shard_id shard_count a =
    is_none a.deleted_at && not (is_invalid a.session_status) && a.id % shard_count == shard_id

abbrev pub candidate_of : (Text → Text) → ManagedAccount → User → Subscription → Candidate
candidate_of decrypt a u s = record {
  account = record {
    account_id = a.id;
    is_active = a.is_active;
    code_monitor_enabled = a.code_monitor_enabled;
    deleted = false;
    telegram_id = u.telegram_id;
    plan_id = some s.plan_id;
  };
  end_date = s.end_date;
  session_string = decrypt a.session_string;
  proxy_id = a.proxy_id;
}

-- The row of an account with the subscription that ends last: the first one that the loop sees.
abbrev pub with_rows :
    (Text → Text) → ManagedAccount → Option User → Option Subscription → List Candidate
with_rows decrypt a (some u) (some s) = candidate_of decrypt a u s ∷ []
with_rows decrypt a _ _ = []

unfoldable pub candidates_of : (Text → Text) → ℕ → Db → ManagedAccount → List Candidate
candidates_of decrypt now d a =
    with_rows decrypt a (first (λ u. u.id == a.user_id) d.users)
      (latest (select (is_current_of a.user_id now) d.subscriptions))

unfoldable pub all_candidates : (Text → Text) → ℕ → Db → List ManagedAccount → List Candidate
all_candidates decrypt now d [] = []
all_candidates decrypt now d (a ∷ rows) =
    candidates_of decrypt now d a ++ all_candidates decrypt now d rows

-- `list_runtime_candidates`. A database refuses the remainder by 0, which lists nothing.
unfoldable pub list_runtime_candidates : (Text → Text) → ℕ → ℕ → ℕ → Db → List Candidate
list_runtime_candidates decrypt shard_id shard_count now d =
    if shard_count == 0
    then []
    else sort_desc (λ c. c.end_date)
        (all_candidates decrypt now d (select (may_run shard_id shard_count) d.accounts))

pub record Fingerprint : Type 0 where
  pub proxy : Option ℕ
  pub session : Text

unfoldable pub fingerprint : (Text → Text) → Candidate → Fingerprint
fingerprint digest c = record { proxy = c.proxy_id; session = digest c.session_string }

abbrev pub same_proxy : Option ℕ → Option ℕ → Bool
same_proxy none none = true
same_proxy (some a) (some b) = a == b
same_proxy _ _ = false

unfoldable pub same_fingerprint : Fingerprint → Fingerprint → Bool
same_fingerprint f g = same_proxy f.proxy g.proxy && text_eq f.session g.session

-- `Supervisor._owns`
unfoldable pub owns : ℕ → ℕ → ℕ → Bool
owns shard_id shard_count account_id =
    if shard_count == 0 then false else account_id % shard_count == shard_id
