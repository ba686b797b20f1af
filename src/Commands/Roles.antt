-- ===== src/Commands/Roles.antt =====
-- Who sent a message, and which commands an admin may not send: `classify_actor`, `is_owner_only` and
-- `message_sender_id` of src/runtime/actors.py, `is_self_outgoing` of src/runtime/plugins.py.
use tele_group.Base.{
  ℕ, Bool, true, false, Option, none, some, List, [], ◌∷◌, ◌==◌, if◌then◌else◌, is_some,
}
use tele_group.Text.{Text, codes}
use tele_group.Accounts.Rows.{Db}
use tele_group.Accounts.Gating.{PluginAccount, get_plugin_account, has_name}
use tele_group.Actors.Limit.{Role, self, owner, admin}
use tele_group.Accounts.Admins.{is_account_admin}

-- `OWNER_ONLY_COMMANDS`. The Arabic names are written as their code points.
abbrev pub owner_only_commands : List Text
owner_only_commands =
    (1585 ∷ 1601 ∷ 1593 ∷ 32 ∷ 1575 ∷ 1583 ∷ 1605 ∷ 1606 ∷ [])
    ∷ codes "addadmin"
    ∷ (1578 ∷ 1606 ∷ 1586 ∷ 1610 ∷ 1604 ∷ 32 ∷ 1575 ∷ 1583 ∷ 1605 ∷ 1606 ∷ [])
    ∷ codes "deladmin"
    ∷ (1608 ∷ 1590 ∷ 1593 ∷ 32 ∷ 1575 ∷ 1604 ∷ 1575 ∷ 1587 ∷ 1605 ∷ [])
    ∷ codes "setname"
    ∷ (1608 ∷ 1590 ∷ 1593 ∷ 32 ∷ 1575 ∷ 1604 ∷ 1576 ∷ 1575 ∷ 1610 ∷ 1608 ∷ [])
    ∷ codes "setbio"
    ∷ (1608 ∷ 1590 ∷ 1593 ∷ 32 ∷ 1575 ∷ 1604 ∷ 1589 ∷ 1608 ∷ 1585 ∷ 1577 ∷ [])
    ∷ codes "setphoto"
    ∷ (1603 ∷ 1604 ∷ 1605 ∷ 1577 ∷ 32 ∷ 1575 ∷ 1604 ∷ 1587 ∷ 1585 ∷ [])
    ∷ codes "cloudpass"
    ∷ (1606 ∷ 1602 ∷ 1604 ∷ 32 ∷ 1605 ∷ 1604 ∷ 1603 ∷ 1610 ∷ 1577 ∷ [])
    ∷ (1606 ∷ 1602 ∷ 1604 ∷ [])
    ∷ codes "transfer"
    ∷ (1575 ∷ 1606 ∷ 1588 ∷ 1575 ∷ 1569 ∷ 32 ∷ 1603 ∷ 1585 ∷ 1608 ∷ 1576 ∷ [])
    ∷ (1575 ∷ 1606 ∷ 1588 ∷ 1575 ∷ 1569 ∷ 32 ∷ 1605 ∷ 1580 ∷ 1605 ∷ 1608 ∷ 1593 ∷ 1577 ∷ [])
    ∷ codes "create group"
    ∷ codes "creategroup"
    ∷ (1575 ∷ 1606 ∷ 1588 ∷ 1575 ∷ 1569 ∷ 32 ∷ 1602 ∷ 1606 ∷ 1575 ∷ 1577 ∷ [])
    ∷ codes "create channel"
    ∷ codes "createchannel"
    ∷ (1605 ∷ 1594 ∷ 1575 ∷ 1583 ∷ 1585 ∷ 1577 ∷ [])
    ∷ codes "leave"
    ∷ (1578 ∷ 1582 ∷ 1586 ∷ 1610 ∷ 1606 ∷ [])
    ∷ codes "storage"
    ∷ (1608 ∷ 1590 ∷ 1593 ∷ 32 ∷ 1575 ∷ 1604 ∷ 1578 ∷ 1582 ∷ 1586 ∷ 1610 ∷ 1606 ∷ [])
    ∷ codes "setlog"
    ∷ (1581 ∷ 1584 ∷ 1601 ∷ 32 ∷ 1585 ∷ 1583 ∷ 32 ∷ 1593 ∷ 1575 ∷ 1605 ∷ [])
    ∷ codes "ungfilter"
    ∷ (1581 ∷ 1584 ∷ 1601 ∷ 32 ∷ 1585 ∷ 1583 ∷ [])
    ∷ codes "unfilter"
    ∷ (1575 ∷ 1584 ∷ 1575 ∷ 1593 ∷ 1577 ∷ [])
    ∷ codes "broadcast"
    ∷ (1575 ∷ 1584 ∷ 1575 ∷ 1593 ∷ 1577 ∷ 32 ∷ 1582 ∷ 1575 ∷ 1589 ∷ [])
    ∷ codes "pbroadcast"
    ∷ (1578 ∷ 1571 ∷ 1603 ∷ 1610 ∷ 1583 ∷ 32 ∷ 1575 ∷ 1604 ∷ 1575 ∷ 1584 ∷ 1575 ∷ 1593 ∷ 1577 ∷ [])
    ∷ codes "confirmbroadcast"
    ∷ (1575 ∷ 1610 ∷ 1602 ∷ 1575 ∷ 1601 ∷ 32 ∷ 1575 ∷ 1604 ∷ 1575 ∷ 1584 ∷ 1575 ∷ 1593 ∷ 1577 ∷ [])
    ∷ codes "broadcaststop"
    ∷ (1575 ∷ 1585 ∷ 1587 ∷ 1604 ∷ 32 ∷ 1607 ∷ 1583 ∷ 1610 ∷ 1577 ∷ [])
    ∷ (1575 ∷ 1585 ∷ 1587 ∷ 1604 ∷ [])
    ∷ codes "gift"
    ∷ (1578 ∷ 1571 ∷ 1603 ∷ 1610 ∷ 1583 ∷ 32 ∷ 1575 ∷ 1604 ∷ 1607 ∷ 1583 ∷ 1610 ∷ 1577 ∷ [])
    ∷ codes "giftconfirm"
    ∷ (1575 ∷ 1604 ∷ 1594 ∷ 1575 ∷ 1569 ∷ 32 ∷ 1575 ∷ 1604 ∷ 1607 ∷ 1583 ∷ 1610 ∷ 1577 ∷ [])
    ∷ codes "giftcancel"
    ∷ []

unfoldable pub is_owner_only : Text → Bool
is_owner_only name = has_name name owner_only_commands

-- The sender of a message, where its id is a number.
pub record Sender : Type 0 where
  pub id : ℕ
  pub is_self : Bool

pub record Message : Type 0 where
  pub text : Text
  pub outgoing : Bool
  pub from_user : Option Sender

abbrev pub is_self_sender : Option Sender → Bool
is_self_sender none = false
is_self_sender (some s) = s.is_self

unfoldable pub is_self_outgoing : Message → Bool
is_self_outgoing m = if m.outgoing then true else is_self_sender m.from_user

unfoldable pub message_sender_id : Message → Option ℕ
message_sender_id m = elim m.from_user [ none ↦ none | some s ↦ some s.id ]

-- The role of a sender on an account that was read.
unfoldable pub role_on : ℕ → ℕ → Option PluginAccount → Db → Option Role
role_on account_id sender none d = none
role_on account_id sender (some a) d =
    if a.deleted
    then none
    else if a.telegram_id == sender
    then some owner
    else if is_account_admin account_id sender d
    then some admin
    else none

abbrev pub role_of_sender : ℕ → Option ℕ → ℕ → Db → Option Role
role_of_sender account_id none now d = none
role_of_sender account_id (some sender) now d =
    role_on account_id sender (get_plugin_account account_id now d) d

unfoldable pub classify_actor : ℕ → Message → ℕ → Db → Option Role
classify_actor account_id m now d =
    if is_self_outgoing m then some self else role_of_sender account_id (message_sender_id m) now d

unfoldable pub is_trusted_sender : ℕ → Message → ℕ → Db → Bool
is_trusted_sender account_id m now d = is_some (classify_actor account_id m now d)
