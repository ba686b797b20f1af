-- ===== src/Ownership/Tests.antt =====
-- Runs of the models of src/database.py on accounts and managers at concrete inputs.
use tele_group.Base.{
  ℕ, ◌-◌, ◌≡◌, refl, true, false, ◌&&◌, none, some, [], ◌∷◌, arith, ltb, leb, ◌==◌, if◌then◌else◌,
  exists, ◌⊎◌,
}
use tele_group.Text.{codes, strip, lstrip, rstrip, is_space}
use tele_group.Grants.Tables.{User}
use tele_group.Grants.Apply.{latest}
use tele_group.Accounts.Rows.{Db, ManagedAccount, valid, enqueue_signal, may_manage, user_owns}
use tele_group.Payments.Payload.{int_of}
use tele_group.Ownership.Target.{Unicode, read_target, get_or_create_user}
use tele_group.Ownership.Transfer.{
  ok, recipient_plan_full, transfer_managed_account, transfer_to, move_to, move_on_plan,
  move_account, user_is_owner, internal_user_id, details_subscription,
}
use tele_group.Ownership.Commands.{delete, obey_account, may_ask, others}
use tele_group.Ownership.Rights.{MayAsk, obey_account-MayAsk}
use tele_group.Ownership.Managing.{add_account_manager, remove_account_manager}
use tele_group.Ownership.Managers.{account_managers-may_manage}

abbrev ascii : Unicode
ascii = record {
  isdigit = λ c. leb 48 c && ltb c 58;
  digit = λ c. if leb 48 c && ltb c 58 then some (c - 48) else none;
  isalnum = λ c. leb 48 c && ltb c 123;
  lower = λ s. s;
  sql_lower = λ s. s;
}

abbrev anna : User
anna = record { id = 1; telegram_id = 100; first_name = "A"; username = none; language_code = "en" }

abbrev ben : User
ben = record { id = 2; telegram_id = 200; first_name = "B"; username = none; language_code = "en" }

abbrev account : ℕ → ℕ → ManagedAccount
account i owner = record {
  id = i;
  user_id = owner;
  phone = codes "1";
  session_string = codes "s";
  proxy_id = none;
  device_profile_id = none;
  is_running = false;
  flood_wait_until = none;
  session_status = valid;
  is_active = true;
  code_monitor_enabled = false;
  next_creation_time = none;
  backoff_level = 0;
  last_error = none;
  deleted_at = none;
}

-- Ben's plan has room for one account.
abbrev before : Db
before = record {
  users = anna ∷ ben ∷ [];
  plans = record { id = 3; name = "basic"; max_accounts = 1 } ∷ [];
  subscriptions =
      record { id = 1; user_id = 2; plan_id = 3; start_date = 0; end_date = 90; is_active = true }
      ∷ [];
  accounts = account 7 1 ∷ account 8 1 ∷ [];
  managers = [];
  admins = [];
  account_plugins = [];
  plan_plugins = [];
  leases = [];
  signals = [];
}

abbrev after : Db
after = record before { accounts = account 7 2 ∷ account 8 1 ∷ [] }

one_moves : (transfer_managed_account ascii 7 100 (codes " 200 ") 3 before).0 ≡ ok
unfolding transfer_managed_account user_is_owner internal_user_id strip lstrip rstrip is_space
    read_target int_of transfer_to get_or_create_user move_to details_subscription latest
    move_on_plan move_account enqueue_signal
one_moves = refl

second_stays : (transfer_managed_account ascii 8 100 (codes "200") 3 after).0 ≡ recipient_plan_full
unfolding transfer_managed_account user_is_owner internal_user_id strip lstrip rstrip is_space
    read_target int_of transfer_to get_or_create_user move_to details_subscription latest
    move_on_plan move_account enqueue_signal
second_stays = refl

obey_account-MayAsk_example :
    (MayAsk (delete 7 100 50) before
      ⊎ ((obey_account ascii (delete 7 100 50) before).accounts ≡ before.accounts))
    × (others 7 (obey_account ascii (delete 7 100 50) before) ≡ others 7 before)
obey_account-MayAsk_example = obey_account-MayAsk ascii before (delete 7 100 50) (omega arith)

ben_may_not : may_ask (delete 7 200 50) before ≡ false
unfolding user_owns
ben_may_not = refl

anna_known : internal_user_id 100 before ≡ some 1
unfolding internal_user_id
anna_known = refl

account_managers-may_manage_example :
    (may_manage 200 (add_account_manager 100 200 before).1 (account 7 1) ≡ true)
    × (may_manage 200 (remove_account_manager 100 200 before).1 (account 7 1)
        ≡ exists (λ u. u.id == 1 && u.telegram_id == 200) before.users)
account_managers-may_manage_example =
    account_managers-may_manage 100 200 1 before anna_known refl (account 7 1) refl
