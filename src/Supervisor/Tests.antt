-- ===== src/Supervisor/Tests.antt =====
-- Runs of the models of src/runtime/supervisor.py at concrete inputs.
use tele_group.Base.{
  ◌≤◌, ◌≡◌, refl, true, false, none, List, [], ◌∷◌, map, arith, All, sort_desc, insert_desc, first,
  some,
}
use tele_group.Text.{codes, text_eq}
use tele_group.Accounts.Rows.{Db, ManagedAccount, invalid, valid, enqueue_signal}
use tele_group.Accounts.Gating.{
  Plugin, accounts_that_should_run, selected_rows, load_allowed_plugins, load_plugin_overrides,
  enabled_on_plan, enabled_flag, allowed_names, stored_flag, override_of,
}
use tele_group.Supervisor.Candidates.{
  owns, list_runtime_candidates, all_candidates, candidates_of, fingerprint, same_fingerprint,
  Candidate,
}
use tele_group.Supervisor.Reconcile.{
  Shard, leased_ids, stop_slot, reconcile, id_of, is_id, apply_all, desired_rows, apply_one,
  start_slot, stop_all, unwanted, is_slot_of,
}
use tele_group.Supervisor.Rounds.{
  System, waiting, stopping, acking, acquire, read_leases, stop_leased, all_stopped, ack, ack_fails,
  choosing, choose, clearing, all_cleared, applying, apply_next, Reach, here, next, has_slot,
  AllRead,
}
use tele_group.Supervisor.Exclusion.{lease_is_acked-has_slot}
use tele_group.Supervisor.Matching.{wanted}
use tele_group.Supervisor.Status.{mark_session_status}
use tele_group.Supervisor.Invalid.{mark_session_status-has_slot}
use tele_group.Supervisor.Marks.{IsCurrent, reconcile-IsCurrent}
use tele_group.Supervisor.Backoff.{
  Backoff, leased, failed, dropped, refused, run_account_waits, fails, schedule,
  run_account_waits-schedule, waits, doubled,
}
use tele_group.Leases.Table.{
  acquire_session_lease, active_lease_ids, active_or_none, ack_session_leases, lease_is_acked,
}
use tele_group.Grants.Apply.{latest}

abbrev calc : Plugin
calc = record {
  name = codes "calc";
  commands = record { name = codes "calc" } ∷ [];
  default_enabled = true;
}

abbrev one_account : ManagedAccount
one_account = record {
  id = 7;
  user_id = 1;
  phone = codes "1";
  session_string = codes "s";
  proxy_id = none;
  device_profile_id = none;
  is_running = false;
  flood_wait_until = none;
  session_status = valid;
  is_active = false;
  code_monitor_enabled = false;
  next_creation_time = none;
  backoff_level = 0;
  last_error = none;
  deleted_at = none;
}

abbrev small : Db
small = record {
  users =
      record { id = 1; telegram_id = 100; first_name = "A"; username = none; language_code = "en" }
      ∷ [];
  plans = record { id = 3; name = "basic"; max_accounts = 2 } ∷ [];
  subscriptions =
      record { id = 1; user_id = 1; plan_id = 3; start_date = 0; end_date = 90; is_active = true }
      ∷ [];
  accounts = one_account ∷ [];
  managers = [];
  admins = [];
  account_plugins = [];
  plan_plugins = record { plan_id = 3; plugin_name = codes "calc" } ∷ [];
  leases = [];
  signals = [];
}

abbrev only_shard : Shard
only_shard = record {
  shard_id = 0;
  shard_count = 1;
  plugins = calc ∷ [];
  decrypt = λ s. s;
  digest = λ s. s;
}

abbrev start : System
start = record { db = small; slots = []; phase = waiting }

-- The bot takes the lease of account 7, and the worker reads and acknowledges it.
abbrev borrowed : System
borrowed = record start { db = acquire_session_lease 7 (codes "bot") 180 10 small }

abbrev seen : System
seen = record borrowed {
  db = (active_lease_ids 20 borrowed.db).1;
  phase = stopping (7 ∷ []) (7 ∷ []);
}

abbrev stopped : System
stopped = record seen { slots = stop_slot 7 []; phase = stopping (7 ∷ []) [] }

abbrev ready : System
ready = record stopped { phase = acking (7 ∷ []) }

let_go :
    (t : System) × (r : Reach only_shard start t) × AllRead r × (lease_is_acked 7 30 t.db ≡ true)
unfolding acquire_session_lease enqueue_signal active_or_none active_lease_ids leased_ids owns
    ack_session_leases lease_is_acked stop_slot
let_go = (
  _,
  next
      (next
        (next
          (next (next here (acquire start 7 (codes "bot") 180 10))
            (read_leases borrowed false 20 refl))
          (stop_leased seen (7 ∷ []) 7 [] refl))
        (all_stopped stopped (7 ∷ []) refl))
      (ack ready (7 ∷ []) refl),
  (((((tt, tt), refl), tt), tt), tt),
  refl,
)

lease_is_acked-has_slot_example : has_slot 7 let_go.0.slots ≡ false
lease_is_acked-has_slot_example =
    lease_is_acked-has_slot only_shard start let_go.0 refl refl let_go.1 let_go.2 7 30 let_go.3

-- Account 7 gets a client in the first round.
abbrev row_7 : Candidate
row_7 = record {
  account = record {
    account_id = 7;
    is_active = false;
    code_monitor_enabled = false;
    deleted = false;
    telegram_id = 100;
    plan_id = some 3;
  };
  end_date = 90;
  session_string = codes "s";
  proxy_id = none;
}

-- The next round can not read the leases, and gives account 7 a client beside the one of the bot.
abbrev unread : System
unread = record ready { db = ack_session_leases (7 ∷ []) ready.db; phase = waiting }

abbrev unleased : System
unleased = record unread { phase = choosing [] }

abbrev chosen : List Candidate
chosen = desired_rows only_shard [] 25 unleased.db

overlap :
    (t : System) × Reach only_shard unread t
    × (lease_is_acked 7 30 t.db ≡ true)
    × (has_slot 7 t.slots ≡ true)
unfolding acquire_session_lease enqueue_signal active_or_none active_lease_ids leased_ids owns
    ack_session_leases lease_is_acked stop_slot desired_rows list_runtime_candidates sort_desc
    insert_desc all_candidates candidates_of accounts_that_should_run selected_rows
    load_allowed_plugins load_plugin_overrides latest enabled_on_plan enabled_flag allowed_names
    text_eq stored_flag override_of unwanted apply_one start_slot fingerprint same_fingerprint
overlap = (
  _,
  next
      (next
        (next
          (next
            (next (next here (read_leases unread true 25 refl))
              (all_stopped (record unread { phase = stopping [] [] }) [] refl))
            (ack_fails (record unread { phase = acking [] }) [] refl))
          (choose unleased [] 25 refl))
        (all_cleared (record unread { phase = clearing [] chosen [] }) [] chosen refl))
      (apply_next (record unread { phase = applying [] chosen }) [] row_7 [] refl),
  refl,
  refl,
)

wants_7 : wanted only_shard 10 small ≡ row_7 ∷ []
unfolding desired_rows list_runtime_candidates sort_desc insert_desc all_candidates candidates_of
    accounts_that_should_run selected_rows load_allowed_plugins load_plugin_overrides latest
    enabled_on_plan enabled_flag allowed_names text_eq stored_flag override_of leased_ids owns
    active_lease_ids ack_session_leases
wants_7 = refl

reconcile-IsCurrent_example :
    (has_slot 7 (reconcile only_shard 10 [] small).0
      ≡ is_id (map id_of (wanted only_shard 10 small)) 7)
    × IsCurrent only_shard row_7 (first (is_slot_of 7) (reconcile only_shard 10 [] small).0)
reconcile-IsCurrent_example = reconcile-IsCurrent only_shard 10 [] small [] row_7 [] 7 wants_7 refl

reconcile_first : has_slot 7 (reconcile only_shard 10 [] small).0 ≡ true
unfolding reconcile apply_all desired_rows list_runtime_candidates sort_desc insert_desc
    all_candidates candidates_of accounts_that_should_run selected_rows load_allowed_plugins
    load_plugin_overrides latest enabled_on_plan enabled_flag allowed_names text_eq stored_flag
    override_of leased_ids fingerprint owns same_fingerprint apply_one start_slot stop_all stop_slot
    unwanted active_lease_ids ack_session_leases
reconcile_first = refl

abbrev quick : Backoff
quick = record { initial = 5; longest = 60 }

five_fails : run_account_waits quick (fails 5) ≡ 5 ∷ 10 ∷ 20 ∷ 40 ∷ 60 ∷ []
unfolding waits doubled
five_fails = refl

run_account_waits-schedule_example :
    (run_account_waits quick (fails 6) ≡ schedule quick 5 6)
    × All
        (λ k. k ≤ 60)
        (run_account_waits quick (failed ∷ dropped ∷ leased ∷ refused ∷ failed ∷ []))
run_account_waits-schedule_example =
    run_account_waits-schedule quick 6 (failed ∷ dropped ∷ leased ∷ refused ∷ failed ∷ [])
      (omega arith)

mark_7 : (mark_session_status 7 invalid none small).0 ≡ true
unfolding mark_session_status
mark_7 = refl

mark_session_status-has_slot_example :
    has_slot 7 (reconcile only_shard 10 [] (mark_session_status 7 invalid none small).1).0 ≡ false
mark_session_status-has_slot_example =
    mark_session_status-has_slot only_shard 7 10 none [] small mark_7
