-- ===== src/Lib.antt =====
-- TeleGroup: a Telegram bot that sells plans and runs the accounts of its users (Python). The
-- control bot grants plans and activation codes and switches plugins; a worker keeps the accounts
-- connected, receives their messages and runs plugin commands. Both share one database.
--
-- The parts that are modelled, and the files that model them:
--
-- Grants          src/subscription_grants.py with the rows of src/db/models.py. A session is a
--                 function from the tables that may fail; `transaction` is session_scope of
--                 src/db/engine.py, which rolls a failed session back. Grants/Ops, Issue, Redeeming
--                 and Codes hold the operations under their names in the source, Steps the relation
--                 of one committed transaction, and the other modules the proofs. A redemption that
--                 is overtaken between its read and its claim is a step of its own.
-- Actors          IncomingCommandLimit of src/runtime/actors.py: how often an owner or an admin may
--                 send a command.
-- Accounts        src/runtime/store.py and src/runtime/gating.py, with the switches of
--                 src/database.py: admins of an account, the plugins of a plan and of an account.
--                 The operations are functions on one record of tables, `Db`. Batches has the rows that
--                 gating loads for many accounts at once.
-- Commands        src/runtime/plugins.py and the roles of src/runtime/actors.py: the command that a
--                 message picks, the role of its sender and Dispatcher.handle_message. It uses Actors
--                 for the limit and Accounts for the plugins and the admins.
-- Flood           AccountLimiter of src/runtime/flood.py: the calls of one account, their gaps and the
--                 waits that Telegram asks for.
-- Leases          The session leases of src/runtime/store.py, by which the bot makes the worker let go
--                 of an account, and pause_remote_runtime and resume_remote_runtime of src/runtime/lease.py: the
--                 loop that waits for it, and the return of the lease.
-- Supervisor      src/runtime/supervisor.py: the slots that a worker keeps for the accounts of its shard.
--                 Candidates and Reconcile hold one round as a function, Rounds the same round as a
--                 relation of single steps with the bot in between, Backoff the waits of one account, and
--                 Status the marking of a session in src/database.py.
-- Listeners       src/runtime/plugin_data.py with the plugins that use its rows: automatic replies
--                 (src/plugins/autoreply.py), private message permits (src/plugins/pmpermit.py) and
--                 locks (src/plugins/locks.py). Found has the rows behind their answers. Handlers has what each does with a message, and uses
--                 Accounts for the plugins that are enabled and Commands for the trusted senders.
-- Ownership       src/database.py: the transfer and the deletion of an account, its managers and its
--                 proxy. Commands collects the operations on an account with the person who asks.
-- Payments        src/payments.py with the payment handlers of src/user_handlers.py and
--                 grant_subscription of src/database.py: payments with Telegram Stars.
-- Base, Text, Clock hold shared helpers: Boolean tests, tables as lists of rows, Python texts as lists
-- of code points, and dates.
--
-- Conventions. Numbers are natural numbers, so a Telegram id below 0 is read as 0 where the source
-- refuses both. Times are natural numbers: seconds for dates, ticks of any size for the monotonic
-- clocks. A date past the limit of datetime is a failed session in Grants and Payments. Two definitions
-- use fuel: the loop of Leases/Waiting has a round for each tick of its timeout and one more, since the
-- clock moves on in every round, and the printing of a number n in Payments/Payload n + 1 rounds, since
-- each takes a digit. All other loops are structural. Time is read once in an operation that reads it
-- more than once.
--
-- A failing database is modelled in Grants and Payments, where a session may fail, and in the rounds of
-- Supervisor/Rounds, where the reads and the acknowledgement may fail (active_or_none is the answer of
-- active_lease_ids then). Elsewhere the database does not fail: the functions of Accounts, Leases,
-- Ownership and Listeners and the round as a function in Supervisor/Reconcile are what the source does
-- when its transactions succeed. When one fails the source does not always refuse: get_pm_permit answers
-- that nothing is known of a sender, who is then counted as new; load_plugin_overrides answers {}, so
-- that a plugin runs by its default; and is_account_admin answers False, so that the listeners act on an
-- admin as on a stranger. The statements on these parts hold while the reads succeed.
--
-- Parameters, for code that is not in the repository: str.casefold (Commands, Listeners), str.upper and
-- the decimal digits of Unicode (Payments), the classes and the case of characters (Ownership), the
-- decryption and the digest of a session (Supervisor), the call of Telegram and the sleep of the event
-- loop (Flood), the random tokens (Grants) and the proxy that the database draws (Ownership). The
-- statements say what they ask of them.
--
-- Not modelled: plugin handlers and calls of Telegram, the bot's conversations and screens, texts and
-- translation, configuration, cryptography, logging, the connections of the worker, payments with
-- crypto currencies, the adding of an account, and migrations.
pub mod Base
pub mod Text
pub mod Clock
pub mod Grants
pub mod Actors
pub mod Accounts
pub mod Commands
pub mod Flood
pub mod Leases
pub mod Ownership
pub mod Payments
pub mod Supervisor
pub mod Listeners
