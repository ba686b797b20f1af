-- ===== src/Grants/Tables.antt =====
-- The rows of src/db/models.py that src/subscription_grants.py reads and writes, and a session over
-- them. A session is a function from the tables: `none` is an exception, which
-- `session_scope` of src/db/engine.py answers with a rollback.
use tele_group.Text.{Text}
use tele_group.Base.{ℕ, String, Bool, Option, none, some, List, ◌≡◌, refl}

pub data Action : Type 0 where
  grant extend replace revoke : Action

pub data Source : Type 0 where
  manual code : Source

pub data ErrorCode : Type 0 where
  invalid_target username_unknown plan_not_found invalid_duration choose_mode : ErrorCode
  no_subscription db_error invalid_batch invalid_expiry not_revocable : ErrorCode
  invalid_code used_code expired_code revoked_code : ErrorCode

pub record User : Type 0 where
  pub id : ℕ
  pub telegram_id : ℕ
  pub first_name : String
  pub username : Option String
  pub language_code : String

pub record Plan : Type 0 where
  pub id : ℕ
  pub name : String
  pub max_accounts : ℕ

pub record Subscription : Type 0 where
  pub id : ℕ
  pub user_id : ℕ
  pub plan_id : ℕ
  pub start_date : ℕ
  pub end_date : ℕ
  pub is_active : Bool

pub record ActivationCode : Type 0 where
  pub id : ℕ
  pub token : Text
  pub plan_id : ℕ
  pub duration_days : ℕ
  pub created_by : ℕ
  pub expires_at : Option ℕ
  pub used_at : Option ℕ
  pub used_by : Option ℕ
  pub revoked_at : Option ℕ
  pub revoked_by : Option ℕ

pub record PlanGrant : Type 0 where
  pub admin_telegram_id : ℕ
  pub target_user_id : ℕ
  pub plan_id : ℕ
  pub duration_days : ℕ
  pub source : Source
  pub action : Action
  pub activation_code_id : Option ℕ

-- The tables, and the id that the next row of each gets.
pub record Tables : Type 0 where
  pub plans : List Plan
  pub users : List User
  pub next_user : ℕ
  pub subscriptions : List Subscription
  pub next_subscription : ℕ
  pub codes : List ActivationCode
  pub next_code : ℕ
  pub grants : List PlanGrant

abbrev pub Session : Type 0 → Type 0
Session A = Tables → Option (A × Tables)

abbrev pub pure : {A : Type 0} → A → Session A
pure a t = some (a, t)

abbrev pub raise : {A : Type 0} → Session A
raise t = none

abbrev pub or_raise : {A : Type 0} → Option A → Session A
or_raise none t = none
or_raise (some a) t = some (a, t)

abbrev pub reads : {A : Type 0} → (Tables → A) → Session A
reads f t = some (f t, t)

abbrev pub writes : (Tables → Tables) → Session (Unit {0})
writes f t = some (tt, f t)

infixl 5 ◌>>=◌ ◌>>◌
abbrev pub ◌>>=◌ : {A B : Type 0} → Session A → (A → Session B) → Session B
◌>>=◌ m f t = elim (m t) [ none ↦ none | some (a, t') ↦ f a t' ]

abbrev pub ◌>>◌ : {B : Type 0} → Session (Unit {0}) → Session B → Session B
m >> k = m >>= λ _. k

abbrev pub settle : {A : Type 0} → A → Tables → Option (A × Tables) → A × Tables
settle failed t none = (failed, t)
settle failed t (some r) = r

-- `async with session_scope()` inside `try … except Exception: return failed`
abbrev pub transaction : {A : Type 0} → A → Session A → Tables → A × Tables
transaction failed m t = settle failed t (m t)

-- A chain that ends has its first part end.
pub >>=-eq_some :
    {A B : Type 0} (m : Session A) (f : A → Session B) (t : Tables) {r : B × Tables}
    → (m >>= f) t ≡ some r
    → (a : A) × (t' : Tables) × (m t ≡ some (a, t')) × (f a t' ≡ some r)
>>=-eq_some {A} {B} m f t {r} h = go (m t) refl h
  where
    go :
        (o : Option (A × Tables))
        → m t ≡ o
        → elim o as (λ _. Option (B × Tables)) [ none ↦ none | some (a, t') ↦ f a t' ] ≡ some r
        → (a : A) × (t' : Tables) × (m t ≡ some (a, t')) × (f a t' ≡ some r)
    go none e k = cc
    go (some (a, t')) e k = (a, t', e, k)

-- A transaction gives what its session gives, or fails and leaves the tables as they were.
pub transaction_cases {ℓ} :
    {A : Type 0} (P : A × Tables → Type ℓ) (failed : A) (m : Session A) (t : Tables)
    → P (failed, t)
    → ((r : A × Tables) → m t ≡ some r → P r)
    → P (transaction failed m t)
transaction_cases {A} P failed m t h k = go (m t) refl
  where
    go : (o : Option (A × Tables)) → m t ≡ o → P (settle failed t o)
    go none e = h
    go (some r) e = k r e
