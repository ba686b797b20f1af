-- ===== src/Accounts/Batches.antt =====
-- The rows that `accounts_that_should_run` of src/runtime/gating.py loads at once answer like the tables.
use tele_group.Base.{
  ℕ, ◌≡◌, refl, sym, ap, ◌∙◌, inl, inr, Bool, true, false, Option, none, some, List, [], ◌∷◌, map,
  arith, Bool-cases, select, first, exists, exists-cong, ◌==◌, ==_refl, ==→≡,
}
use tele_group.Text.{Text}
use tele_group.Accounts.Rows.{Db, PlanPlugin}
use tele_group.Accounts.Gating.{
  Plugin, PluginAccount, accounts_that_should_run, selected_rows, is_selected, is_among, plan_ids,
  account_ids, allowed_in, override_in, load_allowed_plugins, load_plugin_overrides,
  enabled_on_plan, allowed_names, override_of, enabled_flag, enabled_of, is_override, has_none,
  with_plan,
}

-- A search for what a selection keeps.
pub first-select :
    {A : Type 0} (p q : A → Bool) (rows : List A)
    → ((r : A) → q r ≡ true → p r ≡ true)
    → first q (select p rows) ≡ first q rows
first-select p q [] h = refl
first-select p q (r ∷ rows) h = elim (Bool-cases (q r)) [
  | inl e ↦ ground (arith, h r e, first-select p q rows h)
  | inr e ↦ ground (arith, first-select p q rows h)
]

pub select-select :
    {A : Type 0} (p q : A → Bool) (rows : List A)
    → ((r : A) → q r ≡ true → p r ≡ true)
    → select q (select p rows) ≡ select q rows
select-select p q [] h = refl
select-select p q (r ∷ rows) h = elim (Bool-cases (q r)) [
  | inl e ↦ ground (arith, h r e, select-select p q rows h)
  | inr e ↦ ground (arith, select-select p q rows h)
]

same_is_among :
    (ids : List ℕ) (m n : ℕ) → (m == n) ≡ true → is_among ids n ≡ true → is_among ids m ≡ true
same_is_among ids m n e h = ap (is_among ids) (==→≡ m n e) ∙ h

override_in-load :
    (ids : List ℕ) (account_id : ℕ) (name : Text) (d : Db)
    → is_among ids account_id ≡ true
    → override_in account_id name (load_plugin_overrides ids d) ≡ override_of account_id name d
unfolding load_plugin_overrides override_of
override_in-load ids account_id name d h = ap enabled_of (
    first-select (λ r. is_among ids r.account_id) (is_override account_id name) d.account_plugins
      (λ r e. same_is_among ids r.account_id account_id (ground (arith, e)) h))

allowed_in-load :
    (ids : List ℕ) (plan_id : ℕ) (d : Db)
    → is_among ids plan_id ≡ true
    → allowed_in plan_id (load_allowed_plugins ids d) ≡ allowed_names plan_id d
unfolding load_allowed_plugins allowed_names
allowed_in-load ids plan_id d h = ap (map (λ (r : PlanPlugin). r.plugin_name)) (
    select-select (λ r. is_among ids r.plan_id) (λ r. r.plan_id == plan_id) d.plan_plugins
      (λ r e. same_is_among ids r.plan_id plan_id e h))

no_items : {A : Type 0} (xs : List A) → has_none xs ≡ true → xs ≡ []
no_items [] h = refl
no_items (x ∷ xs) h = cc

-- At least one plugin would be enabled by the tables.
abbrev pub should_run : List Plugin → Db → PluginAccount → Bool
should_run plugins d a = exists (λ p. enabled_on_plan p a a.plan_id d) plugins

module _ {C : Type 0} (account : C → PluginAccount) (plugins : List Plugin) (d : Db) where
  module _ (ids plans : List ℕ) where
    is_selected-on :
        (a : PluginAccount) (o : Option ℕ)
        → is_among ids a.account_id ≡ true
        → ((n : ℕ) → o ≡ some n → is_among plans n ≡ true)
        → is_selected account plugins
            (load_plugin_overrides ids d)
            (load_allowed_plugins plans d)
            a
            o
          ≡ exists (λ p. enabled_on_plan p a o d) plugins
    unfolding enabled_on_plan
    is_selected-on a none here there = sym (nothing plugins)
      where
        nothing : (ps : List Plugin) → exists (λ p. false) ps ≡ false
        nothing [] = refl
        nothing (p ∷ ps) = nothing ps
    is_selected-on a (some n) here there = exists-cong _ _ plugins (λ p.
        ap (λ o. enabled_flag p a o (allowed_in n (load_allowed_plugins plans d)))
          (override_in-load ids a.account_id p.name d here)
        ∙ ap (enabled_flag p a (override_of a.account_id p.name d))
            (allowed_in-load plans n d (there n refl)))

  -- Every row that is left has its account and its plan among the ids that were loaded.
  abbrev Loads : List ℕ → List ℕ → List C → Type 0
  Loads ids plans [] = Unit
  Loads ids plans (c ∷ rows) =
      (is_among ids (account c).account_id ≡ true)
      × ((n : ℕ) → (account c).plan_id ≡ some n → is_among plans n ≡ true)
      × Loads ids plans rows

  selected_rows-select :
      (ids plans : List ℕ) (rows : List C)
      → Loads ids plans rows
      → selected_rows account plugins
          (load_plugin_overrides ids d)
          (load_allowed_plugins plans d)
          rows
        ≡ select (λ c. should_run plugins d (account c)) rows
  unfolding selected_rows
  selected_rows-select ids plans [] h = refl
  selected_rows-select ids plans (c ∷ rows) (here, there, rest) =
      rw
        (
          is_selected-on ids plans (account c) (account c).plan_id here there,
          selected_rows-select ids plans rows rest,
        )
        refl

  Loads-more :
      (ids plans ids' plans' : List ℕ) (rows : List C)
      → ((n : ℕ) → is_among ids n ≡ true → is_among ids' n ≡ true)
      → ((n : ℕ) → is_among plans n ≡ true → is_among plans' n ≡ true)
      → Loads ids plans rows
      → Loads ids' plans' rows
  Loads-more ids plans ids' plans' [] f g h = tt
  Loads-more ids plans ids' plans' (c ∷ rows) f g (here, there, rest) = (
    f (account c).account_id here,
    λ n e. g n (there n e),
    Loads-more ids plans ids' plans' rows f g rest,
  )

  with_plan-head :
      (o : Option ℕ) (ids : List ℕ) (n : ℕ) → o ≡ some n → is_among (with_plan o ids) n ≡ true
  with_plan-head none ids n e = cc
  with_plan-head (some m) ids n e = ground (arith, e, ==_refl n)

  with_plan-more :
      (o : Option ℕ) (ids : List ℕ) (n : ℕ)
      → is_among ids n ≡ true
      → is_among (with_plan o ids) n ≡ true
  with_plan-more none ids n h = h
  with_plan-more (some m) ids n h = ground (arith, h)

  all_Loads : (rows : List C) → Loads (account_ids account rows) (plan_ids account rows) rows
  all_Loads [] = tt
  all_Loads (c ∷ rows) = (
    ground (arith, ==_refl (account c).account_id),
    with_plan-head (account c).plan_id (plan_ids account rows),
    Loads-more (account_ids account rows) (plan_ids account rows) (account_ids account (c ∷ rows))
        (plan_ids account (c ∷ rows)) rows (λ n h. ground (arith, h))
        (with_plan-more (account c).plan_id (plan_ids account rows)) (all_Loads rows),
  )

  select-none :
      (rows : List C) → plugins ≡ [] → select (λ c. should_run plugins d (account c)) rows ≡ []
  select-none [] e = refl
  select-none (c ∷ rows) e = rw (ap (λ ps. should_run ps d (account c)) e, select-none rows e) refl

  -- The batched choice is the row by row choice.
  pub accounts_that_should_run-select :
      (rows : List C)
      → accounts_that_should_run account plugins rows d
        ≡ select (λ c. should_run plugins d (account c)) rows
  unfolding accounts_that_should_run
  accounts_that_should_run-select [] = refl
  accounts_that_should_run-select (c ∷ rest) = elim (Bool-cases (has_none plugins)) [
    | inl h ↦ rw h (sym (select-none (c ∷ rest) (no_items plugins h)))
    | inr h ↦ rw h (
        selected_rows-select (account_ids account (c ∷ rest)) (plan_ids account (c ∷ rest))
          (c ∷ rest) (all_Loads (c ∷ rest)))
  ]
