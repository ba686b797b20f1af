-- ===== src/Accounts/Verdict.antt =====
-- `set_account_plugin` of src/runtime/gating.py on every branch.
use tele_group.Base.{
  ℕ, zero, suc, ◌≡◌, refl, sym, ap, ◌∙◌, ◌⊎◌, inl, inr, Bool, true, false, not, Option, none, some,
  List, arith, if◌then◌else◌, Option-cases, if_cases, first, none≢some, subst,
}
use tele_group.Text.{Text, text_eq}
use tele_group.Accounts.Rows.{Db, ManagedAccount, account_by_id, user_owns, enqueue_signal}
use tele_group.Accounts.Gating.{
  Plugin, PluginAccount, has_name, allowed_if_set, joined, allowed_names, enabled_flag,
  get_plugin_account, groups_plugin, plugin_is_enabled, codemon_plugin, joined_row, override_of,
  stored_flag, enabled_on,
}
use tele_group.Accounts.Switching.{
  Switched, enabled, disabled, flip, live_account, toggle_account_status, toggle_code_monitor,
  upsert_account_plugin, set_account_plugin, flip_on, flip_plugin,
}
use tele_group.Accounts.Overrides.{
  get_plugin_account-id, upsert_other, get_plugin_account-upsert, override_of-here,
}
use tele_group.Accounts.Flipped.{Flipped, allowed_flag, is_refusal, joined-fields}
use tele_group.Accounts.Flipping.{now_enabled, Flipped-groups, Flipped-codemon}

allowed_if_set-name :
    (name : Text) (d : Db) (o : Option ℕ)
    → has_name name (allowed_if_set o d) ≡ true
    → (n : ℕ) × (o ≡ some n) × (allowed_if_set o d ≡ allowed_names n d)
allowed_if_set-name name d none h = cc
allowed_if_set-name name d (some zero) h = cc
allowed_if_set-name name d (some (suc n)) h = (suc n, refl, ground arith)

module _ (account_id actor now : ℕ) (p : Plugin) (d : Db) (r : ManagedAccount) (a : PluginAccount)
    (row : account_by_id account_id d ≡ some r) (join : joined now d r ≡ some a)
    (live : a.deleted ≡ false) (n : ℕ) (plan : a.plan_id ≡ some n)
    (names : has_name p.name (allowed_names n d) ≡ true)
    (set : allowed_if_set a.plan_id d ≡ allowed_names n d)
    (owned : user_owns account_id actor d ≡ true) where
  get_plugin_account-row : get_plugin_account account_id now d ≡ some a
  unfolding get_plugin_account
  get_plugin_account-row = ap (joined_row now d) row ∙ join

  same_id : a.account_id ≡ account_id
  same_id = get_plugin_account-id now account_id p.name true d p account_id a get_plugin_account-row

  -- The flag that `set_account_plugin` computes is the one that the check of a command computes.
  current_flag :
      enabled_flag p a (override_of account_id p.name d) (allowed_if_set a.plan_id d)
      ≡ plugin_is_enabled account_id p now d
  unfolding enabled_flag
  current_flag = ground (
    arith,
    set,
    names,
    now_enabled account_id actor now p d r a row join live n plan names,
    ap (λ i. override_of i p.name d) same_id,
  )

  allowed_after :
      (b : Bool)
      → has_name p.name (allowed_names n (upsert_account_plugin account_id p.name b d)) ≡ true
  unfolding allowed_names upsert_account_plugin enqueue_signal
  allowed_after b = names

  plain_flag :
      text_eq p.name groups_plugin ≡ false
      → text_eq p.name codemon_plugin ≡ false
      → (b : Bool)
      → plugin_is_enabled account_id p now (upsert_account_plugin account_id p.name b d) ≡ b
  unfolding plugin_is_enabled stored_flag
  plain_flag not_groups not_codemon b =
      ap (λ o. enabled_on p o (upsert_account_plugin account_id p.name b d))
        (get_plugin_account-upsert now account_id p.name b d p account_id ∙ get_plugin_account-row)
      ∙ allowed_flag p a (upsert_account_plugin account_id p.name b d) n live plan (allowed_after b)
      ∙ ground (
        arith,
        not_groups,
        not_codemon,
        ap (λ i. override_of i p.name (upsert_account_plugin account_id p.name b d)) same_id,
        override_of-here now account_id p.name b d,
      )

  Flipped-plain :
      text_eq p.name groups_plugin ≡ false
      → text_eq p.name codemon_plugin ≡ false
      → (current : Bool) → current ≡ plugin_is_enabled account_id p now d
      → Flipped account_id now p d (
        (if current then disabled else enabled),
        upsert_account_plugin account_id p.name (not current) d,
      )
  Flipped-plain not_groups not_codemon current e = record {
    switched = plain_flag not_groups not_codemon (not current) ∙ ap not e;
    told =
        flipped_told current
        ∙ ap (λ x. if x then enabled else disabled)
            (sym (plain_flag not_groups not_codemon (not current)));
    others = λ b q other. upsert_other now account_id p.name (not current) d q b other;
  }
    where
      flipped_told :
          (c : Bool) → (if c then disabled else enabled) ≡ (if not c then enabled else disabled)
      flipped_told true = refl
      flipped_told false = refl

  found_live : live_account account_id d ≡ some r
  found_live = rw (live_account, row) (ground (arith, live, (joined-fields now d r join).3))

  flip-Flipped : Flipped account_id now p d (flip account_id actor p a d)
  unfolding flip toggle_account_status toggle_code_monitor
  flip-Flipped =
      if_cases (Flipped account_id now p d) (text_eq p.name groups_plugin)
        (λ e.
          simp (owned, found_live)
            (Flipped-groups account_id actor now p d r a row join live n plan names e))
        (λ not_groups.
          if_cases (Flipped account_id now p d) (text_eq p.name codemon_plugin)
            (λ e.
              simp (owned, found_live)
                (Flipped-codemon account_id actor now p d r a row join live n plan names not_groups
                  e))
            (λ not_codemon. Flipped-plain not_groups not_codemon _ current_flag))

abbrev Found : ℕ → ℕ → Plugin → Db → Switched × Db → Type 0
Found account_id now p d r = ((is_refusal r.0 ≡ true) × (r.1 ≡ d)) ⊎ Flipped account_id now p d r

module _ (account_id actor now : ℕ) (d : Db) (owned : user_owns account_id actor d ≡ true) where
  flip_on-Found :
      (p : Plugin) (o : Option PluginAccount)
      → get_plugin_account account_id now d ≡ o
      → Found account_id now p d (flip_on account_id actor p o d)
  unfolding flip_on get_plugin_account
  flip_on-Found p none e = inl (refl, refl)
  flip_on-Found p (some a) e = elim (Option-cases (account_by_id account_id d)) [
    | inl none_there ↦ none≢some (sym (ap (joined_row now d) none_there) ∙ e)
    | inr (r, row) ↦
        if_cases (Found account_id now p d) a.deleted (λ _. inl (refl, refl))
          (λ live.
            if_cases (Found account_id now p d) (has_name p.name (allowed_if_set a.plan_id d))
              (λ names.
                let (n, plan, set) = allowed_if_set-name p.name d a.plan_id names in
                inr (
                  flip-Flipped account_id actor now p d r a row
                    (sym (ap (joined_row now d) row) ∙ e) live n plan
                    (subst (λ x. has_name p.name x ≡ true) set names) set owned))
              (λ _. inl (refl, refl)))
  ]

-- What a switch under a name does.
abbrev pub Outcome : List Plugin → ℕ → ℕ → Text → ℕ → Db → Switched × Db → Type 0
Outcome plugins account_id actor name now d r =
    ((is_refusal r.0 ≡ true) × (r.1 ≡ d))
    ⊎ ((p : Plugin) × (first (λ p. text_eq p.name name) plugins ≡ some p)
        × (user_owns account_id actor d ≡ true)
        × Flipped account_id now p d r)

-- The switch is refused and changes nothing, or the actor may manage the account, the plugin of
-- that name is switched, the answer says what it is now, and no other plugin of any account
-- changes.
pub set_account_plugin-Outcome :
    (plugins : List Plugin) (account_id actor : ℕ) (name : Text) (now : ℕ) (d : Db)
    → Outcome plugins account_id actor name now d
        (set_account_plugin plugins account_id actor name now d)
unfolding set_account_plugin flip_plugin
set_account_plugin-Outcome plugins account_id actor name now d =
    if_cases (Outcome plugins account_id actor name now d) (user_owns account_id actor d)
      (λ owned. go owned (first (λ p. text_eq p.name name) plugins) refl) (λ _. inl (refl, refl))
  where
    go :
        user_owns account_id actor d ≡ true
        → (o : Option Plugin) → first (λ p. text_eq p.name name) plugins ≡ o
        → Outcome plugins account_id actor name now d (flip_plugin account_id actor o now d)
    go owned none e = inl (refl, refl)
    go owned (some p) e =
        elim (flip_on-Found account_id actor now d owned p (get_plugin_account account_id now d)
          refl) [ inl refused ↦ inl refused | inr done ↦ inr (p, e, owned, done) ]
