-- ===== src/Listeners/Standing.antt =====
-- How the permits of src/runtime/plugin_data.py and the counting of src/plugins/pmpermit.py work
-- together over a run of messages and of decisions of the owner.
use tele_group.Base.{
  ℕ, ◌≡◌, refl, ap, ◌∙◌, inl, inr, Bool, true, false, ◌&&◌, ◌||◌, some, List, [], ◌∷◌, arith, ◌==◌,
  if◌then◌else◌, Bool-cases, exists, first-exists, first-update_other, first-snoc,
  first-update_where, first-append, first-none, ==_refl, subst,
}
use tele_group.Listeners.Tables.{PluginRows}
use tele_group.Listeners.Permits.{
  Permit, is_permit_of, get_pm_permit, set_pm_permit, with_permit, permit_of, or_new,
  limit_or_default, count_message, stranger_message, set_approval,
}

-- What changes a permit: a message of a stranger, under the limit set at that time, and a decision
-- of the owner about a user.
pub data PermitEvent : Type 0 where
  writes : ℕ → ℕ → ℕ → PermitEvent
  decides : ℕ → ℕ → Bool → PermitEvent

unfoldable pub handle_event : PermitEvent → PluginRows → PluginRows
handle_event (writes account_id user_id raw_limit) t =
    (stranger_message account_id raw_limit user_id t).1
handle_event (decides account_id user_id approved) t = set_approval account_id user_id approved t

unfoldable pub handle_events : List PermitEvent → PluginRows → PluginRows
handle_events [] t = t
handle_events (e ∷ es) t = handle_events es (handle_event e t)

-- What one message does to the permit of its sender.
abbrev pub warned : ℕ → Permit → Permit
warned raw_limit p =
    if p.approved || p.blocked then p else count_message (limit_or_default raw_limit) p

abbrev pub is_pair : ℕ → ℕ → ℕ → ℕ → Bool
is_pair account_id user_id a u = account_id == a && user_id == u

-- The contract: the permit of one user at one account, followed from event to event.
unfoldable pub standing_after : ℕ → ℕ → PermitEvent → Permit → Permit
standing_after account_id user_id (writes a u raw_limit) p =
    if is_pair a u account_id user_id then warned raw_limit p else p
standing_after account_id user_id (decides a u approved) p =
    if is_pair a u account_id user_id
    then record { approved = approved; warnings = 0; blocked = false }
    else p

unfoldable pub standing : ℕ → ℕ → List PermitEvent → Permit → Permit
standing account_id user_id [] p = p
standing account_id user_id (e ∷ es) p =
    standing account_id user_id es (standing_after account_id user_id e p)

unfoldable pub permit : ℕ → ℕ → PluginRows → Permit
permit account_id user_id t = or_new (get_pm_permit account_id user_id t)

module _ (account_id user_id : ℕ) (p : Permit) (t : PluginRows) where
  get-set_pm_permit :
      get_pm_permit account_id user_id (set_pm_permit account_id user_id p t) ≡ some p
  unfolding get_pm_permit set_pm_permit
  get-set_pm_permit = elim (Bool-cases (exists (is_permit_of account_id user_id) t.permits)) [
    | inl e ↦
        (let (x, found) = first-exists (is_permit_of account_id user_id) t.permits e in
          rw e (
            ap permit_of (
              first-update_where (is_permit_of account_id user_id) (with_permit p) t.permits {x = x}
                (λ _. refl) found)))
    | inr e ↦ rw e (
        ap permit_of (
          first-append (is_permit_of account_id user_id) t.permits
            record {
              account_id = account_id;
              user_id = user_id;
              approved = p.approved;
              warnings = p.warnings;
              blocked = p.blocked;
            }
            (first-none (is_permit_of account_id user_id) t.permits e)
            (ground (arith, ==_refl account_id, ==_refl user_id))))
  ]

  get-set_pm_permit_other :
      (a u : ℕ)
      → is_pair account_id user_id a u ≡ false
      → get_pm_permit a u (set_pm_permit account_id user_id p t) ≡ get_pm_permit a u t
  unfolding get_pm_permit set_pm_permit
  get-set_pm_permit_other a u h =
      elim (Bool-cases (exists (is_permit_of account_id user_id) t.permits)) [
        | inl e ↦ rw e (
            ap permit_of (
              first-update_other (is_permit_of a u) (is_permit_of account_id user_id)
                (with_permit p) t.permits (λ y k. (ground (arith, h, k), ground (arith, h, k)))))
        | inr e ↦ rw e (
            ap permit_of (
              first-snoc (is_permit_of a u) t.permits
                record {
                  account_id = account_id;
                  user_id = user_id;
                  approved = p.approved;
                  warnings = p.warnings;
                  blocked = p.blocked;
                }
                h))
      ]

-- What holds at a pair of ids holds at an equal pair.
at_pair : (P : ℕ → ℕ → Type 0) (x y a u : ℕ) → is_pair x y a u ≡ true → P x y → P a u
at_pair P x y a u h k = subst (λ b. P b u) (ground (arith, h)) (subst (P x) (ground (arith, h)) k)

module _ (account_id user_id raw_limit : ℕ) (t : PluginRows) where
  abbrev told : Permit
  told = permit account_id user_id t

  stranger_message-permit :
      permit account_id user_id (stranger_message account_id raw_limit user_id t).1
      ≡ warned raw_limit told
  unfolding stranger_message permit
  stranger_message-permit = elim (Bool-cases (told.approved || told.blocked)) [
    | inl known ↦ rw known refl
    | inr unknown ↦ rw unknown (
        ap or_new (
          get-set_pm_permit account_id user_id (count_message (limit_or_default raw_limit) told) t))
  ]

  stranger_message-other :
      (a u : ℕ)
      → is_pair account_id user_id a u ≡ false
      → permit a u (stranger_message account_id raw_limit user_id t).1 ≡ permit a u t
  unfolding stranger_message permit
  stranger_message-other a u h = elim (Bool-cases (told.approved || told.blocked)) [
    | inl known ↦ rw known refl
    | inr unknown ↦ rw unknown (
        ap or_new (
          get-set_pm_permit_other account_id user_id
            (count_message (limit_or_default raw_limit) told) t a u h))
  ]

module _ (a u : ℕ) where
  permit-set :
      (account_id user_id : ℕ) (p : Permit) (t : PluginRows)
      → permit a u (set_pm_permit account_id user_id p t)
        ≡ (if is_pair account_id user_id a u then p else permit a u t)
  unfolding permit
  permit-set account_id user_id p t = elim (Bool-cases (is_pair account_id user_id a u)) [
    | inl same ↦ rw same (
        at_pair (λ b v. permit b v (set_pm_permit account_id user_id p t) ≡ p) account_id user_id a
          u same (ap or_new (get-set_pm_permit account_id user_id p t)))
    | inr other ↦ rw other (ap or_new (get-set_pm_permit_other account_id user_id p t a u other))
  ]

  permit-event :
      (e : PermitEvent) (t : PluginRows)
      → permit a u (handle_event e t) ≡ standing_after a u e (permit a u t)
  unfolding handle_event standing_after set_approval
  permit-event (writes account_id user_id raw_limit) t =
      elim (Bool-cases (is_pair account_id user_id a u)) [
        | inl same ↦ rw same (
            at_pair
              (λ b v.
                permit b v (stranger_message account_id raw_limit user_id t).1
                ≡ warned raw_limit (permit b v t))
              account_id user_id a u same (stranger_message-permit account_id user_id raw_limit t))
        | inr other ↦ rw other (stranger_message-other account_id user_id raw_limit t a u other)
      ]
  permit-event (decides account_id user_id approved) t =
      permit-set account_id user_id record { approved = approved; warnings = 0; blocked = false } t

  -- Over any run of messages and decisions about any users, the permit that the table holds for a
  -- user of an account is the one that the contract gives from the permit at the start: no other
  -- event touches it.
  pub permit-handle_events :
      (es : List PermitEvent) (t : PluginRows)
      → permit a u (handle_events es t) ≡ standing a u es (permit a u t)
  unfolding handle_events standing
  permit-handle_events [] t = refl
  permit-handle_events (e ∷ es) t =
      permit-handle_events es (handle_event e t) ∙ ap (standing a u es) (permit-event e t)
