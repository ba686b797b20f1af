-- ===== src/Commands/Longest.antt =====
-- The command that `resolve_command` of src/runtime/plugins.py picks.
use tele_group.Base.{
  ℕ, ◌≤◌, ◌≡◌, ◌⊎◌, ◌++◌, refl, ap, ◌∙◌, inl, inr, true, false, Bool-cases, Option, none, some,
  List, [], ◌∷◌, arith, All, In, is_some, length, subst, All-In, sort_desc, sort_desc-In,
  In-sort_desc, sort_desc-IsDescending, IsDescending,
}
use tele_group.Text.{
  Text, text_eq, text_eq→≡, text_eq_refl, is_space, strip, take, drop, after_prefix,
  after_prefix-append, after_prefix-eq_some,
}
use tele_group.Accounts.Gating.{Plugin, BotCommand}
use tele_group.Commands.Resolve.{
  Row, first_match, command_matches, name_length, resolve_in, command_rows, rows_of, arguments,
  isascii,
}

-- What follows a name: nothing, or a space with what are then the arguments.
abbrev pub IsRest : Text → Text → Type 0
IsRest rest args =
    ((rest ≡ []) × (args ≡ []))
    ⊎ ((c : ℕ) × (s : Text) × (rest ≡ c ∷ s) × (is_space c ≡ true) × (args ≡ strip (c ∷ s)))

arguments-IsRest : (rest args : Text) → arguments rest ≡ some args → IsRest rest args
unfolding arguments
arguments-IsRest [] args h = inl (refl, ground (arith, h))
arguments-IsRest (c ∷ s) args h = elim (Bool-cases (is_space c)) [
  | inl e ↦ inr (c, s, refl, e, ground (arith, h, e))
  | inr e ↦ absurd (ground (arith, h, e))
]

IsRest-arguments : (rest args : Text) → IsRest rest args → arguments rest ≡ some args
unfolding arguments
IsRest-arguments rest args (inl (e, k)) = rw (e, k) refl
IsRest-arguments rest args (inr (c, s, e, space, k)) = rw (e, k) (rw space refl)

module _ (casefold : Text → Text) (body : Text) where
  -- The text calls the name with these arguments: it starts with the name, up to the case for a name
  -- in ASCII, and ends there or goes on with a space.
  abbrev pub IsCall : Text → Text → Type 0
  IsCall name args =
      ((isascii name ≡ true)
        × (casefold (take (length name) body) ≡ casefold name)
        × IsRest (drop (length name) body) args)
      ⊎ ((isascii name ≡ false) × ((rest : Text) × (body ≡ name ++ rest) × IsRest rest args))

  command_matches-IsCall :
      (name args : Text) → command_matches casefold body name ≡ some args → IsCall name args
  unfolding command_matches
  command_matches-IsCall name args h = elim (Bool-cases (isascii name)) [
    | inl plain ↦ elim (Bool-cases (text_eq (casefold (take (length name) body)) (casefold name))) [
      | inl same ↦ inl (
        plain,
        text_eq→≡ (casefold (take (length name) body)) (casefold name) same,
        arguments-IsRest (drop (length name) body) args (ground (arith, h, plain, same)),
      )
      | inr other ↦ absurd (ground (arith, h, plain, other))
    ]
    | inr wide ↦ inr (wide, go (after_prefix name body) refl (rw wide at h))
  ]
    where
      go :
          (o : Option Text)
          → after_prefix name body ≡ o
          → elim o as (λ _. Option Text) [ none ↦ none | some rest ↦ arguments rest ] ≡ some args
          → (rest : Text) × (body ≡ name ++ rest) × IsRest rest args
      go none e k = cc
      go (some rest) e k =
          (rest, after_prefix-eq_some name body rest e, arguments-IsRest rest args k)

  IsCall-command_matches :
      (name args : Text) → IsCall name args → command_matches casefold body name ≡ some args
  unfolding command_matches
  IsCall-command_matches name args (inl (plain, same, rest)) =
      rw (plain, same, text_eq_refl (casefold name))
        (IsRest-arguments (drop (length name) body) args rest)
  IsCall-command_matches name args (inr (wide, (rest, e, k))) =
      rw (wide, ap (after_prefix name) e ∙ after_prefix-append name rest)
        (IsRest-arguments rest args k)

  -- The row of a name that the text calls, with a longest name among those that it calls.
  abbrev pub IsPicked : List Row → Option (Plugin × BotCommand × Text) → Type 0
  IsPicked rows none = (r : Row) → In r rows → (args : Text) → ¬ IsCall r.1.name args
  IsPicked rows (some (p, c, args)) =
      IsCall c.name args
      × In (p, c) rows
      × ((r : Row)
          → In r rows
          → (others : Text) → IsCall r.1.name others
          → name_length r ≤ length c.name)

  abbrev IsLongest : List Row → Plugin × BotCommand × Text → Type 0
  IsLongest rows (p, c, args) =
      (command_matches casefold body c.name ≡ some args)
      × In (p, c) rows
      × ((r : Row)
          → In r rows
          → is_some (command_matches casefold body r.1.name) ≡ true
          → name_length r ≤ length c.name)

  abbrev Picked : List Row → Option (Plugin × BotCommand × Text) → Type 0
  Picked rows none = (r : Row) → In r rows → command_matches casefold body r.1.name ≡ none
  Picked rows (some found) = IsLongest rows found

  Picked-IsPicked :
      (rows : List Row) (o : Option (Plugin × BotCommand × Text)) → Picked rows o → IsPicked rows o
  Picked-IsPicked rows none h =
      λ r k args call. cc (h r k, IsCall-command_matches r.1.name args call)
  Picked-IsPicked rows (some (p, c, args)) h = (
    command_matches-IsCall c.name args h.0,
    h.1,
    λ r k others call. h.2 r k (ap is_some (IsCall-command_matches r.1.name others call)),
  )

  abbrev IsUnmatched : Row → Type 0
  IsUnmatched r = command_matches casefold body r.1.name ≡ none

  abbrev IsBeaten : Row → ℕ → Type 0
  IsBeaten r n = is_some (command_matches casefold body r.1.name) ≡ true → name_length r ≤ n

  IsUnmatched-IsBeaten : (r : Row) (n : ℕ) → IsUnmatched r → IsBeaten r n
  IsUnmatched-IsBeaten r n e k = cc

  pass_over :
      (r : Row) (rows : List Row) (o : Option (Plugin × BotCommand × Text))
      → IsUnmatched r
      → Picked rows o
      → Picked (r ∷ rows) o
  pass_over r rows none e h = λ (s : Row). go s
    where
      go : (s : Row) → In s (r ∷ rows) → IsUnmatched s
      go s (inl same) = subst IsUnmatched same e
      go s (inr k) = h s k
  pass_over r rows (some (p, c, args)) e h = (h.0, inr h.1, bound)
    where
      bound : (s : Row) → In s (r ∷ rows) → IsBeaten s (length c.name)
      bound s (inl same) = IsUnmatched-IsBeaten s (length c.name) (subst IsUnmatched same e)
      bound s (inr there) = h.2 s there

  matched :
      (r : Row) (rows : List Row) (o : Option Text) (rest : Option (Plugin × BotCommand × Text))
      → command_matches casefold body r.1.name ≡ o
      → All (λ s. name_length s ≤ name_length r) rows
      → Picked rows rest
      → Picked (r ∷ rows) (elim o [ none ↦ rest | some args ↦ some (r.0, r.1, args) ])
  matched r rows none rest e longest h = pass_over r rows rest e h
  matched r rows (some args) rest e longest h = (e, inl refl, bound)
    where
      bound : (s : Row) → In s (r ∷ rows) → IsBeaten s (name_length r)
      bound s (inl same) _ = subst (λ x. name_length x ≤ name_length r) same (omega arith)
      bound s (inr there) _ = All-In (λ x. name_length x ≤ name_length r) rows longest there

  first_match-Picked :
      (rows : List Row)
      → IsDescending name_length rows
      → Picked rows (first_match casefold body rows)
  unfolding first_match
  first_match-Picked [] h = λ r k. absurd k
  first_match-Picked (r ∷ rows) h =
      matched r rows (command_matches casefold body r.1.name) (first_match casefold body rows) refl
        h.0 (first_match-Picked rows h.1)

  unsorted :
      (rows : List Row) (o : Option (Plugin × BotCommand × Text))
      → Picked (sort_desc name_length rows) o
      → Picked rows o
  unsorted rows none h = λ r k. h r (sort_desc-In name_length r rows k)
  unsorted rows (some (p, c, args)) h = (
    h.0,
    In-sort_desc name_length (p, c) rows h.1,
    λ r k. h.2 r (sort_desc-In name_length r rows k),
  )

  -- Among all commands of all plugins, the command that a text picks is one that it calls, with a
  -- longest name among those: the text starts with the name, up to the case for a name in ASCII, and
  -- either ends there or goes on with a space and the arguments. No command is picked only if the
  -- text calls none.
  pub resolve_in-Picked :
      (plugins : List Plugin) → IsPicked (rows_of plugins) (resolve_in casefold (some body) plugins)
  unfolding resolve_in command_rows
  resolve_in-Picked plugins =
      Picked-IsPicked (rows_of plugins) (resolve_in casefold (some body) plugins) (
        unsorted (rows_of plugins)
          (first_match casefold body (sort_desc name_length (rows_of plugins)))
          (first_match-Picked (sort_desc name_length (rows_of plugins))
            (sort_desc-IsDescending name_length (rows_of plugins))))
