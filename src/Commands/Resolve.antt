-- ===== src/Commands/Resolve.antt =====
-- `resolve_command`, `parse_command` and `command_prefix` of src/runtime/plugins.py. `casefold` is
-- Python's `str.casefold`, on which nothing here relies.
use tele_group.Base.{
  ℕ, Bool, true, ◌&&◌, ◌||◌, Option, none, some, List, [], ◌∷◌, ◌++◌, map, ltb, if◌then◌else◌,
  exists, length, ◌==◌, sort_desc,
}
use tele_group.Text.{Text, text_eq, strip, is_space, take, drop, is_empty, after_prefix}
use tele_group.Accounts.Gating.{Plugin, BotCommand}

abbrev pub isascii : Text → Bool
isascii [] = true
isascii (c ∷ s) = ltb c 128 && isascii s

abbrev pub has_space : Text → Bool
has_space = exists is_space

-- `command_prefix`: `stored` is the setting, if it is there and is a text.
unfoldable pub command_prefix : Option Text → Text → Text
command_prefix none userbot_prefix = userbot_prefix
command_prefix (some raw) userbot_prefix =
    if is_empty raw || has_space raw then userbot_prefix else raw

abbrev pub Row : Type 0
Row = Plugin × BotCommand

unfoldable pub rows_of : List Plugin → List Row
rows_of [] = []
rows_of (p ∷ ps) = map (λ c. (p, c)) p.commands ++ rows_of ps

abbrev pub name_length : Row → ℕ
name_length r = length r.1.name

-- `rows.sort(key=…, reverse=True)`: longest first, rows of one length in their order.
unfoldable pub command_rows : List Plugin → List Row
command_rows plugins = sort_desc name_length (rows_of plugins)

-- The rest after the name: empty, or it starts with a space.
unfoldable pub arguments : Text → Option Text
arguments [] = some []
arguments (c ∷ rest) = if is_space c then some (strip (c ∷ rest)) else none

-- The text after the prefix, if there is any.
unfoldable pub body_of : Text → Text → Option Text
body_of text prefix = if is_empty prefix then none else elim (after_prefix prefix text) [
  | none ↦ none
  | some rest ↦ let body = strip rest in if is_empty body then none else some body
]

-- `body.partition(" ")`, without the separator.
abbrev pub partition : Text → Text × Text
partition [] = ([], [])
partition (c ∷ s) = let rest = partition s in if c == 32 then ([], s) else (c ∷ rest.0, rest.1)

unfoldable pub named : Text × Text → Option (Text × Text)
named (name, args) = if is_empty name then none else some (name, strip args)

unfoldable pub parse_body : Option Text → Option (Text × Text)
parse_body none = none
parse_body (some body) = named (partition body)

-- `parse_command`
unfoldable pub parse_command : Text → Text → Option (Text × Text)
parse_command text prefix = parse_body (body_of text prefix)

module _ (casefold : Text → Text) where
  -- `_command_matches`
  unfoldable pub command_matches : Text → Text → Option Text
  command_matches body name =
      if isascii name
      then (if text_eq (casefold (take (length name) body)) (casefold name)
          then arguments (drop (length name) body)
          else none)
      else elim (after_prefix name body) [ none ↦ none | some rest ↦ arguments rest ]

  unfoldable pub first_match : Text → List Row → Option (Plugin × BotCommand × Text)
  first_match body [] = none
  first_match body (r ∷ rows) =
      let rest = first_match body rows in
      elim (command_matches body r.1.name) [ none ↦ rest | some args ↦ some (r.0, r.1, args) ]

  unfoldable pub resolve_in : Option Text → List Plugin → Option (Plugin × BotCommand × Text)
  resolve_in none plugins = none
  resolve_in (some body) plugins = first_match body (command_rows plugins)

  unfoldable pub resolve_command : Text → Text → List Plugin → Option (Plugin × BotCommand × Text)
  resolve_command text prefix plugins = resolve_in (body_of text prefix) plugins
