-- ===== src/Oid.antt =====
-- internal/oidutil/oidutil.go: object identifiers with and without a leading dot.
pub mod Forms
use snmptrap_relay.Dict
use snmptrap_relay.Prelude.{
  Bool, ◌||◌, true, false, List, [], ◌∷◌, ◌++◌, Option, none, some, if◌then◌else◌,
}
use snmptrap_relay.Text.Space.{trim_space}
use snmptrap_relay.Text.{Text, same, trim_prefix, is_empty, text_eq}

abbrev pub dot : Text
dot = b'.' ∷ []

-- Normalize
unfoldable pub normalize : Text → Text
unfolding trim_prefix trim_space
normalize value = trim_prefix (trim_space value) dot

-- m[key], or what is found next
abbrev pub or_else {ℓ} : {A : Type ℓ} → Option A → Option A → Option A
or_else none next = next
or_else (some v) next = some v

-- Lookup; a nil map is the empty one
unfoldable pub lookup : List (Text × Text) → Text → Option Text
unfolding normalize Dict.get same
lookup m key =
    let normalized = normalize key in
    let dotted = dot ++ normalized in
    or_else (Dict.get key m) (
      or_else (if same normalized key then none else Dict.get normalized m)
        (if same dotted key || same dotted normalized then none else Dict.get dotted m))

-- Variants
unfoldable pub variants : Text → List Text
unfolding normalize trim_space same
variants value =
    let trimmed = trim_space value in
    let normalized = normalize trimmed in
    if is_empty trimmed
    then []
    else if same normalized trimmed
    then normalized ∷ []
    else normalized ∷ trimmed ∷ []
