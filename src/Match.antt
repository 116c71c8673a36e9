-- ===== src/Match.antt =====
-- internal/match/match.go: how a trap event is matched against a rule, and its deduplication key.
-- `field` is a name of the source; here the constructor of a map's entry is called `field` too, so
-- the variables are called `name`.
pub mod Json
pub mod Std
pub mod Reads
pub mod Key
pub mod Faults
pub mod Distinct
pub mod Logic
pub mod Flat
use Json.{KeyItem, marshal}
use Std.{Platform, Float64, float_lt, float_le}
use snmptrap_relay.Dict
use snmptrap_relay.Model.Value.{
  Value, null, list, obj, dict, Items, nil, cons, Fields, end, field, field_get, field_value,
  is_present, string_or_empty, sprint, printed_keys,
}
use snmptrap_relay.Model.{MatchSpec, TrapEvent, DedupKey}
use snmptrap_relay.Oid.{normalize, variants, or_else}
use snmptrap_relay.Prelude.{
  Bool, true, false, not, ◌&&◌, ◌||◌, List, [], ◌∷◌, ◌++◌, Option, none, some, if◌then◌else◌,
}
use snmptrap_relay.Result.{
  Result, ok, err, ◌>>=◌, condition_not_mapping, match_list_not_slice, bad_regex,
  unsupported_operator,
}
use snmptrap_relay.Text.Number.{hex_text}
use snmptrap_relay.Text.{
  Text, text_eq, lit, same, is_empty, has_prefix, trim_prefix, has_suffix, contains, to_lower,
}

abbrev pub get_or {ℓ} : {A : Type ℓ} → Option A → A → A
get_or none d = d
get_or (some v) d = v

-- `for _, variant := range …`: the first variant of the identifier that the fields hold.
unfoldable pub first_variant : List (Text × Text) → List Text → Option Text
first_variant fields [] = none
first_variant fields (v ∷ vs) =
    or_else (Dict.get (lit "varbind." ++ v) fields) (first_variant fields vs)

-- The part of a name behind a prefix, looked up as an identifier.
unfoldable pub varbind_field : List (Text × Text) → Text → Text → Option Text
varbind_field fields name prefix =
    if has_prefix name prefix
    then first_variant fields (variants (trim_prefix name prefix))
    else none

-- ResolveField
unfoldable pub resolve_field : TrapEvent → Text → Text
resolve_field event name =
    if is_empty name
    then []
    else get_or
        (or_else (Dict.get name event.fields) (
          or_else
            (if has_prefix name (lit "fields.")
              then Dict.get (trim_prefix name (lit "fields.")) event.fields
              else none)
            (or_else (varbind_field event.fields name (lit "varbind."))
              (varbind_field event.fields name (lit "varbind:")))))
        []

-- isOIDField
unfoldable pub is_oid_field : Text → Bool
is_oid_field name =
    same name (lit "trap_oid")
    || same name (lit "enterprise_oid")
    || has_prefix name (lit "varbind.")
    || has_prefix name (lit "varbind:")

pub record Condition : Type 0 where
  pub name : Text
  pub op : Text
  pub value : Value

-- The condition that a mapping describes.
unfoldable pub condition_of : Fields → Condition
condition_of m =
    let op = string_or_empty (field_value (lit "op") m) in
    record {
      name = string_or_empty (field_value (lit "field") m);
      op = if is_empty op then lit "eq" else op;
      value = field_value (lit "value") m;
    }

-- An element of a condition list, as a map[string]any.
unfoldable pub as_mapping : Value → Option Fields
as_mapping (obj m) = some m
as_mapping (dict m) = some (printed_keys end m)
as_mapping _ = none

unfoldable pub parse_conditions : Items → Result (List Condition)
parse_conditions nil = ok []
parse_conditions (cons item items) = elim (as_mapping item) [
  | none ↦ err condition_not_mapping
  | some m ↦ do conds ← parse_conditions items; ok (condition_of m ∷ conds)
]

-- parseConditionList
unfoldable pub parse_condition_list : Value → Result (List Condition)
parse_condition_list (list items) = parse_conditions items
parse_condition_list null = ok []
parse_condition_list _ = err match_list_not_slice

-- The operators of the switch in conditionMatches.
pub data Operator : Type 0 where
  exists eq ne contain prefix suffix regex in_list gt ge lt le : Operator

unfoldable pub operator_of : Text → Option Operator
operator_of op =
    if same op (lit "exists")
    then some exists
    else if same op (lit "eq")
    then some eq
    else if same op (lit "ne")
    then some ne
    else if same op (lit "contains")
    then some contain
    else if same op (lit "prefix")
    then some prefix
    else if same op (lit "suffix")
    then some suffix
    else if same op (lit "regex")
    then some regex
    else if same op (lit "in")
    then some in_list
    else if same op (lit "gt")
    then some gt
    else if same op (lit "ge")
    then some ge
    else if same op (lit "lt")
    then some lt
    else if same op (lit "le")
    then some le
    else none

abbrev pub normalize_if : Bool → Text → Text
normalize_if true s = normalize s
normalize_if false s = s

-- inList: a decoded document holds no slice but []interface{}
unfoldable pub in_items : Text → Items → Bool → Bool
in_items actual nil normalized = false
in_items actual (cons item items) normalized =
    same actual (normalize_if normalized (sprint item)) || in_items actual items normalized

unfoldable pub is_in_list : Text → Value → Bool → Bool
is_in_list actual (list items) normalized = in_items actual items normalized
is_in_list actual _ normalized = false

-- One entry of a flat specification.
unfoldable pub entry_matches : TrapEvent → Text → Value → Bool
entry_matches event name expected =
    let oid = is_oid_field name in
    same (normalize_if oid (sprint expected)) (normalize_if oid (resolve_field event name))

-- The loop over a flat specification.
unfoldable pub flat_matches : TrapEvent → Fields → Bool
flat_matches event end = true
flat_matches event (field name expected m) =
    if not (entry_matches event name expected) then false else flat_matches event m

abbrev pub conditions_at : Option Value → Result (List Condition)
conditions_at none = ok []
conditions_at (some v) = parse_condition_list v

-- A specification that names "all", or "any" or "not" with a value.
unfoldable pub is_logical : Fields → Bool
is_logical raw =
    (elim (field_get (lit "all") raw) [ none ↦ false | some _ ↦ true ])
    || is_present (field_value (lit "any") raw)
    || is_present (field_value (lit "not") raw)

unfoldable pub is_no_entry : Fields → Bool
is_no_entry end = true
is_no_entry (field _ _ _) = false

-- The loop of BuildDedupKey: the items found, and the names of the fields that are missing.
unfoldable pub key_items : TrapEvent → List Text → List KeyItem × List Text
key_items event [] = ([], [])
key_items event (name ∷ names) =
    let rest = key_items event names in
    let value = resolve_field event name in
    if is_empty value
    then (rest.0, name ∷ rest.1)
    else (record { field = name; value = value } ∷ rest.0, rest.1)

abbrev pub no_key : List Text → DedupKey
no_key missing = record { hash = []; repr = []; missing_fields = missing }

module _ (p : Platform) where
  -- gt, ge, lt and le; a side that is no number makes the condition false
  unfoldable pub compare_numbers : (Float64 → Float64 → Bool) → Text → Value → Result Bool
  compare_numbers test actual value = elim (p.parse_float actual) [
    | none ↦ ok false
    | some left ↦ elim (p.parse_float (sprint value)) [
      | none ↦ ok false
      | some right ↦ ok (test left right)
    ]
  ]

  unfoldable pub regex_matches : Text → Text → Result Bool
  regex_matches expected actual = elim (p.regex_match expected actual) [
    | none ↦ err (bad_regex expected)
    | some b ↦ ok b
  ]

  -- The cases of the switch; the flag is isOIDField(cond.Field).
  unfoldable pub apply_operator : Operator → Text → Value → Bool → Result Bool
  apply_operator exists actual value oid = ok (not (is_empty actual))
  apply_operator eq actual value oid = ok (same actual (normalize_if oid (sprint value)))
  apply_operator ne actual value oid = ok (not (same actual (normalize_if oid (sprint value))))
  apply_operator contain actual value oid = ok (contains actual (normalize_if oid (sprint value)))
  apply_operator prefix actual value oid = ok (has_prefix actual (normalize_if oid (sprint value)))
  apply_operator suffix actual value oid = ok (has_suffix actual (normalize_if oid (sprint value)))
  apply_operator regex actual value oid = regex_matches (normalize_if oid (sprint value)) actual
  apply_operator in_list actual value oid = ok (is_in_list actual value oid)
  apply_operator gt actual value oid = compare_numbers (λ a b. float_lt b a) actual value
  apply_operator ge actual value oid = compare_numbers (λ a b. float_le b a) actual value
  apply_operator lt actual value oid = compare_numbers float_lt actual value
  apply_operator le actual value oid = compare_numbers float_le actual value

  -- The switch of conditionMatches, on the value that the condition's field has.
  unfoldable pub switch_operator : Condition → Text → Result Bool
  switch_operator cond actual = elim (operator_of (to_lower cond.op)) [
    | none ↦ err (unsupported_operator cond.op)
    | some op ↦ apply_operator op actual cond.value (is_oid_field cond.name)
  ]

  -- conditionMatches
  unfoldable pub condition_matches : TrapEvent → Condition → Result Bool
  condition_matches event cond =
      switch_operator cond (normalize_if (is_oid_field cond.name) (resolve_field event cond.name))

  -- The loop over the conditions of "all": false at the first that fails.
  unfoldable pub all_match : TrapEvent → List Condition → Result Bool
  all_match event [] = ok true
  all_match event (c ∷ cs) = do
    matched ← condition_matches event c
    if matched then all_match event cs else ok false

  -- The loop over the conditions of "any": true at the first that holds.
  unfoldable pub any_match : TrapEvent → List Condition → Result Bool
  any_match event [] = ok false
  any_match event (c ∷ cs) = do
    matched ← condition_matches event c
    if matched then ok true else any_match event cs

  -- The loop over the conditions of "not": false at the first that holds.
  unfoldable pub none_match : TrapEvent → List Condition → Result Bool
  none_match event [] = ok true
  none_match event (c ∷ cs) = do
    matched ← condition_matches event c
    if matched then ok false else none_match event cs

  -- The three loops of Matches, one after the other.
  unfoldable pub logic_matches :
      TrapEvent → List Condition → List Condition → List Condition → Result Bool
  logic_matches event all_conds [] not_conds = do
    every ← all_match event all_conds
    if every then none_match event not_conds else ok false
  logic_matches event all_conds (c ∷ cs) not_conds = do
    every ← all_match event all_conds
    if every
        then (do
          some_one ← any_match event (c ∷ cs)
          if some_one then none_match event not_conds else ok false)
        else ok false

  -- Matches
  unfoldable pub matches : TrapEvent → MatchSpec → Result Bool
  matches event spec =
      if is_no_entry spec.raw
      then ok true
      else if is_logical spec.raw
      then (do
        all_conds ← conditions_at (field_get (lit "all") spec.raw)
        any_conds ← parse_condition_list (field_value (lit "any") spec.raw)
        not_conds ← parse_condition_list (field_value (lit "not") spec.raw)
        logic_matches event all_conds any_conds not_conds)
      else ok (flat_matches event spec.raw)

  unfoldable pub key_of_items : List KeyItem → List Text → Result DedupKey
  key_of_items items (name ∷ missing) = ok (no_key (name ∷ missing))
  key_of_items [] [] = ok (no_key [])
  key_of_items (item ∷ items) [] = do
    payload ← marshal (item ∷ items)
    ok (record { hash = hex_text (p.sha256 payload); repr = payload; missing_fields = [] })

  -- BuildDedupKey
  unfoldable pub build_dedup_key : TrapEvent → List Text → Result DedupKey
  build_dedup_key event names =
      let (items, missing) = key_items event names in key_of_items items missing
