-- ===== src/Engine/Clearing.antt =====
-- internal/engine/engine.go: applyAlarmClearRules and what it calls.
use snmptrap_relay.Dedup
use snmptrap_relay.Dict
use snmptrap_relay.Engine.State.{
  Runtime, Scene, info, warning, failure, log, clear_match_error, clear_regex_invalid,
  trap_clear_failed, trap_clear_skipped, trap_cleared, write_alert,
}
use snmptrap_relay.Match.Std.{Platform}
use snmptrap_relay.Match.{matches, as_mapping, build_dedup_key, get_or}
use snmptrap_relay.Model.Value.{
  Value, list, Items, nil, cons, field_get, field_value, string_or_empty, sprint,
}
use snmptrap_relay.Model.{MatchSpec, TrapEvent, AlarmRuleConfig, DedupClearConfig, DedupKey}
use snmptrap_relay.Oid.{normalize}
use snmptrap_relay.Prelude.{
  Bool, true, false, not, ◌&&◌, ◌||◌, List, [], ◌∷◌, Option, none, some, if◌then◌else◌,
}
use snmptrap_relay.Result.{ok, err}
use snmptrap_relay.Text.{Text, text_eq, lit, same, is_empty}

-- What one element of an "all" list says of a field: the value of an equation, if it is one.
unfoldable pub static_condition : Value → Text → Option Text
static_condition item name = elim (as_mapping item) [
  | none ↦ none
  | some m ↦
      let op = string_or_empty (field_value (lit "op") m) in
      if not (same (string_or_empty (field_value (lit "field") m)) name)
      then none
      else if not (is_empty op) && not (same op (lit "eq"))
      then none
      else some (sprint (field_value (lit "value") m))
]

-- `if found && resolved != value`: whether a value contradicts the one found before it.
unfoldable pub is_conflict : Option Text → Text → Bool
is_conflict none value = false
is_conflict (some resolved) value = not (same resolved value)

-- The loop of staticMatchFieldValue, from the value found so far.
unfoldable pub static_loop : Option Text → Items → Text → Option Text
static_loop found nil name = found
static_loop found (cons item items) name = elim (static_condition item name) [
  | none ↦ static_loop found items name
  | some value ↦ if is_conflict found value then none else static_loop (some value) items name
]

unfoldable pub static_all : Option Value → Text → Option Text
static_all (some (list items)) name = static_loop none items name
static_all _ name = none

-- staticMatchFieldValue
unfoldable pub static_match_field_value : MatchSpec → Text → Option Text
static_match_field_value spec name = elim (field_get name spec.raw) [
  | some value ↦ some (sprint value)
  | none ↦ static_all (field_get (lit "all") spec.raw) name
]

-- `for _, field := range keyFields { if field == "trap_oid" …`
unfoldable pub names_trap_oid : List Text → Bool
names_trap_oid [] = false
names_trap_oid (name ∷ names) = same name (lit "trap_oid") || names_trap_oid names

-- dedupKeyTrapOID
unfoldable pub dedup_key_trap_oid : MatchSpec → List Text → Option Text
dedup_key_trap_oid spec names =
    if names_trap_oid names then static_match_field_value spec (lit "trap_oid") else none

-- cloneEventWithTrapOID
unfoldable pub clone_event_with_trap_oid : TrapEvent → Text → TrapEvent
clone_event_with_trap_oid event trap_oid = if is_empty trap_oid then event else record event {
  trap_oid = trap_oid;
  fields = Dict.put (lit "trap_oid") trap_oid event.fields;
}

-- The event whose fields give the key to clear.
unfoldable pub clear_key_event : TrapEvent → MatchSpec → List Text → TrapEvent
clear_key_event event spec names = elim (dedup_key_trap_oid spec names) [
  | none ↦ event
  | some trap_oid ↦ clone_event_with_trap_oid event trap_oid
]

-- `if len(keyFields) == 0 { keyFields = alarm.Dedup.KeyFields }`
unfoldable pub clear_key_fields : DedupClearConfig → AlarmRuleConfig → List Text
clear_key_fields rule alarm = elim rule.key_fields [
  | [] ↦ alarm.dedup.key_fields
  | name ∷ names ↦ name ∷ names
]

-- `len(dedupKey.MissingFields) > 0 || dedupKey.Hash == ""` is false
unfoldable pub is_usable : DedupKey → Bool
is_usable key = (elim key.missing_fields [ [] ↦ true | _ ∷ _ ↦ false ]) && not (is_empty key.hash)

abbrev is_some {ℓ} : {A : Type ℓ} → Option A → Bool
is_some none = false
is_some (some a) = true

pub data RegexTest : Type 0 where
  passes fails invalid : RegexTest

module _ (p : Platform) (rt : Runtime) where
  -- The regular expression of a clear rule, on the value of its varbind.
  unfoldable pub regex_test : DedupClearConfig → TrapEvent → RegexTest
  regex_test rule event =
      if not (is_empty rule.varbind_oid) && not (is_empty rule.regex)
      then elim (p.regex_match rule.regex
          (get_or (Dict.get (normalize rule.varbind_oid) event.raw_varbind_map) [])) [
            | none ↦ invalid
            | some true ↦ passes
            | some false ↦ fails
          ]
      else passes

  -- The key of a clear trap, cleared in the store.
  unfoldable pub clear_key : AlarmRuleConfig → DedupKey → Scene → Scene
  clear_key alarm key sc =
      if is_usable key
      then (let (cleared, store) = Dedup.clear sc.store alarm.id key.hash in
          write_alert rt
            (log info (trap_cleared (is_some cleared)) alarm.id (record sc { store = store })))
      else log warning trap_clear_skipped alarm.id sc

  -- What a clear rule does that matches, and passes its regular expression.
  unfoldable pub run_clear : AlarmRuleConfig → DedupClearConfig → Scene → Scene
  run_clear alarm rule sc =
      let names = clear_key_fields rule alarm in
      elim (build_dedup_key p (clear_key_event sc.event alarm.match names) names) [
        | err e ↦ log failure trap_clear_failed alarm.id sc
        | ok key ↦ clear_key alarm key sc
      ]

  -- A clear rule that matches: the new matchedClear, and the scene.
  unfoldable pub clear_matched : AlarmRuleConfig → DedupClearConfig → Scene → Bool × Scene
  clear_matched alarm rule sc = elim (regex_test rule sc.event) [
    | invalid ↦ (true, log failure clear_regex_invalid alarm.id sc)
    | fails ↦ (false, sc)
    | passes ↦ (true, run_clear alarm rule sc)
  ]

  -- One round of the loop, from matchedClear and the scene before it.
  unfoldable pub clear_step : AlarmRuleConfig → Bool → Scene → Bool × Scene
  clear_step alarm matched_clear sc = elim alarm.dedup.clear [
    | none ↦ (matched_clear, sc)
    | some rule ↦ elim (matches p sc.event rule.match) [
      | err e ↦ (matched_clear, log failure clear_match_error alarm.id sc)
      | ok false ↦ (matched_clear, sc)
      | ok true ↦ clear_matched alarm rule sc
    ]
  ]

  unfoldable pub clear_loop : List AlarmRuleConfig → Bool → Scene → Bool × Scene
  clear_loop [] matched_clear sc = (matched_clear, sc)
  clear_loop (alarm ∷ alarms) matched_clear sc =
      let (matched, after) = clear_step alarm matched_clear sc in clear_loop alarms matched after

  -- applyAlarmClearRules
  unfoldable pub apply_alarm_clear_rules : Scene → Bool × Scene
  apply_alarm_clear_rules sc = clear_loop rt.cfg.alarms false sc
