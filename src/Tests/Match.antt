-- ===== src/Tests/Match.antt =====
-- Matching at work.
use snmptrap_relay.Dict
use snmptrap_relay.Match.Distinct.{Agree, build_dedup_key-Agree}
use snmptrap_relay.Match.Json.Objects.{IsValidItem}
use snmptrap_relay.Match.Json.{marshal, item_json, escape_from, escape_step, escape_ascii}
use snmptrap_relay.Match.Key.{items_of}
use snmptrap_relay.Match.Logic.{matches_logical, every, any, is_nil}
use snmptrap_relay.Match.{
  Condition, condition_of, matches, flat_matches, build_dedup_key, key_items, key_of_items,
  resolve_field, is_oid_field, condition_matches, switch_operator, operator_of, apply_operator,
  is_logical, parse_conditions, parse_condition_list, as_mapping, varbind_field, first_variant,
  entry_matches,
}
use snmptrap_relay.Model.Value.{
  Value, str, list, obj, nil, cons, Fields, end, field, field_get, field_value, string_or_empty,
  sprint,
}
use snmptrap_relay.Model.{MatchSpec, TrapEvent, DedupKey}
use snmptrap_relay.Oid.{normalize, variants}
use snmptrap_relay.Prelude.{◌≡◌, ◌↔◌, refl, Bool, true, not, ◌&&◌, ◌||◌, List, [], ◌∷◌, ◌++◌, All}
use snmptrap_relay.Result.{ok}
use snmptrap_relay.Tests.{platform, link_down, link_up, trap, key_names, at}
use snmptrap_relay.Text.Number.{hex_text, hex_byte}
use snmptrap_relay.Text.Utf8.{valid, valid_from, rune_width}
use snmptrap_relay.Text.{join, Text, lit, same, has_prefix, trim_prefix, to_lower}

program : Unit {0}
unfolding lit same has_prefix trim_prefix to_lower normalize variants field_get field_value
    string_or_empty sprint Dict.get first_variant varbind_field resolve_field is_oid_field
    condition_of as_mapping parse_conditions parse_condition_list operator_of apply_operator
    switch_operator condition_matches is_logical entry_matches flat_matches
program = tt

-- What BuildDedupKey computes with.
key_program : Unit {0}
unfolding build_dedup_key key_items key_of_items marshal item_json join escape_from escape_step
    escape_ascii hex_text hex_byte valid valid_from rune_width
key_program = tt

abbrev event : TrapEvent
event = trap link_down (at 10)

-- A condition as a document writes it.
abbrev mapping : Text → Text → Text → Value
mapping name op value = obj (
    field (lit "field") (str name)
      (field (lit "op") (str op) (field (lit "value") (str value) end)))

abbrev condition : Text → Text → Text → Condition
condition name op value = record { name = name; op = op; value = str value }

-- all: the kind is linkDown; any: the host begins with 9, or with 10.; not: the kind is linkUp
abbrev spec : MatchSpec
spec = record {
  raw = field (lit "all") (list (cons (mapping (lit "trap_oid") (lit "EQ") link_down) nil)) (
      field (lit "any")
        (list (
          cons (mapping (lit "source_ip") (lit "prefix") (lit "9"))
            (cons (mapping (lit "source_ip") (lit "prefix") (lit "10.")) nil)))
        (field (lit "not") (list (cons (mapping (lit "trap_oid") (lit "eq") link_up) nil)) end));
}

-- The values of the four conditions.
abbrev value : Condition → Bool
value c = same (sprint c.value) link_down || same (sprint c.value) (lit "10.")

abbrev all_conds : List Condition
all_conds = condition (lit "trap_oid") (lit "EQ") link_down ∷ []

abbrev any_conds : List Condition
any_conds =
    condition (lit "source_ip") (lit "prefix") (lit "9")
    ∷ condition (lit "source_ip") (lit "prefix") (lit "10.")
    ∷ []

abbrev not_conds : List Condition
not_conds = condition (lit "trap_oid") (lit "eq") link_up ∷ []

matches_logical_example :
    matches platform event spec
    ≡ ok (
        every value all_conds
        && (is_nil any_conds || any value any_conds)
        && not (any value not_conds))
unfolding program
matches_logical_example =
    matches_logical platform event value spec all_conds any_conds not_conds refl refl refl refl
      (refl, tt) (refl, (refl, tt)) (refl, tt)

abbrev flat : Fields
flat = field (lit "trap_oid") (str link_down) (field (lit "source_ip") (str (lit "10.0.0.1")) end)

abbrev flat_swapped : Fields
flat_swapped =
    field (lit "source_ip") (str (lit "10.0.0.1")) (field (lit "trap_oid") (str link_down) end)

flat_matched : flat_matches event flat ≡ true
unfolding program
flat_matched = refl

-- A trap of the other kind from the same host.
abbrev other_event : TrapEvent
other_event = trap link_up (at 20)

-- The JSON text of the items of a trap.
abbrev key_text : Text → Text
key_text oid =
    lit "[{\"field\":\"trap_oid\",\"value\":\""
    ++ (oid ++ lit "\"},{\"field\":\"source_ip\",\"value\":\"10.0.0.1\"}]")

abbrev key : Text → DedupKey
key oid = record { hash = hex_text (key_text oid); repr = key_text oid; missing_fields = [] }

key_of_event : build_dedup_key platform event key_names ≡ ok (key link_down)
unfolding program key_program
key_of_event = refl

key_of_other : build_dedup_key platform other_event key_names ≡ ok (key link_up)
unfolding program key_program
key_of_other = refl

items_of-IsValidItem :
    All IsValidItem (items_of event key_names) × All IsValidItem (items_of other_event key_names)
unfolding program key_program
items_of-IsValidItem = (((refl, refl), ((refl, refl), tt)), ((refl, refl), ((refl, refl), tt)))

build_dedup_key-Agree_example :
    ((key link_down).hash ≡ (key link_up).hash) ↔ All (Agree event other_event) key_names
build_dedup_key-Agree_example =
    build_dedup_key-Agree platform event other_event (lit "trap_oid") (lit "source_ip" ∷ [])
      (key link_down) (key link_up) key_of_event key_of_other refl refl items_of-IsValidItem.0
      items_of-IsValidItem.1 (λ same_sum. same_sum)

-- A trap with a community, which no parser checks.
abbrev with_community : Text → TrapEvent
with_community community = record event { fields = (lit "community", community) ∷ [] }

-- Two communities that are not UTF-8 give one key.
communities_collide :
    build_dedup_key platform (with_community (0xff ∷ [])) (lit "community" ∷ [])
    ≡ build_dedup_key platform (with_community (0xfe ∷ [])) (lit "community" ∷ [])
unfolding program key_program
communities_collide = refl
