-- ===== src/Tests/Engine.antt =====
-- HandleEvent at work.
use snmptrap_relay.Dedup
use snmptrap_relay.Dedup.{Store, new_store, key_same, key_eq, cache_key}
use snmptrap_relay.Dict
use snmptrap_relay.Engine.Accounts.{Accounts, handle_event-Accounts, alone-IsLawful}
use snmptrap_relay.Engine.Clearing.{
  apply_alarm_clear_rules, clear_key, clear_loop, is_usable, static_match_field_value, static_loop,
  static_all, static_condition, clear_key_event, dedup_key_trap_oid, clone_event_with_trap_oid,
  names_trap_oid, clear_step, clear_matched, run_clear, regex_test, clear_key_fields, is_conflict,
}
use snmptrap_relay.Engine.Order.{ClearsThenFails, handle_event-ClearsThenFails}
use snmptrap_relay.Engine.Rules.{
  filter_action, filter_rules, evaluate_filters, first_alarm, match_alarm,
}
use snmptrap_relay.Engine.State.{
  Runtime, Scene, Handled, outcome_of, alarm, write_alert, send_raw, alert_line, source_text,
  fallback, varbind_texts,
}
use snmptrap_relay.Engine.Suppression.{
  ReachesDedup, sent_outcome, duplicate_outcome, handle_event_twice, handle_event_lost,
  handle_event-clear_key, store_between, second_handled, overtaken, held_until, handle_event_race,
}
use snmptrap_relay.Engine.{
  Gap, alone, handle_event, handle_keyed, handle_kept, handle_unfiltered, handle_alarm,
  repeat_alarm, forward_alarm, forward_with, forward_unkeyed, forward_pass_through,
}
use snmptrap_relay.Match.Json.{marshal, item_json, escape_from, escape_step, escape_ascii}
use snmptrap_relay.Match.{
  matches, build_dedup_key, key_items, key_of_items, is_logical, is_no_entry, flat_matches,
  entry_matches, resolve_field, is_oid_field, varbind_field, first_variant,
}
use snmptrap_relay.Model.Value.{field_get, field_value, sprint}
use snmptrap_relay.Model.{AlarmRuleConfig, DedupKey, seconds, expires_at}
use snmptrap_relay.Oid.{normalize, variants}
use snmptrap_relay.Prelude.Int.{ℤ, pos, ltb_ℤ, ◌+ℤ◌}
use snmptrap_relay.Prelude.{
  ◌≡◌, ◌≢◌, refl, true, false, ◌||◌, [], ◌∷◌, ◌++◌, none, some, if◌then◌else◌,
}
use snmptrap_relay.Tests.{
  platform, link_down, link_up, trap, clear_on, alarm_rule, runtime, scene, at,
}
use snmptrap_relay.Text.Number.{hex_text, hex_byte}
use snmptrap_relay.Text.{Text, lit, same, has_prefix, trim_prefix, join}

-- Everything that HandleEvent computes with.
unfoldable pub program : Unit {0}
unfolding Dedup.put Dedup.get Dedup.touch Dedup.clear new_store key_same expires_at Dict.get
    Dict.put Dict.delete lit same has_prefix trim_prefix join hex_text normalize variants field_get
    field_value sprint resolve_field is_oid_field varbind_field first_variant entry_matches
    flat_matches is_logical is_no_entry matches marshal item_json escape_from escape_step
    escape_ascii key_items key_of_items build_dedup_key filter_action filter_rules evaluate_filters
    first_alarm match_alarm is_usable static_match_field_value static_all static_loop
    static_condition clear_key_event dedup_key_trap_oid clone_event_with_trap_oid names_trap_oid
    is_conflict clear_key_fields regex_test clear_key run_clear clear_matched clear_step clear_loop
    apply_alarm_clear_rules write_alert send_raw alert_line forward_with forward_pass_through
    forward_unkeyed source_text fallback varbind_texts forward_alarm repeat_alarm handle_keyed
    handle_alarm handle_unfiltered handle_kept handle_event
program = tt

abbrev rule : AlarmRuleConfig
rule = alarm_rule (lit "a") none

abbrev rt : Runtime
rt = runtime none (rule ∷ [])

abbrev failing : Runtime
failing = runtime (some (lit "refused")) (rule ∷ [])

abbrev first : Scene
first = scene (new_store (pos 2)) (trap link_down (at 10))

-- The JSON text of the key items of a linkDown trap.
abbrev key_text : Text
key_text =
    lit "[{\"field\":\"trap_oid\",\"value\":\"1.3.6.1.6.3.1.1.5.3\"},"
    ++ lit "{\"field\":\"source_ip\",\"value\":\"10.0.0.1\"}]"

abbrev key_of_first : DedupKey
key_of_first = record { hash = hex_text key_text; repr = key_text; missing_fields = [] }

first-ReachesDedup : ReachesDedup platform rt first rule key_of_first
unfolding program
first-ReachesDedup = record {
  filter_rule = [];
  kept = refl;
  no_clear = refl;
  alarm_rule = refl;
  built = refl;
  usable = refl;
}

-- The same trap again, on the store that the first leaves, at a time.
abbrev again : Runtime → Text → ℤ → Scene
again r oid received_at =
    scene (handle_event platform alone r first).scene.store (trap oid received_at)

again-ReachesDedup :
    (r : Runtime) → ReachesDedup platform rt (again r link_down (at 309)) rule key_of_first
unfolding program
again-ReachesDedup r = record {
  filter_rule = [];
  kept = refl;
  no_clear = refl;
  alarm_rule = refl;
  built = refl;
  usable = refl;
}

failing-ReachesDedup : ReachesDedup platform failing first rule key_of_first
unfolding program
failing-ReachesDedup = record {
  filter_rule = [];
  kept = refl;
  no_clear = refl;
  alarm_rule = refl;
  built = refl;
  usable = refl;
}

first_free : (Dedup.get first.store rule.id key_of_first.hash first.event.received_at).0 ≡ none
unfolding program
first_free = refl

handle_event_twice_example :
    ((handle_event platform alone rt first).outcome ≡ sent_outcome rt rule first)
    × ((handle_event platform alone rt (again rt link_down (at 309))).outcome ≡ (
        if rule.dedup.hold_until_clear || ltb_ℤ (at 309) (at 10 +ℤ seconds (pos 300))
        then duplicate_outcome rule
        else sent_outcome rt rule (again rt link_down (at 309))))
handle_event_twice_example =
    handle_event_twice first-ReachesDedup (again-ReachesDedup rt) first_free refl

-- One second before the window ends the repeat is suppressed.
repeat_suppressed :
    (handle_event platform alone rt (again rt link_down (at 309))).outcome ≡ duplicate_outcome rule
unfolding program
repeat_suppressed = refl

-- At its end it is sent.
repeat_sent :
    (handle_event platform alone rt (again rt link_down (at 310))).outcome
    ≡ outcome_of true true alarm (lit "a")
unfolding program
repeat_sent = refl

handle_event_lost_example :
    ((handle_event platform alone failing first).outcome.forwarded ≡ false)
    × ((handle_event platform alone rt (again failing link_down (at 309))).outcome
        ≡ duplicate_outcome rule)
    × ((handle_event platform alone rt (again failing link_down (at 309))).scene.sent ≡ [])
unfolding lit seconds ◌+ℤ◌
handle_event_lost_example =
    handle_event_lost failing-ReachesDedup (again-ReachesDedup failing) first_free refl
      (lit "refused") refl refl

handle_event-Accounts_example : Accounts rt first (handle_event platform alone rt first)
handle_event-Accounts_example = handle_event-Accounts platform alone-IsLawful rt first

-- The trap is sent unchanged, and stands in the alerts file.
first_sent :
    ((handle_event platform alone rt first).scene.sent ≡ (0x30 ∷ 0x01 ∷ 0x00 ∷ []) ∷ [])
    × ((handle_event platform alone rt first).scene.alerts
        ≡ lit "2026-01-01T00:00:00Z 10.0.0.1:50000 -> TRAP 1.3.6.1.6.3.1.1.5.3 \n" ∷ [])
unfolding program
first_sent = (refl, refl)

-- A clear of the key, then the alarm again.
abbrev cleared : Scene
cleared =
    scene (clear_key platform rt rule key_of_first (again rt link_up (at 20))).store
      (trap link_down (at 30))

cleared-ReachesDedup : ReachesDedup platform rt cleared rule key_of_first
unfolding program
cleared-ReachesDedup = record {
  filter_rule = [];
  kept = refl;
  no_clear = refl;
  alarm_rule = refl;
  built = refl;
  usable = refl;
}

handle_event-clear_key_example :
    (handle_event platform alone rt cleared).outcome ≡ sent_outcome rt rule cleared
unfolding is_usable hex_text hex_byte lit
handle_event-clear_key_example =
    handle_event-clear_key platform rt (again rt link_up (at 20)) refl refl cleared-ReachesDedup

-- Another worker with the same trap, received a second earlier, between the Get and the Put of this one.
abbrev rival : Scene
rival = scene (new_store (pos 2)) (trap link_down (at 9))

rival-ReachesDedup :
    ReachesDedup platform rt
      (record rival { store = store_between rt rt platform platform first rival rule key_of_first })
      rule
      key_of_first
unfolding program
rival-ReachesDedup = record {
  filter_rule = [];
  kept = refl;
  no_clear = refl;
  alarm_rule = refl;
  built = refl;
  usable = refl;
}

abbrev rival_handled : Handled
rival_handled =
    second_handled rt rt platform platform first rival rule key_of_first
      (store_between rt rt platform platform first rival rule key_of_first)

abbrev first_handled : Handled
first_handled =
    handle_event platform (overtaken rt rt platform platform first rival rule key_of_first) rt first

handle_event_race_example :
    (rival_handled.outcome ≡ sent_outcome rt rule rival)
    × (first_handled.outcome ≡ sent_outcome rt rule first)
    × ((Dedup.get rival_handled.scene.store rule.id key_of_first.hash (at 20)).0
        ≡ held_until rt rt platform platform first rival rule key_of_first rival (at 20))
    × ((Dedup.get first_handled.scene.store rule.id key_of_first.hash (at 20)).0
        ≡ held_until rt rt platform platform first rival rule key_of_first first (at 20))
handle_event_race_example =
    handle_event_race rt rt platform platform first rival rule key_of_first first-ReachesDedup
      rival-ReachesDedup first_free (at 20)

-- Another worker that clears the key between Get and Touch.
abbrev clearing : Gap
clearing = record {
  before_touch = λ s. (Dedup.clear s rule.id key_of_first.hash).1;
  before_put = λ s. s;
}

abbrev other_rule : AlarmRuleConfig
other_rule = record rule { id = lit "b" }

-- Two alarms with the same clear trap; the regular expression of the first matches the varbind, that
-- of the second does not.
abbrev passing_alarm : AlarmRuleConfig
passing_alarm = alarm_rule (lit "a") (some (clear_on (lit "down")))

abbrev failing_alarm : AlarmRuleConfig
failing_alarm = alarm_rule (lit "b") (some (clear_on (lit "up")))

abbrev two_clears : Runtime
two_clears = runtime none (passing_alarm ∷ failing_alarm ∷ [])

abbrev clear_trap : Scene
clear_trap = again rt link_up (at 20)

-- The first alarm's state is cleared, and yet the trap is no clear trap in the end.
clear_then_lost :
    ((clear_loop platform two_clears (passing_alarm ∷ []) false clear_trap).0 ≡ true)
    × ((apply_alarm_clear_rules platform two_clears clear_trap).0 ≡ false)
    × ((Dedup.get clear_trap.store (lit "a") (hex_text key_text) (at 20)).0 ≢ none)
    × ((Dedup.get
          (apply_alarm_clear_rules platform two_clears clear_trap).1.store
          (lit "a")
          (hex_text key_text)
          (at 20)).0
        ≡ none)
unfolding program
clear_then_lost = (refl, refl, λ h. cc, refl)

clear_trap-ClearsThenFails :
    ClearsThenFails platform two_clears clear_trap [] passing_alarm failing_alarm key_of_first
unfolding program
clear_trap-ClearsThenFails = record {
  rule = clear_on (lit "down");
  last_rule = clear_on (lit "up");
  alarms = refl;
  has = refl;
  hit = refl;
  passed = refl;
  built = refl;
  usable = refl;
  last_has = refl;
  last_hit = refl;
  last_missed = refl;
}

handle_event-ClearsThenFails_example :
    (after : Scene) × (handle_event platform alone two_clears clear_trap
      ≡ handle_unfiltered platform alone two_clears after)
    × ((now : ℤ) → (Dedup.get after.store (lit "a") key_of_first.hash now).0 ≡ none)
unfolding program
handle_event-ClearsThenFails_example =
    handle_event-ClearsThenFails alone [] refl clear_trap-ClearsThenFails

abbrev quiet : Scene
quiet = scene (new_store (pos 2)) (trap link_down (at 10))
