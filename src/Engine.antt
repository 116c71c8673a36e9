-- ===== src/Engine.antt =====
-- internal/engine/engine.go: HandleEvent, forwardPassThrough and Cleanup.
pub mod State
pub mod Rules
pub mod Clearing
pub mod Keeps
pub mod Logged
pub mod Order
pub mod Suppression
pub mod Accounts
pub mod Branches
pub mod Errors
pub mod Reasons
use Clearing.{apply_alarm_clear_rules, is_usable}
use Rules.{evaluate_filters, match_alarm}
use State.{
  Runtime, Level, LogMessage, Reason, Scene, Handled, Outcome, outcome_of, done, failed, aborted,
  log, debug, info, warning, failure, trap_filtered, trap_forward_failed,
  trap_forwarded_dedup_disabled, trap_deduplicated, trap_forwarded, dedup_cleanup, filtered,
  forward_failed, dedup_disabled, duplicate, alarm, pass_through, write_alert, send_raw,
}
use snmptrap_relay.Dedup
use snmptrap_relay.Dedup.{Store}
use snmptrap_relay.Match.Std.{Platform}
use snmptrap_relay.Match.{build_dedup_key}
use snmptrap_relay.Model.{AppConfig, AlarmRuleConfig, DedupKey}
use snmptrap_relay.Prelude.Int.{ℤ}
use snmptrap_relay.Prelude.{Bool, true, false, List, [], ◌∷◌, Option, none, some, if◌then◌else◌}
use snmptrap_relay.Result.{Result, ok, err, send_failed}
use snmptrap_relay.Text.{Text, lit}

-- What other workers do to the store between the calls of one HandleEvent: between Get and Touch,
-- and before Put.
pub record Gap : Type 0 where
  pub before_touch : Store → Store
  pub before_put : Store → Store

abbrev pub alone : Gap
alone = record { before_touch = λ s. s; before_put = λ s. s }

module _ (rt : Runtime) where
  -- Send, and the outcome by its error; the three places of the source differ in the message, the
  -- reason and the rule.
  unfoldable pub forward_with : Level → LogMessage → Reason → Text → Text → Scene → Handled
  forward_with level message reason logged_rule rule_id sc =
      let (error, after) = send_raw rt sc in
      elim error [
        | some e ↦
            failed (outcome_of true false forward_failed rule_id) (send_failed e)
              (log failure trap_forward_failed logged_rule after)
        | none ↦
            done (outcome_of true true reason rule_id)
              (write_alert rt (log level message logged_rule after))
      ]

  -- forwardPassThrough
  unfoldable pub forward_pass_through : Scene → Handled
  forward_pass_through = forward_with info trap_forwarded pass_through (lit "pass-through") []

  -- The branch of HandleEvent with no usable key.
  unfoldable pub forward_unkeyed : AlarmRuleConfig → Scene → Handled
  forward_unkeyed rule =
      forward_with warning trap_forwarded_dedup_disabled dedup_disabled rule.id rule.id

  -- The end of HandleEvent: a first alarm is stored, then sent.
  unfoldable pub forward_alarm : Gap → AlarmRuleConfig → DedupKey → Scene → Handled
  forward_alarm gap rule key sc =
      let (_, store) =
        Dedup.put (gap.before_put sc.store) rule.id key.hash key.repr sc.event
          rule.dedup.ttl_seconds rule.dedup.hold_until_clear in
      forward_with info trap_forwarded alarm rule.id rule.id (record sc { store = store })

  -- Touch, on a state that Get has found.
  unfoldable pub repeat_alarm : Gap → AlarmRuleConfig → DedupKey → Scene → Handled
  repeat_alarm gap rule key sc =
      let (touched, store) = Dedup.touch (gap.before_touch sc.store) rule.id key.hash sc.event in
      let after = record sc { store = store } in
      elim touched [
        | none ↦ forward_alarm gap rule key after
        | some _ ↦
            done (outcome_of false false duplicate rule.id)
              (log info trap_deduplicated rule.id after)
      ]

  -- HandleEvent from Get on.
  unfoldable pub handle_keyed : Gap → AlarmRuleConfig → DedupKey → Scene → Handled
  handle_keyed gap rule key sc =
      let (found, store) = Dedup.get sc.store rule.id key.hash sc.event.received_at in
      let after = record sc { store = store } in
      elim found [
        | some _ ↦ repeat_alarm gap rule key after
        | none ↦ forward_alarm gap rule key after
      ]

module _ (p : Platform) (gap : Gap) (rt : Runtime) where
  -- HandleEvent on an event that an alarm rule matches.
  unfoldable pub handle_alarm : AlarmRuleConfig → Scene → Handled
  handle_alarm rule sc = elim (build_dedup_key p sc.event rule.dedup.key_fields) [
    | err e ↦ aborted e sc
    | ok key ↦ if is_usable key then handle_keyed rt gap rule key sc else forward_unkeyed rt rule sc
  ]

  -- HandleEvent behind the filters and the clear rules.
  unfoldable pub handle_unfiltered : Scene → Handled
  handle_unfiltered sc = elim (match_alarm p sc.event rt.cfg) [
    | err e ↦ aborted e sc
    | ok none ↦ forward_pass_through rt sc
    | ok (some rule) ↦ handle_alarm rule sc
  ]

  -- HandleEvent, once the filters let the event through.
  unfoldable pub handle_kept : Scene → Handled
  handle_kept sc =
      let (cleared, after) = apply_alarm_clear_rules p rt sc in
      if cleared then forward_pass_through rt after else handle_unfiltered after

  -- (*Engine).HandleEvent, on an engine with a runtime state, as New and Reload leave it: the check for a nil one is
  -- left out.
  unfoldable pub handle_event : Scene → Handled
  handle_event sc = elim (evaluate_filters p sc.event rt.cfg) [
    | err e ↦ aborted e sc
    | ok (rule_id, true) ↦
        done (outcome_of false false filtered rule_id) (log info trap_filtered rule_id sc)
    | ok (rule_id, false) ↦ handle_kept sc
  ]

-- (*Engine).Cleanup
unfoldable pub cleanup : Scene → ℤ → Scene
cleanup sc now =
    let (expired, store) = Dedup.cleanup sc.store now in
    let after = record sc { store = store } in
    elim expired [ [] ↦ after | _ ∷ _ ↦ log debug dedup_cleanup [] after ]
