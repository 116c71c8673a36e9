-- ===== src/Engine/Branches.antt =====
-- internal/engine/engine.go, HandleEvent: how it ends, on every branch. What holds of each of the ends
-- holds of HandleEvent.
use snmptrap_relay.Dedup
use snmptrap_relay.Engine.Clearing.{apply_alarm_clear_rules, is_usable}
use snmptrap_relay.Engine.Keeps.{clear_loop-Keeps}
use snmptrap_relay.Engine.Rules.{evaluate_filters, match_alarm}
use snmptrap_relay.Engine.State.{
  Runtime, Scene, Handled, Level, LogMessage, Reason, filtered, duplicate, alarm, pass_through,
  dedup_disabled, unset, forward_failed, done, outcome_of, aborted,
}
use snmptrap_relay.Engine.{
  Gap, forward_with, forward_pass_through, forward_unkeyed, forward_alarm, repeat_alarm,
  handle_keyed, handle_alarm, handle_unfiltered, handle_kept, handle_event,
}
use snmptrap_relay.Match.Std.{Platform}
use snmptrap_relay.Match.{build_dedup_key}
use snmptrap_relay.Model.{AlarmRuleConfig, DedupKey, TrapEvent}
use snmptrap_relay.Prelude.{
  ◌≡◌, ◌⊎◌, ◌∙◌, refl, Bool, true, false, List, Option, none, some, Option-cases, Bool-cases, inl,
  inr,
}
use snmptrap_relay.Result.{Result, Error, ok, err, Result-cases}
use snmptrap_relay.Text.{Text}

-- The reasons of an event that was sent.
abbrev pub is_sending : Reason → Bool
is_sending unset = false
is_sending filtered = false
is_sending forward_failed = false
is_sending dedup_disabled = true
is_sending duplicate = false
is_sending alarm = true
is_sending pass_through = true

-- The reasons of an event that was held back.
abbrev pub is_holding : Reason → Bool
is_holding unset = false
is_holding filtered = true
is_holding forward_failed = false
is_holding dedup_disabled = false
is_holding duplicate = true
is_holding alarm = false
is_holding pass_through = false

-- An error of the filters, of the alarm rules, or of a key.
abbrev pub Raised : Platform → Runtime → TrapEvent → Error → Type 0
Raised p rt event e =
    (evaluate_filters p event rt.cfg ≡ err e)
    ⊎ ((after : TrapEvent) × (match_alarm p after rt.cfg ≡ err e))
    ⊎ ((after : TrapEvent) × (names : List Text) × (build_dedup_key p after names ≡ err e))

-- Every end of HandleEvent: it sends, it holds the event back, or it returns an error with nothing
-- sent.
pub record Ends (p : Platform) (rt : Runtime) (sc : Scene) (Q : Handled → Type 0) : Type 0 where
  pub sends :
      (level : Level) (message : LogMessage) (reason : Reason) (logged rule_id : Text) (sc' : Scene)
      → is_sending reason ≡ true
      → Q (forward_with rt level message reason logged rule_id sc')
  pub holds :
      (reason : Reason) (rule_id : Text) (sc' : Scene)
      → is_holding reason ≡ true
      → Q (done (outcome_of false false reason rule_id) sc')
  pub aborts :
      (e : Error) (sc' : Scene) → sc'.sent ≡ sc.sent → Raised p rt sc.event e → Q (aborted e sc')

module _ (p : Platform) (gap : Gap) (rt : Runtime) (from : Scene) (Q : Handled → Type 0)
    (ends : Ends p rt from Q) where
  module _ (rule : AlarmRuleConfig) (key : DedupKey) where
    forward_alarm-Q : (sc : Scene) → Q (forward_alarm rt gap rule key sc)
    unfolding forward_alarm
    forward_alarm-Q sc = ends.sends _ _ _ _ _ _ refl

    repeat_alarm-Q : (sc : Scene) → Q (repeat_alarm rt gap rule key sc)
    unfolding repeat_alarm
    repeat_alarm-Q sc =
        let touching = Dedup.touch (gap.before_touch sc.store) rule.id key.hash sc.event in
        elim (Option-cases touching.0) [
          | inl gone ↦ rw (gone, repeat_alarm) (forward_alarm-Q _)
          | inr (state, there) ↦ rw (there, repeat_alarm) (ends.holds _ _ _ refl)
        ]

    handle_keyed-Q : (sc : Scene) → Q (handle_keyed rt gap rule key sc)
    unfolding handle_keyed
    handle_keyed-Q sc =
        let got = Dedup.get sc.store rule.id key.hash sc.event.received_at in
        elim (Option-cases got.0) [
          | inl free ↦ rw (free, handle_keyed) (forward_alarm-Q _)
          | inr (state, held) ↦ rw (held, handle_keyed) (repeat_alarm-Q _)
        ]

  handle_alarm-Q :
      (rule : AlarmRuleConfig) (sc : Scene)
      → sc.sent ≡ from.sent
      → Q (handle_alarm p gap rt rule sc)
  unfolding handle_alarm forward_unkeyed
  handle_alarm-Q rule sc unsent =
      elim (Result-cases (build_dedup_key p sc.event rule.dedup.key_fields)) [
        | inl (e, refused) ↦
            rw (refused, handle_alarm)
              (ends.aborts e sc unsent (inr (inr (sc.event, rule.dedup.key_fields, refused))))
        | inr (key, built) ↦ elim (Bool-cases (is_usable key)) [
          | inl usable ↦ rw (built, handle_alarm) (rw usable (handle_keyed-Q rule key sc))
          | inr unusable ↦ rw (built, handle_alarm) (rw unusable (ends.sends _ _ _ _ _ sc refl))
        ]
      ]

  handle_unfiltered-Q : (sc : Scene) → sc.sent ≡ from.sent → Q (handle_unfiltered p gap rt sc)
  unfolding handle_unfiltered forward_pass_through
  handle_unfiltered-Q sc unsent = by_alarm (match_alarm p sc.event rt.cfg) refl
    where
      by_alarm :
          (r : Result (Option AlarmRuleConfig))
          → match_alarm p sc.event rt.cfg ≡ r
          → Q (handle_unfiltered p gap rt sc)
      by_alarm (err e) x =
          rw (x, handle_unfiltered) (ends.aborts e sc unsent (inr (inl (sc.event, x))))
      by_alarm (ok none) x = rw (x, handle_unfiltered) (ends.sends _ _ _ _ _ sc refl)
      by_alarm (ok (some rule)) x = rw (x, handle_unfiltered) (handle_alarm-Q rule sc unsent)

  handle_kept-Q : (sc : Scene) → sc.sent ≡ from.sent → Q (handle_kept p gap rt sc)
  unfolding handle_kept forward_pass_through apply_alarm_clear_rules
  handle_kept-Q sc unsent =
      let kept = clear_loop-Keeps p rt rt.cfg.alarms false sc in
      elim (Bool-cases (apply_alarm_clear_rules p rt sc).0) [
        | inl yes_cleared ↦ rw yes_cleared (ends.sends _ _ _ _ _ _ refl)
        | inr not_cleared ↦ rw not_cleared (handle_unfiltered-Q _ (kept.sent ∙ unsent))
      ]

  pub handle_event-Ends : Q (handle_event p gap rt from)
  unfolding handle_event
  handle_event-Ends = by_filter (evaluate_filters p from.event rt.cfg) refl
    where
      by_filter :
          (r : Result (Text × Bool))
          → evaluate_filters p from.event rt.cfg ≡ r
          → Q (handle_event p gap rt from)
      by_filter (err e) x = rw (x, handle_event) (ends.aborts e from refl (inl x))
      by_filter (ok (rule_id, true)) x = rw (x, handle_event) (ends.holds _ _ _ refl)
      by_filter (ok (rule_id, false)) x = rw (x, handle_event) (handle_kept-Q from refl)
