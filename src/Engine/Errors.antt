-- ===== src/Engine/Errors.antt =====
-- internal/engine/engine.go, HandleEvent, with a configuration that validate has returned
-- (internal/config/config.go): which errors are left.
use snmptrap_relay.Config.{validate}
use snmptrap_relay.Config.Validated.{IsDecided, validate-IsValidated}
use snmptrap_relay.Engine.Branches.{Ends, Raised, handle_event-Ends}
use snmptrap_relay.Engine.Rules.{
  filter_action, filter_rules, evaluate_filters, first_alarm, match_alarm,
}
use snmptrap_relay.Engine.State.{
  Runtime, Scene, Handled, Level, LogMessage, Reason, send_raw, unset, forward_failed,
}
use snmptrap_relay.Engine.{Gap, forward_with, handle_event}
use snmptrap_relay.Match.Faults.{is_match_fault, FailsBy, >>=-FailsBy, if-FailsBy, matches-FailsBy}
use snmptrap_relay.Match.Json.{KeyItem, marshal}
use snmptrap_relay.Match.Std.{Platform}
use snmptrap_relay.Match.{key_of_items, build_dedup_key, matches}
use snmptrap_relay.Model.{AppConfig, AlarmRuleConfig, FilterRuleConfig, TrapEvent}
use snmptrap_relay.Prelude.{
  ◌≡◌, ◌⊎◌, refl, Bool, true, List, [], ◌∷◌, none, some, Option-cases, inl, inr, arith, All,
}
use snmptrap_relay.Result.{Result, Error, ok, err, send_failed}
use snmptrap_relay.Text.{Text}

-- The error of an event, if it has one: that of Send, or an error of Matches, with which HandleEvent
-- returns Outcome{} and has sent nothing.
abbrev pub IsBlamed : Scene → Handled → Type 0
IsBlamed sc h = elim h.error [
  | none ↦ Unit {0}
  | some e ↦
      (((t : Text) × (e ≡ send_failed t)) × (h.outcome.reason ≡ forward_failed))
      ⊎ ((is_match_fault e ≡ true) × (h.outcome.reason ≡ unset) × (h.scene.sent ≡ sc.sent))
]

filter_action-FailsBy :
    (rule : FilterRuleConfig) → IsDecided rule → FailsBy is_match_fault (filter_action rule)
unfolding filter_action
filter_action-FailsBy rule decided = ground arith

module _ (p : Platform) (event : TrapEvent) where
  filter_rules-FailsBy :
      (rules : List FilterRuleConfig) (default_action : Text)
      → All IsDecided rules
      → FailsBy is_match_fault (filter_rules p event rules default_action)
  unfolding filter_rules
  filter_rules-FailsBy [] d h = ground arith
  filter_rules-FailsBy (rule ∷ rules) d h =
      >>=-FailsBy is_match_fault (matches p event rule.match) _ (matches-FailsBy p event rule.match)
        (λ matched.
          if-FailsBy is_match_fault matched _ _ (filter_action-FailsBy rule h.0)
            (filter_rules-FailsBy rules d h.1))

  first_alarm-FailsBy :
      (rules : List AlarmRuleConfig) → FailsBy is_match_fault (first_alarm p event rules)
  unfolding first_alarm
  first_alarm-FailsBy [] = tt
  first_alarm-FailsBy (rule ∷ rules) =
      >>=-FailsBy is_match_fault (matches p event rule.match) _ (matches-FailsBy p event rule.match)
        (λ matched. if-FailsBy is_match_fault matched _ _ tt (first_alarm-FailsBy rules))

key_of_items-FailsBy :
    (p : Platform) (items : List KeyItem) (missing : List Text)
    → FailsBy is_match_fault (key_of_items p items missing)
unfolding key_of_items marshal
key_of_items-FailsBy p items (m ∷ ms) = tt
key_of_items-FailsBy p [] [] = tt
key_of_items-FailsBy p (i ∷ is) [] = tt

fails_with {ℓ} :
    {A : Type ℓ} (test : Error → Bool) (r : Result A) (e : Error)
    → r ≡ err e
    → FailsBy test r
    → test e ≡ true
fails_with test (err x) e h fails = ground arith
fails_with test (ok value) e h fails = cc

module _ (p : Platform) (rt : Runtime) (raw : AppConfig) (valid : validate raw ≡ ok rt.cfg) where
  Raised-is_match_fault :
      (event : TrapEvent) (e : Error) → Raised p rt event e → is_match_fault e ≡ true
  unfolding evaluate_filters match_alarm build_dedup_key
  Raised-is_match_fault event e (inl filters) =
      fails_with is_match_fault _ e filters
        (filter_rules-FailsBy p event _ _ (validate-IsValidated raw rt.cfg valid).filters)
  Raised-is_match_fault event e (inr (inl (after, alarms))) =
      fails_with is_match_fault _ e alarms (first_alarm-FailsBy p after rt.cfg.alarms)
  Raised-is_match_fault event e (inr (inr (after, names, key))) =
      fails_with is_match_fault _ e key (key_of_items-FailsBy p _ _)

  forward_with-IsBlamed :
      (from : Scene) (level : Level) (message : LogMessage) (reason : Reason)
      (logged rule_id : Text) (sc : Scene)
      → IsBlamed from (forward_with rt level message reason logged rule_id sc)
  unfolding forward_with send_raw
  forward_with-IsBlamed from level message reason logged rule_id sc =
      elim (Option-cases (rt.forwarder sc.event.raw_bytes)) [
        | inl went ↦ rw (went, forward_with) tt
        | inr (e, refused) ↦
            rw (refused, forward_with) (inl ((e, refl), rw (refused, forward_with) refl))
      ]

  Ends-IsBlamed : (sc : Scene) → Ends p rt sc (IsBlamed sc)
  Ends-IsBlamed sc = record {
    sends = λ level message reason logged rule_id sc' s.
        forward_with-IsBlamed sc level message reason logged rule_id sc';
    holds = λ reason rule_id sc' h. tt;
    aborts = λ e sc' unsent raised. inr (Raised-is_match_fault sc.event e raised, refl, unsent);
  }

  -- With a configuration that validate has returned, an error of HandleEvent is either that of Send,
  -- with the reason forward_failed; or it is one that Matches returns for a specification that it
  -- cannot read or evaluate, and then the outcome has no reason and nothing has been sent. It is
  -- never the error of a filter action that is not supported.
  pub handle_event-IsBlamed : (gap : Gap) (sc : Scene) → IsBlamed sc (handle_event p gap rt sc)
  handle_event-IsBlamed gap sc = handle_event-Ends p gap rt sc (IsBlamed sc) (Ends-IsBlamed sc)
