-- ===== src/Engine/Rules.antt =====
-- internal/engine/engine.go: which rule an event meets. evaluateFilters and matchAlarm.
use snmptrap_relay.Match.Std.{Platform}
use snmptrap_relay.Match.{matches}
use snmptrap_relay.Model.{TrapEvent, AppConfig, FilterRuleConfig, AlarmRuleConfig}
use snmptrap_relay.Prelude.{
  Bool, true, false, ◌||◌, List, [], ◌∷◌, Option, none, some, if◌then◌else◌,
}
use snmptrap_relay.Result.{Result, ok, err, ◌>>=◌, unsupported_action}
use snmptrap_relay.Text.{Text, lit, same, is_empty}

-- The switch on the action of a filter rule that matches.
unfoldable pub filter_action : FilterRuleConfig → Result (Text × Bool)
filter_action rule =
    if is_empty rule.action || same rule.action (lit "drop")
    then ok (rule.id, true)
    else if same rule.action (lit "keep")
    then ok (rule.id, false)
    else err (unsupported_action rule.action)

module _ (p : Platform) (event : TrapEvent) where
  -- The loop of evaluateFilters, with what follows it.
  unfoldable pub filter_rules : List FilterRuleConfig → Text → Result (Text × Bool)
  filter_rules [] default_action =
      if same default_action (lit "drop") then ok (lit "__default_drop__", true) else ok ([], false)
  filter_rules (rule ∷ rules) default_action = do
    matched ← matches p event rule.match
    if matched then filter_action rule else filter_rules rules default_action

  -- evaluateFilters: the rule, and whether the event is dropped
  unfoldable pub evaluate_filters : AppConfig → Result (Text × Bool)
  evaluate_filters cfg = filter_rules cfg.filters.rules cfg.filters.default_action

  unfoldable pub first_alarm : List AlarmRuleConfig → Result (Option AlarmRuleConfig)
  first_alarm [] = ok none
  first_alarm (rule ∷ rules) = do
    matched ← matches p event rule.match
    if matched then ok (some rule) else first_alarm rules

  -- matchAlarm
  unfoldable pub match_alarm : AppConfig → Result (Option AlarmRuleConfig)
  match_alarm cfg = first_alarm cfg.alarms
