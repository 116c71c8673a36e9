-- ===== src/Engine/Order.antt =====
-- internal/engine/engine.go: the order of rules. evaluateFilters, matchAlarm, applyAlarmClearRules.
use snmptrap_relay.Engine.Clearing.{
  clear_step, clear_loop, clear_matched, run_clear, clear_key, clear_key_event, clear_key_fields,
  apply_alarm_clear_rules, is_usable, regex_test, passes, fails,
}
use snmptrap_relay.Dedup
use snmptrap_relay.Engine.Suppression.{get-clear_key}
use snmptrap_relay.Engine.{Gap, handle_event, handle_kept, handle_unfiltered}
use snmptrap_relay.Prelude.Int.{ℤ}
use snmptrap_relay.Engine.Rules.{evaluate_filters, filter_action, filter_rules, first_alarm}
use snmptrap_relay.Engine.State.{Runtime, Scene}
use snmptrap_relay.Match.Std.{Platform}
use snmptrap_relay.Match.{matches, build_dedup_key}
use snmptrap_relay.Model.{TrapEvent, FilterRuleConfig, AlarmRuleConfig, DedupClearConfig, DedupKey}
use snmptrap_relay.Prelude.{
  ◌≡◌, ◌∙◌, refl, ap, Bool, true, false, List, [], ◌∷◌, ◌++◌, none, some, All, if◌then◌else◌,
}
use snmptrap_relay.Result.{ok}
use snmptrap_relay.Text.{Text, lit, same}

module _ (p : Platform) (event : TrapEvent) where
  -- The rules that stand before the one that decides.
  abbrev pub IsPassed : List FilterRuleConfig → Type 0
  IsPassed = All (λ r. matches p event r.match ≡ ok false)

  -- Behind filter rules that do not match, the first that does decides by its action, whatever rules
  -- stand behind it. With only rules that do not match, the default action decides: "drop" drops the
  -- event under the name "__default_drop__", all else keeps it.
  pub filter_rules_first :
      (before : List FilterRuleConfig) (rule : FilterRuleConfig) (behind : List FilterRuleConfig)
      (default_action : Text)
      → IsPassed before
      → matches p event rule.match ≡ ok true
      → (filter_rules p event (before ++ rule ∷ behind) default_action ≡ filter_action rule)
        × (filter_rules p event before default_action ≡ (
            if same default_action (lit "drop")
            then ok (lit "__default_drop__", true)
            else ok ([], false)))
  unfolding filter_rules
  filter_rules_first [] rule behind default_action passed hit = (rw (hit, filter_rules) refl, refl)
  filter_rules_first (r ∷ before) rule behind default_action passed hit =
      let rest = filter_rules_first before rule behind default_action passed.1 hit in
      (rw (passed.0, filter_rules) rest.0, rw (passed.0, filter_rules) rest.1)

  -- Behind alarm rules that do not match, the first that does is chosen, whatever rules stand behind
  -- it. With only rules that do not match, none is chosen.
  pub first_alarm_first :
      (before : List AlarmRuleConfig) (rule : AlarmRuleConfig) (behind : List AlarmRuleConfig)
      → All (λ (r : AlarmRuleConfig). matches p event r.match ≡ ok false) before
      → matches p event rule.match ≡ ok true
      → (first_alarm p event (before ++ rule ∷ behind) ≡ ok (some rule))
        × (first_alarm p event before ≡ ok none)
  unfolding first_alarm
  first_alarm_first [] rule behind passed hit = (rw (hit, first_alarm) refl, refl)
  first_alarm_first (r ∷ before) rule behind passed hit =
      let rest = first_alarm_first before rule behind passed.1 hit in
      (rw (passed.0, first_alarm) rest.0, rw (passed.0, first_alarm) rest.1)

module _ (p : Platform) (rt : Runtime) where
  clear_loop-append :
      (before behind : List AlarmRuleConfig) (m : Bool) (sc : Scene)
      → clear_loop p rt (before ++ behind) m sc ≡ (
          let (matched, after) = clear_loop p rt before m sc in
          clear_loop p rt behind matched after)
  unfolding clear_loop
  clear_loop-append [] behind m sc = refl
  clear_loop-append (alarm ∷ before) behind m sc =
      let (matched, after) = clear_step p rt alarm m sc in
      clear_loop-append before behind matched after

  -- A round whose clear rule matches, passes and has a usable key clears that key; one whose regular
  -- expression fails does nothing but to deny the clear trap.
  clear_step_passes :
      (alarm : AlarmRuleConfig) (rule : DedupClearConfig) (key : DedupKey) (m : Bool) (sc : Scene)
      → alarm.dedup.clear ≡ some rule
      → matches p sc.event rule.match ≡ ok true
      → regex_test p rt rule sc.event ≡ passes
      → build_dedup_key p
          (clear_key_event sc.event alarm.match (clear_key_fields rule alarm))
          (clear_key_fields rule alarm)
        ≡ ok key
      → clear_step p rt alarm m sc ≡ (true, clear_key p rt alarm key sc)
  unfolding clear_step clear_matched run_clear clear_key
  clear_step_passes alarm rule key m sc has hit pass built =
      rw (has, clear_step)
        (rw (hit, clear_step) (rw (pass, clear_matched) (rw (built, run_clear) refl)))

  clear_step_fails :
      (alarm : AlarmRuleConfig) (rule : DedupClearConfig) (m : Bool) (sc : Scene)
      → alarm.dedup.clear ≡ some rule
      → matches p sc.event rule.match ≡ ok true
      → regex_test p rt rule sc.event ≡ fails
      → clear_step p rt alarm m sc ≡ (false, sc)
  unfolding clear_step clear_matched
  clear_step_fails alarm rule m sc has hit miss =
      rw (has, clear_step) (rw (hit, clear_step) (rw (miss, clear_matched) refl))

-- Behind the alarms that come before, the clear rule of one alarm matches the event, passes its regular
-- expression and has a usable key; the clear rule of the last alarm matches, but its expression does not.
pub record ClearsThenFails (p : Platform) (rt : Runtime) (sc : Scene)
    (before : List AlarmRuleConfig) (clearing failing : AlarmRuleConfig) (key : DedupKey)
    : Type 0 where
  pub rule : DedupClearConfig
  pub last_rule : DedupClearConfig
  pub alarms : rt.cfg.alarms ≡ before ++ clearing ∷ failing ∷ []
  pub has : clearing.dedup.clear ≡ some rule
  pub hit : matches p (clear_loop p rt before false sc).1.event rule.match ≡ ok true
  pub passed : regex_test p rt rule (clear_loop p rt before false sc).1.event ≡ passes
  pub built :
      build_dedup_key p
        (clear_key_event
          (clear_loop p rt before false sc).1.event
          clearing.match
          (clear_key_fields rule clearing))
        (clear_key_fields rule clearing)
      ≡ ok key
  pub usable : is_usable key ≡ true
  pub last_has : failing.dedup.clear ≡ some last_rule
  pub last_hit :
      matches p
        (clear_key p rt clearing key (clear_loop p rt before false sc).1).event
        last_rule.match
      ≡ ok true
  pub last_missed :
      regex_test p rt last_rule
        (clear_key p rt clearing key (clear_loop p rt before false sc).1).event
      ≡ fails

apply-ClearsThenFails :
    {p : Platform} {rt : Runtime} {sc : Scene} {before : List AlarmRuleConfig}
    {clearing failing : AlarmRuleConfig} {key : DedupKey}
    → ClearsThenFails p rt sc before clearing failing key
    → apply_alarm_clear_rules p rt sc
      ≡ (false, clear_key p rt clearing key (clear_loop p rt before false sc).1)
unfolding apply_alarm_clear_rules clear_loop
apply-ClearsThenFails {p} {rt} {sc} {before} {clearing} {failing} {key} c =
    let (m, mid) = clear_loop p rt before false sc in
    ap (λ (l : List AlarmRuleConfig). clear_loop p rt l false sc) c.alarms
    ∙ clear_loop-append p rt before (clearing ∷ failing ∷ []) false sc
    ∙ ap (λ (r : Bool × Scene). clear_step p rt failing r.0 r.1)
        (clear_step_passes p rt clearing c.rule key m mid c.has c.hit c.passed c.built)
    ∙ clear_step_fails p rt failing c.last_rule true _ c.last_has c.last_hit c.last_missed

-- The filters keep a trap; the clear rule of an alarm matches it, passes its regular expression and has a
-- usable key; and the clear rule of the last alarm, the next one, matches it too, but the regular
-- expression of that does not. Then what HandleEvent does with the trap is what it does with one that is no clear trap:
-- it goes on to look for an alarm rule, instead of passing the trap through; and yet the first of the two
-- alarms is cleared: in the store that it goes on with, Get finds no state for its key, at any time.
pub handle_event-ClearsThenFails :
    {p : Platform} {rt : Runtime} {sc : Scene} {before : List AlarmRuleConfig}
    {clearing failing : AlarmRuleConfig} {key : DedupKey} (gap : Gap) (filter_rule : Text)
    → evaluate_filters p sc.event rt.cfg ≡ ok (filter_rule, false)
    → ClearsThenFails p rt sc before clearing failing key
    → (after : Scene) × (handle_event p gap rt sc ≡ handle_unfiltered p gap rt after)
      × ((now : ℤ) → (Dedup.get after.store clearing.id key.hash now).0 ≡ none)
unfolding handle_event handle_kept
handle_event-ClearsThenFails {p} {rt} {sc} {before} {clearing} {failing} {key} gap name kept c =
    let mid = (clear_loop p rt before false sc).1 in
    (
      clear_key p rt clearing key mid,
      rw (kept, handle_event) (rw (apply-ClearsThenFails c, handle_kept) refl),
      λ now. get-clear_key p rt clearing key mid now c.usable,
    )
