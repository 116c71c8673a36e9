-- ===== src/Engine/Keeps.antt =====
-- internal/engine/engine.go: what the clear rules and the alert lines leave alone.
use snmptrap_relay.Dedup.Steps.{Reach, here, next, cleared, Reach-trans}
use snmptrap_relay.Engine.Clearing.{
  run_clear, clear_key, clear_matched, clear_step, clear_loop, is_usable, clear_key_fields,
  clear_key_event, regex_test, RegexTest, passes, fails, invalid,
}
use snmptrap_relay.Engine.State.{
  Runtime, Scene, write_alert, log, Level, LogMessage, alert_line, warning, failure,
  trap_clear_skipped, trap_clear_failed, clear_regex_invalid, clear_match_error,
}
use snmptrap_relay.Match.Std.{Platform}
use snmptrap_relay.Model.{AlarmRuleConfig, DedupClearConfig, DedupKey, TrapEvent}
use snmptrap_relay.Prelude.{
  ℕ, ◌+◌, ◌≡◌, ◌∙◌, refl, ap, Bool, true, false, List, [], ◌∷◌, arith, length, length-append, ◌&&◌,
  not, Bool-cases, inl, inr, Option-cases, some,
}
use snmptrap_relay.Match.{matches, build_dedup_key}
use snmptrap_relay.Result.{Result, ok, err, Result-cases}
use snmptrap_relay.Text.{Text}

abbrev pub flag : Bool → ℕ
flag true = 1
flag false = 0

-- Nothing is sent, the event changes in its flag alone, every alert line sets that flag, which was
-- not set, and the store changes by calls of its methods alone.
pub record Keeps (sc after : Scene) : Type 0 where
  pub sent : after.sent ≡ sc.sent
  pub event : after.event ≡ record sc.event { alerts_logged = after.event.alerts_logged }
  pub balance :
      length after.alerts + flag sc.event.alerts_logged
      ≡ length sc.alerts + flag after.event.alerts_logged
  pub store : Reach sc.store after.store

pub Keeps-refl : (sc : Scene) → Keeps sc sc
Keeps-refl sc = record { sent = refl; event = refl; balance = refl; store = here }

pub Keeps-trans : {a b c : Scene} → Keeps a b → Keeps b c → Keeps a c
Keeps-trans {a} {b} {c} f g = record {
  sent = g.sent ∙ f.sent;
  event =
      g.event ∙ ap (λ (e : TrapEvent). record e { alerts_logged = c.event.alerts_logged }) f.event;
  balance = omega (arith, f.balance, g.balance);
  store = Reach-trans f.store g.store;
}

pub write_alert-Keeps : (rt : Runtime) (sc : Scene) → Keeps sc (write_alert rt sc)
unfolding write_alert
write_alert-Keeps rt sc = elim (Bool-cases (rt.alerts_writer && not sc.event.alerts_logged)) [
  | inl now ↦ rw now (record {
    sent = refl;
    event = refl;
    balance = ground (arith, length-append sc.alerts (alert_line rt.stamp sc.event ∷ []));
    store = here;
  })
  | inr skip ↦ rw skip (Keeps-refl sc)
]

-- A log line keeps all of it.
pub log-Keeps :
    (level : Level) (message : LogMessage) (rule : Text) (sc : Scene)
    → Keeps sc (log level message rule sc)
log-Keeps level message rule sc = record { sent = refl; event = refl; balance = refl; store = here }

module _ (p : Platform) (rt : Runtime) where
  pub clear_key-Keeps :
      (alarm : AlarmRuleConfig) (key : DedupKey) (sc : Scene)
      → Keeps sc (clear_key p rt alarm key sc)
  unfolding clear_key
  clear_key-Keeps alarm key sc = elim (Bool-cases (is_usable key)) [
    | inl usable ↦ rw usable (
        Keeps-trans
          (record {
            sent = refl;
            event = refl;
            balance = refl;
            store = next here (cleared alarm.id key.hash);
          })
          (write_alert-Keeps rt _))
    | inr unusable ↦ rw unusable (log-Keeps warning trap_clear_skipped alarm.id sc)
  ]

  run_clear-Keeps :
      (alarm : AlarmRuleConfig) (rule : DedupClearConfig) (sc : Scene)
      → Keeps sc (run_clear p rt alarm rule sc)
  unfolding run_clear
  run_clear-Keeps alarm rule sc =
      let names = clear_key_fields rule alarm in
      elim (Result-cases (build_dedup_key p (clear_key_event sc.event alarm.match names) names)) [
        | inl (e, refused) ↦
            rw (refused, run_clear) (log-Keeps failure trap_clear_failed alarm.id sc)
        | inr (key, built) ↦ rw (built, run_clear) (clear_key-Keeps alarm key sc)
      ]

  clear_matched-Keeps :
      (alarm : AlarmRuleConfig) (rule : DedupClearConfig) (sc : Scene)
      → Keeps sc (clear_matched p rt alarm rule sc).1
  unfolding clear_matched
  clear_matched-Keeps alarm rule sc = by_test (regex_test p rt rule sc.event) refl
    where
      by_test :
          (t : RegexTest)
          → regex_test p rt rule sc.event ≡ t
          → Keeps sc (clear_matched p rt alarm rule sc).1
      by_test passes e = rw (e, clear_matched) (run_clear-Keeps alarm rule sc)
      by_test fails e = rw (e, clear_matched) (Keeps-refl sc)
      by_test invalid e = rw (e, clear_matched) (log-Keeps failure clear_regex_invalid alarm.id sc)

  clear_rule-Keeps :
      (alarm : AlarmRuleConfig) (rule : DedupClearConfig) (m : Bool) (sc : Scene)
      → alarm.dedup.clear ≡ some rule
      → Keeps sc (clear_step p rt alarm m sc).1
  unfolding clear_step
  clear_rule-Keeps alarm rule m sc has = by_match (matches p sc.event rule.match) refl
    where
      by_match :
          (r : Result Bool)
          → matches p sc.event rule.match ≡ r
          → Keeps sc (clear_step p rt alarm m sc).1
      by_match (err x) e = rw (has, e, clear_step) (log-Keeps failure clear_match_error alarm.id sc)
      by_match (ok true) e = rw (has, e, clear_step) (clear_matched-Keeps alarm rule sc)
      by_match (ok false) e = rw (has, e, clear_step) (Keeps-refl sc)

  clear_step-Keeps :
      (alarm : AlarmRuleConfig) (m : Bool) (sc : Scene) → Keeps sc (clear_step p rt alarm m sc).1
  unfolding clear_step
  clear_step-Keeps alarm m sc = elim (Option-cases alarm.dedup.clear) [
    | inl without ↦ rw (without, clear_step) (Keeps-refl sc)
    | inr (rule, has) ↦ clear_rule-Keeps alarm rule m sc has
  ]

  pub clear_loop-Keeps :
      (alarms : List AlarmRuleConfig) (m : Bool) (sc : Scene)
      → Keeps sc (clear_loop p rt alarms m sc).1
  unfolding clear_loop
  clear_loop-Keeps [] m sc = Keeps-refl sc
  clear_loop-Keeps (alarm ∷ alarms) m sc =
      let (matched, after) = clear_step p rt alarm m sc in
      Keeps-trans (clear_step-Keeps alarm m sc) (clear_loop-Keeps alarms matched after)
