-- ===== src/Engine/Accounts.antt =====
-- internal/engine/engine.go, HandleEvent: what every return accounts for.
use mathlib.Core.Option
use snmptrap_relay.Dedup
use snmptrap_relay.Dedup.Steps.{Reach, here, next, stored, got, repeated, Reach-trans}
use snmptrap_relay.Dedup.{Store}
use snmptrap_relay.Engine.Clearing.{apply_alarm_clear_rules, is_usable}
use snmptrap_relay.Engine.Keeps.{
  Keeps, Keeps-refl, Keeps-trans, write_alert-Keeps, log-Keeps, clear_loop-Keeps, flag,
}
use snmptrap_relay.Engine.Rules.{evaluate_filters, match_alarm}
use snmptrap_relay.Engine.State.{
  Runtime, Scene, Handled, Level, LogMessage, Reason, send_raw, log, failure, trap_forward_failed,
  info, trap_forwarded, alarm, trap_deduplicated, trap_filtered, aborted,
}
use snmptrap_relay.Engine.{
  Gap, alone, forward_with, forward_pass_through, forward_unkeyed, forward_alarm, repeat_alarm,
  handle_keyed, handle_alarm, handle_unfiltered, handle_kept, handle_event,
}
use snmptrap_relay.Match.Std.{Platform}
use snmptrap_relay.Match.{build_dedup_key}
use snmptrap_relay.Model.{AlarmRuleConfig, DedupKey, TrapEvent}
use snmptrap_relay.Prelude.{
  ◌≡◌, ◌∙◌, refl, ap, Bool, true, false, ◌&&◌, [], ◌∷◌, ◌++◌, Option, none, some, arith, length,
  ◌+◌, if◌then◌else◌, Option-cases, Bool-cases, inl, inr, ◌⊎◌,
}
use snmptrap_relay.Result.{Result, Error, ok, err, send_failed, Result-cases}
use snmptrap_relay.Text.{Text}

-- Send returned no error.
abbrev pub is_sent : Option Text → Bool
is_sent none = true
is_sent (some e) = false

-- An accepted event has its datagram, unchanged, sent exactly once; an event that is not accepted
-- sends nothing. It is reported as forwarded exactly when it was sent with no error, and the error of
-- an accepted event is that of the sending. The event keeps all but its flag, each alert line sets the
-- flag, and the store changes by calls of its methods alone.
pub record Accounts (rt : Runtime) (sc : Scene) (h : Handled) : Type 0 where
  pub sent :
      h.scene.sent ≡ (if h.outcome.accepted then sc.sent ++ (sc.event.raw_bytes ∷ []) else sc.sent)
  pub forwarded :
      h.outcome.forwarded ≡ (h.outcome.accepted && is_sent (rt.forwarder sc.event.raw_bytes))
  pub error :
      (h.outcome.accepted ≡ false)
      ⊎ (h.error ≡ Option.map send_failed (rt.forwarder sc.event.raw_bytes))
  pub event : h.scene.event ≡ record sc.event { alerts_logged = h.scene.event.alerts_logged }
  pub balance :
      length h.scene.alerts + flag sc.event.alerts_logged
      ≡ length sc.alerts + flag h.scene.event.alerts_logged
  pub store : Reach sc.store h.scene.store

-- What was accounted for after a part that keeps all is accounted for before it.
Accounts-Keeps :
    {rt : Runtime} {sc after : Scene} {h : Handled}
    → Keeps sc after
    → Accounts rt after h
    → Accounts rt sc h
Accounts-Keeps {rt} {sc} {after} {h} k a = record {
  sent = a.sent ∙ rw (k.sent, k.event) refl;
  forwarded = a.forwarded ∙ rw k.event refl;
  error = elim a.error [ inl held ↦ inl held | inr same ↦ inr (same ∙ rw k.event refl) ];
  event =
      a.event
      ∙ ap (λ (e : TrapEvent). record e { alerts_logged = h.scene.event.alerts_logged }) k.event;
  balance = omega (arith, k.balance, a.balance);
  store = Reach-trans k.store a.store;
}

-- A return that sends nothing.
Accounts-rejected :
    {rt : Runtime} {sc : Scene} {h : Handled}
    → h.outcome.accepted ≡ false
    → h.outcome.forwarded ≡ false
    → Keeps sc h.scene
    → Accounts rt sc h
Accounts-rejected {rt} {sc} {h} acc fwd k = record {
  sent = rw acc k.sent;
  forwarded = rw (acc, fwd) refl;
  error = inl acc;
  event = k.event;
  balance = k.balance;
  store = k.store;
}

-- Other workers reach a store from the one that this worker left by calls of the store's methods.
pub record IsLawful (gap : Gap) : Type 0 where
  pub before_touch : (s : Store) → Reach s (gap.before_touch s)
  pub before_put : (s : Store) → Reach s (gap.before_put s)

pub alone-IsLawful : IsLawful alone
alone-IsLawful = record { before_touch = λ s. here; before_put = λ s. here }

-- A new store, and nothing else.
stored-Keeps : (sc : Scene) (s : Store) → Reach sc.store s → Keeps sc (record sc { store = s })
stored-Keeps sc s keep = record { sent = refl; event = refl; balance = refl; store = keep }

module _ (rt : Runtime) where
  forward_with-Accounts :
      (level : Level) (message : LogMessage) (reason : Reason) (logged rule_id : Text) (sc : Scene)
      → Accounts rt sc (forward_with rt level message reason logged rule_id sc)
  unfolding forward_with send_raw
  forward_with-Accounts level message reason logged rule_id sc =
      let after : Scene = record sc { sent = sc.sent ++ (sc.event.raw_bytes ∷ []) } in
      let lost = log-Keeps failure trap_forward_failed logged after in
      let told = log level message logged after in
      let kept = Keeps-trans (log-Keeps level message logged after) (write_alert-Keeps rt told) in
      elim (Option-cases (rt.forwarder sc.event.raw_bytes)) [
        | inl went ↦
            rw (went, forward_with)
              (record {
                sent = kept.sent;
                forwarded = rw went refl;
                error = inr (rw went refl);
                event = kept.event;
                balance = kept.balance;
                store = kept.store;
              })
        | inr (e, refused) ↦
            rw (refused, forward_with)
              (record {
                sent = lost.sent;
                forwarded = rw refused refl;
                error = inr (rw refused refl);
                event = lost.event;
                balance = lost.balance;
                store = lost.store;
              })
      ]

  module _ {gap : Gap} (lawful : IsLawful gap) (rule : AlarmRuleConfig) (key : DedupKey) where
    forward_alarm-Accounts : (sc : Scene) → Accounts rt sc (forward_alarm rt gap rule key sc)
    unfolding forward_alarm
    forward_alarm-Accounts sc =
        Accounts-Keeps
          (stored-Keeps sc _ (
            next (lawful.before_put sc.store) (
              stored rule.id key.hash key.repr sc.event rule.dedup.ttl_seconds
                rule.dedup.hold_until_clear)))
          (forward_with-Accounts info trap_forwarded alarm rule.id rule.id _)

    repeat_alarm-Accounts : (sc : Scene) → Accounts rt sc (repeat_alarm rt gap rule key sc)
    unfolding repeat_alarm
    repeat_alarm-Accounts sc =
        let touching = Dedup.touch (gap.before_touch sc.store) rule.id key.hash sc.event in
        let kept : Keeps sc (record sc { store = touching.1 }) =
          stored-Keeps sc touching.1
            (next (lawful.before_touch sc.store) (repeated rule.id key.hash sc.event)) in
        elim (Option-cases touching.0) [
          | inl gone ↦ rw (gone, repeat_alarm) (Accounts-Keeps kept (forward_alarm-Accounts _))
          | inr (state, there) ↦
              rw (there, repeat_alarm)
                (Accounts-rejected refl refl
                  (Keeps-trans kept (log-Keeps info trap_deduplicated rule.id _)))
        ]

    handle_keyed-Accounts : (sc : Scene) → Accounts rt sc (handle_keyed rt gap rule key sc)
    unfolding handle_keyed
    handle_keyed-Accounts sc =
        let found = Dedup.get sc.store rule.id key.hash sc.event.received_at in
        let kept : Keeps sc (record sc { store = found.1 }) =
          stored-Keeps sc found.1 (next here (got rule.id key.hash sc.event.received_at)) in
        elim (Option-cases found.0) [
          | inl free ↦ rw (free, handle_keyed) (Accounts-Keeps kept (forward_alarm-Accounts _))
          | inr (state, held) ↦
              rw (held, handle_keyed) (Accounts-Keeps kept (repeat_alarm-Accounts _))
        ]

module _ (p : Platform) {gap : Gap} (lawful : IsLawful gap) (rt : Runtime) where
  aborted-Accounts : (e : Error) (sc : Scene) → Accounts rt sc (aborted e sc)
  aborted-Accounts e sc = Accounts-rejected refl refl (Keeps-refl sc)

  handle_alarm-Accounts :
      (rule : AlarmRuleConfig) (sc : Scene) → Accounts rt sc (handle_alarm p gap rt rule sc)
  unfolding handle_alarm forward_unkeyed
  handle_alarm-Accounts rule sc =
      elim (Result-cases (build_dedup_key p sc.event rule.dedup.key_fields)) [
        | inl (e, refused) ↦ rw (refused, handle_alarm) (aborted-Accounts e sc)
        | inr (key, built) ↦ elim (Bool-cases (is_usable key)) [
          | inl usable ↦
              rw (built, handle_alarm) (rw usable (handle_keyed-Accounts rt lawful rule key sc))
          | inr unusable ↦
              rw (built, handle_alarm) (rw unusable (forward_with-Accounts rt _ _ _ _ _ sc))
        ]
      ]

  handle_unfiltered-Accounts : (sc : Scene) → Accounts rt sc (handle_unfiltered p gap rt sc)
  unfolding handle_unfiltered forward_pass_through
  handle_unfiltered-Accounts sc = by_alarm (match_alarm p sc.event rt.cfg) refl
    where
      by_alarm :
          (r : Result (Option AlarmRuleConfig))
          → match_alarm p sc.event rt.cfg ≡ r
          → Accounts rt sc (handle_unfiltered p gap rt sc)
      by_alarm (err e) x = rw (x, handle_unfiltered) (aborted-Accounts e sc)
      by_alarm (ok none) x = rw (x, handle_unfiltered) (forward_with-Accounts rt _ _ _ _ _ sc)
      by_alarm (ok (some rule)) x = rw (x, handle_unfiltered) (handle_alarm-Accounts rule sc)

  handle_kept-Accounts : (sc : Scene) → Accounts rt sc (handle_kept p gap rt sc)
  unfolding handle_kept apply_alarm_clear_rules forward_pass_through
  handle_kept-Accounts sc =
      let cleared = apply_alarm_clear_rules p rt sc in
      let kept = clear_loop-Keeps p rt rt.cfg.alarms false sc in
      elim (Bool-cases cleared.0) [
        | inl yes_cleared ↦
            rw yes_cleared (Accounts-Keeps kept (forward_with-Accounts rt _ _ _ _ _ _))
        | inr not_cleared ↦ rw not_cleared (Accounts-Keeps kept (handle_unfiltered-Accounts _))
      ]

  -- On every branch of HandleEvent, for every configuration and every answer of Send, and with other
  -- workers calling the store's methods between its Get, Touch and Put: an accepted event has its
  -- datagram sent exactly once, unchanged, and an event that is not accepted sends nothing; the event
  -- is reported as forwarded exactly when it was accepted and Send returned no error, and the error of
  -- an accepted event is that of Send; the event changes in no field but AlertsLogged; one alert line
  -- is written if this call set that flag, and none if not; the store changes by calls of its methods
  -- alone.
  pub handle_event-Accounts : (sc : Scene) → Accounts rt sc (handle_event p gap rt sc)
  unfolding handle_event
  handle_event-Accounts sc = by_filter (evaluate_filters p sc.event rt.cfg) refl
    where
      by_filter :
          (r : Result (Text × Bool))
          → evaluate_filters p sc.event rt.cfg ≡ r
          → Accounts rt sc (handle_event p gap rt sc)
      by_filter (err e) x = rw (x, handle_event) (aborted-Accounts e sc)
      by_filter (ok (rule_id, true)) x =
          rw (x, handle_event)
            (Accounts-rejected refl refl (log-Keeps info trap_filtered rule_id sc))
      by_filter (ok (rule_id, false)) x = rw (x, handle_event) (handle_kept-Accounts sc)
