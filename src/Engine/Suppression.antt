-- ===== src/Engine/Suppression.antt =====
-- internal/engine/engine.go, HandleEvent: deduplication over two events with one key.
use snmptrap_relay.Dedup
use snmptrap_relay.Dedup.Window.{get-put_window, get-clear}
use snmptrap_relay.Dedup.{Store, cache_key, key_eq, key_same, key_same_iff, is_expired, live}
use snmptrap_relay.Dict
use snmptrap_relay.Dict.{get-delete}
use snmptrap_relay.Engine.Clearing.{apply_alarm_clear_rules, clear_key, is_usable}
use snmptrap_relay.Engine.Accounts.{is_sent}
use snmptrap_relay.Engine.Rules.{evaluate_filters, match_alarm}
use snmptrap_relay.Engine.State.{
  Runtime, Scene, Handled, Outcome, outcome_of, send_raw, write_alert, alarm, duplicate,
  forward_failed,
}
use snmptrap_relay.Engine.{
  Gap, alone, forward_with, forward_alarm, repeat_alarm, handle_keyed, handle_alarm,
  handle_unfiltered, handle_kept, handle_event,
}
use snmptrap_relay.Match.Std.{Platform}
use snmptrap_relay.Match.{build_dedup_key}
use snmptrap_relay.Model.{AlarmRuleConfig, DedupKey, DedupState, TrapEvent, seconds}
use snmptrap_relay.Prelude.Int.{ℤ, ◌+ℤ◌, ltb_ℤ}
use snmptrap_relay.Prelude.{
  ◌≡◌, ◌∙◌, refl, ap, Bool, true, false, ◌||◌, Option, none, some, arith, if◌then◌else◌,
  Option-cases, Bool-cases, inl, inr,
}
use snmptrap_relay.Result.{ok}
use snmptrap_relay.Text.{Text}

-- The event passes the filters, is no clear trap, and the alarm rule gives it a usable key.
pub record ReachesDedup (p : Platform) (rt : Runtime) (sc : Scene) (rule : AlarmRuleConfig)
    (key : DedupKey) : Type 0 where
  pub filter_rule : Text
  pub kept : evaluate_filters p sc.event rt.cfg ≡ ok (filter_rule, false)
  pub no_clear : apply_alarm_clear_rules p rt sc ≡ (false, sc)
  pub alarm_rule : match_alarm p sc.event rt.cfg ≡ ok (some rule)
  pub built : build_dedup_key p sc.event rule.dedup.key_fields ≡ ok key
  pub usable : is_usable key ≡ true

pub handle_event-ReachesDedup :
    {p : Platform} {rt : Runtime} {sc : Scene} {rule : AlarmRuleConfig} {key : DedupKey} (gap : Gap)
    → ReachesDedup p rt sc rule key
    → handle_event p gap rt sc ≡ handle_keyed rt gap rule key sc
unfolding handle_event handle_kept handle_unfiltered handle_alarm
handle_event-ReachesDedup gap r =
    rw (r.kept, handle_event)
      (rw (r.no_clear, handle_kept)
        (rw (r.alarm_rule, handle_unfiltered) (rw (r.built, handle_alarm) (rw r.usable refl))))

-- The outcome of an alarm that is sent.
abbrev pub sent_outcome : Runtime → AlarmRuleConfig → Scene → Outcome
sent_outcome rt rule sc =
    if is_sent (rt.forwarder sc.event.raw_bytes)
    then outcome_of true true alarm rule.id
    else outcome_of true false forward_failed rule.id

-- The outcome of an alarm that is suppressed.
abbrev pub duplicate_outcome : AlarmRuleConfig → Outcome
duplicate_outcome rule = outcome_of false false duplicate rule.id

-- A state that Get returns is in the store, which Get leaves as it was.
get_found :
    (s : Store) (rule_id key_hash : Text) (now : ℤ) (state : DedupState)
    → (Dedup.get s rule_id key_hash now).0 ≡ some state
    → ((Dedup.get s rule_id key_hash now).1 ≡ s)
      × (Dict.get (cache_key rule_id key_hash) s.states ≡ some state)
unfolding Dedup.get
get_found s rule_id key_hash now state h = ground arith

touch_found :
    (s : Store) (rule_id key_hash : Text) (event : TrapEvent) (state : DedupState)
    → Dict.get (cache_key rule_id key_hash) s.states ≡ some state
    → (new_state : DedupState) × ((Dedup.touch s rule_id key_hash event).0 ≡ some new_state)
unfolding Dedup.touch
touch_found s rule_id key_hash event state h = (Dedup.touched state event, rw (h, Dedup.touch) refl)

write_alert-store : (rt : Runtime) (sc : Scene) → (write_alert rt sc).store ≡ sc.store
unfolding write_alert
write_alert-store rt sc = ground arith

touch-clear :
    (s : Store) (rule_id key_hash : Text) (event : TrapEvent)
    → (Dedup.touch (Dedup.clear s rule_id key_hash).1 rule_id key_hash event).0 ≡ none
unfolding Dedup.touch Dedup.clear
touch-clear s rule_id key_hash event =
    let key = cache_key rule_id key_hash in
    ground (arith, get-delete key key s.states, key_same_iff key key)

module _ (rt : Runtime) (rule : AlarmRuleConfig) (key : DedupKey) where
  forward_alarm_lem :
      (gap : Gap) (sc : Scene)
      → ((forward_alarm rt gap rule key sc).outcome ≡ sent_outcome rt rule sc)
        × ((forward_alarm rt gap rule key sc).scene.store
            ≡ (Dedup.put
                (gap.before_put sc.store)
                rule.id
                key.hash
                key.repr
                sc.event
                rule.dedup.ttl_seconds
                rule.dedup.hold_until_clear).1)
  unfolding forward_alarm forward_with send_raw
  forward_alarm_lem gap sc = elim (Option-cases (rt.forwarder sc.event.raw_bytes)) [
    | inl went ↦ rw (went, forward_alarm, forward_with) (refl, write_alert-store rt _)
    | inr (e, refused) ↦ rw (refused, forward_alarm, forward_with) (refl, refl)
  ]

  -- An alarm whose key Get does not find is sent, and stored.
  handle_keyed_first :
      (gap : Gap) (sc : Scene)
      → (Dedup.get sc.store rule.id key.hash sc.event.received_at).0 ≡ none
      → (store : Store) × ((handle_keyed rt gap rule key sc).outcome ≡ sent_outcome rt rule sc)
        × ((handle_keyed rt gap rule key sc).scene.store
            ≡ (Dedup.put store rule.id key.hash key.repr sc.event rule.dedup.ttl_seconds
                rule.dedup.hold_until_clear).1)
  unfolding handle_keyed
  handle_keyed_first gap sc h =
      let got = (Dedup.get sc.store rule.id key.hash sc.event.received_at).1 in
      let sent = forward_alarm_lem gap (record sc { store = got }) in
      (gap.before_put got, rw (h, handle_keyed) sent.0, rw (h, handle_keyed) sent.1)

  -- An alarm whose key Get finds is suppressed, if no other worker clears it in between.
  handle_keyed_repeat :
      (sc : Scene) (state : DedupState)
      → (Dedup.get sc.store rule.id key.hash sc.event.received_at).0 ≡ some state
      → ((handle_keyed rt alone rule key sc).outcome ≡ duplicate_outcome rule)
        × ((handle_keyed rt alone rule key sc).scene.sent ≡ sc.sent)
  unfolding handle_keyed repeat_alarm
  handle_keyed_repeat sc state h =
      let (unchanged, there) = get_found sc.store rule.id key.hash sc.event.received_at state h in
      let (new_state, touched) = touch_found sc.store rule.id key.hash sc.event state there in
      rw (h, handle_keyed) (rw unchanged (rw (touched, repeat_alarm) (refl, refl)))

  -- Whatever the other workers do before Put, the outcome is the same.
  pub handle_keyed_free :
      (gap : Gap) (sc : Scene)
      → (Dedup.get sc.store rule.id key.hash sc.event.received_at).0 ≡ none
      → (handle_keyed rt gap rule key sc).outcome ≡ sent_outcome rt rule sc
  handle_keyed_free gap sc free = (handle_keyed_first gap sc free).1

  -- When another worker clears an alarm's key between Get and Touch, the alarm has the outcome of one
  -- that is sent.
  pub handle_keyed-clear :
      (gap : Gap) (sc : Scene)
      → ((s : Store) → gap.before_touch s ≡ (Dedup.clear s rule.id key.hash).1)
      → (handle_keyed rt gap rule key sc).outcome ≡ sent_outcome rt rule sc
  unfolding handle_keyed repeat_alarm
  handle_keyed-clear gap sc clears =
      let got = Dedup.get sc.store rule.id key.hash sc.event.received_at in
      elim (Option-cases got.0) [
        | inl free ↦ (handle_keyed_first gap sc free).1
        | inr (state, held) ↦
            rw (held, handle_keyed)
              (rw (clears got.1, touch-clear got.1 rule.id key.hash sc.event, repeat_alarm)
                (forward_alarm_lem gap _).0)
      ]

-- Two alarms with one rule and one key.
module _ {rt rt' : Runtime} {p p' : Platform} {sc sc' : Scene} {rule : AlarmRuleConfig}
    {key : DedupKey} (first : ReachesDedup p rt sc rule key)
    (second : ReachesDedup p' rt' sc' rule key)
    (free : (Dedup.get sc.store rule.id key.hash sc.event.received_at).0 ≡ none)
    (follows : sc'.store ≡ (handle_event p alone rt sc).scene.store) where
  abbrev in_window : Bool
  in_window =
      rule.dedup.hold_until_clear
      || ltb_ℤ sc'.event.received_at (sc.event.received_at +ℤ seconds rule.dedup.ttl_seconds)

  abbrev first_state : DedupState
  first_state =
      Dedup.fresh_state rule.id key.hash key.repr sc.event rule.dedup.ttl_seconds
        rule.dedup.hold_until_clear

  -- What Get finds for the second alarm.
  second_get :
      (Dedup.get sc'.store rule.id key.hash sc'.event.received_at).0
      ≡ (if in_window then some first_state else none)
  second_get =
      let (room, sent, stored) = handle_keyed_first rt rule key alone sc free in
      let after =
        follows
        ∙ ap (λ (h : Handled). h.scene.store) (handle_event-ReachesDedup alone first)
        ∙ stored in
      ap (λ (s : Store). (Dedup.get s rule.id key.hash sc'.event.received_at).0) after
      ∙ get-put_window room rule.id key.hash sc'.event.received_at key.repr sc.event
          rule.dedup.ttl_seconds rule.dedup.hold_until_clear

  -- Two traps reach deduplication with one rule and one key; Get finds no state for the first, the
  -- second meets the store that the first left, and no other worker intervenes. Then the first has the
  -- outcome of an alarm that is sent. The second is suppressed as a duplicate if the rule holds alarms
  -- until a clear, or if it was received before the first one's receiving time plus the TTL; else it
  -- has the outcome of an alarm that is sent.
  pub handle_event_twice :
      ((handle_event p alone rt sc).outcome ≡ sent_outcome rt rule sc)
      × ((handle_event p' alone rt' sc').outcome ≡ (
          if rule.dedup.hold_until_clear
            || ltb_ℤ sc'.event.received_at (sc.event.received_at +ℤ seconds rule.dedup.ttl_seconds)
          then duplicate_outcome rule
          else sent_outcome rt' rule sc'))
  handle_event_twice = (
    rw (handle_event-ReachesDedup alone first) (handle_keyed_free rt rule key alone sc free),
    rw (handle_event-ReachesDedup alone second) (elim (Bool-cases in_window) [
      | inl inside ↦
          rw inside
            (handle_keyed_repeat rt' rule key sc' first_state (second_get ∙ rw inside refl)).0
      | inr outside ↦
          rw outside (handle_keyed_free rt' rule key alone sc' (second_get ∙ rw outside refl))
    ]),
  )

  -- Two traps reach deduplication with one rule and one key; Get finds no state for the first, the
  -- second meets the store that the first left, and no other worker intervenes. If Send fails for the
  -- first, and the second comes within the first one's window, then the first is not reported as
  -- forwarded, and the second is suppressed as a duplicate and sends nothing.
  pub handle_event_lost :
      (e : Text)
      → rt.forwarder sc.event.raw_bytes ≡ some e
      → in_window ≡ true
      → ((handle_event p alone rt sc).outcome.forwarded ≡ false)
        × ((handle_event p' alone rt' sc').outcome ≡ duplicate_outcome rule)
        × ((handle_event p' alone rt' sc').scene.sent ≡ sc'.sent)
  handle_event_lost e refused inside =
      let again = handle_keyed_repeat rt' rule key sc' first_state (second_get ∙ rw inside refl) in
      (
        rw (handle_event-ReachesDedup alone first, handle_keyed_free rt rule key alone sc free)
            (rw refused refl),
        rw (handle_event-ReachesDedup alone second) again.0,
        rw (handle_event-ReachesDedup alone second) again.1,
      )

-- Two workers with two alarms of one rule and one key: the second handles its alarm from its first call to its
-- last one between the Get and the Put of the first.
module _ (rt rt' : Runtime) (p p' : Platform) (sc sc' : Scene) (rule : AlarmRuleConfig)
    (key : DedupKey) where
  -- The store behind the Get of the first worker, and how the second one meets it.
  abbrev pub store_between : Store
  store_between = (Dedup.get sc.store rule.id key.hash sc.event.received_at).1

  abbrev pub second_handled : Store → Handled
  second_handled store = handle_event p' alone rt' (record sc' { store = store })

  -- What the first worker finds when it comes to its Put.
  abbrev pub overtaken : Gap
  overtaken = record alone { before_put = λ store. (second_handled store).scene.store }

  abbrev pub held_until : Scene → ℤ → Option DedupState
  held_until by now =
      if rule.dedup.hold_until_clear
        || ltb_ℤ now (by.event.received_at +ℤ seconds rule.dedup.ttl_seconds)
      then some (
          Dedup.fresh_state rule.id key.hash key.repr by.event rule.dedup.ttl_seconds
            rule.dedup.hold_until_clear)
      else none

  -- A handled alarm that Get found no state for leaves its own.
  left_by_first :
      (r : Runtime) (gap : Gap) (s : Scene) (now : ℤ)
      → (Dedup.get s.store rule.id key.hash s.event.received_at).0 ≡ none
      → (Dedup.get (handle_keyed r gap rule key s).scene.store rule.id key.hash now).0
        ≡ held_until s now
  left_by_first r gap s now free =
      let (room, sent, stored) = handle_keyed_first r rule key gap s free in
      ap (λ (store : Store). (Dedup.get store rule.id key.hash now).0) stored
      ∙ get-put_window room rule.id key.hash now key.repr s.event rule.dedup.ttl_seconds
          rule.dedup.hold_until_clear

  -- Where one Get has found nothing, the next one does not either, at any time.
  get-get_missing :
      (now later : ℤ)
      → (Dedup.get sc.store rule.id key.hash now).0 ≡ none
      → (Dedup.get (Dedup.get sc.store rule.id key.hash now).1 rule.id key.hash later).0 ≡ none
  unfolding Dedup.get live
  get-get_missing now later free =
      let k = cache_key rule.id key.hash in
      ground (arith, get-delete k k sc.store.states, key_same_iff k k)

  -- Two alarms with one rule and one key are handled by two workers at once. The first worker's Get finds no
  -- state; the second worker handles its alarm before the first one calls Put, with no third in between. Then
  -- neither is suppressed: both have the outcome of an alarm that is sent. Between them Get finds the state that
  -- the second made, within its window; behind both Get finds the state that the first made, within the
  -- window of the first, with no suppression counted, and what the second stored is lost.
  pub handle_event_race :
      ReachesDedup p rt sc rule key
      → ReachesDedup p' rt' (record sc' { store = store_between }) rule key
      → (Dedup.get sc.store rule.id key.hash sc.event.received_at).0 ≡ none
      → (now : ℤ)
      → ((second_handled store_between).outcome ≡ sent_outcome rt' rule sc')
        × ((handle_event p overtaken rt sc).outcome ≡ sent_outcome rt rule sc)
        × ((Dedup.get (second_handled store_between).scene.store rule.id key.hash now).0
            ≡ held_until sc' now)
        × ((Dedup.get (handle_event p overtaken rt sc).scene.store rule.id key.hash now).0
            ≡ held_until sc now)
  handle_event_race first second free now =
      let between : Scene = record sc' { store = store_between } in
      let free' = get-get_missing sc.event.received_at sc'.event.received_at free in
      (
        rw (handle_event-ReachesDedup alone second)
            (handle_keyed_free rt' rule key alone between free'),
        rw (handle_event-ReachesDedup overtaken first)
            (handle_keyed_free rt rule key overtaken sc free),
        rw (handle_event-ReachesDedup alone second) (left_by_first rt' alone between now free'),
        rw (handle_event-ReachesDedup overtaken first) (left_by_first rt overtaken sc now free),
      )

-- Behind the clearing of a usable key Get finds nothing for it, at any time.
pub get-clear_key :
    (p : Platform) (rt : Runtime) (rule : AlarmRuleConfig) (key : DedupKey) (sc : Scene) (now : ℤ)
    → is_usable key ≡ true
    → (Dedup.get (clear_key p rt rule key sc).store rule.id key.hash now).0 ≡ none
unfolding clear_key
get-clear_key p rt rule key sc now usable =
    let cleared = (Dedup.clear sc.store rule.id key.hash).1 in
    let after : (clear_key p rt rule key sc).store ≡ cleared =
      rw (usable, clear_key) (write_alert-store rt _) in
    rw after (
      ground (
        arith,
        get-clear sc.store rule.id key.hash now rule.id key.hash,
        key_same_iff (cache_key rule.id key.hash) (cache_key rule.id key.hash),
      ))

-- When a clear rule has cleared a usable key, the next trap that reaches deduplication with that rule
-- and key, on the store that the clearing left and with no other worker in between, has the outcome
-- of an alarm that is sent, whatever its receiving time.
pub handle_event-clear_key :
    {p' : Platform} {rt' : Runtime} {sc' : Scene} {rule : AlarmRuleConfig} {key : DedupKey}
    (p : Platform) (rt : Runtime) (sc : Scene)
    → is_usable key ≡ true
    → sc'.store ≡ (clear_key p rt rule key sc).store
    → ReachesDedup p' rt' sc' rule key
    → (handle_event p' alone rt' sc').outcome ≡ sent_outcome rt' rule sc'
unfolding clear_key
handle_event-clear_key {p'} {rt'} {sc'} {rule} {key} p rt sc usable follows second =
    let cleared = (Dedup.clear sc.store rule.id key.hash).1 in
    let after : sc'.store ≡ cleared = follows ∙ rw usable (write_alert-store rt _) in
    let now = sc'.event.received_at in
    let free : (Dedup.get cleared rule.id key.hash now).0 ≡ none = ground (
      arith,
      get-clear sc.store rule.id key.hash now rule.id key.hash,
      key_same_iff (cache_key rule.id key.hash) (cache_key rule.id key.hash),
    ) in
    rw (handle_event-ReachesDedup alone second)
      (handle_keyed_free rt' rule key alone sc' (rw after free))
