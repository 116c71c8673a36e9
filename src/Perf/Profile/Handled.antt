-- ===== src/Perf/Profile/Handled.antt =====
-- internal/engine/engine.go, HandleEvent, with the configuration of cmd/snmptrap-relay-perf/main.go and the
-- traps that the load generator sends.
use snmptrap_relay.Engine.Accounts.{is_sent}
use snmptrap_relay.Engine.Clearing.{apply_alarm_clear_rules, clear_loop, clear_step, is_usable}
use snmptrap_relay.Engine.Rules.{evaluate_filters, filter_rules, match_alarm, first_alarm}
use snmptrap_relay.Engine.State.{
  Runtime, Scene, outcome_of, send_raw, write_alert, dedup_disabled, forward_failed,
}
use snmptrap_relay.Engine.{
  Gap, handle_event, handle_kept, handle_unfiltered, handle_alarm, forward_unkeyed, forward_with,
}
use snmptrap_relay.Match.Std.{Platform}
use snmptrap_relay.Match.{
  matches, is_no_entry, is_logical, flat_matches, entry_matches, is_oid_field, resolve_field,
  build_dedup_key, key_items, key_of_items,
}
use snmptrap_relay.Model.Value.{field_get, field_value, sprint, str, field, end}
use snmptrap_relay.Model.{AppConfig, AlarmRuleConfig, TrapEvent, DedupKey, MatchSpec}
use snmptrap_relay.Oid.{normalize}
use snmptrap_relay.Perf.Load.{alarm_trap_oid, clear_trap_oid, dedup_config_for_profile}
use snmptrap_relay.Perf.Profile.Fields.{IsLoad}
use snmptrap_relay.Perf.Profile.{Flags, app_config}
use snmptrap_relay.Prelude.Int.{ℤ}
use snmptrap_relay.Prelude.{
  ℕ, ◌≡◌, refl, Bool, true, false, not, ap, ◌∙◌, if◌then◌else◌, [], ◌∷◌, ◌++◌, arith, some,
  Option-cases, inl, inr,
}
use snmptrap_relay.Result.{ok}
use snmptrap_relay.Text.{Text, lit, same, same_refl}

-- The only alarm rule.
abbrev pub load_rule : Text → AlarmRuleConfig
load_rule profile = record {
  id = lit "link_down";
  match = record { raw = field (lit "trap_oid") (str alarm_trap_oid) end };
  dedup = dedup_config_for_profile profile;
}

abbrev pub kind_is : Text → MatchSpec
kind_is oid = record { raw = field (lit "trap_oid") (str oid) end }

entry_matches-kind :
    (event : TrapEvent) (kind read : Text)
    → resolve_field event (lit "trap_oid") ≡ read
    → entry_matches event (lit "trap_oid") (str kind) ≡ same (normalize kind) (normalize read)
unfolding entry_matches is_oid_field sprint lit same
entry_matches-kind event kind read h = rw h refl

if_not : (b : Bool) → (if not b then false else true) ≡ b
if_not true = refl
if_not false = refl

-- A match on the kind of a trap.
pub kind_matches :
    (p : Platform) (event : TrapEvent) (kind read : Text)
    → resolve_field event (lit "trap_oid") ≡ read
    → matches p event (kind_is kind) ≡ ok (same (normalize kind) (normalize read))
unfolding matches is_no_entry is_logical flat_matches field_get field_value lit same
kind_matches p event kind read h = ap ok (if_not _ ∙ entry_matches-kind event kind read h)

-- A key field that no trap of the load generator has.
abbrev missing_key : DedupKey
missing_key = record {
  hash = [];
  repr = [];
  missing_fields = lit "fields.synthetic_unique_id" ∷ [];
}

pub alarm_is_alarm : same (normalize alarm_trap_oid) (normalize alarm_trap_oid) ≡ true
alarm_is_alarm = same_refl _

pub alarm_is_no_clear : same (normalize clear_trap_oid) (normalize alarm_trap_oid) ≡ false
unfolding same normalize lit
alarm_is_no_clear = refl

module _ (p : Platform) (rt : Runtime) (flags : Flags) (listen_port forward_port : ℤ) where
  abbrev pub load_config : AppConfig
  load_config = app_config flags listen_port forward_port

  -- The engine with this configuration.
  abbrev pub load_runtime : Runtime
  load_runtime = record rt { cfg = load_config }

  pub load_kept : (event : TrapEvent) → evaluate_filters p event load_config ≡ ok ([], false)
  unfolding evaluate_filters filter_rules app_config lit same
  load_kept event = refl

  module _ (event : TrapEvent) (device : Text) (index : ℕ)
      (reads : IsLoad event alarm_trap_oid device index) where
    pub load_alarm : match_alarm p event load_config ≡ ok (some (load_rule flags.profile))
    unfolding match_alarm first_alarm app_config
    load_alarm =
        rw (kind_matches p event alarm_trap_oid alarm_trap_oid reads.trap_oid_read)
          (rw alarm_is_alarm refl)

    disabled_key :
        same flags.profile (lit "dedup-clear") ≡ false
        → build_dedup_key p event (load_rule flags.profile).dedup.key_fields ≡ ok missing_key
    unfolding dedup_config_for_profile build_dedup_key key_items key_of_items
    disabled_key other = rw other (rw reads.unique_missing refl)

  -- Any other profile than "dedup-clear" has no clear rule.
  disabled_no_clear :
      (sc : Scene)
      → same flags.profile (lit "dedup-clear") ≡ false
      → apply_alarm_clear_rules p load_runtime sc ≡ (false, sc)
  unfolding apply_alarm_clear_rules clear_loop clear_step app_config dedup_config_for_profile
  disabled_no_clear sc other = rw other refl

  -- With any other profile than "dedup-clear", an alarm of the load generator is passed to Send once, and
  -- the store stays as it is: it counts as forwarded with deduplication disabled if Send returns no error,
  -- and as a failed forwarding else.
  pub handle_event-disabled :
      (gap : Gap) (sc : Scene) (device : Text) (index : ℕ)
      → IsLoad sc.event alarm_trap_oid device index
      → same flags.profile (lit "dedup-clear") ≡ false
      → let handled = handle_event p gap load_runtime sc in
        (handled.outcome ≡ (
          if is_sent (rt.forwarder sc.event.raw_bytes)
          then outcome_of true true dedup_disabled (lit "link_down")
          else outcome_of true false forward_failed (lit "link_down")))
        × (handled.scene.store ≡ sc.store)
        × (handled.scene.sent ≡ sc.sent ++ (sc.event.raw_bytes ∷ []))
  unfolding handle_event handle_kept handle_unfiltered handle_alarm is_usable forward_unkeyed
      forward_with send_raw write_alert
  handle_event-disabled gap sc device index reads other =
      rw (load_kept sc.event, handle_event)
        (rw (disabled_no_clear sc other, handle_kept)
          (rw (load_alarm sc.event device index reads, handle_unfiltered)
            (rw (disabled_key sc.event device index reads other, handle_alarm)
              (elim (Option-cases (rt.forwarder sc.event.raw_bytes)) [
                | inl went ↦
                    rw (went, forward_unkeyed, forward_with) (refl, ground arith, ground arith)
                | inr (e, refused) ↦ rw (refused, forward_unkeyed, forward_with) (refl, refl, refl)
              ]))))
