-- ===== src/Perf/Profile/Cycle.antt =====
-- internal/engine/engine.go, HandleEvent, on what cmd/snmptrap-relay-perf/main.go sends with the profile
-- "dedup-clear": an alarm, the same alarm again, its clear trap, and the alarm once more.
use snmptrap_relay.Dedup
use snmptrap_relay.Engine.Clearing.{
  apply_alarm_clear_rules, clear_loop, clear_step, clear_matched, run_clear, regex_test, clear_key,
  clear_key_fields, clear_key_event, dedup_key_trap_oid, names_trap_oid, is_usable,
}
use snmptrap_relay.Engine.State.{
  Runtime, Scene, Outcome, outcome_of, send_raw, write_alert, pass_through, forward_failed,
}
use snmptrap_relay.Engine.Accounts.{is_sent}
use snmptrap_relay.Engine.Keeps.{clear_key-Keeps}
use snmptrap_relay.Engine.Suppression.{
  ReachesDedup, sent_outcome, duplicate_outcome, handle_event_twice, handle_event-clear_key,
}
use snmptrap_relay.Engine.{alone, handle_event, handle_kept, forward_pass_through, forward_with}
use snmptrap_relay.Match.Json.{KeyItem, item_json, marshal}
use snmptrap_relay.Match.Std.{Platform}
use snmptrap_relay.Match.{matches, build_dedup_key, key_items, key_of_items}
use snmptrap_relay.Model.{AlarmRuleConfig, DedupConfig, DedupClearConfig, DedupKey, TrapEvent}
use snmptrap_relay.Oid.{normalize}
use snmptrap_relay.Perf.Load.{alarm_trap_oid, clear_trap_oid, dedup_config_for_profile}
use snmptrap_relay.Perf.Profile.Fields.{IsLoad}
use snmptrap_relay.Perf.Profile.Handled.{
  load_runtime, load_kept, load_alarm, kind_matches, alarm_is_no_clear, kind_is,
}
use snmptrap_relay.Perf.Profile.{Flags, app_config}
use snmptrap_relay.Prelude.Int.{ℤ, pos}
use snmptrap_relay.Prelude.{
  ℕ, ◌≡◌, ◌∙◌, ap, refl, Bool, true, false, if◌then◌else◌, List, [], ◌∷◌, ◌++◌, ◌+◌, ◌/◌, ◌%◌, zero,
  suc, map, none, some, Option-cases, inl, inr, arith,
}
use snmptrap_relay.Result.{ok}
use snmptrap_relay.Text.Number.{int_text, hex_text, hex_byte, nat_text, digits_onto}
use snmptrap_relay.Text.{Text, lit, same, same_refl, is_empty, join}

-- The names of the fields that the key is built of.
abbrev key_fields : List Text
key_fields = lit "fields.ifIndex" ∷ lit "fields.device_id" ∷ []

abbrev clear_rule : DedupClearConfig
clear_rule = record {
  match = kind_is clear_trap_oid;
  key_fields = key_fields;
  varbind_oid = [];
  regex = [];
}

abbrev clearing : DedupConfig
clearing = record {
  ttl_seconds = pos 300;
  key_fields = key_fields;
  hold_until_clear = true;
  clear = some clear_rule;
}

-- The alarm rule of this profile.
abbrev pub cycle_rule : AlarmRuleConfig
cycle_rule = record { id = lit "link_down"; match = kind_is alarm_trap_oid; dedup = clearing }

cycle_dedup :
    (profile : Text)
    → same profile (lit "dedup-clear") ≡ true
    → dedup_config_for_profile profile ≡ clearing
unfolding dedup_config_for_profile
cycle_dedup profile this = rw this refl

abbrev cycle_items : Text → ℕ → List KeyItem
cycle_items device index =
    record { field = lit "fields.ifIndex"; value = int_text (pos index) }
    ∷ record { field = lit "fields.device_id"; value = device }
    ∷ []

-- The JSON text of the index and the device of a trap, and its sum.
abbrev key_text : Text → ℕ → Text
key_text device index =
    b'[' ∷ (join (b',' ∷ []) (map item_json (cycle_items device index)) ++ b']' ∷ [])

abbrev pub cycle_key : Platform → Text → ℕ → DedupKey
cycle_key p device index = record {
  hash = hex_text (p.sha256 (key_text device index));
  repr = key_text device index;
  missing_fields = [];
}

digits_onto-filled :
    (f n : ℕ) (out : Text) → is_empty out ≡ false → is_empty (digits_onto f n out) ≡ false
unfolding digits_onto
digits_onto-filled zero n out h = h
digits_onto-filled (suc f) n out h =
    ground (arith, digits_onto-filled f (n / 10) ((b'0' + n % 10) ∷ out) refl)

int_text-filled : (n : ℕ) → is_empty (int_text (pos n)) ≡ false
unfolding int_text nat_text digits_onto
int_text-filled n = ground (arith, digits_onto-filled n (n / 10) ((b'0' + n % 10) ∷ []) refl)

hex_text-filled : (s : Text) → is_empty s ≡ false → is_empty (hex_text s) ≡ false
unfolding hex_text hex_byte
hex_text-filled [] h = h
hex_text-filled (c ∷ s) h = refl

abbrev pass_of : Bool → Outcome
pass_of sent =
    if sent then outcome_of true true pass_through [] else outcome_of true false forward_failed []

-- The outcome of an event that forwardPassThrough sends.
abbrev pub passed_outcome : Runtime → Scene → Outcome
passed_outcome rt sc = pass_of (is_sent (rt.forwarder sc.event.raw_bytes))

forward_pass_through_lem :
    (rt : Runtime) (sc : Scene)
    → ((forward_pass_through rt sc).outcome ≡ passed_outcome rt sc)
      × ((forward_pass_through rt sc).scene.store ≡ sc.store)
unfolding forward_pass_through forward_with send_raw write_alert
forward_pass_through_lem rt sc = elim (Option-cases (rt.forwarder sc.event.raw_bytes)) [
  | inl went ↦ rw (went, forward_pass_through, forward_with) (refl, ground arith)
  | inr (e, refused) ↦ rw (refused, forward_pass_through, forward_with) (refl, refl)
]

module _ (p : Platform) (device : Text) (index : ℕ) (named : is_empty device ≡ false)
    (summed : (bytes : List ℕ) → is_empty (p.sha256 bytes) ≡ false) where
  cycle_usable : is_usable (cycle_key p device index) ≡ true
  unfolding is_usable
  cycle_usable = rw (hex_text-filled (p.sha256 (key_text device index)) (summed _)) refl

  cycle_built :
      (event : TrapEvent) (kind : Text)
      → IsLoad event kind device index
      → build_dedup_key p event key_fields ≡ ok (cycle_key p device index)
  unfolding build_dedup_key key_items key_of_items marshal
  cycle_built event kind reads =
      rw reads.index_read (rw (int_text-filled index) (rw reads.device_read (rw named refl)))

  module _ (rt : Runtime) (flags : Flags) (listen_port forward_port : ℤ)
      (profile : same flags.profile (lit "dedup-clear") ≡ true) where
    abbrev engine : Runtime
    engine = load_runtime p rt flags listen_port forward_port

    only_rule :
        (sc : Scene) → apply_alarm_clear_rules p engine sc ≡ clear_step p engine cycle_rule false sc
    unfolding apply_alarm_clear_rules clear_loop app_config
    only_rule sc = rw (cycle_dedup flags.profile profile) refl

    -- An alarm is no clear trap.
    alarm_clears :
        (sc : Scene)
        → IsLoad sc.event alarm_trap_oid device index
        → apply_alarm_clear_rules p engine sc ≡ (false, sc)
    unfolding clear_step
    alarm_clears sc reads =
        let other : matches p sc.event (kind_is clear_trap_oid) ≡ ok false =
          kind_matches p sc.event clear_trap_oid alarm_trap_oid reads.trap_oid_read
          ∙ ap ok alarm_is_no_clear in
        only_rule sc ∙ rw (other, clear_step) refl

    -- A clear trap clears the key of its index and device.
    clear_clears :
        (sc : Scene)
        → IsLoad sc.event clear_trap_oid device index
        → apply_alarm_clear_rules p engine sc
          ≡ (true, clear_key p engine cycle_rule (cycle_key p device index) sc)
    unfolding clear_step clear_matched run_clear regex_test clear_key_fields clear_key_event
        dedup_key_trap_oid names_trap_oid lit same
    clear_clears sc reads =
        let this : matches p sc.event (kind_is clear_trap_oid) ≡ ok true =
          kind_matches p sc.event clear_trap_oid clear_trap_oid reads.trap_oid_read
          ∙ ap ok (same_refl (normalize clear_trap_oid)) in
        let built = cycle_built sc.event clear_trap_oid reads in
        only_rule sc ∙ rw (this, clear_step) (rw (built, clear_matched, run_clear) refl)

    alarm-ReachesDedup :
        (sc : Scene)
        → IsLoad sc.event alarm_trap_oid device index
        → ReachesDedup p engine sc cycle_rule (cycle_key p device index)
    alarm-ReachesDedup sc reads = record {
      filter_rule = [];
      kept = load_kept p rt flags listen_port forward_port sc.event;
      no_clear = alarm_clears sc reads;
      alarm_rule =
          load_alarm p rt flags listen_port forward_port sc.event device index reads
          ∙ ap (λ (d : DedupConfig). ok (some (record cycle_rule { dedup = d })))
              (cycle_dedup flags.profile profile);
      built = cycle_built sc.event alarm_trap_oid reads;
      usable = cycle_usable;
    }

    -- What HandleEvent does with a clear trap: the trap is passed on, and the key is cleared.
    clear_passes :
        (sc : Scene)
        → IsLoad sc.event clear_trap_oid device index
        → let handled = handle_event p alone engine sc in
          (handled.outcome ≡ passed_outcome rt sc)
          × (handled.scene.store
              ≡ (clear_key p engine cycle_rule (cycle_key p device index) sc).store)
    unfolding handle_event handle_kept
    clear_passes sc reads =
        let key = cycle_key p device index in
        let after = clear_key p engine cycle_rule key sc in
        let same_bytes : after.event.raw_bytes ≡ sc.event.raw_bytes =
          ap (λ (e : TrapEvent). e.raw_bytes) (clear_key-Keeps p engine cycle_rule key sc).event in
        let (outcome, store) = forward_pass_through_lem engine after in
        rw (load_kept p rt flags listen_port forward_port sc.event, handle_event)
          (rw (clear_clears sc reads, handle_kept)
            (outcome ∙ ap (λ b. pass_of (is_sent (rt.forwarder b))) same_bytes, store))

-- With the profile "dedup-clear", four traps of one device that has a name and of one index reach
-- HandleEvent: an alarm, the alarm again, the clear trap, and the alarm once more. Get finds no state for the
-- first, the second meets the store that the first left and the last the one that the clear trap left, no
-- other worker intervenes, and SHA-256 never gives an empty sum. Then, at whatever times the traps are received, the first has the outcome
-- of an alarm that is sent, the second that of a duplicate, the clear trap that of a trap that is passed
-- through, and the last again that of an alarm that is sent.
pub handle_event-cycle :
    (p : Platform) (rt : Runtime) (flags : Flags) (listen_port forward_port : ℤ) (device : Text)
    (index : ℕ) (first second third fourth : Scene)
    → is_empty device ≡ false
    → ((bytes : List ℕ) → is_empty (p.sha256 bytes) ≡ false)
    → same flags.profile (lit "dedup-clear") ≡ true
    → IsLoad first.event alarm_trap_oid device index
    → IsLoad second.event alarm_trap_oid device index
    → IsLoad third.event clear_trap_oid device index
    → IsLoad fourth.event alarm_trap_oid device index
    → let engine = load_runtime p rt flags listen_port forward_port in
      (Dedup.get first.store
          (lit "link_down")
          (cycle_key p device index).hash
          first.event.received_at).0
        ≡ none
      → second.store ≡ (handle_event p alone engine first).scene.store
      → fourth.store ≡ (handle_event p alone engine third).scene.store
      → ((handle_event p alone engine first).outcome ≡ sent_outcome rt cycle_rule first)
        × ((handle_event p alone engine second).outcome ≡ duplicate_outcome cycle_rule)
        × ((handle_event p alone engine third).outcome ≡ passed_outcome rt third)
        × ((handle_event p alone engine fourth).outcome ≡ sent_outcome rt cycle_rule fourth)
handle_event-cycle p rt flags listen_port forward_port device index first second third fourth named
      summed profile reads_1 reads_2 reads_3 reads_4 free after_1 after_3 =
    let reaches =
      alarm-ReachesDedup p device index named summed rt flags listen_port forward_port profile in
    let twice = handle_event_twice (reaches first reads_1) (reaches second reads_2) free after_1 in
    let passes =
      clear_passes p device index named summed rt flags listen_port forward_port profile third
        reads_3 in
    (
      twice.0,
      twice.1,
      passes.0,
      handle_event-clear_key p (load_runtime p rt flags listen_port forward_port) third
          (cycle_usable p device index named summed) (after_3 ∙ passes.1) (reaches fourth reads_4),
    )
