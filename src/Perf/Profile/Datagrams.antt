-- ===== src/Perf/Profile/Datagrams.antt =====
-- cmd/snmptrap-relay-perf/main.go, buildDedupClearPayloadPool, beside internal/snmp/parser.go and
-- internal/engine/engine.go: the four datagrams of a pair, from their making to their outcomes.
use snmptrap_relay.Dedup
use snmptrap_relay.Engine.State.{Runtime, Scene}
use snmptrap_relay.Engine.Suppression.{sent_outcome, duplicate_outcome}
use snmptrap_relay.Engine.{alone, handle_event}
use snmptrap_relay.Match.Std.{Platform}
use snmptrap_relay.Model.{TrapEvent}
use snmptrap_relay.Perf.Load.Events.{
  IsPlainOid, alarm-IsPlainOid, clear-IsPlainOid, build_trap_payload-parse_trap,
}
use snmptrap_relay.Perf.Load.Made.{device_name-valid, pair_payloads_parts}
use snmptrap_relay.Perf.Load.{
  build_trap_payload, device_name, pair_payloads, alarm_trap_oid, clear_trap_oid,
}
use snmptrap_relay.Perf.Profile.Cycle.{handle_event-cycle, cycle_rule, cycle_key, passed_outcome}
use snmptrap_relay.Perf.Profile.Fields.{IsLoad, load_event, alarm-IsLoad, clear-IsLoad}
use snmptrap_relay.Perf.Profile.Handled.{load_runtime}
use snmptrap_relay.Perf.Profile.{Flags, field_aliases}
use snmptrap_relay.Prelude.Int.{ℤ, pos}
use snmptrap_relay.Prelude.{
  ℕ, ◌≡◌, refl, List, [], ◌∷◌, ◌+◌, ◌*◌, ◌<◌, ◌^◌, length, true, false, none,
}
use snmptrap_relay.Result.{ok}
use snmptrap_relay.Snmp.{Library, parse_trap}
use snmptrap_relay.Text.{Text, lit, same, is_empty}

-- The event is what ParseTrap reads of a datagram with less than 2^32 bytes.
pub record IsReadOf (lib : Library) (payload : List ℕ) (event : TrapEvent) : Type 0 where
  pub now : ℤ
  pub source_ip : Text
  pub source_port : ℤ
  pub short : length payload < 2 ^ 32
  pub parsed : parse_trap lib now payload source_ip source_port field_aliases ≡ ok event

device_name-filled : (i : ℕ) → is_empty (device_name 2 i) ≡ false
unfolding device_name lit
device_name-filled i = refl

module _ (lib : Library) (i uptime : ℕ) (payload : List ℕ) (event : TrapEvent)
    (r : IsReadOf lib payload event) where
  abbrev event_of : Text → TrapEvent
  event_of kind =
      load_event lib r.now payload r.source_ip r.source_port kind (device_name 2 i) (i + 1) uptime

  -- What ParseTrap reads of a payload of buildTrapPayload.
  read_event :
      (kind : Text)
      → IsPlainOid kind
      → build_trap_payload kind (device_name 2 i) (pos (i + 1)) (pos uptime) ≡ ok payload
      → event_of kind ≡ event
  read_event kind plain made =
      let (built, made_too, read) =
        build_trap_payload-parse_trap lib r.now r.source_ip r.source_port field_aliases kind
          (device_name 2 i) (i + 1) uptime plain (device_name-valid 2 i) in
      let is : built ≡ payload = cc in
      let whole : parse_trap lib r.now payload r.source_ip r.source_port field_aliases
          ≡ ok (event_of kind) =
        rw (← is) (read (rw is r.short)) in
      cc

  -- The names of the rules, for an alarm and for a clear trap.
  alarm_read :
      build_trap_payload alarm_trap_oid (device_name 2 i) (pos (i + 1)) (pos uptime) ≡ ok payload
      → IsLoad event alarm_trap_oid (device_name 2 i) (i + 1)
  alarm_read made =
      rw (← read_event alarm_trap_oid alarm-IsPlainOid made)
        (alarm-IsLoad lib r.now payload r.source_ip r.source_port (device_name 2 i) (i + 1) uptime)

  clear_read :
      build_trap_payload clear_trap_oid (device_name 2 i) (pos (i + 1)) (pos uptime) ≡ ok payload
      → IsLoad event clear_trap_oid (device_name 2 i) (i + 1)
  clear_read made =
      rw (← read_event clear_trap_oid clear-IsPlainOid made)
        (clear-IsLoad lib r.now payload r.source_ip r.source_port (device_name 2 i) (i + 1) uptime)

-- The pattern of the profile "dedup-clear" does on the relay what it is made for. Its four datagrams for one
-- pair are read by ParseTrap, at any times and from any senders, and handled with the configuration of the
-- load generator. Get finds no state for the first, the second meets the store that the first left and the
-- last the one that the third left, no other worker intervenes, and SHA-256 never gives an empty sum. Then
-- the first has the outcome of an alarm that is sent, the second that of a duplicate, the third that of a
-- trap that is passed through, and the last again that of an alarm that is sent.
pub pair_payloads-handle_event :
    (p : Platform) (lib : Library) (rt : Runtime) (flags : Flags) (listen_port forward_port : ℤ)
    (i : ℕ) (a b c d : List ℕ) (first second third fourth : Scene)
    → pair_payloads i ≡ ok (a ∷ b ∷ c ∷ d ∷ [])
    → IsReadOf lib a first.event
    → IsReadOf lib b second.event
    → IsReadOf lib c third.event
    → IsReadOf lib d fourth.event
    → same flags.profile (lit "dedup-clear") ≡ true
    → ((bytes : List ℕ) → is_empty (p.sha256 bytes) ≡ false)
    → let engine = load_runtime p rt flags listen_port forward_port in
      (Dedup.get first.store
          (lit "link_down")
          (cycle_key p (device_name 2 i) (i + 1)).hash
          first.event.received_at).0
        ≡ none
      → second.store ≡ (handle_event p alone engine first).scene.store
      → fourth.store ≡ (handle_event p alone engine third).scene.store
      → ((handle_event p alone engine first).outcome ≡ sent_outcome rt cycle_rule first)
        × ((handle_event p alone engine second).outcome ≡ duplicate_outcome cycle_rule)
        × ((handle_event p alone engine third).outcome ≡ passed_outcome rt third)
        × ((handle_event p alone engine fourth).outcome ≡ sent_outcome rt cycle_rule fourth)
pair_payloads-handle_event p lib rt flags listen_port forward_port i a b c d first second third
      fourth made read_a read_b read_c read_d profile summed free after_first after_third =
    let (made_a, made_b, made_c, made_d) = pair_payloads_parts i a b c d made in
    let base = 100000 + i * 10 in
    handle_event-cycle p rt flags listen_port forward_port (device_name 2 i) (i + 1) first second
      third fourth (device_name-filled i) summed profile
      (alarm_read lib i base a first.event read_a made_a)
      (alarm_read lib i (base + 1) b second.event read_b made_b)
      (clear_read lib i (base + 2) c third.event read_c made_c)
      (alarm_read lib i (base + 3) d fourth.event read_d made_d) free after_first after_third
