-- ===== src/Tests/Profile.antt =====
-- HandleEvent on the traps of the load generator.
use snmptrap_relay.Ber.{
  decode_oid, oid_loop, next_value, decode_value, universal_value, application_value,
  decode_tag_class, decode_tag_number,
}
use snmptrap_relay.Perf.Profile.{field_aliases}
use snmptrap_relay.Perf.Load.{pair_payloads, device_name}
use snmptrap_relay.Perf.Profile.Datagrams.{IsReadOf, pair_payloads-handle_event}
use snmptrap_relay.Prelude.Int.{bits64, wrap64, ◌+ℤ◌, scale, leb_ℤ}
use snmptrap_relay.Prelude.{zero, suc, length, ◌<◌, ◌^◌, arith, ◌&&◌}
use snmptrap_relay.Result.{Result, err}
use snmptrap_relay.Snmp.{parse_trap}
use snmptrap_relay.Tests.{trap, link_up}
use snmptrap_relay.Text.Utf8.{valid, valid_from, rune_width}
use snmptrap_relay.Dedup
use snmptrap_relay.Dedup.{new_store}
use snmptrap_relay.Dict
use snmptrap_relay.Engine.State.{Runtime, Scene, outcome_of, dedup_disabled}
use snmptrap_relay.Engine.Suppression.{sent_outcome, duplicate_outcome}
use snmptrap_relay.Engine.{alone, handle_event}
use snmptrap_relay.Match.Std.{Platform}
use snmptrap_relay.Model.{TrapEvent}
use snmptrap_relay.Perf.Load.{alarm_trap_oid}
use snmptrap_relay.Perf.Profile.Cycle.{cycle_rule, cycle_key, passed_outcome}
use snmptrap_relay.Perf.Profile.Fields.{load_event, alarm-IsLoad}
use snmptrap_relay.Perf.Profile.Handled.{load_runtime, handle_event-disabled}
use snmptrap_relay.Perf.Profile.{Flags}
use snmptrap_relay.Prelude.Int.{ℤ, pos}
use snmptrap_relay.Prelude.{
  ℕ, ◌≡◌, refl, true, false, if◌then◌else◌, List, [], ◌∷◌, Option, some, none,
}
use snmptrap_relay.Perf.Run.{Observed, Invocation, Makes}
use snmptrap_relay.Result.{ok}
use snmptrap_relay.Server.Open.{UdpNet}
use snmptrap_relay.Server.{MetricsSnapshot, zero_stats}
use snmptrap_relay.Tests.Receiver.{library}
use snmptrap_relay.Tests.Relay.{net}
use snmptrap_relay.Tests.{platform, runtime, scene}
use snmptrap_relay.Text.{Text, lit, same}

-- Flags of a run with a profile.
abbrev flags_of : Text → Flags
flags_of profile = record {
  queue_size = pos 4096;
  workers = pos 4;
  max_dedup_entries = pos 1000;
  max_datagram_size = pos 8192;
  profile = profile;
}

abbrev sent_bytes : List ℕ
sent_bytes = 0x30 ∷ 0x00 ∷ []

-- A trap of device-01, received at a time.
abbrev load_trap : Text → ℕ → TrapEvent
load_trap kind now =
    load_event library (pos now) sent_bytes (lit "127.0.0.1") (pos 50000) kind (lit "device-01") 2
      now

-- A digest is the text itself behind one byte.
abbrev salted : Platform
salted = record platform { sha256 = λ s. 0x53 ∷ s }

abbrev rt : Runtime
rt = runtime none []

abbrev engine : Runtime
engine = load_runtime salted rt (flags_of (lit "dedup-clear")) (pos 9162) (pos 9163)

-- What the encoder and the parser compute with.
program : Unit {0}
unfolding pair_payloads parse_trap lit decode_oid oid_loop next_value decode_value universal_value
    application_value decode_tag_class decode_tag_number bits64 wrap64 ◌+ℤ◌ scale valid valid_from
    rune_width
program = tt

abbrev at : ℕ → List (List ℕ) → List ℕ
at n [] = []
at zero (payload ∷ payloads) = payload
at (suc n) (payload ∷ payloads) = at n payloads

abbrev payloads_of : Result (List (List ℕ)) → List (List ℕ)
payloads_of (ok payloads) = payloads
payloads_of (err e) = []

-- The datagrams of the first pair.
abbrev datagram : ℕ → List ℕ
datagram n = at n (payloads_of (pair_payloads 0))

abbrev event_of : Result TrapEvent → TrapEvent
event_of (ok event) = event
event_of (err e) = trap link_up (pos 0)

abbrev read_at : ℕ → List ℕ → Result TrapEvent
read_at now payload =
    parse_trap library (pos now) payload (lit "127.0.0.1") (pos 50000) field_aliases

made : pair_payloads 0 ≡ ok (datagram 0 ∷ datagram 1 ∷ datagram 2 ∷ datagram 3 ∷ [])
unfolding program
made = refl

datagrams_parse :
    (read_at 1 (datagram 0) ≡ ok (event_of (read_at 1 (datagram 0))))
    × (read_at 2 (datagram 1) ≡ ok (event_of (read_at 2 (datagram 1))))
    × (read_at 3 (datagram 2) ≡ ok (event_of (read_at 3 (datagram 2))))
    × (read_at 4 (datagram 3) ≡ ok (event_of (read_at 4 (datagram 3))))
unfolding program
datagrams_parse = (refl, refl, refl, refl)

datagrams_short :
    (length (datagram 0) < 2 ^ 32)
    × (length (datagram 1) < 2 ^ 32)
    × (length (datagram 2) < 2 ^ 32)
    × (length (datagram 3) < 2 ^ 32)
unfolding program
datagrams_short = (omega arith, omega arith, omega arith, omega arith)

abbrev first : Scene
first = scene (new_store (pos 1000)) (event_of (read_at 1 (datagram 0)))

abbrev second : Scene
second =
    scene (handle_event salted alone engine first).scene.store (event_of (read_at 2 (datagram 1)))

abbrev third : Scene
third =
    scene (handle_event salted alone engine second).scene.store (event_of (read_at 3 (datagram 2)))

abbrev fourth : Scene
fourth =
    scene (handle_event salted alone engine third).scene.store (event_of (read_at 4 (datagram 3)))

abbrev read_of :
    (now : ℕ) (payload : List ℕ)
    → length payload < 2 ^ 32
    → read_at now payload ≡ ok (event_of (read_at now payload))
    → IsReadOf library payload (event_of (read_at now payload))
read_of now payload short parsed = record {
  now = pos now;
  source_ip = lit "127.0.0.1";
  source_port = pos 50000;
  short = short;
  parsed = parsed;
}

this_profile : same (lit "dedup-clear") (lit "dedup-clear") ≡ true
unfolding same lit
this_profile = refl

nothing_stored :
    (Dedup.get first.store
      (lit "link_down")
      (cycle_key salted (device_name 2 0) 1).hash
      first.event.received_at).0
    ≡ none
unfolding Dedup.get new_store Dict.get
nothing_stored = refl

pair_payloads-handle_event_example :
    ((handle_event salted alone engine first).outcome ≡ sent_outcome rt cycle_rule first)
    × ((handle_event salted alone engine second).outcome ≡ duplicate_outcome cycle_rule)
    × ((handle_event salted alone engine third).outcome ≡ passed_outcome rt third)
    × ((handle_event salted alone engine fourth).outcome ≡ sent_outcome rt cycle_rule fourth)
pair_payloads-handle_event_example =
    pair_payloads-handle_event salted library rt (flags_of (lit "dedup-clear")) (pos 9162)
      (pos 9163) 0 (datagram 0) (datagram 1) (datagram 2) (datagram 3) first second third fourth
      made (read_of 1 (datagram 0) datagrams_short.0 datagrams_parse.0)
      (read_of 2 (datagram 1) datagrams_short.1 datagrams_parse.1)
      (read_of 3 (datagram 2) datagrams_short.2 datagrams_parse.2)
      (read_of 4 (datagram 3) datagrams_short.3 datagrams_parse.3) this_profile (λ bytes. refl)
      nothing_stored refl refl

other_profile : same (lit "dedup-disabled") (lit "dedup-clear") ≡ false
unfolding same lit
other_profile = refl

-- An alarm with another profile.
alarm_unkeyed :
    (handle_event platform alone
      (load_runtime platform rt (flags_of (lit "dedup-disabled")) (pos 9162) (pos 9163))
      (scene (new_store (pos 1000)) (load_trap alarm_trap_oid 1))).outcome
    ≡ outcome_of true true dedup_disabled (lit "link_down")
alarm_unkeyed =
    (handle_event-disabled platform rt (flags_of (lit "dedup-disabled")) (pos 9162) (pos 9163) alone
      (scene (new_store (pos 1000)) (load_trap alarm_trap_oid 1)) (lit "device-01") 2
      (alarm-IsLoad library (pos 1) sent_bytes (lit "127.0.0.1") (pos 50000) (lit "device-01") 2 1)
      other_profile).0

-- fmt.Sscanf on the one rate that this run has.
abbrev scan : Text → Option ℤ
scan s = if same s (lit "250") then some (pos 250) else none

abbrev udp : UdpNet
udp = record {
  Address = Text;
  join_host_port = net.join_host_port;
  resolve_udp_addr = net.resolve_udp_addr;
  listen_udp = λ network addr. ok 7;
}

abbrev idle : MetricsSnapshot
idle = record {
  stats = zero_stats;
  queue_depth = pos 0;
  queue_capacity = pos 4096;
  worker_count = pos 4;
}

-- Two ticks before the deadline and one behind it, for each worker; no write succeeds.
abbrev unwritten : Observed
unwritten = record {
  write = λ payload. false;
  deadline = pos 25;
  ticks = (pos 10 ∷ pos 20 ∷ pos 30 ∷ []) ∷ (pos 10 ∷ pos 20 ∷ pos 30 ∷ []) ∷ [];
  before = idle;
  after = idle;
}

abbrev invocation : Invocation
invocation = record {
  rate_list = lit "250";
  pair_count = pos 50;
  flags = flags_of (lit "dedup-clear");
  reserved = ok 5;
  local_port = λ conn. pos 9162;
  forward_port = ok (pos 9163);
  observed = λ i. unwritten;
}

-- The sizes that are not negative, and below a bound.
abbrev takes : Makes
takes = record {
  channel = λ n. leb_ℤ (pos 0) n && leb_ℤ n (pos 1000000);
  slice = λ n. leb_ℤ (pos 0) n && leb_ℤ n (pos 1000000);
}
