-- ===== src/Server.antt =====
-- internal/server/server.go: the counters, the handling of a packet, and the state of Run and of its
-- workers.
pub mod Steps
pub mod Acts
pub mod Counters
pub mod Queue
pub mod Shutdown
pub mod Totals
pub mod Liveness
pub mod Open
use snmptrap_relay.Dedup.{Store}
use snmptrap_relay.Engine.State.{
  Scene, Level, LogMessage, LogLine, Runtime, Reason, Outcome, Handled, parse, unset, filtered,
  forward_failed, dedup_disabled, duplicate, alarm, pass_through, warning, failure,
  trap_parse_failed, trap_handle_failed,
}
use snmptrap_relay.Engine.{Gap, handle_event}
use snmptrap_relay.Match.Std.{Platform}
use snmptrap_relay.Model.{TrapEvent, ServerConfig}
use snmptrap_relay.Prelude.{
  ℕ, Bool, true, false, List, [], ◌∷◌, ◌++◌, Option, none, some, ◌+◌, ◌%◌, ◌^◌, if◌then◌else◌,
}
use snmptrap_relay.Prelude.Int.{ℤ}
use snmptrap_relay.Result.{Result, ok, err}
use snmptrap_relay.Text.{Text}

-- runtimeStats: each counter is a uint64
pub record Stats : Type 0 where
  pub received : ℕ
  pub queue_dropped : ℕ
  pub parse_failed : ℕ
  pub handle_failed : ℕ
  pub accepted : ℕ
  pub forwarded : ℕ
  pub filtered : ℕ
  pub duplicates : ℕ
  pub pass_through : ℕ
  pub alarms : ℕ
  pub dedup_disabled : ℕ
  pub forward_failed : ℕ

-- The counters of a new server.
abbrev pub zero_stats : Stats
zero_stats = record {
  received = 0;
  queue_dropped = 0;
  parse_failed = 0;
  handle_failed = 0;
  accepted = 0;
  forwarded = 0;
  filtered = 0;
  duplicates = 0;
  pass_through = 0;
  alarms = 0;
  dedup_disabled = 0;
  forward_failed = 0;
}

-- Add(1) on a uint64
unfoldable pub add_one : ℕ → ℕ
add_one n = (n + 1) % 2 ^ 64

-- The switch of recordOutcome on the reason.
unfoldable pub count_reason : Reason → Stats → Stats
count_reason unset s = s
count_reason filtered s = record s { filtered = add_one s.filtered }
count_reason duplicate s = record s { duplicates = add_one s.duplicates }
count_reason pass_through s = record s { pass_through = add_one s.pass_through }
count_reason alarm s = record s { alarms = add_one s.alarms }
count_reason dedup_disabled s = record s { dedup_disabled = add_one s.dedup_disabled }
count_reason forward_failed s = record s { forward_failed = add_one s.forward_failed }

unfoldable pub count_accepted : Bool → Stats → Stats
count_accepted true s = record s { accepted = add_one s.accepted }
count_accepted false s = s

unfoldable pub count_forwarded : Bool → Stats → Stats
count_forwarded true s = record s { forwarded = add_one s.forwarded }
count_forwarded false s = s

-- recordOutcome
unfoldable pub record_outcome : Outcome → Stats → Stats
unfolding count_reason count_accepted count_forwarded
record_outcome outcome s =
    count_reason outcome.reason
      (count_forwarded outcome.forwarded (count_accepted outcome.accepted s))

-- `if outcome.Reason == "forward_failed" { … }`, on an error
unfoldable pub count_lost : Reason → Stats → Stats
count_lost forward_failed s = record s { forward_failed = add_one s.forward_failed }
count_lost _ s = s

-- What processPacket counts of what HandleEvent returns.
unfoldable pub count_handled : Handled → Stats → Stats
unfolding record_outcome count_lost add_one
count_handled h s = elim h.error [
  | some e ↦ count_lost h.outcome.reason (record s { handle_failed = add_one s.handle_failed })
  | none ↦ record_outcome h.outcome s
]

pub record Packet : Type 0 where
  pub payload : List ℕ
  pub source_ip : Text
  pub source_port : ℤ

-- What the workers share: the engine's store, the counters, and what has been sent and written.
pub record Relay : Type 0 where
  pub store : Store
  pub stats : Stats
  pub sent : List (List ℕ)
  pub alerts : List Text
  pub logs : List LogLine

abbrev pub log_packet : Level → LogMessage → Relay → Relay
log_packet level message r = record r {
  logs = r.logs ++ (record { level = level; message = message; rule = [] } ∷ []);
}

-- What the engine meets of it with an event, and what it leaves.
abbrev pub scene_of : TrapEvent → Relay → Scene
scene_of event r = record {
  store = r.store;
  event = event;
  sent = r.sent;
  alerts = r.alerts;
  logs = r.logs;
}

abbrev pub relay_of : Stats → Scene → Relay
relay_of stats sc = record {
  store = sc.store;
  stats = stats;
  sent = sc.sent;
  alerts = sc.alerts;
  logs = sc.logs;
}

-- The log line for what HandleEvent returns.
abbrev pub log_handled : Handled → Relay → Relay
log_handled h r = elim h.error [ some e ↦ log_packet failure trap_handle_failed r | none ↦ r ]

module _ (p : Platform) (gap : Gap) (rt : Runtime) where
  -- processPacket behind Parse
  unfoldable pub process_event : TrapEvent → Relay → Relay
  unfolding count_handled
  process_event event r =
      let h = handle_event p gap rt (scene_of event r) in
      log_handled h (relay_of (count_handled h r.stats) h.scene)

  -- processPacket
  unfoldable pub process_packet : Packet → Relay → Relay
  unfolding parse add_one process_event
  process_packet pkt r = elim (parse rt pkt.payload pkt.source_ip pkt.source_port) [
    | err e ↦
        log_packet warning trap_parse_failed
          (record r { stats = record r.stats { parse_failed = add_one r.stats.parse_failed } })
    | ok event ↦ process_event event r
  ]

-- A counter that processPacket and recordOutcome add to.
pub data Counter : Type 0 where
  parse_failures handle_failures accepted_events forwarded_events : Counter
  filtered_events duplicate_events passed_events alarm_events : Counter
  undeduplicated_events forward_failures : Counter

-- Add(1) on one counter
unfoldable pub add_to : Counter → Stats → Stats
add_to parse_failures s = record s { parse_failed = add_one s.parse_failed }
add_to handle_failures s = record s { handle_failed = add_one s.handle_failed }
add_to accepted_events s = record s { accepted = add_one s.accepted }
add_to forwarded_events s = record s { forwarded = add_one s.forwarded }
add_to filtered_events s = record s { filtered = add_one s.filtered }
add_to duplicate_events s = record s { duplicates = add_one s.duplicates }
add_to passed_events s = record s { pass_through = add_one s.pass_through }
add_to alarm_events s = record s { alarms = add_one s.alarms }
add_to undeduplicated_events s = record s { dedup_disabled = add_one s.dedup_disabled }
add_to forward_failures s = record s { forward_failed = add_one s.forward_failed }

-- One effect of processPacket behind HandleEvent: an Add(1), or a log line.
pub data Act : Type 0 where
  adds : Counter → Act
  tells : Level → LogMessage → Act

unfoldable pub perform : Act → Relay → Relay
unfolding add_to
perform (adds c) r = record r { stats = add_to c r.stats }
perform (tells level message) r = log_packet level message r

-- The effects of the switch of recordOutcome.
unfoldable pub reason_acts : Reason → List Act
reason_acts unset = []
reason_acts filtered = adds filtered_events ∷ []
reason_acts duplicate = adds duplicate_events ∷ []
reason_acts pass_through = adds passed_events ∷ []
reason_acts alarm = adds alarm_events ∷ []
reason_acts dedup_disabled = adds undeduplicated_events ∷ []
reason_acts forward_failed = adds forward_failures ∷ []

-- The effects of recordOutcome, in their order.
unfoldable pub outcome_acts : Outcome → List Act
unfolding reason_acts
outcome_acts outcome =
    let forwarding : List Act =
      if outcome.forwarded
      then adds forwarded_events ∷ reason_acts outcome.reason
      else reason_acts outcome.reason in
    if outcome.accepted then adds accepted_events ∷ forwarding else forwarding

-- The effects on an error of HandleEvent, behind handleFailed.Add(1).
unfoldable pub lost_acts : Reason → List Act
lost_acts forward_failed = adds forward_failures ∷ tells failure trap_handle_failed ∷ []
lost_acts _ = tells failure trap_handle_failed ∷ []

unfoldable pub handled_acts : Handled → List Act
unfolding outcome_acts lost_acts
handled_acts h = elim h.error [
  | some e ↦ adds handle_failures ∷ lost_acts h.outcome.reason
  | none ↦ outcome_acts h.outcome
]

module _ (p : Platform) (gap : Gap) (rt : Runtime) where
  -- processPacket up to the return of Parse with an error or of HandleEvent, with the effects that are left.
  unfoldable pub handle_packet : Packet → Relay → Relay × List Act
  unfolding parse handled_acts
  handle_packet pkt r = elim (parse rt pkt.payload pkt.source_ip pkt.source_port) [
    | err e ↦ (r, adds parse_failures ∷ tells warning trap_parse_failed ∷ [])
    | ok event ↦
        let h = handle_event p gap rt (scene_of event r) in
        (relay_of r.stats h.scene, handled_acts h)
  ]

-- Where Run stands: in its loop; behind received.Add(1) with a packet, which goes to the channel or is dropped;
-- between the sending on the channel and queueDepth.Add(1); between queueDropped.Add(1) and its log line; waiting for
-- the workers before it returns; or returned.
pub data Phase : Type 0 where
  looping : Phase
  received_counted : Packet → Phase
  enqueued drop_counted waiting returned : Phase

-- The errors that Run can return: context.Canceled or another.
pub data RunError : Type 0 where
  context_canceled other_error : RunError

-- The server while Run runs. A worker is idle at its select, or holds a packet: `taken` before
-- queueDepth.Add(-1), `busy` after it; or it is behind Parse and HandleEvent, with the effects in `acting` still to
-- come. `run_result` is what Run returns, or has decided to return.
pub record Server : Type 0 where
  pub cfg : ServerConfig
  pub relay : Relay
  pub packets : List Packet
  pub is_closed : Bool
  pub is_cancelled : Bool
  pub phase : Phase
  pub idle : ℕ
  pub taken : List Packet
  pub busy : List Packet
  pub acting : List (List Act)
  pub queue_depth : ℤ
  pub run_result : Option RunError

pub record MetricsSnapshot : Type 0 where
  pub stats : Stats
  pub queue_depth : ℤ
  pub queue_capacity : ℤ
  pub worker_count : ℤ

-- (*Server).MetricsSnapshot
unfoldable pub metrics_snapshot : Server → MetricsSnapshot
metrics_snapshot s = record {
  stats = s.relay.stats;
  queue_depth = s.queue_depth;
  queue_capacity = s.cfg.queue_size;
  worker_count = s.cfg.worker_count;
}
