-- ===== src/Server/Counters.antt =====
-- internal/server/server.go: what the counters say of the packets, modulo 2^64 as they wrap.
use mathlib.Core.Path.{subst}
use snmptrap_relay.Engine.Branches.{is_sending, is_holding}
use snmptrap_relay.Engine.Reasons.{IsReasoned, handle_event-IsReasoned}
use snmptrap_relay.Engine.State.{
  Runtime, Reason, Outcome, Handled, unset, filtered, duplicate, alarm, pass_through,
  dedup_disabled, forward_failed, parse,
}
use snmptrap_relay.Engine.{Gap, handle_event}
use snmptrap_relay.Match.Std.{Platform}
use snmptrap_relay.Model.{TrapEvent}
use snmptrap_relay.Prelude.{
  ℕ, ◌+◌, ◌%◌, ◌^◌, ◌≡◌, refl, sym, true, ◌||◌, arith, Option-cases, inl, inr,
}
use snmptrap_relay.Result.{Result-cases}
use snmptrap_relay.Server.{
  Stats, add_one, count_reason, count_accepted, count_forwarded, record_outcome, count_lost,
  count_handled, Packet, Relay, scene_of, relay_of, log_handled, process_event, process_packet,
}

-- The same uint64.
abbrev pub IsSame64 : ℕ → ℕ → Type 0
IsSame64 a b = a % 2 ^ 64 ≡ b % 2 ^ 64

-- The packets that the workers have finished, by how each ended.
abbrev pub finished : Stats → ℕ
finished s =
    s.parse_failed + s.handle_failed + s.filtered + s.duplicates + s.pass_through + s.alarms
    + s.dedup_disabled

-- The events that were sent with no error, by their reason.
abbrev pub delivered : Stats → ℕ
delivered s = s.pass_through + s.alarms + s.dedup_disabled

-- One more packet is finished, and what is delivered is what is accepted and what is forwarded.
pub record CountsOne (s t : Stats) : Type 0 where
  pub received : t.received ≡ s.received
  pub queue_dropped : t.queue_dropped ≡ s.queue_dropped
  pub finished : IsSame64 (finished t) (finished s + 1)
  pub accepted : IsSame64 (t.accepted + delivered s) (s.accepted + delivered t)
  pub forwarded : IsSame64 (t.forwarded + delivered s) (s.forwarded + delivered t)

record_outcome-CountsOne :
    (r : Reason) (outcome : Outcome) (s : Stats)
    → outcome.reason ≡ r
    → (is_sending r || is_holding r) ≡ true
    → outcome.accepted ≡ is_sending r
    → outcome.forwarded ≡ is_sending r
    → CountsOne s (record_outcome outcome s)
unfolding record_outcome count_reason count_accepted count_forwarded add_one
record_outcome-CountsOne unset outcome s r h acc fwd = cc
record_outcome-CountsOne forward_failed outcome s r h acc fwd = cc
record_outcome-CountsOne filtered outcome s r h acc fwd = rw (r, acc, fwd) (ground arith)
record_outcome-CountsOne duplicate outcome s r h acc fwd = rw (r, acc, fwd) (ground arith)
record_outcome-CountsOne alarm outcome s r h acc fwd = rw (r, acc, fwd) (ground arith)
record_outcome-CountsOne pass_through outcome s r h acc fwd = rw (r, acc, fwd) (ground arith)
record_outcome-CountsOne dedup_disabled outcome s r h acc fwd = rw (r, acc, fwd) (ground arith)

count_lost-CountsOne :
    (r : Reason) (s : Stats)
    → CountsOne s (count_lost r (record s { handle_failed = add_one s.handle_failed }))
unfolding count_lost add_one
count_lost-CountsOne unset s = ground arith
count_lost-CountsOne forward_failed s = ground arith
count_lost-CountsOne filtered s = ground arith
count_lost-CountsOne duplicate s = ground arith
count_lost-CountsOne alarm s = ground arith
count_lost-CountsOne pass_through s = ground arith
count_lost-CountsOne dedup_disabled s = ground arith

count_handled-CountsOne : (h : Handled) (s : Stats) → IsReasoned h → CountsOne s (count_handled h s)
unfolding count_handled
count_handled-CountsOne h s reasoned = elim (Option-cases h.error) [
  | inl well ↦
      let (final, acc, fwd) = reasoned well in
      rw (well, count_handled)
        (record_outcome-CountsOne h.outcome.reason h.outcome s refl final acc fwd)
  | inr (e, failed) ↦ rw (failed, count_handled) (count_lost-CountsOne h.outcome.reason s)
]

log_handled-stats : (h : Handled) (r : Relay) → (log_handled h r).stats ≡ r.stats
log_handled-stats h r = elim (Option-cases h.error) [
  | inl well ↦ rw well refl
  | inr (e, failed) ↦ rw failed refl
]

module _ (p : Platform) (gap : Gap) (rt : Runtime) where
  process_event-CountsOne :
      (event : TrapEvent) (r : Relay) → CountsOne r.stats (process_event p gap rt event r).stats
  unfolding process_event
  process_event-CountsOne event r =
      let h = handle_event p gap rt (scene_of event r) in
      let reasoned = handle_event-IsReasoned p gap rt (scene_of event r) in
      let counted = count_handled h r.stats in
      subst (CountsOne r.stats) (sym (log_handled-stats h (relay_of counted h.scene)))
        (count_handled-CountsOne h r.stats reasoned)

  -- processPacket finishes exactly one packet, whatever Parse and HandleEvent return: of the counters
  -- of failed parsing, failed handling, and the five reasons one grows by one; the counters of accepted
  -- and of forwarded events both grow by as much as those of alarms, passed-through and dedup-disabled
  -- events together; those of received and dropped packets stay. All modulo 2^64.
  pub process_packet-CountsOne :
      (pkt : Packet) (r : Relay) → CountsOne r.stats (process_packet p gap rt pkt r).stats
  unfolding process_packet add_one
  process_packet-CountsOne pkt r =
      elim (Result-cases (parse rt pkt.payload pkt.source_ip pkt.source_port)) [
        | inl (e, refused) ↦ rw (refused, process_packet) (ground arith)
        | inr (event, parsed) ↦ rw (parsed, process_packet) (process_event-CountsOne event r)
      ]
