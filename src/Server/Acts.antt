-- ===== src/Server/Acts.antt =====
-- internal/server/server.go, processPacket and recordOutcome: what their effects add up to, effect by effect.
use snmptrap_relay.Engine.Branches.{is_sending, is_holding}
use snmptrap_relay.Engine.Reasons.{IsReasoned, handle_event-IsReasoned}
use snmptrap_relay.Engine.State.{
  Runtime, Reason, Outcome, Handled, unset, filtered, duplicate, alarm, pass_through,
  dedup_disabled, forward_failed, parse,
}
use snmptrap_relay.Engine.{Gap, handle_event}
use snmptrap_relay.Match.Std.{Platform}
use snmptrap_relay.Prelude.{
  ℕ, ◌+◌, ◌≡◌, refl, true, ◌||◌, List, [], ◌∷◌, ◌++◌, arith, Option-cases, inl, inr,
}
use snmptrap_relay.Result.{Result-cases}
use snmptrap_relay.Server.Counters.{IsSame64, finished, delivered}
use snmptrap_relay.Server.{
  Stats, add_one, Counter, parse_failures, handle_failures, accepted_events, forwarded_events,
  filtered_events, duplicate_events, passed_events, alarm_events, undeduplicated_events,
  forward_failures, add_to, Act, adds, tells, perform, reason_acts, outcome_acts, lost_acts,
  handled_acts, handle_packet, Packet, Relay, scene_of,
}

-- How often a list of effects adds to the counters of a weight.
abbrev pub weigh : (Counter → ℕ) → List Act → ℕ
weigh w [] = 0
weigh w (adds c ∷ acts) = w c + weigh w acts
weigh w (tells level message ∷ acts) = weigh w acts

-- The effects that are left to all workers.
abbrev pub weigh_all : (Counter → ℕ) → List (List Act) → ℕ
weigh_all w [] = 0
weigh_all w (acts ∷ acting) = weigh w acts + weigh_all w acting

pub weigh_all-insert :
    (w : Counter → ℕ) (acts : List Act) (before behind : List (List Act))
    → weigh_all w (before ++ acts ∷ behind) ≡ weigh w acts + weigh_all w (before ++ behind)
weigh_all-insert w acts [] behind = refl
weigh_all-insert w acts (others ∷ before) behind =
    omega (arith, weigh_all-insert w acts before behind)

-- The counters of an end, of which a packet meets one.
abbrev pub an_end : Counter → ℕ
an_end accepted_events = 0
an_end forwarded_events = 0
an_end forward_failures = 0
an_end _ = 1

abbrev pub a_delivery : Counter → ℕ
a_delivery passed_events = 1
a_delivery alarm_events = 1
a_delivery undeduplicated_events = 1
a_delivery _ = 0

abbrev pub an_acceptance : Counter → ℕ
an_acceptance accepted_events = 1
an_acceptance _ = 0

abbrev pub a_forwarding : Counter → ℕ
a_forwarding forwarded_events = 1
a_forwarding _ = 0

-- Each Add moves the sums by the weights of its counter.
pub record MovesBy (c : Counter) (s t : Stats) : Type 0 where
  pub received : t.received ≡ s.received
  pub queue_dropped : t.queue_dropped ≡ s.queue_dropped
  pub finished : IsSame64 (finished t) (finished s + an_end c)
  pub delivered : IsSame64 (delivered t) (delivered s + a_delivery c)
  pub accepted : IsSame64 t.accepted (s.accepted + an_acceptance c)
  pub forwarded : IsSame64 t.forwarded (s.forwarded + a_forwarding c)

pub add_to-MovesBy : (c : Counter) (s : Stats) → MovesBy c s (add_to c s)
unfolding add_to add_one
add_to-MovesBy parse_failures s = ground arith
add_to-MovesBy handle_failures s = ground arith
add_to-MovesBy accepted_events s = ground arith
add_to-MovesBy forwarded_events s = ground arith
add_to-MovesBy filtered_events s = ground arith
add_to-MovesBy duplicate_events s = ground arith
add_to-MovesBy passed_events s = ground arith
add_to-MovesBy alarm_events s = ground arith
add_to-MovesBy undeduplicated_events s = ground arith
add_to-MovesBy forward_failures s = ground arith

-- The effects for one packet: one end, and an acceptance and a forwarding for a delivery.
pub record IsOne (acts : List Act) : Type 0 where
  pub ends : weigh an_end acts ≡ 1
  pub accepts : weigh an_acceptance acts ≡ weigh a_delivery acts
  pub forwards : weigh a_forwarding acts ≡ weigh a_delivery acts

outcome_acts-IsOne :
    (r : Reason) (outcome : Outcome)
    → outcome.reason ≡ r
    → (is_sending r || is_holding r) ≡ true
    → outcome.accepted ≡ is_sending r
    → outcome.forwarded ≡ is_sending r
    → IsOne (outcome_acts outcome)
unfolding outcome_acts reason_acts
outcome_acts-IsOne unset outcome r h acc fwd = cc
outcome_acts-IsOne forward_failed outcome r h acc fwd = cc
outcome_acts-IsOne filtered outcome r h acc fwd = rw (r, acc, fwd) (ground arith)
outcome_acts-IsOne duplicate outcome r h acc fwd = rw (r, acc, fwd) (ground arith)
outcome_acts-IsOne alarm outcome r h acc fwd = rw (r, acc, fwd) (ground arith)
outcome_acts-IsOne pass_through outcome r h acc fwd = rw (r, acc, fwd) (ground arith)
outcome_acts-IsOne dedup_disabled outcome r h acc fwd = rw (r, acc, fwd) (ground arith)

lost_acts-IsOne : (r : Reason) → IsOne (adds handle_failures ∷ lost_acts r)
unfolding lost_acts
lost_acts-IsOne unset = ground arith
lost_acts-IsOne forward_failed = ground arith
lost_acts-IsOne filtered = ground arith
lost_acts-IsOne duplicate = ground arith
lost_acts-IsOne alarm = ground arith
lost_acts-IsOne pass_through = ground arith
lost_acts-IsOne dedup_disabled = ground arith

handled_acts-IsOne : (h : Handled) → IsReasoned h → IsOne (handled_acts h)
unfolding handled_acts
handled_acts-IsOne h reasoned = elim (Option-cases h.error) [
  | inl well ↦
      let (final, acc, fwd) = reasoned well in
      rw (well, handled_acts) (outcome_acts-IsOne h.outcome.reason h.outcome refl final acc fwd)
  | inr (e, failed) ↦ rw (failed, handled_acts) (lost_acts-IsOne h.outcome.reason)
]

module _ (p : Platform) (gap : Gap) (rt : Runtime) where
  pub handle_packet-IsOne : (pkt : Packet) (r : Relay) → IsOne (handle_packet p gap rt pkt r).1
  unfolding handle_packet
  handle_packet-IsOne pkt r =
      elim (Result-cases (parse rt pkt.payload pkt.source_ip pkt.source_port)) [
        | inl (e, refused) ↦ rw (refused, handle_packet) (ground arith)
        | inr (event, parsed) ↦
            rw (parsed, handle_packet)
              (handled_acts-IsOne (handle_event p gap rt (scene_of event r))
                (handle_event-IsReasoned p gap rt (scene_of event r)))
      ]

  -- Handling counts nothing yet.
  pub handle_packet-stats :
      (pkt : Packet) (r : Relay) → (handle_packet p gap rt pkt r).0.stats ≡ r.stats
  unfolding handle_packet
  handle_packet-stats pkt r =
      elim (Result-cases (parse rt pkt.payload pkt.source_ip pkt.source_port)) [
        | inl (e, refused) ↦ rw (refused, handle_packet) refl
        | inr (event, parsed) ↦ rw (parsed, handle_packet) refl
      ]

-- All of a list of effects, one after the other.
abbrev pub perform_all : List Act → Relay → Relay
perform_all [] r = r
perform_all (act ∷ acts) r = perform_all acts (perform act r)
