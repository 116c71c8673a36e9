-- ===== src/Tests/Server.antt =====
-- One packet through the server: read, queued, taken, processed, and then the end of Run.
use snmptrap_relay.Dedup.{Store, new_store}
use snmptrap_relay.Engine.Accounts.{alone-IsLawful}
use snmptrap_relay.Engine.State.{Runtime, parse}
use snmptrap_relay.Engine.{alone}
use snmptrap_relay.Metrics.Registry.{float64_of, excess_from, round_to}
use snmptrap_relay.Model.{AppConfig}
use snmptrap_relay.Prelude.Int.{pos}
use snmptrap_relay.Prelude.{◌≡◌, refl, true, [], ◌∷◌, none, some, inl, arith, All}
use snmptrap_relay.Result.{ok}
use snmptrap_relay.Server.Open.Stats.{IsShown, log_run_stats-IsShown}
use snmptrap_relay.Server.Open.{log_run_stats}
use snmptrap_relay.Server.Queue.{IsQueued, start-Reach-IsQueued}
use snmptrap_relay.Server.Steps.{
  start, shut, count_read, enqueue, count_enqueued, take_packet, count_taken, handle_busy, act_next,
  go_idle, cancelled, stopped, read_counted, read_queued, queue_counted, worker_took,
  worker_counted, worker_handled, worker_acted, worker_finished, worker_left, ended, Reach, here,
  next,
}
use snmptrap_relay.Server.Totals.{IsBalanced, start-Reach-IsBalanced}
use snmptrap_relay.Server.{
  Packet, Server, returned, adds, accepted_events, forwarded_events, passed_events, handle_packet,
  handled_acts, outcome_acts, reason_acts,
}
use snmptrap_relay.Tests.Engine.{program}
use snmptrap_relay.Tests.{platform, link_down, trap, config, runtime, at}
use snmptrap_relay.Text.{lit}

abbrev app : AppConfig
app = config [] []

abbrev store : Store
store = new_store (pos 2)

abbrev packet : Packet
packet = record { payload = 0x30 ∷ []; source_ip = lit "10.0.0.1"; source_port = pos 50000 }

abbrev decoding : Runtime
decoding = record (runtime none []) {
  decoder = some (λ payload ip port. ok (trap link_down (at 10)));
}

abbrev queued : Server
queued = count_enqueued (enqueue packet (count_read packet (start app.server store)))

abbrev handled : Server
handled =
    handle_busy platform alone decoding packet [] []
      (count_taken packet [] [] (take_packet packet [] 0 queued))

-- The trap matches no alarm: it is accepted, forwarded and passed through.
abbrev worked : Server
worked = go_idle [] [] (
    act_next (adds passed_events) [] [] [] (
      act_next (adds forwarded_events) (adds passed_events ∷ []) [] [] (
        act_next (adds accepted_events) (adds forwarded_events ∷ adds passed_events ∷ []) [] []
          handled)))

abbrev stopping : Server
stopping = shut (record worked { is_cancelled = true })

abbrev over : Server
over = record stopping { idle = 0; phase = returned }

handled-acting :
    handled.acting ≡ (adds accepted_events ∷ adds forwarded_events ∷ adds passed_events ∷ []) ∷ []
unfolding program handle_busy handle_packet handled_acts outcome_acts reason_acts parse count_taken
    take_packet count_enqueued enqueue count_read start
handled-acting = refl

run-Reach : Reach platform (start app.server store) over
unfolding start count_read enqueue count_enqueued take_packet count_taken handle_busy act_next
    go_idle shut
run-Reach =
    let reading =
      next (next (next here (read_counted packet refl)) (read_queued packet refl (omega arith)))
        (queue_counted refl) in
    let taking =
      next (next reading (worker_took packet [] 0 refl refl)) (worker_counted packet [] [] refl) in
    let working = next taking (worker_handled alone decoding packet [] [] alone-IsLawful refl) in
    let accepted = next working (worker_acted _ _ [] [] handled-acting) in
    let forwarded = next accepted (worker_acted _ _ [] [] refl) in
    let passed = next forwarded (worker_acted _ _ [] [] refl) in
    let idling = next passed (worker_finished [] [] refl) in
    let halting = next (next idling cancelled) (stopped refl refl) in
    next (next halting (worker_left 0 refl (inl refl))) (ended refl refl refl refl refl)

start-Reach-IsQueued_example : IsQueued app.server over
start-Reach-IsQueued_example =
    start-Reach-IsQueued platform app.server (omega arith) store run-Reach

start-Reach-IsBalanced_example : IsBalanced over
start-Reach-IsBalanced_example = start-Reach-IsBalanced platform app.server store run-Reach

log_run_stats-IsShown_example : All (IsShown over) (log_run_stats over)
log_run_stats-IsShown_example = log_run_stats-IsShown over

-- 2^53 + 1 and 2^53 + 3 lie between two numbers that a float64 has, and the largest uint64 below 2^64.
rounded :
    (float64_of (pos 9007199254740993) ≡ pos 9007199254740992)
    × (float64_of (pos 9007199254740995) ≡ pos 9007199254740996)
    × (float64_of (pos 18446744073709551615) ≡ pos 18446744073709551616)
unfolding float64_of excess_from round_to
rounded = (refl, refl, refl)
