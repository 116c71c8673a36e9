-- ===== src/Perf/Run.antt =====
-- cmd/snmptrap-relay-perf/main.go, main: its flow, from the flags to the results or to the code that it
-- exits with. The output is in Perf/Output. Run of the server is a goroutine: here it makes its channel and
-- its buffer when it is started, since a panic there ends the process; its loop is in Server/Steps, and the
-- wait for it behind the output, when main cancels it, is left out.
pub mod Finished
use snmptrap_relay.Forward.Sockets.{Network, new_udp}
use snmptrap_relay.Model.{ServerConfig}
use snmptrap_relay.Perf.Load.{StepResult, parse_rates, build_payload_pool}
use snmptrap_relay.Perf.Output.{reserve_udp_port}
use snmptrap_relay.Perf.Profile.{Flags, app_config}
use snmptrap_relay.Perf.Sending.{run_step}
use snmptrap_relay.Prelude.Int.{ℤ}
use snmptrap_relay.Prelude.{ℕ, Bool, List, [], ◌∷◌, ◌+◌, Option, if◌then◌else◌}
use snmptrap_relay.Receiver.{Gosnmp, new_decoder}
use snmptrap_relay.Relay.{is_panic}
use snmptrap_relay.Result.{Result, Error, ok, err, panicked, ◌>>=◌}
use snmptrap_relay.Server.Open.{UdpNet, new_server}
use snmptrap_relay.Server.{MetricsSnapshot}
use snmptrap_relay.Text.{Text}

-- How main ends: os.Exit with a code behind an error, a panic, or the output of the results.
pub data Ending : Type 0 where
  exits : ℕ → Error → Ending
  panics : Ending
  finishes : List StepResult → Ending

-- `if err != nil { …; os.Exit(code) }`
unfoldable pub or_exit : {A : Type 0} → Result A → ℕ → (A → Ending) → Ending
or_exit (ok a) code next = next a
or_exit (err e) code next = if is_panic e then panics else exits code e

-- The sizes that make takes for a channel of packets and for a slice of bytes: Go panics for a negative one
-- and for one that is too large.
pub record Makes : Type 0 where
  pub channel : ℤ → Bool
  pub slice : ℤ → Bool

-- The calls of make in Run
unfoldable pub run_makes : Makes → ServerConfig → Result (Unit {0})
run_makes makes cfg =
    if makes.channel cfg.queue_size
    then (if makes.slice cfg.max_datagram_size then ok tt else err panicked)
    else err panicked

-- What one call of runStep meets: the writes, its deadline, the ticks of its workers, and the snapshots.
pub record Observed : Type 0 where
  pub write : List ℕ → Bool
  pub deadline : ℤ
  pub ticks : List (List ℤ)
  pub before : MetricsSnapshot
  pub after : MetricsSnapshot

-- The flags, the connection that reserveUDPPort gets with the ports that connections have, the port of the
-- listener for the forwarded traps, and what the calls of runStep meet.
pub record Invocation : Type 0 where
  pub rate_list : Text
  pub pair_count : ℤ
  pub flags : Flags
  pub reserved : Result ℕ
  pub local_port : ℕ → ℤ
  pub forward_port : Result ℤ
  pub observed : ℕ → Observed

-- The loop over the rates; runStep returns no error, so `err` is a panic of it.
unfoldable pub run_rates : (ℕ → Observed) → List (List ℕ) → ℕ → List ℤ → Result (List StepResult)
unfolding run_step
run_rates observed payloads i [] = ok []
run_rates observed payloads i (rate ∷ rates) = do
  let o = observed i
  res ← run_step o.write payloads o.deadline rate o.ticks o.before o.after
  results ← run_rates observed payloads (i + 1) rates
  ok (res ∷ results)

module _ (scan : Text → Option ℤ) (sort : List ℤ → List ℤ) (gosnmp : Gosnmp) (net : Network)
    (udp : UdpNet) (makes : Makes) where
  -- main
  unfoldable pub run_main : Invocation → Ending
  run_main call = or_exit (parse_rates scan sort call.rate_list) 2 (λ rates.
      or_exit (reserve_udp_port call.local_port call.reserved).0 1 (λ listen_port.
        or_exit call.forward_port 1 (λ forward_port.
          let cfg = app_config call.flags listen_port forward_port in
          or_exit (new_udp net cfg.forwarders).0 1 (λ forwarder.
            or_exit (new_decoder gosnmp cfg) 1 (λ decoder.
              or_exit (new_server udp cfg.server) 1 (λ srv.
                or_exit (run_makes makes cfg.server) 1 (λ started.
                  or_exit (build_payload_pool call.flags.profile 4096 call.pair_count) 2
                    (λ payloads.
                      or_exit (run_rates call.observed payloads 0 rates) 1 finishes))))))))
