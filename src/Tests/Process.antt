-- ===== src/Tests/Process.antt =====
-- The loop of the relay command with its server: a failed reload, a signal, and the end.
use snmptrap_relay.Dedup.{new_store}
use snmptrap_relay.Engine.Accounts.{alone-IsLawful}
use snmptrap_relay.Engine.{alone}
use snmptrap_relay.Prelude.{ℕ, ◌≡◌, refl, true, [], none, some, inl, arith}
use snmptrap_relay.Relay.Loop.Ended.{was_interrupted, is_behind, start-Runs-exited, interrupt-Exits}
use snmptrap_relay.Relay.Loop.{
  exit_code, stopping, exited, cancel, Process, at_select, new_engine_store, serves, hangup,
  interrupt, run_stopped, Runs, idle, after,
}
use snmptrap_relay.Relay.{Calls, reload, config_reload_failed}
use snmptrap_relay.Config.{load}
use snmptrap_relay.Result.{err, send_failed}
use snmptrap_relay.Server.Steps.{start, shut, stopped, worker_left, ended}
use snmptrap_relay.Server.{Server, returned, other_error}
use snmptrap_relay.Tests.Relay.{gosnmp, net, handle, serving}
use snmptrap_relay.Tests.{platform, runtime}
use snmptrap_relay.Text.{lit}

-- The file of the configuration cannot be read.
abbrev unreadable : Calls
unreadable = record {
  decoded = err (send_failed (lit "no such file"));
  log_file = err (send_failed []);
  alerts_file = err (send_failed []);
  metrics_listener = err (send_failed []);
  restored_listener = err (send_failed []);
}

abbrev at_first : Process gosnmp net handle
at_first = at_select gosnmp net handle serving

abbrev interrupted : Process gosnmp net handle
interrupted = record at_first { standing = stopping; server = cancel at_first.server }

abbrev halted : Server
halted = record (shut interrupted.server) { idle = 0; phase = returned }

abbrev at_end : Process gosnmp net handle
at_end = record interrupted { server = halted; standing = exited (exit_code none) }

at_end-Runs : Runs gosnmp net handle platform at_first at_end
unfolding at_select start new_engine_store new_store cancel shut reload load exit_code
at_end-Runs =
    let reloading = after idle (hangup unreadable serving config_reload_failed refl refl) in
    let signalled = after reloading (interrupt refl) in
    let stopping_run = after signalled (serves (stopped refl refl) refl) in
    let left = after stopping_run (serves (worker_left 0 refl (inl refl)) refl) in
    after (after left (serves (ended refl refl refl refl refl) refl)) (run_stopped refl refl)

start-Runs-exited_example : was_interrupted gosnmp net handle platform at_end-Runs ≡ true
start-Runs-exited_example =
    start-Runs-exited gosnmp net handle platform serving (omega arith) (exit_code none) at_end-Runs
      refl

interrupt-Exits_example :
    (n : Process gosnmp net handle) × (code : ℕ) × Runs gosnmp net handle platform at_first n
    × (n.standing ≡ exited code)
    × (at_first.server.run_result ≡ none → code ≡ 0)
    × (is_behind at_first.server.phase ≡ true
        → at_first.server.run_result ≡ some other_error
        → code ≡ 1)
    × (n.server.is_cancelled ≡ true)
    × (n.relay ≡ at_first.relay)
unfolding at_select
interrupt-Exits_example =
    interrupt-Exits gosnmp net handle platform alone (runtime none []) alone-IsLawful at_first refl
