-- ===== src/Relay/Loop.antt =====
-- cmd/snmptrap-relay/main.go, run: its loop together with the server that runs beside it. A step is one
-- of the server's, or a communication that the loop selects.
pub mod Ended
use snmptrap_relay.Dedup.{Store, new_store}
use snmptrap_relay.Forward.Sockets.{Network}
use snmptrap_relay.Match.Std.{Platform}
use snmptrap_relay.Model.{AppConfig}
use snmptrap_relay.Prelude.{ℕ, Bool, true, List, Option, none, some, ◌≡◌}
use snmptrap_relay.Receiver.{Gosnmp}
use snmptrap_relay.Relay.{Calls, Relay, Message, reload}
use snmptrap_relay.Result.{Result, Error, ok, err}
use snmptrap_relay.Server.Steps
use snmptrap_relay.Server.{Server, RunError, context_canceled, other_error, returned}
use snmptrap_relay.Text.{Text}

-- `if err != nil && !errors.Is(err, context.Canceled) { …; return 1 }; return 0`
unfoldable pub exit_code : Option RunError → ℕ
exit_code none = 0
exit_code (some context_canceled) = 0
exit_code (some other_error) = 1

-- Where run stands: at its select, waiting for errCh behind cancel(), returned with a code, or stopped
-- by a panic.
pub data Standing : Type 0 where
  selecting : Standing
  stopping : Standing
  exited : ℕ → Standing
  crashed : Standing

-- engine.New: the store of a new engine
unfoldable pub new_engine_store : AppConfig → Store
unfolding new_store
new_engine_store cfg = new_store cfg.server.max_dedup_entries

-- `cancel()`
unfoldable pub cancel : Server → Server
cancel s = record s { is_cancelled = true }

module _ (gosnmp : Gosnmp) (net : Network) (handle : List Text → Text → Result (List Text)) where
  -- The variables of run and the server.
  pub record Process : Type 0 where
    pub relay : Relay gosnmp net handle
    pub server : Server
    pub standing : Standing

  -- run when it comes to its loop, with Run started; the server has the configuration of the start
  unfoldable pub at_select : Relay gosnmp net handle → Process
  unfolding Steps.start new_engine_store
  at_select relay = record {
    relay = relay;
    server = Steps.start relay.engine.cfg.server (new_engine_store relay.engine.cfg);
    standing = selecting;
  }

  -- What comes on errCh is what Run returns, once it has returned. The context is cancelled by the loop
  -- alone.
  pub data Move (p : Platform) (m : Process) : Process → Type 0 where
    serves :
        {t : Server}
        → Steps.Step p m.server t
        → t.is_cancelled ≡ m.server.is_cancelled
        → Move p m (record m { server = t })
    hangup :
        (calls : Calls) (after : Relay gosnmp net handle) (line : Message)
        → m.standing ≡ selecting
        → reload gosnmp net handle calls m.relay ≡ ok (after, line)
        → Move p m (record m { relay = after })
    hangup_panicked :
        (calls : Calls) (e : Error)
        → m.standing ≡ selecting
        → reload gosnmp net handle calls m.relay ≡ err e
        → Move p m (record m { standing = crashed })
    interrupt :
        m.standing ≡ selecting
        → Move p m (record m { standing = stopping; server = cancel m.server })
    run_ended :
        m.standing ≡ selecting
        → m.server.phase ≡ returned
        → Move p m (record m { standing = exited (exit_code m.server.run_result) })
    run_stopped :
        m.standing ≡ stopping
        → m.server.phase ≡ returned
        → Move p m (record m { standing = exited (exit_code m.server.run_result) })

  pub data Runs (p : Platform) (m : Process) : Process → Type 0 where
    idle : Runs p m m
    after : {n o : Process} → Runs p m n → Move p n o → Runs p m o
