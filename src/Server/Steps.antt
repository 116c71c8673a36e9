-- ===== src/Server/Steps.antt =====
-- internal/server/server.go, Run and runWorker: the steps that the server can make.
-- One step is one Add on a counter, one communication on the channel, one line of the log, or one call of the
-- engine, that is Parse with HandleEvent, or Cleanup; what other workers do to the store within a HandleEvent is
-- its Gap. Reading a datagram and received.Add(1) are one step, close(packets) and the log line behind it another, and so
-- are a read error and the test of the context behind it. The ticks of the statistics, which only log, are left out.
-- Which step comes next is up to the scheduler, the network and the clock.
use snmptrap_relay.Dedup.{Store}
use snmptrap_relay.Engine.Accounts.{IsLawful}
use snmptrap_relay.Engine.State.{info, warning, Runtime, trap_queue_full, shutdown_requested}
use snmptrap_relay.Engine.{Gap}
use snmptrap_relay.Engine
use snmptrap_relay.Match.Std.{Platform}
use snmptrap_relay.Model.{TrapEvent, ServerConfig}
use snmptrap_relay.Prelude.Int.{ℤ, pos, negsuc, ◌+ℤ◌, wrap64, ◌<ℤ◌, ◌≤ℤ◌, pos_part}
use snmptrap_relay.Prelude.{
  ℕ, suc, true, false, List, [], ◌∷◌, ◌++◌, ◌≡◌, ◌⊎◌, length, none, some, if◌then◌else◌,
}
use snmptrap_relay.Server.{
  add_one, Packet, Relay, relay_of, scene_of, log_packet, handle_packet, Act, perform, looping,
  received_counted, enqueued, drop_counted, RunError, waiting, returned, Server, zero_stats,
}

-- Run at its start, with the store and the log as they are.
unfoldable pub start : ServerConfig → Store → Server
start cfg store = record {
  cfg = cfg;
  relay = record { store = store; stats = zero_stats; sent = []; alerts = []; logs = [] };
  packets = [];
  is_closed = false;
  is_cancelled = false;
  phase = looping;
  idle = pos_part cfg.worker_count;
  taken = [];
  busy = [];
  acting = [];
  queue_depth = pos 0;
  run_result = none;
}

-- `s.stats.received.Add(1)`
abbrev pub count_received : Relay → Relay
count_received r = record r { stats = record r.stats { received = add_one r.stats.received } }

abbrev pub count_dropped : Relay → Relay
count_dropped r = record r {
  stats = record r.stats { queue_dropped = add_one r.stats.queue_dropped };
}

-- `case <-ctx.Done()` of Run
unfoldable pub shut : Server → Server
shut s = record s {
  is_closed = true;
  phase = waiting;
  relay = log_packet info shutdown_requested s.relay;
}

-- A packet that is read, up to received.Add(1).
unfoldable pub count_read : Packet → Server → Server
unfolding add_one
count_read pkt s = record s { relay = count_received s.relay; phase = received_counted pkt }

-- The packet finds room in the channel.
unfoldable pub enqueue : Packet → Server → Server
enqueue pkt s = record s { packets = s.packets ++ (pkt ∷ []); phase = enqueued }

-- `s.queueDepth.Add(1)` behind it
unfoldable pub count_enqueued : Server → Server
count_enqueued s = record s { queue_depth = wrap64 (s.queue_depth +ℤ pos 1); phase = looping }

-- The packet finds the channel full: `s.stats.queueDropped.Add(1)`, and the log line behind it.
unfoldable pub drop_packet : Server → Server
unfolding add_one
drop_packet s = record s { relay = count_dropped s.relay; phase = drop_counted }

unfoldable pub log_drop : Server → Server
log_drop s = record s { relay = log_packet warning trap_queue_full s.relay; phase = looping }

-- A read error that is no timeout ends the loop: with nil if the context is done, else with the error.
unfoldable pub fail_read : RunError → Server → Server
fail_read e s = record s { phase = waiting; run_result = if s.is_cancelled then none else some e }

-- A worker receives from the channel.
unfoldable pub take_packet : Packet → List Packet → ℕ → Server → Server
take_packet pkt rest others s = record s { packets = rest; idle = others; taken = pkt ∷ s.taken }

-- `s.queueDepth.Add(-1)` of a worker
unfoldable pub count_taken : Packet → List Packet → List Packet → Server → Server
count_taken pkt before behind s = record s {
  queue_depth = wrap64 (s.queue_depth +ℤ negsuc 0);
  taken = before ++ behind;
  busy = pkt ∷ s.busy;
}

-- A worker has its packet parsed and handled.
unfoldable pub handle_busy :
    Platform → Gap → Runtime → Packet → List Packet → List Packet → Server → Server
unfolding handle_packet
handle_busy p gap rt pkt before behind s =
    let (after, acts) = handle_packet p gap rt pkt s.relay in
    record s { relay = after; busy = before ++ behind; acting = acts ∷ s.acting }

-- A worker performs its next effect.
unfoldable pub act_next : Act → List Act → List (List Act) → List (List Act) → Server → Server
unfolding perform
act_next act acts before behind s = record s {
  relay = perform act s.relay;
  acting = before ++ acts ∷ behind;
}

-- A worker goes back to its select.
unfoldable pub go_idle : List (List Act) → List (List Act) → Server → Server
go_idle before behind s = record s { acting = before ++ behind; idle = suc s.idle }

-- Cleanup, which needs no event.
unfoldable pub clean : TrapEvent → ℤ → Server → Server
clean event now s = record s {
  relay = relay_of s.relay.stats (Engine.cleanup (scene_of event s.relay) now);
}

pub data Step (p : Platform) (s : Server) : Server → Type 0 where
  cancelled : Step p s (record s { is_cancelled = true })
  stopped : s.phase ≡ looping → s.is_cancelled ≡ true → Step p s (shut s)
  ticked : (event : TrapEvent) (now : ℤ) → s.phase ≡ looping → Step p s (clean event now s)
  read_failed : (e : RunError) → s.phase ≡ looping → Step p s (fail_read e s)
  read_counted : (pkt : Packet) → s.phase ≡ looping → Step p s (count_read pkt s)
  read_queued :
      (pkt : Packet)
      → s.phase ≡ received_counted pkt
      → pos (length s.packets) <ℤ s.cfg.queue_size
      → Step p s (enqueue pkt s)
  queue_counted : s.phase ≡ enqueued → Step p s (count_enqueued s)
  read_dropped :
      (pkt : Packet)
      → s.phase ≡ received_counted pkt
      → s.cfg.queue_size ≤ℤ pos (length s.packets)
      → Step p s (drop_packet s)
  drop_logged : s.phase ≡ drop_counted → Step p s (log_drop s)
  worker_took :
      (pkt : Packet) (rest : List Packet) (others : ℕ)
      → s.packets ≡ pkt ∷ rest
      → s.idle ≡ suc others
      → Step p s (take_packet pkt rest others s)
  worker_counted :
      (pkt : Packet) (before behind : List Packet)
      → s.taken ≡ before ++ pkt ∷ behind
      → Step p s (count_taken pkt before behind s)
  worker_handled :
      (gap : Gap) (rt : Runtime) (pkt : Packet) (before behind : List Packet)
      → IsLawful gap
      → s.busy ≡ before ++ pkt ∷ behind
      → Step p s (handle_busy p gap rt pkt before behind s)
  worker_acted :
      (act : Act) (acts : List Act) (before behind : List (List Act))
      → s.acting ≡ before ++ (act ∷ acts) ∷ behind
      → Step p s (act_next act acts before behind s)
  worker_finished :
      (before behind : List (List Act))
      → s.acting ≡ before ++ [] ∷ behind
      → Step p s (go_idle before behind s)
  worker_left :
      (others : ℕ)
      → s.idle ≡ suc others
      → (s.is_cancelled ≡ true) ⊎ ((s.is_closed ≡ true) × (s.packets ≡ []))
      → Step p s (record s { idle = others })
  ended :
      s.phase ≡ waiting
      → s.idle ≡ 0
      → s.taken ≡ []
      → s.busy ≡ []
      → s.acting ≡ []
      → Step p s (record s { phase = returned })

pub data Reach (p : Platform) (s : Server) : Server → Type 0 where
  here : Reach p s s
  next : {t u : Server} → Reach p s t → Step p t u → Reach p s u
