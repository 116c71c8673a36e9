-- ===== src/Server/Shutdown.antt =====
-- internal/server/server.go, Run: when it returns.
use snmptrap_relay.Dedup.{Store}
use snmptrap_relay.Match.Std.{Platform}
use snmptrap_relay.Model.{ServerConfig}
use snmptrap_relay.Prelude.Int.{pos_part}
use snmptrap_relay.Prelude.{
  ℕ, ◌+◌, ◌<◌, ◌≡◌, ◌⊎◌, inl, inr, refl, true, false, length, arith, [], ◌∷◌,
}
use snmptrap_relay.Server.Queue.{length-insert}
use snmptrap_relay.Server.Steps.{
  start, shut, count_read, enqueue, count_enqueued, drop_packet, log_drop, fail_read, take_packet,
  count_taken, handle_busy, act_next, go_idle, clean, Step, cancelled, stopped, ticked, read_failed,
  read_counted, read_queued, queue_counted, read_dropped, drop_logged, worker_took, worker_counted,
  worker_handled, worker_acted, worker_finished, worker_left, ended, Reach, here, next,
}
use snmptrap_relay.Server.{Server, returned}

-- Every worker is still there, idle or with a packet, and Run has not returned, unless the context is
-- cancelled; and the channel is closed only then.
pub record IsRunning (workers : ℕ) (s : Server) : Type 0 where
  pub staffed :
      (s.is_cancelled ≡ true)
      ⊎ ((s.idle + length s.taken + length s.busy + length s.acting ≡ workers)
          × (s.is_closed ≡ false))
  pub open_ended : s.phase ≡ returned → s.is_cancelled ≡ true

module _ (p : Platform) (workers : ℕ) (some_worker : 0 < workers) where
  Step-IsRunning : {s t : Server} → Step p s t → IsRunning workers s → IsRunning workers t
  unfolding shut count_read enqueue count_enqueued drop_packet log_drop fail_read take_packet
      count_taken handle_busy act_next go_idle clean
  Step-IsRunning cancelled v = record { staffed = inl refl; open_ended = λ _. refl }
  Step-IsRunning (stopped looped c) v = record { staffed = inl c; open_ended = λ _. c }
  Step-IsRunning (ticked event now looped) v = record {
    staffed = v.staffed;
    open_ended = v.open_ended;
  }
  Step-IsRunning (read_failed e looped) v = record { staffed = v.staffed; open_ended = λ h. cc }
  Step-IsRunning (read_counted pkt looped) v = record { staffed = v.staffed; open_ended = λ h. cc }
  Step-IsRunning (read_queued pkt looped free) v = record {
    staffed = v.staffed;
    open_ended = λ h. cc;
  }
  Step-IsRunning (queue_counted sent) v = record { staffed = v.staffed; open_ended = λ h. cc }
  Step-IsRunning (read_dropped pkt counted full) v = record {
    staffed = v.staffed;
    open_ended = λ h. cc;
  }
  Step-IsRunning (drop_logged counted) v = record { staffed = v.staffed; open_ended = λ h. cc }
  Step-IsRunning (worker_took pkt rest others has one) v = record {
    staffed = ground (arith, v.staffed, one);
    open_ended = v.open_ended;
  }
  Step-IsRunning (worker_counted pkt before behind has) v = record {
    staffed = ground (arith, v.staffed, has, length-insert pkt before behind);
    open_ended = v.open_ended;
  }
  Step-IsRunning (worker_handled gap rt pkt before behind lawful has) v = record {
    staffed = ground (arith, v.staffed, has, length-insert pkt before behind);
    open_ended = v.open_ended;
  }
  Step-IsRunning (worker_acted act acts before behind has) v = record {
    staffed = ground (
      arith,
      v.staffed,
      has,
      length-insert (act ∷ acts) before behind,
      length-insert acts before behind,
    );
    open_ended = v.open_ended;
  }
  Step-IsRunning (worker_finished before behind has) v = record {
    staffed = ground (arith, v.staffed, has, length-insert [] before behind);
    open_ended = v.open_ended;
  }
  Step-IsRunning (worker_left others one why) v = record {
    staffed = ground (arith, v.staffed, why);
    open_ended = v.open_ended;
  }
  Step-IsRunning (ended waits none_idle none_taken none_busy none_acting) v = record {
    staffed = v.staffed;
    open_ended = λ _. ground (arith, v.staffed, none_idle, none_taken, none_busy, none_acting);
  }

  Reach-IsRunning : {s t : Server} → Reach p s t → IsRunning workers s → IsRunning workers t
  Reach-IsRunning here v = v
  Reach-IsRunning (next r st) v = Step-IsRunning st (Reach-IsRunning r v)

start-IsRunning :
    (cfg : ServerConfig) (store : Store) → IsRunning (pos_part cfg.worker_count) (start cfg store)
unfolding start
start-IsRunning cfg store = record { staffed = inr (omega arith, refl); open_ended = λ h. cc }

-- With at least one worker, Run returns only after the context is cancelled: a failure of the socket
-- alone ends its loop, and then it waits for workers that wait for the channel.
pub start-Reach-returned :
    (p : Platform) (cfg : ServerConfig) (store : Store) {s : Server}
    → 0 < pos_part cfg.worker_count
    → Reach p (start cfg store) s
    → s.phase ≡ returned
    → s.is_cancelled ≡ true
start-Reach-returned p cfg store some_worker r =
    let running = start-IsRunning cfg store in
    let ended_run = Reach-IsRunning p (pos_part cfg.worker_count) some_worker r running in
    ended_run.open_ended
