-- ===== src/Server/Queue.antt =====
-- internal/server/server.go: the queue, its gauge, and the end of Run, over every sequence of steps.
use snmptrap_relay.Match.Std.{Platform}
use snmptrap_relay.Model.{ServerConfig}
use snmptrap_relay.Dedup.{Store}
use snmptrap_relay.Prelude.Int.{pos, negsuc, ◌+ℤ◌, wrap64, sub_ℕ, pos_part}
use snmptrap_relay.Prelude.{
  ℕ, suc, ◌+◌, ◌≤◌, ◌<◌, ◌^◌, ◌≡◌, ◌∙◌, refl, ap, List, [], ◌∷◌, ◌++◌, length, length-append, arith,
}
use snmptrap_relay.Server.Steps.{
  start, shut, count_read, enqueue, count_enqueued, drop_packet, log_drop, fail_read, take_packet,
  count_taken, handle_busy, act_next, go_idle, clean, Step, cancelled, stopped, ticked, read_failed,
  read_counted, read_queued, queue_counted, read_dropped, drop_logged, worker_took, worker_counted,
  worker_handled, worker_acted, worker_finished, worker_left, ended, Reach, here, next,
}
use snmptrap_relay.Server.{
  Packet, Phase, looping, received_counted, enqueued, drop_counted, waiting, returned, Server,
}

-- Taking an element out of a list.
pub length-insert {ℓ} :
    {A : Type ℓ} (a : A) (before behind : List A)
    → length (before ++ a ∷ behind) ≡ suc (length (before ++ behind))
length-insert a [] behind = refl
length-insert a (b ∷ before) behind = omega (arith, length-insert a before behind)

-- The packets on the channel that queueDepth does not count yet.
abbrev pub uncounted : Phase → ℕ
uncounted looping = 0
uncounted (received_counted pkt) = 0
uncounted enqueued = 1
uncounted drop_counted = 0
uncounted waiting = 0
uncounted returned = 0

-- The channel holds no more than its capacity, a worker is idle or holds one packet, and the gauge is
-- the number of packets on the channel or just taken off it, less the one that Run is about to count.
pub record IsQueued (cfg : ServerConfig) (s : Server) : Type 0 where
  pub same_cfg : s.cfg ≡ cfg
  pub room : length s.packets ≤ pos_part cfg.queue_size
  pub workers :
      s.idle + length s.taken + length s.busy + length s.acting ≤ pos_part cfg.worker_count
  pub depth : s.queue_depth ≡ sub_ℕ (length s.packets + length s.taken) (uncounted s.phase)

-- The gauge moves by one without wrapping.
wrap64-next :
    (a b : ℕ)
    → a < 2 ^ 63
    → b ≤ 1
    → (wrap64 (sub_ℕ a 1 +ℤ pos 1) ≡ pos a) × (wrap64 (sub_ℕ (suc a) b +ℤ negsuc 0) ≡ sub_ℕ a b)
unfolding wrap64 ◌+ℤ◌
wrap64-next a b h hb = (ground arith, ground arith)

uncounted_le : (phase : Phase) → uncounted phase ≤ 1
uncounted_le looping = omega arith
uncounted_le (received_counted pkt) = omega arith
uncounted_le enqueued = omega arith
uncounted_le drop_counted = omega arith
uncounted_le waiting = omega arith
uncounted_le returned = omega arith

module _ (p : Platform) (cfg : ServerConfig)
    (small : pos_part cfg.queue_size + pos_part cfg.worker_count < 2 ^ 63) where
  counted_depth :
      (s : Server)
      → IsQueued cfg s
      → wrap64 (sub_ℕ (length s.packets + length s.taken) 1 +ℤ pos 1)
        ≡ sub_ℕ (length s.packets + length s.taken) 0
  counted_depth s v =
      let a = length s.packets + length s.taken in
      (wrap64-next a 0 (omega (arith, v.room, v.workers, small)) (omega arith)).0 ∙ ground arith

  taken_depth :
      (s : Server) (pkt : Packet) (before behind : List Packet)
      → s.taken ≡ before ++ pkt ∷ behind
      → IsQueued cfg s
      → wrap64 (s.queue_depth +ℤ negsuc 0)
        ≡ sub_ℕ (length s.packets + length (before ++ behind)) (uncounted s.phase)
  taken_depth s pkt before behind has v =
      let a = length s.packets + length (before ++ behind) in
      let grown = ap length has ∙ length-insert pkt before behind in
      let more : length s.packets + length s.taken ≡ suc a = omega (arith, grown) in
      rw (v.depth, more)
        (wrap64-next a (uncounted s.phase) (omega (arith, v.room, v.workers, small, grown))
          (uncounted_le s.phase)).1

  Step-IsQueued : {s t : Server} → Step p s t → IsQueued cfg s → IsQueued cfg t
  unfolding shut count_read enqueue count_enqueued drop_packet log_drop fail_read take_packet
      count_taken handle_busy act_next go_idle clean
  Step-IsQueued cancelled v = record {
    same_cfg = v.same_cfg;
    room = v.room;
    workers = v.workers;
    depth = v.depth;
  }
  Step-IsQueued (stopped looped c) v = record {
    same_cfg = v.same_cfg;
    room = v.room;
    workers = v.workers;
    depth = ground (arith, v.depth, looped);
  }
  Step-IsQueued (ticked event now looped) v = record {
    same_cfg = v.same_cfg;
    room = v.room;
    workers = v.workers;
    depth = v.depth;
  }
  Step-IsQueued (read_failed e looped) v = record {
    same_cfg = v.same_cfg;
    room = v.room;
    workers = v.workers;
    depth = ground (arith, v.depth, looped);
  }
  Step-IsQueued (read_counted pkt looped) v = record {
    same_cfg = v.same_cfg;
    room = v.room;
    workers = v.workers;
    depth = ground (arith, v.depth, looped);
  }
  Step-IsQueued {s} (read_queued pkt looped free) v = record {
    same_cfg = v.same_cfg;
    room = ground (arith, v.same_cfg, length-append s.packets (pkt ∷ []), free);
    workers = v.workers;
    depth = ground (arith, v.depth, looped, length-append s.packets (pkt ∷ []));
  }
  Step-IsQueued {s} (queue_counted sent) v = record {
    same_cfg = v.same_cfg;
    room = v.room;
    workers = v.workers;
    depth = rw (v.depth, sent) (counted_depth s v);
  }
  Step-IsQueued (read_dropped pkt counted full) v = record {
    same_cfg = v.same_cfg;
    room = v.room;
    workers = v.workers;
    depth = ground (arith, v.depth, counted);
  }
  Step-IsQueued (drop_logged counted) v = record {
    same_cfg = v.same_cfg;
    room = v.room;
    workers = v.workers;
    depth = ground (arith, v.depth, counted);
  }
  Step-IsQueued {s} (worker_took pkt rest others has one) v = record {
    same_cfg = v.same_cfg;
    room = ground (arith, v.room, has);
    workers = ground (arith, v.workers, one);
    depth = ground (arith, v.depth, has);
  }
  Step-IsQueued {s} (worker_counted pkt before behind has) v = record {
    same_cfg = v.same_cfg;
    room = v.room;
    workers = ground (arith, v.workers, has, length-insert pkt before behind);
    depth = taken_depth s pkt before behind has v;
  }
  Step-IsQueued (worker_handled gap rt pkt before behind lawful has) v = record {
    same_cfg = v.same_cfg;
    room = v.room;
    workers = ground (arith, v.workers, has, length-insert pkt before behind);
    depth = v.depth;
  }
  Step-IsQueued (worker_acted act acts before behind has) v = record {
    same_cfg = v.same_cfg;
    room = v.room;
    workers = ground (
      arith,
      v.workers,
      has,
      length-insert (act ∷ acts) before behind,
      length-insert acts before behind,
    );
    depth = v.depth;
  }
  Step-IsQueued (worker_finished before behind has) v = record {
    same_cfg = v.same_cfg;
    room = v.room;
    workers = ground (arith, v.workers, has, length-insert [] before behind);
    depth = v.depth;
  }
  Step-IsQueued (worker_left others one why) v = record {
    same_cfg = v.same_cfg;
    room = v.room;
    workers = ground (arith, v.workers, one);
    depth = v.depth;
  }
  Step-IsQueued (ended waits none_idle none_taken none_busy none_acting) v = record {
    same_cfg = v.same_cfg;
    room = v.room;
    workers = v.workers;
    depth = ground (arith, v.depth, waits);
  }

  Reach-IsQueued : {s t : Server} → Reach p s t → IsQueued cfg s → IsQueued cfg t
  Reach-IsQueued here v = v
  Reach-IsQueued (next r st) v = Step-IsQueued st (Reach-IsQueued r v)

  start-IsQueued : (store : Store) → IsQueued cfg (start cfg store)
  unfolding start
  start-IsQueued store = record {
    same_cfg = refl;
    room = omega arith;
    workers = omega arith;
    depth = refl;
  }

  -- If the queue size and the number of workers are together less than 2^63: whatever steps Run and
  -- its workers have made from their start, the channel holds no more packets than the queue size,
  -- there are no more workers than configured, each idle or with one packet, and queueDepth is the
  -- number of packets on the channel or just taken off it, less the one, if any, that Run has put on
  -- it and not counted yet.
  pub start-Reach-IsQueued :
      (store : Store) {s : Server} → Reach p (start cfg store) s → IsQueued cfg s
  start-Reach-IsQueued store r = Reach-IsQueued r (start-IsQueued store)
