-- ===== src/Server/Totals.antt =====
-- internal/server/server.go: the counters and the store over every sequence of steps.
use snmptrap_relay.Dedup.{Store}
use snmptrap_relay.Engine.State.{Runtime}
use snmptrap_relay.Engine.{Gap}
use snmptrap_relay.Match.Std.{Platform}
use snmptrap_relay.Model.{ServerConfig}
use snmptrap_relay.Prelude.{
  ℕ, ◌+◌, ◌≡◌, ◌∙◌, refl, ap, sym, length, length-append, arith, List, [], ◌∷◌, ◌++◌,
}
use snmptrap_relay.Server.Acts.{
  weigh, weigh_all, weigh_all-insert, an_end, a_delivery, an_acceptance, a_forwarding,
  add_to-MovesBy, handle_packet-IsOne, handle_packet-stats,
}
use snmptrap_relay.Server.Counters.{IsSame64, finished, delivered}
use snmptrap_relay.Server.Queue.{length-insert}
use snmptrap_relay.Server.Steps.{
  start, shut, count_read, enqueue, count_enqueued, drop_packet, log_drop, fail_read, take_packet,
  count_taken, handle_busy, act_next, go_idle, clean, Step, cancelled, stopped, ticked, read_failed,
  read_counted, read_queued, queue_counted, read_dropped, drop_logged, worker_took, worker_counted,
  worker_handled, worker_acted, worker_finished, worker_left, ended, Reach, here, next,
}
use snmptrap_relay.Server.{
  Server, add_one, Packet, Counter, Act, adds, tells, perform, Phase, received_counted,
}

-- The packets that are on their way through the server.
abbrev pub under_way : Server → ℕ
under_way s = length s.packets + length s.taken + length s.busy

-- The packet that Run has counted as received, and neither put on the channel nor counted as dropped.
abbrev pub in_hand : Phase → ℕ
in_hand (received_counted pkt) = 1
in_hand _ = 0

-- No packet is lost or counted twice, with what the workers still have to count.
pub record IsBalanced (s : Server) : Type 0 where
  pub received : IsSame64 s.relay.stats.received (
      s.relay.stats.queue_dropped
      + in_hand s.phase
      + under_way s
      + finished s.relay.stats
      + weigh_all an_end s.acting)
  pub accepted :
      IsSame64
        (s.relay.stats.accepted + weigh_all an_acceptance s.acting)
        (delivered s.relay.stats + weigh_all a_delivery s.acting)
  pub forwarded :
      IsSame64
        (s.relay.stats.forwarded + weigh_all a_forwarding s.acting)
        (delivered s.relay.stats + weigh_all a_delivery s.acting)

module _ (p : Platform) where
  handled-IsBalanced :
      {s : Server} (gap : Gap) (rt : Runtime) (pkt : Packet) (before behind : List Packet)
      → s.busy ≡ before ++ pkt ∷ behind
      → IsBalanced s
      → IsBalanced (handle_busy p gap rt pkt before behind s)
  unfolding handle_busy
  handled-IsBalanced {s} gap rt pkt before behind has v =
      let one = handle_packet-IsOne p gap rt pkt s.relay in
      let same = handle_packet-stats p gap rt pkt s.relay in
      let shorter = ap length has ∙ length-insert pkt before behind in
      record {
        received = rw same (omega (arith, v.received, one.ends, shorter));
        accepted = rw same (omega (arith, v.accepted, one.accepts));
        forwarded = rw same (omega (arith, v.forwarded, one.forwards));
      }

  acted-IsBalanced :
      {s : Server} (act : Act) (acts : List Act) (before behind : List (List Act))
      → s.acting ≡ before ++ (act ∷ acts) ∷ behind
      → IsBalanced s
      → IsBalanced (act_next act acts before behind s)
  unfolding act_next perform
  acted-IsBalanced {s} (adds c) acts before behind has v =
      let moved = add_to-MovesBy c s.relay.stats in
      let old : (w : Counter → ℕ)
          → weigh_all w s.acting ≡ w c + weigh w acts + weigh_all w (before ++ behind) =
        λ w. ap (weigh_all w) has ∙ weigh_all-insert w (adds c ∷ acts) before behind in
      let new = λ (w : Counter → ℕ). weigh_all-insert w acts before behind in
      record {
        received = omega (
          arith,
          v.received,
          moved.received,
          moved.queue_dropped,
          moved.finished,
          old an_end,
          new an_end,
        );
        accepted = omega (
          arith,
          v.accepted,
          moved.accepted,
          moved.delivered,
          old an_acceptance,
          new an_acceptance,
          old a_delivery,
          new a_delivery,
        );
        forwarded = omega (
          arith,
          v.forwarded,
          moved.forwarded,
          moved.delivered,
          old a_forwarding,
          new a_forwarding,
          old a_delivery,
          new a_delivery,
        );
      }
  acted-IsBalanced {s} (tells level message) acts before behind has v =
      let same : (w : Counter → ℕ) → weigh_all w s.acting ≡ weigh_all w (before ++ acts ∷ behind) =
        λ w.
          ap (weigh_all w) has
          ∙ weigh_all-insert w (tells level message ∷ acts) before behind
          ∙ sym (weigh_all-insert w acts before behind) in
      record {
        received = omega (arith, v.received, same an_end);
        accepted = omega (arith, v.accepted, same an_acceptance, same a_delivery);
        forwarded = omega (arith, v.forwarded, same a_forwarding, same a_delivery);
      }

  left-IsBalanced :
      {s : Server} (before behind : List (List Act))
      → s.acting ≡ before ++ [] ∷ behind
      → IsBalanced s
      → IsBalanced (go_idle before behind s)
  unfolding go_idle
  left-IsBalanced {s} before behind has v =
      let same : (w : Counter → ℕ) → weigh_all w s.acting ≡ weigh_all w (before ++ behind) =
        λ w. omega (arith, ap (weigh_all w) has, weigh_all-insert w [] before behind) in
      record {
        received = omega (arith, v.received, same an_end);
        accepted = omega (arith, v.accepted, same an_acceptance, same a_delivery);
        forwarded = omega (arith, v.forwarded, same a_forwarding, same a_delivery);
      }

  Step-IsBalanced : {s t : Server} → Step p s t → IsBalanced s → IsBalanced t
  unfolding shut count_read enqueue count_enqueued drop_packet log_drop fail_read take_packet
      count_taken clean add_one
  Step-IsBalanced cancelled v = record {
    received = v.received;
    accepted = v.accepted;
    forwarded = v.forwarded;
  }
  Step-IsBalanced (stopped looped c) v = record {
    received = ground (arith, v.received, looped);
    accepted = v.accepted;
    forwarded = v.forwarded;
  }
  Step-IsBalanced (ticked event now looped) v = record {
    received = v.received;
    accepted = v.accepted;
    forwarded = v.forwarded;
  }
  Step-IsBalanced (read_failed e looped) v = record {
    received = ground (arith, v.received, looped);
    accepted = v.accepted;
    forwarded = v.forwarded;
  }
  Step-IsBalanced (read_counted pkt looped) v = record {
    received = ground (arith, v.received, looped);
    accepted = v.accepted;
    forwarded = v.forwarded;
  }
  Step-IsBalanced {s} (read_queued pkt counted free) v = record {
    received = ground (arith, v.received, counted, length-append s.packets (pkt ∷ []));
    accepted = v.accepted;
    forwarded = v.forwarded;
  }
  Step-IsBalanced (queue_counted sent) v = record {
    received = ground (arith, v.received, sent);
    accepted = v.accepted;
    forwarded = v.forwarded;
  }
  Step-IsBalanced (read_dropped pkt counted full) v = record {
    received = ground (arith, v.received, counted);
    accepted = v.accepted;
    forwarded = v.forwarded;
  }
  Step-IsBalanced (drop_logged counted) v = record {
    received = ground (arith, v.received, counted);
    accepted = v.accepted;
    forwarded = v.forwarded;
  }
  Step-IsBalanced (worker_took pkt rest others has one) v = record {
    received = ground (arith, v.received, has);
    accepted = v.accepted;
    forwarded = v.forwarded;
  }
  Step-IsBalanced (worker_counted pkt before behind has) v = record {
    received = ground (arith, v.received, has, length-insert pkt before behind);
    accepted = v.accepted;
    forwarded = v.forwarded;
  }
  Step-IsBalanced (worker_handled gap rt pkt before behind lawful has) v =
      handled-IsBalanced gap rt pkt before behind has v
  Step-IsBalanced (worker_acted act acts before behind has) v =
      acted-IsBalanced act acts before behind has v
  Step-IsBalanced (worker_finished before behind has) v = left-IsBalanced before behind has v
  Step-IsBalanced (worker_left others one why) v = record {
    received = v.received;
    accepted = v.accepted;
    forwarded = v.forwarded;
  }
  Step-IsBalanced (ended waits none_idle none_taken none_busy none_acting) v = record {
    received = ground (arith, v.received, waits);
    accepted = v.accepted;
    forwarded = v.forwarded;
  }

  Reach-IsBalanced : {s t : Server} → Reach p s t → IsBalanced s → IsBalanced t
  Reach-IsBalanced here v = v
  Reach-IsBalanced (next r st) v = Step-IsBalanced st (Reach-IsBalanced r v)

  -- Whatever steps the server has made from its start, Add by Add, modulo 2^64 as the counters wrap: the packets
  -- received are those dropped on a full queue, the one that Run has counted and not yet passed on, if any,
  -- those on the channel or with a worker, and those finished, each counted once under failed parsing, failed
  -- handling or one of five reasons, or still to be counted there by its worker; and the events accepted, as
  -- those forwarded, are the alarms, passed-through and dedup-disabled ones, each with those still to be counted.
  pub start-Reach-IsBalanced :
      (cfg : ServerConfig) (store : Store) {s : Server} → Reach p (start cfg store) s → IsBalanced s
  unfolding start
  start-Reach-IsBalanced cfg store r =
      Reach-IsBalanced r (record { received = refl; accepted = refl; forwarded = refl })
