-- ===== src/Server/Liveness.antt =====
-- internal/server/server.go, Run: behind a cancelled context it can always come to its end.
use snmptrap_relay.Engine.Accounts.{IsLawful}
use snmptrap_relay.Engine.State.{Runtime}
use snmptrap_relay.Engine.{Gap}
use snmptrap_relay.Match.Std.{Platform}
use snmptrap_relay.Prelude.Int.{pos, ltb_ℤ}
use snmptrap_relay.Prelude.{
  ℕ, zero, suc, ◌≡◌, refl, List, [], ◌∷◌, inl, inr, true, length, Bool-cases, arith,
}
use snmptrap_relay.Server.Steps.{
  shut, enqueue, count_enqueued, drop_packet, log_drop, count_taken, handle_busy, act_next, go_idle,
  Step, stopped, read_queued, queue_counted, read_dropped, drop_logged, worker_counted,
  worker_handled, worker_acted, worker_finished, worker_left, ended, Reach, here, next,
}
use snmptrap_relay.Server.{
  Server, Packet, Act, Phase, looping, received_counted, enqueued, drop_counted, waiting, returned,
}

module _ (p : Platform) (gap : Gap) (rt : Runtime) (lawful : IsLawful gap) where
  Reach-step : {s t u : Server} → Step p s t → Reach p t u → Reach p s u
  Reach-step st here = next here st
  Reach-step st (next r last) = next (Reach-step st r) last

  -- A run to the return of Run.
  abbrev Returns : Server → Type 0
  Returns s = (t : Server) × Reach p s t × (t.phase ≡ returned)

  Returns-step : {s t : Server} → Step p s t → Returns t → Returns s
  Returns-step st (t, r, h) = (t, Reach-step st r, h)

  -- The idle workers leave, one by one, and Run returns.
  leave-Returns :
      (n : ℕ) (s : Server)
      → s.idle ≡ n
      → s.is_cancelled ≡ true
      → s.phase ≡ waiting
      → s.taken ≡ []
      → s.busy ≡ []
      → s.acting ≡ []
      → Returns s
  leave-Returns zero s none_idle c waits none_taken none_busy none_acting =
      Returns-step (ended waits none_idle none_taken none_busy none_acting) (_, here, refl)
  leave-Returns (suc n) s some_idle c waits none_taken none_busy none_acting =
      Returns-step (worker_left n some_idle (inl c))
        (leave-Returns n (record s { idle = n }) refl c waits none_taken none_busy none_acting)

  -- The workers perform the effects that are left, and go back to their select.
  act-Returns :
      (acting : List (List Act)) (s : Server)
      → s.acting ≡ acting
      → s.is_cancelled ≡ true
      → s.phase ≡ waiting
      → s.taken ≡ []
      → s.busy ≡ []
      → Returns s
  unfolding act_next go_idle
  act-Returns [] s none_acting c waits none_taken none_busy =
      leave-Returns s.idle s refl c waits none_taken none_busy none_acting
  act-Returns ([] ∷ acting) s some_acting c waits none_taken none_busy =
      Returns-step (worker_finished [] acting some_acting)
        (act-Returns acting (go_idle [] acting s) refl c waits none_taken none_busy)
  act-Returns ((act ∷ acts) ∷ acting) s some_acting c waits none_taken none_busy =
      Returns-step (worker_acted act acts [] acting some_acting) (
        act-Returns (acts ∷ acting) (act_next act acts [] acting s) refl c waits none_taken
          none_busy)

  -- The packets in work are handled.
  finish-Returns :
      (busy : List Packet) (s : Server)
      → s.busy ≡ busy
      → s.is_cancelled ≡ true
      → s.phase ≡ waiting
      → s.taken ≡ []
      → Returns s
  unfolding handle_busy
  finish-Returns [] s none_busy c waits none_taken =
      act-Returns s.acting s refl c waits none_taken none_busy
  finish-Returns (pkt ∷ busy) s some_busy c waits none_taken =
      Returns-step (worker_handled gap rt pkt [] busy lawful some_busy)
        (finish-Returns busy (handle_busy p gap rt pkt [] busy s) refl c waits none_taken)

  -- The packets that are taken are counted and then finished.
  count-Returns :
      (taken : List Packet) (s : Server)
      → s.taken ≡ taken
      → s.is_cancelled ≡ true
      → s.phase ≡ waiting
      → Returns s
  unfolding count_taken
  count-Returns [] s none_taken c waits = finish-Returns s.busy s refl c waits none_taken
  count-Returns (pkt ∷ taken) s some_taken c waits =
      Returns-step (worker_counted pkt [] taken some_taken)
        (count-Returns taken (count_taken pkt [] taken s) refl c waits)

  stop-Returns : (s : Server) → s.is_cancelled ≡ true → s.phase ≡ looping → Returns s
  unfolding shut
  stop-Returns s c loops =
      Returns-step (stopped loops c) (count-Returns s.taken (shut s) refl c refl)

  enqueued-Returns : (s : Server) → s.phase ≡ enqueued → s.is_cancelled ≡ true → Returns s
  unfolding count_enqueued
  enqueued-Returns s h c = Returns-step (queue_counted h) (stop-Returns (count_enqueued s) c refl)

  drop_counted-Returns : (s : Server) → s.phase ≡ drop_counted → s.is_cancelled ≡ true → Returns s
  unfolding log_drop
  drop_counted-Returns s h c = Returns-step (drop_logged h) (stop-Returns (log_drop s) c refl)

  phase-Returns : (ph : Phase) (s : Server) → s.phase ≡ ph → s.is_cancelled ≡ true → Returns s
  unfolding enqueue drop_packet
  phase-Returns looping s h c = stop-Returns s c h
  phase-Returns (received_counted pkt) s h c =
      elim (Bool-cases (ltb_ℤ (pos (length s.packets)) s.cfg.queue_size)) [
        | inl free ↦
            Returns-step (read_queued pkt h (ground (arith, free)))
              (enqueued-Returns (enqueue pkt s) refl c)
        | inr full ↦
            Returns-step (read_dropped pkt h (ground (arith, full)))
              (drop_counted-Returns (drop_packet s) refl c)
      ]
  phase-Returns enqueued s h c = enqueued-Returns s h c
  phase-Returns drop_counted s h c = drop_counted-Returns s h c
  phase-Returns waiting s h c = count-Returns s.taken s refl c h
  phase-Returns returned s h c = (s, here, h)

  -- From every state in which the context is cancelled, whatever the channel holds and the workers are
  -- doing, there is a run of the server to the return of Run.
  pub cancelled-Returns :
      (s : Server) → s.is_cancelled ≡ true → (t : Server) × Reach p s t × (t.phase ≡ returned)
  cancelled-Returns s c = phase-Returns s.phase s refl c
