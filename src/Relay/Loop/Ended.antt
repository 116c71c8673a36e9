-- ===== src/Relay/Loop/Ended.antt =====
-- cmd/snmptrap-relay/main.go, run: when the process ends, by its loop and by the server together.
use mathlib.Core.Path.{subst}
use snmptrap_relay.Engine.Accounts.{IsLawful}
use snmptrap_relay.Engine.State.{Runtime}
use snmptrap_relay.Engine.{Gap}
use snmptrap_relay.Forward.Sockets.{Network}
use snmptrap_relay.Match.Std.{Platform}
use snmptrap_relay.Prelude.Int.{pos_part}
use snmptrap_relay.Prelude.{
  ℕ, ◌≡◌, ◌<◌, ◌∙◌, refl, ap, sym, Bool, true, false, ◌||◌, List, none, some, arith,
}
use snmptrap_relay.Receiver.{Gosnmp}
use snmptrap_relay.Relay.Loop.{
  exit_code, Standing, selecting, stopping, exited, crashed, cancel, new_engine_store, Process,
  at_select, Move, serves, hangup, hangup_panicked, interrupt, run_ended, run_stopped, Runs, idle,
  after,
}
use snmptrap_relay.Relay.{Relay}
use snmptrap_relay.Result.{Result}
use snmptrap_relay.Server.Liveness.{cancelled-Returns}
use snmptrap_relay.Server.Shutdown.{start-Reach-returned}
use snmptrap_relay.Server.Steps
use snmptrap_relay.Server.{Server, Phase, waiting, returned, other_error}
use snmptrap_relay.Text.{Text}

-- A server whose context is cancelled stays so.
Step-is_cancelled :
    (p : Platform) {s t : Server} → Steps.Step p s t → s.is_cancelled ≡ true → t.is_cancelled ≡ true
unfolding Steps.shut Steps.count_read Steps.enqueue Steps.count_enqueued Steps.drop_packet
    Steps.log_drop Steps.fail_read Steps.take_packet Steps.count_taken Steps.handle_busy
    Steps.act_next Steps.go_idle Steps.clean
Step-is_cancelled p Steps.cancelled c = refl
Step-is_cancelled p (Steps.stopped h k) c = c
Step-is_cancelled p (Steps.ticked e n h) c = c
Step-is_cancelled p (Steps.read_failed e h) c = c
Step-is_cancelled p (Steps.read_counted k h) c = c
Step-is_cancelled p (Steps.read_queued k h f) c = c
Step-is_cancelled p (Steps.queue_counted h) c = c
Step-is_cancelled p (Steps.read_dropped k h f) c = c
Step-is_cancelled p (Steps.drop_logged h) c = c
Step-is_cancelled p (Steps.worker_took k r o h f) c = c
Step-is_cancelled p (Steps.worker_counted k b d h) c = c
Step-is_cancelled p (Steps.worker_handled g r k b d l h) c = c
Step-is_cancelled p (Steps.worker_acted a x b d h) c = c
Step-is_cancelled p (Steps.worker_finished b d h) c = c
Step-is_cancelled p (Steps.worker_left o h w) c = c
Step-is_cancelled p (Steps.ended w i t b x) c = c

-- What Run returns does not change once the context is cancelled before a read error, nor behind the loop.
Step-run_result :
    (p : Platform) {s t : Server}
    → Steps.Step p s t
    → s.is_cancelled ≡ true
    → s.run_result ≡ none
    → t.run_result ≡ none
unfolding Steps.shut Steps.count_read Steps.enqueue Steps.count_enqueued Steps.drop_packet
    Steps.log_drop Steps.fail_read Steps.take_packet Steps.count_taken Steps.handle_busy
    Steps.act_next Steps.go_idle Steps.clean
Step-run_result p Steps.cancelled c z = z
Step-run_result p (Steps.stopped h k) c z = z
Step-run_result p (Steps.ticked e n h) c z = z
Step-run_result p (Steps.read_failed e h) c z = rw c refl
Step-run_result p (Steps.read_counted k h) c z = z
Step-run_result p (Steps.read_queued k h f) c z = z
Step-run_result p (Steps.queue_counted h) c z = z
Step-run_result p (Steps.read_dropped k h f) c z = z
Step-run_result p (Steps.drop_logged h) c z = z
Step-run_result p (Steps.worker_took k r o h f) c z = z
Step-run_result p (Steps.worker_counted k b d h) c z = z
Step-run_result p (Steps.worker_handled g r k b d l h) c z = z
Step-run_result p (Steps.worker_acted a x b d h) c z = z
Step-run_result p (Steps.worker_finished b d h) c z = z
Step-run_result p (Steps.worker_left o h w) c z = z
Step-run_result p (Steps.ended w i t b x) c z = z

-- Run is behind its loop.
abbrev pub is_behind : Phase → Bool
is_behind waiting = true
is_behind returned = true
is_behind _ = false

Step-is_behind :
    (p : Platform) {s t : Server}
    → Steps.Step p s t
    → is_behind s.phase ≡ true
    → (is_behind t.phase ≡ true) × (t.run_result ≡ s.run_result)
unfolding Steps.shut Steps.count_read Steps.enqueue Steps.count_enqueued Steps.drop_packet
    Steps.log_drop Steps.fail_read Steps.take_packet Steps.count_taken Steps.handle_busy
    Steps.act_next Steps.go_idle Steps.clean
Step-is_behind p Steps.cancelled c = (c, refl)
Step-is_behind p (Steps.stopped h k) c = absurd (ground (arith, h, c))
Step-is_behind p (Steps.ticked e n h) c = (c, refl)
Step-is_behind p (Steps.read_failed e h) c = absurd (ground (arith, h, c))
Step-is_behind p (Steps.read_counted k h) c = absurd (ground (arith, h, c))
Step-is_behind p (Steps.read_queued k h f) c = absurd (ground (arith, h, c))
Step-is_behind p (Steps.queue_counted h) c = absurd (ground (arith, h, c))
Step-is_behind p (Steps.read_dropped k h f) c = absurd (ground (arith, h, c))
Step-is_behind p (Steps.drop_logged h) c = absurd (ground (arith, h, c))
Step-is_behind p (Steps.worker_took k r o h f) c = (c, refl)
Step-is_behind p (Steps.worker_counted k b d h) c = (c, refl)
Step-is_behind p (Steps.worker_handled g r k b d l h) c = (c, refl)
Step-is_behind p (Steps.worker_acted a x b d h) c = (c, refl)
Step-is_behind p (Steps.worker_finished b d h) c = (c, refl)
Step-is_behind p (Steps.worker_left o h w) c = (c, refl)
Step-is_behind p (Steps.ended w i t b x) c = (refl, refl)

module _ (gosnmp : Gosnmp) (net : Network) (handle : List Text → Text → Result (List Text))
    (p : Platform) where
  -- What is left of the process for the server is a run of the server.
  Move-Reach :
      {s : Server} {m n : Process gosnmp net handle}
      → Move gosnmp net handle p m n
      → Steps.Reach p s m.server
      → Steps.Reach p s n.server
  unfolding cancel
  Move-Reach (serves st same) r = Steps.next r st
  Move-Reach (hangup calls next_relay line h e) r = r
  Move-Reach (hangup_panicked calls x h e) r = r
  Move-Reach (interrupt h) r = Steps.next r Steps.cancelled
  Move-Reach (run_ended h ph) r = r
  Move-Reach (run_stopped h ph) r = r

  Runs-Reach :
      {m n : Process gosnmp net handle}
      → Runs gosnmp net handle p m n
      → Steps.Reach p m.server n.server
  Runs-Reach idle = Steps.here
  Runs-Reach (after r mv) = Move-Reach mv (Runs-Reach r)

  -- Of all the steps only that of another signal than SIGHUP calls cancel.
  abbrev pub is_interrupt : {m n : Process gosnmp net handle} → Move gosnmp net handle p m n → Bool
  is_interrupt (serves st same) = false
  is_interrupt (hangup calls next_relay line h e) = false
  is_interrupt (hangup_panicked calls x h e) = false
  is_interrupt (interrupt h) = true
  is_interrupt (run_ended h ph) = false
  is_interrupt (run_stopped h ph) = false

  -- The process has met such a signal.
  abbrev pub was_interrupted :
      {m n : Process gosnmp net handle} → Runs gosnmp net handle p m n → Bool
  was_interrupted idle = false
  was_interrupted (after r mv) = is_interrupt mv || was_interrupted r

  Move-is_cancelled :
      {m n : Process gosnmp net handle} (mv : Move gosnmp net handle p m n) (b : Bool)
      → m.server.is_cancelled ≡ b
      → n.server.is_cancelled ≡ (is_interrupt mv || b)
  unfolding cancel
  Move-is_cancelled (serves st same) b h = same ∙ h
  Move-is_cancelled (hangup calls next_relay line k e) b h = h
  Move-is_cancelled (hangup_panicked calls x k e) b h = h
  Move-is_cancelled (interrupt k) b h = refl
  Move-is_cancelled (run_ended k ph) b h = h
  Move-is_cancelled (run_stopped k ph) b h = h

  Runs-is_cancelled :
      {m n : Process gosnmp net handle} (r : Runs gosnmp net handle p m n)
      → m.server.is_cancelled ≡ false
      → n.server.is_cancelled ≡ was_interrupted r
  Runs-is_cancelled idle h = h
  Runs-is_cancelled (after r mv) h =
      Move-is_cancelled mv (was_interrupted r) (Runs-is_cancelled r h)

  -- Behind its select the loop has cancelled the context, if Run returns only then.
  abbrev IsCancelledAt : Standing → Server → Type 0
  IsCancelledAt selecting s = Unit {0}
  IsCancelledAt stopping s = s.is_cancelled ≡ true
  IsCancelledAt (exited code) s = s.is_cancelled ≡ true
  IsCancelledAt crashed s = Unit {0}

  serves-IsCancelledAt :
      (st : Standing) (s t : Server)
      → t.is_cancelled ≡ s.is_cancelled
      → IsCancelledAt st s
      → IsCancelledAt st t
  serves-IsCancelledAt selecting s t e h = tt
  serves-IsCancelledAt stopping s t e h = e ∙ h
  serves-IsCancelledAt (exited code) s t e h = e ∙ h
  serves-IsCancelledAt crashed s t e h = tt

  Move-IsCancelledAt :
      {m n : Process gosnmp net handle}
      → Move gosnmp net handle p m n
      → (m.server.phase ≡ returned → m.server.is_cancelled ≡ true)
      → IsCancelledAt m.standing m.server
      → IsCancelledAt n.standing n.server
  unfolding cancel
  Move-IsCancelledAt {m} (serves {t} st same) only h =
      serves-IsCancelledAt m.standing m.server t same h
  Move-IsCancelledAt (hangup calls next_relay line k e) only h = h
  Move-IsCancelledAt (hangup_panicked calls x k e) only h = tt
  Move-IsCancelledAt (interrupt k) only h = refl
  Move-IsCancelledAt (run_ended k ph) only h = only ph
  Move-IsCancelledAt (run_stopped k ph) only h = only ph

  module _ (relay : Relay gosnmp net handle)
      (some_worker : 0 < pos_part relay.engine.cfg.server.worker_count) where
    start-IsCancelledAt :
        {n : Process gosnmp net handle}
        → Runs gosnmp net handle p (at_select gosnmp net handle relay) n
        → IsCancelledAt n.standing n.server
    unfolding at_select
    start-IsCancelledAt idle = tt
    start-IsCancelledAt (after r mv) =
        Move-IsCancelledAt mv
          (start-Reach-returned p relay.engine.cfg.server (new_engine_store relay.engine.cfg)
            some_worker (Runs-Reach r))
          (start-IsCancelledAt r)

    -- With at least one worker, run returns only after a signal other than SIGHUP: whatever the server,
    -- the network and the reloads do, no failure of the server ends the process.
    pub start-Runs-exited :
        {n : Process gosnmp net handle} (code : ℕ)
        (r : Runs gosnmp net handle p (at_select gosnmp net handle relay) n)
        → n.standing ≡ exited code
        → was_interrupted r ≡ true
    unfolding at_select Steps.start
    start-Runs-exited {n} code r at_end =
        sym (Runs-is_cancelled r refl)
        ∙ subst (λ st. IsCancelledAt st n.server) at_end (start-IsCancelledAt r)

  -- The server goes on behind cancel() as it does alone.
  Reach-Runs :
      {s t : Server} (m : Process gosnmp net handle)
      → s.is_cancelled ≡ true
      → Steps.Reach p s t
      → Runs gosnmp net handle p (record m { server = s }) (record m { server = t })
        × (t.is_cancelled ≡ true)
  Reach-Runs m c Steps.here = (idle, c)
  Reach-Runs m c (Steps.next r st) =
      let (run, before) = Reach-Runs m c r in
      let behind = Step-is_cancelled p st before in
      (after run (serves st (behind ∙ sym before)), behind)

  Runs-step :
      {m n o : Process gosnmp net handle}
      → Move gosnmp net handle p m n
      → Runs gosnmp net handle p n o
      → Runs gosnmp net handle p m o
  Runs-step mv idle = after idle mv
  Runs-step mv (after r last) = after (Runs-step mv r) last

  Reach-run_result :
      {s t : Server}
      → Steps.Reach p s t
      → s.is_cancelled ≡ true
      → s.run_result ≡ none
      → (t.is_cancelled ≡ true) × (t.run_result ≡ none)
  Reach-run_result Steps.here c r = (c, r)
  Reach-run_result (Steps.next reach st) c r =
      let (c2, r2) = Reach-run_result reach c r in
      (Step-is_cancelled p st c2, Step-run_result p st c2 r2)

  Reach-is_behind :
      {s t : Server}
      → Steps.Reach p s t
      → is_behind s.phase ≡ true
      → (is_behind t.phase ≡ true) × (t.run_result ≡ s.run_result)
  Reach-is_behind Steps.here b = (b, refl)
  Reach-is_behind (Steps.next reach st) b =
      let (b2, r2) = Reach-is_behind reach b in
      let (b3, r3) = Step-is_behind p st b2 in (b3, r3 ∙ r2)

  -- From every state at the select, whatever the server is doing and the reloads have made of the variables,
  -- there is a run that ends with the return of run, the context cancelled and the variables as they were. Its code
  -- is 0 if no read error had ended the loop of Run before the signal; and it is 1 if one had, other than
  -- context.Canceled, so that Run was waiting for its workers or had returned.
  pub interrupt-Exits :
      (gap : Gap) (rt : Runtime)
      → IsLawful gap
      → (m : Process gosnmp net handle) → m.standing ≡ selecting
      → (n : Process gosnmp net handle) × (code : ℕ) × Runs gosnmp net handle p m n
        × (n.standing ≡ exited code)
        × (m.server.run_result ≡ none → code ≡ 0)
        × (is_behind m.server.phase ≡ true → m.server.run_result ≡ some other_error → code ≡ 1)
        × (n.server.is_cancelled ≡ true)
        × (n.relay ≡ m.relay)
  unfolding cancel exit_code
  interrupt-Exits gap rt lawful m selects =
      let (t, reach, at_end) = cancelled-Returns p gap rt lawful (cancel m.server) refl in
      let stopped = record m { standing = stopping; server = t } in
      let (run, cancelled) = Reach-Runs (record m { standing = stopping }) refl reach in
      (
        record stopped { standing = exited (exit_code t.run_result) },
        exit_code t.run_result,
        Runs-step (interrupt selects) (after run (run_stopped refl at_end)),
        refl,
        λ no_error. ap exit_code (Reach-run_result reach refl no_error).1,
        λ behind failed. ap exit_code ((Reach-is_behind reach behind).1 ∙ failed),
        cancelled,
        refl,
      )
