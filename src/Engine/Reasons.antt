-- ===== src/Engine/Reasons.antt =====
-- internal/engine/engine.go, HandleEvent: the reason of an outcome that comes with no error.
use snmptrap_relay.Engine.Branches.{Ends, handle_event-Ends, is_sending, is_holding}
use snmptrap_relay.Engine.State.{
  Runtime, Scene, Handled, Level, LogMessage, Reason, send_raw, unset, filtered, forward_failed,
  duplicate, alarm, pass_through, dedup_disabled,
}
use snmptrap_relay.Engine.{Gap, forward_with, handle_event}
use snmptrap_relay.Match.Std.{Platform}
use snmptrap_relay.Prelude.{◌≡◌, refl, true, false, ◌||◌, none, Option-cases, inl, inr}
use snmptrap_relay.Text.{Text}

-- With no error, the event is accepted and forwarded if the reason is that of one that was sent, and
-- neither if it is that of one that was held back; it has no other reason.
abbrev pub IsReasoned : Handled → Type 0
IsReasoned h =
    h.error ≡ none
    → ((is_sending h.outcome.reason || is_holding h.outcome.reason) ≡ true)
      × (h.outcome.accepted ≡ is_sending h.outcome.reason)
      × (h.outcome.forwarded ≡ is_sending h.outcome.reason)

forward_with-IsReasoned :
    (rt : Runtime) (level : Level) (message : LogMessage) (reason : Reason) (logged rule_id : Text)
    (sc : Scene)
    → is_sending reason ≡ true
    → IsReasoned (forward_with rt level message reason logged rule_id sc)
unfolding forward_with send_raw
forward_with-IsReasoned rt level message reason logged rule_id sc sends =
    elim (Option-cases (rt.forwarder sc.event.raw_bytes)) [
      | inl went ↦ rw (went, forward_with) (λ _. rw sends (refl, refl, refl))
      | inr (e, refused) ↦ rw (refused, forward_with) (λ h. cc)
    ]

is_holding-ne-is_sending : (reason : Reason) → is_holding reason ≡ true → is_sending reason ≡ false
is_holding-ne-is_sending unset h = refl
is_holding-ne-is_sending filtered h = refl
is_holding-ne-is_sending forward_failed h = refl
is_holding-ne-is_sending dedup_disabled h = cc
is_holding-ne-is_sending duplicate h = refl
is_holding-ne-is_sending alarm h = cc
is_holding-ne-is_sending pass_through h = cc

module _ (p : Platform) (gap : Gap) (rt : Runtime) where
  Ends-IsReasoned : (sc : Scene) → Ends p rt sc IsReasoned
  Ends-IsReasoned sc = record {
    sends = λ level message reason logged rule_id sc' s.
        forward_with-IsReasoned rt level message reason logged rule_id sc' s;
    holds = λ reason rule_id sc' h _.
        let e = is_holding-ne-is_sending reason h in rw (e, h) (refl, refl, refl);
    aborts = λ e sc' unsent raised h. cc;
  }

  pub handle_event-IsReasoned : (sc : Scene) → IsReasoned (handle_event p gap rt sc)
  handle_event-IsReasoned sc = handle_event-Ends p gap rt sc IsReasoned (Ends-IsReasoned sc)

  -- When HandleEvent returns no error, its reason is alarm, pass-through, dedup_disabled, filtered or
  -- duplicate; the event is accepted with the first three and not with the others, and the same holds
  -- of forwarded.
  pub handle_event_reasons :
      (sc : Scene)
      → (handle_event p gap rt sc).error ≡ none
      → ((is_sending (handle_event p gap rt sc).outcome.reason
            || is_holding (handle_event p gap rt sc).outcome.reason)
          ≡ true)
        × ((handle_event p gap rt sc).outcome.accepted
            ≡ is_sending (handle_event p gap rt sc).outcome.reason)
        × ((handle_event p gap rt sc).outcome.forwarded
            ≡ is_sending (handle_event p gap rt sc).outcome.reason)
  handle_event_reasons sc = handle_event-IsReasoned sc
