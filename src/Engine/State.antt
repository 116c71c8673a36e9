-- ===== src/Engine/State.antt =====
-- internal/engine/engine.go: what one call of HandleEvent reads and writes.
use snmptrap_relay.Dedup.{Store}
use snmptrap_relay.Model.{AppConfig, TrapEvent, VarBind}
use snmptrap_relay.Prelude.{
  ℕ, Bool, true, false, not, ◌&&◌, List, [], ◌∷◌, ◌++◌, Option, none, some, if◌then◌else◌,
}
use snmptrap_relay.Prelude.Int.{ℤ}
use snmptrap_relay.Result.{Result, Error, no_decoder, err}
use snmptrap_relay.Text.Number.{int_text}
use snmptrap_relay.Text.{Text, lit, join}

-- runtimeState, as one event meets it. `forwarder` is what Send returns for a payload: no error, or
-- one. `stamp` is time.Now() at the alert line, in RFC 3339.
pub record Runtime : Type 0 where
  pub cfg : AppConfig
  pub forwarder : List ℕ → Option Text
  pub decoder : Option (List ℕ → Text → ℤ → Result TrapEvent)
  pub alerts_writer : Bool
  pub stamp : Text

pub data Level : Type 0 where
  debug info warning failure : Level

-- The log lines of the engine and of the server, by their message; of their attributes only the rule and `active` are kept.
pub data LogMessage : Type 0 where
  trap_filtered trap_forward_failed trap_forwarded_dedup_disabled : LogMessage
  trap_deduplicated trap_forwarded clear_match_error clear_regex_invalid : LogMessage
  trap_clear_failed trap_clear_skipped dedup_cleanup : LogMessage
  trap_parse_failed trap_handle_failed trap_queue_full shutdown_requested : LogMessage
  trap_cleared : Bool → LogMessage

pub record LogLine : Type 0 where
  pub level : Level
  pub message : LogMessage
  pub rule : Text

-- The store of the engine, the event, and what has been sent, written to the alerts file and logged.
pub record Scene : Type 0 where
  pub store : Store
  pub event : TrapEvent
  pub sent : List (List ℕ)
  pub alerts : List Text
  pub logs : List LogLine

pub data Reason : Type 0 where
  unset filtered forward_failed dedup_disabled duplicate alarm pass_through : Reason

pub record Outcome : Type 0 where
  pub accepted : Bool
  pub forwarded : Bool
  pub reason : Reason
  pub rule_id : Text

-- What HandleEvent returns, with the scene that it leaves.
pub record Handled : Type 0 where
  pub outcome : Outcome
  pub error : Option Error
  pub scene : Scene

abbrev pub outcome_of : Bool → Bool → Reason → Text → Outcome
outcome_of accepted forwarded reason rule_id = record {
  accepted = accepted;
  forwarded = forwarded;
  reason = reason;
  rule_id = rule_id;
}

-- return outcome, nil
abbrev pub done : Outcome → Scene → Handled
done outcome sc = record { outcome = outcome; error = none; scene = sc }

-- return outcome, err
abbrev pub failed : Outcome → Error → Scene → Handled
failed outcome e sc = record { outcome = outcome; error = some e; scene = sc }

-- return Outcome{}, err
abbrev pub aborted : Error → Scene → Handled
aborted e sc = failed (outcome_of false false unset []) e sc

abbrev pub log : Level → LogMessage → Text → Scene → Scene
log level message rule sc = record sc {
  logs = sc.logs ++ (record { level = level; message = message; rule = rule } ∷ []);
}

-- fallback
unfoldable pub fallback : Text → Text
fallback [] = b'-' ∷ []
fallback (c ∷ s) = c ∷ s

-- fmt.Sprintf("%s:%d", event.SourceIP, event.SourcePort)
unfoldable pub source_text : TrapEvent → Text
source_text event = event.source_ip ++ (b':' ∷ int_text event.source_port)

-- fmt.Sprintf("%s = \"%s\"", vb.OID, vb.Value)
unfoldable pub varbind_text : VarBind → Text
varbind_text vb = vb.oid ++ (lit " = \"" ++ (vb.value ++ b'"' ∷ []))

unfoldable pub varbind_texts : List VarBind → List Text
varbind_texts [] = []
varbind_texts (vb ∷ vbs) = varbind_text vb ∷ varbind_texts vbs

abbrev bracketed : List Text → Text
bracketed [] = []
bracketed (p ∷ ps) = lit "[ " ++ (join (lit ", ") (p ∷ ps) ++ lit " ]")

-- The line that Fprintf writes to the alerts file.
unfoldable pub alert_line : Text → TrapEvent → Text
alert_line stamp event =
    stamp
    ++ (b' '
        ∷ (source_text event
            ++ (lit " -> TRAP "
                ++ (fallback event.trap_oid
                    ++ (b' ' ∷ (bracketed (varbind_texts event.varbinds) ++ b'\n' ∷ []))))))

-- `if state.alertsWriter != nil && !event.AlertsLogged { … }`, which stands five times in the source
unfoldable pub write_alert : Runtime → Scene → Scene
write_alert rt sc =
    if rt.alerts_writer && not sc.event.alerts_logged
    then record sc {
      alerts = sc.alerts ++ (alert_line rt.stamp sc.event ∷ []);
      event = record sc.event { alerts_logged = true };
    }
    else sc

-- state.forwarder.Send(event.RawBytes)
unfoldable pub send_raw : Runtime → Scene → Option Text × Scene
send_raw rt sc =
    (rt.forwarder sc.event.raw_bytes, record sc { sent = sc.sent ++ (sc.event.raw_bytes ∷ []) })

-- (*Engine).Parse
unfoldable pub parse : Runtime → List ℕ → Text → ℤ → Result TrapEvent
parse rt payload source_ip source_port = elim rt.decoder [
  | none ↦ err no_decoder
  | some decode ↦ decode payload source_ip source_port
]
