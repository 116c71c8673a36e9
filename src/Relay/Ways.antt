-- ===== src/Relay/Ways.antt =====
-- cmd/snmptrap-relay/main.go, the case of SIGHUP: the ways out of a reload, with what it opens, keeps and
-- closes.
use snmptrap_relay.Config.{load}
use snmptrap_relay.Forward.Sockets.Dialled.{dialled}
use snmptrap_relay.Forward.Sockets.{Network, Socket, new_udp, conns}
use snmptrap_relay.Logging.{Resource, new_resource, new_alerts_writer, to_list, file_opened}
use snmptrap_relay.Model.{AppConfig}
use snmptrap_relay.Prelude.{ℕ, Bool, true, false, ◌≡◌, List, [], ◌++◌, Option}
use snmptrap_relay.Receiver.{Gosnmp, new_decoder}
use snmptrap_relay.Relay.{
  Calls, Message, Relay, Opened, Ending, config_reloaded, apply_runtime_config,
}
use snmptrap_relay.Result.{Result, Error, ok, err, panicked}
use snmptrap_relay.Text.{Text}

abbrev pub is_reloaded : Message → Bool
is_reloaded config_reloaded = true
is_reloaded _ = false

module _ (gosnmp : Gosnmp) (net : Network) (handle : List Text → Text → Result (List Text)) where
  -- Short names for the parameters' instances.
  abbrev pub State : Type 0
  State = Relay gosnmp net handle

  abbrev pub Next : Type 0
  Next = Opened gosnmp net handle

  -- The engine has the parts that are in use before, and the metrics are configured as before.
  pub record Keeps (s t : State) : Type 0 where
    pub engine : t.engine ≡ s.engine
    pub forwarder : t.forwarder ≡ s.forwarder
    pub logger : t.logger ≡ s.logger
    pub logger_closer : t.logger_closer ≡ s.logger_closer
    pub alerts_writer : t.alerts_writer ≡ s.alerts_writer
    pub metrics_cfg : t.metrics_cfg ≡ s.metrics_cfg

  -- What has been opened is what the new configuration asks for.
  pub record IsNext (calls : Calls) (o : Next) : Type 0 where
    pub loaded : load calls.decoded ≡ ok o.cfg
    pub logging : new_resource o.cfg.logging calls.log_file ≡ (ok o.resource, [])
    pub alerts : new_alerts_writer o.cfg.logging calls.alerts_file ≡ ok o.alerts_writer
    pub sockets : new_udp net o.cfg.forwarders ≡ (ok o.forwarder, [])
    pub decoder : new_decoder gosnmp o.cfg ≡ ok o.decoder

  -- The engine and the variables have the parts that have been opened.
  pub record Adopts (o : Next) (t : State) : Type 0 where
    pub cfg : t.engine.cfg ≡ o.cfg
    pub forwarder : (t.engine.forwarder ≡ o.forwarder) × (t.forwarder ≡ o.forwarder)
    pub decoder : t.engine.decoder ≡ o.decoder
    pub logger : (t.engine.logger ≡ o.resource.logger) × (t.logger ≡ o.resource.logger)
    pub alerts_writer :
        (t.engine.alerts_writer ≡ o.alerts_writer) × (t.alerts_writer ≡ o.alerts_writer)
    pub logger_closer : t.logger_closer ≡ o.resource.closer
    pub metrics_cfg : t.metrics_cfg ≡ o.cfg.metrics

  -- The handles that a reload has when it gives up, by where it stops: none; the log file, that NewResource
  -- closes itself or that is in use until SetMemoryLimit or the alerts file fails; the files with the
  -- connections that NewUDP has been given before it fails, or with all of the connections.
  pub data Obtained (calls : Calls) : List ℕ → Type 0 where
    at_load : {e : Error} → load calls.decoded ≡ err e → Obtained calls []
    at_logging :
        {cfg : AppConfig} {e : Error} {dropped : List ℕ}
        → load calls.decoded ≡ ok cfg
        → new_resource cfg.logging calls.log_file ≡ (err e, dropped)
        → Obtained calls (file_opened cfg.logging.file calls.log_file)
    at_runtime :
        {cfg : AppConfig} {resource : Resource} {e : Error}
        → load calls.decoded ≡ ok cfg
        → new_resource cfg.logging calls.log_file ≡ (ok resource, [])
        → apply_runtime_config cfg ≡ err e
        → Obtained calls (to_list resource.closer)
    at_alerts :
        {cfg : AppConfig} {resource : Resource} {e : Error}
        → load calls.decoded ≡ ok cfg
        → new_resource cfg.logging calls.log_file ≡ (ok resource, [])
        → new_alerts_writer cfg.logging calls.alerts_file ≡ err e
        → Obtained calls (to_list resource.closer)
    at_sockets :
        {cfg : AppConfig} {resource : Resource} {alerts : Option ℕ} {e : Error} {dropped : List ℕ}
        → load calls.decoded ≡ ok cfg
        → new_resource cfg.logging calls.log_file ≡ (ok resource, [])
        → new_alerts_writer cfg.logging calls.alerts_file ≡ ok alerts
        → new_udp net cfg.forwarders ≡ (err e, dropped)
        → Obtained calls
            (dialled net 0 cfg.forwarders ++ (to_list alerts ++ to_list resource.closer))
    at_connections :
        {cfg : AppConfig} {resource : Resource} {alerts : Option ℕ} {sockets : List (Socket net)}
        → load calls.decoded ≡ ok cfg
        → new_resource cfg.logging calls.log_file ≡ (ok resource, [])
        → new_alerts_writer cfg.logging calls.alerts_file ≡ ok alerts
        → new_udp net cfg.forwarders ≡ (ok sockets, [])
        → Obtained calls (conns net sockets ++ (to_list alerts ++ to_list resource.closer))

  -- The ways out of a reload.
  pub data Ends (calls : Calls) (s : State) : Ending gosnmp net handle → Type 0 where
    crashes : Ends calls s (err panicked)
    keeps :
        {t : State} {m : Message} (before handles : List ℕ)
        → is_reloaded m ≡ false
        → Keeps s t
        → Obtained calls handles
        → t.closed ≡ before ++ handles
        → Ends calls s (ok (t, m))
    reloads :
        {t : State} (o : Next) (before behind : List ℕ)
        → IsNext calls o
        → Adopts o t
        → t.closed
          ≡ before
            ++ (to_list s.logger_closer
                ++ (to_list s.alerts_writer ++ (conns net s.forwarder ++ behind)))
        → Ends calls s (ok (t, config_reloaded))
