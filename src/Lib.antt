-- ===== src/Lib.antt =====
-- The SNMP trap relay. It receives SNMP traps over UDP, drops or keeps them by filter rules,
-- suppresses the repeats of an alarm, and forwards the rest unchanged.
--
-- Parts. The server (internal/server/server.go) reads datagrams into a queue; its workers have
-- each parsed (internal/receiver, internal/snmp, internal/ber) and handled by the engine. The
-- engine (internal/engine/engine.go) asks the matcher (internal/match/match.go) whether a rule
-- holds of a trap and for its deduplication key, keeps one state per rule and key in the
-- deduplication store (internal/dedup/store.go), and sends through a forwarder
-- (internal/forward/udp.go).
--
-- Files.
--   Model, Model/Value, Model/Summary, Model/Document: internal/model/types.go; the records keep the
--     source's fields in snake_case, Model.Value is what an `any` of a decoded YAML document can be.
--   Dedup: internal/dedup/store.go; a Store is its map and its limit, and each method (NewStore, Get,
--     Put, Touch, Clear, Cleanup, evictOldestLocked) is a function of its name on it. Dedup/Cleanup,
--     Dedup/Oldest, Dedup/Invariant, Dedup/Steps, Dedup/Window and Dedup/Refinement hold its lemmas.
--   Oid: internal/oidutil/oidutil.go (Normalize, Lookup, Variants); lemmas in Oid/Forms.
--   Match: internal/match/match.go (ResolveField, Matches, BuildDedupKey and what they call);
--     Match/Json is the JSON text of a key, Match/Std what is taken from Go's library; lemmas in
--     Match/Logic, Match/Flat, Match/Reads, Match/Key, Match/Faults, Match/Json/Strings, Match/Json/Objects and
--     Match/Distinct.
--   Engine: internal/engine/engine.go (HandleEvent, forwardPassThrough, Cleanup); Engine/State holds
--     the runtime state, the alert lines and Parse, Engine/Rules evaluateFilters and matchAlarm,
--     Engine/Clearing applyAlarmClearRules and what it calls, Engine/Logged what log lines tell of a rule;
--     lemmas in Engine/Keeps, Engine/Branches, Engine/Accounts, Engine/Reasons, Engine/Errors,
--     Engine/Suppression and Engine/Order.
--   Forward: internal/forward/udp.go; Send and Close, and in Forward/Sockets NewUDP. Lemmas in
--     Forward/Targets, Forward/Sockets/Opened and Forward/Sockets/Dialled.
--   Config: internal/config/config.go; Load, applyDefaults and validate, with ParseMemoryLimit of
--     internal/config/memory_limit.go in Config/MemoryLimit. Lemmas in Config/Validated.
--   Ber: internal/ber/ber.go; the reader and the texts of values. Lemmas in Ber/Elements, Ber/Arcs and
--     Ber/Texts. Ber/Reader is Reader with its position, with lemmas in Ber/Reader/Unread.
--   Server: internal/server/server.go; the counters, processPacket and MetricsSnapshot, with the state
--     of Run and its workers; Server/Steps is what they can do, one step at a time, Server/Open is New
--     and logStats. Lemmas in Server/Acts, Server/Counters, Server/Queue, Server/Totals, Server/Shutdown,
--     Server/Liveness and Server/Open/Stats.
--   Snmp: internal/snmp/parser.go; ParseTrap and what it calls, with buildFields in
--     Snmp/Fields. Lemmas in Snmp/Loop and Snmp/Texts.
--   Receiver: internal/receiver/decoder.go; the decoder on top of gosnmp, its users and the conversion
--     of a packet, in Receiver/Protocols and Receiver/Events. Lemmas in Receiver/Users and
--     Receiver/Packets.
--   Logging, Metrics: internal/logging/logging.go and internal/metrics/server.go; the files of the logs,
--     and the endpoint of the metrics with its patterns; Metrics/Registry is registerStats, with lemmas in
--     Metrics/Registry/Scrape, and Metrics/Serving is Addr, Close and the goroutine that serves.
--   Relay: cmd/snmptrap-relay/main.go; a reload, with what it opens and closes, and in Relay/Start the way
--     from the flags to the loop, and in Relay/Loop the loop beside the server. Lemmas in Relay/Ends, on
--     the ways out in Relay/Ways, Relay/Leaks, Relay/Leaks/Bounds, Relay/Leaks/Runs, Relay/Endpoints,
--     Relay/Start/Checked and Relay/Loop/Ended.
--   Perf: cmd/snmptrap-relay-perf/main.go; Perf/Encode is its encoder, Perf/Load its rates, profiles and
--     payloads, Perf/Sending the workers of a step, Perf/Profile the configuration of main, Perf/Run main,
--     and Perf/Output its output. Lemmas in Perf/Run/Finished, Perf/Load/Made, Perf/Load/Pools,
--     Perf/Load/Events, Perf/Sending/Ended, Perf/Sending/Rate, Perf/Profile/Fields,
--     Perf/Profile/Handled, Perf/Profile/Cycle, Perf/Profile/Datagrams, Perf/Elements, Perf/Integers and
--     Perf/Traps.
--   Prelude, Dict, Text, Result: numbers and lists, Go's maps, Go's strings, and (value, error).
--   Tests: concrete runs, one for each theorem that has conditions.
--
-- How Go is read. A string is its list of bytes; ToLower and ToUpper are modelled on ASCII. An
-- int or int64 is an integer, with `wrap64` written where the source computes one. A time is its
-- nanoseconds since a fixed origin. A map is an association list whose order stands for the order
-- of a range. A pointer that can be nil is an Option. The engine's mutable world (the store, the
-- event's AlertsLogged, what was sent, written and logged) is a Scene that each function takes
-- and returns; of a log line its level, message and rule are kept. A Gap says what other workers
-- do to the store between one worker's Get and Touch, and before its Put; what they do between
-- the clear rules and the Get is the store that the handler meets.
--
-- Parameters. Regular expressions, strconv.ParseFloat and SHA-256 are the fields of a Platform;
-- what Send returns for a payload, the decoder and the time on an alert line are fields of a
-- Runtime; net.IP.String and (*big.Int).Int64 are fields of a Snmp.Library, gosnmp is a Gosnmp,
-- and package net a Network. What one reload or one start gets from files and listeners is a
-- Calls; a handle of the system is a number, and closing it puts it into a list.
--
-- In Server/Steps a step is one atomic operation, one communication, one log line or one call of
-- the engine, with any Gap that consists of calls of the store's methods; the decoder, the
-- forwarder and the configuration may differ from step to step, as after a reload. The queue size
-- is positive, as the configuration requires.
--
-- Functions are structural recursion on their input, but for these loops. The loop of
-- decodeVarBinds runs on as much fuel as its list has bytes, and each round reads two bytes at
-- least; with less it would return an error of its own, which ParseTrap never does (Snmp/Loop).
-- The loops of the encoder on a number run on the number itself, which each round divides by 128
-- or 256. The inner loop of a sending worker runs on the number of datagrams of a tick, of which
-- each round passes four. digits_onto of Text/Number runs likewise on one more than its number.
--
-- Not modelled. The texts of errors, the decoding of YAML and of flags, the sockets of the
-- server, and the delivery of signals: these are input and output, or calls of libraries. The
-- attributes of other log lines than server_stats and those of dedupLogFields are texts that
-- nothing reads.
pub mod Ber
pub mod Config
pub mod Dedup
pub mod Dict
pub mod Engine
pub mod Forward
pub mod Logging
pub mod Match
pub mod Metrics
pub mod Model
pub mod Oid
pub mod Perf
pub mod Prelude
pub mod Receiver
pub mod Relay
pub mod Result
pub mod Server
pub mod Snmp
pub mod Tests
pub mod Text
