-- ===== src/Receiver/Events.antt =====
-- internal/receiver/decoder.go: the event of a packet, as far as it does not depend on the library.
use snmptrap_relay.Dict
use snmptrap_relay.Model.{TrapEvent, VarBind}
use snmptrap_relay.Oid.{normalize, lookup}
use snmptrap_relay.Prelude.Int.{ℤ, pos, negsuc}
use snmptrap_relay.Prelude.{ℕ, false, List, [], ◌∷◌, ◌++◌, Option, none, some, ◌==◌, if◌then◌else◌}
use snmptrap_relay.Snmp
use snmptrap_relay.Text.Number.{int_text, nat_text, hex_text}
use snmptrap_relay.Text.Utf8.{valid}
use snmptrap_relay.Text.{Text, text_eq, lit, is_empty}

-- The dynamic type of a value, with the text that fmt.Stringer's String or fmt.Sprint gives. A net.IP
-- has String, so its own case in the source is never reached.
pub data PduValue : Type 0 where
  nil_value : PduValue
  bytes_value : List ℕ → PduValue
  string_value : Text → PduValue
  stringer_value : Text → PduValue
  printed_value : Text → PduValue

-- What the source reads of gosnmp.SnmpPDU, its type as the text that String gives.
pub record Pdu : Type 0 where
  pub name : Text
  pub type_text : Text
  pub value : PduValue

-- What the source reads of gosnmp.SnmpPacket, the type of its PDU as the text that String gives.
pub record Packet : Type 0 where
  pub version : ℕ
  pub community : Text
  pub pdu_type : Text
  pub enterprise : Text
  pub agent_address : Text
  pub generic_trap : ℤ
  pub specific_trap : ℤ
  pub timestamp : ℕ
  pub variables : List Pdu

-- pduValueToString
unfoldable pub pdu_text : PduValue → Text
unfolding valid hex_text
pdu_text nil_value = []
pdu_text (bytes_value v) = if valid v then v else lit "0x" ++ hex_text v
pdu_text (string_value v) = v
pdu_text (stringer_value v) = v
pdu_text (printed_value v) = v

-- genericTrapName
unfoldable pub generic_trap_name : ℤ → Text
unfolding int_text
generic_trap_name (negsuc n) = int_text (negsuc n)
generic_trap_name (pos n) =
    if n == 0
    then lit "coldStart"
    else if n == 1
    then lit "warmStart"
    else if n == 2
    then lit "linkDown"
    else if n == 3
    then lit "linkUp"
    else if n == 4
    then lit "authenticationFailure"
    else if n == 5
    then lit "egpNeighborLoss"
    else if n == 6
    then lit "enterpriseSpecific"
    else int_text (pos n)

-- firstNonEmpty, of two values
unfoldable pub first_non_empty : Text → Text → Text
first_non_empty first second = if is_empty first then second else first

-- lookupAlias
unfoldable pub lookup_alias : List (Text × Text) → Text → Option Text
unfolding lookup
lookup_alias aliases oid = elim (lookup aliases oid) [
  | none ↦ none
  | some alias ↦ if is_empty alias then none else some alias
]

-- A variable binding of a packet.
unfoldable pub to_varbind : Pdu → VarBind
unfolding pdu_text normalize
to_varbind pdu = record {
  oid = normalize pdu.name;
  type_name = pdu.type_text;
  value = pdu_text pdu.value;
}

-- The loop over the variables of a packet, from the bindings and the map so far.
unfoldable pub add_variables :
    List Pdu → List VarBind → List (Text × Text) → List VarBind × List (Text × Text)
unfolding to_varbind Dict.put
add_variables [] vbs m = (vbs, m)
add_variables (pdu ∷ pdus) vbs m =
    let vb = to_varbind pdu in add_variables pdus (vbs ++ (vb ∷ [])) (Dict.put vb.oid vb.value m)

-- The last loop of buildFields.
unfoldable pub add_fields :
    List (Text × Text) → List VarBind → List (Text × Text) → List (Text × Text)
unfolding normalize lookup_alias Dict.put
add_fields aliases [] fields = fields
add_fields aliases (vb ∷ vbs) fields =
    let oid = normalize vb.oid in
    let named = Dict.put (lit "varbind." ++ oid) vb.value fields in
    add_fields aliases vbs (elim (lookup_alias aliases oid) [
      | none ↦ named
      | some alias ↦ Dict.put (lit "fields." ++ alias) vb.value (Dict.put alias vb.value named)
    ])

-- `if value != "" { fields[name] = value }`
unfoldable pub add_text : Text → Text → List (Text × Text) → List (Text × Text)
unfolding Dict.put
add_text name value fields = if is_empty value then fields else Dict.put name value fields

-- buildFields before its loop, without "snmp_version"
unfoldable pub event_fields : TrapEvent → List (Text × Text)
unfolding add_text normalize int_text Dict.put
event_fields event =
    let basic =
      (lit "source_ip", event.source_ip)
      ∷ (lit "source_port", int_text event.source_port)
      ∷ (lit "version", int_text event.version)
      ∷ (lit "community", event.community)
      ∷ (lit "pdu_type", event.pdu_type)
      ∷ [] in
    let named = add_text (lit "uptime") event.uptime (
      add_text (lit "specific_trap") event.specific_trap (
        add_text (lit "generic_trap_name") event.generic_trap_name (
          add_text (lit "generic_trap") event.generic_trap (
            add_text (lit "agent_address") event.agent_address
              (add_text (lit "enterprise_oid") event.enterprise_oid basic))))) in
    if is_empty event.trap_oid
    then named
    else Dict.put (lit "trap_oid") (normalize event.trap_oid) named

-- The event of a packet before its version is looked at; `now` is time.Now().UTC().
unfoldable pub base_event : ℤ → Packet → List ℕ → Text → ℤ → TrapEvent
base_event now packet raw source_ip source_port = record {
  received_at = now;
  source_ip = source_ip;
  source_port = source_port;
  raw_bytes = raw;
  version = pos packet.version;
  community = packet.community;
  pdu_type = packet.pdu_type;
  enterprise_oid = [];
  agent_address = [];
  generic_trap = [];
  generic_trap_name = [];
  specific_trap = [];
  uptime = [];
  request_id = pos 0;
  error_status = pos 0;
  error_index = pos 0;
  trap_oid = [];
  varbinds = [];
  raw_varbind_map = [];
  fields = [];
  alerts_logged = false;
}

-- The branch of packetToEvent for a packet of version 1.
unfoldable pub version1_event : Packet → TrapEvent → TrapEvent
unfolding generic_trap_name int_text nat_text
version1_event packet event = record event {
  enterprise_oid = packet.enterprise;
  agent_address = packet.agent_address;
  generic_trap = int_text packet.generic_trap;
  generic_trap_name = generic_trap_name packet.generic_trap;
  specific_trap = int_text packet.specific_trap;
  uptime = nat_text packet.timestamp;
  trap_oid =
      lit "v1:"
      ++ (packet.enterprise
          ++ (lit ":"
              ++ (int_text packet.generic_trap ++ (lit ":" ++ int_text packet.specific_trap))));
}

-- A well-known variable in the map of the bindings, dotted or not, normalized.
unfoldable pub variable_at : Text → List (Text × Text) → Text
unfolding Snmp.text_at first_non_empty normalize
variable_at oid m =
    normalize (first_non_empty (Snmp.text_at oid m) (Snmp.text_at (lit "." ++ oid) m))

-- The loop over the variables, on an event.
unfoldable pub with_variables : Packet → TrapEvent → TrapEvent
unfolding add_variables
with_variables packet event =
    let (vbs, m) = add_variables packet.variables event.varbinds event.raw_varbind_map in
    record event { varbinds = vbs; raw_varbind_map = m }

-- The branch of packetToEvent for a packet of another version.
unfoldable pub version2_event : TrapEvent → TrapEvent
unfolding variable_at
version2_event event = record event {
  trap_oid = variable_at (lit "1.3.6.1.6.3.1.1.4.1.0") event.raw_varbind_map;
  uptime = variable_at (lit "1.3.6.1.2.1.1.3.0") event.raw_varbind_map;
}
