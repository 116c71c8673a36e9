-- ===== src/Receiver.antt =====
-- internal/receiver/decoder.go: the decoder of datagrams, on top of the library gosnmp and, where that
-- refuses a datagram, of the parser of internal/snmp. The lock around its two fields is not modelled.
pub mod Protocols
pub mod Events
pub mod Users
pub mod Packets
unfoldable pub use Protocols.*
unfoldable pub use Events.*
use snmptrap_relay.Dict
use snmptrap_relay.Model.{TrapEvent, VarBind, AppConfig, SnmpV3UserConfig}
use snmptrap_relay.Oid.{normalize, lookup}
use snmptrap_relay.Prelude.Int.{ℤ, pos, negsuc}
use snmptrap_relay.Prelude.{
  ℕ, Bool, true, false, List, [], ◌∷◌, ◌++◌, Option, none, some, ◌==◌, if◌then◌else◌,
}
use snmptrap_relay.Result.{
  Result, ok, err, ◌>>=◌, no_user_name, unsupported_auth, unsupported_priv, panicked,
}
use snmptrap_relay.Snmp
use snmptrap_relay.Text.Number.{int_text, nat_text, hex_text}
use snmptrap_relay.Text.Space.{trim_space}
use snmptrap_relay.Text.Utf8.{valid}
use snmptrap_relay.Text.{Text, text_eq, lit, is_empty, same, to_lower}

-- What the decoder calls of gosnmp: the security table and its Add, UnmarshalTrap with the table of a
-- session (none for an error and for a nil packet), and the numbers of two versions.
pub record Gosnmp : Type 1 where
  pub Table : Type 0
  pub new_table : Table
  pub add : Text → Usm → Table → Result Table
  pub unmarshal_trap : Option Table → List ℕ → Option Packet
  pub version1 : ℕ
  pub version3 : ℕ

module _ (gosnmp : Gosnmp) where
  -- buildFields
  unfoldable pub build_fields : TrapEvent → List (Text × Text) → Packet → List (Text × Text)
  unfolding event_fields add_fields Dict.put
  build_fields event aliases packet = add_fields aliases event.varbinds (
      if packet.version == gosnmp.version3
      then Dict.put (lit "snmp_version") (lit "v3") (event_fields event)
      else event_fields event)

  -- packetToEvent up to the fields of the event
  unfoldable pub packet_event : ℤ → Packet → List ℕ → Text → ℤ → TrapEvent
  unfolding base_event version1_event with_variables version2_event
  packet_event now packet raw source_ip source_port =
      let event = base_event now packet raw source_ip source_port in
      if packet.version == gosnmp.version1
      then with_variables packet (version1_event packet event)
      else version2_event (with_variables packet event)

  -- packetToEvent
  unfoldable pub packet_to_event : ℤ → Packet → List ℕ → Text → ℤ → List (Text × Text) → TrapEvent
  unfolding packet_event build_fields
  packet_to_event now packet raw source_ip source_port aliases =
      let event = packet_event now packet raw source_ip source_port in
      record event { fields = build_fields event aliases packet }

  -- GosnmpDecoder: the table of its session g, which is nil in the zero value, and its configuration
  pub record Decoder : Type 0 where
    pub g : Option (Option gosnmp.Table)
    pub cfg : Option AppConfig

  -- The loop of Reload over the users.
  unfoldable pub add_users : List SnmpV3UserConfig → gosnmp.Table → Result gosnmp.Table
  unfolding build_usm
  add_users [] table = ok table
  add_users (user ∷ users) table = do
    sec ← build_usm user
    next ← gosnmp.add user.user_name sec table
    add_users users next

  unfoldable pub security_table : List SnmpV3UserConfig → Result (Option gosnmp.Table)
  unfolding add_users
  security_table [] = ok none
  security_table (user ∷ users) = do
    table ← add_users (user ∷ users) gosnmp.new_table
    ok (some table)

  -- Reload, with its error; it changes the decoder at its end only
  unfoldable pub reload : AppConfig → Decoder → Result (Unit {0}) × Decoder
  unfolding security_table
  reload cfg d = elim (security_table cfg.receiver.v3_users) [
    | err e ↦ (err e, d)
    | ok table ↦ (ok tt, record { g = some table; cfg = some cfg })
  ]

  -- New
  unfoldable pub new_decoder : AppConfig → Result Decoder
  unfolding reload
  new_decoder cfg =
      let (result, d) = reload cfg (record { g = none; cfg = none }) in result >>= λ _. ok d

  -- Decode; the fields of a nil configuration panic
  unfoldable pub decode : Snmp.Library → ℤ → Decoder → List ℕ → Text → ℤ → Result TrapEvent
  unfolding packet_to_event Snmp.parse_trap
  decode lib now d bytes source_ip source_port = elim d.cfg [
    | none ↦ err panicked
    | some cfg ↦
        let parsed = Snmp.parse_trap lib now bytes source_ip source_port cfg.field_aliases in
        elim d.g [
          | none ↦ parsed
          | some table ↦ elim (gosnmp.unmarshal_trap table bytes) [
            | none ↦ parsed
            | some packet ↦
                ok (packet_to_event now packet bytes source_ip source_port cfg.field_aliases)
          ]
        ]
  ]
