-- ===== src/Tests/Receiver.antt =====
-- The decoder of the relay and the parser of internal/snmp at work.
use snmptrap_relay.Ber.{
  decode_oid, oid_loop, next_value, decode_value, universal_value, decode_tag_class,
  decode_tag_number,
}
use snmptrap_relay.Model.{AppConfig, SnmpV3UserConfig, TrapEvent, VarBind}
use snmptrap_relay.Prelude.Int.{pos, bits64, wrap64, ◌+ℤ◌, scale}
use snmptrap_relay.Prelude.{
  ℕ, ◌≡◌, ◌≢◌, ◌⊎◌, refl, true, List, [], ◌∷◌, Option, none, some, map, All, arith,
}
use snmptrap_relay.Receiver.Users.{IsTable, reload_cases, decode-ne-panicked}
use snmptrap_relay.Receiver.{Packet, Decoder, reload, new_decoder, decode, string_value}
use snmptrap_relay.Result.{Result, Error, ok, err, out_of_fuel, panicked}
use snmptrap_relay.Snmp.Loop.{parse_trap-ne-out_of_fuel}
use snmptrap_relay.Snmp.Texts.{HasText, parse_trap-HasText}
use snmptrap_relay.Snmp.{Library, parse_trap}
use snmptrap_relay.Tests.Relay.{gosnmp}
use snmptrap_relay.Model.Summary.{summary}
use snmptrap_relay.Tests.{config, trap, link_up}
use snmptrap_relay.Text.Number.{hex_text}
use snmptrap_relay.Text.Utf8.{valid, valid_from, rune_width}
use snmptrap_relay.Text.{Text, lit}

abbrev pub library : Library
library = record { ip_text = λ bytes. []; low_int64 = λ z. z }

no_ip : valid [] ≡ true
unfolding valid valid_from
no_ip = refl

-- A sequence that is cut off.
abbrev cut_off : List ℕ
cut_off = 0x30 ∷ 0x03 ∷ 0x02 ∷ 0x01 ∷ []

parse_trap-ne-out_of_fuel_example :
    parse_trap library (pos 0) cut_off (lit "10.0.0.1") (pos 50000) [] ≢ err out_of_fuel
parse_trap-ne-out_of_fuel_example =
    parse_trap-ne-out_of_fuel library (pos 0) cut_off (lit "10.0.0.1") (pos 50000) []

abbrev user : SnmpV3UserConfig
user = record {
  user_name = lit "nms";
  authentication_protocol = lit "sha";
  authentication_passphrase = lit "secret";
  privacy_protocol = lit "aes";
  privacy_passphrase = lit "secret";
}

abbrev with_user : AppConfig
with_user = record (config [] []) { receiver = record { v3_users = user ∷ [] } }

abbrev bare : Decoder gosnmp
bare = record { g = none; cfg = none }

reload_cases_example :
    ((e : Error) × (reload gosnmp with_user bare ≡ (err e, bare)))
    ⊎ ((table : Option (List Text)) × (reload gosnmp with_user bare
          ≡ (ok tt, record { g = some table; cfg = some with_user }))
        × IsTable gosnmp with_user.receiver.v3_users table)
reload_cases_example = reload_cases gosnmp with_user bare

-- The decoder of a configuration without users.
abbrev made : Decoder gosnmp
made = record { g = some none; cfg = some (config [] []) }

decode-ne-panicked_example :
    (decode gosnmp library (pos 0) made cut_off (lit "10.0.0.1") (pos 50000) ≢ err panicked)
    × (decode gosnmp library (pos 0) made cut_off (lit "10.0.0.1") (pos 50000) ≢ err out_of_fuel)
unfolding new_decoder
decode-ne-panicked_example =
    decode-ne-panicked gosnmp library (pos 0) (config [] []) made cut_off (lit "10.0.0.1")
      (pos 50000) refl

-- A packet of version 2c with one variable.
abbrev packet : Packet
packet = record {
  version = 1;
  community = lit "public";
  pdu_type = lit "SNMPv2Trap";
  enterprise = [];
  agent_address = [];
  generic_trap = pos 0;
  specific_trap = pos 0;
  timestamp = 0;
  variables =
      record {
        name = lit ".1.3.6.1.6.3.1.1.4.1.0";
        type_text = lit "ObjectIdentifier";
        value = string_value (lit ".1.3.6.1.6.3.1.1.5.3");
      }
      ∷ [];
}

-- A short event on one line.
linkup_summary :
    summary (record (trap link_up (pos 0)) { specific_trap = lit "0" })
    ≡ lit "src=10.0.0.1:50000 version=1 trap_oid=1.3.6.1.6.3.1.1.5.4 specific=0"
unfolding summary lit
linkup_summary = refl

-- A trap of version 2c with one binding, a string that is not UTF-8.
abbrev datagram : List ℕ
datagram =
    0x30 ∷ 0x1c ∷ 0x02 ∷ 0x01 ∷ 0x01 ∷ 0x04 ∷ 0x01 ∷ 0x70 ∷ 0xa7 ∷ 0x14 ∷ 0x02 ∷ 0x01 ∷ 0x01 ∷ 0x02
    ∷ 0x01 ∷ 0x00 ∷ 0x02 ∷ 0x01 ∷ 0x00 ∷ 0x30 ∷ 0x09 ∷ 0x30 ∷ 0x07 ∷ 0x06 ∷ 0x02 ∷ 0x2b ∷ 0x06
    ∷ 0x04 ∷ 0x01 ∷ 0xff ∷ []

abbrev event_of : Result TrapEvent → TrapEvent
event_of (ok event) = event
event_of (err e) = trap link_up (pos 0)

abbrev read : TrapEvent
read = event_of (parse_trap library (pos 0) datagram (lit "10.0.0.1") (pos 50000) [])

-- What the parser computes with.
program : Unit {0}
unfolding hex_text parse_trap lit decode_oid oid_loop next_value decode_value universal_value
    decode_tag_class decode_tag_number bits64 wrap64 ◌+ℤ◌ scale valid valid_from rune_width
program = tt

datagram_parses : parse_trap library (pos 0) datagram (lit "10.0.0.1") (pos 50000) [] ≡ ok read
unfolding program
datagram_parses = refl

hexed_value : map (λ (vb : VarBind). vb.value) read.varbinds ≡ lit "0xff" ∷ []
unfolding program
hexed_value = refl

parse_trap-HasText_example : All HasText read.varbinds
parse_trap-HasText_example =
    parse_trap-HasText library (λ bs bytes. no_ip) (pos 0) datagram (lit "10.0.0.1") (pos 50000) []
      read (omega arith) datagram_parses
