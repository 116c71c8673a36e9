-- ===== src/Perf/Load/Events.antt =====
-- cmd/snmptrap-relay-perf/main.go, buildTrapPayload: what the relay reads of a payload of the load
-- generator.
use snmptrap_relay.Ber.{
  decode_oid, decode_value, decode_signed, decode_unsigned, decode_tag_class, decode_tag_number,
  universal_value, application_value, first_arcs, oid_loop, next_value,
}
use snmptrap_relay.Model.{VarBind}
use snmptrap_relay.Oid.{normalize}
use snmptrap_relay.Perf.Encode.{tlv, encode_oid, enc_oid}
use snmptrap_relay.Perf.Integers.{encode_integer_bytes_pos}
use snmptrap_relay.Perf.Load.{
  build_trap_payload, device_id_oid, if_index_oid, alarm_trap_oid, clear_trap_oid,
}
use snmptrap_relay.Perf.Traps.{IsRead, AllRead, no_binds, more_binds}
use snmptrap_relay.Prelude.Int.{ℤ, pos, bits64, wrap64, ◌+ℤ◌, scale}
use snmptrap_relay.Prelude.{ℕ, ◌≡◌, refl, ap, sym, List, [], ◌∷◌, ◌<◌, ◌^◌, true, length}
use snmptrap_relay.Result.{ok}
use snmptrap_relay.Snmp.{
  Library, sys_up_time_oid, snmp_trap_oid, parse_trap, build_fields, new_event,
}
use snmptrap_relay.Perf.Traps.Whole.{v2_event, parse_trap-build_v2_trap}
use snmptrap_relay.Text.Number.{nat_text, int_text}
use snmptrap_relay.Text.Utf8.{valid}
use snmptrap_relay.Text.{Text, lit}

-- An identifier that is written and read back as it is.
pub record IsPlainOid (oid : Text) : Type 0 where
  pub bytes : List ℕ
  pub encoded : encode_oid oid ≡ ok bytes
  pub decoded : decode_oid bytes ≡ ok oid
  pub normal : normalize oid ≡ oid

-- The identifiers of the load generator.
up_time-IsPlainOid : IsPlainOid sys_up_time_oid
unfolding encode_oid decode_oid normalize lit bits64 wrap64 ◌+ℤ◌ scale oid_loop first_arcs
    next_value
up_time-IsPlainOid = record {
  bytes = 43 ∷ 6 ∷ 1 ∷ 2 ∷ 1 ∷ 1 ∷ 3 ∷ 0 ∷ [];
  encoded = refl;
  decoded = refl;
  normal = refl;
}

trap_oid-IsPlainOid : IsPlainOid snmp_trap_oid
unfolding encode_oid decode_oid normalize lit bits64 wrap64 ◌+ℤ◌ scale oid_loop first_arcs
    next_value
trap_oid-IsPlainOid = record {
  bytes = 43 ∷ 6 ∷ 1 ∷ 6 ∷ 3 ∷ 1 ∷ 1 ∷ 4 ∷ 1 ∷ 0 ∷ [];
  encoded = refl;
  decoded = refl;
  normal = refl;
}

device_id-IsPlainOid : IsPlainOid device_id_oid
unfolding encode_oid decode_oid normalize lit bits64 wrap64 ◌+ℤ◌ scale oid_loop first_arcs
    next_value
device_id-IsPlainOid = record {
  bytes = 43 ∷ 6 ∷ 1 ∷ 4 ∷ 1 ∷ 206 ∷ 15 ∷ 1 ∷ 1 ∷ [];
  encoded = refl;
  decoded = refl;
  normal = refl;
}

if_index-IsPlainOid : IsPlainOid if_index_oid
unfolding encode_oid decode_oid normalize lit bits64 wrap64 ◌+ℤ◌ scale oid_loop first_arcs
    next_value
if_index-IsPlainOid = record {
  bytes = 43 ∷ 6 ∷ 1 ∷ 4 ∷ 1 ∷ 206 ∷ 15 ∷ 1 ∷ 2 ∷ [];
  encoded = refl;
  decoded = refl;
  normal = refl;
}

pub alarm-IsPlainOid : IsPlainOid alarm_trap_oid
unfolding encode_oid decode_oid normalize lit bits64 wrap64 ◌+ℤ◌ scale oid_loop first_arcs
    next_value
alarm-IsPlainOid = record {
  bytes = 43 ∷ 6 ∷ 1 ∷ 4 ∷ 1 ∷ 206 ∷ 15 ∷ 0 ∷ 10 ∷ [];
  encoded = refl;
  decoded = refl;
  normal = refl;
}

pub clear-IsPlainOid : IsPlainOid clear_trap_oid
unfolding encode_oid decode_oid normalize lit bits64 wrap64 ◌+ℤ◌ scale oid_loop first_arcs
    next_value
clear-IsPlainOid = record {
  bytes = 43 ∷ 6 ∷ 1 ∷ 4 ∷ 1 ∷ 206 ∷ 15 ∷ 0 ∷ 11 ∷ [];
  encoded = refl;
  decoded = refl;
  normal = refl;
}

-- The variable bindings of a trap of the load generator.
abbrev pub trap_varbinds : Text → Text → ℕ → ℕ → List VarBind
trap_varbinds trap_oid device index uptime =
    record { oid = sys_up_time_oid; type_name = lit "TIMETICKS"; value = nat_text uptime }
    ∷ record { oid = snmp_trap_oid; type_name = lit "OBJECT IDENTIFIER"; value = trap_oid }
    ∷ record { oid = device_id_oid; type_name = lit "OCTET STRING"; value = device }
    ∷ record { oid = if_index_oid; type_name = lit "INTEGER"; value = int_text (pos index) }
    ∷ []

module _ (lib : Library) where
  -- A binding with an identifier that is read back and an element that is read.
  bind-IsRead :
      (oid : Text) (tag : ℕ) (content : List ℕ) (type_name value : Text)
      → IsPlainOid oid
      → decode_value lib.ip_text (record { tag = tag; length = length content; value = content })
        ≡ ok (type_name, value)
      → IsRead lib
          (record { oid = oid; value = tlv tag content })
          (record { oid = oid; type_name = type_name; value = value })
  bind-IsRead oid tag content type_name value plain h = record {
    oid_bytes = plain.bytes;
    oid = oid;
    tag = tag;
    content = content;
    encoded = plain.encoded;
    decoded = plain.decoded;
    value = refl;
    read_value = h;
    read_oid = sym plain.normal;
  }

  read_ticks :
      (n : ℕ) (bytes : List ℕ)
      → decode_unsigned bytes ≡ n
      → decode_value lib.ip_text (record { tag = 0x43; length = length bytes; value = bytes })
        ≡ ok (lit "TIMETICKS", nat_text n)
  unfolding decode_value application_value decode_tag_class decode_tag_number
  read_ticks n bytes h = ap (λ k. ok (lit "TIMETICKS", nat_text k)) h

  read_integer :
      (n : ℕ) (bytes : List ℕ)
      → decode_signed bytes ≡ pos n
      → decode_value lib.ip_text (record { tag = 0x02; length = length bytes; value = bytes })
        ≡ ok (lit "INTEGER", int_text (pos n))
  unfolding decode_value universal_value decode_tag_class decode_tag_number
  read_integer n bytes h = ap (λ k. ok (lit "INTEGER", int_text k)) h

  read_string :
      (s : Text)
      → valid s ≡ true
      → decode_value lib.ip_text (record { tag = 0x04; length = length s; value = s })
        ≡ ok (lit "OCTET STRING", s)
  unfolding decode_value universal_value decode_tag_class decode_tag_number
  read_string s h = rw h refl

  read_oid :
      (oid : Text) (bytes : List ℕ)
      → decode_oid bytes ≡ ok oid
      → decode_value lib.ip_text (record { tag = 0x06; length = length bytes; value = bytes })
        ≡ ok (lit "OBJECT IDENTIFIER", oid)
  unfolding decode_value universal_value decode_tag_class decode_tag_number
  read_oid oid bytes h = rw h refl

  -- The relay reads the traps of the load generator: for a trap OID that is read back, a device whose
  -- name is UTF-8, an index and an uptime that are not negative, buildTrapPayload makes a datagram, and
  -- if that has less than 2^32 bytes, ParseTrap reads it as a trap with the community "public" and the
  -- four bindings uptime, trap OID, device and index, with these values in decimal or as text.
  pub build_trap_payload-parse_trap :
      (now : ℤ) (source_ip : Text) (source_port : ℤ) (aliases : List (Text × Text))
      (trap_oid device : Text) (index uptime : ℕ)
      → IsPlainOid trap_oid
      → valid device ≡ true
      → (payload : List ℕ) × (build_trap_payload trap_oid device (pos index) (pos uptime)
          ≡ ok payload)
        × (length payload < 2 ^ 32
            → parse_trap lib now payload source_ip source_port aliases
              ≡ ok (
                  build_fields
                    (v2_event lib
                      (new_event now payload source_ip source_port (pos 1) (lit "public") 0xa7)
                      (trap_varbinds trap_oid device index uptime))
                    aliases))
  unfolding build_trap_payload enc_oid
  build_trap_payload-parse_trap now source_ip source_port aliases trap_oid device index uptime plain
        utf8 =
      let (ticks, ticks_made, ticks_signed, ticks_read) = encode_integer_bytes_pos uptime in
      let (number, number_made, number_read, number_unsigned) = encode_integer_bytes_pos index in
      let all : AllRead lib _ (trap_varbinds trap_oid device index uptime) =
        more_binds
          (bind-IsRead sys_up_time_oid 0x43 ticks _ _ up_time-IsPlainOid
            (read_ticks uptime ticks ticks_read))
          (more_binds
            (bind-IsRead snmp_trap_oid 0x06 plain.bytes _ _ trap_oid-IsPlainOid
              (read_oid trap_oid plain.bytes plain.decoded))
            (more_binds
              (bind-IsRead device_id_oid 0x04 device _ _ device_id-IsPlainOid
                (read_string device utf8))
              (more_binds
                (bind-IsRead if_index_oid 0x02 number _ _ if_index-IsPlainOid
                  (read_integer index number number_read))
                no_binds))) in
      let (payload, made, read) =
        parse_trap-build_v2_trap lib now source_ip source_port aliases (lit "public") _ _ all in
      (payload, rw ticks_made (rw plain.encoded (rw number_made made)), read)
