-- ===== src/Snmp.antt =====
-- internal/snmp/parser.go: a datagram as a trap event. A ber.Reader is its unread bytes; every caller
-- gives up at the first error of a reader, so a reader's state behind an error is not kept.
pub mod Fields
pub mod Loop
pub mod Texts
unfoldable pub use Fields.*
use snmptrap_relay.Ber.{
  Tlv, TagClass, universal, read_tlv, decode_tag_class, decode_tag_number, decode_signed,
  decode_oid, decode_value,
}
use snmptrap_relay.Dict
use snmptrap_relay.Model.{TrapEvent, VarBind}
use snmptrap_relay.Oid.{normalize, lookup}
use snmptrap_relay.Prelude.Int.{ℤ, pos, negsuc, ltb_ℤ}
use snmptrap_relay.Prelude.{
  ℕ, zero, suc, Bool, true, false, ◌||◌, List, [], ◌∷◌, ◌++◌, Option, none, some, ◌==◌,
  if◌then◌else◌, length,
}
use snmptrap_relay.Result.{
  Result, ok, err, ◌>>=◌, require, not_sequence, no_version, version_range, no_community,
  unsupported_pdu, not_varbind_list, not_varbind, not_varbind_oid, out_of_fuel,
}
use snmptrap_relay.Text.Number.{int_text, hex_byte}
use snmptrap_relay.Text.{Text, text_eq, lit, is_empty}

-- What the parser calls of other packages: net.IP.String, and (*big.Int).Int64, which documents no
-- result for a number outside int64.
pub record Library : Type 0 where
  pub ip_text : List ℕ → Text
  pub low_int64 : ℤ → ℤ

abbrev pub min_int64 : ℤ
min_int64 = negsuc 0x7fffffffffffffff

abbrev pub max_int64 : ℤ
max_int64 = pos 0x7fffffffffffffff

abbrev pub is_int64 : ℤ → Bool
is_int64 z = if ltb_ℤ z min_int64 then false else if ltb_ℤ max_int64 z then false else true

-- strconv.ParseInt on the decimal text of an integer, without its error: the nearest int64
unfoldable pub nearest_int64 : ℤ → ℤ
nearest_int64 z =
    if ltb_ℤ z min_int64 then min_int64 else if ltb_ℤ max_int64 z then max_int64 else z

-- reader.ReadTLV(), with the reader that it leaves
unfoldable pub read_next : List ℕ → Result (Tlv × List ℕ)
unfolding read_tlv
read_next bs = let (result, rest) = read_tlv bs in result >>= λ t. ok (t, rest)

-- ber.DecodeTagClass(tag) == "universal" && ber.DecodeTagNumber(tag) == number
unfoldable pub is_universal : ℕ → ℕ → Bool
unfolding decode_tag_class decode_tag_number
is_universal tag number = elim (decode_tag_class tag) [
  | universal ↦ decode_tag_number tag == number
  | _ ↦ false
]

-- genericTrapNames
unfoldable pub generic_trap_names : ℤ → Text
generic_trap_names (negsuc n) = []
generic_trap_names (pos n) =
    if n == 0
    then lit "coldStart"
    else if n == 1
    then lit "warmStart"
    else if n == 2
    then lit "linkDown"
    else if n == 3
    then lit "linkUp"
    else if n == 4
    then lit "authenticationFailure"
    else if n == 5
    then lit "egpNeighborLoss"
    else if n == 6
    then lit "enterpriseSpecific"
    else []

-- firstNonEmpty, of two values
abbrev pub first_non_empty : Text → Text → Text
first_non_empty [] second = second
first_non_empty (c ∷ s) second = c ∷ s

-- m[key] of a map of strings, with the empty string for a missing key
abbrev pub text_or_empty : Option Text → Text
text_or_empty none = []
text_or_empty (some v) = v

unfoldable pub text_at : Text → List (Text × Text) → Text
unfolding Dict.get
text_at key m = text_or_empty (Dict.get key m)

-- `for _, vb := range varbinds { event.RawVarBindMap[vb.OID] = vb.Value }`
unfoldable pub varbind_map : List (Text × Text) → List VarBind → List (Text × Text)
unfolding Dict.put
varbind_map m [] = m
varbind_map m (vb ∷ vbs) = varbind_map (Dict.put vb.oid vb.value m) vbs

-- The value of an identifier among the variable bindings, dotted or not, normalized.
unfoldable pub well_known : Text → List (Text × Text) → Text
unfolding text_at normalize
well_known oid m = normalize (first_non_empty (text_at oid m) (text_at (lit "." ++ oid) m))

abbrev pub snmp_trap_oid : Text
snmp_trap_oid = lit "1.3.6.1.6.3.1.1.4.1.0"

abbrev pub sys_up_time_oid : Text
sys_up_time_oid = lit "1.3.6.1.2.1.1.3.0"

-- The event that ParseTrap makes before it looks into the PDU; `now` is time.Now().UTC().
unfoldable pub new_event : ℤ → List ℕ → Text → ℤ → ℤ → Text → ℕ → TrapEvent
unfolding hex_byte
new_event now payload source_ip source_port version community tag = record {
  received_at = now;
  source_ip = source_ip;
  source_port = source_port;
  raw_bytes = payload;
  version = version;
  community = community;
  pdu_type = lit "0x" ++ hex_byte tag;
  enterprise_oid = [];
  agent_address = [];
  generic_trap = [];
  generic_trap_name = [];
  specific_trap = [];
  uptime = [];
  request_id = pos 0;
  error_status = pos 0;
  error_index = pos 0;
  trap_oid = [];
  varbinds = [];
  raw_varbind_map = [];
  fields = [];
  alerts_logged = false;
}

-- The name of a generic trap, or its number.
unfoldable pub generic_name : ℤ → Text
unfolding generic_trap_names int_text
generic_name generic = first_non_empty (generic_trap_names generic) (int_text generic)

module _ (lib : Library) where
  -- A round of the loop of decodeVarBinds, behind ReadTLV.
  unfoldable pub decode_var_bind : Tlv → Result VarBind
  unfolding read_next is_universal decode_oid decode_value normalize
  decode_var_bind item = require (item.tag == 0x30) not_varbind (do
    (oid_tlv, rest) ← read_next item.value
    require (is_universal oid_tlv.tag 0x06) not_varbind_oid (do
      oid ← decode_oid oid_tlv.value
      (value_tlv, behind) ← read_next rest
      (type_name, value) ← decode_value lib.ip_text value_tlv
      ok (record { oid = normalize oid; type_name = type_name; value = value })))

  -- The loop of decodeVarBinds, with fuel for its rounds.
  unfoldable pub var_bind_loop : ℕ → List ℕ → Result (List VarBind)
  unfolding read_next decode_var_bind
  var_bind_loop fuel [] = ok []
  var_bind_loop zero (b ∷ bs) = err out_of_fuel
  var_bind_loop (suc fuel) (b ∷ bs) = do
    (item, rest) ← read_next (b ∷ bs)
    vb ← decode_var_bind item
    vbs ← var_bind_loop fuel rest
    ok (vb ∷ vbs)

  -- decodeVarBinds: a round reads a byte at least, so the length is enough fuel
  unfoldable pub decode_var_binds : List ℕ → Result (List VarBind)
  unfolding read_next var_bind_loop
  decode_var_binds bs = do
    (sequence, rest) ← read_next bs
    require (sequence.tag == 0x30) not_varbind_list
        (var_bind_loop (length sequence.value) sequence.value)

  -- parseV1
  unfoldable pub parse_v1 : TrapEvent → List ℕ → Result TrapEvent
  unfolding read_next decode_oid decode_value decode_signed int_text decode_var_binds varbind_map
      generic_name
  parse_v1 event body = do
    (enterprise_tlv, r1) ← read_next body
    enterprise_oid ← decode_oid enterprise_tlv.value
    (agent_tlv, r2) ← read_next r1
    (agent_type, agent_address) ← decode_value lib.ip_text agent_tlv
    (generic_tlv, r3) ← read_next r2
    (specific_tlv, r4) ← read_next r3
    (uptime_tlv, r5) ← read_next r4
    let generic = lib.low_int64 (decode_signed generic_tlv.value)
    let specific = lib.low_int64 (decode_signed specific_tlv.value)
    varbinds ← decode_var_binds r5
    ok (record event {
      enterprise_oid = enterprise_oid;
      agent_address = agent_address;
      generic_trap = int_text generic;
      generic_trap_name = generic_name generic;
      specific_trap = int_text specific;
      uptime = int_text (decode_signed uptime_tlv.value);
      varbinds = varbinds;
      raw_varbind_map = varbind_map event.raw_varbind_map varbinds;
      trap_oid =
          lit "v1:"
          ++ (enterprise_oid ++ (lit ":" ++ (int_text generic ++ (lit ":" ++ int_text specific))));
    })

  -- parseV2
  unfoldable pub parse_v2 : TrapEvent → List ℕ → Result TrapEvent
  unfolding read_next decode_signed nearest_int64 decode_var_binds varbind_map well_known
  parse_v2 event body = do
    (request_tlv, r1) ← read_next body
    (error_status_tlv, r2) ← read_next r1
    (error_index_tlv, r3) ← read_next r2
    varbinds ← decode_var_binds r3
    let raw = varbind_map event.raw_varbind_map varbinds
    ok (record event {
      request_id = nearest_int64 (decode_signed request_tlv.value);
      error_status = nearest_int64 (decode_signed error_status_tlv.value);
      error_index = nearest_int64 (decode_signed error_index_tlv.value);
      varbinds = varbinds;
      raw_varbind_map = raw;
      trap_oid = well_known snmp_trap_oid raw;
      uptime = well_known sys_up_time_oid raw;
    })

  -- The switch on the tag of the PDU.
  unfoldable pub parse_pdu : TrapEvent → Tlv → Result TrapEvent
  unfolding parse_v1 parse_v2
  parse_pdu event pdu =
      if pdu.tag == 0xa4
      then parse_v1 event pdu.value
      else if pdu.tag == 0xa7
      then parse_v2 event pdu.value
      else err (unsupported_pdu pdu.tag)

  -- ParseTrap
  unfoldable pub parse_trap : ℤ → List ℕ → Text → ℤ → List (Text × Text) → Result TrapEvent
  unfolding read_next is_universal decode_signed new_event parse_pdu build_fields
  parse_trap now payload source_ip source_port aliases = do
    (outer, behind) ← read_next payload
    require (outer.tag == 0x30) not_sequence (do
      (version_tlv, r1) ← read_next outer.value
      require (is_universal version_tlv.tag 0x02) no_version (
          let version = decode_signed version_tlv.value in
          require (is_int64 version) version_range (do
            (community_tlv, r2) ← read_next r1
            require (is_universal community_tlv.tag 0x04) no_community (do
              (pdu, r3) ← read_next r2
              event ←
                  parse_pdu
                    (new_event now payload source_ip source_port version community_tlv.value
                      pdu.tag)
                    pdu
              ok (build_fields event aliases)))))
