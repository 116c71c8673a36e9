-- ===== src/Perf/Traps/Whole.antt =====
-- cmd/snmptrap-relay-perf/main.go, buildV2Trap, and internal/snmp/parser.go, ParseTrap: the relay reads
-- the traps of the load generator.
use snmptrap_relay.Ber.{decode_signed, decode_tag_class, decode_tag_number, from_bytes}
use snmptrap_relay.Model.{TrapEvent, VarBind}
use snmptrap_relay.Perf.Elements.{read_next-tlv}
use snmptrap_relay.Perf.Encode.{Bind, tlv, concat, seq, encode_var_binds, build_v2_trap}
use snmptrap_relay.Prelude.Int.{ℤ, pos}
use snmptrap_relay.Prelude.{
  ℕ, ◌≡◌, ◌∙◌, refl, ap, List, [], ◌∷◌, ◌++◌, ◌<◌, ◌^◌, arith, length, length-append,
}
use snmptrap_relay.Result.{ok}
use snmptrap_relay.Snmp.{
  Library, read_next, is_universal, parse_v2, parse_pdu, parse_trap, new_event, build_fields,
  varbind_map, well_known, snmp_trap_oid, sys_up_time_oid, nearest_int64,
}
use snmptrap_relay.Text.{Text}
use snmptrap_relay.Perf.Traps.{
  element, read_next-tlv_end, length-tlv, length-seq, AllRead, var_bind_loop-AllRead,
  decode_var_binds-AllRead,
}

module _ (lib : Library) where
  -- The body of a version 2 trap that buildV2Trap writes.
  abbrev pdu_body : List (List ℕ) → List ℕ
  pdu_body parts = tlv 0x02 (1 ∷ []) ++ (tlv 0x02 (0 ∷ []) ++ (tlv 0x02 (0 ∷ []) ++ seq parts))

  abbrev trap_body : Text → List (List ℕ) → List ℕ
  trap_body community parts =
      tlv 0x02 (1 ∷ []) ++ (tlv 0x04 community ++ (tlv 0xa7 (pdu_body parts) ++ []))

  build_v2_trap_lem :
      (community : Text) (bs : List Bind) (parts : List (List ℕ))
      → encode_var_binds bs ≡ ok parts
      → build_v2_trap community bs ≡ ok (tlv 0x30 (trap_body community parts))
  unfolding build_v2_trap seq concat
  build_v2_trap_lem community bs parts h = rw h refl

  -- What parseV2 makes of an event and its bindings.
  abbrev pub v2_event : TrapEvent → List VarBind → TrapEvent
  v2_event event vbs =
      let raw = varbind_map event.raw_varbind_map vbs in
      record event {
        request_id = pos 1;
        error_status = pos 0;
        error_index = pos 0;
        varbinds = vbs;
        raw_varbind_map = raw;
        trap_oid = well_known snmp_trap_oid raw;
        uptime = well_known sys_up_time_oid raw;
      }

  small_int : (n : ℕ) → length (n ∷ []) < 2 ^ 32
  small_int n = omega arith

  parse_v2_lem :
      (event : TrapEvent) (bs : List Bind) (vbs : List VarBind) (parts : List (List ℕ))
      → AllRead lib bs vbs
      → encode_var_binds bs ≡ ok parts
      → length (concat parts) < 2 ^ 32
      → parse_v2 lib event (pdu_body parts) ≡ ok (v2_event event vbs)
  unfolding parse_v2 decode_signed from_bytes nearest_int64
  parse_v2_lem event bs vbs parts all written size =
      rw
        (read_next-tlv 0x02 (1 ∷ []) (tlv 0x02 (0 ∷ []) ++ (tlv 0x02 (0 ∷ []) ++ seq parts))
          (small_int 1))
        (rw (read_next-tlv 0x02 (0 ∷ []) (tlv 0x02 (0 ∷ []) ++ seq parts) (small_int 0)) (
          rw (read_next-tlv 0x02 (0 ∷ []) (seq parts) (small_int 0))
            (rw (decode_var_binds-AllRead lib bs vbs parts all written size) refl)))

  parse_trap_lem :
      (now : ℤ) (payload : List ℕ) (source_ip : Text) (source_port : ℤ)
      (aliases : List (Text × Text)) (community : Text) (bs : List Bind) (vbs : List VarBind)
      (parts : List (List ℕ))
      → AllRead lib bs vbs
      → encode_var_binds bs ≡ ok parts
      → payload ≡ tlv 0x30 (trap_body community parts)
      → length (trap_body community parts) < 2 ^ 32
      → length community < 2 ^ 32
      → length (pdu_body parts) < 2 ^ 32
      → length (concat parts) < 2 ^ 32
      → parse_trap lib now payload source_ip source_port aliases
        ≡ ok (
            build_fields
              (v2_event (new_event now payload source_ip source_port (pos 1) community 0xa7) vbs)
              aliases)
  unfolding parse_trap parse_pdu is_universal decode_tag_class decode_tag_number decode_signed
      from_bytes
  parse_trap_lem now payload source_ip source_port aliases community bs vbs parts all written whole
        h1 h2 h3 h4 =
      let event = new_event now payload source_ip source_port (pos 1) community 0xa7 in
      let outer : read_next payload ≡ ok (element 0x30 (trap_body community parts), []) =
        ap read_next whole ∙ read_next-tlv_end 0x30 (trap_body community parts) h1 in
      rw outer (
        rw
          (read_next-tlv 0x02 (1 ∷ []) (tlv 0x04 community ++ (tlv 0xa7 (pdu_body parts) ++ []))
            (small_int 1))
          (rw (read_next-tlv 0x04 community (tlv 0xa7 (pdu_body parts) ++ []) h2) (
            rw (read_next-tlv 0xa7 (pdu_body parts) [] h3)
              (rw (parse_v2_lem event bs vbs parts all written h4) refl))))

  -- ParseTrap reads back the traps that buildV2Trap writes: if each variable binding can be written and
  -- read, the datagram is written, and if it has less than 2^32 bytes, it is read as a trap of the
  -- version 1 with the community and the bindings that it was written from.
  pub parse_trap-build_v2_trap :
      (now : ℤ) (source_ip : Text) (source_port : ℤ) (aliases : List (Text × Text))
      (community : Text) (bs : List Bind) (vbs : List VarBind)
      → AllRead lib bs vbs
      → (payload : List ℕ) × (build_v2_trap community bs ≡ ok payload)
        × (length payload < 2 ^ 32
            → parse_trap lib now payload source_ip source_port aliases
              ≡ ok (
                  build_fields
                    (v2_event
                      (new_event now payload source_ip source_port (pos 1) community 0xa7)
                      vbs)
                    aliases))
  parse_trap-build_v2_trap now source_ip source_port aliases community bs vbs all =
      let (parts, written, reads) = var_bind_loop-AllRead lib 0 bs vbs all in
      let pdu = tlv 0xa7 (pdu_body parts) in
      let zero_element = tlv 0x02 (0 ∷ []) in
      let t0 = length-tlv 0x30 (trap_body community parts) in
      let t1 = length-append (tlv 0x02 (1 ∷ [])) (tlv 0x04 community ++ (pdu ++ [])) in
      let t2 = length-append (tlv 0x04 community) (pdu ++ []) in
      let t3 = length-append pdu [] in
      let t4 = length-tlv 0x04 community in
      let t5 = length-tlv 0xa7 (pdu_body parts) in
      let u0 = length-append (tlv 0x02 (1 ∷ [])) (zero_element ++ (zero_element ++ seq parts)) in
      let u1 = length-append zero_element (zero_element ++ seq parts) in
      let u2 = length-append zero_element (seq parts) in
      let u3 = length-seq parts in
      (
        tlv 0x30 (trap_body community parts),
        build_v2_trap_lem community bs parts written,
        λ size.
            parse_trap_lem now _ source_ip source_port aliases community bs vbs parts all written
              refl (omega (arith, size, t0)) (omega (arith, size, t0, t1, t2, t4))
              (omega (arith, size, t0, t1, t2, t3, t5))
              (omega (arith, size, t0, t1, t2, t3, t5, u0, u1, u2, u3)),
      )
