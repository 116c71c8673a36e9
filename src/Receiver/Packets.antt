-- ===== src/Receiver/Packets.antt =====
-- internal/receiver/decoder.go, packetToEvent: the bindings and the fields of an event.
use snmptrap_relay.Dict
use snmptrap_relay.Model.{TrapEvent, VarBind}
use snmptrap_relay.Prelude.Int.{ℤ, pos}
use snmptrap_relay.Prelude.{
  ℕ, ◌≡◌, ◌∙◌, refl, ap, sym, Bool-cases, inl, inr, false, List, [], ◌∷◌, ◌++◌, map, ◌==◌,
}
use snmptrap_relay.Receiver.{
  Gosnmp, Packet, Pdu, to_varbind, add_variables, add_fields, event_fields, build_fields,
  packet_event, packet_to_event, add_text, lookup_alias, with_variables, version1_event,
  version2_event, base_event,
}
use snmptrap_relay.Snmp
use snmptrap_relay.Text.{Text, text_eq}
use mathlib.Core.List.{append_assoc, append-nil}

-- The loop appends the bindings, and puts them into the map as the parser does.
add_variables_lem :
    (pdus : List Pdu) (vbs : List VarBind) (m : List (Text × Text))
    → add_variables pdus vbs m
      ≡ (vbs ++ map to_varbind pdus, Snmp.varbind_map m (map to_varbind pdus))
unfolding add_variables Snmp.varbind_map
add_variables_lem [] vbs m = ap (λ (l : List VarBind). (l, m)) (sym (append-nil vbs))
add_variables_lem (pdu ∷ pdus) vbs m =
    let vb = to_varbind pdu in
    add_variables_lem pdus (vbs ++ (vb ∷ [])) (Dict.put vb.oid vb.value m)
    ∙ ap
        (λ (l : List VarBind).
          (l, Snmp.varbind_map (Dict.put vb.oid vb.value m) (map to_varbind pdus)))
        (append_assoc vbs (vb ∷ []) (map to_varbind pdus))

add_fields-put_varbinds :
    (aliases : List (Text × Text)) (vbs : List VarBind) (fields : List (Text × Text))
    → add_fields aliases vbs fields ≡ Snmp.put_varbinds aliases vbs fields
unfolding add_fields Snmp.put_varbinds Snmp.put_varbind lookup_alias Snmp.lookup_alias
add_fields-put_varbinds aliases [] fields = refl
add_fields-put_varbinds aliases (vb ∷ vbs) fields = add_fields-put_varbinds aliases vbs _

event_fields_lem :
    (event : TrapEvent)
    → event_fields event
      ≡ Snmp.trap_oid_field event (Snmp.text_fields event (Snmp.basic_fields event))
unfolding event_fields add_text Snmp.trap_oid_field Snmp.text_fields Snmp.basic_fields
event_fields_lem event = refl

-- The numbers of a request, which no packet has, are not among the fields.
number_fields_none :
    (event : TrapEvent) (fields : List (Text × Text))
    → event.request_id ≡ pos 0
    → event.error_status ≡ pos 0
    → event.error_index ≡ pos 0
    → Snmp.number_fields event fields ≡ fields
unfolding Snmp.number_fields
number_fields_none event fields h1 h2 h3 = rw (h1, h2, h3) refl

module _ (gosnmp : Gosnmp) where
  -- The event of a packet has a binding for each variable, in their order, and the map of its bindings.
  pub packet_event_varbinds :
      (now : ℤ) (packet : Packet) (raw : List ℕ) (source_ip : Text) (source_port : ℤ)
      (aliases : List (Text × Text))
      → let event = packet_to_event gosnmp now packet raw source_ip source_port aliases in
        (event.varbinds ≡ map to_varbind packet.variables)
        × (event.raw_varbind_map ≡ Snmp.varbind_map [] event.varbinds)
  unfolding packet_to_event packet_event with_variables version1_event version2_event base_event
  packet_event_varbinds now packet raw source_ip source_port aliases =
      elim (Bool-cases (packet.version == gosnmp.version1)) [
        | inl first ↦ rw (first, add_variables_lem packet.variables [] []) (refl, refl)
        | inr other ↦ rw (other, add_variables_lem packet.variables [] []) (refl, refl)
      ]

  packet_event_numbers :
      (now : ℤ) (packet : Packet) (raw : List ℕ) (source_ip : Text) (source_port : ℤ)
      → let event = packet_event gosnmp now packet raw source_ip source_port in
        (event.request_id ≡ pos 0) × (event.error_status ≡ pos 0) × (event.error_index ≡ pos 0)
  unfolding packet_event with_variables version1_event version2_event base_event
  packet_event_numbers now packet raw source_ip source_port =
      elim (Bool-cases (packet.version == gosnmp.version1)) [
        | inl first ↦ rw first (refl, refl, refl)
        | inr other ↦ rw other (refl, refl, refl)
      ]

  -- The two decoders name the fields of an event alike: for a packet of a version other than 3, the
  -- fields are those that the parser of internal/snmp would give to the same event.
  pub packet_fields_eq :
      (now : ℤ) (packet : Packet) (raw : List ℕ) (source_ip : Text) (source_port : ℤ)
      (aliases : List (Text × Text))
      → (packet.version == gosnmp.version3) ≡ false
      → (packet_to_event gosnmp now packet raw source_ip source_port aliases).fields
        ≡ (Snmp.build_fields
            (packet_event gosnmp now packet raw source_ip source_port)
            aliases).fields
  unfolding packet_to_event build_fields Snmp.build_fields
  packet_fields_eq now packet raw source_ip source_port aliases h =
      let event = packet_event gosnmp now packet raw source_ip source_port in
      let (h1, h2, h3) = packet_event_numbers now packet raw source_ip source_port in
      let text = Snmp.text_fields event (Snmp.basic_fields event) in
      rw h (
        add_fields-put_varbinds aliases event.varbinds (event_fields event)
        ∙ ap (λ f. Snmp.put_varbinds aliases event.varbinds f)
            (event_fields_lem event
              ∙ ap (Snmp.trap_oid_field event) (sym (number_fields_none event text h1 h2 h3))))
