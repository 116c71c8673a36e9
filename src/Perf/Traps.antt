-- ===== src/Perf/Traps.antt =====
-- cmd/snmptrap-relay-perf/main.go, encodeVarBind, and internal/snmp/parser.go, decodeVarBinds: the
-- variable bindings are read back.
pub mod Whole
use mathlib.Core.Path.{subst}
use mathlib.Core.List.{append_assoc, append-nil}
use snmptrap_relay.Ber.{
  Tlv, decode_oid, decode_value, decode_signed, decode_tag_class, decode_tag_number, from_bytes,
}
use snmptrap_relay.Model.{TrapEvent, VarBind}
use snmptrap_relay.Oid.{normalize}
use snmptrap_relay.Perf.Elements.{read_next-tlv}
use snmptrap_relay.Perf.Encode.{
  Bind, encode_length, tlv, concat, seq, encode_oid, enc_oid, encode_var_bind, encode_var_binds,
  int_tlv, encode_integer_bytes, build_v2_trap,
}
use snmptrap_relay.Prelude.Int.{ℤ, pos}
use snmptrap_relay.Prelude.{
  ℕ, zero, suc, ◌≡◌, ◌∙◌, refl, ap, sym, List, [], ◌∷◌, ◌++◌, ◌+◌, ◌-◌, true, ◌≤◌, ◌<◌, ◌^◌, arith,
  length, length-append, if◌then◌else◌, ◌==◌,
}
use snmptrap_relay.Result.{Result, ok, err, ◌>>=◌, require}
use snmptrap_relay.Snmp.Loop.{read_next_shorter}
use snmptrap_relay.Snmp.{
  Library, read_next, is_universal, decode_var_bind, var_bind_loop, decode_var_binds, parse_v2,
  parse_pdu, parse_trap, new_event, build_fields, varbind_map, well_known, snmp_trap_oid,
  sys_up_time_oid, is_int64, nearest_int64,
}
use snmptrap_relay.Text.{Text}

-- The element of a value.
abbrev pub element : ℕ → List ℕ → Tlv
element tag value = record { tag = tag; length = length value; value = value }

pub read_next-tlv_end :
    (tag : ℕ) (value : List ℕ)
    → length value < 2 ^ 32
    → read_next (tlv tag value) ≡ ok (element tag value, [])
read_next-tlv_end tag value h =
    ap read_next (sym (append-nil (tlv tag value))) ∙ read_next-tlv tag value [] h

pub length-tlv : (tag : ℕ) (value : List ℕ) → length value < length (tlv tag value)
unfolding tlv
length-tlv tag value = omega (arith, length-append (encode_length (length value)) value)

pub length-seq : (parts : List (List ℕ)) → length (concat parts) < length (seq parts)
unfolding seq
length-seq parts = length-tlv 0x30 (concat parts)

-- A variable binding that the encoder can write and the decoder can read: its identifier has an
-- encoding that is read, and its value is an element that is read.
pub record IsRead (lib : Library) (b : Bind) (vb : VarBind) : Type 0 where
  pub oid_bytes : List ℕ
  pub oid : Text
  pub tag : ℕ
  pub content : List ℕ
  pub encoded : encode_oid b.oid ≡ ok oid_bytes
  pub decoded : decode_oid oid_bytes ≡ ok oid
  pub value : b.value ≡ tlv tag content
  pub read_value : decode_value lib.ip_text (element tag content) ≡ ok (vb.type_name, vb.value)
  pub read_oid : vb.oid ≡ normalize oid

-- Binding by binding.
pub data AllRead (lib : Library) : List Bind → List VarBind → Type 0 where
  no_binds : AllRead lib [] []
  more_binds :
      {b : Bind} {vb : VarBind} {bs : List Bind} {vbs : List VarBind}
      → IsRead lib b vb
      → AllRead lib bs vbs
      → AllRead lib (b ∷ bs) (vb ∷ vbs)

module _ (lib : Library) where
  -- The content of the sequence of a binding.
  abbrev content_of : (b : Bind) (vb : VarBind) → IsRead lib b vb → List ℕ
  content_of b vb r = tlv 0x06 r.oid_bytes ++ tlv r.tag r.content

  encode_var_bind-IsRead :
      (b : Bind) (vb : VarBind) (r : IsRead lib b vb)
      → encode_var_bind b ≡ ok (tlv 0x30 (content_of b vb r))
  unfolding encode_var_bind enc_oid seq concat
  encode_var_bind-IsRead b vb r = rw r.encoded (
      ap (λ (v : List ℕ). ok (tlv 0x30 (tlv 0x06 r.oid_bytes ++ v))) (append-nil b.value ∙ r.value))

  decode_var_bind-IsRead :
      (b : Bind) (vb : VarBind) (r : IsRead lib b vb)
      → length (content_of b vb r) < 2 ^ 32
      → decode_var_bind lib (element 0x30 (content_of b vb r)) ≡ ok vb
  unfolding decode_var_bind
  decode_var_bind-IsRead b vb r h =
      let size = length-append (tlv 0x06 r.oid_bytes) (tlv r.tag r.content) in
      let first =
        read_next-tlv 0x06 r.oid_bytes (tlv r.tag r.content)
          (omega (arith, size, length-tlv 0x06 r.oid_bytes)) in
      let second =
        read_next-tlv_end r.tag r.content (omega (arith, size, length-tlv r.tag r.content)) in
      rw first (
        rw r.decoded (
          rw second
            (rw r.read_value (ap (λ (o : Text). ok (record vb { oid = o })) (sym r.read_oid)))))

  -- A round of the loop.
  var_bind_loop_step :
      (fuel : ℕ) (bytes : List ℕ) (item : Tlv) (rest : List ℕ) (vb : VarBind) (vbs : List VarBind)
      → 0 < length bytes
      → length bytes ≤ fuel
      → read_next bytes ≡ ok (item, rest)
      → decode_var_bind lib item ≡ ok vb
      → var_bind_loop lib (fuel - 1) rest ≡ ok vbs
      → var_bind_loop lib fuel bytes ≡ ok (vb ∷ vbs)
  unfolding var_bind_loop
  var_bind_loop_step fuel [] item rest vb vbs some_byte enough h1 h2 h3 = absurd (omega arith)
  var_bind_loop_step zero (x ∷ xs) item rest vb vbs some_byte enough h1 h2 h3 = absurd (omega arith)
  var_bind_loop_step (suc fuel) (x ∷ xs) item rest vb vbs some_byte enough h1 h2 h3 =
      let back : suc fuel - 1 ≡ fuel = omega arith in
      let others : var_bind_loop lib fuel rest ≡ ok vbs =
        ap (λ k. var_bind_loop lib k rest) (sym back) ∙ h3 in
      rw h1 (rw h2 (rw others refl))

  -- The loop on a list of sequences.
  pub var_bind_loop-AllRead :
      (fuel : ℕ) (bs : List Bind) (vbs : List VarBind)
      → AllRead lib bs vbs
      → (parts : List (List ℕ)) × (encode_var_binds bs ≡ ok parts)
        × (length (concat parts) ≤ fuel
            → length (concat parts) < 2 ^ 32
            → var_bind_loop lib fuel (concat parts) ≡ ok vbs)
  unfolding encode_var_binds concat
  var_bind_loop-AllRead fuel [] [] no_binds = ([], refl, λ h size. unfold var_bind_loop in refl)
  var_bind_loop-AllRead fuel [] (vb ∷ vbs) h = elim h [ ]
  var_bind_loop-AllRead fuel (b ∷ bs) [] h = elim h [ ]
  var_bind_loop-AllRead fuel (b ∷ bs) (vb ∷ vbs) (more_binds r rs) =
      let (parts, written, reads) = var_bind_loop-AllRead (fuel - 1) bs vbs rs in
      let content = content_of b vb r in
      let total = length-append (tlv 0x30 content) (concat parts) in
      let longer = length-tlv 0x30 content in
      (
        tlv 0x30 content ∷ parts,
        rw (encode_var_bind-IsRead b vb r, written) refl,
        λ h size.
            var_bind_loop_step fuel (tlv 0x30 content ++ concat parts) (element 0x30 content)
              (concat parts) vb vbs (omega (arith, total, longer)) h
              (read_next-tlv 0x30 content (concat parts) (omega (arith, total, longer)))
              (decode_var_bind-IsRead b vb r (omega (arith, total, longer)))
              (reads (omega (arith, total, longer)) (omega (arith, total, longer))),
      )

  -- The list of the variable bindings is read back.
  pub decode_var_binds-AllRead :
      (bs : List Bind) (vbs : List VarBind) (parts : List (List ℕ))
      → AllRead lib bs vbs
      → encode_var_binds bs ≡ ok parts
      → length (concat parts) < 2 ^ 32
      → decode_var_binds lib (seq parts) ≡ ok vbs
  unfolding decode_var_binds seq
  decode_var_binds-AllRead bs vbs parts all written size =
      let (found, same, reads) = var_bind_loop-AllRead (length (concat parts)) bs vbs all in
      let eq : found ≡ parts = ground arith in
      rw (read_next-tlv_end 0x30 (concat parts) size) (
        subst
          (λ (p : List (List ℕ)).
            length (concat p) ≤ length (concat parts)
            → length (concat p) < 2 ^ 32
            → var_bind_loop lib (length (concat parts)) (concat p) ≡ ok vbs)
          eq reads (omega arith) size)
