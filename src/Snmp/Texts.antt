-- ===== src/Snmp/Texts.antt =====
-- internal/snmp/parser.go, ParseTrap: the values of the variable bindings are UTF-8.
use mathlib.Core.Path.{subst}
use snmptrap_relay.Ber.Elements.{read_tlv_part}
use snmptrap_relay.Ber.Texts.{decode_value-IsText}
use snmptrap_relay.Ber.{Tlv, decode_oid, decode_signed, read_tlv}
use snmptrap_relay.Model.{TrapEvent, VarBind}
use snmptrap_relay.Prelude.Int.{ℤ}
use snmptrap_relay.Prelude.{
  ℕ, zero, suc, ◌≡◌, true, ◌==◌, List, [], ◌∷◌, ◌++◌, All, inl, inr, arith, length, if-both,
}
use snmptrap_relay.Result.{
  Result, Result-cases, ok, err, Returns, failing, returning, >>=-Returns, require-Returns,
  Returns-ok, out_of_fuel, unsupported_pdu,
}
use snmptrap_relay.Snmp.{
  Library, read_next, decode_var_bind, var_bind_loop, decode_var_binds, parse_v1, parse_v2,
  parse_pdu, parse_trap, new_event, build_fields,
}
use snmptrap_relay.Text.Utf8.Ascii.{AreBytes, All-append_parts}
use snmptrap_relay.Text.Utf8.{valid}
use snmptrap_relay.Text.{Text}

-- An element of bytes, and bytes behind it.
abbrev IsRead : Tlv × List ℕ → Type 0
IsRead r = AreBytes r.0.value × AreBytes r.1

abbrev pub HasText : VarBind → Type 0
HasText vb = valid vb.value ≡ true

abbrev AreTexts : List VarBind → Type 0
AreTexts = All HasText

abbrev HasTexts : TrapEvent → Type 0
HasTexts event = AreTexts event.varbinds

-- Any value at all.
abbrev Anything {ℓ} : {A : Type ℓ} → A → Type 0
Anything a = Unit {0}

anything : {A : Type 0} (r : Result A) → Returns Anything r
anything (err e) = failing e
anything (ok a) = returning a tt

part-AreBytes :
    (tag : ℕ) (header value rest : List ℕ)
    → AreBytes (tag ∷ header ++ (value ++ rest))
    → AreBytes value × AreBytes rest
part-AreBytes tag header value rest h =
    All-append_parts _ value rest (All-append_parts _ header (value ++ rest) h.1).1

read_next-IsRead : (bs : List ℕ) → AreBytes bs → Returns IsRead (read_next bs)
unfolding read_next
read_next-IsRead bs bytes = elim (Result-cases (read_next bs)) [
  | inl (e, wrong) ↦ rw wrong (failing e)
  | inr (r, right) ↦
      let read : read_tlv bs ≡ (ok r.0, r.1) = ground arith in
      let (header, parts, size, some_byte, few) = read_tlv_part bs r.0 r.1 read in
      rw right
        (returning r (part-AreBytes r.0.tag header r.0.value r.1 (subst AreBytes parts bytes)))
]

module _ (lib : Library)
    (ip_valid : (bs : List ℕ) → AreBytes bs → valid (lib.ip_text bs) ≡ true) where
  decode_var_bind-HasText :
      (item : Tlv) → AreBytes item.value → Returns HasText (decode_var_bind lib item)
  unfolding decode_var_bind
  decode_var_bind-HasText item bytes = require-Returns _ _ (
      >>=-Returns (read_next-IsRead item.value bytes) (λ a ha. require-Returns _ _ (
        >>=-Returns (anything (decode_oid a.0.value)) (λ oid _.
          >>=-Returns (read_next-IsRead a.1 ha.1) (λ b hb.
            >>=-Returns (decode_value-IsText lib.ip_text ip_valid b.0 hb.0)
              (λ v hv. returning _ hv))))))

  var_bind_loop-AreTexts :
      (fuel : ℕ) (bs : List ℕ) → AreBytes bs → Returns AreTexts (var_bind_loop lib fuel bs)
  unfolding var_bind_loop
  var_bind_loop-AreTexts fuel [] bytes = returning [] tt
  var_bind_loop-AreTexts zero (b ∷ bs) bytes = failing out_of_fuel
  var_bind_loop-AreTexts (suc fuel) (b ∷ bs) bytes =
      >>=-Returns (read_next-IsRead (b ∷ bs) bytes) (λ a ha.
        >>=-Returns (decode_var_bind-HasText a.0 ha.0) (λ vb hv.
          >>=-Returns (var_bind_loop-AreTexts fuel a.1 ha.1) (λ vbs hvs. returning _ (hv, hvs))))

  decode_var_binds-AreTexts :
      (bs : List ℕ) → AreBytes bs → Returns AreTexts (decode_var_binds lib bs)
  unfolding decode_var_binds
  decode_var_binds-AreTexts bs bytes =
      >>=-Returns (read_next-IsRead bs bytes)
        (λ a ha. require-Returns _ _ (var_bind_loop-AreTexts (length a.0.value) a.0.value ha.0))

  parse_v1-HasTexts :
      (event : TrapEvent) (body : List ℕ)
      → AreBytes body
      → Returns HasTexts (parse_v1 lib event body)
  unfolding parse_v1
  parse_v1-HasTexts event body bytes = >>=-Returns (read_next-IsRead body bytes) (λ a ha.
      >>=-Returns (anything (decode_oid a.0.value)) (λ oid _.
        >>=-Returns (read_next-IsRead a.1 ha.1) (λ b hb.
          >>=-Returns (decode_value-IsText lib.ip_text ip_valid b.0 hb.0) (λ v _.
            >>=-Returns (read_next-IsRead b.1 hb.1) (λ c hc.
              >>=-Returns (read_next-IsRead c.1 hc.1) (λ d hd.
                >>=-Returns (read_next-IsRead d.1 hd.1) (λ e he.
                  >>=-Returns (decode_var_binds-AreTexts e.1 he.1) (λ vbs h. returning _ h))))))))

  parse_v2-HasTexts :
      (event : TrapEvent) (body : List ℕ)
      → AreBytes body
      → Returns HasTexts (parse_v2 lib event body)
  unfolding parse_v2
  parse_v2-HasTexts event body bytes = >>=-Returns (read_next-IsRead body bytes) (λ a ha.
      >>=-Returns (read_next-IsRead a.1 ha.1) (λ b hb.
        >>=-Returns (read_next-IsRead b.1 hb.1)
          (λ c hc. >>=-Returns (decode_var_binds-AreTexts c.1 hc.1) (λ vbs h. returning _ h))))

  parse_pdu-HasTexts :
      (event : TrapEvent) (pdu : Tlv)
      → AreBytes pdu.value
      → Returns HasTexts (parse_pdu lib event pdu)
  unfolding parse_pdu
  parse_pdu-HasTexts event pdu bytes =
      if-both (Returns HasTexts) (pdu.tag == 0xa4) (parse_v1-HasTexts event pdu.value bytes) (
        if-both (Returns HasTexts) (pdu.tag == 0xa7) (parse_v2-HasTexts event pdu.value bytes)
          (failing (unsupported_pdu pdu.tag)))

  -- Every variable binding of a trap that ParseTrap returns has a value that is UTF-8 text, whatever the
  -- bytes of the datagram are, if net.IP.String gives such text.
  pub parse_trap-HasText :
      (now : ℤ) (payload : List ℕ) (source_ip : Text) (source_port : ℤ)
      (aliases : List (Text × Text)) (event : TrapEvent)
      → AreBytes payload
      → parse_trap lib now payload source_ip source_port aliases ≡ ok event
      → All HasText event.varbinds
  unfolding parse_trap build_fields
  parse_trap-HasText now payload source_ip source_port aliases event bytes =
      Returns-ok HasTexts event (
        >>=-Returns (read_next-IsRead payload bytes) (λ a ha. require-Returns _ _ (
          >>=-Returns (read_next-IsRead a.0.value ha.0) (λ b hb. require-Returns _ _ (
            require-Returns _ _ (
              >>=-Returns (read_next-IsRead b.1 hb.1) (λ c hc. require-Returns _ _ (
                >>=-Returns (read_next-IsRead c.1 hc.1) (λ d hd.
                  >>=-Returns
                    (parse_pdu-HasTexts
                      (new_event now payload source_ip source_port (decode_signed b.0.value)
                        c.0.value d.0.tag)
                      d.0 hd.0)
                    (λ e he. returning _ he))))))))))
