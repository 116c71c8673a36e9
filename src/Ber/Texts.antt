-- ===== src/Ber/Texts.antt =====
-- internal/ber/ber.go, DecodeValue: the text of every value is UTF-8.
use snmptrap_relay.Ber.{
  Tlv, TagClass, universal, application, context, private_use, decode_tag_class, decode_tag_number,
  decode_signed, decode_unsigned, first_arcs, next_value, is_zero, oid_loop, decode_oid, hexed,
  universal_value, application_value, context_value, decode_value,
}
use snmptrap_relay.Prelude.Int.{ℤ, pos, sub_ℕ}
use snmptrap_relay.Prelude.{
  ℕ, ◌≡◌, ◌/◌, ◌%◌, ◌==◌, refl, true, ◌||◌, List, [], ◌∷◌, ◌++◌, All, Bool-cases, inl, inr, arith,
  length, if-both, if◌then◌else◌, ltb,
}
use snmptrap_relay.Result.{Returns, failing, returning, >>=-Returns, truncated_oid}
use snmptrap_relay.Text.Number.{nat_text}
use snmptrap_relay.Text.Utf8.Ascii.{
  IsAscii, AreBytes, All-append, IsAscii-valid, nat_text-IsAscii, int_text-IsAscii,
  hex_text-IsAscii, join-IsAscii,
}
use snmptrap_relay.Text.Utf8.{valid}
use snmptrap_relay.Text.{Text, lit}

first_arcs-IsAscii : (first : ℕ) → All IsAscii (first_arcs first)
unfolding first_arcs lit
first_arcs-IsAscii first = elim (Bool-cases (ltb first 40)) [
  | inl low ↦ rw low ((omega arith, tt), (nat_text-IsAscii first, tt))
  | inr other ↦ elim (Bool-cases (ltb first 80)) [
    | inl middle ↦ rw (other, middle) ((omega arith, tt), (int_text-IsAscii (sub_ℕ first 40), tt))
    | inr high ↦ rw (other, high) ((omega arith, tt), (int_text-IsAscii (sub_ℕ first 80), tt))
  ]
]

oid_loop-IsAscii : (value : ℤ) (bs : List ℕ) → Returns (All IsAscii) (oid_loop value bs)
unfolding oid_loop
oid_loop-IsAscii value [] =
    if-both (Returns (All IsAscii)) (is_zero value) (returning [] tt) (failing truncated_oid)
oid_loop-IsAscii value (b ∷ bs) = elim (Bool-cases (b / 128 % 2 == 0)) [
  | inl last ↦ rw last (
      >>=-Returns (oid_loop-IsAscii (pos 0) bs)
        (λ parts h. returning _ (int_text-IsAscii (next_value value b), h)))
  | inr more ↦ rw more (oid_loop-IsAscii (next_value value b) bs)
]

decode_oid-IsAscii : (bs : List ℕ) → Returns IsAscii (decode_oid bs)
unfolding decode_oid lit
decode_oid-IsAscii [] = returning [] tt
decode_oid-IsAscii (first ∷ bs) = >>=-Returns (oid_loop-IsAscii (pos 0) bs) (λ parts h.
    returning _ (
      join-IsAscii (lit ".") (first_arcs first ++ parts) (omega arith, tt)
        (All-append _ (first_arcs first) parts (first_arcs-IsAscii first) h)))

hexed-valid : (bs : List ℕ) → AreBytes bs → valid (hexed bs) ≡ true
unfolding lit
hexed-valid bs h = IsAscii-valid (hexed bs) (omega arith, (omega arith, hex_text-IsAscii bs h))

-- The text of a value, beside the name of its type.
abbrev pub IsText : Text × Text → Type 0
IsText v = valid v.1 ≡ true

nat_text-valid : (n : ℕ) → valid (nat_text n) ≡ true
nat_text-valid n = IsAscii-valid (nat_text n) (nat_text-IsAscii n)

-- An octet string stands as it is if it is UTF-8, and else in hexadecimal digits.
string-valid :
    (value : List ℕ) → AreBytes value → valid (if valid value then value else hexed value) ≡ true
string-valid value bytes = elim (Bool-cases (valid value)) [
  | inl text ↦ rw text text
  | inr no_text ↦ rw no_text (hexed-valid value bytes)
]

module _ (ip_text : List ℕ → Text)
    (ip_valid : (bs : List ℕ) → AreBytes bs → valid (ip_text bs) ≡ true) (value : List ℕ)
    (bytes : AreBytes value) where
  universal_value-IsText : (number : ℕ) → Returns IsText (universal_value ip_text number value)
  unfolding universal_value
  universal_value-IsText number =
      let hex = hexed-valid value bytes in
      if-both (Returns IsText) (number == 2)
        (returning _ (IsAscii-valid _ (int_text-IsAscii (decode_signed value))))
        (if-both (Returns IsText) (number == 4) (returning _ (string-valid value bytes)) (
          if-both (Returns IsText) (number == 5) (returning _ (IsAscii-valid [] tt)) (
            if-both (Returns IsText) (number == 6)
              (>>=-Returns (decode_oid-IsAscii value) (λ oid h. returning _ (IsAscii-valid oid h)))
              (if-both (Returns IsText) (number == 3) (returning _ hex)
                (if-both (Returns IsText) (number == 16) (returning _ hex) (returning _ hex))))))

  application_value-IsText : (number : ℕ) → IsText (application_value ip_text number value)
  unfolding application_value
  application_value-IsText number =
      let hex = hexed-valid value bytes in
      let counted = nat_text-valid (decode_unsigned value) in
      if-both IsText (number == 0)
        (if-both (λ t. valid t ≡ true) (length value == 4 || length value == 16)
          (ip_valid value bytes) hex)
        (if-both IsText (number == 1) counted (
          if-both IsText (number == 2) counted (
            if-both IsText (number == 3) counted
              (if-both IsText (number == 4) hex (if-both IsText (number == 6) counted hex)))))

  context_value-IsText : (number : ℕ) → IsText (context_value ip_text number value)
  unfolding context_value
  context_value-IsText number = if-both IsText (number == 0) (IsAscii-valid [] tt) (
      if-both IsText (number == 1) (IsAscii-valid [] tt)
        (if-both IsText (number == 2) (IsAscii-valid [] tt) (hexed-valid value bytes)))

-- The text that DecodeValue gives for a value is UTF-8, whatever the tag and the bytes.
pub decode_value-IsText :
    (ip_text : List ℕ → Text)
    → ((bs : List ℕ) → AreBytes bs → valid (ip_text bs) ≡ true)
    → (t : Tlv) → AreBytes t.value
    → Returns IsText (decode_value ip_text t)
unfolding decode_value
decode_value-IsText ip_text ip_valid t bytes = by_class (decode_tag_class t.tag) refl
  where
    by_class :
        (class : TagClass)
        → decode_tag_class t.tag ≡ class
        → Returns IsText (decode_value ip_text t)
    by_class universal e =
        rw (e, decode_value)
          (universal_value-IsText ip_text ip_valid t.value bytes (decode_tag_number t.tag))
    by_class application e =
        rw (e, decode_value)
          (returning _
            (application_value-IsText ip_text ip_valid t.value bytes (decode_tag_number t.tag)))
    by_class context e =
        rw (e, decode_value)
          (returning _
            (context_value-IsText ip_text ip_valid t.value bytes (decode_tag_number t.tag)))
    by_class private_use e = rw (e, decode_value) (returning _ (hexed-valid t.value bytes))
