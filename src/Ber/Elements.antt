-- ===== src/Ber/Elements.antt =====
-- internal/ber/ber.go, ReadTLV: an element is read back, and what is read is a part of the input.
use snmptrap_relay.Ber.{Tlv, length_loop, read_value, read_long, read_tlv}
use snmptrap_relay.Prelude.{
  ℕ, ◌≡◌, ◌∙◌, ap, sym, Bool-cases, inl, inr, List, [], ◌∷◌, ◌++◌, ◌+◌, ◌*◌, ◌≤◌, ◌<◌, ◌%◌, ltb,
  length, take, drop, length-append, take-append, take-drop, length-take, drop-append, arith,
}
use snmptrap_relay.Result.{ok, Result-cases}

-- A tag, a length in any of its definite forms, and the value.
pub data IsHeader (n : ℕ) : List ℕ → Type 0 where
  short : n < 128 → IsHeader n (n ∷ [])
  long1 : (a : ℕ) → n ≡ a → IsHeader n (0x81 ∷ a ∷ [])
  long2 : (a b : ℕ) → a < 256 → n ≡ a * 256 + b → IsHeader n (0x82 ∷ a ∷ b ∷ [])
  long3 :
      (a b c : ℕ)
      → a < 256
      → b < 256
      → n ≡ a * 65536 + b * 256 + c
      → IsHeader n (0x83 ∷ a ∷ b ∷ c ∷ [])
  long4 :
      (a b c d : ℕ)
      → a < 256
      → b < 256
      → c < 256
      → n ≡ a * 16777216 + b * 65536 + c * 256 + d
      → IsHeader n (0x84 ∷ a ∷ b ∷ c ∷ d ∷ [])

read_value-append :
    (tag : ℕ) (value rest : List ℕ)
    → read_value tag (length value) (value ++ rest)
      ≡ (ok (record { tag = tag; length = length value; value = value }), rest)
unfolding read_value
read_value-append tag value rest =
    ground (arith, length-append value rest, take-append value rest, drop-append value rest)

-- ReadTLV reads an element back from its tag, its length in the short form or in a long form of one to
-- four bytes, and its value, and leaves what stands behind it.
pub read_tlv-IsHeader :
    (tag : ℕ) (header value rest : List ℕ)
    → IsHeader (length value) header
    → read_tlv (tag ∷ header ++ (value ++ rest))
      ≡ (ok (record { tag = tag; length = length value; value = value }), rest)
unfolding read_tlv read_long length_loop
read_tlv-IsHeader tag header value rest (short h) = ground (arith, read_value-append tag value rest)
read_tlv-IsHeader tag header value rest (long1 a n) =
    ground (arith, read_value-append tag value rest)
read_tlv-IsHeader tag header value rest (long2 a b ha n) =
    ground (arith, read_value-append tag value rest)
read_tlv-IsHeader tag header value rest (long3 a b c ha hb n) =
    ground (arith, read_value-append tag value rest)
read_tlv-IsHeader tag header value rest (long4 a b c d ha hb hc n) =
    ground (arith, read_value-append tag value rest)

-- What read_value reads is in front of what it leaves.
read_value_part :
    (tag len : ℕ) (bs : List ℕ) (t : Tlv) (rest : List ℕ)
    → read_value tag len bs ≡ (ok t, rest)
    → (t.tag ≡ tag) × (bs ≡ t.value ++ rest) × (t.length ≡ length t.value)
unfolding read_value
read_value_part tag len bs t rest h = elim (Bool-cases (ltb (length bs) len)) [
  | inl few ↦ absurd (ground arith)
  | inr enough ↦
      let whole = take-drop len bs in let size = length-take len bs (ground arith) in ground arith
]

read_long_part :
    (tag count : ℕ) (bs : List ℕ) (t : Tlv) (rest : List ℕ)
    → read_long tag count bs ≡ (ok t, rest)
    → (header : List ℕ) × (t.tag ≡ tag)
      × (bs ≡ header ++ (t.value ++ rest))
      × (t.length ≡ length t.value)
      × (length header ≤ 4)
unfolding read_long
read_long_part tag count bs t rest h = elim (Result-cases (length_loop 0 (take count bs))) [
  | inl (e, wrong) ↦ absurd (ground arith)
  | inr (len, right) ↦
      let fits : count ≤ 4 = ground arith in
      let there : count ≤ length bs = ground arith in
      let read : read_value tag len (drop count bs) ≡ (ok t, rest) = ground arith in
      let (same_tag, parts, size) = read_value_part tag len (drop count bs) t rest read in
      (
        take count bs,
        same_tag,
        sym (take-drop count bs) ∙ ap (λ (l : List ℕ). take count bs ++ l) parts,
        size,
        omega (arith, length-take count bs there),
      )
]

-- When ReadTLV reads an element, the input is its tag, one to five bytes of length, its value, and
-- what is left; and the length that it reports is that of the value.
pub read_tlv_part :
    (bs : List ℕ) (t : Tlv) (rest : List ℕ)
    → read_tlv bs ≡ (ok t, rest)
    → (header : List ℕ) × (bs ≡ t.tag ∷ header ++ (t.value ++ rest))
      × (t.length ≡ length t.value)
      × (1 ≤ length header)
      × (length header ≤ 5)
unfolding read_tlv
read_tlv_part [] t rest h = absurd (ground arith)
read_tlv_part (tag ∷ []) t rest h = absurd (ground arith)
read_tlv_part (tag ∷ first ∷ bs) t rest h = elim (Bool-cases (ltb first 0x80)) [
  | inl one_byte ↦
      let (same_tag, parts, size) = read_value_part tag first bs t rest (ground arith) in
      (first ∷ [], ground arith, size, omega arith, omega arith)
  | inr several ↦
      let (header, same_tag, parts, size, few) =
        read_long_part tag (first % 0x80) bs t rest (ground arith) in
      (first ∷ header, ground arith, size, omega arith, omega (arith, few))
]
