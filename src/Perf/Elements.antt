-- ===== src/Perf/Elements.antt =====
-- cmd/snmptrap-relay-perf/main.go, encodeLength and tlv: ReadTLV reads back what tlv writes.
use snmptrap_relay.Ber.Elements.{IsHeader, short, long1, long2, long3, long4, read_tlv-IsHeader}
use snmptrap_relay.Perf.Encode.{bytes_onto, encode_length, tlv}
use snmptrap_relay.Prelude.{
  ℕ, zero, suc, ◌≡◌, ◌∙◌, refl, List, [], ◌∷◌, ◌++◌, ◌+◌, ◌-◌, ◌/◌, ◌%◌, ◌≤◌, ◌<◌, ◌^◌, Bool-cases,
  inl, inr, ltb, arith, length,
}
use snmptrap_relay.Result.{ok}
use snmptrap_relay.Snmp.{read_next}
use mathlib.Core.List.{append_assoc}

pub bytes_onto_zero : (f : ℕ) (out : List ℕ) → bytes_onto f 0 out ≡ out
unfolding bytes_onto
bytes_onto_zero zero out = refl
bytes_onto_zero (suc f) out = refl

-- One byte is taken off.
pub bytes_onto_step :
    (f n : ℕ) (out : List ℕ)
    → 0 < f
    → 0 < n
    → bytes_onto f n out ≡ bytes_onto (f - 1) (n / 256) ((n % 256) ∷ out)
unfolding bytes_onto
bytes_onto_step zero n out hf hn = absurd (omega arith)
bytes_onto_step (suc f) n out hf hn = ground arith

-- The last byte.
pub bytes_onto_last :
    (f n : ℕ) (out : List ℕ) → 0 < f → 0 < n → n < 256 → bytes_onto f n out ≡ n ∷ out
bytes_onto_last f n out hf hn small =
    let none_left : n / 256 ≡ 0 = omega arith in
    let itself : n % 256 ≡ n = omega arith in
    bytes_onto_step f n out hf hn ∙ rw (none_left, itself) (bytes_onto_zero (f - 1) (n ∷ out))

-- Two to four bytes.
bytes_onto_two :
    (f n : ℕ) (out : List ℕ)
    → 1 < f
    → 256 ≤ n
    → n < 65536
    → bytes_onto f n out ≡ n / 256 ∷ n % 256 ∷ out
bytes_onto_two f n out hf low high =
    bytes_onto_step f n out (omega arith) (omega arith)
    ∙ bytes_onto_last (f - 1) (n / 256) (n % 256 ∷ out) (omega arith) (omega arith) (omega arith)

bytes_onto_three :
    (f n : ℕ) (out : List ℕ)
    → 2 < f
    → 65536 ≤ n
    → n < 16777216
    → bytes_onto f n out ≡ n / 256 / 256 ∷ n / 256 % 256 ∷ n % 256 ∷ out
bytes_onto_three f n out hf low high =
    bytes_onto_step f n out (omega arith) (omega arith)
    ∙ bytes_onto_two (f - 1) (n / 256) (n % 256 ∷ out) (omega arith) (omega arith) (omega arith)

bytes_onto_four :
    (f n : ℕ) (out : List ℕ)
    → 3 < f
    → 16777216 ≤ n
    → n < 2 ^ 32
    → bytes_onto f n out ≡ n / 256 / 256 / 256 ∷ n / 256 / 256 % 256 ∷ n / 256 % 256 ∷ n % 256 ∷ out
bytes_onto_four f n out hf low high =
    bytes_onto_step f n out (omega arith) (omega arith)
    ∙ bytes_onto_three (f - 1) (n / 256) (n % 256 ∷ out) (omega arith) (omega arith) (omega arith)

encode_long-IsHeader :
    (n : ℕ)
    → 128 ≤ n
    → n < 2 ^ 32
    → IsHeader n ((0x80 + length (bytes_onto n n [])) ∷ bytes_onto n n [])
encode_long-IsHeader n low high = elim (Bool-cases (ltb n 256)) [
  | inl h ↦ rw (bytes_onto_last n n [] (omega arith) (omega arith) (ground arith)) (long1 n refl)
  | inr h ↦ elim (Bool-cases (ltb n 65536)) [
    | inl i ↦
        rw (bytes_onto_two n n [] (omega arith) (ground arith) (ground arith))
          (long2 (n / 256) (n % 256) (ground arith) (omega arith))
    | inr i ↦ elim (Bool-cases (ltb n 16777216)) [
      | inl j ↦ rw (bytes_onto_three n n [] (omega arith) (ground arith) (ground arith)) (
          long3 (n / 256 / 256) (n / 256 % 256) (n % 256) (ground arith) (omega arith)
            (omega arith))
      | inr j ↦ rw (bytes_onto_four n n [] (omega arith) (ground arith) high) (
          long4 (n / 256 / 256 / 256) (n / 256 / 256 % 256) (n / 256 % 256) (n % 256) (omega arith)
            (omega arith) (omega arith) (omega arith))
    ]
  ]
]

pub encode_length-IsHeader : (n : ℕ) → n < 2 ^ 32 → IsHeader n (encode_length n)
unfolding encode_length
encode_length-IsHeader n high = elim (Bool-cases (ltb n 0x80)) [
  | inl h ↦ rw h (short (ground arith))
  | inr h ↦ rw h (encode_long-IsHeader n (ground arith) high)
]

-- ReadTLV reads back the element that tlv writes, for a value of less than 2^32 bytes, with the length
-- of the value, and leaves the bytes behind the element.
pub read_next-tlv :
    (tag : ℕ) (value rest : List ℕ)
    → length value < 2 ^ 32
    → read_next (tlv tag value ++ rest)
      ≡ ok (record { tag = tag; length = length value; value = value }, rest)
unfolding tlv read_next
read_next-tlv tag value rest h = rw (append_assoc (encode_length (length value)) value rest) (
    rw
      (read_tlv-IsHeader tag (encode_length (length value)) value rest
        (encode_length-IsHeader (length value) h))
      refl)
