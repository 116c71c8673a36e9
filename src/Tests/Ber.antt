-- ===== src/Tests/Ber.antt =====
-- BER elements at work.
use snmptrap_relay.Ber.Arcs.{
  Arc, IsArc, encode_arcs, arc_texts, decode_oid-encode_arcs, decode_oid_truncated,
}
use snmptrap_relay.Ber.Elements.{long1, read_tlv-IsHeader}
use snmptrap_relay.Ber.Reader.Unread.{Agrees, unread, read_tlv_at-Agrees}
use snmptrap_relay.Ber.Reader.{Reader, read_tlv_at}
use snmptrap_relay.Ber.{Tlv, read_tlv, read_value, first_arcs, decode_oid}
use snmptrap_relay.Prelude.{ℕ, ◌≡◌, refl, List, [], ◌∷◌, ◌++◌, ◌+◌, All, arith, ◌==◌, if◌then◌else◌}
use snmptrap_relay.Result.{ok, err, truncated_oid}
use snmptrap_relay.Text.{lit, join}

-- The INTEGER 5.
abbrev five : Tlv
five = record { tag = 0x02; length = 1; value = 5 ∷ [] }

-- Behind it, the NULL.
abbrev null_element : List ℕ
null_element = 0x05 ∷ 0x00 ∷ []

read_tlv-IsHeader_example :
    read_tlv (0x02 ∷ (0x81 ∷ 1 ∷ []) ++ ((5 ∷ []) ++ null_element)) ≡ (ok five, null_element)
read_tlv-IsHeader_example =
    read_tlv-IsHeader 0x02 (0x81 ∷ 1 ∷ []) (5 ∷ []) null_element (long1 1 refl)

five_read : read_tlv (0x02 ∷ 1 ∷ 5 ∷ null_element) ≡ (ok five, null_element)
unfolding read_tlv read_value
five_read = refl

-- 6.311, behind the first byte of 1.3
abbrev arcs : List Arc
arcs = record { leading = []; final = 6 } ∷ record { leading = 2 ∷ []; final = 55 } ∷ []

arcs-IsArc : All IsArc arcs
arcs-IsArc = (
  record { digits = tt; last_digit = omega arith; fits = omega arith },
  (record { digits = (omega arith, tt); last_digit = omega arith; fits = omega arith }, tt),
)

decode_oid-encode_arcs_example :
    decode_oid (0x2b ∷ encode_arcs arcs [])
    ≡ ok (join (lit ".") (first_arcs 0x2b ++ arc_texts arcs))
decode_oid-encode_arcs_example = decode_oid-encode_arcs 0x2b arcs arcs-IsArc

decode_oid_truncated_example :
    decode_oid (0x2b ∷ encode_arcs arcs ((128 + 0) ∷ []))
    ≡ (if 0 == 0 then decode_oid (0x2b ∷ encode_arcs arcs []) else err truncated_oid)
decode_oid_truncated_example = decode_oid_truncated 0x2b arcs 0 arcs-IsArc (omega arith)

-- A reader behind the INTEGER 5, in front of the NULL.
abbrev reader : Reader
reader = record { bytes = 0x02 ∷ 1 ∷ 5 ∷ null_element; position = 3 }

read_tlv_at-Agrees_example : Agrees reader (read_tlv_at reader) (read_tlv (unread reader))
read_tlv_at-Agrees_example = read_tlv_at-Agrees reader (omega arith)
