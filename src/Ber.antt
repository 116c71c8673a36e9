-- ===== src/Ber.antt =====
-- internal/ber/ber.go: the reader of BER elements, and the texts of their values. A byte is a number
-- below 256. Here a Reader is the bytes that it has not read, and Remaining is their number; with its
-- position it is in Ber/Reader. Big integers have no bound.
pub mod Elements
pub mod Arcs
pub mod Texts
pub mod Reader
use snmptrap_relay.Prelude.Int.{ℤ, pos, ◌+ℤ◌, scale, wrap64, sub_ℕ}
use snmptrap_relay.Prelude.{
  ℕ, zero, suc, Bool, true, false, ◌&&◌, ◌||◌, List, [], ◌∷◌, ◌++◌, ◌+◌, ◌*◌, ◌/◌, ◌%◌, ◌^◌, ltb,
  ◌==◌, if◌then◌else◌, length, take, drop,
}
use snmptrap_relay.Result.{
  Result, ok, err, ◌>>=◌, truncated_data, indefinite_length, length_too_large, truncated_length,
  length_overflow, truncated_value, truncated_oid,
}
use snmptrap_relay.Text.Number.{nat_text, int_text, hex_text}
use snmptrap_relay.Text.Utf8.{valid}
use snmptrap_relay.Text.{Text, lit, join}

pub record Tlv : Type 0 where
  pub tag : ℕ
  pub length : ℕ
  pub value : List ℕ

-- The loop over the bytes of a long length, with its test for an overflow of int,
-- which compares with the greatest int shifted right by 8.
unfoldable pub length_loop : ℕ → List ℕ → Result ℕ
length_loop len [] = ok len
length_loop len (b ∷ bs) =
    if ltb 0x7fffffffffffff len then err length_overflow else length_loop (len * 256 + b) bs

-- ReadTLV from the test of the remaining bytes on; it leaves the bytes that are not read.
unfoldable pub read_value : ℕ → ℕ → List ℕ → Result Tlv × List ℕ
read_value tag len rest =
    if ltb (length rest) len
    then (err truncated_value, rest)
    else (ok (record { tag = tag; length = len; value = take len rest }), drop len rest)

-- The branch of ReadTLV for a length of several bytes.
unfoldable pub read_long : ℕ → ℕ → List ℕ → Result Tlv × List ℕ
unfolding length_loop read_value
read_long tag count rest =
    if count == 0
    then (err indefinite_length, rest)
    else if ltb 4 count
    then (err length_too_large, rest)
    else if ltb (length rest) count
    then (err truncated_length, rest)
    else elim (length_loop 0 (take count rest)) [
      | err e ↦ (err e, rest)
      | ok len ↦ read_value tag len (drop count rest)
    ]

-- (*Reader).ReadTLV
unfoldable pub read_tlv : List ℕ → Result Tlv × List ℕ
unfolding read_value read_long
read_tlv [] = (err truncated_data, [])
read_tlv (tag ∷ []) = (err truncated_data, tag ∷ [])
read_tlv (tag ∷ first ∷ rest) =
    if ltb first 0x80 then read_value tag first rest else read_long tag (first % 0x80) rest

pub data TagClass : Type 0 where
  universal application context private_use : TagClass

-- DecodeTagClass
unfoldable pub decode_tag_class : ℕ → TagClass
decode_tag_class tag =
    if tag / 64 % 4 == 0
    then universal
    else if tag / 64 % 4 == 1
    then application
    else if tag / 64 % 4 == 2
    then context
    else private_use

-- DecodeTagNumber
unfoldable pub decode_tag_number : ℕ → ℕ
decode_tag_number tag = tag % 32

unfoldable pub class_text : TagClass → Text
class_text universal = lit "universal"
class_text application = lit "application"
class_text context = lit "context"
class_text private_use = lit "private"

-- SetBytes, from the number that the bytes before have
unfoldable pub from_bytes : ℕ → List ℕ → ℕ
from_bytes n [] = n
from_bytes n (b ∷ bs) = from_bytes (n * 256 + b) bs

-- DecodeUnsignedBigInt
unfoldable pub decode_unsigned : List ℕ → ℕ
unfolding from_bytes
decode_unsigned data_ = from_bytes 0 data_

-- DecodeSignedBigInt
unfoldable pub decode_signed : List ℕ → ℤ
unfolding from_bytes
decode_signed [] = pos 0
decode_signed (b ∷ bs) =
    if b / 128 % 2 == 0
    then pos (from_bytes 0 (b ∷ bs))
    else sub_ℕ (from_bytes 0 (b ∷ bs)) (2 ^ (8 * length (b ∷ bs)))

-- The two arcs of the first byte.
unfoldable pub first_arcs : ℕ → List Text
unfolding nat_text
first_arcs first =
    if ltb first 40
    then lit "0" ∷ nat_text first ∷ []
    else if ltb first 80
    then lit "1" ∷ int_text (sub_ℕ first 40) ∷ []
    else lit "2" ∷ int_text (sub_ℕ first 80) ∷ []

-- The value of an arc with one byte more; `<<` drops the bits above an int.
unfoldable pub next_value : ℤ → ℕ → ℤ
next_value value b = wrap64 (scale 128 value +ℤ pos (b % 128))

abbrev pub is_zero : ℤ → Bool
is_zero (pos zero) = true
is_zero _ = false

-- The loop of DecodeOID, with the test behind it.
unfoldable pub oid_loop : ℤ → List ℕ → Result (List Text)
unfolding int_text
oid_loop value [] = if is_zero value then ok [] else err truncated_oid
oid_loop value (b ∷ bs) =
    if b / 128 % 2 == 0
    then (do parts ← oid_loop (pos 0) bs; ok (int_text (next_value value b) ∷ parts))
    else oid_loop (next_value value b) bs

-- DecodeOID
unfoldable pub decode_oid : List ℕ → Result Text
unfolding join
decode_oid [] = ok []
decode_oid (first ∷ bs) = do
  parts ← oid_loop (pos 0) bs
  ok (join (lit ".") (first_arcs first ++ parts))

abbrev pub hexed : List ℕ → Text
hexed value = lit "0x" ++ hex_text value

-- `ip_text` is net.IP.String
module _ (ip_text : List ℕ → Text) where
  unfoldable pub universal_value : ℕ → List ℕ → Result (Text × Text)
  universal_value number value =
      if number == 2
      then ok (lit "INTEGER", int_text (decode_signed value))
      else if number == 4
      then ok (lit "OCTET STRING", if valid value then value else hexed value)
      else if number == 5
      then ok (lit "NULL", [])
      else if number == 6
      then (do oid ← decode_oid value; ok (lit "OBJECT IDENTIFIER", oid))
      else if number == 3
      then ok (lit "BIT STRING", hexed value)
      else if number == 16
      then ok (lit "SEQUENCE", hexed value)
      else ok (lit "universal[" ++ (nat_text number ++ lit "]"), hexed value)

  unfoldable pub application_value : ℕ → List ℕ → Text × Text
  application_value number value =
      if number == 0
      then (
        lit "IPADDRESS",
        if length value == 4 || length value == 16 then ip_text value else hexed value,
      )
      else if number == 1
      then (lit "COUNTER32", nat_text (decode_unsigned value))
      else if number == 2
      then (lit "GAUGE32", nat_text (decode_unsigned value))
      else if number == 3
      then (lit "TIMETICKS", nat_text (decode_unsigned value))
      else if number == 4
      then (lit "OPAQUE", hexed value)
      else if number == 6
      then (lit "COUNTER64", nat_text (decode_unsigned value))
      else (lit "application[" ++ (nat_text number ++ lit "]"), hexed value)

  unfoldable pub context_value : ℕ → List ℕ → Text × Text
  context_value number value =
      if number == 0
      then (lit "noSuchObject", [])
      else if number == 1
      then (lit "noSuchInstance", [])
      else if number == 2
      then (lit "endOfMibView", [])
      else (lit "context[" ++ (nat_text number ++ lit "]"), hexed value)

  -- DecodeValue: the name of the type and the text of the value
  unfoldable pub decode_value : Tlv → Result (Text × Text)
  decode_value tlv = elim (decode_tag_class tlv.tag) [
    | universal ↦ universal_value (decode_tag_number tlv.tag) tlv.value
    | application ↦ ok (application_value (decode_tag_number tlv.tag) tlv.value)
    | context ↦ ok (context_value (decode_tag_number tlv.tag) tlv.value)
    | private_use ↦
        ok (lit "private[" ++ (nat_text (decode_tag_number tlv.tag) ++ lit "]"), hexed tlv.value)
  ]
