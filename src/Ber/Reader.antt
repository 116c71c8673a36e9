-- ===== src/Ber/Reader.antt =====
-- internal/ber/ber.go, Reader, as it is written: the bytes, and the position of the next one. An index or a
-- slice out of range panics.
pub mod Unread
use snmptrap_relay.Ber.{Tlv}
use snmptrap_relay.Prelude.Int.{ℤ, pos, sub_ℕ, ltb_ℤ}
use snmptrap_relay.Prelude.{
  ℕ, zero, suc, Bool, List, [], ◌∷◌, ◌+◌, ◌*◌, ◌-◌, ◌%◌, ltb, leb, ◌==◌, if◌then◌else◌, length,
  take, drop,
}
use snmptrap_relay.Result.{
  Result, ok, err, panicked, truncated_data, truncated_length, truncated_value, indefinite_length,
  length_too_large, length_overflow,
}

-- Reader
pub record Reader : Type 0 where
  -- data
  pub bytes : List ℕ
  pub position : ℕ

-- NewReader
unfoldable pub new_reader : List ℕ → Reader
new_reader bytes = record { bytes = bytes; position = 0 }

-- Remaining
unfoldable pub remaining : Reader → ℤ
remaining r = sub_ℕ (length r.bytes) r.position

-- EOF
unfoldable pub is_eof : Reader → Bool
is_eof r = leb (length r.bytes) r.position

-- `r.pos += n`
abbrev pub advance : ℕ → Reader → Reader
advance n r = record r { position = r.position + n }

-- data[i]
unfoldable pub byte_at : ℕ → List ℕ → Result ℕ
byte_at i [] = err panicked
byte_at zero (b ∷ bs) = ok b
byte_at (suc i) (b ∷ bs) = byte_at i bs

-- data[from:from+len]
unfoldable pub slice : ℕ → ℕ → List ℕ → Result (List ℕ)
slice from len bytes =
    if leb (from + len) (length bytes) then ok (take len (drop from bytes)) else err panicked

-- The loop over so many bytes of a length from an index on; r.pos stays where it is.
unfoldable pub length_from : ℕ → ℕ → ℕ → List ℕ → Result ℕ
unfolding byte_at
length_from zero i len bytes = ok len
length_from (suc n) i len bytes =
    if ltb 0x7fffffffffffff len then err length_overflow else elim (byte_at i bytes) [
      | err e ↦ err e
      | ok b ↦ length_from n (i + 1) (len * 256 + b) bytes
    ]

-- ReadTLV from its last test on.
unfoldable pub value_at : ℕ → ℕ → Reader → Result Tlv × Reader
unfolding slice remaining
value_at tag len r =
    if ltb_ℤ (remaining r) (pos len)
    then (err truncated_value, r)
    else elim (slice r.position len r.bytes) [
      | err e ↦ (err e, r)
      | ok value ↦ (ok (record { tag = tag; length = len; value = value }), advance len r)
    ]

-- The branch for a length of several bytes.
unfoldable pub long_at : ℕ → ℕ → Reader → Result Tlv × Reader
unfolding length_from value_at remaining
long_at tag count r =
    if count == 0
    then (err indefinite_length, r)
    else if ltb 4 count
    then (err length_too_large, r)
    else if ltb_ℤ (remaining r) (pos count)
    then (err truncated_length, r)
    else elim (length_from count r.position 0 r.bytes) [
      | err e ↦ (err e, r)
      | ok len ↦ value_at tag len (advance count r)
    ]

-- (*Reader).ReadTLV
unfoldable pub read_tlv_at : Reader → Result Tlv × Reader
unfolding byte_at value_at long_at remaining
read_tlv_at r =
    if ltb_ℤ (remaining r) (pos 2)
    then (err truncated_data, r)
    else elim (byte_at r.position r.bytes) [
      | err e ↦ (err e, r)
      | ok tag ↦ elim (byte_at (r.position + 1) r.bytes) [
        | err e ↦ (err e, advance 1 r)
        | ok first ↦
            if ltb first 0x80
            then value_at tag first (advance 2 r)
            else long_at tag (first % 0x80) (advance 2 r)
      ]
    ]
