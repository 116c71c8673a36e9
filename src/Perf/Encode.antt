-- ===== src/Perf/Encode.antt =====
-- cmd/snmptrap-relay-perf/main.go: the BER encoder of the load generator. A loop on a number runs on
-- fuel, of which the number itself is enough, since each round divides it.
use snmptrap_relay.Prelude.Int.{ℤ, pos, negsuc, ◌+ℤ◌, scale, wrap64, bits64, sub_ℕ}
use snmptrap_relay.Prelude.{
  ℕ, zero, suc, List, [], ◌∷◌, ◌++◌, ◌+◌, ◌-◌, ◌/◌, ◌%◌, ltb, ◌==◌, if◌then◌else◌, length,
}
use snmptrap_relay.Result.{Result, ok, err, ◌>>=◌, short_oid, panicked}
use snmptrap_relay.Text.{Text}

-- `for n > 0 { tmp = append([]byte{byte(n & 0xFF)}, tmp...); n >>= 8 }`
unfoldable pub bytes_onto : ℕ → ℕ → List ℕ → List ℕ
bytes_onto zero n out = out
bytes_onto (suc f) n out =
    let rest = bytes_onto f (n / 256) ((n % 256) ∷ out) in if n == 0 then out else rest

-- encodeLength; an int has at most eight bytes, so `0x80 |` adds
unfoldable pub encode_length : ℕ → List ℕ
unfolding bytes_onto
encode_length n =
    if ltb n 0x80 then n ∷ [] else let tmp = bytes_onto n n [] in (0x80 + length tmp) ∷ tmp

-- tlv
unfoldable pub tlv : ℕ → List ℕ → List ℕ
unfolding encode_length
tlv tag value = tag ∷ encode_length (length value) ++ value

unfoldable pub concat : List (List ℕ) → List ℕ
concat [] = []
concat (p ∷ ps) = p ++ concat ps

-- seq
unfoldable pub seq : List (List ℕ) → List ℕ
unfolding tlv concat
seq parts = tlv 0x30 (concat parts)

-- The loop of encodeIntegerBytes below -1: `negsuc m` has the low byte 255 - m % 256, and the shift
-- divides m.
unfoldable pub negative_onto : ℕ → ℕ → List ℕ → List ℕ
negative_onto zero m out = out
negative_onto (suc f) m out =
    let rest = negative_onto f (m / 256) ((255 - m % 256) ∷ out) in if m == 0 then out else rest

-- `if !negative && buf[0]&0x80 != 0 { … }`; buf[0] panics on an empty buffer
unfoldable pub pad_positive : List ℕ → Result (List ℕ)
pad_positive [] = err panicked
pad_positive (b ∷ bs) = ok (if b / 128 % 2 == 0 then b ∷ bs else 0x00 ∷ b ∷ bs)

-- `if negative && buf[0]&0x80 == 0 { … }`
unfoldable pub pad_negative : List ℕ → Result (List ℕ)
pad_negative [] = err panicked
pad_negative (b ∷ bs) = ok (if b / 128 % 2 == 0 then 0xff ∷ b ∷ bs else b ∷ bs)

-- encodeIntegerBytes
unfoldable pub encode_integer_bytes : ℤ → Result (List ℕ)
unfolding bytes_onto negative_onto pad_positive pad_negative
encode_integer_bytes (pos n) = if n == 0 then ok (0 ∷ []) else pad_positive (bytes_onto n n [])
encode_integer_bytes (negsuc m) = pad_negative (negative_onto m m [])

-- `for n > 0 { tmp = append([]byte{byte(n & 0x7F)}, tmp...); n >>= 7 }`
unfoldable pub groups_onto : ℕ → ℕ → List ℕ → List ℕ
groups_onto zero n out = out
groups_onto (suc f) n out =
    let rest = groups_onto f (n / 128) ((n % 128) ∷ out) in if n == 0 then out else rest

-- `for i := 0; i < len(tmp)-1; i++ { tmp[i] |= 0x80 }`, on bytes below 0x80
unfoldable pub mark_leading : List ℕ → List ℕ
mark_leading [] = []
mark_leading (b ∷ []) = b ∷ []
mark_leading (b ∷ c ∷ bs) = (0x80 + b) ∷ mark_leading (c ∷ bs)

-- encodeBase128
unfoldable pub encode_base128 : ℤ → List ℕ
unfolding groups_onto mark_leading
encode_base128 (negsuc n) = []
encode_base128 (pos n) = if n == 0 then 0 ∷ [] else mark_leading (groups_onto n n [])

-- mustAtoi, on ASCII
unfoldable pub atoi_from : ℤ → Text → ℤ
atoi_from n [] = n
atoi_from n (c ∷ s) = atoi_from (wrap64 (wrap64 (scale 10 n) +ℤ sub_ℕ c b'0')) s

unfoldable pub must_atoi : Text → ℤ
unfolding atoi_from
must_atoi s = atoi_from (pos 0) s

-- strings.Split(s, "."): the part up to the first dot, from the bytes of it before, and the others
unfoldable pub split_onto : ℕ → Text → Text → List Text
split_onto sep part [] = part ∷ []
split_onto sep part (c ∷ s) =
    let next = split_onto sep [] s in
    let longer = split_onto sep (part ++ (c ∷ [])) s in if c == sep then part ∷ next else longer

unfoldable pub split : ℕ → Text → List Text
unfolding split_onto
split sep s = split_onto sep [] s

unfoldable pub encode_nodes : List Text → List ℕ
unfolding encode_base128 must_atoi
encode_nodes [] = []
encode_nodes (p ∷ ps) = encode_base128 (must_atoi p) ++ encode_nodes ps

-- encodeOID of the parts between the dots
unfoldable pub encode_parts : List Text → Result (List ℕ)
unfolding must_atoi encode_nodes
encode_parts [] = err short_oid
encode_parts (p ∷ []) = err short_oid
encode_parts (p ∷ q ∷ ps) =
    ok ((bits64 (scale 40 (must_atoi p) +ℤ must_atoi q) % 256) ∷ encode_nodes ps)

-- encodeOID
unfoldable pub encode_oid : Text → Result (List ℕ)
unfolding encode_parts split
encode_oid oid = encode_parts (split b'.' oid)

-- encOID; it panics with the error of encodeOID
unfoldable pub enc_oid : Text → Result (List ℕ)
unfolding encode_oid tlv
enc_oid oid = do encoded ← encode_oid oid; ok (tlv 0x06 encoded)

pub record Bind : Type 0 where
  pub oid : Text
  pub value : List ℕ

-- encodeVarBind
unfoldable pub encode_var_bind : Bind → Result (List ℕ)
unfolding enc_oid seq
encode_var_bind b = do oid ← enc_oid b.oid; ok (seq (oid ∷ b.value ∷ []))

unfoldable pub encode_var_binds : List Bind → Result (List (List ℕ))
unfolding encode_var_bind
encode_var_binds [] = ok []
encode_var_binds (b ∷ bs) = do
  first ← encode_var_bind b
  others ← encode_var_binds bs
  ok (first ∷ others)

-- The integers 1 and 0 as elements.
unfoldable pub int_tlv : ℤ → Result (List ℕ)
unfolding encode_integer_bytes tlv
int_tlv n = do bytes ← encode_integer_bytes n; ok (tlv 0x02 bytes)

-- buildV2Trap
unfoldable pub build_v2_trap : Text → List Bind → Result (List ℕ)
unfolding encode_var_binds int_tlv seq tlv concat
build_v2_trap community binds = do
  vb_seq ← encode_var_binds binds
  one ← int_tlv (pos 1)
  none_ ← int_tlv (pos 0)
  ok (seq (one ∷ tlv 0x04 community ∷ tlv 0xa7 (one ++ (none_ ++ (none_ ++ seq vb_seq))) ∷ []))
