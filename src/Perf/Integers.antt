-- ===== src/Perf/Integers.antt =====
-- cmd/snmptrap-relay-perf/main.go, encodeIntegerBytes: the big-endian bytes of a number, and their
-- two's complement.
use native.Mathlib.Nat.{pow-succ', mul_assoc}
use snmptrap_relay.Ber.{from_bytes, decode_signed, decode_unsigned}
use snmptrap_relay.Perf.Encode.{
  bytes_onto, negative_onto, pad_positive, pad_negative, encode_integer_bytes,
}
use snmptrap_relay.Prelude.Int.{ℤ, pos, negsuc}
use snmptrap_relay.Prelude.{
  ℕ, zero, suc, ◌≡◌, ◌≢◌, ◌∙◌, refl, ap, sym, List, [], ◌∷◌, map, ◌+◌, ◌-◌, ◌*◌, ◌/◌, ◌%◌, ◌≤◌, ◌<◌,
  ◌^◌, All, Bool-cases, inl, inr, Bool, true, false, ltb, ◌==◌, arith, length, if◌then◌else◌,
}
use snmptrap_relay.Result.{ok}

nonzero : (n : ℕ) → (suc n == 0) ≡ false
nonzero n = ground arith

from_bytes_nil : (n : ℕ) → from_bytes n [] ≡ n
unfolding from_bytes
from_bytes_nil n = refl

length-map : (bs : List ℕ) → length (map (λ b. 255 - b) bs) ≡ length bs
length-map [] = refl
length-map (b ∷ bs) = ap suc (length-map bs)

-- The bytes of n stand for it.
from_bytes-bytes_onto :
    (f n : ℕ) (out : List ℕ) → n ≤ f → from_bytes 0 (bytes_onto f n out) ≡ from_bytes n out
unfolding bytes_onto from_bytes
from_bytes-bytes_onto zero zero out h = refl
from_bytes-bytes_onto zero (suc n) out h = absurd (omega arith)
from_bytes-bytes_onto (suc f) zero out h = refl
from_bytes-bytes_onto (suc f) (suc n) out h =
    let back : suc n / 256 * 256 + suc n % 256 ≡ suc n = omega arith in
    rw (nonzero n) (
      from_bytes-bytes_onto f (suc n / 256) (suc n % 256 ∷ out) (omega arith)
      ∙ ap (λ k. from_bytes k out) back)

bytes_onto_small :
    (f n : ℕ) (out : List ℕ) → All (λ b. b < 256) out → All (λ b. b < 256) (bytes_onto f n out)
unfolding bytes_onto
bytes_onto_small zero n out h = h
bytes_onto_small (suc f) zero out h = h
bytes_onto_small (suc f) (suc n) out h =
    rw (nonzero n) (bytes_onto_small f (suc n / 256) (suc n % 256 ∷ out) (omega arith, h))

-- The positive numbers keep their value behind the padding.
decode_signed-pad_positive :
    (bs : List ℕ)
    → 0 < from_bytes 0 bs
    → (out : List ℕ) × (pad_positive bs ≡ ok out)
      × (decode_signed out ≡ pos (from_bytes 0 bs))
      × (from_bytes 0 out ≡ from_bytes 0 bs)
unfolding pad_positive decode_signed from_bytes
decode_signed-pad_positive [] h = absurd (omega (arith, h))
decode_signed-pad_positive (b ∷ bs) h = elim (Bool-cases (b / 128 % 2 == 0)) [
  | inl low ↦ (b ∷ bs, rw low refl, rw low refl, refl)
  | inr high ↦ (0 ∷ b ∷ bs, rw high refl, refl, refl)
]

abbrev complement : List ℕ → List ℕ
complement = map (λ b. 255 - b)

-- The loop on a negative number emits the complements of the bytes of the other.
negative_onto-complement :
    (f m : ℕ) (out : List ℕ) → negative_onto f m (complement out) ≡ complement (bytes_onto f m out)
unfolding negative_onto bytes_onto
negative_onto-complement zero m out = refl
negative_onto-complement (suc f) zero out = refl
negative_onto-complement (suc f) (suc m) out =
    rw (nonzero m) (negative_onto-complement f (suc m / 256) (suc m % 256 ∷ out))

pow_two_more : (k : ℕ) → 2 ^ suc (suc k) ≡ 4 * 2 ^ k
pow_two_more k = omega (arith, pow-succ' 2 (suc k), pow-succ' 2 k)

pow_byte : (k : ℕ) → 2 ^ (8 * suc k) ≡ 256 * 2 ^ (8 * k)
pow_byte k =
    let n = 8 * k in
    let more : 8 * suc k ≡ suc (suc (suc (suc (suc (suc (suc (suc n))))))) = omega arith in
    rw more (
      omega (
        arith,
        pow_two_more (suc (suc (suc (suc (suc (suc n)))))),
        pow_two_more (suc (suc (suc (suc n)))),
        pow_two_more (suc (suc n)),
        pow_two_more n,
      ))

-- A byte string and its complement add up to a string of ones.
from_bytes-complement :
    (a b s : ℕ) (bs : List ℕ)
    → All (λ c. c < 256) bs
    → a + b + 1 ≡ s
    → from_bytes a (complement bs) + from_bytes b bs + 1 ≡ s * 2 ^ (8 * length bs)
unfolding from_bytes
from_bytes-complement a b s [] h total = omega (arith, total)
from_bytes-complement a b s (c ∷ bs) h total =
    from_bytes-complement (a * 256 + (255 - c)) (b * 256 + c) (s * 256) bs h.1
      (omega (arith, h.0, total))
    ∙ mul_assoc s 256 (2 ^ (8 * length bs))
    ∙ ap (λ p. s * p) (sym (pow_byte (length bs)))

-- The complement of the bytes of m, with the high bit, is the number below zero.
decode_signed-complement :
    (b m : ℕ) (bs : List ℕ)
    → All (λ c. c < 256) (b ∷ bs)
    → b < 128
    → from_bytes 0 (b ∷ bs) ≡ m
    → decode_signed (complement (b ∷ bs)) ≡ negsuc m
unfolding decode_signed
decode_signed-complement b m bs h low value =
    let high : (255 - b) / 128 % 2 ≡ 1 = omega arith in
    let total = from_bytes-complement 0 0 1 (b ∷ bs) h refl in
    let same_size : length (complement (b ∷ bs)) ≡ length (b ∷ bs) = length-map (b ∷ bs) in
    rw (high, same_size) (ground (arith, total, value))

-- The negative numbers keep their value behind the padding.
decode_signed-pad_negative :
    (bs : List ℕ)
    → All (λ c. c < 256) bs
    → 0 < from_bytes 0 bs
    → (out : List ℕ) × (pad_negative (complement bs) ≡ ok out)
      × (decode_signed out ≡ negsuc (from_bytes 0 bs))
unfolding pad_negative from_bytes
decode_signed-pad_negative [] small h = absurd (omega (arith, h))
decode_signed-pad_negative (b ∷ bs) small h = elim (Bool-cases (ltb b 128)) [
  | inl low ↦
      let high : ((255 - b) / 128 % 2 == 0) ≡ false = ground arith in
      (complement (b ∷ bs), rw high refl, decode_signed-complement b _ bs small (ground arith) refl)
  | inr not_low ↦
      let clear : ((255 - b) / 128 % 2 == 0) ≡ true = ground (arith, small.0) in
      (
        complement (0 ∷ b ∷ bs),
        rw clear refl,
        decode_signed-complement 0 _ (b ∷ bs) (omega arith, small) (omega arith) refl,
      )
]

encode_integer_bytes-suc :
    (n : ℕ) → encode_integer_bytes (pos (suc n)) ≡ pad_positive (bytes_onto (suc n) (suc n) [])
unfolding encode_integer_bytes
encode_integer_bytes-suc n =
    ap (λ (b : Bool). if b then ok (0 ∷ []) else pad_positive (bytes_onto (suc n) (suc n) []))
      (nonzero n)

-- DecodeSignedBigInt reads back the bytes that encodeIntegerBytes writes of any integer but -1.
pub decode_signed-encode_integer_bytes :
    (z : ℤ)
    → z ≢ negsuc 0
    → (bytes : List ℕ) × (encode_integer_bytes z ≡ ok bytes) × (decode_signed bytes ≡ z)
unfolding encode_integer_bytes
decode_signed-encode_integer_bytes (pos zero) h =
    (0 ∷ [], refl, unfold decode_signed from_bytes in refl)
decode_signed-encode_integer_bytes (pos (suc n)) h =
    let value : from_bytes 0 (bytes_onto (suc n) (suc n) []) ≡ suc n =
      from_bytes-bytes_onto (suc n) (suc n) [] (omega arith) ∙ from_bytes_nil (suc n) in
    let (out, padded, read, unsigned) =
      decode_signed-pad_positive (bytes_onto (suc n) (suc n) []) (omega (arith, value)) in
    (out, encode_integer_bytes-suc n ∙ padded, read ∙ ap pos value)
decode_signed-encode_integer_bytes (negsuc zero) h = absurd (h refl)
decode_signed-encode_integer_bytes (negsuc (suc m)) h =
    let bytes = bytes_onto (suc m) (suc m) [] in
    let value : from_bytes 0 bytes ≡ suc m =
      from_bytes-bytes_onto (suc m) (suc m) [] (omega arith) ∙ from_bytes_nil (suc m) in
    let (out, padded, read) =
      decode_signed-pad_negative bytes (bytes_onto_small (suc m) (suc m) [] tt)
        (omega (arith, value)) in
    (
      out,
      ap pad_negative (negative_onto-complement (suc m) (suc m) []) ∙ padded,
      read ∙ ap negsuc value,
    )

-- Both readings of the bytes of a number that is not negative give it back.
pub encode_integer_bytes_pos :
    (n : ℕ)
    → (bytes : List ℕ) × (encode_integer_bytes (pos n) ≡ ok bytes)
      × (decode_signed bytes ≡ pos n)
      × (decode_unsigned bytes ≡ n)
unfolding decode_unsigned
encode_integer_bytes_pos zero = (
  0 ∷ [],
  unfold encode_integer_bytes in refl,
  unfold decode_signed from_bytes in refl,
  unfold from_bytes in refl,
)
encode_integer_bytes_pos (suc n) =
    let value : from_bytes 0 (bytes_onto (suc n) (suc n) []) ≡ suc n =
      from_bytes-bytes_onto (suc n) (suc n) [] (omega arith) ∙ from_bytes_nil (suc n) in
    let (out, padded, read, unsigned) =
      decode_signed-pad_positive (bytes_onto (suc n) (suc n) []) (omega (arith, value)) in
    (out, encode_integer_bytes-suc n ∙ padded, read ∙ ap pos value, unsigned ∙ value)
