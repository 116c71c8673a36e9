-- ===== src/Ber/Arcs.antt =====
-- internal/ber/ber.go, DecodeOID: an object identifier is read back from its encoding.
use snmptrap_relay.Ber.{first_arcs, next_value, oid_loop, decode_oid}
use snmptrap_relay.Prelude.Int.{pos, ◌+ℤ◌, scale, wrap64}
use snmptrap_relay.Prelude.{
  ℕ, zero, suc, ◌≡◌, ◌∙◌, refl, ap, List, [], ◌∷◌, ◌++◌, ◌+◌, ◌*◌, ◌≤◌, ◌<◌, ◌%◌, ◌/◌, ◌^◌, All,
  arith, false, ◌==◌, if◌then◌else◌,
}
use snmptrap_relay.Result.{Result, Error, ok, err, ◌>>=◌, truncated_oid}
use snmptrap_relay.Text.Number.{int_text}
use snmptrap_relay.Text.{Text, lit, join}

-- An arc as base-128 digits: all but the last, and the last.
pub record Arc : Type 0 where
  pub leading : List ℕ
  pub final : ℕ

-- The number that digits add to one before them.
abbrev pub with_digits : ℕ → List ℕ → ℕ
with_digits n [] = n
with_digits n (d ∷ ds) = with_digits (n * 128 + d) ds

abbrev pub arc_value : Arc → ℕ
arc_value a = with_digits 0 a.leading * 128 + a.final

-- Each digit but the last has the high bit set.
abbrev pub encode_leading : List ℕ → List ℕ → List ℕ
encode_leading [] bs = bs
encode_leading (d ∷ ds) bs = (128 + d) ∷ encode_leading ds bs

-- Arcs in front of other bytes.
abbrev pub encode_arcs : List Arc → List ℕ → List ℕ
encode_arcs [] bs = bs
encode_arcs (a ∷ arcs) bs = encode_leading a.leading (a.final ∷ encode_arcs arcs bs)

-- The digits are digits, and the value fits an int.
pub record IsArc (a : Arc) : Type 0 where
  pub digits : All (λ d. d < 128) a.leading
  pub last_digit : a.final < 128
  pub fits : arc_value a < 2 ^ 63

abbrev pub arc_texts : List Arc → List Text
arc_texts [] = []
arc_texts (a ∷ arcs) = int_text (pos (arc_value a)) ∷ arc_texts arcs

with_digits_le : (n : ℕ) (ds : List ℕ) → n ≤ with_digits n ds
with_digits_le n [] = omega arith
with_digits_le n (d ∷ ds) = omega (arith, with_digits_le (n * 128 + d) ds)

-- An arc that fits does not wrap.
next_value-pos :
    (n b : ℕ) → n * 128 + b % 128 < 2 ^ 63 → next_value (pos n) b ≡ pos (n * 128 + b % 128)
unfolding next_value wrap64 scale ◌+ℤ◌
next_value-pos n b h = ground arith

oid_loop-encode_leading :
    (n : ℕ) (ds : List ℕ) (d : ℕ) (bs : List ℕ)
    → All (λ x. x < 128) ds
    → d < 128
    → with_digits n ds * 128 + d < 2 ^ 63
    → oid_loop (pos n) (encode_leading ds (d ∷ bs))
      ≡ (do parts ← oid_loop (pos 0) bs; ok (int_text (pos (with_digits n ds * 128 + d)) ∷ parts))
unfolding oid_loop
oid_loop-encode_leading n [] d bs hs hd fits =
    let same : d % 128 ≡ d = omega arith in
    let value : next_value (pos n) d ≡ pos (n * 128 + d) =
      next_value-pos n d (omega arith) ∙ rw same refl in
    let low : d / 128 % 2 ≡ 0 = omega arith in rw (low, value) refl
oid_loop-encode_leading n (x ∷ ds) d bs hs hd fits =
    let same : (128 + x) % 128 ≡ x = omega arith in
    let small = with_digits_le (n * 128 + x) ds in
    let value : next_value (pos n) (128 + x) ≡ pos (n * 128 + x) =
      next_value-pos n (128 + x) (omega arith) ∙ rw same refl in
    let high : (128 + x) / 128 % 2 ≡ 1 = omega arith in
    rw (high, value) (oid_loop-encode_leading (n * 128 + x) ds d bs hs.1 hd fits)

-- What the loop answers for other bytes, with arcs in front of them.
abbrev behind_arcs : List Arc → Result (List Text) → Result (List Text)
behind_arcs [] r = r
behind_arcs (a ∷ arcs) r = do parts ← behind_arcs arcs r; ok (int_text (pos (arc_value a)) ∷ parts)

oid_loop-encode_arcs :
    (arcs : List Arc) (bs : List ℕ)
    → All IsArc arcs
    → oid_loop (pos 0) (encode_arcs arcs bs) ≡ behind_arcs arcs (oid_loop (pos 0) bs)
oid_loop-encode_arcs [] bs h = refl
oid_loop-encode_arcs (a ∷ arcs) bs h =
    oid_loop-encode_leading 0 a.leading a.final (encode_arcs arcs bs) h.0.digits h.0.last_digit
      h.0.fits
    ∙ rw (oid_loop-encode_arcs arcs bs h.1) refl

behind_arcs-ok : (arcs : List Arc) → behind_arcs arcs (ok []) ≡ ok (arc_texts arcs)
behind_arcs-ok [] = refl
behind_arcs-ok (a ∷ arcs) = rw (behind_arcs-ok arcs) refl

behind_arcs-err : (arcs : List Arc) (e : Error) → behind_arcs arcs (err e) ≡ err e
behind_arcs-err [] e = refl
behind_arcs-err (a ∷ arcs) e = rw (behind_arcs-err arcs e) refl

-- DecodeOID reads back an identifier that is encoded with any first byte and then, arc by arc, base-128
-- digits of which all but the last have the high bit set, if every arc is below 2^63: it gives the two
-- arcs of the first byte and then the others in decimal, with dots in between.
pub decode_oid-encode_arcs :
    (first : ℕ) (arcs : List Arc)
    → All IsArc arcs
    → decode_oid (first ∷ encode_arcs arcs [])
      ≡ ok (join (lit ".") (first_arcs first ++ arc_texts arcs))
unfolding decode_oid oid_loop
decode_oid-encode_arcs first arcs h =
    rw (oid_loop-encode_arcs arcs [] h) (rw (behind_arcs-ok arcs) refl)

-- The loop at one last digit that announces another.
oid_loop_open :
    (d : ℕ)
    → d < 128
    → oid_loop (pos 0) ((128 + d) ∷ []) ≡ (if d == 0 then ok [] else err truncated_oid)
unfolding oid_loop
oid_loop_open zero h = unfold next_value wrap64 scale ◌+ℤ◌ in refl
oid_loop_open (suc d) h =
    let same : 0 * 128 + (128 + suc d) % 128 ≡ suc d = omega arith in
    let value : next_value (pos 0) (128 + suc d) ≡ pos (suc d) =
      next_value-pos 0 (128 + suc d) (omega arith) ∙ ap pos same in
    let high : (128 + suc d) / 128 % 2 ≡ 1 = omega arith in
    let nonzero : (suc d == 0) ≡ false = ground arith in rw (high, value, nonzero) refl

-- When an encoding with arcs below 2^63 is cut off behind the first digit of an arc, DecodeOID returns
-- the error of a truncated encoding if the digit is not zero; if it is zero, it returns the identifier
-- without that arc, and no error.
pub decode_oid_truncated :
    (first : ℕ) (arcs : List Arc) (d : ℕ)
    → All IsArc arcs
    → d < 128
    → decode_oid (first ∷ encode_arcs arcs ((128 + d) ∷ []))
      ≡ (if d == 0 then decode_oid (first ∷ encode_arcs arcs []) else err truncated_oid)
unfolding decode_oid oid_loop
decode_oid_truncated first arcs zero h hd =
    rw (oid_loop-encode_arcs arcs (128 ∷ []) h, oid_loop-encode_arcs arcs [] h)
      (rw (oid_loop_open zero hd) refl)
decode_oid_truncated first arcs (suc d) h hd =
    let nonzero : (suc d == 0) ≡ false = ground arith in
    rw (oid_loop-encode_arcs arcs ((128 + suc d) ∷ []) h)
      (rw (oid_loop_open (suc d) hd) (rw (nonzero, behind_arcs-err arcs truncated_oid) refl))
