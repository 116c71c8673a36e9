-- ===== src/Ber/Reader/Unread.antt =====
-- internal/ber/ber.go, Reader: its positions and the bytes that it has not read.
use snmptrap_relay.Ber.Reader.{
  Reader, remaining, is_eof, advance, byte_at, slice, length_from, value_at, long_at, read_tlv_at,
}
use snmptrap_relay.Ber.{Tlv, length_loop, read_value, read_long, read_tlv}
use snmptrap_relay.Prelude.Int.{pos, sub_ℕ, ltb_ℤ}
use snmptrap_relay.Prelude.{
  ℕ, zero, suc, ◌≡◌, ◌↔◌, ◌⊎◌, ◌∙◌, sym, refl, ap, true, false, List, [], ◌∷◌, ◌+◌, ◌*◌, ◌-◌, ◌%◌,
  ◌≤◌, ltb, leb, ◌==◌, length, length-drop, take, drop, arith, Bool-cases, inl, inr, if◌then◌else◌,
}
use snmptrap_relay.Result.{
  Result, ok, err, truncated_value, indefinite_length, length_too_large, truncated_length,
  truncated_data,
}

-- The bytes that a reader has not read.
abbrev pub unread : Reader → List ℕ
unread r = drop r.position r.bytes

-- The position is not behind the end.
abbrev pub IsInside : Reader → Type 0
IsInside r = r.position ≤ length r.bytes

-- What a method of the reader returns and leaves agrees with a function on the unread bytes, and its position
-- is not behind the end.
pub record Agrees (from : Reader) (out : Result Tlv × Reader) (plain : Result Tlv × List ℕ)
    : Type 0 where
  pub result : out.0 ≡ plain.0
  pub bytes : out.1.bytes ≡ from.bytes
  pub inside : IsInside out.1
  pub rest : unread out.1 ≡ plain.1

drop_nil : (n : ℕ) → ◌≡◌ {A = List ℕ} [] (drop n [])
drop_nil zero = refl
drop_nil (suc n) = refl

later : (n k : ℕ) → suc (n + k) ≡ suc n + k
later n k = omega arith

drop-drop : (n k : ℕ) (xs : List ℕ) → drop k (drop n xs) ≡ drop (n + k) xs
drop-drop zero k xs = ap (λ (m : ℕ). drop m xs) (omega arith)
drop-drop (suc n) k [] = sym (drop_nil k) ∙ drop_nil (suc n + k)
drop-drop (suc n) k (x ∷ xs) = drop-drop n k xs ∙ ap (λ (m : ℕ). drop m (x ∷ xs)) (later n k)

sub_ℕ_le : (a b : ℕ) → b ≤ a → sub_ℕ a b ≡ pos (a - b)
sub_ℕ_le a b h = ground arith

remaining_pos : (r : Reader) → IsInside r → remaining r ≡ pos (length (unread r))
unfolding remaining
remaining_pos r h =
    sub_ℕ_le (length r.bytes) r.position h ∙ ap pos (sym (length-drop r.position r.bytes))

-- The test of the bytes that remain.
remaining_lt :
    (r : Reader) (n : ℕ) → IsInside r → ltb_ℤ (remaining r) (pos n) ≡ ltb (length (unread r)) n
remaining_lt r n h = rw (remaining_pos r h) (ground arith)

List-cases : (xs : List ℕ) → (xs ≡ []) ⊎ ((x : ℕ) × (rest : List ℕ) × (xs ≡ x ∷ rest))
List-cases [] = inl refl
List-cases (x ∷ xs) = inr (x, xs, refl)

empty_of : (xs : List ℕ) → length xs ≡ 0 → xs ≡ []
empty_of [] h = refl
empty_of (x ∷ xs) h = absurd (omega arith)

byte_at-drop :
    (i : ℕ) (bytes : List ℕ) (b : ℕ) (bs : List ℕ) → drop i bytes ≡ b ∷ bs → byte_at i bytes ≡ ok b
unfolding byte_at
byte_at-drop zero [] b bs h = ground arith
byte_at-drop (suc i) [] b bs h = ground arith
byte_at-drop zero (x ∷ xs) b bs h = ground arith
byte_at-drop (suc i) (x ∷ xs) b bs h = byte_at-drop i xs b bs h

drop_suc :
    (i : ℕ) (bytes : List ℕ) (b : ℕ) (bs : List ℕ) → drop i bytes ≡ b ∷ bs → drop (i + 1) bytes ≡ bs
drop_suc i bytes b bs h = sym (drop-drop i 1 bytes) ∙ ap (λ xs. drop 1 xs) h

-- The loop over the bytes of a length reads what stands in front of the unread bytes.
length_from-drop :
    (n i len : ℕ) (bytes : List ℕ)
    → i + n ≤ length bytes
    → length_from n i len bytes ≡ length_loop len (take n (drop i bytes))
unfolding length_from length_loop
length_from-drop zero i len bytes h = refl
length_from-drop (suc n) i len bytes h = elim (List-cases (drop i bytes)) [
  | inl none_left ↦ absurd (omega (arith, ap length none_left, length-drop i bytes))
  | inr (b, bs, left) ↦
      let next = length_from-drop n (i + 1) (len * 256 + b) bytes (omega arith) in
      elim (Bool-cases (ltb 0x7fffffffffffff len)) [
        | inl over ↦ rw left (rw over refl)
        | inr fits ↦ rw left (
            rw fits (
              rw (byte_at-drop i bytes b bs left) (rw next (rw (drop_suc i bytes b bs left) refl))))
      ]
]

stays : (result : Result Tlv) (r : Reader) → IsInside r → Agrees r (result, r) (result, unread r)
stays result r h = record { result = refl; bytes = refl; inside = h; rest = refl }

value_at-Agrees :
    (tag len : ℕ) (r : Reader)
    → IsInside r
    → Agrees r (value_at tag len r) (read_value tag len (unread r))
unfolding value_at read_value slice
value_at-Agrees tag len r h =
    let many = length-drop r.position r.bytes in
    elim (Bool-cases (ltb (length (unread r)) len)) [
      | inl short ↦ rw (remaining_lt r len h, value_at) (rw short (stays (err truncated_value) r h))
      | inr enough ↦
          let fits : leb (r.position + len) (length r.bytes) ≡ true = ground (arith, many) in
          rw (remaining_lt r len h, value_at)
            (rw enough (
              rw fits (record {
                result = refl;
                bytes = refl;
                inside = ground (arith, many);
                rest = sym (drop-drop r.position len r.bytes);
              })))
    ]

-- Behind the bytes that are read the reader goes on alike.
advance-Agrees :
    (n : ℕ) (r : Reader) (out : Result Tlv × Reader) (plain : Result Tlv × List ℕ)
    → Agrees (advance n r) out plain
    → Agrees r out plain
advance-Agrees n r out plain a = record {
  result = a.result;
  bytes = a.bytes;
  inside = a.inside;
  rest = a.rest;
}

-- The end of the branch for a length of several bytes.
after_length :
    (tag count : ℕ) (r : Reader) (read : Result ℕ)
    → IsInside r
    → IsInside (advance count r)
    → Agrees r
        (elim read [ err e ↦ (err e, r) | ok len ↦ value_at tag len (advance count r) ])
        (elim read [
          | err e ↦ (err e, unread r)
          | ok len ↦ read_value tag len (drop count (unread r))
        ])
after_length tag count r (err e) h inside = stays (err e) r h
after_length tag count r (ok len) h inside =
    rw (drop-drop r.position count r.bytes)
      (advance-Agrees count r _ _ (value_at-Agrees tag len (advance count r) inside))

long_at-Agrees :
    (tag count : ℕ) (r : Reader)
    → IsInside r
    → Agrees r (long_at tag count r) (read_long tag count (unread r))
unfolding long_at read_long
long_at-Agrees tag count r h =
    let many = length-drop r.position r.bytes in
    elim (Bool-cases (count == 0)) [
      | inl indefinite ↦ rw (indefinite, long_at, read_long) (stays (err indefinite_length) r h)
      | inr some_there ↦ elim (Bool-cases (ltb 4 count)) [
        | inl large ↦
            rw (some_there, long_at, read_long) (rw large (stays (err length_too_large) r h))
        | inr small ↦ elim (Bool-cases (ltb (length (unread r)) count)) [
          | inl short ↦
              rw (some_there, long_at, read_long)
                (rw small
                  (rw (remaining_lt r count h) (rw short (stays (err truncated_length) r h))))
          | inr enough ↦
              let inside : r.position + count ≤ length r.bytes = ground (arith, many) in
              let loop = length_from-drop count r.position 0 r.bytes inside in
              rw (some_there, long_at, read_long)
                (rw small (
                  rw (remaining_lt r count h)
                    (rw enough (rw loop (after_length tag count r _ h inside)))))
        ]
      ]
    ]

read_tlv_short : (xs : List ℕ) → ltb (length xs) 2 ≡ true → read_tlv xs ≡ (err truncated_data, xs)
unfolding read_tlv
read_tlv_short [] h = refl
read_tlv_short (x ∷ []) h = refl
read_tlv_short (x ∷ y ∷ xs) h = absurd (ground arith)

two_bytes :
    (xs : List ℕ)
    → ltb (length xs) 2 ≡ false
    → (tag first : ℕ) × (rest : List ℕ) × (xs ≡ tag ∷ first ∷ rest)
two_bytes [] h = absurd (ground arith)
two_bytes (x ∷ []) h = absurd (ground arith)
two_bytes (x ∷ y ∷ xs) h = (x, y, xs, refl)

-- ReadTLV behind its first two bytes.
body-Agrees :
    (tag first : ℕ) (r : Reader) (rest : List ℕ)
    → IsInside r
    → unread r ≡ rest
    → Agrees r
        (if ltb first 0x80 then value_at tag first r else long_at tag (first % 0x80) r)
        (if ltb first 0x80 then read_value tag first rest else read_long tag (first % 0x80) rest)
body-Agrees tag first r rest h is = elim (Bool-cases (ltb first 0x80)) [
  | inl short ↦ rw short (rw (← is) (value_at-Agrees tag first r h))
  | inr long ↦ rw long (rw (← is) (long_at-Agrees tag (first % 0x80) r h))
]

-- ReadTLV of a reader whose position is not behind the end never indexes or slices out of range: it returns
-- what it would on the bytes that the reader has not read, leaves the bytes as they are, and leaves a position
-- that is not behind the end, with the bytes unread that it would leave of these.
pub read_tlv_at-Agrees : (r : Reader) → IsInside r → Agrees r (read_tlv_at r) (read_tlv (unread r))
unfolding read_tlv_at read_tlv
read_tlv_at-Agrees r h = elim (Bool-cases (ltb (length (unread r)) 2)) [
  | inl short ↦
      rw (remaining_lt r 2 h, read_tlv_at)
        (rw short (rw (read_tlv_short (unread r) short) (stays (err truncated_data) r h)))
  | inr enough ↦
      let (tag, first, rest, more) = two_bytes (unread r) enough in
      let behind = drop_suc r.position r.bytes tag (first ∷ rest) more in
      let two : unread (advance 2 r) ≡ rest =
        sym (drop-drop r.position 2 r.bytes) ∙ ap (λ (xs : List ℕ). drop 2 xs) more in
      let inside : IsInside (advance 2 r) =
        omega (arith, length-drop r.position r.bytes, ap length more) in
      rw (remaining_lt r 2 h, read_tlv_at)
        (rw enough (
          rw (byte_at-drop r.position r.bytes tag (first ∷ rest) more) (
            rw (byte_at-drop (r.position + 1) r.bytes first rest behind) (
              rw (more, read_tlv)
                (advance-Agrees 2 r _ _ (body-Agrees tag first (advance 2 r) rest inside two))))))
]

-- A reader whose position is not behind the end is at its end exactly when it has no unread byte.
pub is_eof-unread : (r : Reader) → IsInside r → (is_eof r ≡ true) ↔ (unread r ≡ [])
unfolding is_eof
is_eof-unread r h = (
  λ over. empty_of (unread r) (ground (arith, length-drop r.position r.bytes)),
  λ none_left. ground (arith, length-drop r.position r.bytes, ap length none_left),
)
