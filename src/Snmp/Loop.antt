-- ===== src/Snmp/Loop.antt =====
-- internal/snmp/parser.go: the loop of decodeVarBinds ends, and so does ParseTrap.
use snmptrap_relay.Ber.Elements.{read_tlv_part}
use snmptrap_relay.Ber.{
  Tlv, decode_signed, length_loop, read_value, read_long, read_tlv, next_value, oid_loop,
  decode_oid, universal_value, decode_value,
}
use snmptrap_relay.Model.{TrapEvent}
use snmptrap_relay.Prelude.Int.{ℤ, pos}
use snmptrap_relay.Prelude.{
  ℕ, zero, suc, ◌≡◌, ◌≢◌, refl, ap, Bool, true, false, List, [], ◌∷◌, ◌++◌, ◌+◌, ◌*◌, ◌≤◌, ◌<◌,
  arith, length, length-append, take, ◌%◌, if◌then◌else◌,
}
use snmptrap_relay.Result.{Result, Error, ok, err, out_of_fuel, panicked, ◌>>=◌, require}
use snmptrap_relay.Snmp.{
  Library, read_next, decode_var_bind, var_bind_loop, decode_var_binds, parse_v1, parse_v2,
  parse_pdu, parse_trap, new_event,
}
use snmptrap_relay.Text.{Text}

-- The errors that stand for a loop without end and for a panic.
abbrev is_stuck : Error → Bool
is_stuck out_of_fuel = true
is_stuck panicked = true
is_stuck _ = false

-- The result of a computation that ends without a panic.
abbrev is_finished {ℓ} : {A : Type ℓ} → Result A → Bool
is_finished (ok a) = true
is_finished (err e) = if is_stuck e then false else true

-- The same as a family, for the rules of a sequence of steps.
data Finishes {ℓ} {A : Type ℓ} : Result A → Type ℓ where
  finished : {r : Result A} → is_finished r ≡ true → Finishes r

finished_iff {ℓ} : {A : Type ℓ} {r : Result A} → Finishes r → is_finished r ≡ true
finished_iff (finished h) = h

-- It ends, if its first part does and what follows on each value.
finished-bind {ℓ κ} :
    {A : Type ℓ} {B : Type κ} {m : Result A} {f : A → Result B}
    → Finishes m
    → ((a : A) → m ≡ ok a → Finishes (f a))
    → Finishes (m >>= f)
finished-bind {m = ok a} h k = k a refl
finished-bind {m = err e} h k = finished (finished_iff h)

finished-require {ℓ} :
    {A : Type ℓ} (test : Bool) (e : Error) {next : Result A}
    → is_stuck e ≡ false
    → Finishes next
    → Finishes (require test e next)
finished-require true e h k = k
finished-require false e h k = finished (rw h refl)

length_loop_finished : (n : ℕ) (bs : List ℕ) → is_finished (length_loop n bs) ≡ true
unfolding length_loop
length_loop_finished n [] = refl
length_loop_finished n (b ∷ bs) = ground (arith, length_loop_finished (n * 256 + b) bs)

read_tlv_finished : (bs : List ℕ) → is_finished (read_tlv bs).0 ≡ true
unfolding read_tlv read_long read_value
read_tlv_finished [] = refl
read_tlv_finished (tag ∷ []) = refl
read_tlv_finished (tag ∷ first ∷ bs) =
    ground (arith, length_loop_finished 0 (take (first % 0x80) bs))

read_next_finished : (bs : List ℕ) → Finishes (read_next bs)
unfolding read_next
read_next_finished bs = finished-bind (finished (read_tlv_finished bs)) (λ a h. finished refl)

-- A reader moves on at each element.
pub read_next_shorter :
    (bs : List ℕ) (t : Tlv) (rest : List ℕ) → read_next bs ≡ ok (t, rest) → length rest < length bs
unfolding read_next
read_next_shorter bs t rest h =
    let read : read_tlv bs ≡ (ok t, rest) = ground arith in
    let (header, parts, size, some_byte, few) = read_tlv_part bs t rest read in
    let total = ap (λ (l : List ℕ). length l) parts in
    omega (arith, total, length-append header (t.value ++ rest), length-append t.value rest)

oid_loop_finished : (value : ℤ) (bs : List ℕ) → is_finished (oid_loop value bs) ≡ true
unfolding oid_loop
oid_loop_finished value [] = ground arith
oid_loop_finished value (b ∷ bs) =
    ground (arith, oid_loop_finished (pos 0) bs, oid_loop_finished (next_value value b) bs)

decode_oid_finished : (bs : List ℕ) → Finishes (decode_oid bs)
unfolding decode_oid
decode_oid_finished [] = finished refl
decode_oid_finished (b ∷ bs) =
    finished-bind (finished (oid_loop_finished (pos 0) bs)) (λ a h. finished refl)

decode_value_finished : (ip_text : List ℕ → Text) (t : Tlv) → Finishes (decode_value ip_text t)
unfolding decode_value universal_value
decode_value_finished ip_text t =
    finished (ground (arith, finished_iff (decode_oid_finished t.value)))

module _ (lib : Library) where
  decode_var_bind_finished : (item : Tlv) → Finishes (decode_var_bind lib item)
  unfolding decode_var_bind
  decode_var_bind_finished item = finished-require _ _ refl (
      finished-bind (read_next_finished item.value) (λ a h. finished-require _ _ refl (
        finished-bind (decode_oid_finished a.0.value) (λ oid i.
          finished-bind (read_next_finished a.1) (λ b j.
            finished-bind (decode_value_finished lib.ip_text b.0) (λ c k. finished refl))))))

  -- As much fuel as there are bytes is enough for the loop.
  var_bind_loop_finished :
      (fuel : ℕ) (bs : List ℕ) → length bs ≤ fuel → Finishes (var_bind_loop lib fuel bs)
  unfolding var_bind_loop
  var_bind_loop_finished fuel [] h = finished refl
  var_bind_loop_finished zero (b ∷ bs) h = absurd (omega arith)
  var_bind_loop_finished (suc fuel) (b ∷ bs) h = finished-bind (read_next_finished (b ∷ bs)) (λ a i.
      let shorter = read_next_shorter (b ∷ bs) a.0 a.1 i in
      finished-bind (decode_var_bind_finished a.0) (λ vb j.
        finished-bind (var_bind_loop_finished fuel a.1 (omega arith)) (λ vbs k. finished refl)))

  decode_var_binds_finished : (bs : List ℕ) → Finishes (decode_var_binds lib bs)
  unfolding decode_var_binds
  decode_var_binds_finished bs = finished-bind (read_next_finished bs) (λ a h.
      finished-require _ _ refl (var_bind_loop_finished (length a.0.value) a.0.value (omega arith)))

  parse_v1_finished : (event : TrapEvent) (body : List ℕ) → Finishes (parse_v1 lib event body)
  unfolding parse_v1
  parse_v1_finished event body = finished-bind (read_next_finished body) (λ a h1.
      finished-bind (decode_oid_finished a.0.value) (λ oid h2.
        finished-bind (read_next_finished a.1) (λ b h3.
          finished-bind (decode_value_finished lib.ip_text b.0) (λ v h4.
            finished-bind (read_next_finished b.1) (λ c h5.
              finished-bind (read_next_finished c.1) (λ d h6.
                finished-bind (read_next_finished d.1) (λ e h7.
                  finished-bind (decode_var_binds_finished e.1) (λ vbs h8. finished refl))))))))

  parse_v2_finished : (event : TrapEvent) (body : List ℕ) → Finishes (parse_v2 lib event body)
  unfolding parse_v2
  parse_v2_finished event body = finished-bind (read_next_finished body) (λ a h1.
      finished-bind (read_next_finished a.1) (λ b h2.
        finished-bind (read_next_finished b.1)
          (λ c h3. finished-bind (decode_var_binds_finished c.1) (λ vbs h4. finished refl))))

  parse_pdu_finished : (event : TrapEvent) (pdu : Tlv) → Finishes (parse_pdu lib event pdu)
  unfolding parse_pdu
  parse_pdu_finished event pdu = finished (
      ground (
        arith,
        finished_iff (parse_v1_finished event pdu.value),
        finished_iff (parse_v2_finished event pdu.value),
      ))

  parse_trap_finished :
      (now : ℤ) (payload : List ℕ) (source_ip : Text) (source_port : ℤ)
      (aliases : List (Text × Text))
      → Finishes (parse_trap lib now payload source_ip source_port aliases)
  unfolding parse_trap
  parse_trap_finished now payload source_ip source_port aliases =
      finished-bind (read_next_finished payload) (λ a h1. finished-require _ _ refl (
        finished-bind (read_next_finished a.0.value) (λ b h2. finished-require _ _ refl (
          finished-require _ _ refl (
            finished-bind (read_next_finished b.1) (λ c h3. finished-require _ _ refl (
              finished-bind (read_next_finished c.1) (λ d h4.
                finished-bind
                  (parse_pdu_finished
                    (new_event now payload source_ip source_port (decode_signed b.0.value) c.0.value
                      d.0.tag)
                    d.0)
                  (λ e h5. finished refl)))))))))

  -- The loop over the variable bindings ends, on every datagram: the fuel that stands for it in the
  -- model, a round for each byte, is never used up.
  pub parse_trap-ne-out_of_fuel :
      (now : ℤ) (payload : List ℕ) (source_ip : Text) (source_port : ℤ)
      (aliases : List (Text × Text))
      → parse_trap lib now payload source_ip source_port aliases ≢ err out_of_fuel
  parse_trap-ne-out_of_fuel now payload source_ip source_port aliases stuck =
      let ends = finished_iff (parse_trap_finished now payload source_ip source_port aliases) in
      ground (arith, stuck, ends)

  pub parse_trap-ne-panicked :
      (now : ℤ) (payload : List ℕ) (source_ip : Text) (source_port : ℤ)
      (aliases : List (Text × Text))
      → parse_trap lib now payload source_ip source_port aliases ≢ err panicked
  parse_trap-ne-panicked now payload source_ip source_port aliases stuck =
      let ends = finished_iff (parse_trap_finished now payload source_ip source_port aliases) in
      ground (arith, stuck, ends)
