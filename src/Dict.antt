-- ===== src/Dict.antt =====
-- Go's maps as association lists. The order of a list stands for the order in which one `range`
-- over the map meets its entries; Go promises no order, so what is stated of a map is stated of
-- every list.
use mathlib.Core.Path.{subst₂}
use snmptrap_relay.Prelude.{
  Bool-cases, inl, inr, suc, ◌≤◌, ◌≡◌, refl, ◌↔◌, Bool, true, List, [], ◌∷◌, Option, none, some,
  arith, length, if◌then◌else◌, All,
}

-- A type of keys: Go's `==` on it, and that it decides equality.
pub record Eq {ℓ} (A : Type ℓ) : Type ℓ where
  pub beq : A → A → Bool
  pub beq_iff : (a b : A) → (beq a b ≡ true) ↔ (a ≡ b)

module _ {ℓ κ} {K : Type ℓ} {V : Type κ} ⦃e : Eq K⦄ where
  -- m[k], with `none` where the map has no such key
  unfoldable pub get : K → List (K × V) → Option V
  get k [] = none
  get k ((j, v) ∷ m) = if e.beq j k then some v else get k m

  -- m[k] = v
  unfoldable pub put : K → V → List (K × V) → List (K × V)
  put k v [] = (k, v) ∷ []
  put k v ((j, w) ∷ m) = if e.beq j k then (k, v) ∷ m else (j, w) ∷ put k v m

  -- delete(m, k)
  unfoldable pub delete : K → List (K × V) → List (K × V)
  delete k [] = []
  delete k ((j, w) ∷ m) = if e.beq j k then delete k m else (j, w) ∷ delete k m

  -- No key stands twice, as in every Go map.
  abbrev pub IsDistinct : List (K × V) → Type κ
  IsDistinct [] = Unit
  IsDistinct ((j, w) ∷ m) = (get j m ≡ none) × IsDistinct m

  pub get-put :
      (k j : K) (v : V) (m : List (K × V))
      → get j (put k v m) ≡ (if e.beq k j then some v else get j m)
  unfolding get put
  get-put k j v [] = refl
  get-put k j v ((i, w) ∷ m) =
      ground (arith, e.beq_iff k j, e.beq_iff i k, e.beq_iff i j, get-put k j v m)

  pub get-delete :
      (k j : K) (m : List (K × V)) → get j (delete k m) ≡ (if e.beq k j then none else get j m)
  unfolding get delete
  get-delete k j [] = ground arith
  get-delete k j ((i, w) ∷ m) =
      ground (arith, e.beq_iff k j, e.beq_iff i k, e.beq_iff i j, get-delete k j m)

  pub delete-IsDistinct : (k : K) (m : List (K × V)) → IsDistinct m → IsDistinct (delete k m)
  unfolding get delete
  delete-IsDistinct k [] d = d
  delete-IsDistinct k ((i, w) ∷ m) d = ground (arith, delete-IsDistinct k m d.1, get-delete k i m)

  pub put-IsDistinct : (k : K) (v : V) (m : List (K × V)) → IsDistinct m → IsDistinct (put k v m)
  unfolding get put
  put-IsDistinct k v [] d = ground arith
  put-IsDistinct k v ((i, w) ∷ m) d =
      ground (arith, put-IsDistinct k v m d.1, get-put k i v m, e.beq_iff i k, e.beq_iff k i)

  pub length-delete-le : (k : K) (m : List (K × V)) → length (delete k m) ≤ length m
  unfolding delete
  length-delete-le k [] = omega arith
  length-delete-le k ((i, w) ∷ m) = ground (arith, length-delete-le k m)

  -- Deleting a key that is there makes the map smaller.
  pub length-delete_present :
      (k : K) (v : V) (m : List (K × V)) → get k m ≡ some v → suc (length (delete k m)) ≤ length m
  unfolding get delete
  length-delete_present k v [] h = cc
  length-delete_present k v ((i, w) ∷ m) h =
      ground (arith, length-delete-le k m, length-delete_present k v m)

  pub length-put-le : (k : K) (v : V) (m : List (K × V)) → length (put k v m) ≤ suc (length m)
  unfolding put
  length-put-le k v [] = omega arith
  length-put-le k v ((i, w) ∷ m) = ground (arith, length-put-le k v m)

  pub length-put_present :
      (k : K) (v w : V) (m : List (K × V)) → get k m ≡ some w → length (put k v m) ≡ length m
  unfolding get put
  length-put_present k v w [] h = cc
  length-put_present k v w ((i, x) ∷ m) h = ground (arith, length-put_present k v w m)

module _ {ℓ κ μ} {K : Type ℓ} {V : Type κ} ⦃e : Eq K⦄ (P : K × V → Type μ) where
  pub All-delete : (k : K) (m : List (K × V)) → All P m → All P (delete k m)
  unfolding delete
  All-delete k [] h = h
  All-delete k ((i, w) ∷ m) h = elim (Bool-cases (e.beq i k)) [
    | inl here ↦ rw here (All-delete k m h.1)
    | inr there ↦ rw there (h.0, All-delete k m h.1)
  ]

  pub All-put : (k : K) (v : V) (m : List (K × V)) → P (k, v) → All P m → All P (put k v m)
  unfolding put
  All-put k v [] p h = (p, tt)
  All-put k v ((i, w) ∷ m) p h = elim (Bool-cases (e.beq i k)) [
    | inl here ↦ rw here (p, h.1)
    | inr there ↦ rw there (h.0, All-put k v m p h.1)
  ]

  pub All-get : (k : K) (v : V) (m : List (K × V)) → All P m → get k m ≡ some v → P (k, v)
  unfolding get
  All-get k v [] h found = cc
  All-get k v ((i, w) ∷ m) h found = elim (Bool-cases (e.beq i k)) [
    | inl here ↦
        let same_value : some w ≡ some v = rw here at found in
        subst₂ (λ j x. P (j, x)) ((e.beq_iff i k).0 here) (cc) h.0
    | inr there ↦ All-get k v m h.1 (rw there at found)
  ]
