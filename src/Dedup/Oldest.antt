-- ===== src/Dedup/Oldest.antt =====
-- internal/dedup/store.go, evictOldestLocked: which entry goes.
use snmptrap_relay.Dedup.{CacheKey, key_eq, key_same_iff, Store, oldest_loop, evict_oldest}
use snmptrap_relay.Dict
use snmptrap_relay.Model.{DedupState}
use snmptrap_relay.Prelude.Int.{ℤ, ◌≤ℤ◌, ltb_ℤ}
use snmptrap_relay.Prelude.{
  ◌≡◌, refl, ◌⊎◌, inl, inr, List, [], ◌∷◌, some, arith, All, Bool-cases, if◌then◌else◌, length, ◌<◌,
}

abbrev pub Entry : Type 0
Entry = CacheKey × DedupState

-- No entry of the list was last seen before this one.
abbrev pub IsOldest : Entry → List Entry → Type 0
IsOldest e = All (λ x. e.1.last_seen_at ≤ℤ x.1.last_seen_at)

-- What the loop answers is no younger than its start, nor than any entry of the list.
oldest_loop-IsOldest :
    (o : Entry) (m : List Entry) (e : Entry)
    → oldest_loop (some o) m ≡ some e
    → (e.1.last_seen_at ≤ℤ o.1.last_seen_at) × IsOldest e m
unfolding oldest_loop
oldest_loop-IsOldest o [] e h = ground arith
oldest_loop-IsOldest o (x ∷ m) e h = elim (Bool-cases (ltb_ℤ x.1.last_seen_at o.1.last_seen_at)) [
  | inl younger ↦ ground (arith, oldest_loop-IsOldest x m e (rw younger at h))
  | inr older ↦ ground (arith, oldest_loop-IsOldest o m e (rw older at h))
]

-- What the loop answers is its start or an entry of the map.
oldest_loop_found :
    (o : Entry) (m : List Entry) (e : Entry)
    → Dict.IsDistinct m
    → oldest_loop (some o) m ≡ some e
    → (e ≡ o) ⊎ (Dict.get e.0 m ≡ some e.1)
unfolding oldest_loop Dict.get
oldest_loop_found o [] e d h = inl (ground arith)
oldest_loop_found o (x ∷ m) e d h = elim (Bool-cases (ltb_ℤ x.1.last_seen_at o.1.last_seen_at)) [
  | inl younger ↦ ground (
    arith,
    oldest_loop_found x m e d.1 (rw younger at h),
    key_same_iff x.0 e.0,
    key_same_iff x.0 x.0,
  )
  | inr older ↦ ground (arith, oldest_loop_found o m e d.1 (rw older at h), key_same_iff x.0 e.0)
]

oldest_loop_total : (o : Entry) (m : List Entry) → (e : Entry) × (oldest_loop (some o) m ≡ some e)
unfolding oldest_loop
oldest_loop_total o [] = (o, refl)
oldest_loop_total o (x ∷ m) =
    oldest_loop_total (if ltb_ℤ x.1.last_seen_at o.1.last_seen_at then x else o) m

-- The entry that goes.
pub record IsEvicted (s : Store) (e : Entry) : Type 0 where
  pub present : Dict.get e.0 s.states ≡ some e.1
  pub oldest : IsOldest e s.states
  pub removed : evict_oldest s ≡ record s { states = Dict.delete e.0 s.states }

IsEvicted-from :
    (limit : ℤ) (m : List Entry)
    → Dict.IsDistinct m
    → 0 < length m
    → (e : Entry) × IsEvicted (record { states = m; limit = limit }) e
unfolding evict_oldest Dict.get
IsEvicted-from limit [] d h = absurd (omega arith)
IsEvicted-from limit (x ∷ m) d h =
    let (e, found) = oldest_loop_total x m in
    let bounds = oldest_loop-IsOldest x m e found in
    (
      e,
      record {
        present =
            ground (
              arith,
              oldest_loop_found x m e d.1 found,
              key_same_iff x.0 e.0,
              key_same_iff x.0 x.0,
            );
        oldest = bounds;
        removed = ground (arith, found);
      },
    )

-- On a map that holds something, and no key twice, evictOldestLocked removes one entry of the map,
-- and no entry of the map was last seen before it.
pub evict_oldest-IsEvicted :
    (s : Store) → Dict.IsDistinct s.states → 0 < length s.states → (e : Entry) × IsEvicted s e
evict_oldest-IsEvicted s = IsEvicted-from s.limit s.states
