-- ===== src/Dedup/Invariant.antt =====
-- internal/dedup/store.go: what holds of the store after every method.
use snmptrap_relay.Dedup.Cleanup.{cleanup_loop-IsDistinct, cleanup_loop_count, cleanup_loop-All}
use snmptrap_relay.Dedup.Oldest.{Entry, evict_oldest-IsEvicted}
use snmptrap_relay.Dedup.{
  CacheKey, key_eq, Store, cache_key, new_store, cleanup, get, evict_oldest, make_room, fresh_state,
  put, touched, touch, clear,
}
use snmptrap_relay.Dict
use snmptrap_relay.Dict.{
  All-delete, All-put, All-get, length-delete-le, length-delete_present, length-put-le,
  length-put_present, put-IsDistinct, delete-IsDistinct,
}
use snmptrap_relay.Model.{TrapEvent, DedupState}
use snmptrap_relay.Prelude.Int.{ℤ, pos, ltb_ℤ, leb_ℤ, ◌≤ℤ◌, ◌<ℤ◌}
use snmptrap_relay.Prelude.{
  ◌≡◌, some, arith, All, true, length, Option-cases, Bool-cases, inl, inr, ◌⊎◌, Bool, refl, ◌&&◌,
}
use snmptrap_relay.Text.{Text}

-- The state under a key names the rule and the hash of the key.
abbrev pub IsKeyed : Entry → Type 0
IsKeyed e = (e.1.rule_id ≡ e.0.rule_id) × (e.1.key_hash ≡ e.0.key_hash)

-- No key stands twice, each state stands under its own key, and a positive limit is not exceeded.
pub record IsValid (s : Store) : Type 0 where
  pub distinct : Dict.IsDistinct s.states
  pub keyed : All IsKeyed s.states
  pub bounded : (s.limit ≤ℤ pos 0) ⊎ (pos (length s.states) ≤ℤ s.limit)

-- Removing a key keeps all of it.
pub removed-IsValid :
    (s : Store) (k : CacheKey) → IsValid s → IsValid (record s { states = Dict.delete k s.states })
removed-IsValid s k v = record {
  distinct = delete-IsDistinct k s.states v.distinct;
  keyed = All-delete IsKeyed k s.states v.keyed;
  bounded = ground (arith, v.bounded, length-delete-le k s.states);
}

pub new_store-IsValid : (limit : ℤ) → IsValid (new_store limit)
unfolding new_store
new_store-IsValid limit = record { distinct = tt; keyed = tt; bounded = ground arith }

pub cleanup-IsValid : (s : Store) (now : ℤ) → IsValid s → IsValid (cleanup s now).1
unfolding cleanup
cleanup-IsValid s now v = record {
  distinct = cleanup_loop-IsDistinct now s.states v.distinct;
  keyed = cleanup_loop-All IsKeyed now s.states v.keyed;
  bounded = ground (arith, v.bounded, cleanup_loop_count now s.states);
}

pub get-IsValid :
    (s : Store) (rule_id key_hash : Text) (now : ℤ)
    → IsValid s
    → IsValid (get s rule_id key_hash now).1
unfolding get
get-IsValid s rule_id key_hash now v =
    grind (arith, v, removed-IsValid s (cache_key rule_id key_hash) v)

pub clear-IsValid :
    (s : Store) (rule_id key_hash : Text) → IsValid s → IsValid (clear s rule_id key_hash).1
unfolding clear
clear-IsValid s rule_id key_hash v = removed-IsValid s (cache_key rule_id key_hash) v

-- A key that is there can be written again.
written-IsValid :
    (s : Store) (k : CacheKey) (state old : DedupState)
    → Dict.get k s.states ≡ some old
    → IsKeyed (k, state)
    → IsValid s
    → IsValid (record s { states = Dict.put k state s.states })
written-IsValid s k state old found own v = record {
  distinct = put-IsDistinct k state s.states v.distinct;
  keyed = All-put IsKeyed k state s.states own v.keyed;
  bounded = ground (arith, v.bounded, length-put_present k state old s.states found);
}

pub touch-IsValid :
    (s : Store) (rule_id key_hash : Text) (event : TrapEvent)
    → IsValid s
    → IsValid (touch s rule_id key_hash event).1
unfolding touch
touch-IsValid s rule_id key_hash event v =
    let key = cache_key rule_id key_hash in
    elim (Option-cases (Dict.get key s.states)) [
      | inl missing ↦ rw (missing, touch) v
      | inr (old, found) ↦
          rw (found, touch)
            (written-IsValid s key (touched old event) old found
              (All-get IsKeyed key old s.states v.keyed found) v)
    ]

-- There is room for one more entry, if the limit is positive.
pub record HasRoom (s : Store) : Type 0 where
  pub valid : IsValid s
  pub room : (s.limit ≤ℤ pos 0) ⊎ (pos (length s.states) <ℤ s.limit)

abbrev pub is_full : Store → Bool
is_full s = ltb_ℤ (pos 0) s.limit && leb_ℤ s.limit (pos (length s.states))

evicted-HasRoom : (s : Store) → IsValid s → is_full s ≡ true → HasRoom (evict_oldest s)
evicted-HasRoom s v full =
    let (e, gone) = evict_oldest-IsEvicted s v.distinct (ground arith) in
    rw gone.removed (record {
      valid = removed-IsValid s e.0 v;
      room = ground (arith, v.bounded, length-delete_present e.0 e.1 s.states gone.present);
    })

-- evictOldestLocked runs only on a full store, and makes room.
pub make_room-HasRoom : (s : Store) → IsValid s → HasRoom (make_room s)
unfolding make_room
make_room-HasRoom s v = elim (Bool-cases (is_full s)) [
  | inl full ↦ rw full (evicted-HasRoom s v full)
  | inr open_ ↦ rw open_ (record { valid = v; room = ground (arith, open_) })
]

pub put-IsValid :
    (s : Store) (rule_id key_hash key_repr : Text) (event : TrapEvent) (ttl : ℤ) (hold : Bool)
    → IsValid s
    → IsValid (put s rule_id key_hash key_repr event ttl hold).1
unfolding put
put-IsValid s rule_id key_hash key_repr event ttl hold v =
    let key = cache_key rule_id key_hash in
    let state = fresh_state rule_id key_hash key_repr event ttl hold in
    let r = make_room-HasRoom s v in
    let m = (make_room s).states in
    record {
      distinct = put-IsDistinct key state m r.valid.distinct;
      keyed = All-put IsKeyed key state m (unfold fresh_state in (refl, refl)) r.valid.keyed;
      bounded = ground (arith, r.room, length-put-le key state m);
    }
