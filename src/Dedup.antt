-- ===== src/Dedup.antt =====
-- internal/dedup/store.go: the deduplication store. Each method runs under the store's mutex, so it
-- is one step on the state; a method returns its result and the new store.
pub mod Oldest
pub mod Steps
pub mod Cleanup
pub mod Invariant
pub mod Window
pub mod Refinement
use snmptrap_relay.Dict
use snmptrap_relay.Dict.{Eq}
use snmptrap_relay.Model.{TrapEvent, DedupState, expires_at}
use snmptrap_relay.Prelude.Int.{ℤ, pos, ltb_ℤ, leb_ℤ, ◌+ℤ◌, wrap64}
use snmptrap_relay.Prelude.{
  ℕ, Bool, true, false, not, ◌&&◌, ◌≡◌, ◌↔◌, refl, List, [], ◌∷◌, Option, none, some, arith, length,
  if◌then◌else◌,
}
use snmptrap_relay.Text.{Text, same, same_iff}

pub record CacheKey : Type 0 where
  pub rule_id : Text
  pub key_hash : Text

unfoldable pub key_same : CacheKey → CacheKey → Bool
unfolding same
key_same a b = same a.rule_id b.rule_id && same a.key_hash b.key_hash

pub key_same_iff : (a b : CacheKey) → (key_same a b ≡ true) ↔ (a ≡ b)
unfolding key_same
key_same_iff a b = ground (arith, same_iff a.rule_id b.rule_id, same_iff a.key_hash b.key_hash)

instance abbrev pub key_eq : Eq CacheKey
key_eq = record { beq = key_same; beq_iff = key_same_iff }

pub record Store : Type 0 where
  pub states : List (CacheKey × DedupState)
  pub limit : ℤ

abbrev pub cache_key : Text → Text → CacheKey
cache_key rule_id key_hash = record { rule_id = rule_id; key_hash = key_hash }

unfoldable pub new_store : ℤ → Store
new_store limit = record { states = []; limit = limit }

-- `!state.ExpiresAt().After(now)`
unfoldable pub is_expired : DedupState → ℤ → Bool
is_expired state now = not (ltb_ℤ now (expires_at state))

-- What the store shows of a stored state at a time: nothing, once it has expired.
unfoldable pub live : ℤ → Option DedupState → Option DedupState
unfolding is_expired
live now none = none
live now (some state) =
    if not state.hold_until_clear && is_expired state now then none else some state

-- The loop of Cleanup: the expired states in the order of the range, and the map that is left.
unfoldable pub cleanup_loop :
    ℤ → List (CacheKey × DedupState) → List DedupState × List (CacheKey × DedupState)
unfolding is_expired
cleanup_loop now [] = ([], [])
cleanup_loop now ((k, state) ∷ m) =
    let rest = cleanup_loop now m in
    if state.hold_until_clear
    then (rest.0, (k, state) ∷ rest.1)
    else if is_expired state now
    then (state ∷ rest.0, rest.1)
    else (rest.0, (k, state) ∷ rest.1)

-- (*Store).Cleanup
unfoldable pub cleanup : Store → ℤ → List DedupState × Store
unfolding cleanup_loop
cleanup s now =
    let (expired, kept) = cleanup_loop now s.states in (expired, record s { states = kept })

-- (*Store).Get
unfoldable pub get : Store → Text → Text → ℤ → Option DedupState × Store
unfolding Dict.get Dict.delete is_expired
get s rule_id key_hash now =
    let key = cache_key rule_id key_hash in
    elim (Dict.get key s.states) [
      | none ↦ (none, s)
      | some state ↦
          if not state.hold_until_clear && is_expired state now
          then (none, record s { states = Dict.delete key s.states })
          else (some state, s)
    ]

-- The loop of evictOldestLocked, from the oldest entry found so far.
unfoldable pub oldest_loop :
    Option (CacheKey × DedupState) → List (CacheKey × DedupState) → Option (CacheKey × DedupState)
oldest_loop oldest [] = oldest
oldest_loop none (e ∷ m) = oldest_loop (some e) m
oldest_loop (some o) (e ∷ m) =
    oldest_loop (some (if ltb_ℤ e.1.last_seen_at o.1.last_seen_at then e else o)) m

-- (*Store).evictOldestLocked
unfoldable pub evict_oldest : Store → Store
unfolding oldest_loop Dict.delete
evict_oldest s = elim (oldest_loop none s.states) [
  | none ↦ s
  | some (key, _) ↦ record s { states = Dict.delete key s.states }
]

-- compactEvent of an event that is there: four fields are kept, the others are zero values.
unfoldable pub compact_event : TrapEvent → TrapEvent
compact_event e = record {
  received_at = e.received_at;
  source_ip = e.source_ip;
  source_port = e.source_port;
  raw_bytes = [];
  version = pos 0;
  community = [];
  pdu_type = [];
  enterprise_oid = [];
  agent_address = [];
  generic_trap = [];
  generic_trap_name = [];
  specific_trap = [];
  uptime = [];
  request_id = pos 0;
  error_status = pos 0;
  error_index = pos 0;
  trap_oid = e.trap_oid;
  varbinds = [];
  raw_varbind_map = [];
  fields = [];
  alerts_logged = false;
}

-- The state that Put stores.
unfoldable pub fresh_state : Text → Text → Text → TrapEvent → ℤ → Bool → DedupState
unfolding compact_event
fresh_state rule_id key_hash key_repr event ttl_seconds hold_until_clear = record {
  rule_id = rule_id;
  key_hash = key_hash;
  key_repr = key_repr;
  first_event = compact_event event;
  first_seen_at = event.received_at;
  last_seen_at = event.received_at;
  ttl_seconds = ttl_seconds;
  hold_until_clear = hold_until_clear;
  suppressed_count = pos 0;
}

-- `if s.limit > 0 && len(s.states) >= s.limit { s.evictOldestLocked() }`
unfoldable pub make_room : Store → Store
unfolding evict_oldest
make_room s =
    if ltb_ℤ (pos 0) s.limit && leb_ℤ s.limit (pos (length s.states)) then evict_oldest s else s

-- (*Store).Put
unfoldable pub put : Store → Text → Text → Text → TrapEvent → ℤ → Bool → DedupState × Store
unfolding make_room fresh_state Dict.put
put s rule_id key_hash key_repr event ttl_seconds hold_until_clear =
    let room = make_room s in
    let state = fresh_state rule_id key_hash key_repr event ttl_seconds hold_until_clear in
    (state, record room { states = Dict.put (cache_key rule_id key_hash) state room.states })

-- What Touch writes through the pointer to the state.
unfoldable pub touched : DedupState → TrapEvent → DedupState
touched state event = record state {
  last_seen_at = event.received_at;
  suppressed_count = wrap64 (state.suppressed_count +ℤ pos 1);
}

-- (*Store).Touch
unfoldable pub touch : Store → Text → Text → TrapEvent → Option DedupState × Store
unfolding Dict.get Dict.put touched
touch s rule_id key_hash event =
    let key = cache_key rule_id key_hash in
    elim (Dict.get key s.states) [
      | none ↦ (none, s)
      | some state ↦ (
        some (touched state event),
        record s { states = Dict.put key (touched state event) s.states },
      )
    ]

-- (*Store).Clear
unfoldable pub clear : Store → Text → Text → Option DedupState × Store
unfolding Dict.get Dict.delete
clear s rule_id key_hash =
    let key = cache_key rule_id key_hash in
    (Dict.get key s.states, record s { states = Dict.delete key s.states })
