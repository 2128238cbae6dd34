-- ===== src/Server/ChunkManager/Bounds.antt =====
-- The bounds that ChunkManager (pkg/server/manager.go) keeps on what it holds.
use xll_gen.Prelude.{
  ℕ, ◌≤◌, ◌<◌, ◌≡◌, refl, inl, inr, false, not, some, arith, ltb, leb, ◌==◌, nat_eq, length,
  length-replicate, lookup, insert, erase, Distinct, Entries, Entries-erase, Entries-insert,
  Entries-keep_if, erase-Distinct, insert-Distinct, keep_if-Distinct, length-erase_le,
  length-erase_lt, length-keep_if, Bool-cases, Option-cases,
}
use xll_gen.Server.Segments.Claims.{Ascending, Within, bytes_in}
use xll_gen.Server.ChunkManager.{
  ChunkManager, ChunkManagerConfig, ChunkBuffer, new_from_config, effective_ttl,
  effective_max_transfers, effective_max_poisoned, effective_max_bytes, prune_stale, make_room,
  fresh_buffer, store, open_transfer, get_chunk_buffer, remove_chunk_buffer, is_poisoned, is_stale,
}

-- A buffer's segments are in order and in bounds, and its count is theirs.
pub record IsFilled (limit : ℕ) (b : ChunkBuffer) : Type 0 where
  pub sized : length b.bytes ≡ b.total_size
  pub positive : 0 < b.total_size
  pub capped : b.total_size ≤ limit
  pub ascending : Ascending 0 b.segments
  pub within : Within b.total_size b.segments
  pub counted : b.received ≡ bytes_in b.segments
  pub waiting : b.dispatched ≡ false

-- A buffer in the cache is not complete.
pub record IsBuffer (limit : ℕ) (b : ChunkBuffer) : Type 0 where
  pub filled : IsFilled limit b
  pub open filled use *
  pub incomplete : b.received < b.total_size

pub record IsValid (cm : ChunkManager) : Type 0 where
  pub distinct : Distinct cm.chunk_cache
  pub bounded : length cm.chunk_cache ≤ effective_max_transfers cm
  pub buffers : Entries (λ id. IsBuffer (effective_max_bytes cm)) cm.chunk_cache
  pub poison_distinct : Distinct cm.poisoned
  pub poison_bounded : length cm.poisoned ≤ effective_max_poisoned cm

pub new_from_config-IsValid : (c : ChunkManagerConfig) → IsValid (new_from_config c)
unfolding new_from_config
new_from_config-IsValid c = record {
  distinct = tt;
  bounded = omega arith;
  buffers = λ id b l. cc;
  poison_distinct = tt;
  poison_bounded = omega arith;
}

pub prune_stale-IsValid :
    (cm : ChunkManager) (now ttl : ℕ) → IsValid cm → IsValid (prune_stale cm now ttl)
unfolding prune_stale
prune_stale-IsValid cm now ttl v = record {
  distinct = keep_if-Distinct _ cm.chunk_cache v.distinct;
  bounded = omega (
    arith,
    length-keep_if (λ id buf. not (is_stale now ttl buf.last_access)) cm.chunk_cache,
    v.bounded,
  );
  buffers = Entries-keep_if _ _ cm.chunk_cache v.distinct v.buffers;
  poison_distinct = keep_if-Distinct _ cm.poisoned v.poison_distinct;
  poison_bounded =
      omega
        (arith, length-keep_if (λ id at. not (is_stale now ttl at)) cm.poisoned, v.poison_bounded);
}

pub fresh_buffer-IsBuffer :
    (limit total now : ℕ) → 0 < total → total ≤ limit → IsBuffer limit (fresh_buffer total now)
fresh_buffer-IsBuffer limit total now p l = record {
  filled = record {
    sized = length-replicate total 0;
    positive = p;
    capped = l;
    ascending = tt;
    within = tt;
    counted = refl;
    waiting = refl;
  };
  incomplete = p;
}

-- Storing a buffer, where the map does not grow past the bound.
store-IsValid :
    (cm : ChunkManager) (id : ℕ) (b : ChunkBuffer)
    → IsValid cm
    → IsBuffer (effective_max_bytes cm) b
    → length (erase id cm.chunk_cache) < effective_max_transfers cm
    → IsValid (store cm id b).0
store-IsValid cm id b v k h = record {
  distinct = insert-Distinct id b cm.chunk_cache v.distinct;
  bounded = h;
  buffers = Entries-insert _ id b cm.chunk_cache k v.buffers;
  poison_distinct = v.poison_distinct;
  poison_bounded = v.poison_bounded;
}

make_room-IsValid : (cm : ChunkManager) (now : ℕ) → IsValid cm → IsValid (make_room cm now)
unfolding make_room
make_room-IsValid cm now v =
    elim (Bool-cases (leb (effective_max_transfers cm) (length cm.chunk_cache))) [
      | inl full ↦ rw full (prune_stale-IsValid cm now (effective_ttl cm) v)
      | inr room ↦ rw room v
    ]

-- Making room changes none of the limits.
make_room_limits :
    (cm : ChunkManager) (now : ℕ)
    → (effective_max_transfers (make_room cm now) ≡ effective_max_transfers cm)
      × (effective_max_bytes (make_room cm now) ≡ effective_max_bytes cm)
unfolding make_room
make_room_limits cm now =
    elim (Bool-cases (leb (effective_max_transfers cm) (length cm.chunk_cache))) [
      | inl full ↦ rw full (refl, refl)
      | inr room ↦ rw room (refl, refl)
    ]

open_transfer-IsValid :
    (cm : ChunkManager) (now id total : ℕ)
    → IsValid cm
    → 0 < total
    → total ≤ effective_max_bytes cm
    → IsValid (open_transfer cm now id total).0
unfolding open_transfer
open_transfer-IsValid cm now id total v p l =
    let cm' = make_room cm now in
    let same = make_room_limits cm now in
    elim (Bool-cases (leb (effective_max_transfers cm) (length cm'.chunk_cache))) [
      | inl full ↦ rw full (make_room-IsValid cm now v)
      | inr room ↦ rw room (
          store-IsValid cm' id (fresh_buffer total now) (make_room-IsValid cm now v)
            (fresh_buffer-IsBuffer (effective_max_bytes cm') total now p (rw (same.1) l))
            (rw (same.0) (ground (arith, length-erase_le id cm'.chunk_cache))))
    ]

-- The id is resident, so that its buffer's replacement does not make the map grow.
replace-IsValid :
    (cm : ChunkManager) (id : ℕ) (old new : ChunkBuffer)
    → IsValid cm
    → lookup id cm.chunk_cache ≡ some old
    → IsBuffer (effective_max_bytes cm) new
    → IsValid (store cm id new).0
replace-IsValid cm id old new v l b =
    store-IsValid cm id new v b (omega (arith, length-erase_lt id old cm.chunk_cache l, v.bounded))

touch-IsBuffer :
    (limit now : ℕ) (b : ChunkBuffer)
    → IsBuffer limit b
    → IsBuffer limit (record b { last_access = now })
touch-IsBuffer limit now b k = record {
  filled = record {
    sized = k.sized;
    positive = k.positive;
    capped = k.capped;
    ascending = k.ascending;
    within = k.within;
    counted = k.counted;
    waiting = k.waiting;
  };
  incomplete = k.incomplete;
}

-- The manager's invariant: as many transfers and poisoned ids as the limits allow at most, each
-- buffer as large as its transfer declares and within the byte cap. Opening a transfer keeps it,
-- whatever the wire declares.
pub get_chunk_buffer-IsValid :
    (cm : ChunkManager) (now id total : ℕ)
    → IsValid cm
    → IsValid (get_chunk_buffer cm now id total).0
unfolding get_chunk_buffer
get_chunk_buffer-IsValid cm now id total v = elim (Bool-cases (total == 0)) [
  | inl empty ↦ rw empty v
  | inr full ↦ elim (Bool-cases (ltb (effective_max_bytes cm) total)) [
    | inl over ↦ rw (full, over) v
    | inr fits ↦ elim (Option-cases (lookup id cm.chunk_cache)) [
      | inl new ↦
          rw (full, fits, new)
            (open_transfer-IsValid cm now id total v (ground arith) (ground arith))
      | inr (buf, old) ↦ elim (Bool-cases (buf.total_size == total)) [
        | inl same ↦
            rw (full, fits, old, same)
              (replace-IsValid cm id buf _ v old (touch-IsBuffer _ now buf (v.buffers id buf old)))
        | inr other ↦
            rw (full, fits, old, other)
              (replace-IsValid cm id buf _ v old
                (fresh_buffer-IsBuffer _ total now (ground arith) (ground arith)))
      ]
    ]
  ]
]

pub remove_chunk_buffer-IsValid :
    (cm : ChunkManager) (id : ℕ) → IsValid cm → IsValid (remove_chunk_buffer cm id)
unfolding remove_chunk_buffer
remove_chunk_buffer-IsValid cm id v = record {
  distinct = erase-Distinct id cm.chunk_cache v.distinct;
  bounded = omega (arith, length-erase_le id cm.chunk_cache, v.bounded);
  buffers = Entries-erase _ id cm.chunk_cache v.buffers;
  poison_distinct = v.poison_distinct;
  poison_bounded = v.poison_bounded;
}

-- A buffer put back in place of the one under its id.
pub put_buffer-IsValid :
    (cm : ChunkManager) (id : ℕ) (old new : ChunkBuffer)
    → IsValid cm
    → lookup id cm.chunk_cache ≡ some old
    → IsBuffer (effective_max_bytes cm) new
    → IsValid (record cm { chunk_cache = insert id new cm.chunk_cache })
put_buffer-IsValid cm id old new v l b = replace-IsValid cm id old new v l b

pub is_poisoned-IsValid :
    (cm : ChunkManager) (now id : ℕ) → IsValid cm → IsValid (is_poisoned cm now id).0
unfolding is_poisoned
is_poisoned-IsValid cm now id v = elim (Option-cases (lookup id cm.poisoned)) [
  | inl e ↦ rw (e, is_poisoned) v
  | inr (at, e) ↦ elim (Bool-cases (is_stale now (effective_ttl cm) at)) [
    | inr f ↦ rw (e, is_poisoned, f) v
    | inl s ↦
        rw (e, is_poisoned, s)
          (record {
            distinct = v.distinct;
            bounded = v.bounded;
            buffers = v.buffers;
            poison_distinct = erase-Distinct id cm.poisoned v.poison_distinct;
            poison_bounded = omega (arith, length-erase_le id cm.poisoned, v.poison_bounded);
          })
  ]
]
