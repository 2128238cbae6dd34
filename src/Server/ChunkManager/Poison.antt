-- ===== src/Server/ChunkManager/Poison.antt =====
-- The set of refused transfers of ChunkManager (pkg/server/manager.go) and its bound.
use xll_gen.Prelude.{
  ℕ, suc, ◌≤◌, ◌<◌, ◌≡◌, refl, sym, subst, inl, inr, List, [], ◌∷◌, some, arith, ltb, leb, ◌==◌,
  nat_eq, if◌then◌else◌, length, lookup, erase, Distinct, erase-Distinct, insert-Distinct,
  length-erase_le, length-erase_lt, ==_refl, ◌⊎◌, Bool-cases, lookup-keep_if-some,
  lookup-erase-some, lookup-erase, nat_beq_iff, ◌≢◌, lookup,
}
use xll_gen.Server.ChunkManager.Bounds.{IsValid, prune_stale-IsValid, remove_chunk_buffer-IsValid}
use xll_gen.Server.ChunkManager.{
  ChunkBuffer, prune_stale, ChunkManager, effective_ttl, effective_max_transfers,
  effective_max_poisoned, effective_max_bytes, make_poison_room, remove_chunk_buffer,
  poison_transfer, drop_oldest, oldest_from, is_poisoned,
}

oldest_from-cons :
    (id at j t : ℕ) (m : List (ℕ × ℕ))
    → (oldest_from id at ((j, t) ∷ m) ≡ oldest_from j t m)
      ⊎ (oldest_from id at ((j, t) ∷ m) ≡ oldest_from id at m)
unfolding oldest_from
oldest_from-cons id at j t m = elim (Bool-cases (ltb t at)) [
  | inl y ↦ inl (rw (y, oldest_from))
  | inr n ↦ inr (rw (n, oldest_from))
]

oldest_from-nil : (id at : ℕ) → oldest_from id at [] ≡ id
unfolding oldest_from
oldest_from-nil id at = refl

-- The oldest entry is one of the map's.
oldest_from-lookup :
    (id at : ℕ) (m : List (ℕ × ℕ))
    → (t : ℕ) × (lookup (oldest_from id at m) ((id, at) ∷ m) ≡ some t)
oldest_from-lookup id at [] = (at, rw (oldest_from-nil id at) (rw (==_refl id)))
oldest_from-lookup id at ((j, t) ∷ m) =
    let o = oldest_from id at ((j, t) ∷ m) in
    elim (Bool-cases (id == o)) [
      | inl k ↦ (at, rw k)
      | inr k ↦ elim (oldest_from-cons id at j t m) [
        | inl e ↦ let (u, h) = oldest_from-lookup j t m in (u, ground arith)
        | inr e ↦
            let (u, h) = oldest_from-lookup id at m in
            elim (Bool-cases (j == o)) [ inl q ↦ (t, rw (k, q)) | inr q ↦ (u, ground arith) ]
      ]
    ]

length-drop_oldest : (m : List (ℕ × ℕ)) → 0 < length m → length (drop_oldest m) < length m
unfolding drop_oldest
length-drop_oldest [] h = absurd (omega arith)
length-drop_oldest ((id, at) ∷ m) h =
    let (t, e) = oldest_from-lookup id at m in length-erase_lt _ t ((id, at) ∷ m) e

drop_oldest-Distinct : (m : List (ℕ × ℕ)) → Distinct m → Distinct (drop_oldest m)
unfolding drop_oldest
drop_oldest-Distinct [] d = d
drop_oldest-Distinct ((id, at) ∷ m) d = erase-Distinct _ ((id, at) ∷ m) d

-- Making room in the poison set, by age and then by dropping the oldest entry.
make_poison_room-IsValid :
    (cm : ChunkManager) (now : ℕ) → IsValid cm → IsValid (make_poison_room cm now)
unfolding make_poison_room
make_poison_room-IsValid cm now v =
    elim (Bool-cases (leb (effective_max_poisoned cm) (length cm.poisoned))) [
      | inl full ↦ rw full (prune_stale-IsValid cm now (effective_ttl cm) v)
      | inr room ↦ rw room v
    ]

make_poison_room_limits :
    (cm : ChunkManager) (now : ℕ)
    → (effective_max_transfers (make_poison_room cm now) ≡ effective_max_transfers cm)
      × (effective_max_bytes (make_poison_room cm now) ≡ effective_max_bytes cm)
      × (effective_max_poisoned (make_poison_room cm now) ≡ effective_max_poisoned cm)
unfolding make_poison_room
make_poison_room_limits cm now =
    elim (Bool-cases (leb (effective_max_poisoned cm) (length cm.poisoned))) [
      | inl full ↦ rw full (refl, refl, refl)
      | inr room ↦ rw room (refl, refl, refl)
    ]

abbrev kept_of : ℕ → List (ℕ × ℕ) → List (ℕ × ℕ)
kept_of limit m = if leb limit (length m) then drop_oldest m else m

kept_of_lem :
    (limit : ℕ) (m : List (ℕ × ℕ))
    → 0 < limit
    → Distinct m
    → length m ≤ limit
    → Distinct (kept_of limit m) × (length (kept_of limit m) < limit)
kept_of_lem limit m p d l = elim (Bool-cases (leb limit (length m))) [
  | inl full ↦ rw full (drop_oldest-Distinct m d, ground (arith, length-drop_oldest m))
  | inr room ↦ rw room (d, ground arith)
]

-- Refusing a transfer for good keeps the invariant: its buffer goes, and the set of refused ids
-- stays within its bound, if need be by dropping the oldest of them.
pub poison_transfer-IsValid :
    (cm : ChunkManager) (now id : ℕ) → IsValid cm → IsValid (poison_transfer cm now id)
unfolding poison_transfer remove_chunk_buffer
poison_transfer-IsValid cm now id v =
    let cm0 = remove_chunk_buffer cm id in
    let v' = make_poison_room-IsValid cm0 now (remove_chunk_buffer-IsValid cm id v) in
    let cm' = make_poison_room cm0 now in
    let same = make_poison_room_limits cm0 now in
    let kept = kept_of (effective_max_poisoned cm) cm'.poisoned in
    let room =
      kept_of_lem (effective_max_poisoned cm) cm'.poisoned (ground arith) v'.poison_distinct
        (subst (λ n. length cm'.poisoned ≤ n) same.2 v'.poison_bounded) in
    record {
      distinct = v'.distinct;
      bounded = v'.bounded;
      buffers = v'.buffers;
      poison_distinct = insert-Distinct id now _ room.0;
      poison_bounded =
          subst (λ n. suc (length (erase id kept)) ≤ n) (sym same.2)
            (omega (arith, length-erase_le id kept, room.1));
    }

-- Poisoning opens no buffer, and keeps none for the id.
pub poison_transfer_cache :
    (cm : ChunkManager) (now id k : ℕ) (b : ChunkBuffer)
    → Distinct cm.chunk_cache
    → lookup k (poison_transfer cm now id).chunk_cache ≡ some b
    → (lookup k cm.chunk_cache ≡ some b) × (k ≢ id)
unfolding poison_transfer make_poison_room prune_stale
poison_transfer_cache cm now id k b d l =
    let erased : lookup k (erase id cm.chunk_cache) ≡ some b =
      elim (Bool-cases (leb (effective_max_poisoned cm) (length cm.poisoned))) [
        | inl full ↦
            lookup-keep_if-some _ k b (erase id cm.chunk_cache) (rw full at l)
              (erase-Distinct id cm.chunk_cache d)
        | inr room ↦ rw room at l
      ] in
    (
      lookup-erase-some id k b cm.chunk_cache erased,
      λ e. ground (arith, lookup-erase id k cm.chunk_cache, nat_beq_iff id k),
    )

-- Asking whether an id is refused touches no buffer.
pub is_poisoned_cache :
    (cm : ChunkManager) (now id : ℕ) → (is_poisoned cm now id).0.chunk_cache ≡ cm.chunk_cache
unfolding is_poisoned
is_poisoned_cache cm now id = ground arith
