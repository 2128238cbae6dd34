-- ===== src/Server/HandleChunk/Refused.antt =====
-- How long HandleChunk (pkg/server/handlers.go) refuses the chunks of a transfer that PoisonTransfer
-- dropped: for the time to live, unless so many other ids are refused that the oldest is evicted.
use xll_gen.Prelude.{
  keep_if, not, leb, sym, ap, ◌≢◌, ≢→==, ==→≡, ==→≢, [], ◌∷◌, insert, lookup-insert, lookup-erase,
  length-erase_le, length-keep_if, ℕ, ◌+◌, ◌-◌, ◌≤◌, ◌<◌, ◌≡◌, refl, subst, ◌∙◌, inl, inr, false,
  true, List, some, arith, ltb, ◌==◌, nat_eq, ==_refl, length, lookup, Bool-cases, All,
}
use xll_gen.Server.ChunkManager.{
  ChunkManager, effective_max_poisoned, is_stale, effective_ttl, is_poisoned, make_poison_room,
  prune_stale, poison_transfer,
}
use xll_gen.Server.HandleChunk.Parts.{handle_chunk_part}
use xll_gen.Server.HandleChunk.Exact.{handle_all}
use xll_gen.Server.HandleChunk.Memory.{limits, poison_transfer-limits}
use xll_gen.Server.HandleChunk.{ChunkRequest, refuse, handle_chunk}

make_poison_room_ttl :
    (cm : ChunkManager) (now : ℕ) → (make_poison_room cm now).chunk_buffer_ttl ≡ cm.chunk_buffer_ttl
unfolding make_poison_room prune_stale
make_poison_room_ttl cm now = ground arith

poison_transfer_entry :
    (cm : ChunkManager) (now id : ℕ) → lookup id (poison_transfer cm now id).poisoned ≡ some now
unfolding poison_transfer
poison_transfer_entry cm now id = rw (==_refl id) refl

poison_transfer_ttl :
    (cm : ChunkManager) (now id : ℕ)
    → (poison_transfer cm now id).chunk_buffer_ttl ≡ cm.chunk_buffer_ttl
unfolding poison_transfer
poison_transfer_ttl cm now id = make_poison_room_ttl _ now

is_poisoned_recent :
    (cm : ChunkManager) (at later id : ℕ)
    → lookup id cm.poisoned ≡ some at
    → later ≤ at + effective_ttl cm
    → is_poisoned cm later id ≡ (cm, true)
unfolding is_poisoned
is_poisoned_recent cm at later id l h =
    let fresh : ltb (effective_ttl cm) (later - at) ≡ false = ground arith in
    rw (l, is_poisoned) (rw fresh refl)

-- While its entry is recent, an id is refused.
refused_again :
    (x at now : ℕ) (req : ChunkRequest) (c : ChunkManager)
    → req.id ≡ x
    → lookup x c.poisoned ≡ some at
    → now ≤ at + effective_ttl c
    → handle_chunk c now req ≡ (c, refuse)
unfolding handle_chunk
refused_again x at now req c same l h =
    let bad =
      is_poisoned_recent c at now req.id (subst (λ i. lookup i c.poisoned ≡ some at) (sym same) l)
        h in
    rw bad refl

-- The call that follows the refusal, within the time to live, is refused for the same id.
pub poison_transfer-refuses :
    (cm : ChunkManager) (now later : ℕ) (req : ChunkRequest)
    → later ≤ now + effective_ttl cm
    → handle_chunk (poison_transfer cm now req.id) later req
      ≡ (poison_transfer cm now req.id, refuse)
poison_transfer-refuses cm now later req h =
    refused_again req.id now later req (poison_transfer cm now req.id) refl
      (poison_transfer_entry cm now req.id) (rw (poison_transfer_ttl cm now req.id) h)

-- A manager with the limits of `cm`, at most `n` refused ids, and among them `x`, since `at`.
abbrev Refusing : ℕ → ℕ → ChunkManager → ℕ → ChunkManager → Type 0
Refusing x at cm n c =
    (limits c ≡ limits cm) × (lookup x c.poisoned ≡ some at) × (length c.poisoned ≤ n)

-- With room for it, an entry drops no other.
poison_transfer-room :
    (c : ChunkManager) (now id : ℕ)
    → length c.poisoned < effective_max_poisoned c
    → (poison_transfer c now id).poisoned ≡ insert id now c.poisoned
unfolding poison_transfer make_poison_room
poison_transfer-room c now id h =
    let room : leb (effective_max_poisoned c) (length c.poisoned) ≡ false = ground arith in
    rw room (rw room refl)

length-poison_transfer :
    (c : ChunkManager) (now id : ℕ)
    → length c.poisoned < effective_max_poisoned c
    → length (poison_transfer c now id).poisoned ≤ length c.poisoned + 1
length-poison_transfer c now id h =
    subst (λ m. length m ≤ length c.poisoned + 1) (sym (poison_transfer-room c now id h))
      (omega (arith, length-erase_le id c.poisoned))

keep_if-recent :
    (x at now ttl : ℕ) (m : List (ℕ × ℕ))
    → now ≤ at + ttl
    → lookup x m ≡ some at
    → lookup x (keep_if (λ id t. not (is_stale now ttl t)) m) ≡ some at
keep_if-recent x at now ttl [] h l = l
keep_if-recent x at now ttl ((j, t) ∷ m) h l = ground (arith, keep_if-recent x at now ttl m)

module _ (x at : ℕ) (cm : ChunkManager) (n now : ℕ) (timely : now ≤ at + effective_ttl cm) where
  prune_stale-Refusing :
      (c : ChunkManager)
      → Refusing x at cm n c
      → Refusing x at cm n (prune_stale c now (effective_ttl c))
  unfolding prune_stale
  prune_stale-Refusing c (e, l, s) = (
    e,
    keep_if-recent x at now (effective_ttl c) c.poisoned
        (subst (λ t. now ≤ at + t.ttl) (sym e) timely) l,
    omega (arith, length-keep_if (λ id t. not (is_stale now (effective_ttl c) t)) c.poisoned, s),
  )

  -- A call for another id, with room for its entry.
  other-Refusing :
      (req : ChunkRequest) (c : ChunkManager)
      → req.id ≢ x
      → n < effective_max_poisoned cm
      → Refusing x at cm n c
      → Refusing x at cm (n + 1) (handle_chunk c now req).0
  other-Refusing req c other room =
      let apart = ≢→== req.id x other in
      handle_chunk_part (Refusing x at cm n) (Refusing x at cm (n + 1)) now req (λ c m h. h)
        prune_stale-Refusing
        (λ c (e, l, s). (
          e,
          lookup-erase req.id x c.poisoned ∙ rw apart l,
          omega (arith, length-erase_le req.id c.poisoned, s),
        ))
        (λ c (e, l, s). (e, l, omega (arith, s)))
        (λ c (e, l, s).
          let here = subst (λ t. n < t.refusals) (sym e) room in
          let fits : length c.poisoned < effective_max_poisoned c = omega (arith, here, s) in
          (
            poison_transfer-limits c now req.id ∙ e,
            ap (λ m. lookup x m) (poison_transfer-room c now req.id fits)
                ∙ lookup-insert req.id x now c.poisoned
                ∙ rw apart l,
            omega (arith, length-poison_transfer c now req.id fits, s),
          ))
        c

handle_all_refuses :
    (x at : ℕ) (cm : ChunkManager) (n : ℕ) (reqs : List (ℕ × ChunkRequest)) (c : ChunkManager)
    → Refusing x at cm n c
    → All (λ r. r.0 ≤ at + effective_ttl cm) reqs
    → n + length reqs ≤ effective_max_poisoned cm
    → All (λ a. a.0.id ≡ x → a.1 ≡ refuse) (handle_all c reqs)
unfolding handle_all
handle_all_refuses x at cm n [] c h t room = tt
handle_all_refuses x at cm n ((now, req) ∷ reqs) c (e, l, s) (timely, t) room =
    elim (Bool-cases (req.id == x)) [
      | inl same ↦
          let r =
            refused_again x at now req c (==→≡ req.id x same) l
              (subst (λ v. now ≤ at + v.ttl) (sym e) timely) in
          (
            λ _. ap (λ a. a.1) r,
            subst (λ a. All (λ b. b.0.id ≡ x → b.1 ≡ refuse) (handle_all a.0 reqs)) (sym r)
                (handle_all_refuses x at cm n reqs c (e, l, s) t (omega (arith, room))),
          )
      | inr other ↦ (
        λ q. absurd (==→≢ req.id x other q),
        handle_all_refuses x at cm (n + 1) reqs (handle_chunk c now req).0
            (other-Refusing x at cm n now timely req c (==→≢ req.id x other) (omega (arith, room))
              (e, l, s))
            t (omega (arith, room)),
      )
    ]

-- After a transfer is dropped.
pub poisoned_refuses :
    (cm c : ChunkManager) (now x : ℕ) (reqs : List (ℕ × ChunkRequest))
    → record c { chunk_cache = [] } ≡ record cm { chunk_cache = [] }
    → All (λ r. r.0 ≤ now + effective_ttl cm) reqs
    → (0 < length reqs → length cm.poisoned + length reqs < effective_max_poisoned cm)
    → All (λ a. a.0.id ≡ x → a.1 ≡ refuse) (handle_all (poison_transfer c now x) reqs)
unfolding handle_all
poisoned_refuses cm c now x [] e t room = tt
poisoned_refuses cm c now x (r ∷ reqs) e t room =
    let fits = room (omega arith) in
    let l : limits c ≡ limits cm = ap limits e in
    let p : c.poisoned ≡ cm.poisoned = ap (λ d. d.poisoned) e in
    let w : length c.poisoned < effective_max_poisoned c =
      subst (λ v. length c.poisoned < v.refusals) (sym l)
        (subst (λ m. length m < effective_max_poisoned cm) (sym p) (omega (arith, fits))) in
    let grown : length (poison_transfer c now x).poisoned ≤ length cm.poisoned + 1 =
      subst (λ m. length (poison_transfer c now x).poisoned ≤ length m + 1) p
        (length-poison_transfer c now x w) in
    handle_all_refuses x now cm (length cm.poisoned + 1) (r ∷ reqs) (poison_transfer c now x)
      (poison_transfer-limits c now x ∙ l, poison_transfer_entry c now x, grown) t
      (omega (arith, fits))
