-- ===== src/Rtd/Connects.antt =====
-- The connect handlers in flight of RtdManager (pkg/rtd/manager.go), and their generations.
use xll_gen.Prelude.{
  ℕ, ◌+◌, ◌^◌, ◌≤◌, ◌<◌, ◌≡◌, refl, ap, ◌∙◌, true, false, [], ◌∷◌, none, some, arith, ◌==◌, nat_eq,
  ==_refl, lookup, erase, lookup-insert, lookup-erase, if◌then◌else◌,
}
use xll_gen.Rtd.{RtdManager, ConnectCancel, register_connect_cancel, deregister}

deregister_stale {ℓ} :
    {C : Type ℓ} (m : RtdManager C) (id gen : ℕ) (c : ConnectCancel)
    → lookup id m.connect_cancels ≡ some c
    → (c.gen == gen) ≡ false
    → deregister m id gen ≡ m
unfolding deregister
deregister_stale m id gen c l f = rw (l, deregister) (rw f refl)

deregister_own {ℓ} :
    {C : Type ℓ} (m : RtdManager C) (id gen : ℕ) (c : ConnectCancel)
    → lookup id m.connect_cancels ≡ some c
    → (c.gen == gen) ≡ true
    → (deregister m id gen).connect_cancels ≡ erase id m.connect_cancels
unfolding deregister
deregister_own m id gen c l f = rw (l, deregister) (rw f refl)

-- A handler that connects on a reused topic id is safe from the one before it. Its registration calls
-- the older one's cancel func; the older one's deregister, which holds a generation that was handed
-- out before, then changes nothing; and its own takes away just its entry. This needs fewer than
-- 2 ^ 64 registrations.
pub register_generation {ℓ} :
    {C : Type ℓ} (m : RtdManager C) (id cancel old : ℕ)
    → m.connect_gen + 1 < 2 ^ 64
    → old ≤ m.connect_gen
    → let (m', gen, called) = register_connect_cancel m id cancel in
      ((cc' : ConnectCancel) → lookup id m.connect_cancels ≡ some cc' → called ≡ cc'.cancel ∷ [])
      × (deregister m' id old ≡ m')
      × (lookup id m'.connect_cancels ≡ some (record { cancel = cancel; gen = gen }))
      × ((j : ℕ)
          → lookup j (deregister m' id gen).connect_cancels
            ≡ (if id == j then none else lookup j m.connect_cancels))
      × (m.connect_gen < m'.connect_gen)
unfolding register_connect_cancel
register_generation m id cancel old small h =
    let (m', gen, called) = register_connect_cancel m id cancel in
    let own : ConnectCancel = record { cancel = cancel; gen = gen } in
    let next : gen ≡ m.connect_gen + 1 = ground arith in
    let here : lookup id m'.connect_cancels ≡ some own =
      lookup-insert id id own m.connect_cancels
      ∙ ap (λ b. if b then some own else lookup id m.connect_cancels) (==_refl id) in
    (
      λ prev l. rw (l, register_connect_cancel) refl,
      deregister_stale m' id old own here (ground (arith, next)),
      here,
      λ j.
          ap (lookup j) (deregister_own m' id gen own here (==_refl gen))
          ∙ lookup-erase id j m'.connect_cancels
          ∙ ground (arith, lookup-erase id j m.connect_cancels),
      omega (arith, next),
    )
