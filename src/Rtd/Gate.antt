-- ===== src/Rtd/Gate.antt =====
-- The shutdown gate of RtdManager (pkg/rtd/manager.go): `Stop` and the sends in flight, as a step
-- relation over the manager's critical sections, which senders and callers take in any order.
use xll_gen.Prelude.{
  ℕ, ◌≤◌, ◌≡◌, refl, ◌∙◌, inl, inr, true, Option, arith, ◌==◌, nat_eq, string_eq, nat_beq_iff,
  Bool-cases, Option-cases, lookup,
}
use Prim.Native.String.{String}
use xll_gen.Rtd.{
  RtdManager, begun, not_begun, err_stopped, begin_sends, end_sends, latch_stop, has_drained,
  set_client, drop_topic, cancel_connect, subscribe, unsubscribe, register_connect_cancel,
  deregister,
}

-- A step of any goroutine. A send is ended only if one has begun.
pub data Step {ℓ} {C : Type ℓ} : RtdManager C → RtdManager C → Type ℓ where
  client_set : (m : RtdManager C) (c : Option C) → Step m (set_client m c)
  subscribed : (m : RtdManager C) (key : String) (id : ℕ) → Step m (subscribe m key id)
  unsubscribed : (m : RtdManager C) (id : ℕ) → Step m (unsubscribe m id).0
  registered : (m : RtdManager C) (id cancel : ℕ) → Step m (register_connect_cancel m id cancel).0
  deregistered : (m : RtdManager C) (id gen : ℕ) → Step m (deregister m id gen)
  sends_begun : (m m' : RtdManager C) (n : ℕ) (c : C) → begin_sends m n ≡ begun c m' → Step m m'
  sends_ended : (m : RtdManager C) (n : ℕ) → n ≤ m.in_flight → Step m (end_sends m n)
  latched : (m : RtdManager C) → Step m (latch_stop m)

pub data Steps {ℓ} {C : Type ℓ} : RtdManager C → RtdManager C → Type ℓ where
  done : (m : RtdManager C) → Steps m m
  then_step : (m m' m'' : RtdManager C) → Step m m' → Steps m' m'' → Steps m m''

-- The gate is shut, and at most `n` sends are in flight.
abbrev pub IsShut {ℓ} : {C : Type ℓ} → ℕ → RtdManager C → Type 0
IsShut n m = (m.stopped ≡ true) × (m.in_flight ≤ n)

-- The gate's fields are left alone.
abbrev SameGate {ℓ} : {C : Type ℓ} → RtdManager C → RtdManager C → Type 0
SameGate m m' = (m'.stopped ≡ m.stopped) × (m'.in_flight ≡ m.in_flight)

drop_topic-SameGate {ℓ} : {C : Type ℓ} (m : RtdManager C) (id : ℕ) → SameGate m (drop_topic m id)
drop_topic-SameGate m id = elim (Option-cases (lookup id m.id_to_key)) [
  | inl new ↦ rw (new, drop_topic) (refl, refl)
  | inr (key, l) ↦ rw (l, drop_topic) (refl, refl)
]

cancel_connect-SameGate {ℓ} :
    {C : Type ℓ} (m : RtdManager C) (id : ℕ) → SameGate m (cancel_connect m id).0
cancel_connect-SameGate m id = elim (Option-cases (lookup id m.connect_cancels)) [
  | inl new ↦ rw (new, cancel_connect) (refl, refl)
  | inr (c, l) ↦ rw (l, cancel_connect) (refl, refl)
]

module _ {ℓ} {C : Type ℓ} (m : RtdManager C) where
  subscribe-SameGate : (key : String) (id : ℕ) → SameGate m (subscribe m key id)
  unfolding subscribe
  subscribe-SameGate key id = elim (Option-cases (lookup id m.id_to_key)) [
    | inl new ↦ rw (new, subscribe) (refl, refl)
    | inr (old, l) ↦ elim (Bool-cases (old == key)) [
      | inl same ↦ rw (l, subscribe) (rw same (refl, refl))
      | inr other ↦ rw (l, subscribe) (rw other (refl, refl))
    ]
  ]

  unsubscribe-SameGate : (id : ℕ) → SameGate m (unsubscribe m id).0
  unfolding unsubscribe
  unsubscribe-SameGate id =
      let c = cancel_connect-SameGate (drop_topic m id) id in
      let d = drop_topic-SameGate m id in (c.0 ∙ d.0, c.1 ∙ d.1)

  deregister-SameGate : (id gen : ℕ) → SameGate m (deregister m id gen)
  unfolding deregister
  deregister-SameGate id gen = ground arith

begin_sends-stopped {ℓ} :
    {C : Type ℓ} (m : RtdManager C) (n : ℕ)
    → m.stopped ≡ true
    → begin_sends m n ≡ not_begun err_stopped
unfolding begin_sends
begin_sends-stopped m n h = rw (h, begin_sends) refl

Step-IsShut {ℓ} : {C : Type ℓ} (m m' : RtdManager C) (n : ℕ) → Step m m' → IsShut n m → IsShut n m'
unfolding set_client register_connect_cancel end_sends latch_stop
Step-IsShut _ _ n (client_set m c) s = s
Step-IsShut _ _ n (subscribed m key id) s =
    let g = subscribe-SameGate m key id in (g.0 ∙ s.0, omega (arith, g.1, s.1))
Step-IsShut _ _ n (unsubscribed m id) s =
    let g = unsubscribe-SameGate m id in (g.0 ∙ s.0, omega (arith, g.1, s.1))
Step-IsShut _ _ n (registered m id cancel) s = s
Step-IsShut _ _ n (deregistered m id gen) s =
    let g = deregister-SameGate m id gen in (g.0 ∙ s.0, omega (arith, g.1, s.1))
Step-IsShut _ _ n (sends_begun m m' k c e) s = absurd (cc (e, begin_sends-stopped m k s.0))
Step-IsShut _ _ n (sends_ended m k h) s = (s.0, omega (arith, s.1))
Step-IsShut _ _ n (latched m) s = (refl, s.1)

Steps-IsShut {ℓ} :
    {C : Type ℓ} (m m' : RtdManager C) (n : ℕ) → Steps m m' → IsShut n m → IsShut n m'
Steps-IsShut _ _ n (done m) s = s
Steps-IsShut _ _ n (then_step m m1 m' x xs) s = Steps-IsShut m1 m' n xs (Step-IsShut m m1 n x s)

-- After `Stop` has latched the gate, take any steps of any goroutines: no send begins any more, and
-- no more are in flight than when it latched. Once the drain has seen the count at 0, it is 0 for
-- good, so no send touches the mapping that the caller then unmaps.
pub stop_drains {ℓ} :
    {C : Type ℓ} (m m1 m2 : RtdManager C)
    → Steps (latch_stop m) m1
    → Steps m1 m2
    → ((n : ℕ) → begin_sends m2 n ≡ not_begun err_stopped)
      × (m2.in_flight ≤ m.in_flight)
      × (has_drained m1 ≡ true → m2.in_flight ≡ 0)
unfolding latch_stop
stop_drains m m1 m2 before after =
    let s1 = Steps-IsShut (latch_stop m) m1 m.in_flight before (refl, omega arith) in
    let s2 = Steps-IsShut m1 m2 m1.in_flight after (s1.0, omega arith) in
    (
      λ n. begin_sends-stopped m2 n s2.0,
      omega (arith, s1.1, s2.1),
      λ h. let z = (nat_beq_iff m1.in_flight 0).0 h in omega (arith, s2.1, z),
    )
