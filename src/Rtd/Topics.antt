-- ===== src/Rtd/Topics.antt =====
-- The two maps of RtdManager (pkg/rtd/manager.go) that say which topic follows which key.
pub mod Sets
use xll_gen.Prelude.{
  ℕ, ◌<◌, ◌≡◌, ◌↔◌, refl, sym, ap, subst, ◌∙◌, inl, inr, Bool, true, false, List, [], ◌∷◌, Option,
  none, some, arith, ◌==◌, nat_eq, string_eq, ==_refl, ==→≡, ==→≢, ≢→==, ◌&&◌, if◌then◌else◌,
  length, lookup, insert, erase, lookup-insert, lookup-erase, Entries, Entries-erase,
  Entries-insert, Bool-cases, Option-cases,
}
use Prim.Native.String.{String}
use xll_gen.Rtd.{
  Topics, RtdManager, ids_of, or_empty, add_topic, drop_topic, cancel_connect, remove_id,
  new_rtd_manager, subscribe, unsubscribe,
}
use xll_gen.Rtd.Topics.Sets.{
  or_empty-if, ids_of-insert, ids_of-erase, lookup-empty, lookup-remove_id, remove_id-Entries,
  put_agree, drop_agree, none_of, lookup-same, lookup-absent,
}

-- Topic `id` is in the set of `key`.
abbrev pub Follows {ℓ} : {C : Type ℓ} → RtdManager C → String → ℕ → Type 0
Follows m key id = lookup id (ids_of key m.key_to_ids) ≡ some tt

-- The two maps agree.
abbrev pub IsConsistent {ℓ} : {C : Type ℓ} → RtdManager C → Type 0
IsConsistent m = (key : String) (id : ℕ) → Follows m key id ↔ (lookup id m.id_to_key ≡ some key)

-- No key has an empty set.
abbrev pub HasNoEmpty {ℓ} : {C : Type ℓ} → RtdManager C → Type 0
HasNoEmpty m = Entries (λ key ids. 0 < length ids) m.key_to_ids

module _ {ℓ} {C : Type ℓ} (m : RtdManager C) (key : String) (id : ℕ) where
  lookup-add_topic :
      (k : String) (j : ℕ)
      → lookup j (ids_of k (insert key (insert id tt (ids_of key m.key_to_ids)) m.key_to_ids))
        ≡ (if (key == k) && (id == j) then some tt else lookup j (ids_of k m.key_to_ids))
  lookup-add_topic k j =
      let ids = insert id tt (ids_of key m.key_to_ids) in
      let e = ids_of-insert key k ids m.key_to_ids in
      elim (Bool-cases (key == k)) [
        | inl t ↦
            ap (lookup j) (e ∙ ap (λ b. if b then ids else ids_of k m.key_to_ids) t)
            ∙ lookup-insert id j tt (ids_of key m.key_to_ids)
            ∙ ap (λ q. if id == j then some tt else lookup j (ids_of q m.key_to_ids)) (==→≡ key k t)
            ∙ sym (ap (λ b. if b && (id == j) then some tt else lookup j (ids_of k m.key_to_ids)) t)
        | inr f ↦
            ap (lookup j) (e ∙ ap (λ b. if b then ids else ids_of k m.key_to_ids) f)
            ∙ sym (ap (λ b. if b && (id == j) then some tt else lookup j (ids_of k m.key_to_ids)) f)
      ]

  -- The map of a manager that has `id` unsubscribed, with `id` put to `key`.
  add_topic-IsConsistent :
      ((k : String) → Follows m k id → ⊥)
      → ((k : String) (j : ℕ) → (id ≡ j → ⊥) → Follows m k j ↔ (lookup j m.id_to_key ≡ some k))
      → IsConsistent (add_topic m key id)
  add_topic-IsConsistent free agree k j =
      let e = lookup-add_topic k j in
      let f = lookup-insert id j key m.id_to_key in
      let h =
        put_agree (key == k) (id == j) key k (lookup j (ids_of k m.key_to_ids))
          (lookup j m.id_to_key) (==→≡ key k) (λ q. ap (λ z. z == k) q ∙ ==_refl k)
          (λ q. none_of _ (subst (λ i. Follows m k i → ⊥) (==→≡ id j q) (free k)))
          (λ q. agree k j (λ r. ==→≢ id j q r)) in
      (λ a. f ∙ h.0 (sym e ∙ a), λ a. e ∙ h.1 (sym f ∙ a))

  -- What is left once `id` is taken from the set of its key.
  remove_id-agree :
      IsConsistent m
      → lookup id m.id_to_key ≡ some key
      → (k : String) (j : ℕ)
      → (lookup j (ids_of k (remove_id key id m.key_to_ids)) ≡ some tt)
        ↔ ((if id == j then none else lookup j m.id_to_key) ≡ some k)
  remove_id-agree c l k j =
      let e = lookup-remove_id key id m.key_to_ids k j in
      let h =
        drop_agree (key == k) (id == j) k (lookup j (ids_of k m.key_to_ids)) (lookup j m.id_to_key)
          (λ other same. none_of _ (λ f.
            let i : lookup id m.id_to_key ≡ some k =
              subst (λ q. lookup q m.id_to_key ≡ some k) (sym (==→≡ id j same)) ((c k j).0 f) in
            let q : key ≡ k = cc in absurd (==→≢ key k other q)))
          (λ q. c k j) in
      (λ a. h.0 (sym e ∙ a), λ a. e ∙ h.1 a)

add_topic-HasNoEmpty {ℓ} :
    {C : Type ℓ} (m : RtdManager C) (key : String) (id : ℕ)
    → HasNoEmpty m
    → HasNoEmpty (add_topic m key id)
add_topic-HasNoEmpty m key id n =
    Entries-insert (λ k ids. 0 < length ids) key _ m.key_to_ids (omega arith) n

-- `Subscribe` puts the topic to the key, and to no other.
pub subscribe-IsConsistent {ℓ} :
    {C : Type ℓ} (m : RtdManager C) (key : String) (id : ℕ)
    → IsConsistent m
    → HasNoEmpty m
    → IsConsistent (subscribe m key id)
      × HasNoEmpty (subscribe m key id)
      × ((j : ℕ)
          → lookup j (subscribe m key id).id_to_key
            ≡ (if id == j then some key else lookup j m.id_to_key))
unfolding subscribe
subscribe-IsConsistent m key id c n = elim (Option-cases (lookup id m.id_to_key)) [
  | inl new ↦
      rw (new, subscribe)
        (
          add_topic-IsConsistent m key id (λ k f. absurd (cc (new, (c k id).0 f))) (λ k j d. c k j),
          add_topic-HasNoEmpty m key id n,
          λ j. lookup-insert id j key m.id_to_key,
        )
  | inr (old, l) ↦ elim (Bool-cases (old == key)) [
    | inl same ↦
        rw (l, subscribe)
          (rw same (c, n, λ j. lookup-same id j key m.id_to_key (l ∙ ap some (==→≡ old key same))))
    | inr other ↦
        let m1 = record m { key_to_ids = remove_id old id m.key_to_ids } in
        rw (l, subscribe)
          (rw other (
            add_topic-IsConsistent m1 key id
                (λ k f.
                  let i = (remove_id-agree m old id c l k id).0 f in
                  absurd (cc (i, ap (λ b. if b then none else lookup id m.id_to_key) (==_refl id))))
                (λ k j d.
                  let i = remove_id-agree m old id c l k j in
                  let e = ap (λ b. if b then none else lookup j m.id_to_key) (≢→== id j d) in
                  (λ f. sym e ∙ i.0 f, λ q. i.1 (e ∙ q))),
            add_topic-HasNoEmpty m1 key id (remove_id-Entries old id m.key_to_ids n),
            λ j. lookup-insert id j key m.id_to_key,
          ))
  ]
]

drop_topic-IsConsistent {ℓ} :
    {C : Type ℓ} (m : RtdManager C) (id : ℕ)
    → IsConsistent m
    → HasNoEmpty m
    → let r = drop_topic m id in
      IsConsistent r
      × HasNoEmpty r
      × ((j : ℕ) → lookup j r.id_to_key ≡ (if id == j then none else lookup j m.id_to_key))
      × (r.connect_cancels ≡ m.connect_cancels)
drop_topic-IsConsistent m id c n = elim (Option-cases (lookup id m.id_to_key)) [
  | inl new ↦ rw (new, drop_topic) (c, n, λ j. lookup-absent id j m.id_to_key new, refl)
  | inr (key, l) ↦
      rw (l, drop_topic)
        (
          λ k j.
              let h = remove_id-agree m key id c l k j in
              let e = lookup-erase id j m.id_to_key in (λ f. e ∙ h.0 f, λ q. h.1 (sym e ∙ q)),
          remove_id-Entries key id m.key_to_ids n,
          λ j. lookup-erase id j m.id_to_key,
          refl,
        )
]

abbrev pub cancels {ℓ} : {C : Type ℓ} → RtdManager C → ℕ → List ℕ
cancels m id = elim (lookup id m.connect_cancels) [ none ↦ [] | some cc ↦ cc.cancel ∷ [] ]

cancel_connect_lem {ℓ} :
    {C : Type ℓ} (m : RtdManager C) (id : ℕ)
    → let r = cancel_connect m id in
      (r.0.key_to_ids ≡ m.key_to_ids)
      × (r.0.id_to_key ≡ m.id_to_key)
      × (lookup id r.0.connect_cancels ≡ none)
      × (r.1 ≡ cancels m id)
cancel_connect_lem m id = elim (Option-cases (lookup id m.connect_cancels)) [
  | inl no_cancel ↦ rw (no_cancel, cancel_connect, cancels) (refl, refl, no_cancel, refl)
  | inr (cc', l) ↦
      rw (l, cancel_connect, cancels)
        (
          refl,
          refl,
          lookup-erase id id m.connect_cancels
              ∙ ap (λ b. if b then none else lookup id m.connect_cancels) (==_refl id),
          refl,
        )
]

-- `Unsubscribe` frees the topic, and no other; it calls the cancel func that is registered for it, if
-- there is one, and drops it.
pub unsubscribe-IsConsistent {ℓ} :
    {C : Type ℓ} (m : RtdManager C) (id : ℕ)
    → IsConsistent m
    → HasNoEmpty m
    → let r = unsubscribe m id in
      IsConsistent r.0
      × HasNoEmpty r.0
      × ((j : ℕ) → lookup j r.0.id_to_key ≡ (if id == j then none else lookup j m.id_to_key))
      × (lookup id r.0.connect_cancels ≡ none)
      × (r.1 ≡ cancels m id)
unfolding unsubscribe
unsubscribe-IsConsistent m id c n =
    let d = drop_topic-IsConsistent m id c n in
    let r = cancel_connect_lem (drop_topic m id) id in
    (
      λ k j.
          subst
            (λ x.
              (lookup j (ids_of k x) ≡ some tt)
              ↔ (lookup j (cancel_connect (drop_topic m id) id).0.id_to_key ≡ some k))
            (sym r.0)
            (subst
              (λ x.
                (lookup j (ids_of k (drop_topic m id).key_to_ids) ≡ some tt)
                ↔ (lookup j x ≡ some k))
              (sym r.1) (d.0 k j)),
      subst (λ x. Entries (λ k ids. 0 < length ids) x) (sym r.0) d.1,
      λ j. ap (lookup j) r.1 ∙ d.2 j,
      r.2,
      r.3 ∙ ap (λ x. elim (lookup id x) [ none ↦ [] | some cc ↦ cc.cancel ∷ [] ]) d.3,
    )

pub new_rtd_manager-IsConsistent {ℓ} :
    (C : Type ℓ) → IsConsistent (new_rtd_manager {C = C}) × HasNoEmpty (new_rtd_manager {C = C})
unfolding new_rtd_manager
new_rtd_manager-IsConsistent C = (λ key id. (λ h. cc, λ h. cc), λ key ids l. cc)
