-- ===== src/Rtd/Sends/Broadcast.antt =====
-- `Publish` (pkg/rtd/manager.go) against the subscriptions: whom it reaches, and what it reports.
use xll_gen.Prelude.{
  ℕ, suc, ◌+◌, ◌<◌, ◌≡◌, ◌↔◌, refl, sym, ap, ◌∙◌, inl, inr, ◌⊎◌, true, false, List, [], ◌∷◌, ◌++◌,
  Option, some, arith, ◌==◌, nat_eq, nat_beq_iff, ==→≢, string_eq, length, map, lookup,
  if◌then◌else◌, Bool-cases,
}
use Prim.Native.String.{String}
use xll_gen.Rtd.{
  RtdManager, begun, not_begun, err_stopped, begin_with, begin_sends, end_sends, ids_of, Topics,
}
use xll_gen.Rtd.Topics.{IsConsistent}
use xll_gen.Rtd.Sends.{
  RtdUpdate, unsent, sent, with_error, topic_ids, publish_to, publish, publish_begun,
}

-- A transport that logs every update, and fails where `verdict` says so.
abbrev pub logging {ℓ κ} :
    {V : Type ℓ} {E : Type κ}
    → (RtdUpdate V → Option E)
    → RtdUpdate V
    → List (RtdUpdate V)
    → Option E × List (RtdUpdate V)
logging verdict u log = (verdict u, log ++ (u ∷ []))

abbrev pub update_of {ℓ} : {V : Type ℓ} → V → ℕ → RtdUpdate V
update_of value id = record { topic_id = id; value = value; is_error = false }

-- The failures, each with its topic.
abbrev pub failures {ℓ κ} :
    {V : Type ℓ} {E : Type κ} → (RtdUpdate V → Option E) → V → List ℕ → List (ℕ × E)
failures verdict value [] = []
failures verdict value (id ∷ ids) =
    with_error id (verdict (update_of value id)) (failures verdict value ids)

-- `id` is in the list.
abbrev pub Among : ℕ → List ℕ → Type 0
Among id [] = ⊥
Among id (j ∷ ids) = (j ≡ id) ⊎ Among id ids

append_assoc {ℓ} : {A : Type ℓ} (xs ys zs : List A) → (xs ++ ys) ++ zs ≡ xs ++ (ys ++ zs)
append_assoc [] ys zs = refl
append_assoc (x ∷ xs) ys zs = ap (◌∷◌ x) (append_assoc xs ys zs)

append_nil {ℓ} : {A : Type ℓ} (xs : List A) → xs ++ [] ≡ xs
append_nil [] = refl
append_nil (x ∷ xs) = ap (◌∷◌ x) (append_nil xs)

Among-Follows : (id : ℕ) (ids : Topics) → Among id (map (λ t. t.0) ids) ↔ (lookup id ids ≡ some tt)
Among-Follows id [] = (λ h. absurd h, λ h. cc)
Among-Follows id ((j, v) ∷ ids) =
    let h = Among-Follows id ids in
    elim (Bool-cases (j == id)) [
      | inl same ↦ (λ a. rw same refl, λ l. inl ((nat_beq_iff j id).0 same))
      | inr other ↦ (
        λ a. elim a [ inl e ↦ absurd (==→≢ j id other e) | inr a' ↦ rw other (h.0 a') ],
        λ l. inr (h.1 (sym (ap (λ b. if b then some v else lookup id ids) other) ∙ l)),
      )
    ]

publish_to-logging {ℓ κ} :
    {V : Type ℓ} {E : Type κ} (verdict : RtdUpdate V → Option E) (value : V) (ids : List ℕ)
    (log : List (RtdUpdate V))
    → publish_to (logging verdict) ids value log
      ≡ (failures verdict value ids, log ++ map (update_of value) ids)
unfolding publish_to
publish_to-logging verdict value [] log = ap (λ l. ([], l)) (sym (append_nil log))
publish_to-logging verdict value (id ∷ ids) log =
    let h = publish_to-logging verdict value ids (log ++ (update_of value id ∷ [])) in
    rw h (
      ap (λ l. (failures verdict value (id ∷ ids), l))
        (append_assoc log (update_of value id ∷ []) (map (update_of value) ids)))

length-map {ℓ κ} :
    {A : Type ℓ} {B : Type κ} (f : A → B) (xs : List A) → length (map f xs) ≡ length xs
length-map f [] = refl
length-map f (x ∷ xs) = ap suc (length-map f xs)

begin_sends_ready {μ} :
    {C : Type μ} (m : RtdManager C) (n : ℕ) (c : C)
    → m.stopped ≡ false
    → m.client ≡ some c
    → begin_sends m n ≡ begun c (record m { in_flight = m.in_flight + n })
unfolding begin_sends
begin_sends_ready m n c going here =
    ap (λ b. if b then not_begun err_stopped else begin_with m n m.client) going
    ∙ ap (begin_with m n) here

begin_sends_shut {μ} :
    {C : Type μ} (m : RtdManager C) (n : ℕ)
    → m.stopped ≡ true
    → begin_sends m n ≡ not_begun err_stopped
unfolding begin_sends
begin_sends_shut m n shut = rw (shut, begin_sends) refl

empty_of {ℓ} : {A : Type ℓ} (xs : List A) → length xs ≡ 0 → xs ≡ []
empty_of [] h = refl
empty_of (x ∷ xs) h = absurd (omega arith)

-- A value that is published under a key goes, in one update each that is not marked as an error, to
-- just the topics that are subscribed to that key, whichever of these sends fail; each failure is
-- reported with its topic, and no send is left in flight. After `Stop`, nothing is sent.
pub publish_reaches {ℓ κ μ} :
    {V : Type ℓ} {E : Type κ} {C : Type μ} (verdict : RtdUpdate V → Option E) (m : RtdManager C)
    (key : String) (value : V) (log : List (RtdUpdate V))
    → IsConsistent m
    → let ids = topic_ids m key in
      let r = publish (logging verdict) m key value log in
      ((id : ℕ) → Among id ids ↔ (lookup id m.id_to_key ≡ some key))
      × ((c : C)
          → m.stopped ≡ false
          → m.client ≡ some c
          → (r.0 ≡ sent (failures verdict value ids))
            × (r.2 ≡ log ++ map (update_of value) ids)
            × (r.1.in_flight ≡ m.in_flight))
      × (m.stopped ≡ true → (r.2 ≡ log) × (0 < length ids → r.0 ≡ unsent err_stopped))
unfolding publish begin_sends publish_begun end_sends
publish_reaches verdict m key value log c =
    let ids = topic_ids m key in
    (
      λ id.
          let h = Among-Follows id (ids_of key m.key_to_ids) in
          let k = c key id in (λ a. k.0 (h.0 a), λ l. h.1 (k.1 l)),
      λ client going here. elim (Bool-cases (length ids == 0)) [
        | inl empty ↦
            let none_left : ids ≡ [] = empty_of ids ((nat_beq_iff (length ids) 0).0 empty) in
            rw empty (
              ap (λ l. sent (failures verdict value l)) (sym none_left),
              sym (append_nil log) ∙ ap (λ l. log ++ map (update_of value) l) (sym none_left),
              refl,
            )
        | inr full ↦ rw full (
            rw (begin_sends_ready m (length ids) client going here)
              (rw (publish_to-logging verdict value ids log) (refl, refl, omega arith)))
      ],
      λ shut. elim (Bool-cases (length ids == 0)) [
        | inl empty ↦ rw empty (refl, λ p. absurd (ground (arith, empty)))
        | inr full ↦ rw full (rw (begin_sends_shut m (length ids) shut) (refl, λ p. refl))
      ],
    )
