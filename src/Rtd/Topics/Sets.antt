-- ===== src/Rtd/Topics/Sets.antt =====
-- The sets of topics under their keys (pkg/rtd/manager.go): what a removal leaves, and when the two maps
-- agree.
use xll_gen.Prelude.{
  ℕ, ◌<◌, ◌≡◌, ◌↔◌, refl, sym, ap, subst, ◌∙◌, inl, inr, Bool, true, false, List, [], ◌∷◌, Option,
  none, some, arith, ◌==◌, nat_eq, string_eq, ==→≡, ◌&&◌, if◌then◌else◌, length, lookup, insert,
  erase, lookup-insert, lookup-erase, Entries, Entries-erase, Entries-insert, Bool-cases,
}
use Prim.Native.String.{String}
use xll_gen.Rtd.{Topics, ids_of, or_empty, remove_id}

pub or_empty-if :
    (b : Bool) (o o' : Option Topics)
    → or_empty (if b then o else o') ≡ (if b then or_empty o else or_empty o')
or_empty-if true o o' = refl
or_empty-if false o o' = refl

pub ids_of-insert :
    (key k : String) (ids : Topics) (m : List (String × Topics))
    → ids_of k (insert key ids m) ≡ (if key == k then ids else ids_of k m)
ids_of-insert key k ids m = ap or_empty (lookup-insert key k ids m) ∙ or_empty-if (key == k) _ _

pub ids_of-erase :
    (key k : String) (m : List (String × Topics))
    → ids_of k (erase key m) ≡ (if key == k then [] else ids_of k m)
ids_of-erase key k m = ap or_empty (lookup-erase key k m) ∙ or_empty-if (key == k) _ _

pub lookup-empty : (j : ℕ) (ids : Topics) → length ids ≡ 0 → lookup j ids ≡ none
lookup-empty j [] h = refl
lookup-empty j (x ∷ ids) h = absurd (omega arith)

module _ (key : String) (id : ℕ) (m : List (String × Topics)) where
  pub lookup-remove_id :
      (k : String) (j : ℕ)
      → lookup j (ids_of k (remove_id key id m))
        ≡ (if (key == k) && (id == j) then none else lookup j (ids_of k m))
  unfolding remove_id
  lookup-remove_id k j =
      let ids = erase id (ids_of key m) in
      elim (Bool-cases (key == k)) [
        | inl t ↦
            let same : key ≡ k = ==→≡ key k t in
            let left : lookup j ids ≡ (if id == j then none else lookup j (ids_of k m)) =
              lookup-erase id j (ids_of key m)
              ∙ ap (λ q. if id == j then none else lookup j (ids_of q m)) same in
            elim (Bool-cases (length ids == 0)) [
              | inl empty ↦
                  let gone : lookup j ids ≡ none = lookup-empty j ids (ground arith) in
                  let e = ids_of-erase key k m in
                  rw (t, empty)
                    (ap (lookup j) (e ∙ ap (λ b. if b then [] else ids_of k m) t) ∙ sym gone ∙ left)
              | inr more ↦
                  let e = ids_of-insert key k ids m in
                  rw (t, more)
                    (ap (lookup j) (e ∙ ap (λ b. if b then ids else ids_of k m) t) ∙ left)
            ]
        | inr f ↦ elim (Bool-cases (length ids == 0)) [
          | inl empty ↦
              rw (f, empty)
                (ap (lookup j) (ids_of-erase key k m ∙ ap (λ b. if b then [] else ids_of k m) f))
          | inr more ↦
              rw (f, more)
                (ap (lookup j)
                  (ids_of-insert key k ids m ∙ ap (λ b. if b then ids else ids_of k m) f))
        ]
      ]

pub remove_id-Entries :
    (key : String) (id : ℕ) (m : List (String × Topics))
    → Entries (λ k ids. 0 < length ids) m
    → Entries (λ k ids. 0 < length ids) (remove_id key id m)
unfolding remove_id
remove_id-Entries key id m h = elim (Bool-cases (length (erase id (ids_of key m)) == 0)) [
  | inl empty ↦ rw empty (Entries-erase (λ k ids. 0 < length ids) key m h)
  | inr more ↦ rw more (Entries-insert (λ k ids. 0 < length ids) key _ m (ground arith) h)
]

-- The two updates agree, on the outcomes of the two tests.
pub put_agree :
    (b c : Bool) (key k : String) (o : Option (Unit {0})) (o' : Option String)
    → (b ≡ true → key ≡ k)
    → (key ≡ k → b ≡ true)
    → (c ≡ true → o ≡ none)
    → (c ≡ false → (o ≡ some tt) ↔ (o' ≡ some k))
    → ((if b && c then some tt else o) ≡ some tt) ↔ ((if c then some key else o') ≡ some k)
put_agree true true key k o o' s t n a = (λ h. ap some (s refl), λ h. refl)
put_agree false true key k o o' s t n a =
    (λ h. absurd (cc (n refl)), λ h. let e : key ≡ k = cc in absurd (cc (t e)))
put_agree true false key k o o' s t n a = a refl
put_agree false false key k o o' s t n a = a refl

-- The two removals agree.
pub drop_agree :
    (b c : Bool) (k : String) (o : Option (Unit {0})) (o' : Option String)
    → (b ≡ false → c ≡ true → o ≡ none)
    → (c ≡ false → (o ≡ some tt) ↔ (o' ≡ some k))
    → ((if b && c then none else o) ≡ some tt) ↔ ((if c then none else o') ≡ some k)
drop_agree true true k o o' n a = (λ h. cc, λ h. cc)
drop_agree false true k o o' n a = (λ h. absurd (cc (n refl refl)), λ h. cc)
drop_agree true false k o o' n a = a refl
drop_agree false false k o o' n a = a refl

pub none_of : (o : Option (Unit {0})) → (o ≡ some tt → ⊥) → o ≡ none
none_of none h = refl
none_of (some x) h = absurd (h refl)

pub lookup-same :
    (id j : ℕ) (key : String) (m : List (ℕ × String))
    → lookup id m ≡ some key
    → lookup j m ≡ (if id == j then some key else lookup j m)
lookup-same id j key m l = elim (Bool-cases (id == j)) [
  | inl same ↦
      subst (λ i. lookup i m ≡ some key) (==→≡ id j same) l
      ∙ sym (ap (λ b. if b then some key else lookup j m) same)
  | inr other ↦ sym (ap (λ b. if b then some key else lookup j m) other)
]

pub lookup-absent :
    (id j : ℕ) (m : List (ℕ × String))
    → lookup id m ≡ none
    → lookup j m ≡ (if id == j then none else lookup j m)
lookup-absent id j m l = elim (Bool-cases (id == j)) [
  | inl same ↦
      subst (λ i. lookup i m ≡ none) (==→≡ id j same) l
      ∙ sym (ap (λ b. if b then none else lookup j m) same)
  | inr other ↦ sym (ap (λ b. if b then none else lookup j m) other)
]
