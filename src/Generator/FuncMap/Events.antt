-- ===== src/Generator/FuncMap/Events.antt =====
-- What the templates ask of the events of an accepted configuration (internal/generator/funcmap.go).
use xll_gen.Prelude.{
  ℕ, zero, suc, ◌≡◌, refl, sym, subst, ap, ◌∙◌, true, false, ◌||◌, List, [], ◌∷◌, Option, some, map,
  get_elem?, get_elem?-All, AllDistinct, mem, inl, inr, Bool-cases, ==→≡, ==_refl, ◌==◌, nat_eq,
  text_eq, Text, codes, Unicode, ℤ, arith, itoa,
}
use xll_gen.Config.{Config, Event}
use xll_gen.Config.Words.{valid_event_types}
use xll_gen.Config.Names.{is_listed}
use xll_gen.Config.Validate.{validate}
use xll_gen.Config.Iff.{Passes}
use xll_gen.Config.Valid
use xll_gen.Config.Valid.Whole.{validate-IsConfig}
use xll_gen.Config.Defaults.Kept.{known_event}
use xll_gen.Generator.FuncMap.{has_event, get_event_handler, lookup_event_code, lookup_event_id}

has_event-mem : (t : Text) (evts : List Event) → has_event t evts ≡ mem t (map (λ e. e.type) evts)
has_event-mem t [] = refl
has_event-mem t (e ∷ evts) = ap (λ b. (e.type == t) || b) (has_event-mem t evts)

get_elem?-has_event :
    (evts : List Event) (i : ℕ) (evt : Event)
    → get_elem? evts i ≡ some evt
    → has_event evt.type evts ≡ true
get_elem?-has_event [] i evt h = absurd (cc)
get_elem?-has_event (e ∷ evts) zero evt h =
    let q : e ≡ evt = cc in
    subst (λ v. has_event v.type (e ∷ evts) ≡ true) q (rw (==_refl e.type) refl)
get_elem?-has_event (e ∷ evts) (suc i) evt h =
    let ih = get_elem?-has_event evts i evt h in ground (arith, ih)

get_elem?-get_event_handler :
    (d : Text) (evts : List Event) (i : ℕ) (evt : Event)
    → AllDistinct (map (λ e. e.type) evts)
    → get_elem? evts i ≡ some evt
    → get_event_handler evt.type evts d ≡ evt.handler
get_elem?-get_event_handler d [] i evt u h = absurd (cc)
get_elem?-get_event_handler d (e ∷ evts) zero evt u h =
    let q : e ≡ evt = cc in
    subst (λ v. get_event_handler v.type (e ∷ evts) d ≡ v.handler) q (rw (==_refl e.type) refl)
get_elem?-get_event_handler d (e ∷ evts) (suc i) evt (new, u) h =
    let m = sym (has_event-mem evt.type evts) ∙ get_elem?-has_event evts i evt h in
    elim (Bool-cases (e.type == evt.type)) [
      | inl y ↦
          let n =
            subst (λ t. mem t (map (λ e. e.type) evts) ≡ false) (==→≡ e.type evt.type y) new in
          absurd (cc (m, n))
      | inr n ↦ rw n (get_elem?-get_event_handler d evts i evt u h)
    ]

-- Neither of the two is the fallback.
abbrev pub HasCodes : Text → Type 0
HasCodes t =
    ((lookup_event_code t == codes "0") ≡ false) × ((lookup_event_id t == codes "0") ≡ false)

event_codes : (t : Text) → is_listed t valid_event_types ≡ true → HasCodes t
unfolding lookup_event_code lookup_event_id itoa
event_codes t h = elim (known_event t h) [
  | inl e ↦ subst HasCodes (sym e) (refl, refl)
  | inr e ↦ subst HasCodes (sym e) (refl, refl)
]

-- In an accepted configuration every event has a code and a message id, and what the templates look up by
-- its type is its own handler, whatever the default.
pub validate-get_event_handler :
    (u : Unicode) (parse_duration : Text → Option ℤ) (c : Config) (default_handler : Text)
    → Passes (validate u parse_duration c)
    → (i : ℕ) (evt : Event) → get_elem? c.events i ≡ some evt
    → HasCodes evt.type
      × (has_event evt.type c.events ≡ true)
      × (get_event_handler evt.type c.events default_handler ≡ evt.handler)
validate-get_event_handler u parse_duration c default_handler v i evt h =
    let (name, (pkg, (build, ((evts, kinds), rest)))) =
      (validate-IsConfig u parse_duration c).0 v in
    let (known, handler) = get_elem?-All Valid.IsEvent c.events i evt evts h in
    (
      event_codes evt.type known,
      get_elem?-has_event c.events i evt h,
      get_elem?-get_event_handler default_handler c.events i evt kinds h,
    )
