-- ===== src/Config/Defaults/Kept.antt =====
-- ApplyDefaults keeps an accepted configuration accepted (internal/config/config.go).
use xll_gen.Prelude.{
  if-kept, ◌≡◌, ◌≢◌, ◌⊎◌, refl, Bool, true, false, not, ◌&&◌, ◌||◌, inl, inr, List, [], ◌∷◌, ◌++◌,
  Option, map, ◌==◌, nat_eq, text_eq, ==→≡, Text, codes, Unicode, to_lower, rune_to_lower, arith,
  ◌∙◌, sym, subst, ℤ,
}
use xll_gen.Config.{LoggingConfig, Function, Event, RtdConfig}
use xll_gen.Config.Words.{go_reserved_words, cpp_reserved_words, valid_event_types}
use xll_gen.Config.Names.{◌>>◌, fail_if, validate_identifier, is_listed, clsid_pattern}
use xll_gen.Config.Functions.{is, is_mode}
use xll_gen.Config.Defaults.{or_default, function_defaults, clsid_of, rtd_defaults, event_defaults}
use xll_gen.Config.Defaults.{logging_defaults}
use xll_gen.Config.Defaults.Modes.{FoldsApart, function_defaults-modes}
use xll_gen.Config.Valid.Names.{validate_identifier-IsIdentifier}
use xll_gen.Config.Valid

pub map-map :
    {A : Type 0} (f : A → A) (name : A → Text) (xs : List A)
    → ((x : A) → name (f x) ≡ name x)
    → map name (map f xs) ≡ map name xs
map-map f name [] h = refl
map-map f name (x ∷ xs) h = let ih = map-map f name xs h in let e = h x in cc

module _ (u : Unicode) (apart : FoldsApart u) where
  pub function_defaults-HasTypes :
      (fn : Function)
      → (fn.mode ≢ [] → is_mode u fn.mode ≡ true)
      → Valid.HasTypes u fn
      → Valid.HasTypes u (function_defaults u fn)
  unfolding function_defaults
  function_defaults-HasTypes fn m (a, (b, (c, d))) =
      let (known, rtd, once) = function_defaults-modes u apart fn m in
      (a, (λ q. b (sym rtd ∙ q), (c, d)))

  pub function_defaults-HasMode :
      (parse_duration : Text → Option ℤ) (rtd_enabled : Bool) (fn : Function)
      → Valid.HasMode u parse_duration rtd_enabled fn
      → Valid.HasMode u parse_duration rtd_enabled (function_defaults u fn)
  unfolding function_defaults
  function_defaults-HasMode parse_duration rtd_enabled fn
        (a, (b, (m, (en, (me, (ttl, (ph, (ca, (ma, (sh, ti)))))))))) =
      let (known, rtd, once) = function_defaults-modes u apart fn m in
      (
        a,
        (
          b,
          (
            λ q. known,
            (
              λ q. en (sym once ∙ q),
              (
                λ q. once ∙ me q,
                (
                  λ q. let (x, (y, z)) = ttl q in (once ∙ x, (y, z)),
                  (
                    λ q. (λ i. once i || rtd i) ∙ ph q,
                    (
                      λ q. once ∙ ca q,
                      (
                        λ q. once ∙ ma q,
                        (sh, λ q. let (x, y) = ti q in ((λ i. rtd i || once i) ∙ x, y)),
                      ),
                    ),
                  ),
                ),
              ),
            ),
          ),
        ),
      )

pub or_default-kept : (P : Text → Type 0) (s d : Text) → (s ≢ [] → P s) → P d → P (or_default s d)
or_default-kept P [] d h k = k
or_default-kept P (c ∷ s) d h k = h (λ q. cc)

pub set_default-kept :
    (P : Text → Type 0) (s d : Text)
    → (s ≢ [] → P s)
    → P d
    → (or_default s d ≢ [] → P (or_default s d))
set_default-kept P s d h k q = or_default-kept P s d h k

pub generated-IsPackage : Valid.IsPackage (codes "generated")
unfolding go_reserved_words
generated-IsPackage = ground arith

pub normal_temp_dir : Valid.IsPrintable (codes "${TEMP}")
normal_temp_dir = ground arith

one_of : (a b : Bool) → (a || (b || false)) ≡ true → (a ≡ true) ⊎ (b ≡ true)
one_of true b h = inl refl
one_of false true h = inr refl
one_of false false h = absurd (cc)

pub known_event :
    (t : Text)
    → is_listed t valid_event_types ≡ true
    → (t ≡ codes "CalculationEnded") ⊎ (t ≡ codes "CalculationCanceled")
unfolding valid_event_types
known_event t a =
    elim (one_of (codes "CalculationEnded" == t) (codes "CalculationCanceled" == t) a) [
      | inl y ↦ inl (sym (==→≡ (codes "CalculationEnded") t y))
      | inr y ↦ inr (sym (==→≡ (codes "CalculationCanceled") t y))
    ]

on_ended : Valid.IsIdentifier (codes "OnCalculationEnded")
unfolding validate_identifier fail_if ◌>>◌ go_reserved_words cpp_reserved_words
on_ended = (validate_identifier-IsIdentifier (codes "OnCalculationEnded")).0 refl

on_canceled : Valid.IsIdentifier (codes "OnCalculationCanceled")
unfolding validate_identifier fail_if ◌>>◌ go_reserved_words cpp_reserved_words
on_canceled = (validate_identifier-IsIdentifier (codes "OnCalculationCanceled")).0 refl

pub event_defaults-IsEvent : (evt : Event) → Valid.IsEvent evt → Valid.IsEvent (event_defaults evt)
event_defaults-IsEvent evt (a, b) = (
  a,
  set_default-kept Valid.IsIdentifier evt.handler (codes "On" ++ evt.type) b
      (elim (known_event evt.type a) [
        | inl e ↦ subst (λ t. Valid.IsIdentifier (codes "On" ++ t)) (sym e) on_ended
        | inr e ↦ subst (λ t. Valid.IsIdentifier (codes "On" ++ t)) (sym e) on_canceled
      ]),
)

pub logging_defaults-IsLogging :
    (u : Unicode) (l : LoggingConfig) → Valid.IsLogging u l → Valid.IsLogging u (logging_defaults l)
unfolding rune_to_lower
logging_defaults-IsLogging u l (a, b) = (
  set_default-kept
      (λ t.
        let level = to_lower u t in
        (is level "debug" || is level "info" || is level "warn" || is level "error") ≡ true)
      l.level (codes "info") a refl,
  b,
)

pub rtd_defaults-enabled :
    (uuid_dns : Text → Text) (r : RtdConfig) → (rtd_defaults uuid_dns r).enabled ≡ r.enabled
unfolding rtd_defaults
rtd_defaults-enabled uuid_dns r =
    if-kept (λ r'. r'.enabled ≡ r.enabled) r.enabled _ r (λ e. refl) (λ e. refl)

module _ (uuid_dns : Text → Text)
    (guid : (s : Text) → clsid_pattern (clsid_of uuid_dns s) ≡ true) where
  pub rtd_defaults-IsRtd :
      (parse_duration : Text → Option ℤ) (u : Unicode) (r : RtdConfig)
      → Valid.IsRtd parse_duration u r
      → Valid.IsRtd parse_duration u (rtd_defaults uuid_dns r)
  unfolding rtd_defaults
  rtd_defaults-IsRtd parse_duration u r (a, (b, (c, d))) =
      if-kept (Valid.IsRtd parse_duration u) r.enabled _ r
        (λ y. (
          a,
          (
            b,
            (
              if-kept (λ t. t ≢ [] → clsid_pattern t ≡ true)
                  ((r.clsid == []) && not (r.prog_id == [])) (clsid_of uuid_dns r.prog_id) r.clsid
                  (λ q n. guid r.prog_id) (λ q. c),
              d,
            ),
          ),
        ))
        (λ n. (a, (b, (c, d))))
