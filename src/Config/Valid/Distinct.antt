-- ===== src/Config/Valid/Distinct.antt =====
-- A loop that keeps the names it has seen accepts exactly the lists without a repetition
-- (internal/config/config.go).
use xll_gen.Prelude.{
  ◌≡◌, ◌↔◌, refl, false, List, [], ◌∷◌, text_eq, ==_comm, mem, AllDistinct, All, Text, arith,
}
use xll_gen.Config.Iff.{◌&◌}

-- Each name is new where its turn comes.
abbrev pub AreNew : List Text → List Text → Type 0
AreNew seen [] = Unit
AreNew seen (n ∷ ns) = (mem n seen ≡ false) & AreNew (n ∷ seen) ns

abbrev Missing : List Text → List Text → Type 0
Missing seen = All (λ m. mem m seen ≡ false)

Missing-cons :
    (n : Text) (seen ns : List Text)
    → Missing (n ∷ seen) ns ↔ ((mem n ns ≡ false) & Missing seen ns)
Missing-cons n seen [] = (λ h. (refl, tt), λ h. tt)
Missing-cons n seen (m ∷ ns) =
    let ih = Missing-cons n seen ns in
    let c = ==_comm m n in
    (
      λ h. let (a, b) = ih.0 h.1 in (ground (arith, c, h.0, a), (ground (arith, c, h.0), b)),
      λ (a, (b, d)). (ground (arith, c, a, b), ih.1 (ground (arith, a), d)),
    )

AreNew-Missing : (seen ns : List Text) → AreNew seen ns ↔ (Missing seen ns & AllDistinct ns)
AreNew-Missing seen [] = (λ h. (tt, tt), λ h. tt)
AreNew-Missing seen (n ∷ ns) =
    let ih = AreNew-Missing (n ∷ seen) ns in
    let m = Missing-cons n seen ns in
    (
      λ (a, b). let (c, d) = ih.0 b in let (e, f) = m.0 c in ((a, f), (e, d)),
      λ ((a, f), (e, d)). (a, ih.1 (m.1 (e, f), d)),
    )

nothing_seen : (ns : List Text) → Missing [] ns
nothing_seen [] = tt
nothing_seen (n ∷ ns) = (refl, nothing_seen ns)

pub AreNew-AllDistinct : (ns : List Text) → AreNew [] ns ↔ AllDistinct ns
AreNew-AllDistinct ns =
    let e = AreNew-Missing [] ns in (λ h. (e.0 h).1, λ h. e.1 (nothing_seen ns, h))

-- The rounds of a loop, each with its share of the names.
pub zip_iff : {P Q N M : Type 0} → ((P & N) & (Q & M)) ↔ ((P × Q) & (N & M))
zip_iff = (λ ((p, n), (q, m)). ((p, q), (n, m)), λ ((p, q), (n, m)). ((p, n), (q, m)))
