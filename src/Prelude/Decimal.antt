-- ===== src/Prelude/Decimal.antt =====
-- Decimal numerals as strconv prints them, and that they read back.
use Prim.Native.Nat.{ℕ, zero, suc, ◌+◌, ◌*◌, ◌-◌, ◌/◌, ◌%◌, ◌<◌}
use mathlib.Core.Path.{◌≡◌, ◌∙◌, ap}
use mathlib.Core.Logic.{◌≢◌}
use mathlib.Core.Bool.{true}
use mathlib.Core.List.{[], ◌∷◌}
use native.Mathlib.Omega.{arith}
use xll_gen.Prelude.Tests.{ltb, if◌then◌else◌, if-kept}
use xll_gen.Prelude.Lists.{All}
use xll_gen.Prelude.Texts.{Text, is_digit}

-- The digits of `n` before `acc`. More fuel than `n` is enough, since every round divides by ten.
abbrev pub decimal : ℕ → ℕ → Text → Text
decimal zero n acc = acc
decimal (suc fuel) n acc =
    let rest = decimal fuel (n / 10) ((48 + n % 10) ∷ acc) in
    if ltb n 10 then (48 + n) ∷ acc else rest

unfoldable pub itoa : ℕ → Text
itoa n = decimal (suc n) n []

abbrev pub read_decimal : ℕ → Text → ℕ
read_decimal v [] = v
read_decimal v (c ∷ s) = read_decimal (v * 10 + (c - 48)) s

decimal-read :
    (fuel n : ℕ) (acc : Text) → n < fuel → read_decimal 0 (decimal fuel n acc) ≡ read_decimal n acc
decimal-read zero n acc h = absurd (omega arith)
decimal-read (suc fuel) n acc h =
    if-kept (λ s. read_decimal 0 s ≡ read_decimal n acc) (ltb n 10) ((48 + n) ∷ acc) _
      (λ y. ap (λ v. read_decimal v acc) (omega arith))
      (λ k.
        decimal-read fuel (n / 10) ((48 + n % 10) ∷ acc) (ground (arith, k, h))
        ∙ ap (λ v. read_decimal v acc) (omega arith))

pub itoa-read_decimal : (n : ℕ) → read_decimal 0 (itoa n) ≡ n
unfolding itoa
itoa-read_decimal n = decimal-read (suc n) n [] (omega arith)

decimal-All :
    (fuel n : ℕ) (acc : Text)
    → All (λ c. is_digit c ≡ true) acc
    → All (λ c. is_digit c ≡ true) (decimal fuel n acc)
decimal-All zero n acc h = h
decimal-All (suc fuel) n acc h =
    if-kept (All (λ c. is_digit c ≡ true)) (ltb n 10) ((48 + n) ∷ acc) _
      (λ y. (ground (arith, y), h))
      (λ k. decimal-All fuel (n / 10) ((48 + n % 10) ∷ acc) (ground arith, h))

pub itoa-All : (n : ℕ) → All (λ c. is_digit c ≡ true) (itoa n)
unfolding itoa
itoa-All n = decimal-All (suc n) n [] tt

decimal_set : (fuel n : ℕ) (c : ℕ) (acc : Text) → decimal fuel n (c ∷ acc) ≢ []
decimal_set zero n c acc = λ q. cc
decimal_set (suc fuel) n c acc =
    if-kept (λ s. s ≢ []) (ltb n 10) ((48 + n) ∷ c ∷ acc) _ (λ y q. cc)
      (λ k. decimal_set fuel (n / 10) (48 + n % 10) (c ∷ acc))

pub itoa_set : (n : ℕ) → itoa n ≢ []
unfolding itoa
itoa_set n =
    if-kept (λ s. s ≢ []) (ltb n 10) ((48 + n) ∷ []) _ (λ y q. cc)
      (λ k. decimal_set n (n / 10) (48 + n % 10) [])
