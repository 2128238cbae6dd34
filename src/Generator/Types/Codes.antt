-- ===== src/Generator/Types/Codes.antt =====
-- What the type table (internal/generator/types.go) gives for the types that the configuration admits.
use xll_gen.Prelude.{
  ◌≡◌, refl, subst, Bool, true, false, List, [], ◌∷◌, Option, none, some, map, lookup, All,
  All-weaken, mem, inl, inr, Bool-cases, ==→≡, ◌==◌, nat_eq, text_eq, Text, codes, Unicode, ℤ,
  arith,
}
use xll_gen.Config.{Config}
use xll_gen.Config.Words.{valid_arg_types, valid_return_types}
use xll_gen.Config.Names.{is_listed}
use xll_gen.Config.Validate.{validate}
use xll_gen.Config.Iff.{Passes}
use xll_gen.Config.Valid.Whole.{validate-IsConfig}
use xll_gen.Generator.Types.{
  type_registry, lookup_go_type, lookup_ret_go_type, lookup_xll_type, lookup_arg_xll_type,
}

mem-All : (P : Text → Type 0) (t : Text) (ts : List Text) → All P ts → mem t ts ≡ true → P t
mem-All P t [] a h = absurd (cc)
mem-All P t (x ∷ ts) (p, a) h = elim (Bool-cases (x == t)) [
  | inl y ↦ subst P (==→≡ x t y) p
  | inr n ↦ mem-All P t ts a (ground (arith, h, n))
]

abbrev pub is_pointer : Text → Bool
is_pointer [] = false
is_pointer (c ∷ s) = c == b'*'

abbrev pub is_some {ℓ} : {A : Type ℓ} → Option A → Bool
is_some none = false
is_some (some a) = true

-- A registered return type: its code is never that of a live reference, and a handler can build its Go type.
abbrev pub IsReturnType : Text → Type 0
IsReturnType t =
    (is_some (lookup t type_registry) ≡ true)
    × (is_listed (lookup_xll_type t) ("Q" ∷ "K%" ∷ []) ≡ true)
    × (is_pointer (lookup_ret_go_type t) ≡ false)

-- A registered argument type, with one of the codes of Excel.
abbrev pub IsArgType : Text → Type 0
IsArgType t =
    (is_some (lookup t type_registry) ≡ true)
    × (is_listed (lookup_arg_xll_type t) ("J" ∷ "B" ∷ "Q" ∷ "A" ∷ "U" ∷ "K%" ∷ []) ≡ true)

return_types : All IsReturnType (map codes valid_return_types)
unfolding valid_return_types type_registry lookup_go_type lookup_ret_go_type lookup_xll_type
return_types = (
  (refl, refl, refl),
  (
    (refl, refl, refl),
    (
      (refl, refl, refl),
      ((refl, refl, refl), ((refl, refl, refl), ((refl, refl, refl), ((refl, refl, refl), tt)))),
    ),
  ),
)

arg_types : All IsArgType (map codes valid_arg_types)
unfolding valid_arg_types type_registry lookup_arg_xll_type
arg_types = (
  (refl, refl),
  (
    (refl, refl),
    (
      (refl, refl),
      (
        (refl, refl),
        ((refl, refl), ((refl, refl), ((refl, refl), ((refl, refl), ((refl, refl), tt))))),
      ),
    ),
  ),
)

-- In an accepted configuration, the return type and the argument types of every function are registered;
-- the registration code of a return is Q or K%, never that of a live reference, and its Go type is no
-- pointer to a read view; the code of an argument is J, B, Q, A, U or K%.
pub validate-IsReturnType :
    (u : Unicode) (parse_duration : Text → Option ℤ) (c : Config)
    → Passes (validate u parse_duration c)
    → All (λ fn. IsReturnType fn.return × All (λ a. IsArgType a.type) fn.args) c.functions
validate-IsReturnType u parse_duration c v =
    let (name, (pkg, (build, (evts, (types, rest))))) =
      (validate-IsConfig u parse_duration c).0 v in
    All-weaken _ _ c.functions
      (λ fn (r, (m, (args, d))). (
        mem-All IsReturnType fn.return (map codes valid_return_types) return_types r,
        All-weaken _ _ fn.args
            (λ a (i, (n, t)). mem-All IsArgType a.type (map codes valid_arg_types) arg_types t)
            args,
      ))
      types
