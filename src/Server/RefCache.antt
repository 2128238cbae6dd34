-- ===== src/Server/RefCache.antt =====
-- pkg/server/refcache.go and the lookup of pkg/server/refarg.go. The copies that Set and Get make are the
-- values themselves. `value_of` is what FlatBuffers reads in a stored request: its value, or nothing.
use xll_gen.Prelude.{
  ℕ, List, [], ◌∷◌, Option, none, some, lookup, insert, if◌then◌else◌, ◌==◌, nat_eq, text_eq, Text,
}

abbrev pub RefCache : Type 0
RefCache = List (Text × List ℕ)

abbrev pub new_ref_cache : RefCache
new_ref_cache = []

unfoldable pub set : RefCache → Text → List ℕ → RefCache
set c key value = insert key value c

unfoldable pub get : RefCache → Text → Option (List ℕ)
get c key = lookup key c

unfoldable pub clear_cache : RefCache → RefCache
clear_cache c = []

-- strings.CutPrefix of "h:".
abbrev pub cut_prefix : Text → Option Text
cut_prefix [] = none
cut_prefix (c ∷ []) = none
cut_prefix (c ∷ d ∷ s) = if c == b'h' then (if d == b':' then some s else none) else none

pub data ResolveError : Type 0 where
  nil_cache : Text → ResolveError
  no_payload : Text → ResolveError
  no_value : Text → ResolveError

pub data Resolved {ν} (V : Type ν) : Type ν where
  resolved : V → Resolved V
  unresolved : ResolveError → Resolved V

module _ {ν} {V : Type ν} (value_of : List ℕ → Option V) where
  abbrev pub value_or : Text → Option V → Resolved V
  value_or key none = unresolved (no_value key)
  value_or key (some v) = resolved v

  -- What the second lookup, under the token without its prefix, answers.
  abbrev pub alt_or : Text → Text → Option (List ℕ) → Resolved V
  alt_or token alt none = unresolved (no_payload token)
  alt_or token alt (some data') = value_or alt (value_of data')

  abbrev pub retry : RefCache → Text → Option Text → Resolved V
  retry c token none = unresolved (no_payload token)
  retry c token (some alt) = alt_or token alt (get c alt)

  abbrev pub resolve_in : RefCache → Text → Option (List ℕ) → Resolved V
  resolve_in c token none = retry c token (cut_prefix token)
  resolve_in c token (some data') = value_or token (value_of data')

  -- A nil cache is `none`.
  unfoldable pub resolve_ref_any : Option RefCache → Text → Resolved V
  resolve_ref_any none token = unresolved (nil_cache token)
  resolve_ref_any (some c) token = resolve_in c token (get c token)
