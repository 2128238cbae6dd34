-- ===== src/Generator/Types.antt =====
-- The type table of internal/generator/types.go.
pub mod Codes
use Prim.Native.String.{String}
use xll_gen.Prelude.{
  List, [], ◌∷◌, Option, none, some, lookup, if◌then◌else◌, ◌==◌, text_eq, Text, codes,
}

pub record TypeInfo : Type 0 where
  pub schema_type : Text
  pub go_type : Text
  pub ret_go_type : Text
  pub cpp_type : Text
  pub arg_cpp_type : Text
  pub xll_type : Text
  pub arg_xll_type : Text

abbrev entry :
    String → String → String → String → String → String → String → String → Text × TypeInfo
entry name schema go ret cpp arg xll arg_xll = (
  codes name,
  record {
    schema_type = codes schema;
    go_type = codes go;
    ret_go_type = codes ret;
    cpp_type = codes cpp;
    arg_cpp_type = codes arg;
    xll_type = codes xll;
    arg_xll_type = codes arg_xll;
  },
)

unfoldable pub type_registry : List (Text × TypeInfo)
type_registry =
    entry "int" "int" "int32" "" "LPXLOPER12" "int32_t" "Q" "J"
    ∷ entry "float" "double" "float64" "" "LPXLOPER12" "double" "Q" "B"
    ∷ entry "string" "string" "string" "" "LPXLOPER12" "LPXLOPER12" "Q" "Q"
    ∷ entry "bool" "bool" "bool" "" "LPXLOPER12" "short" "Q" "A"
    ∷ entry "range" "protocol.Range" "*protocol.Range" "" "LPXLOPER12" "LPXLOPER12" "Q" "U"
    ∷ entry "grid" "protocol.Grid" "*protocol.Grid" "[][]any" "LPXLOPER12" "LPXLOPER12" "Q" "U"
    ∷ entry "numgrid" "protocol.NumGrid" "*protocol.NumGrid" "[][]float64" "FP12*" "FP12*" "K%" "K%"
    ∷ entry "date" "double" "time.Time" "time.Time" "LPXLOPER12" "double" "Q" "B"
    ∷ entry "any" "protocol.Any" "*protocol.Any" "any" "LPXLOPER12" "LPXLOPER12" "Q" "U"
    ∷ []

-- The field of a registered type, or else `other`, also for an empty field.
abbrev pub field_or : (TypeInfo → Text) → Text → Option TypeInfo → Text
field_or field other none = other
field_or field other (some info) = if field info == [] then other else field info

unfoldable pub lookup_schema_type : Text → Text
lookup_schema_type t = field_or (λ i. i.schema_type) t (lookup t type_registry)

unfoldable pub lookup_go_type : Text → Text
lookup_go_type t = field_or (λ i. i.go_type) t (lookup t type_registry)

unfoldable pub lookup_ret_go_type : Text → Text
lookup_ret_go_type t = field_or (λ i. i.ret_go_type) (lookup_go_type t) (lookup t type_registry)

unfoldable pub lookup_cpp_type : Text → Text
lookup_cpp_type t = field_or (λ i. i.cpp_type) t (lookup t type_registry)

unfoldable pub lookup_arg_cpp_type : Text → Text
lookup_arg_cpp_type t = field_or (λ i. i.arg_cpp_type) t (lookup t type_registry)

unfoldable pub lookup_xll_type : Text → Text
lookup_xll_type t = field_or (λ i. i.xll_type) t (lookup t type_registry)

unfoldable pub lookup_arg_xll_type : Text → Text
lookup_arg_xll_type t = field_or (λ i. i.arg_xll_type) t (lookup t type_registry)
