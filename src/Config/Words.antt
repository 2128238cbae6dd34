-- ===== src/Config/Words.antt =====
-- The word tables of internal/config/config.go. A Go map from strings to true is the list of its keys.
use Prim.Native.String.{String}
use xll_gen.Prelude.{List, [], ◌∷◌}

unfoldable pub ribbon_image_file_exts : List String
ribbon_image_file_exts = ".png" ∷ ".jpg" ∷ ".jpeg" ∷ ".bmp" ∷ ".gif" ∷ ".ico" ∷ []

unfoldable pub valid_arg_types : List String
valid_arg_types =
    "int" ∷ "float" ∷ "string" ∷ "bool" ∷ "range" ∷ "grid" ∷ "numgrid" ∷ "any" ∷ "date" ∷ []

unfoldable pub valid_return_types : List String
valid_return_types = "int" ∷ "float" ∷ "string" ∷ "bool" ∷ "any" ∷ "grid" ∷ "numgrid" ∷ []

unfoldable pub valid_event_types : List String
valid_event_types = "CalculationEnded" ∷ "CalculationCanceled" ∷ []

unfoldable pub rtd_composite_return_types : List String
rtd_composite_return_types = "range" ∷ "grid" ∷ "numgrid" ∷ []

unfoldable pub go_reserved_words : List String
go_reserved_words =
    "break" ∷ "case" ∷ "chan" ∷ "const" ∷ "continue" ∷ "default" ∷ "defer" ∷ "else" ∷ "fallthrough"
    ∷ "for" ∷ "func" ∷ "go" ∷ "goto" ∷ "if" ∷ "import" ∷ "interface" ∷ "map" ∷ "package" ∷ "range"
    ∷ "return" ∷ "select" ∷ "struct" ∷ "switch" ∷ "type" ∷ "var" ∷ []

unfoldable pub cpp_reserved_words : List String
cpp_reserved_words =
    "alignas" ∷ "alignof" ∷ "and" ∷ "and_eq" ∷ "asm" ∷ "auto" ∷ "bitand" ∷ "bitor" ∷ "bool"
    ∷ "break" ∷ "case" ∷ "catch" ∷ "char" ∷ "char16_t" ∷ "char32_t" ∷ "class" ∷ "compl" ∷ "const"
    ∷ "constexpr" ∷ "const_cast" ∷ "continue" ∷ "decltype" ∷ "default" ∷ "delete" ∷ "do" ∷ "double"
    ∷ "dynamic_cast" ∷ "else" ∷ "enum" ∷ "explicit" ∷ "export" ∷ "extern" ∷ "false" ∷ "float"
    ∷ "for" ∷ "friend" ∷ "goto" ∷ "if" ∷ "inline" ∷ "int" ∷ "long" ∷ "mutable" ∷ "namespace" ∷ "new"
    ∷ "noexcept" ∷ "not" ∷ "not_eq" ∷ "nullptr" ∷ "operator" ∷ "or" ∷ "or_eq" ∷ "private"
    ∷ "protected" ∷ "public" ∷ "register" ∷ "reinterpret_cast" ∷ "return" ∷ "short" ∷ "signed"
    ∷ "sizeof" ∷ "static" ∷ "static_assert" ∷ "static_cast" ∷ "struct" ∷ "switch" ∷ "template"
    ∷ "this" ∷ "thread_local" ∷ "throw" ∷ "true" ∷ "try" ∷ "typedef" ∷ "typeid" ∷ "typename"
    ∷ "union" ∷ "unsigned" ∷ "using" ∷ "virtual" ∷ "void" ∷ "volatile" ∷ "wchar_t" ∷ "while" ∷ "xor"
    ∷ "xor_eq" ∷ []
