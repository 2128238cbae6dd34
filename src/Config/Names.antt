-- ===== src/Config/Names.antt =====
-- The rules for single names and texts of internal/config/config.go and excel_names.go. An error is what
-- its message says, without the wording.
use Prim.Native.String.{String}
use xll_gen.Prelude.{
  ℕ, zero, suc, Bool, true, false, not, ◌&&◌, ◌||◌, List, [], ◌∷◌, Option, none, some, map, length,
  ltb, leb, if◌then◌else◌, ◌==◌, nat_eq, text_eq, mem, all, any, Text, codes, Unicode, to_lower,
  to_upper, rune_is_space, is_lower, is_upper, is_digit,
}
use xll_gen.Config.Words.{go_reserved_words, cpp_reserved_words, ribbon_image_file_exts}
use xll_gen.Config.ExcelNames.{xlm_reserved_names_list, builtin_function_names_list}

-- A name or a text as given is refused for this reason.
pub data Reason : Type 0 where
  empty_name bad_charset leading_digit go_reserved cpp_reserved : Reason
  not_importable control_character illegal_character too_long no_guid : Reason
  xlm_keyword builtin_function bad_extension : Reason

-- A nil error is `none`.
infixr 20 ◌>>◌
unfoldable pub ◌>>◌ {ℓ} : {E : Type ℓ} → Option E → Option E → Option E
none >> e = e
some x >> e = some x

-- `if b { return err }`.
unfoldable pub fail_if {ℓ} : {E : Type ℓ} → Bool → E → Option E
fail_if true e = some e
fail_if false e = none

abbrev pub is_listed : Text → List String → Bool
is_listed s words = mem s (map codes words)

abbrev pub is_word_char : ℕ → Bool
is_word_char c = is_lower c || is_upper c || is_digit c || (c == b'_')

abbrev pub starts_with_digit : Text → Bool
starts_with_digit [] = false
starts_with_digit (c ∷ s) = is_digit c

unfoldable pub validate_identifier : Text → Option Reason
validate_identifier name =
    fail_if (name == []) empty_name
    >> fail_if (not (all is_word_char name)) bad_charset
    >> fail_if (starts_with_digit name) leading_digit
    >> fail_if (is_listed name go_reserved_words) go_reserved
    >> fail_if (is_listed name cpp_reserved_words) cpp_reserved

-- An empty package takes its default later.
unfoldable pub validate_gen_go_package : Text → Option Reason
validate_gen_go_package pkg =
    if pkg == []
    then none
    else fail_if (not (all is_word_char pkg)) bad_charset
      >> fail_if (starts_with_digit pkg) leading_digit
      >> fail_if (is_listed pkg go_reserved_words) go_reserved
      >> fail_if (pkg == codes "main") not_importable

unfoldable pub reject_control_chars : Text → Option Reason
reject_control_chars s = fail_if (any (λ r. ltb r 32) s) control_character

unfoldable pub validate_project_name : Text → Option Reason
validate_project_name name =
    fail_if (name == []) empty_name
    >> fail_if (not (all (λ r. is_word_char r || (r == b'-')) name)) bad_charset

module _ (u : Unicode) where
  -- What is wrong with one rune of a ProgID.
  abbrev pub prog_id_rune : ℕ → Option Reason
  prog_id_rune r =
      fail_if (ltb r 32 || (r == 127)) control_character
      >> fail_if ((r == b'"') || (r == b'\'') || (r == b'\\') || rune_is_space u r)
          illegal_character

  abbrev pub prog_id_runes : Text → Option Reason
  prog_id_runes [] = none
  prog_id_runes (r ∷ s) = prog_id_rune r >> prog_id_runes s

  unfoldable pub validate_prog_id : Text → Option Reason
  validate_prog_id s = prog_id_runes s >> fail_if (ltb 39 (length s)) too_long

abbrev pub is_hex : ℕ → Bool
is_hex c = is_digit c || (leb b'A' c && leb c b'F') || (leb b'a' c && leb c b'f')

-- `n` hex digits, and then what `rest` matches.
abbrev pub hex_then : ℕ → (Text → Bool) → Text → Bool
hex_then zero rest s = rest s
hex_then (suc n) rest [] = false
hex_then (suc n) rest (c ∷ s) = is_hex c && hex_then n rest s

abbrev pub char_then : ℕ → (Text → Bool) → Text → Bool
char_then d rest [] = false
char_then d rest (c ∷ s) = (c == d) && rest s

-- clsidPattern, matched against the whole text.
abbrev pub clsid_pattern : Text → Bool
clsid_pattern = char_then b'{' (
    hex_then 8 (
      char_then b'-' (
        hex_then 4 (
          char_then b'-' (
            hex_then 4 (
              char_then b'-'
                (hex_then 4 (char_then b'-' (hex_then 12 (char_then b'}' (λ s. s == [])))))))))))

unfoldable pub validate_clsid : Text → Option Reason
validate_clsid s = fail_if (not (clsid_pattern s)) no_guid

-- Both tables hold upper-case words, which ToUpper leaves as they are.
unfoldable pub check_excel_name_collision : Unicode → Text → Option Reason
check_excel_name_collision u name =
    let upper = to_upper u name in
    fail_if (is_listed upper xlm_reserved_names_list) xlm_keyword
    >> fail_if (is_listed upper builtin_function_names_list) builtin_function

-- What follows the last separator.
abbrev is_separator : ℕ → Bool
is_separator c = (c == b'/') || (c == b'\\')

abbrev pub base_name : Text → Text
base_name [] = []
base_name (c ∷ s) =
    let rest = base_name s in
    if any is_separator s then rest else if is_separator c then s else c ∷ s

-- path.Ext of a text without separators: from the last dot on.
abbrev pub path_ext : Text → Text
path_ext [] = []
path_ext (c ∷ s) =
    let rest = path_ext s in if mem b'.' s then rest else if c == b'.' then c ∷ s else []

pub data ImageKind : Type 0 where
  image_file image_mso : ImageKind
  image_error : Reason → ImageKind

unfoldable pub classify_ribbon_image : Unicode → Text → ImageKind
classify_ribbon_image u value =
    if value == []
    then image_mso
    else if is_listed (to_lower u (path_ext (base_name value))) ribbon_image_file_exts
    then image_file
    else if any is_separator value
    then image_error bad_extension
    else image_mso
