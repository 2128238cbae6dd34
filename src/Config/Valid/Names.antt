-- ===== src/Config/Valid/Names.antt =====
-- The checks of single names accept exactly what their predicates say (internal/config/config.go).
use xll_gen.Prelude.{
  ◌≡◌, ◌≢◌, ◌↔◌, refl, true, false, ◌||◌, [], ◌∷◌, ◌==◌, nat_eq, text_eq, ==→≢, ≢→==, all, any, All,
  Text, codes, Unicode, to_upper, rune_is_space, ltb, length, arith,
}
use xll_gen.Config.Words.{go_reserved_words, cpp_reserved_words}
use xll_gen.Config.ExcelNames.{xlm_reserved_names_list, builtin_function_names_list}
use xll_gen.Config.Names.{
  empty_name, bad_charset, leading_digit, go_reserved, cpp_reserved, not_importable,
  control_character, illegal_character, too_long, no_guid, xlm_keyword, builtin_function, is_listed,
  is_word_char, starts_with_digit, validate_identifier, validate_gen_go_package,
  reject_control_chars, validate_project_name, prog_id_runes, validate_prog_id, clsid_pattern,
  validate_clsid, check_excel_name_collision,
}
use xll_gen.Config.Iff.{
  ◌&◌, Passes, ↔-trans, first-Passes, fail_if-Passes, needs-Passes, if_set-Passes, is_empty-false,
  all-All, any-All,
}
use xll_gen.Config.Valid.{IsIdentifier, IsPackage, IsProjectName, IsPrintable, IsProgId, IsFree}

-- An identifier check passes exactly on the texts that are not empty, hold only letters, digits and
-- underscores, do not start with a digit, and are reserved neither in Go nor in C++.
pub validate_identifier-IsIdentifier :
    (name : Text) → Passes (validate_identifier name) ↔ IsIdentifier name
unfolding validate_identifier
validate_identifier-IsIdentifier name =
    first-Passes _ _ (↔-trans (fail_if-Passes (name == []) empty_name) (is_empty-false name)) (
      first-Passes _ _
        (↔-trans (needs-Passes (all is_word_char name) bad_charset) (all-All is_word_char name))
        (first-Passes _ _ (fail_if-Passes (starts_with_digit name) leading_digit) (
          first-Passes _ _ (fail_if-Passes (is_listed name go_reserved_words) go_reserved)
            (fail_if-Passes (is_listed name cpp_reserved_words) cpp_reserved))))

neq_iff : (s t : Text) → ((s == t) ≡ false) ↔ (s ≢ t)
neq_iff s t = (==→≢ s t, ≢→== s t)

pub validate_gen_go_package-IsPackage :
    (pkg : Text) → Passes (validate_gen_go_package pkg) ↔ (pkg ≢ [] → IsPackage pkg)
unfolding validate_gen_go_package
validate_gen_go_package-IsPackage pkg = if_set-Passes pkg _ (
    first-Passes _ _
      (↔-trans (needs-Passes (all is_word_char pkg) bad_charset) (all-All is_word_char pkg))
      (first-Passes _ _ (fail_if-Passes (starts_with_digit pkg) leading_digit) (
        first-Passes _ _ (fail_if-Passes (is_listed pkg go_reserved_words) go_reserved) (
          ↔-trans (fail_if-Passes (pkg == codes "main") not_importable)
            (neq_iff pkg (codes "main"))))))

pub validate_project_name-IsProjectName :
    (name : Text) → Passes (validate_project_name name) ↔ IsProjectName name
unfolding validate_project_name
validate_project_name-IsProjectName name =
    first-Passes _ _ (↔-trans (fail_if-Passes (name == []) empty_name) (is_empty-false name)) (
      ↔-trans (needs-Passes (all (λ r. is_word_char r || (r == b'-')) name) bad_charset)
        (all-All (λ r. is_word_char r || (r == b'-')) name))

pub reject_control_chars-IsPrintable : (s : Text) → Passes (reject_control_chars s) ↔ IsPrintable s
unfolding reject_control_chars
reject_control_chars-IsPrintable s =
    ↔-trans (fail_if-Passes (any (λ r. ltb r 32) s) control_character) (any-All (λ r. ltb r 32) s)

module _ (u : Unicode) where
  pub prog_id_runes-Passes :
      (s : Text)
      → Passes (prog_id_runes u s)
        ↔ All
            (λ c.
              ((ltb c 32 || (c == 127)) ≡ false)
              & (((c == b'"') || (c == b'\'') || (c == b'\\') || rune_is_space u c) ≡ false))
            s
  prog_id_runes-Passes [] = (λ h. tt, λ h. refl)
  prog_id_runes-Passes (c ∷ s) =
      first-Passes _ _
        (first-Passes _ _ (fail_if-Passes (ltb c 32 || (c == 127)) control_character) (
          fail_if-Passes ((c == b'"') || (c == b'\'') || (c == b'\\') || rune_is_space u c)
            illegal_character))
        (prog_id_runes-Passes s)

  pub validate_prog_id-IsProgId : (s : Text) → Passes (validate_prog_id u s) ↔ IsProgId u s
  unfolding validate_prog_id
  validate_prog_id-IsProgId s =
      first-Passes _ _ (prog_id_runes-Passes s) (
        ↔-trans (fail_if-Passes (ltb 39 (length s)) too_long)
          (λ h. ground arith, λ h. ground arith))

  pub check_excel_name_collision-IsFree :
      (name : Text) → Passes (check_excel_name_collision u name) ↔ IsFree u name
  unfolding check_excel_name_collision
  check_excel_name_collision-IsFree name =
      first-Passes _ _
        (fail_if-Passes (is_listed (to_upper u name) xlm_reserved_names_list) xlm_keyword)
        (fail_if-Passes (is_listed (to_upper u name) builtin_function_names_list) builtin_function)

pub validate_clsid_iff : (s : Text) → Passes (validate_clsid s) ↔ (clsid_pattern s ≡ true)
unfolding validate_clsid
validate_clsid_iff s = needs-Passes (clsid_pattern s) no_guid
