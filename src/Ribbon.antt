-- ===== src/Ribbon.antt =====
-- The ribbon's XML of internal/ribbon/ribbon.go: GenerateXML, ValidateRawXML and ToCppRawLiteral.
pub mod Images
pub mod Raw
pub mod Values
pub mod Literal
pub mod RoundTrip
pub mod Runs
use Prim.Native.String.{String}
use xll_gen.Prelude.{
  ℕ, zero, suc, ◌+◌, ◌/◌, ◌%◌, Bool, true, false, ◌&&◌, ◌||◌, not, List, [], ◌∷◌, ◌++◌, Option,
  none, some, map, ltb, leb, if◌then◌else◌, ◌==◌, nat_eq, text_eq, lookup, mem, Text, codes, itoa,
}
use xll_gen.Config.{Command, RibbonButton, RibbonGroup, RibbonConfig}
use xll_gen.Config.Commands.{is_empty}
use xll_gen.Config.Defaults.{or_default}
use xll_gen.Generator.Literals.{hex_digit}

unfoldable pub custom_ui_namespace : Text
custom_ui_namespace = codes "http://schemas.microsoft.com/office/2006/01/customui"

unfoldable pub dynamic_callback_attrs : List String
dynamic_callback_attrs =
    "getLabel" ∷ "getEnabled" ∷ "getVisible" ∷ "getImage" ∷ "getScreentip" ∷ "getSupertip"
    ∷ "getSize" ∷ "getKeytip" ∷ "getPressed" ∷ "getText" ∷ "onChange" ∷ "getItemCount"
    ∷ "getItemLabel" ∷ "getItemID" ∷ "getSelectedItemID" ∷ "getSelectedItemIndex" ∷ "loadImage"
    ∷ "onLoad" ∷ []

-- The characters that XML allows.
abbrev pub is_xml_char : ℕ → Bool
is_xml_char r =
    (r == 9)
    || (r == 10)
    || (r == 13)
    || (leb 32 r && leb r 55295)
    || (leb 57344 r && leb r 65533)
    || (leb 65536 r && leb r 1114111)

-- One rune of xml.EscapeText; a character that XML forbids becomes U+FFFD.
unfoldable pub escape_xml_rune : ℕ → Text
escape_xml_rune r =
    if r == b'"'
    then codes "&#34;"
    else if r == b'\''
    then codes "&#39;"
    else if r == b'&'
    then codes "&amp;"
    else if r == b'<'
    then codes "&lt;"
    else if r == b'>'
    then codes "&gt;"
    else if r == 9
    then codes "&#x9;"
    else if r == 10
    then codes "&#xA;"
    else if r == 13
    then codes "&#xD;"
    else if is_xml_char r
    then r ∷ []
    else 65533 ∷ []

abbrev pub escape : Text → Text
escape [] = []
escape (r ∷ s) = escape_xml_rune r ++ escape s

-- ` name="value"`, the value as it is given.
abbrev pub attribute : String → Text → Text
attribute name value = 32 ∷ (codes name ++ (b'=' ∷ b'"' ∷ (value ++ (b'"' ∷ []))))

module _ (image_names : List (Text × Text)) where
  abbrev pub image_attribute : Text → Text
  image_attribute image = if image == [] then [] else elim (lookup image image_names) [
    | some name ↦ attribute "image" (escape name)
    | none ↦ attribute "imageMso" (escape image)
  ]

  unfoldable pub button_xml : ℕ → ℕ → RibbonButton → Text
  button_xml gi bi btn =
      codes "<button"
      ++ (attribute "id" (codes "xllgen_btn_" ++ (itoa gi ++ (b'_' ∷ itoa bi)))
          ++ (attribute "label" (escape btn.label)
              ++ (attribute "size" (escape (or_default btn.size (codes "normal")))
                  ++ (attribute "onAction" (escape btn.command)
                      ++ (image_attribute btn.image ++ codes "/>")))))

  unfoldable pub buttons_xml : ℕ → ℕ → List RibbonButton → Text
  unfolding button_xml
  buttons_xml gi bi [] = []
  buttons_xml gi bi (btn ∷ btns) = button_xml gi bi btn ++ buttons_xml gi (suc bi) btns

  unfoldable pub groups_xml : ℕ → List RibbonGroup → Text
  unfolding buttons_xml
  groups_xml gi [] = []
  groups_xml gi (g ∷ groups) =
      codes "<group"
      ++ (attribute "id" (codes "xllgen_grp_" ++ itoa gi)
          ++ (attribute "label" (escape g.label)
              ++ (b'>'
                  ∷ (buttons_xml gi 0 g.buttons
                      ++ (codes "</group>" ++ groups_xml (suc gi) groups)))))

  -- An error in raw mode and without a tab is `none`.
  unfoldable pub generate_xml : RibbonConfig → Option Text
  unfolding groups_xml
  generate_xml r =
      if not (r.xml == []) || (r.tab == [])
      then none
      else some (
          codes "<customUI"
          ++ (attribute "xmlns" custom_ui_namespace
              ++ ((if is_empty image_names
                    then []
                    else attribute "loadImage" (codes "LoadRibbonImage"))
                  ++ (codes "><ribbon><tabs><tab"
                      ++ (attribute "id" (codes "xllgen_tab")
                          ++ (attribute "label" (escape r.tab)
                              ++ (b'>'
                                  ∷ (groups_xml 0 r.groups
                                      ++ codes "</tab></tabs></ribbon></customUI>"))))))))

-- The digits of `%X` before `acc`, on more fuel than the number.
abbrev pub hex_from : ℕ → ℕ → Text → Text
hex_from zero n acc = acc
hex_from (suc fuel) n acc =
    let rest = hex_from fuel (n / 16) (hex_digit (n % 16) ∷ acc) in
    if ltb n 16 then hex_digit n ∷ acc else rest

abbrev pub character_references : Text → Text
character_references [] = []
character_references (r ∷ s) =
    let rest = character_references s in
    if ltb 127 r then b'&' ∷ b'#' ∷ b'x' ∷ hex_from (suc r) r (b';' ∷ rest) else r ∷ rest

abbrev pub starts_with : Text → Text → Bool
starts_with [] s = true
starts_with (p ∷ ps) [] = false
starts_with (p ∷ ps) (c ∷ s) = (p == c) && starts_with ps s

-- strings.Contains.
abbrev pub contains : Text → Text → Bool
contains p [] = p == []
contains p (c ∷ s) = starts_with p (c ∷ s) || contains p s

abbrev without_bom : Text → Text
without_bom [] = []
without_bom (c ∷ s) = if c == 65279 then s else c ∷ s

abbrev pub raw_delimiter : Text
raw_delimiter = codes ")XLLRIBBON\""

unfoldable pub to_cpp_raw_literal : Text → Option Text
to_cpp_raw_literal xml =
    let s = without_bom xml in
    if contains raw_delimiter s
    then none
    else some (codes "LR\"XLLRIBBON(" ++ (character_references s ++ raw_delimiter))
