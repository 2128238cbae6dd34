-- ===== src/Ribbon/Runs.antt =====
-- Concrete ribbons for the functions of internal/ribbon/ribbon.go.
use xll_gen.Prelude.{
  ℕ, ◌≡◌, ◌↔◌, ◌++◌, refl, true, List, [], ◌∷◌, Option, none, some, All, if◌then◌else◌, inl,
  text_eq, Text, codes, itoa, rune_to_lower, length,
}
use xll_gen.Config.{Command, RibbonButton, RibbonGroup, RibbonConfig}
use xll_gen.Config.Words.{ribbon_image_file_exts}
use xll_gen.Config.Names.{classify_ribbon_image, ◌>>◌, fail_if}
use xll_gen.Config.Functions.{is}
use xll_gen.Config.Runs.{ascii}
use xll_gen.Generator.Literals.{hex_digit}
use xll_gen.Ribbon.{
  dynamic_callback_attrs, custom_ui_namespace, escape_xml_rune, escape, button_xml, buttons_xml,
  groups_xml, generate_xml, character_references, to_cpp_raw_literal,
}
use xll_gen.Ribbon.Raw.{
  Tokens, eof, start_element, other_token, check_attr, check_attrs, check_tokens, check_content,
  validate_raw_xml, attributes, AllSupported, validate_raw_xml_iff,
}
use xll_gen.Ribbon.Values.{read, plain}
use xll_gen.Ribbon.Literal.{is_ascii}
use xll_gen.Ribbon.RoundTrip.{read_literal, to_cpp_raw_literal-read_literal}
use xll_gen.Ribbon.Images.{
  image_name, Loaded, loaded, embed, share, by_index, by_value, by_kind, load_button, load_buttons,
  load_groups, images,
}
use xll_gen.Ribbon.Images.Steps.{Then}
use xll_gen.Ribbon.Images.Embedded.{IsEmbedded, images-IsEmbedded}

abbrev refresh : Command
refresh = record {
  name = codes "Refresh";
  description = [];
  handler = codes "Refresh";
  shortcut = [];
}

abbrev button : Text → RibbonButton
button image = record { label = codes "R&D"; command = codes "Refresh"; size = []; image = image }

-- Two names of one file, and an imageMso id.
abbrev tools : List RibbonGroup
tools =
    record {
      label = codes "Tools";
      buttons = button (codes "a.png") ∷ button (codes "HappyFace") ∷ button (codes "./a.png") ∷ [];
    }
    ∷ []

abbrev clean : Text → Text
clean s = if is s "./a.png" then codes "a.png" else s

abbrev icon : Text → Option (List ℕ)
icon s = if is s "a.png" then some (137 ∷ 80 ∷ []) else none

abbrev loaded_names : Loaded → Option (ℕ × List (Text × Text))
loaded_names (loaded t) = some (length t.imgs, t.name_by_value)
loaded_names _ = none

shared_image :
    loaded_names (images ascii clean icon tools)
    ≡ some (1, (codes "./a.png", codes "xllgen_img_0") ∷ (codes "a.png", codes "xllgen_img_0") ∷ [])
unfolding images load_groups load_buttons load_button by_kind by_value by_index share embed
    classify_ribbon_image ribbon_image_file_exts rune_to_lower itoa
shared_image = refl

images-IsEmbedded_example : Then (IsEmbedded ascii clean icon tools) (images ascii clean icon tools)
images-IsEmbedded_example = images-IsEmbedded ascii clean icon tools

abbrev tokens : Text → Tokens
tokens s =
    other_token
      (start_element (codes "button") ((codes "onAction", s) ∷ (codes "id", codes "b") ∷ []) eof)

abbrev file : Text → Option Text
file s = some (codes "Refresh")

validate_raw_xml_iff_example :
    (validate_raw_xml file tokens (codes "r.xml") (refresh ∷ []) ≡ inl (codes "Refresh")) ↔ (
      (file (codes "r.xml") ≡ some (codes "Refresh"))
      × AllSupported (refresh ∷ []) (attributes (tokens (codes "Refresh"))))
validate_raw_xml_iff_example =
    validate_raw_xml_iff (refresh ∷ []) file tokens (codes "r.xml") (codes "Refresh")

raw_accepted : validate_raw_xml file tokens (codes "r.xml") (refresh ∷ []) ≡ inl (codes "Refresh")
unfolding check_content check_tokens check_attrs check_attr fail_if ◌>>◌ dynamic_callback_attrs
raw_accepted = refl

-- `"<` and a Korean letter, as the label of a button, after a byte-order mark.
abbrev label : Text
label = 34 ∷ 60 ∷ 54620 ∷ []

abbrev written_label : Text
written_label = escape label ++ (34 ∷ codes "/>")

labelled :
    to_cpp_raw_literal (65279 ∷ (codes "<button label=\"" ++ written_label))
    ≡ some (codes "LR\"XLLRIBBON(<button label=\"&#34;&lt;&#xD55C;\"/>)XLLRIBBON\"")
unfolding to_cpp_raw_literal escape_xml_rune hex_digit
labelled = refl

to_cpp_raw_literal-read_literal_example :
    let value = character_references written_label in
    let body = character_references (codes "<button label=\"") ++ value in
    (read_literal (codes "LR\"XLLRIBBON(<button label=\"&#34;&lt;&#xD55C;\"/>)XLLRIBBON\"")
      ≡ some body)
    × All (λ c. is_ascii c ≡ true) body
    × (read plain value ≡ some (label, character_references (codes "/>")))
to_cpp_raw_literal-read_literal_example =
    to_cpp_raw_literal-read_literal (65279 ∷ (codes "<button label=\"" ++ written_label))
      (codes "<button label=\"") label (codes "/>")
      (codes "LR\"XLLRIBBON(<button label=\"&#34;&lt;&#xD55C;\"/>)XLLRIBBON\"")
      (refl, (refl, (refl, tt))) refl labelled

-- A callback that the list does not have.
abbrev described : Text → Tokens
described s = start_element (codes "button") ((codes "getDescription", s) ∷ []) eof

unlisted_callback :
    validate_raw_xml file described (codes "r.xml") (refresh ∷ []) ≡ inl (codes "Refresh")
unfolding check_content check_tokens check_attrs check_attr fail_if ◌>>◌ dynamic_callback_attrs
unlisted_callback = refl

abbrev ribbon : RibbonConfig
ribbon = record {
  tab = codes "T";
  groups = record { label = codes "G"; buttons = button (codes "a.png") ∷ [] } ∷ [];
  xml = [];
  prog_id = [];
  clsid = [];
  bounce = [];
}

printed :
    generate_xml ((codes "a.png", image_name 0) ∷ []) ribbon
    ≡ some (
        codes
          "<customUI xmlns=\"http://schemas.microsoft.com/office/2006/01/customui\" loadImage=\"LoadRibbonImage\"><ribbon><tabs><tab id=\"xllgen_tab\" label=\"T\"><group id=\"xllgen_grp_0\" label=\"G\"><button id=\"xllgen_btn_0_0\" label=\"R&amp;D\" size=\"normal\" onAction=\"Refresh\" image=\"xllgen_img_0\"/></group></tab></tabs></ribbon></customUI>")
unfolding generate_xml groups_xml buttons_xml button_xml escape_xml_rune custom_ui_namespace itoa
printed = refl

literal :
    to_cpp_raw_literal (65279 ∷ 120 ∷ 54620 ∷ [])
    ≡ some (codes "LR\"XLLRIBBON(x&#xD55C;)XLLRIBBON\"")
unfolding to_cpp_raw_literal hex_digit
literal = refl
