-- ===== src/Ribbon/Images.antt =====
-- Images of internal/ribbon/ribbon.go: the image files that the buttons name, each loaded once.
-- `image_path` is filepath.Clean of the joined path, and `read_file` is os.ReadFile.
pub mod Steps
pub mod Embedded
use xll_gen.Prelude.{
  ℕ, ◌^◌, Bool, List, [], ◌∷◌, ◌++◌, Option, none, some, length, get_elem?, ltb, if◌then◌else◌,
  ◌==◌, nat_eq, text_eq, lookup, insert, Text, codes, Unicode, itoa,
}
use xll_gen.Config.{RibbonButton, RibbonGroup}
use xll_gen.Config.Names.{
  Reason, ImageKind, image_file, image_mso, image_error, classify_ribbon_image,
}

pub record Image : Type 0 where
  pub name : Text
  pub path : Text
  pub contents : List ℕ

-- The three variables of the loops.
pub record Images : Type 0 where
  pub imgs : List Image
  pub by_path : List (Text × ℕ)
  pub name_by_value : List (Text × Text)

abbrev pub max_image_bytes : ℕ
max_image_bytes = 2 ^ 20

abbrev pub image_name : ℕ → Text
image_name i = codes "xllgen_img_" ++ itoa i

-- The button's label goes with it. An index out of range is a panic.
pub data ImageFault : Type 0 where
  bad_image : Reason → ImageFault
  unreadable_image empty_image image_too_big index_out_of_range : ImageFault

pub data Loaded : Type 0 where
  loaded : Images → Loaded
  failed : Text → ImageFault → Loaded

-- An error returns.
abbrev pub and_then : Loaded → (Images → Loaded) → Loaded
and_then (loaded t) f = f t
and_then (failed label e) f = failed label e

module _ (u : Unicode) (image_path : Text → Text) (read_file : Text → Option (List ℕ)) where
  abbrev pub append_image : Images → Text → Text → List ℕ → Images
  append_image t value p contents =
      let name = image_name (length t.imgs) in
      record {
        imgs = t.imgs ++ (record { name = name; path = p; contents = contents } ∷ []);
        by_path = insert p (length t.imgs) t.by_path;
        name_by_value = insert value name t.name_by_value;
      }

  -- After os.ReadFile.
  unfoldable pub embed : Images → RibbonButton → Text → Option (List ℕ) → Loaded
  embed t btn p none = failed btn.label unreadable_image
  embed t btn p (some contents) =
      if length contents == 0
      then failed btn.label empty_image
      else if ltb max_image_bytes (length contents)
      then failed btn.label image_too_big
      else loaded (append_image t btn.image p contents)

  -- `nameByValue[btn.Image] = imgs[i].Name`.
  unfoldable pub share : Images → RibbonButton → Option Image → Loaded
  share t btn none = failed btn.label index_out_of_range
  share t btn (some img) =
      loaded (record t { name_by_value = insert btn.image img.name t.name_by_value })

  unfoldable pub by_index : Images → RibbonButton → Text → Option ℕ → Loaded
  by_index t btn p (some i) = share t btn (get_elem? t.imgs i)
  by_index t btn p none = embed t btn p (read_file p)

  unfoldable pub by_value : Images → RibbonButton → Option Text → Loaded
  by_value t btn (some name) = loaded t
  by_value t btn none = let p = image_path btn.image in by_index t btn p (lookup p t.by_path)

  unfoldable pub by_kind : Images → RibbonButton → ImageKind → Loaded
  by_kind t btn (image_error r) = failed btn.label (bad_image r)
  by_kind t btn image_mso = loaded t
  by_kind t btn image_file = by_value t btn (lookup btn.image t.name_by_value)

  -- One round of the inner loop.
  unfoldable pub load_button : Images → RibbonButton → Loaded
  load_button t btn =
      if btn.image == [] then loaded t else by_kind t btn (classify_ribbon_image u btn.image)

  unfoldable pub load_buttons : Images → List RibbonButton → Loaded
  unfolding load_button by_kind by_value by_index share embed
  load_buttons t [] = loaded t
  load_buttons t (btn ∷ btns) = and_then (load_button t btn) (λ v. load_buttons v btns)

  unfoldable pub load_groups : Images → List RibbonGroup → Loaded
  unfolding load_buttons
  load_groups t [] = loaded t
  load_groups t (g ∷ groups) = and_then (load_buttons t g.buttons) (λ v. load_groups v groups)

  unfoldable pub images : List RibbonGroup → Loaded
  unfolding load_groups
  images groups = load_groups (record { imgs = []; by_path = []; name_by_value = [] }) groups
