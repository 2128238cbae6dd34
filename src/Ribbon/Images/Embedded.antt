-- ===== src/Ribbon/Images/Embedded.antt =====
-- What Images of internal/ribbon/ribbon.go has loaded when it succeeds.
use xll_gen.Prelude.{
  ℕ, ◌≤◌, ◌≡◌, ◌≢◌, inl, inr, refl, sym, subst, ◌∙◌, List, [], ◌∷◌, ◌++◌, Option, none, some,
  length, ltb, if-kept, ◌==◌, ==→≡, nat_eq, text_eq, lookup, insert, Entries-insert, Option-cases,
  All, All-weaken, Text, Unicode, arith,
}
use xll_gen.Config.{RibbonButton, RibbonGroup}
use xll_gen.Config.Names.{ImageKind, image_file, image_mso, image_error, classify_ribbon_image}
use xll_gen.Ribbon.Images.{
  Image, Images, max_image_bytes, image_name, append_image, embed, share, by_index, by_value,
  by_kind, load_button, load_buttons, load_groups, images,
}
use xll_gen.Ribbon.Images.Steps.{
  get_elem?-snoc_old, get_elem?-snoc_last, get_elem?-snoc_cases, Then, Then-weaken, IsImage, AtPath,
  Names, IsLoaded, Keeps, IsNamed, and_then-Then, insert-other, insert-same,
}

no_file : (u : Unicode) → classify_ribbon_image u [] ≢ image_file
unfolding classify_ribbon_image
no_file u q = cc

module _ (u : Unicode) (image_path : Text → Text) (read_file : Text → Option (List ℕ)) where
  append_image-IsLoaded :
      (t : Images) (value p : Text) (contents : List ℕ)
      → image_path value ≡ p
      → lookup p t.by_path ≡ none
      → read_file p ≡ some contents
      → 1 ≤ length contents
      → length contents ≤ max_image_bytes
      → IsLoaded read_file image_path t
      → IsLoaded read_file image_path (append_image u image_path read_file t value p contents)
  append_image-IsLoaded t value p contents ip fresh read low high (files, paths, names) =
      let name = image_name (length t.imgs) in
      let img : Image = record { name = name; path = p; contents = contents } in
      (
        λ i y g. elim (get_elem?-snoc_cases t.imgs img y i g) [
          | inl old ↦
              let (l, named, same, low', high') = files i y old in
              (insert-other p y.path (length t.imgs) i t.by_path fresh l, named, same, low', high')
          | inr (e, q) ↦
              subst (λ j. IsImage read_file (insert p (length t.imgs) t.by_path) j y) (sym e)
                (subst (IsImage read_file (insert p (length t.imgs) t.by_path) (length t.imgs))
                  (sym q) (insert-same p (length t.imgs) t.by_path, refl, read, low, high))
        ],
        Entries-insert (AtPath (t.imgs ++ (img ∷ []))) p (length t.imgs) t.by_path
            (img, get_elem?-snoc_last t.imgs img, refl)
            (λ k i l. let (y, g, e) = paths k i l in (y, get_elem?-snoc_old t.imgs img y i g, e)),
        Entries-insert (Names image_path (t.imgs ++ (img ∷ []))) value name t.name_by_value
            (length t.imgs, img, get_elem?-snoc_last t.imgs img, refl, sym ip)
            (λ v n l.
              let (i, y, g, e, q) = names v n l in
              (i, y, get_elem?-snoc_old t.imgs img y i g, e, q)),
      )

  -- After a round.
  abbrev Round : Images → RibbonButton → Images → Type 0
  Round t btn v = IsLoaded read_file image_path v × Keeps t v × IsNamed u v btn

  embed-Round :
      (t : Images) (btn : RibbonButton) (p : Text) (r : Option (List ℕ))
      → image_path btn.image ≡ p
      → lookup p t.by_path ≡ none
      → lookup btn.image t.name_by_value ≡ none
      → read_file p ≡ r
      → IsLoaded read_file image_path t
      → Then (Round t btn) (embed u image_path read_file t btn p r)
  unfolding embed
  embed-Round t btn p none ip fresh unseen read l = λ q. cc
  embed-Round t btn p (some contents) ip fresh unseen read l =
      if-kept (Then (Round t btn)) (length contents == 0) _ _ (λ y q. cc)
        (λ set.
          if-kept (Then (Round t btn)) (ltb max_image_bytes (length contents)) _ _ (λ y q. cc)
            (λ fits. (
              append_image-IsLoaded t btn.image p contents ip fresh read (ground (arith, set))
                  (ground (arith, fits)) l,
              λ v n e. insert-other btn.image v _ n t.name_by_value unseen e,
              λ k. (image_name (length t.imgs), insert-same btn.image _ t.name_by_value),
            )))

  by_index-Round :
      (t : Images) (btn : RibbonButton) (p : Text) (r : Option ℕ)
      → image_path btn.image ≡ p
      → lookup p t.by_path ≡ r
      → lookup btn.image t.name_by_value ≡ none
      → IsLoaded read_file image_path t
      → Then (Round t btn) (by_index u image_path read_file t btn p r)
  unfolding by_index share
  by_index-Round t btn p none ip at unseen l = embed-Round t btn p _ ip at unseen refl l
  by_index-Round t btn p (some i) ip at unseen (files, paths, names) =
      let (img, g, e) = paths p i at in
      rw g (
        (
          files,
          paths,
          Entries-insert (Names image_path t.imgs) btn.image img.name t.name_by_value
              (i, img, g, refl, e ∙ sym ip) names,
        ),
        λ v n h. insert-other btn.image v img.name n t.name_by_value unseen h,
        λ k. (img.name, insert-same btn.image img.name t.name_by_value),
      )

  by_kind-Round :
      (t : Images) (btn : RibbonButton) (k : ImageKind)
      → classify_ribbon_image u btn.image ≡ k
      → IsLoaded read_file image_path t
      → Then (Round t btn) (by_kind u image_path read_file t btn k)
  unfolding by_kind by_value
  by_kind-Round t btn (image_error r) q l = λ e. cc
  by_kind-Round t btn image_mso q l = (l, λ v n h. h, λ k. absurd (cc))
  by_kind-Round t btn image_file q l = elim (Option-cases (lookup btn.image t.name_by_value)) [
    | inl new ↦ rw new (by_index-Round t btn (image_path btn.image) _ refl refl new l)
    | inr (name, known) ↦ rw known (l, λ v n h. h, λ k. (name, known))
  ]

  load_button-Round :
      (t : Images) (btn : RibbonButton)
      → IsLoaded read_file image_path t
      → Then (Round t btn) (load_button u image_path read_file t btn)
  unfolding load_button
  load_button-Round t btn l =
      if-kept (Then (Round t btn)) (btn.image == []) _ _
        (λ y. (
          l,
          λ v n h. h,
          λ k.
              let e = subst (λ s. classify_ribbon_image u s ≡ image_file) (==→≡ btn.image [] y) k in
              absurd (no_file u e),
        ))
        (λ k. by_kind-Round t btn _ refl l)

  -- After the rounds of some buttons.
  abbrev Rounds : Images → List RibbonButton → Images → Type 0
  Rounds t btns v = IsLoaded read_file image_path v × Keeps t v × All (IsNamed u v) btns

  Keeps-IsNamed :
      (t v : Images) (btn : RibbonButton) → Keeps t v → IsNamed u t btn → IsNamed u v btn
  Keeps-IsNamed t v btn k h f = let (name, e) = h f in (name, k btn.image name e)

  load_buttons-Rounds :
      (t : Images) (btns : List RibbonButton)
      → IsLoaded read_file image_path t
      → Then (Rounds t btns) (load_buttons u image_path read_file t btns)
  unfolding load_buttons
  load_buttons-Rounds t [] l = (l, λ v n h. h, tt)
  load_buttons-Rounds t (btn ∷ btns) l =
      and_then-Then (Round t btn) (Rounds t (btn ∷ btns)) _
        (λ v. load_buttons u image_path read_file v btns) (load_button-Round t btn l)
        (λ v (lv, kv, nv).
          Then-weaken (Rounds v btns) (Rounds t (btn ∷ btns)) _ (load_buttons-Rounds v btns lv)
            (λ w (lw, kw, nw). (lw, λ x n h. kw x n (kv x n h), (Keeps-IsNamed v w btn kw nv, nw))))

  -- Of the groups' buttons, the maps and the images.
  abbrev pub IsEmbedded : List RibbonGroup → Images → Type 0
  IsEmbedded groups t =
      IsLoaded read_file image_path t × All (λ g. All (IsNamed u t) g.buttons) groups

  load_groups-IsEmbedded :
      (t : Images) (groups : List RibbonGroup)
      → IsLoaded read_file image_path t
      → Then (λ v. Keeps t v × IsEmbedded groups v) (load_groups u image_path read_file t groups)
  unfolding load_groups
  load_groups-IsEmbedded t [] l = (λ v n h. h, (l, tt))
  load_groups-IsEmbedded t (g ∷ groups) l =
      and_then-Then (Rounds t g.buttons) (λ v. Keeps t v × IsEmbedded (g ∷ groups) v) _
        (λ v. load_groups u image_path read_file v groups) (load_buttons-Rounds t g.buttons l)
        (λ v (lv, kv, nv).
          Then-weaken (λ w. Keeps v w × IsEmbedded groups w)
            (λ w. Keeps t w × IsEmbedded (g ∷ groups) w) _ (load_groups-IsEmbedded v groups lv)
            (λ w (kw, (lw, nw)). (
              λ x n h. kw x n (kv x n h),
              (
                lw,
                (
                  All-weaken (IsNamed u v) (IsNamed u w) g.buttons (λ b. Keeps-IsNamed v w b kw) nv,
                  nw,
                ),
              ),
            )))

  -- When Images succeeds, every button whose image is a file has a name; every name given to an image
  -- value is that of an image with the value's cleaned path; every image has the name of its place and
  -- the content of its file, of 1 byte to 1 MiB; and the map from paths leads from each image's path to
  -- its place, so no path is loaded twice. When it fails, that is not for an index out of range.
  pub images-IsEmbedded :
      (groups : List RibbonGroup) → Then (IsEmbedded groups) (images u image_path read_file groups)
  unfolding images
  images-IsEmbedded groups =
      Then-weaken _ (IsEmbedded groups) _
        (load_groups-IsEmbedded (record { imgs = []; by_path = []; name_by_value = [] }) groups
          (λ i y g. absurd (cc), λ p i h. absurd (cc), λ v n h. absurd (cc)))
        (λ t (k, e). e)
