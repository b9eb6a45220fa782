-- ===== src/Diagnostics/Ready/Images.antt =====
-- Whether docker has the configured images (internal/app/diagnostics.go).
use ctf_agent.Base.{
  ◌≡◌, refl, ap, ◌∙◌, ◌↔◌, inl, inr, Bool, true, ◌&&◌, &&-true, ◌||◌, ◌⊎◌, List, [], ◌∷◌, All,
  Bool-cases, arith, if◌then◌else◌,
}
use ctf_agent.Config.{Config}
use ctf_agent.Diagnostics.{ReadyIo, configured_images, text_before, put_image, category_set}
use ctf_agent.Map.{Map}
use ctf_agent.Store.Listing.{insert_sorted, sort_slice}
use ctf_agent.Text.{Text, trim_space, is_empty, text_eq, text_eq_sound}

unfoldable pub all_images : ReadyIo → List Text → Bool
all_images io [] = true
all_images io (image ∷ images) = io.has_image image && all_images io images

-- Docker has the image that stands in a text of the configuration, if one does.
abbrev pub Has : ReadyIo → Text → Type 0
Has io image = (trim_space image ≡ []) ⊎ (io.has_image (trim_space image) ≡ true)

all_images-insert_sorted :
    (io : ReadyIo) (x : Text) (images : List Text)
    → all_images io (insert_sorted text_before x images) ≡ (io.has_image x && all_images io images)
unfolding insert_sorted all_images
all_images-insert_sorted io x [] = refl
all_images-insert_sorted io x (y ∷ ys) = elim (Bool-cases (text_before y x)) [
  | inl e ↦ rw (e, insert_sorted, all_images, all_images-insert_sorted io x ys) (ground arith)
  | inr e ↦ rw (e, insert_sorted, all_images) refl
]

all_images-sort_slice :
    (io : ReadyIo) (images : List Text)
    → all_images io (sort_slice text_before images) ≡ all_images io images
unfolding sort_slice all_images
all_images-sort_slice io [] = refl
all_images-sort_slice io (x ∷ xs) =
    all_images-insert_sorted io x (sort_slice text_before xs)
    ∙ ap (λ b. io.has_image x && b) (all_images-sort_slice io xs)

all_images-put_image :
    (io : ReadyIo) (x : Text) (images : List Text)
    → all_images io (put_image x images) ≡ (io.has_image x && all_images io images)
unfolding put_image all_images
all_images-put_image io x [] = refl
all_images-put_image io x (y ∷ ys) = elim (Bool-cases (text_eq y x)) [
  | inl e ↦
      rw (e, put_image, all_images)
        (let same = ap io.has_image (text_eq_sound y x e) in ground arith)
  | inr e ↦ rw (e, put_image, all_images, all_images-put_image io x ys) (ground arith)
]

-- The image of one text of the configuration.
abbrev has_trimmed : ReadyIo → Text → Bool
has_trimmed io image = is_empty (trim_space image) || io.has_image (trim_space image)

unfoldable pub has_all : ReadyIo → Map Text → Bool
has_all io [] = true
has_all io ((category, image) ∷ m) = has_trimmed io image && has_all io m

category_added :
    (io : ReadyIo) (image : Text) (images : List Text)
    → all_images io (if is_empty image then images else put_image image images)
      ≡ ((is_empty image || io.has_image image) && all_images io images)
category_added io image images = elim (Bool-cases (is_empty image)) [
  | inl e ↦ rw e refl
  | inr e ↦ rw e (all_images-put_image io image images)
]

all_images-category_set :
    (io : ReadyIo) (m : Map Text) (images : List Text)
    → all_images io (category_set m images) ≡ (has_all io m && all_images io images)
unfolding category_set has_all
all_images-category_set io [] images = refl
all_images-category_set io ((category, image) ∷ m) images =
    all_images-category_set io m _
    ∙ ap (λ b. has_all io m && b) (category_added io (trim_space image) images)
    ∙ ground arith

pub configured_all :
    (io : ReadyIo) (cfg : Config)
    → all_images io (configured_images cfg)
      ≡ (has_all io cfg.category_images && has_trimmed io cfg.docker_image)
unfolding configured_images all_images
configured_all io cfg =
    let image = trim_space cfg.docker_image in
    all_images-sort_slice io _
    ∙ all_images-category_set io cfg.category_images (if is_empty image then [] else image ∷ [])
    ∙ ap (λ b. has_all io cfg.category_images && b)
        (elim (Bool-cases (is_empty image)) [ inl e ↦ rw e refl | inr e ↦ rw e (ground arith) ])

empty_iff : (s : Text) → (is_empty s ≡ true) ↔ (s ≡ [])
empty_iff [] = (λ h. refl, λ h. refl)
empty_iff (c ∷ s) = (λ h. absurd (cc), λ h. absurd (cc))

pub has_trimmed_iff : (io : ReadyIo) (image : Text) → (has_trimmed io image ≡ true) ↔ Has io image
has_trimmed_iff io image =
    let blank = empty_iff (trim_space image) in
    (
      λ h. elim (Bool-cases (is_empty (trim_space image))) [
        | inl e ↦ inl (blank.0 e)
        | inr e ↦ inr (ground arith)
      ],
      λ h. elim h [ inl e ↦ (let b = blank.1 e in ground arith) | inr e ↦ ground arith ],
    )

pub has_all_iff :
    (io : ReadyIo) (m : Map Text) → (has_all io m ≡ true) ↔ All (λ entry. Has io entry.1) m
unfolding has_all
has_all_iff io [] = (λ h. tt, λ h. refl)
has_all_iff io ((category, image) ∷ m) =
    let one = has_trimmed_iff io image in
    let more = has_all_iff io m in
    (
      λ h. let (a, b) = &&-true (has_trimmed io image) (has_all io m) h in (one.0 a, more.0 b),
      λ (a, b). let x = one.1 a in let y = more.1 b in ground arith,
    )
