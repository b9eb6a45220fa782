-- ===== src/Storage/Fresh.antt =====
-- The loop of saveUploadedFile that looks for a name (internal/app/storage.go).
use ctf_agent.Base.{
  ℕ, zero, suc, ◌+◌, ◌≡◌, ◌≤◌, ◌<◌, refl, sym, ap, ◌∙◌, inl, inr, Bool, true, false, ◌||◌, Option,
  some, List, [], ◌∷◌, ◌++◌, length, take, drop, take-append, drop-append, length-append,
  if◌then◌else◌, Bool-cases, arith, is_some,
}
use ctf_agent.Map.{Map, lookup}
use ctf_agent.Names.{dot, dot_dot}
use ctf_agent.Storage.{file_exists, numbered, fresh_from, fresh_name, split_ext}
use ctf_agent.Text.{Text, text_eq, text_eq_sound, text_eq_iff, itoa}
use ctf_agent.Text.Parse.{natural, natural-itoa}

unfoldable member : Text → List Text → Bool
member x [] = false
member x (y ∷ ys) = text_eq y x || member x ys

unfoldable without : Text → List Text → List Text
without x [] = []
without x (y ∷ ys) = let rest = without x ys in if text_eq y x then rest else y ∷ rest

length-without : (x : Text) (ys : List Text) → length (without x ys) ≤ length ys
unfolding without
length-without x [] = omega arith
length-without x (y ∷ ys) = ground (arith, length-without x ys)

length-without-member :
    (x : Text) (ys : List Text) → member x ys ≡ true → length (without x ys) < length ys
unfolding without member
length-without-member x [] h = absurd (cc)
length-without-member x (y ∷ ys) h = ground (arith, length-without x ys, length-without-member x ys)

member-without :
    (x z : Text) (ys : List Text)
    → text_eq x z ≡ false
    → member z ys ≡ true
    → member z (without x ys) ≡ true
unfolding without member
member-without x z [] d h = absurd (cc)
member-without x z (y ∷ ys) d h =
    ground (arith, text_eq_iff x z, text_eq_iff y x, text_eq_iff y z, member-without x z ys)

append_cancel_right : (s r t : Text) → s ++ t ≡ r ++ t → s ≡ r
append_cancel_right s r t h =
    let sizes = sym (length-append s t) ∙ ap length h ∙ length-append r t in
    let same : length s ≡ length r = omega arith in
    sym (take-append s t)
    ∙ ap (λ u. take (length s) u) h
    ∙ ap (λ n. take n (r ++ t)) same
    ∙ take-append r t

append_cancel_left : (s t u : Text) → s ++ t ≡ s ++ u → t ≡ u
append_cancel_left s t u h = sym (drop-append s t) ∙ ap (drop (length s)) h ∙ drop-append s u

some_injective : {n m : ℕ} → some n ≡ some m → n ≡ m
some_injective h = cc

-- The names that are tried differ.
numbered_injective : (parts : Text × Text) (i j : ℕ) → numbered parts i ≡ numbered parts j → i ≡ j
unfolding numbered
numbered_injective (stem, ext) i j h =
    let front =
      append_cancel_right (stem ++ (b'-' ∷ []) ++ itoa i) (stem ++ (b'-' ∷ []) ++ itoa j) ext h in
    let digits = append_cancel_left (stem ++ (b'-' ∷ [])) (itoa i) (itoa j) front in
    some_injective (sym (natural-itoa i) ∙ ap natural digits ∙ natural-itoa j)

numbered_differ :
    (parts : Text × Text) (i j : ℕ) → i < j → text_eq (numbered parts i) (numbered parts j) ≡ false
numbered_differ parts i j h = elim (Bool-cases (text_eq (numbered parts i) (numbered parts j))) [
  | inr e ↦ e
  | inl e ↦ let same = numbered_injective parts i j (text_eq_sound _ _ e) in absurd (omega arith)
]

-- Of the numbered names from the i-th on, those that exist are all in the list.
abbrev Covers : Map Text → Text × Text → ℕ → List Text → Type 0
Covers files parts i known =
    (j : ℕ)
    → i ≤ j
    → file_exists files (numbered parts j) ≡ true
    → member (numbered parts j) known ≡ true

abbrev FreshName : Map Text → Option Text → Type 0
FreshName files o = (name : Text) × (o ≡ some name) × (file_exists files name ≡ false)

fresh_at :
    (fuel : ℕ) (files : Map Text) (parts : Text × Text) (i : ℕ) (name : Text)
    → file_exists files name ≡ false
    → FreshName files (fresh_from (suc fuel) files parts i name)
unfolding fresh_from
fresh_at fuel files parts i name h = (name, rw (h, fresh_from) refl, h)

fresh_step :
    (fuel : ℕ) (files : Map Text) (parts : Text × Text) (i : ℕ) (name : Text)
    → file_exists files name ≡ true
    → FreshName files (fresh_from fuel files parts (suc i) (numbered parts i))
    → FreshName files (fresh_from (suc fuel) files parts i name)
unfolding fresh_from
fresh_step fuel files parts i name h (fresh, e, free) = (fresh, rw (h, fresh_from) e, free)

numbered_fresh :
    (fuel : ℕ) (files : Map Text) (parts : Text × Text) (i : ℕ) (known : List Text)
    → length known < fuel
    → Covers files parts i known
    → FreshName files (fresh_from fuel files parts (suc i) (numbered parts i))
numbered_fresh zero files parts i known h cover = absurd (omega arith)
numbered_fresh (suc fuel) files parts i known h cover =
    elim (Bool-cases (file_exists files (numbered parts i))) [
      | inr free ↦ fresh_at fuel files parts (suc i) (numbered parts i) free
      | inl taken ↦
          let here = cover i (omega arith) taken in
          let less = length-without-member (numbered parts i) known here in
          fresh_step fuel files parts (suc i) (numbered parts i) taken (
            numbered_fresh fuel files parts (suc i) (without (numbered parts i) known) (omega arith)
              (λ j le e.
                member-without (numbered parts i) (numbered parts j) known
                  (numbered_differ parts i j le) (cover j (omega arith) e)))
    ]

unfoldable names : Map Text → List Text
names [] = []
names ((name, content) ∷ files) = name ∷ names files

length-names : (files : Map Text) → length (names files) ≡ length files
unfolding names
length-names [] = refl
length-names ((name, content) ∷ files) = ap suc (length-names files)

member-names :
    (name : Text) (files : Map Text)
    → is_some (lookup name files) ≡ true
    → member name (names files) ≡ true
unfolding names member lookup
member-names name [] h = absurd (cc)
member-names name ((j, content) ∷ files) h = ground (arith, member-names name files)

abbrev all_names : Map Text → List Text
all_names files = dot ∷ dot_dot ∷ names files

member-all_names :
    (name : Text) (files : Map Text)
    → file_exists files name ≡ true
    → member name (all_names files) ≡ true
unfolding member file_exists
member-all_names name files h = ground (
  arith,
  text_eq_iff name dot,
  text_eq_iff dot name,
  text_eq_iff name dot_dot,
  text_eq_iff dot_dot name,
  member-names name files,
)

-- For every directory and every name, the loop that looks for a free name ends within as many tries
-- as the directory has files and four more, with a name that does not exist.
pub fresh_name_found :
    (files : Map Text) (name : Text)
    → (fresh : Text) × (fresh_name files name ≡ some fresh) × (file_exists files fresh ≡ false)
unfolding fresh_name
fresh_name_found files name = elim (Bool-cases (file_exists files name)) [
  | inr free ↦ fresh_at (3 + length files) files (split_ext name) 1 name free
  | inl taken ↦ fresh_step (3 + length files) files (split_ext name) 1 name taken (
      numbered_fresh (3 + length files) files (split_ext name) 1 (all_names files)
        (let n = length-names files in omega arith)
        (λ j le e. member-all_names (numbered (split_ext name) j) files e))
]
