-- ===== src/Names/Safety.antt =====
-- The name tests (internal/app/store.go).
use mathlib.Core.List.{reverse-cons, reverse-reverse}
use ctf_agent.Base.{
  ℕ, ◌≡◌, ◌≢◌, refl, sym, ◌↔◌, true, false, [], ◌∷◌, ◌++◌, reverse, subst, arith, ◌≤◌, ◌<◌, All,
  All-append,
}
use ctf_agent.Text.{
  Text, text_eq_iff, text_eq_refl, trim_space, skip, ascii_space, wide_space, space_width,
  space_width_back, has_byte, Lacks, has_byte-Lacks, has_prefix-append, trim_prefix-append,
}
use ctf_agent.Names.{
  slash, backslash, skip_byte, until, base, dot, dot_dot, is_plain, is_one_element, is_id_byte,
  all_id_bytes, is_safe_task_id, is_safe_stored_filename, container_prefix,
  is_managed_container_name,
}

-- Letters, digits, dash, underscore and dot.
abbrev pub IsIdText : Text → Type 0
IsIdText = All (λ c. is_id_byte c ≡ true)

all_id_bytes-IsIdText : (s : Text) → (all_id_bytes s ≡ true) ↔ IsIdText s
unfolding all_id_bytes
all_id_bytes-IsIdText [] = (λ h. tt, λ h. refl)
all_id_bytes-IsIdText (c ∷ s) =
    let ih = all_id_bytes-IsIdText s in (λ h. ground (arith, ih.0), λ h. ground (arith, ih.1 h.1))

reverse-IsIdText : (s : Text) → IsIdText s → IsIdText (reverse s)
reverse-IsIdText [] h = tt
reverse-IsIdText (c ∷ s) h =
    subst IsIdText (sym (reverse-cons c s))
      (All-append _ (reverse s) (c ∷ []) (reverse-IsIdText s h.1) (h.0, tt))

id_byte_range : (c : ℕ) → is_id_byte c ≡ true → (45 ≤ c) × (c ≤ 122) × (c ≢ slash) × (c ≢ backslash)
unfolding is_id_byte
id_byte_range c h = ground arith

not_ascii_space : (c : ℕ) → 33 ≤ c → ascii_space c ≡ false
unfolding ascii_space
not_ascii_space c h = ground arith

not_wide_left : (a b c : ℕ) → a < 0x80 → wide_space a b c ≡ false
unfolding wide_space
not_wide_left a b c h = ground arith

not_wide_right : (a b c : ℕ) → c < 0x80 → wide_space a b c ≡ false
unfolding wide_space
not_wide_right a b c h = ground arith

width_left : (c : ℕ) (s : Text) → 33 ≤ c → c < 0x80 → space_width (c ∷ s) ≡ 0
unfolding space_width
width_left c s lo hi = rw (not_ascii_space c lo, not_wide_left c _ _ hi) (ground arith)

width_back : (c : ℕ) (s : Text) → 33 ≤ c → c < 0x80 → space_width_back (c ∷ s) ≡ 0
unfolding space_width_back
width_back c s lo hi = rw (not_ascii_space c lo, not_wide_right _ _ c hi) (ground arith)

skip_left : (s : Text) → IsIdText s → skip space_width 0 s ≡ s
unfolding skip
skip_left [] h = refl
skip_left (c ∷ s) h = ground (arith, id_byte_range c h.0, width_left c s)

skip_back : (s : Text) → IsIdText s → skip space_width_back 0 s ≡ s
unfolding skip
skip_back [] h = refl
skip_back (c ∷ s) h = ground (arith, id_byte_range c h.0, width_back c s)

pub trim_space-IsIdText : (s : Text) → IsIdText s → trim_space s ≡ s
unfolding trim_space
trim_space-IsIdText s h =
    rw (skip_left s h, skip_back (reverse s) (reverse-IsIdText s h)) (reverse-reverse s)

until_all : (c : ℕ) (s : Text) → Lacks c s → until c s ≡ s
unfolding until
until_all c [] h = refl
until_all c (a ∷ s) h = ground (arith, until_all c s h.1)

skip_byte_none : (c : ℕ) (s : Text) → Lacks c s → skip_byte c s ≡ s
unfolding skip_byte
skip_byte_none c [] h = refl
skip_byte_none c (a ∷ s) h = ground arith

IsIdText-Lacks-slash : (s : Text) → IsIdText s → Lacks slash s
IsIdText-Lacks-slash [] h = tt
IsIdText-Lacks-slash (c ∷ s) h = ((id_byte_range c h.0).2, IsIdText-Lacks-slash s h.1)

has_byte_none : (c : ℕ) (s : Text) → Lacks c s → has_byte c s ≡ false
unfolding has_byte
has_byte_none c [] h = refl
has_byte_none c (a ∷ s) h = ground (arith, has_byte_none c s h.1)

IsIdText-Lacks-backslash : (s : Text) → IsIdText s → Lacks backslash s
IsIdText-Lacks-backslash [] h = tt
IsIdText-Lacks-backslash (c ∷ s) h = ((id_byte_range c h.0).3, IsIdText-Lacks-backslash s h.1)

base_one : (c : ℕ) (s : Text) → IsIdText (c ∷ s) → base (c ∷ s) ≡ c ∷ s
unfolding base
base_one c s h =
    let back = IsIdText-Lacks-slash (reverse (c ∷ s)) (reverse-IsIdText (c ∷ s) h) in
    rw (
      skip_byte_none slash (reverse (c ∷ s)) back,
      until_all slash (reverse (c ∷ s)) back,
      reverse-reverse (c ∷ s),
    )

one_element-IsIdText : (c : ℕ) (s : Text) → IsIdText (c ∷ s) → is_one_element (c ∷ s) ≡ true
unfolding is_one_element
one_element-IsIdText c s h = rw (
  base_one c s h,
  text_eq_refl (c ∷ s),
  has_byte_none slash (c ∷ s) (IsIdText-Lacks-slash (c ∷ s) h),
  has_byte_none backslash (c ∷ s) (IsIdText-Lacks-backslash (c ∷ s) h),
)

plain-IsIdText : (s : Text) → s ≢ [] → s ≢ dot → s ≢ dot_dot → IsIdText s → is_plain s ≡ true
unfolding is_plain
plain-IsIdText [] n d e h = absurd (n refl)
plain-IsIdText (c ∷ s) n d e h =
    rw (trim_space-IsIdText (c ∷ s) h)
      (ground (arith, text_eq_refl (c ∷ s), text_eq_iff (c ∷ s) dot, text_eq_iff (c ∷ s) dot_dot))

plain_parts : (s : Text) → is_plain s ≡ true → (s ≢ []) × (s ≢ dot) × (s ≢ dot_dot)
unfolding is_plain
plain_parts [] h = absurd (cc)
plain_parts (c ∷ s) h =
    (λ e. cc, ground (arith, text_eq_iff (c ∷ s) dot), ground (arith, text_eq_iff (c ∷ s) dot_dot))

safe_id_ids : (s : Text) → is_safe_task_id s ≡ true → (is_plain s ≡ true) × (all_id_bytes s ≡ true)
unfolding is_safe_task_id
safe_id_ids s h = ground arith

safe_id_intro :
    (s : Text)
    → is_plain s ≡ true
    → is_one_element s ≡ true
    → all_id_bytes s ≡ true
    → is_safe_task_id s ≡ true
unfolding is_safe_task_id
safe_id_intro s p o a = ground arith

safe_id_of : (s : Text) → s ≢ [] → s ≢ dot → s ≢ dot_dot → IsIdText s → is_safe_task_id s ≡ true
safe_id_of [] n d e h = absurd (n refl)
safe_id_of (c ∷ s) n d e h =
    safe_id_intro (c ∷ s) (plain-IsIdText (c ∷ s) n d e h) (one_element-IsIdText c s h)
      ((all_id_bytes-IsIdText (c ∷ s)).1 h)

-- A task id is safe exactly when it is a nonempty text of letters, digits, dash, underscore and
-- dot other than "." and "..".
pub is_safe_task_id_iff :
    (s : Text) → (is_safe_task_id s ≡ true) ↔ ((s ≢ []) × (s ≢ dot) × (s ≢ dot_dot) × IsIdText s)
is_safe_task_id_iff s = (
  λ h. (
    (plain_parts s (safe_id_ids s h).0).0,
    (plain_parts s (safe_id_ids s h).0).1,
    (plain_parts s (safe_id_ids s h).0).2,
    (all_id_bytes-IsIdText s).0 (safe_id_ids s h).1,
  ),
  λ h. safe_id_of s h.0 h.1 h.2 h.3,
)

safe_filename_parts :
    (s : Text)
    → is_safe_stored_filename s ≡ true
    → (is_plain s ≡ true) × (has_byte slash s ≡ false) × (has_byte backslash s ≡ false)
unfolding is_safe_stored_filename is_one_element
safe_filename_parts s h = ground arith

-- A stored file name that passes the test names an entry of its task's own directory: it is not
-- empty, not "." or "..", and holds no slash and no backslash.
pub safe_stored_filename_stays :
    (s : Text)
    → is_safe_stored_filename s ≡ true
    → (s ≢ []) × (s ≢ dot) × (s ≢ dot_dot) × Lacks slash s × Lacks backslash s
safe_stored_filename_stays s h =
    let (plain, no_slash, no_backslash) = safe_filename_parts s h in
    let (a, b, c) = plain_parts s plain in
    (a, b, c, has_byte-Lacks slash s no_slash, has_byte-Lacks backslash s no_backslash)

-- The container that a task with a safe id is given passes the guard of every later docker call.
pub container_of_task_managed :
    (id : Text) → is_managed_container_name (container_prefix ++ id) ≡ is_safe_task_id id
unfolding is_managed_container_name
container_of_task_managed id =
    rw (has_prefix-append container_prefix id, trim_prefix-append container_prefix id)
