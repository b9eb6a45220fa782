-- ===== src/Text/Path.antt =====
-- filepath.Clean and filepath.Join, as on a system whose separator is `/`.
use ctf_agent.Base.{ℕ, Bool, true, false, ◌||◌, List, [], ◌∷◌, ◌++◌, reverse, ◌==◌, if◌then◌else◌}
use ctf_agent.Text.{Text, text_eq, is_empty, split}

abbrev single_dot : Text
single_dot = b'.' ∷ []

abbrev double_dot : Text
double_dot = b'.' ∷ b'.' ∷ []

abbrev separator : ℕ
separator = b'/'

-- An element ".." takes away the one before; at the front of a rooted path it is dropped.
abbrev pub step_up : Bool → List Text → List Text
step_up true [] = []
step_up false [] = double_dot ∷ []
step_up rooted (part ∷ parts) = if text_eq part double_dot then double_dot ∷ part ∷ parts else parts

-- The elements that stay, last first.
unfoldable pub clean_parts : Bool → List Text → List Text → List Text
unfolding text_eq
clean_parts rooted kept [] = kept
clean_parts rooted kept (part ∷ parts) =
    let same = clean_parts rooted kept parts in
    let up = clean_parts rooted (step_up rooted kept) parts in
    let more = clean_parts rooted (part ∷ kept) parts in
    if is_empty part || text_eq part single_dot
    then same
    else if text_eq part double_dot
    then up
    else more

unfoldable pub join_parts : List Text → Text
join_parts [] = []
join_parts (part ∷ []) = part
join_parts (part ∷ next ∷ parts) = part ++ separator ∷ join_parts (next ∷ parts)

abbrev or_dot : Text → Text
or_dot [] = single_dot
or_dot (c ∷ s) = c ∷ s

-- filepath.Clean
unfoldable pub clean : Text → Text
unfolding clean_parts join_parts split
clean [] = single_dot
clean (c ∷ s) =
    if c == separator
    then separator ∷ join_parts (reverse (clean_parts true [] (split separator s)))
    else or_dot (join_parts (reverse (clean_parts false [] (split separator (c ∷ s)))))

-- filepath.Join of two elements
unfoldable pub join_two : Text → Text → Text
unfolding clean
join_two [] [] = []
join_two [] (c ∷ s) = clean (c ∷ s)
join_two (c ∷ s) [] = clean (c ∷ s)
join_two (c ∷ s) (d ∷ t) = clean ((c ∷ s) ++ separator ∷ d ∷ t)
