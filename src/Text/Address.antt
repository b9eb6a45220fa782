-- ===== src/Text/Address.antt =====
-- net.SplitHostPort, and what net.ParseIP and IP.IsLoopback say of a host.
use ctf_agent.Base.{
  ℕ, zero, suc, ◌+◌, ◌-◌, ◌*◌, ◌/◌, Bool, true, false, not, ◌&&◌, ◌||◌, Option, none, some, List,
  [], ◌∷◌, ◌++◌, length, ltb, leb, ◌==◌, if◌then◌else◌,
}
use ctf_agent.Text.{Text, has_byte, split}
use ctf_agent.Text.Cut.{cut}
use ctf_agent.Text.Parse.{is_digit, natural}

-- The part behind the last `sep` and the part before it.
unfoldable pub cut_last : ℕ → Text → Option (Text × Text)
cut_last sep [] = none
cut_last sep (c ∷ s) = elim (cut_last sep s) [
  | some (before, after) ↦ some (c ∷ before, after)
  | none ↦ if c == sep then some ([], s) else none
]

abbrev pub plain_host : Text → Text → Option Text
plain_host host port =
    if has_byte b':' host
      || has_byte b'[' host
      || has_byte b']' host
      || has_byte b'[' port
      || has_byte b']' port
    then none
    else some host

-- Behind "[": the host up to "]", which the port's colon follows.
abbrev pub bracket_host : Option (Text × Text) → Option Text
bracket_host none = none
bracket_host (some (host, [])) = none
bracket_host (some (host, c ∷ port)) =
    if c == b':'
      && not (has_byte b':' port)
      && not (has_byte b'[' host || has_byte b'[' port)
      && not (has_byte b']' port)
    then some host
    else none

abbrev pub unbracketed : Option (Text × Text) → Option Text
unbracketed none = none
unbracketed (some (host, port)) = plain_host host port

-- The host of net.SplitHostPort; `none` is an error.
unfoldable pub split_host : Text → Option Text
unfolding cut cut_last has_byte
split_host [] = none
split_host (c ∷ s) =
    if c == b'[' then bracket_host (cut b']' s) else unbracketed (cut_last b':' (c ∷ s))

-- A field of an IPv4 address: at most 255, with no leading zero.
unfoldable pub octet : Text → Option ℕ
unfolding natural
octet [] = none
octet (c ∷ []) = natural (c ∷ [])
octet (c ∷ d ∷ s) =
    if c == b'0' || ltb 3 (length (c ∷ d ∷ s))
    then none
    else elim (natural (c ∷ d ∷ s)) [ none ↦ none | some n ↦ if leb n 255 then some n else none ]

unfoldable pub octets : List Text → Option (List ℕ)
unfolding octet
octets [] = some []
octets (part ∷ parts) = elim (octet part) [
  | none ↦ none
  | some n ↦ elim (octets parts) [ none ↦ none | some ns ↦ some (n ∷ ns) ]
]

abbrev pub four : Option (List ℕ) → Option (List ℕ)
four none = none
four (some ns) = if length ns == 4 then some ns else none

unfoldable pub parse_ipv4 : Text → Option (List ℕ)
unfolding octets
parse_ipv4 s = four (octets (split b'.' s))

abbrev pub hex_digit : ℕ → Option ℕ
hex_digit c =
    if is_digit c
    then some (c - b'0')
    else if leb b'a' c && leb c b'f'
    then some (c - b'a' + 10)
    else if leb b'A' c && leb c b'F'
    then some (c - b'A' + 10)
    else none

unfoldable pub hex_value : ℕ → Text → Option ℕ
hex_value acc [] = some acc
hex_value acc (c ∷ s) = elim (hex_digit c) [ none ↦ none | some d ↦ hex_value (acc * 16 + d) s ]

-- A group of an IPv6 address: one to four hexadecimal digits.
unfoldable pub hex_group : Text → Option (List ℕ)
unfolding hex_value
hex_group [] = none
hex_group (c ∷ s) =
    if ltb 4 (length (c ∷ s))
    then none
    else elim (hex_value 0 (c ∷ s)) [ none ↦ none | some n ↦ some (n ∷ []) ]

abbrev pub ipv4_groups : Option (List ℕ) → Option (List ℕ)
ipv4_groups (some (a ∷ b ∷ c ∷ d ∷ [])) = some ((a * 256 + b) ∷ (c * 256 + d) ∷ [])
ipv4_groups _ = none

-- The groups of a part of an IPv6 address; the last may be an IPv4 address if `tail` is true.
unfoldable pub hex_groups : Bool → List Text → Option (List ℕ)
unfolding hex_group parse_ipv4 has_byte
hex_groups tail [] = some []
hex_groups tail (part ∷ []) =
    if tail && has_byte b'.' part then ipv4_groups (parse_ipv4 part) else hex_group part
hex_groups tail (part ∷ next ∷ parts) = elim (hex_group part) [
  | none ↦ none
  | some g ↦ elim (hex_groups tail (next ∷ parts)) [ none ↦ none | some gs ↦ some (g ++ gs) ]
]

abbrev pub put_before : ℕ → Option (Text × Text) → Option (Text × Text)
put_before c none = none
put_before c (some (before, after)) = some (c ∷ before, after)

-- The texts before and behind the first "::".
unfoldable pub cut_double : Text → Option (Text × Text)
cut_double [] = none
cut_double (c ∷ []) = none
cut_double (c ∷ d ∷ s) =
    let rest = cut_double (d ∷ s) in
    if c == b':' && d == b':' then some ([], s) else put_before c rest

unfoldable pub groups_of : Bool → Text → Option (List ℕ)
unfolding hex_groups split
groups_of tail [] = some []
groups_of tail (c ∷ s) = hex_groups tail (split b':' (c ∷ s))

unfoldable pub zeros : ℕ → List ℕ
zeros zero = []
zeros (suc n) = 0 ∷ zeros n

abbrev pub filled : Option (List ℕ) → Option (List ℕ) → Option (List ℕ)
filled (some left) (some right) =
    if leb (length left + length right) 7
    then some (left ++ zeros (8 - (length left + length right)) ++ right)
    else none
filled _ _ = none

abbrev pub eight : Option (List ℕ) → Option (List ℕ)
eight none = none
eight (some gs) = if length gs == 8 then some gs else none

abbrev pub ipv6_parts : Text → Option (Text × Text) → Option (List ℕ)
ipv6_parts s (some (left, right)) = filled (groups_of false left) (groups_of true right)
ipv6_parts s none = eight (groups_of true s)

-- The eight groups of an IPv6 address without a zone.
unfoldable pub parse_ipv6 : Text → Option (List ℕ)
unfolding groups_of cut_double zeros
parse_ipv6 s = ipv6_parts s (cut_double s)

abbrev pub v4_loopback : Option (List ℕ) → Bool
v4_loopback (some (a ∷ rest)) = a == 127
v4_loopback _ = false

-- ::1, or an IPv4 loopback address in ::ffff:0:0/96.
abbrev pub v6_loopback : Option (List ℕ) → Bool
v6_loopback (some (a ∷ b ∷ c ∷ d ∷ e ∷ f ∷ g ∷ h ∷ [])) =
    a == 0
    && b == 0
    && c == 0
    && d == 0
    && e == 0
    && (f == 0 && g == 0 && h == 1 || f == 0xffff && g / 256 == 127)
v6_loopback _ = false

-- net.ParseIP(host) is an address, and a loopback one.
unfoldable pub is_loopback_ip : Text → Bool
unfolding parse_ipv4 parse_ipv6
is_loopback_ip s = v4_loopback (parse_ipv4 s) || v6_loopback (parse_ipv6 s)
