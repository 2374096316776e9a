-- ===== src/Config/Sysconfig.antt =====
-- Class SysconfigFile of snapper/AsciiFile.cc: a file is the list of its lines. The three regular
-- expressions of parse_line differ in the value only; a match is greedy, so that a value without quotes
-- is the longest that leaves a comment or nothing.
pub mod Values
pub mod Vectors
pub mod All
use snapper.Base.{
  Bytes, eq_bytes, lt_bytes, ℕ, Bool, true, false, not, ◌&&◌, ◌||◌, Option, none, some, List, [],
  ◌∷◌, ◌++◌, ◌==◌, leb, if◌then◌else◌,
}

abbrev pub space : ℕ
space = 32

abbrev pub tab : ℕ
tab = 9

-- The quotes " and '.
abbrev pub quote : ℕ
quote = 34

abbrev pub apostrophe : ℕ
apostrophe = 39

abbrev pub backslash : ℕ
backslash = 92

abbrev pub is_blank : ℕ → Bool
is_blank c = c == space || (c == tab)

-- [0-9A-Z_]
abbrev pub is_key_char : ℕ → Bool
is_key_char c = (leb b'0' c && leb c b'9') || ((leb b'A' c && leb c b'Z') || (c == b'_'))

abbrev pub all_key : Bytes → Bool
all_key [] = true
all_key (c ∷ s) = is_key_char c && all_key s

-- SysconfigFile::check_key: false where it throws.
abbrev pub check_key : Bytes → Bool
check_key [] = false
check_key (c ∷ s) = is_key_char c && all_key s

abbrev pub skip_blank : Bytes → Bytes
skip_blank [] = []
skip_blank (c ∷ s) = let rest = skip_blank s in if is_blank c then rest else c ∷ s

-- The longest beginning of characters with a property, and the rest.
unfoldable pub span : (ℕ → Bool) → Bytes → Bytes × Bytes
span p [] = ([], [])
span p (c ∷ s) = let r = span p s in if p c then (c ∷ r.0, r.1) else ([], c ∷ s)

-- A dot of a regular expression matches no line terminator.
abbrev pub all_dots : Bytes → Bool
all_dots [] = true
all_dots (c ∷ s) = not (c == 10) && (not (c == 13) && all_dots s)

-- (#.*)?
abbrev pub is_comment : Bytes → Bool
is_comment [] = true
is_comment (c ∷ s) = c == b'#' && all_dots s

-- [ \t]*(#.*)?
abbrev pub is_tail : Bytes → Bool
is_tail s = is_comment (skip_blank s)

-- A value up to the next quote, and the comment.
abbrev pub closed : ℕ → Bytes × Bytes → Option (Bytes × Bytes)
closed q (value, []) = none
closed q (value, c ∷ comment) = if is_tail comment then some (value, comment) else none

abbrev pub quoted : ℕ → Bytes → Option (Bytes × Bytes)
unfolding span
quoted q [] = none
quoted q (c ∷ s) = if c == q then closed q (span (λ d. not (d == q)) s) else none

-- A value without quotes, and the comment.
unfoldable pub unquoted : Bytes → Option (Bytes × Bytes)
unquoted [] = some ([], [])
unquoted (c ∷ s) =
    let longer = unquoted s in
    let here = if is_tail (c ∷ s) then some ([], c ∷ s) else none in
    if is_blank c then here else elim longer [ none ↦ here | some r ↦ some (c ∷ r.0, r.1) ]

abbrev pub or_else : Option (Bytes × Bytes) → Option (Bytes × Bytes) → Option (Bytes × Bytes)
or_else none r = r
or_else (some p) r = some p

pub record ParsedLine : Type 0 where
  pub key : Bytes
  pub value : Bytes
  pub comment : Bytes

-- What follows the key.
abbrev pub parse_value : Bytes → Bytes → Option ParsedLine
unfolding unquoted quoted
parse_value key [] = none
parse_value key (c ∷ s) =
    if c == b'='
    then elim (or_else (quoted quote s) (or_else (quoted apostrophe s) (unquoted s))) [
      | none ↦ none
      | some r ↦ some (record { key = key; value = r.0; comment = r.1 })
    ]
    else none

abbrev pub parse_key : Bytes × Bytes → Option ParsedLine
unfolding parse_value
parse_key ([], s) = none
parse_key (c ∷ key, s) = parse_value (c ∷ key) s

-- SysconfigFile::parse_line
unfoldable pub parse_line : Bytes → Option ParsedLine
unfolding span parse_key
parse_line line = parse_key (span is_key_char (skip_blank line))

-- The line that set_value writes.
abbrev pub written : Bytes → Bytes → Bytes → Bytes
written key value comment = key ++ (b'=' ∷ quote ∷ (value ++ (quote ∷ comment)))

abbrev pub has_key : Bytes → Option ParsedLine → Bool
has_key key none = false
has_key key (some l) = eq_bytes l.key key

abbrev pub comment_of : Option ParsedLine → Bytes
comment_of none = []
comment_of (some l) = l.comment

-- The loop of set_value over the lines, with push_back after it.
unfoldable pub set_line : Bytes → Bytes → List Bytes → List Bytes
unfolding parse_line
set_line key value [] = written key value [] ∷ []
set_line key value (line ∷ lines) =
    let rest = set_line key value lines in
    if has_key key (parse_line line)
    then written key value (comment_of (parse_line line)) ∷ lines
    else line ∷ rest

-- SysconfigFile::set_value of a string; `none` is InvalidKeyException.
unfoldable pub set_value : Bytes → Bytes → List Bytes → Option (List Bytes)
unfolding set_line
set_value key value lines = if check_key key then some (set_line key value lines) else none

abbrev pub value_of : Option ParsedLine → Option Bytes
value_of none = none
value_of (some l) = some l.value

-- SysconfigFile::get_value of a string.
unfoldable pub get_value : Bytes → List Bytes → Option Bytes
unfolding parse_line
get_value key [] = none
get_value key (line ∷ lines) =
    let rest = get_value key lines in
    if has_key key (parse_line line) then value_of (parse_line line) else rest

-- boost::replace_all_copy(s, " ", "\\ ")
unfoldable pub escape_spaces : Bytes → Bytes
escape_spaces [] = []
escape_spaces (c ∷ s) =
    if c == space then backslash ∷ space ∷ escape_spaces s else c ∷ escape_spaces s

-- The loop of set_value of a vector.
unfoldable pub join : List Bytes → Bytes
unfolding escape_spaces
join [] = []
join (v ∷ []) = escape_spaces v
join (v ∷ w ∷ values) = escape_spaces v ++ (space ∷ join (w ∷ values))

-- values.push_back(buffer) if it is not empty.
abbrev pub flush : Bytes → List Bytes → List Bytes
flush [] values = values
flush (c ∷ buffer) values = (c ∷ buffer) ∷ values

abbrev pub and_flush : Bytes → Option (List Bytes) → Option (List Bytes)
and_flush buffer none = none
and_flush buffer (some values) = some (flush buffer values)

-- The loop of get_value of a vector, with the buffer; `none` is `return false`.
unfoldable pub split : Bytes → Bytes → Option (List Bytes)
split buffer [] = some (flush buffer [])
split buffer (c ∷ []) =
    if c == space
    then some (flush buffer [])
    else if c == backslash
    then none
    else some (flush (buffer ++ (c ∷ [])) [])
split buffer (c ∷ d ∷ s) =
    let cleared = split [] (d ∷ s) in
    let escaped = split (buffer ++ (d ∷ [])) s in
    let more = split (buffer ++ (c ∷ [])) (d ∷ s) in
    if c == space
    then and_flush buffer cleared
    else if c == backslash
    then (if not (d == backslash) && not (d == space) then none else escaped)
    else more

-- SysconfigFile::set_value of a vector.
unfoldable pub set_values : Bytes → List Bytes → List Bytes → Option (List Bytes)
unfolding set_value join
set_values key values lines = set_value key (join values) lines

-- SysconfigFile::get_value of a vector.
unfoldable pub get_values : Bytes → List Bytes → Option (List Bytes)
unfolding get_value split
get_values key lines = elim (get_value key lines) [ none ↦ none | some s ↦ split [] s ]

-- ret[key] = value, for a std::map.
unfoldable pub put : Bytes → Bytes → List (Bytes × Bytes) → List (Bytes × Bytes)
unfolding eq_bytes lt_bytes
put key value [] = (key, value) ∷ []
put key value ((k, v) ∷ m) =
    let rest = put key value m in
    if eq_bytes k key
    then (k, value) ∷ m
    else if lt_bytes key k
    then (key, value) ∷ (k, v) ∷ m
    else (k, v) ∷ rest

abbrev pub put_line : Option ParsedLine → List (Bytes × Bytes) → List (Bytes × Bytes)
unfolding put
put_line none ret = ret
put_line (some l) ret = put l.key l.value ret

-- The loop of get_all_values.
unfoldable pub add_values : List Bytes → List (Bytes × Bytes) → List (Bytes × Bytes)
unfolding put_line parse_line
add_values [] ret = ret
add_values (line ∷ lines) ret = add_values lines (put_line (parse_line line) ret)

-- SysconfigFile::get_all_values
unfoldable pub get_all_values : List Bytes → List (Bytes × Bytes)
unfolding add_values
get_all_values lines = add_values lines []
