-- ===== src/Wire/Stomp.antt =====
-- stomp/Stomp.cc and Stomp.h. A text is the list of its bytes, and an istream the bytes that are still
-- to be read; a read that finds fewer than it wants sets eof, and later reads find nothing.
pub mod Header
pub mod Frame
pub mod Ends
use snapper.Base.{
  Bytes, eq_bytes, lt_bytes, ℕ, zero, suc, ◌+◌, ◌-◌, ◌*◌, ◌^◌, Bool, true, false, ◌&&◌, ◌||◌,
  Option, none, some, List, [], ◌∷◌, ◌++◌, ltb, leb, ◌==◌, if◌then◌else◌, length, take, drop,
}
use mathlib.Core.Option

abbrev pub Headers : Type 0
Headers = List (Bytes × Bytes)

-- struct Message; `headers` is a std::map, in the order of its keys.
pub record Message : Type 0 where
  pub command : Bytes
  pub headers : Headers
  pub body : Bytes

abbrev pub backslash : ℕ
backslash = 92

abbrev pub new_line : ℕ
new_line = 10

abbrev pub carriage_return : ℕ
carriage_return = 13

-- headers[key] = value
unfoldable pub assign : Bytes → Bytes → Headers → Headers
unfolding lt_bytes
assign key value [] = (key, value) ∷ []
assign key value ((k, v) ∷ rest) =
    let later = assign key value rest in
    if lt_bytes k key
    then (k, v) ∷ later
    else if lt_bytes key k
    then (key, value) ∷ (k, v) ∷ rest
    else (k, value) ∷ rest

-- escape_header
unfoldable pub escape_header : Bytes → Bytes
escape_header [] = []
escape_header (c ∷ s) =
    (if c == carriage_return
      then backslash ∷ b'r' ∷ []
      else if c == new_line
      then backslash ∷ b'n' ∷ []
      else if c == b':'
      then backslash ∷ b'c' ∷ []
      else if c == backslash
      then backslash ∷ backslash ∷ []
      else c ∷ [])
    ++ escape_header s

-- The switch of unescape_header.
unfoldable pub unescape_char : ℕ → Option ℕ
unescape_char c =
    if c == b'r'
    then some carriage_return
    else if c == b'n'
    then some new_line
    else if c == b'c'
    then some b':'
    else if c == backslash
    then some backslash
    else none

-- unescape_header; `none` is the exception. The flag says that a backslash was read.
unfoldable pub unescape_from : Bool → Bytes → Option Bytes
unfolding unescape_char
unescape_from false [] = some []
unescape_from true [] = none
unescape_from false (c ∷ s) = elim (c == backslash) [
  | true ↦ unescape_from true s
  | false ↦ Option.map (◌∷◌ c) (unescape_from false s)
]
unescape_from true (c ∷ s) = elim (unescape_char c) [
  | none ↦ none
  | some d ↦ Option.map (◌∷◌ d) (unescape_from false s)
]

abbrev pub unescape_header : Bytes → Option Bytes
unescape_header s = unescape_from false s

-- strip_cr
unfoldable pub strip_cr : Bytes → Bytes
strip_cr [] = []
strip_cr (c ∷ []) = if c == carriage_return then [] else c ∷ []
strip_cr (c ∷ d ∷ s) = c ∷ strip_cr (d ∷ s)

-- getline with a delimiter: the line, the rest, and whether eof is set.
unfoldable pub getline : ℕ → Bytes → Bytes × Bytes × Bool
getline delim [] = ([], [], true)
getline delim (c ∷ s) =
    let (line, rest, eof) = getline delim s in
    if c == delim then ([], s, false) else (c ∷ line, rest, eof)

-- isspace, isdigit
abbrev is_space : ℕ → Bool
is_space c = c == b' ' || (leb 9 c && leb c 13)

abbrev is_digit : ℕ → Bool
is_digit c = leb b'0' c && leb c b'9'

drop_spaces : Bytes → Bytes
drop_spaces [] = []
drop_spaces (c ∷ s) = let rest = drop_spaces s in if is_space c then rest else c ∷ s

-- Digits up to the end of the text; `none` where there is something else.
digits_from : ℕ → Bytes → Option ℕ
digits_from value [] = some value
digits_from value (c ∷ s) = elim (is_digit c) [
  | true ↦ digits_from (value * 10 + (c - b'0')) s
  | false ↦ none
]

unsigned_from : Bytes → Option ℕ
unfolding digits_from
unsigned_from [] = none
unsigned_from (c ∷ s) = digits_from 0 (c ∷ s)

-- parse_content_length, with what stoll does: spaces and a sign may stand before the digits. Every
-- exception of it is a runtime_error, hence `none`.
unfoldable pub parse_content_length : Bytes → Option ℕ
unfolding drop_spaces unsigned_from
parse_content_length str = elim (drop_spaces str) [
  | [] ↦ none
  | c ∷ s ↦ elim (unsigned_from (if c == b'-' || c == b'+' then s else c ∷ s)) [
    | none ↦ none
    | some value ↦
        if c == b'-'
        then if value == 0 then some 0 else none
        else if ltb value (2 ^ 63)
        then some value
        else none
  ]
]

-- The regular expression [A-Za-z0-9_]+
abbrev is_word : ℕ → Bool
is_word c = is_digit c || (leb b'A' c && leb c b'Z') || (leb b'a' c && leb c b'z') || (c == b'_')

abbrev all_words : Bytes → Bool
all_words [] = true
all_words (c ∷ s) = is_word c && all_words s

abbrev pub is_command : Bytes → Bool
is_command [] = false
is_command (c ∷ s) = all_words (c ∷ s)

-- line.find(':') with the two calls of substr.
unfoldable pub split_colon : Bytes → Option (Bytes × Bytes)
split_colon [] = none
split_colon (c ∷ s) = elim (c == b':') [
  | true ↦ some ([], s)
  | false ↦ elim (split_colon s) [ none ↦ none | some (key, value) ↦ some (c ∷ key, value) ]
]

-- "content-length"
abbrev pub content_length_key : Bytes
content_length_key =
    b'c' ∷ b'o' ∷ b'n' ∷ b't' ∷ b'e' ∷ b'n' ∷ b't' ∷ b'-' ∷ b'l' ∷ b'e' ∷ b'n' ∷ b'g' ∷ b't' ∷ b'h'
    ∷ []

-- How read_message ends: with a message and the bytes after it, or with an exception; in the model only,
-- with its fuel used up.
pub data Outcome : Type 0 where
  done : Message → Bytes → Outcome
  threw exhausted : Outcome

-- The part of read_message after the empty line. `length` is the content length, where there is one.
unfoldable pub read_body : Message → Option ℕ → Bytes → Outcome
unfolding getline
read_body msg none s = let (body, rest, _) = getline 0 s in done (record msg { body = body }) rest
read_body msg (some n) s = if ltb (length s) n then threw else elim (drop n s) [
  | [] ↦ threw
  | c ∷ rest ↦ if c == 0 then done (record msg { body = take n s }) rest else threw
]

-- A line of a header: the message and the content length with it; `none` is an exception.
unfoldable pub add_header : Message → Option ℕ → Bytes → Option (Message × Option ℕ)
unfolding assign eq_bytes split_colon parse_content_length unescape_from
add_header msg len line = elim (split_colon line) [
  | none ↦ none
  | some (k, v) ↦ elim (unescape_header k) [
    | none ↦ none
    | some key ↦ elim (unescape_header v) [
      | none ↦ none
      | some value ↦
          let msg' = record msg { headers = assign key value msg.headers } in
          elim (eq_bytes key content_length_key) [
            | false ↦ some (msg', len)
            | true ↦ elim (parse_content_length value) [
              | none ↦ none
              | some n ↦ some (msg', some n)
            ]
          ]
    ]
  ]
]

-- The loop of read_message in the state Headers; each round reads a line.
unfoldable pub read_headers : ℕ → Message → Option ℕ → Bytes → Outcome
unfolding getline strip_cr add_header read_body
read_headers zero msg len s = exhausted
read_headers (suc fuel) msg len s =
    let (line, rest, eof) = getline new_line s in
    elim (strip_cr line) [
      | [] ↦ read_body msg len rest
      | c ∷ t ↦ elim (add_header msg len (c ∷ t)) [
        | none ↦ threw
        | some (msg', len') ↦ elim eof [ true ↦ threw | false ↦ read_headers fuel msg' len' rest ]
      ]
    ]

-- The same in the state Start: read_message. The message that it returns at eof is empty.
unfoldable pub read_message : ℕ → Bytes → Outcome
unfolding read_headers
read_message zero s = exhausted
read_message (suc fuel) s =
    let (line, rest, eof) = getline new_line s in
    elim eof [
      | true ↦ done (record { command = []; headers = []; body = [] }) rest
      | false ↦ elim (strip_cr line) [
        | [] ↦ read_message fuel rest
        | c ∷ t ↦ elim (is_command (c ∷ t)) [
          | true ↦ read_headers fuel (record { command = c ∷ t; headers = []; body = [] }) none rest
          | false ↦ threw
        ]
      ]
    ]

-- The loop of write_message over the headers.
unfoldable pub write_headers : Headers → Bytes
unfolding escape_header
write_headers [] = []
write_headers ((k, v) ∷ rest) =
    (escape_header k ++ b':' ∷ escape_header v) ++ new_line ∷ write_headers rest

-- write_message: what it appends to the stream.
unfoldable pub write_message : Message → Bytes
unfolding write_headers
write_message msg =
    msg.command ++ (new_line ∷ (write_headers msg.headers ++ (new_line ∷ (msg.body ++ 0 ∷ []))))
