-- ===== src/Wire/Escape.antt =====
-- Marshaller::escape and Unmarshaller::unescape of dbus/DBusMessage.cc, and Pipe::escape of
-- dbus/DBusPipe.cc, whose unescape is the same function. A string is the list of its bytes.
use snapper.Base.{
  ℕ, ◌+◌, ◌-◌, ◌*◌, ◌/◌, ◌%◌, ◌≤◌, ◌<◌, ◌≡◌, refl, Bool, true, false, ◌&&◌, ◌||◌, Option, none,
  some, List, [], ◌∷◌, ◌++◌, arith, ltb, leb, ◌==◌, if◌then◌else◌, All, Bool-cases, inl, inr, ap,
  ◌∙◌,
}
use mathlib.Core.Option

abbrev pub backslash : ℕ
backslash = 92

-- A digit of snprintf's %x.
hex_digit : ℕ → ℕ
hex_digit d = if ltb d 10 then b'0' + d else b'a' + (d - 10)

-- "\\x%02x"
abbrev hex_escape : ℕ → List ℕ
hex_escape c = backslash ∷ b'x' ∷ hex_digit (c / 16) ∷ hex_digit (c % 16) ∷ []

-- The loop of both escape functions, which differ in the bytes that are written in hexadecimal.
escape_by : (ℕ → Bool) → List ℕ → List ℕ
escape_by special [] = []
escape_by special (c ∷ rest) =
    (if c == backslash
      then backslash ∷ backslash ∷ []
      else if special c
      then hex_escape c
      else c ∷ [])
    ++ escape_by special rest

-- Marshaller::escape
unfoldable pub escape : List ℕ → List ℕ
unfolding escape_by hex_digit
escape = escape_by (λ c. ltb 127 c)

-- Pipe::escape
unfoldable pub pipe_escape : List ℕ → List ℕ
unfolding escape_by hex_digit
pipe_escape = escape_by (λ c. leb c b' ')

-- isxdigit
is_xdigit : ℕ → Bool
is_xdigit c =
    (leb b'0' c && leb c b'9') || ((leb b'a' c && leb c b'f') || (leb b'A' c && leb c b'F'))

-- The value that sscanf's %x gives a hexadecimal digit.
hex_value : ℕ → ℕ
hex_value c = if leb c b'9' then c - b'0' else if leb c b'F' then c - b'A' + 10 else c - b'a' + 10

-- Where the loop of unescape stands in an escape sequence; `digit d` has read one digit.
pub data Mode : Type 0 where
  plain escaped hex : Mode
  digit : ℕ → Mode

-- The loop of unescape; `none` is MarshallingException.
unescape_from : Mode → List ℕ → Option (List ℕ)
unescape_from plain [] = some []
unescape_from plain (c ∷ rest) = elim (c == backslash) [
  | true ↦ unescape_from escaped rest
  | false ↦ Option.map (◌∷◌ c) (unescape_from plain rest)
]
unescape_from escaped [] = none
unescape_from escaped (c ∷ rest) = elim (c == backslash) [
  | true ↦ Option.map (◌∷◌ backslash) (unescape_from plain rest)
  | false ↦ elim (c == b'x') [ true ↦ unescape_from hex rest | false ↦ none ]
]
unescape_from hex [] = none
unescape_from hex (c ∷ rest) = elim (is_xdigit c) [
  | true ↦ unescape_from (digit (hex_value c)) rest
  | false ↦ none
]
unescape_from (digit d) [] = none
unescape_from (digit d) (c ∷ rest) = elim (is_xdigit c) [
  | true ↦ Option.map (◌∷◌ ((d * 16 + hex_value c) % 256)) (unescape_from plain rest)
  | false ↦ none
]

-- Unmarshaller::unescape and Pipe::unescape
unfoldable pub unescape : List ℕ → Option (List ℕ)
unfolding unescape_from is_xdigit hex_value hex_digit
unescape = unescape_from plain

xdigit_digit : (d : ℕ) → d < 16 → (is_xdigit (hex_digit d) ≡ true) × (hex_value (hex_digit d) ≡ d)
unfolding is_xdigit hex_value hex_digit
xdigit_digit d h = (ground arith, ground arith)

hex-digit :
    (d : ℕ) (rest : List ℕ)
    → d < 16
    → unescape_from hex (hex_digit d ∷ rest) ≡ unescape_from (digit d) rest
unfolding unescape_from
hex-digit d rest h = let (x, v) = xdigit_digit d h in rw (x, unescape_from) (rw v refl)

digit-digit :
    (d e : ℕ) (rest : List ℕ)
    → e < 16
    → unescape_from (digit d) (hex_digit e ∷ rest)
      ≡ Option.map (◌∷◌ ((d * 16 + e) % 256)) (unescape_from plain rest)
unfolding unescape_from
digit-digit d e rest h = let (x, v) = xdigit_digit e h in rw (x, unescape_from) (rw v refl)

open_hex : (rest : List ℕ) → unescape_from plain (backslash ∷ b'x' ∷ rest) ≡ unescape_from hex rest
unfolding unescape_from
open_hex rest = refl

unescape-backslash :
    (rest : List ℕ)
    → unescape_from plain (backslash ∷ backslash ∷ rest)
      ≡ Option.map (◌∷◌ backslash) (unescape_from plain rest)
unfolding unescape_from
unescape-backslash rest = refl

unescape-plain :
    (c : ℕ) (rest : List ℕ)
    → (c == backslash) ≡ false
    → unescape_from plain (c ∷ rest) ≡ Option.map (◌∷◌ c) (unescape_from plain rest)
unfolding unescape_from
unescape-plain c rest e = rw (e, unescape_from) refl

unescape-hex :
    (c : ℕ) (rest : List ℕ)
    → c < 256
    → unescape_from plain (hex_escape c ++ rest) ≡ Option.map (◌∷◌ c) (unescape_from plain rest)
unescape-hex c rest h =
    let value : (c / 16 * 16 + c % 16) % 256 ≡ c = omega arith in
    open_hex (hex_digit (c / 16) ∷ hex_digit (c % 16) ∷ rest)
    ∙ hex-digit (c / 16) (hex_digit (c % 16) ∷ rest) (omega arith)
    ∙ digit-digit (c / 16) (c % 16) rest (omega arith)
    ∙ ap (λ k. Option.map (◌∷◌ k) (unescape_from plain rest)) value

-- Bytes.
abbrev pub Bytes : List ℕ → Type 0
Bytes = All (λ c. c < 256)

escape_by-roundtrip :
    (special : ℕ → Bool) (s : List ℕ) → Bytes s → unescape_from plain (escape_by special s) ≡ some s
unfolding escape_by
escape_by-roundtrip special [] h = unfold unescape_from in refl
escape_by-roundtrip special (c ∷ s) h =
    let ih = escape_by-roundtrip special s h.1 in
    elim (Bool-cases (c == backslash)) [
      | inl e ↦ rw e (unescape-backslash (escape_by special s) ∙ rw ih (ground arith))
      | inr e ↦ elim (Bool-cases (special c)) [
        | inl x ↦ rw (e, x) (unescape-hex c (escape_by special s) h.0 ∙ rw ih refl)
        | inr x ↦ rw (e, x) (unescape-plain c (escape_by special s) e ∙ rw ih refl)
      ]
    ]

-- What Marshaller::escape and Pipe::escape write is read back by unescape, for every text of bytes.
pub unescape-escape :
    (s : List ℕ) → Bytes s → (unescape (escape s) ≡ some s) × (unescape (pipe_escape s) ≡ some s)
unfolding unescape escape pipe_escape
unescape-escape s h = (escape_by-roundtrip _ s h, escape_by-roundtrip _ s h)

hex_digit_range : (d : ℕ) → d < 16 → (b'0' ≤ hex_digit d) × (hex_digit d ≤ b'f')
unfolding hex_digit
hex_digit_range d h = (ground arith, ground arith)

-- What Marshaller::escape writes is ASCII.
escape_by-Within :
    (special : ℕ → Bool) (lo hi : ℕ) (s : List ℕ)
    → ((c : ℕ) → c < 256 → special c ≡ false → (lo ≤ c) × (c ≤ hi))
    → lo ≤ b'0'
    → b'x' ≤ hi
    → Bytes s
    → All (λ c. (lo ≤ c) × (c ≤ hi)) (escape_by special s)
unfolding escape_by
escape_by-Within special lo hi [] in_range l u h = tt
escape_by-Within special lo hi (c ∷ s) in_range l u h = ground (
  arith,
  in_range c h.0,
  hex_digit_range (c / 16),
  hex_digit_range (c % 16),
  escape_by-Within special lo hi s in_range l u h.1,
)

-- Marshaller::escape writes bytes up to 127 only; Pipe::escape writes no space and no control character
-- below it, so a line that it writes can be cut at spaces and at its end.
pub escape_ranges :
    (s : List ℕ)
    → Bytes s
    → All (λ c. (0 ≤ c) × (c ≤ 127)) (escape s) × All (λ c. (33 ≤ c) × (c ≤ 255)) (pipe_escape s)
unfolding escape pipe_escape
escape_ranges s h = (
  escape_by-Within _ 0 127 s (λ c b e. ground arith) (omega arith) (omega arith) h,
  escape_by-Within _ 33 255 s (λ c b e. ground arith) (omega arith) (omega arith) h,
)
