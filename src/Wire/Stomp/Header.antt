-- ===== src/Wire/Stomp/Header.antt =====
-- The escaping of headers in stomp/Stomp.cc, and what it keeps out of a line.
use snapper.Base.{Bytes, ◌≡◌, refl, false, some, [], ◌∷◌, arith, ◌==◌, All}
use snapper.Wire.Stomp.{new_line, carriage_return, escape_header, unescape_from, unescape_header}

-- What escape_header writes is read back by unescape_header, for every text.
pub unescape-escape_header : (s : Bytes) → unescape_header (escape_header s) ≡ some s
unfolding escape_header unescape_from
unescape-escape_header [] = refl
unescape-escape_header (c ∷ s) = ground (arith, unescape-escape_header s)

-- The bytes of an escaped text are none of those that end a line or a key.
pub escape_header-All :
    (s : Bytes)
    → All
        (λ c. ((c == new_line) ≡ false) × ((c == carriage_return) ≡ false) × ((c == b':') ≡ false))
        (escape_header s)
unfolding escape_header
escape_header-All [] = tt
escape_header-All (c ∷ s) = ground (arith, escape_header-All s)
