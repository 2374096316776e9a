-- ===== src/Config/Sysconfig/Values.antt =====
-- set_value and get_value of SysconfigFile (snapper/AsciiFile.cc) for one string.
use snapper.Base.{
  Bytes, eq_bytes, eq_bytes_iff, eq_bytes_refl, ℕ, ◌≡◌, refl, ap, ◌∙◌, subst, inl, inr, Bool, true,
  false, not, ◌&&◌, Option, none, some, List, [], ◌∷◌, ◌++◌, ◌==◌, if◌then◌else◌, arith, Bool-cases,
  Option-cases,
}
use snapper.Config.Sysconfig.{
  quote, apostrophe, is_blank, is_key_char, all_key, check_key, skip_blank, span, is_tail, closed,
  quoted, unquoted, or_else, ParsedLine, parse_value, parse_key, parse_line, written, has_key,
  comment_of, set_line, set_value, value_of, get_value,
}

-- No character is a double quote.
abbrev pub is_plain : Bytes → Bool
is_plain [] = true
is_plain (c ∷ s) = not (c == quote) && is_plain s

span-key :
    (key rest : Bytes)
    → all_key key ≡ true
    → span is_key_char (key ++ (b'=' ∷ rest)) ≡ (key, b'=' ∷ rest)
unfolding span
span-key [] rest h = refl
span-key (c ∷ key) rest h =
    let one : is_key_char c ≡ true = ground (arith, h) in
    rw (one, span-key key rest (ground (arith, h))) refl

span-plain :
    (value rest : Bytes)
    → is_plain value ≡ true
    → span (λ d. not (d == quote)) (value ++ (quote ∷ rest)) ≡ (value, quote ∷ rest)
unfolding span
span-plain [] rest h = refl
span-plain (c ∷ value) rest h =
    let one : not (c == quote) ≡ true = ground (arith, h) in
    rw (one, span-plain value rest (ground (arith, h))) refl

skip_blank-key : (c : ℕ) (s : Bytes) → is_key_char c ≡ true → skip_blank (c ∷ s) ≡ c ∷ s
skip_blank-key c s h = let no : is_blank c ≡ false = ground (arith, h) in rw no refl

quoted-plain :
    (value comment : Bytes)
    → is_plain value ≡ true
    → is_tail comment ≡ true
    → quoted quote (quote ∷ (value ++ (quote ∷ comment))) ≡ some (value, comment)
unfolding quoted
quoted-plain value comment p t = ap (closed quote) (span-plain value comment p) ∙ rw t refl

parse_value-plain :
    (key value comment : Bytes)
    → is_plain value ≡ true
    → is_tail comment ≡ true
    → parse_value key (b'=' ∷ quote ∷ (value ++ (quote ∷ comment)))
      ≡ some (record { key = key; value = value; comment = comment })
unfolding parse_value
parse_value-plain key value comment p t = rw (quoted-plain value comment p t) refl

-- What set_value writes is parsed as it was meant.
pub parse_line-written :
    (key value comment : Bytes)
    → check_key key ≡ true
    → is_plain value ≡ true
    → is_tail comment ≡ true
    → parse_line (written key value comment)
      ≡ some (record { key = key; value = value; comment = comment })
unfolding parse_line parse_key
parse_line-written [] value comment h p t = cc
parse_line-written (c ∷ key) value comment h p t =
    let first : is_key_char c ≡ true = ground (arith, h) in
    let rest : Bytes = quote ∷ (value ++ (quote ∷ comment)) in
    ap (λ s. parse_key (span is_key_char s)) (skip_blank-key c (key ++ (b'=' ∷ rest)) first)
    ∙ (ap parse_key (span-key (c ∷ key) rest h) ∙ parse_value-plain (c ∷ key) value comment p t)

unquoted-tail : (s : Bytes) (r : Bytes × Bytes) → unquoted s ≡ some r → is_tail r.1 ≡ true
unfolding unquoted
unquoted-tail [] r e =
    let same : ([], []) ≡ r = ground (arith, e) in
    subst (λ (x : Bytes × Bytes). is_tail x.1 ≡ true) same refl
unquoted-tail (c ∷ s) r e = elim (Bool-cases (is_blank c)) [
  | inl b ↦ here (is_tail (c ∷ s)) refl (ground (arith, e, b))
  | inr b ↦ elim (Option-cases (unquoted s)) [
    | inl n ↦ here (is_tail (c ∷ s)) refl (ground (arith, e, b, n))
    | inr (x, n) ↦
        let q : (c ∷ x.0, x.1) ≡ r = ground (arith, e, b, n) in
        subst (λ (y : Bytes × Bytes). is_tail y.1 ≡ true) q (unquoted-tail s x n)
  ]
]
  where
    here :
        (b : Bool)
        → is_tail (c ∷ s) ≡ b
        → (if is_tail (c ∷ s) then some ([], c ∷ s) else none) ≡ some r
        → is_tail r.1 ≡ true
    here true q h =
        let same : ([], c ∷ s) ≡ r = ground (arith, h, q) in
        subst (λ (y : Bytes × Bytes). is_tail y.1 ≡ true) same q
    here false q h = absurd (ground (arith, h, q))

closed-tail : (q : ℕ) (p r : Bytes × Bytes) → closed q p ≡ some r → is_tail r.1 ≡ true
closed-tail q (value, []) r e = cc
closed-tail q (value, c ∷ comment) r e = elim (Bool-cases (is_tail comment)) [
  | inl t ↦
      let same : (value, comment) ≡ r = ground (arith, e, t) in
      subst (λ (y : Bytes × Bytes). is_tail y.1 ≡ true) same t
  | inr t ↦ absurd (ground (arith, e, t))
]

quoted-tail : (q : ℕ) (s : Bytes) (r : Bytes × Bytes) → quoted q s ≡ some r → is_tail r.1 ≡ true
unfolding quoted
quoted-tail q [] r e = cc
quoted-tail q (c ∷ s) r e = elim (Bool-cases (c == q)) [
  | inl b ↦ closed-tail q (span (λ d. not (d == q)) s) r (ground (arith, e, b))
  | inr b ↦ absurd (ground (arith, e, b))
]

or_else-tail :
    (a b : Option (Bytes × Bytes))
    → ((r : Bytes × Bytes) → a ≡ some r → is_tail r.1 ≡ true)
    → ((r : Bytes × Bytes) → b ≡ some r → is_tail r.1 ≡ true)
    → (r : Bytes × Bytes) → or_else a b ≡ some r
    → is_tail r.1 ≡ true
or_else-tail none b h k r e = k r e
or_else-tail (some x) b h k r e = h r e

parse_value-tail :
    (key s : Bytes) (l : ParsedLine) → parse_value key s ≡ some l → is_tail l.comment ≡ true
unfolding parse_value
parse_value-tail key [] l e = cc
parse_value-tail key (c ∷ s) l e = elim (Bool-cases (c == b'=')) [
  | inr b ↦ absurd (ground (arith, e, b))
  | inl b ↦
      elim (Option-cases (or_else (quoted quote s) (or_else (quoted apostrophe s) (unquoted s)))) [
        | inl n ↦ absurd (ground (arith, e, b, n))
        | inr (r, n) ↦
            let same : record { key = key; value = r.0; comment = r.1 } ≡ l =
              ground (arith, e, b, n) in
            subst (λ (x : ParsedLine). is_tail x.comment ≡ true) same
              (or_else-tail (quoted quote s) (or_else (quoted apostrophe s) (unquoted s))
                (quoted-tail quote s)
                (or_else-tail (quoted apostrophe s) (unquoted s) (quoted-tail apostrophe s)
                  (unquoted-tail s))
                r n)
      ]
]

-- The comment of a line can be written behind a value.
comment-tail : (line : Bytes) → is_tail (comment_of (parse_line line)) ≡ true
unfolding parse_line parse_key
comment-tail line = go (span is_key_char (skip_blank line))
  where
    at :
        (key s : Bytes) (o : Option ParsedLine)
        → parse_value key s ≡ o
        → is_tail (comment_of o) ≡ true
    at key s none e = refl
    at key s (some l) e = parse_value-tail key s l e

    go : (p : Bytes × Bytes) → is_tail (comment_of (parse_key p)) ≡ true
    go ([], s) = refl
    go (c ∷ key, s) = at (c ∷ key) s (parse_value (c ∷ key) s) refl

module _ (key value : Bytes) (k : check_key key ≡ true) (p : is_plain value ≡ true) where
  get_value-set_line : (lines : List Bytes) → get_value key (set_line key value lines) ≡ some value
  unfolding get_value set_line
  get_value-set_line [] = rw (parse_line-written key value [] k p refl, eq_bytes_refl key) refl
  get_value-set_line (line ∷ lines) = elim (Bool-cases (has_key key (parse_line line))) [
    | inl e ↦ rw e (
        rw
          (
            parse_line-written key value (comment_of (parse_line line)) k p (comment-tail line),
            eq_bytes_refl key,
          )
          refl)
    | inr e ↦ rw e (rw e (get_value-set_line lines))
  ]

  other_key :
      (other : Bytes) (o : Option ParsedLine)
      → eq_bytes key other ≡ false
      → has_key key o ≡ true
      → has_key other o ≡ false
  other_key other none d h = cc
  other_key other (some l) d h = rw ((eq_bytes_iff l.key key).0 h) d

  get_value-set_line_other :
      (other : Bytes) (lines : List Bytes)
      → eq_bytes key other ≡ false
      → get_value other (set_line key value lines) ≡ get_value other lines
  unfolding get_value set_line
  get_value-set_line_other other [] d = rw (parse_line-written key value [] k p refl, d) refl
  get_value-set_line_other other (line ∷ lines) d =
      elim (Bool-cases (has_key key (parse_line line))) [
        | inl e ↦
            rw (e, other_key other (parse_line line) d e)
              (rw
                (
                  parse_line-written key value (comment_of (parse_line line)) k p
                      (comment-tail line),
                  d,
                )
                refl)
        | inr e ↦ rw e (
            ap (λ r. if has_key other (parse_line line) then value_of (parse_line line) else r)
              (get_value-set_line_other other lines d))
      ]

-- A value without double quotes that is set under a valid key is found again, and the values of all
-- other keys are as they were, whatever the lines of the file are.
pub get-set_value :
    (key value : Bytes) (lines : List Bytes)
    → check_key key ≡ true
    → is_plain value ≡ true
    → (after : List Bytes) × (set_value key value lines ≡ some after)
      × (get_value key after ≡ some value)
      × ((other : Bytes)
          → eq_bytes key other ≡ false
          → get_value other after ≡ get_value other lines)
unfolding set_value
get-set_value key value lines k p = (
  set_line key value lines,
  rw k refl,
  get_value-set_line key value k p lines,
  λ other d. get_value-set_line_other key value k p other lines d,
)
