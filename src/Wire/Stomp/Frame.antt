-- ===== src/Wire/Stomp/Frame.antt =====
-- A message of stomp/Stomp.cc that is written is read back.
use mathlib.Core.List.{append_assoc, append-nil}
use snapper.Base.{
  Bytes, lt_bytes, eq_bytes, ℕ, zero, suc, ◌+◌, ◌<◌, ◌≡◌, refl, sym, ap, ◌∙◌, true, false, Option,
  none, some, [], ◌∷◌, ◌++◌, arith, ◌==◌, All, length,
}
use snapper.Wire.Stomp.{
  Headers, Message, new_line, carriage_return, escape_header, strip_cr, getline, split_colon,
  assign, content_length_key, done, add_header, read_body, read_headers, read_message,
  write_headers, write_message, is_command,
}
use snapper.Wire.Stomp.Header.{unescape-escape_header, escape_header-All}

-- No byte of the text is c.
abbrev pub Lacks : ℕ → Bytes → Type 0
Lacks c = All (λ b. (b == c) ≡ false)

getline-append :
    (delim : ℕ) (a b : Bytes) → Lacks delim a → getline delim (a ++ delim ∷ b) ≡ (a, b, false)
unfolding getline
getline-append delim [] b h = ground arith
getline-append delim (c ∷ a) b h = ground (arith, getline-append delim a b h.1)

strip_cr-Lacks : (a : Bytes) → Lacks carriage_return a → strip_cr a ≡ a
unfolding strip_cr
strip_cr-Lacks [] h = refl
strip_cr-Lacks (c ∷ []) h = ground arith
strip_cr-Lacks (c ∷ d ∷ a) h = ground (arith, strip_cr-Lacks (d ∷ a) h.1)

split_colon-append : (a b : Bytes) → Lacks b':' a → split_colon (a ++ b':' ∷ b) ≡ some (a, b)
unfolding split_colon
split_colon-append [] b h = refl
split_colon-append (c ∷ a) b h = ground (arith, split_colon-append a b h.1)

Lacks-append : (c : ℕ) (a b : Bytes) → Lacks c a → Lacks c b → Lacks c (a ++ b)
Lacks-append c [] b h k = k
Lacks-append c (x ∷ a) b h k = (h.0, Lacks-append c a b h.1 k)

-- An escaped text lacks the three bytes.
abbrev Escaped : Bytes → Type 0
Escaped =
    All (λ c. ((c == new_line) ≡ false) × ((c == carriage_return) ≡ false) × ((c == b':') ≡ false))

Escaped-Lacks : (a : Bytes) → Escaped a → Lacks new_line a × Lacks carriage_return a × Lacks b':' a
Escaped-Lacks [] h = (tt, tt, tt)
Escaped-Lacks (c ∷ a) h =
    let (x, y, z) = Escaped-Lacks a h.1 in ((h.0.0, x), (h.0.1, y), (h.0.2, z))

-- The line of a header.
abbrev line_of : Bytes → Bytes → Bytes
line_of k v = escape_header k ++ b':' ∷ escape_header v

line_of-Lacks : (k v : Bytes) → Lacks new_line (line_of k v) × Lacks carriage_return (line_of k v)
line_of-Lacks k v =
    let (a, b, _) = Escaped-Lacks (escape_header k) (escape_header-All k) in
    let (d, e, _) = Escaped-Lacks (escape_header v) (escape_header-All v) in
    (
      Lacks-append new_line (escape_header k) (b':' ∷ escape_header v) a (refl, d),
      Lacks-append carriage_return (escape_header k) (b':' ∷ escape_header v) b (refl, e),
    )

-- A key above all others goes to the end.
assign-above :
    (k v : Bytes) (acc : Headers)
    → All (λ h. lt_bytes h.0 k ≡ true) acc
    → assign k v acc ≡ acc ++ (k, v) ∷ []
unfolding assign
assign-above k v [] h = refl
assign-above k v ((j, w) ∷ acc) h = ground (arith, assign-above k v acc h.1)

add_header-line :
    (msg : Message) (len : Option ℕ) (k v : Bytes)
    → All (λ h. lt_bytes h.0 k ≡ true) msg.headers
    → eq_bytes k content_length_key ≡ false
    → add_header msg len (line_of k v)
      ≡ some (record msg { headers = msg.headers ++ (k, v) ∷ [] }, len)
unfolding add_header
add_header-line msg len k v above other =
    let (_, _, colon) = Escaped-Lacks (escape_header k) (escape_header-All k) in
    rw
      (
        split_colon-append (escape_header k) (escape_header v) colon,
        unescape-escape_header k,
        unescape-escape_header v,
        other,
        assign-above k v msg.headers above,
        add_header,
      )
      refl

-- Every key is above all keys before it and above those of `acc`, and none is content-length.
abbrev pub Follows : Headers → Headers → Type 0
Follows acc [] = Unit {0}
Follows acc ((k, v) ∷ rest) =
    All (λ h. lt_bytes h.0 k ≡ true) acc
    × (eq_bytes k content_length_key ≡ false)
    × Follows (acc ++ (k, v) ∷ []) rest

line_of-cons : (k v : Bytes) → (c : ℕ) × (t : Bytes) × (line_of k v ≡ c ∷ t)
line_of-cons k v = cons (escape_header k)
  where
    cons : (a : Bytes) → (c : ℕ) × (t : Bytes) × (a ++ b':' ∷ escape_header v ≡ c ∷ t)
    cons [] = (b':', escape_header v, refl)
    cons (c ∷ a) = (c, a ++ b':' ∷ escape_header v, refl)

-- One round of the loop.
read_headers_step :
    (fuel : ℕ) (msg msg' : Message) (len len' : Option ℕ) (s line rest t : Bytes) (c : ℕ)
    → getline new_line s ≡ (line, rest, false)
    → strip_cr line ≡ c ∷ t
    → add_header msg len (c ∷ t) ≡ some (msg', len')
    → read_headers (suc fuel) msg len s ≡ read_headers fuel msg' len' rest
unfolding read_headers
read_headers_step fuel msg msg' len len' s line rest t c e f g = ground (arith, e, f, g)

read_headers-line :
    (fuel : ℕ) (msg : Message) (k v s : Bytes)
    → All (λ h. lt_bytes h.0 k ≡ true) msg.headers
    → eq_bytes k content_length_key ≡ false
    → read_headers (suc fuel) msg none (line_of k v ++ new_line ∷ s)
      ≡ read_headers fuel (record msg { headers = msg.headers ++ (k, v) ∷ [] }) none s
read_headers-line fuel msg k v s above other =
    let (no_line, no_return) = line_of-Lacks k v in
    let (c, t, e) = line_of-cons k v in
    let stripped : strip_cr (line_of k v) ≡ c ∷ t = strip_cr-Lacks (line_of k v) no_return ∙ e in
    let added : add_header msg none (c ∷ t)
        ≡ some (record msg { headers = msg.headers ++ (k, v) ∷ [] }, none) =
      ap (add_header msg none) (sym e) ∙ add_header-line msg none k v above other in
    read_headers_step fuel msg _ none none (line_of k v ++ new_line ∷ s) (line_of k v) s t c
      (getline-append new_line (line_of k v) s no_line) stripped added

write_headers-cons :
    (k v : Bytes) (rest : Headers) (s : Bytes)
    → write_headers ((k, v) ∷ rest) ++ s ≡ line_of k v ++ new_line ∷ (write_headers rest ++ s)
unfolding write_headers
write_headers-cons k v rest s = append_assoc (line_of k v) (new_line ∷ write_headers rest) s

read_headers-write :
    (hs acc : Headers) (fuel : ℕ) (command body rest : Bytes)
    → Follows acc hs
    → Lacks 0 body
    → length hs < fuel
    → read_headers fuel
        (record { command = command; headers = acc; body = [] })
        none
        (write_headers hs ++ (new_line ∷ (body ++ 0 ∷ rest)))
      ≡ done (record { command = command; headers = acc ++ hs; body = body }) rest
unfolding read_headers write_headers read_body
read_headers-write hs acc zero command body rest f b h = absurd (omega arith)
read_headers-write [] acc (suc fuel) command body rest f b h =
    rw (getline-append 0 body rest b, append-nil acc) refl
read_headers-write ((k, v) ∷ hs) acc (suc fuel) command body rest f b h =
    let msg : Message = record { command = command; headers = acc; body = [] } in
    rw (write_headers-cons k v hs (new_line ∷ (body ++ 0 ∷ rest))) (
      read_headers-line fuel msg k v (write_headers hs ++ (new_line ∷ (body ++ 0 ∷ rest))) f.0 f.1
      ∙ read_headers-write hs (acc ++ (k, v) ∷ []) fuel command body rest f.2 b (omega arith)
      ∙ ap (λ l. done (record { command = command; headers = l; body = body }) rest)
          (append_assoc acc ((k, v) ∷ []) hs))

is_command-Lacks :
    (c : ℕ) (t : Bytes)
    → is_command (c ∷ t) ≡ true
    → Lacks new_line (c ∷ t) × Lacks carriage_return (c ∷ t)
is_command-Lacks c [] h = ((ground arith, tt), (ground arith, tt))
is_command-Lacks c (d ∷ t) h =
    let (x, y) = is_command-Lacks d t (ground arith) in ((ground arith, x), (ground arith, y))

read_message-start :
    (fuel : ℕ) (c : ℕ) (t s : Bytes)
    → is_command (c ∷ t) ≡ true
    → read_message (suc fuel) ((c ∷ t) ++ (new_line ∷ s))
      ≡ read_headers fuel (record { command = c ∷ t; headers = []; body = [] }) none s
unfolding read_message
read_message-start fuel c t s h =
    let (no_line, no_return) = is_command-Lacks c t h in
    let line : getline new_line ((c ∷ t) ++ (new_line ∷ s)) ≡ (c ∷ t, s, false) =
      getline-append new_line (c ∷ t) s no_line in
    let stripped = strip_cr-Lacks (c ∷ t) no_return in
    started ((c ∷ t) ++ (new_line ∷ s)) line stripped
  where
    started :
        (text : Bytes)
        → getline new_line text ≡ (c ∷ t, s, false)
        → strip_cr (c ∷ t) ≡ c ∷ t
        → read_message (suc fuel) text
          ≡ read_headers fuel (record { command = c ∷ t; headers = []; body = [] }) none s
    started text e f = ground (arith, e, f, h)

write_message-append :
    (msg : Message) (rest : Bytes)
    → write_message msg ++ rest
      ≡ msg.command
        ++ (new_line ∷ (write_headers msg.headers ++ (new_line ∷ (msg.body ++ 0 ∷ rest))))
unfolding write_message
write_message-append msg rest =
    rw
      (
        append_assoc msg.command
            (new_line ∷ (write_headers msg.headers ++ (new_line ∷ (msg.body ++ 0 ∷ [])))) rest,
        append_assoc (write_headers msg.headers) (new_line ∷ (msg.body ++ 0 ∷ [])) rest,
        append_assoc msg.body (0 ∷ []) rest,
      )
      refl

-- A message that is written is read back, and what follows it is left, if its command is of letters,
-- digits and underscores, its headers are in ascending order without content-length, its body has no
-- zero byte, and the fuel is more than the number of lines.
pub read-write_message :
    (msg : Message) (rest : Bytes) (fuel : ℕ)
    → is_command msg.command ≡ true
    → Follows [] msg.headers
    → Lacks 0 msg.body
    → length msg.headers + 1 < fuel
    → read_message fuel (write_message msg ++ rest) ≡ done msg rest
read-write_message msg rest zero w f b h = absurd (omega arith)
read-write_message msg rest (suc fuel) w f b h =
    ap (read_message (suc fuel)) (write_message-append msg rest) ∙ started msg.command w
  where
    started :
        (command : Bytes)
        → is_command command ≡ true
        → read_message (suc fuel) (
            command
            ++ (new_line ∷ (write_headers msg.headers ++ (new_line ∷ (msg.body ++ 0 ∷ rest)))))
          ≡ done (record msg { command = command }) rest
    started [] e = cc
    started (c ∷ t) e =
        read_message-start fuel c t _ e
        ∙ read_headers-write msg.headers [] fuel (c ∷ t) msg.body rest f b (omega arith)
