-- ===== src/Config/Sysconfig/Vectors.antt =====
-- set_value and get_value of SysconfigFile (snapper/AsciiFile.cc) for a list of strings.
use snapper.Base.{
  Bytes, ℕ, ◌≡◌, refl, sym, ap, ◌∙◌, subst, inl, inr, Bool, true, false, not, ◌&&◌, some, List, [],
  ◌∷◌, ◌++◌, ◌==◌, arith, All, Bool-cases,
}
use mathlib.Core.List.{append_assoc, append-nil}
use snapper.Config.Sysconfig.{
  quote, space, backslash, check_key, escape_spaces, join, flush, and_flush, split, set_values,
  get_values,
}
use snapper.Config.Sysconfig.Values.{is_plain, get-set_value}

-- No character is a backslash or a double quote, and there is a character.
abbrev pub is_free : Bytes → Bool
is_free [] = true
is_free (c ∷ s) = not (c == backslash) && (not (c == quote) && is_free s)

abbrev pub IsFree : Bytes → Type 0
IsFree [] = ⊥
IsFree (c ∷ s) = is_free (c ∷ s) ≡ true

-- One character that is not special goes to the buffer.
split-step :
    (c : ℕ) (buffer s : Bytes)
    → (c == space) ≡ false
    → (c == backslash) ≡ false
    → split buffer (c ∷ s) ≡ split (buffer ++ (c ∷ [])) s
unfolding split
split-step c buffer [] h k = rw (h, k) refl
split-step c buffer (d ∷ s) h k = rw (h, k) refl

-- A space ends a string.
split-space : (buffer s : Bytes) → split buffer (space ∷ s) ≡ and_flush buffer (split [] s)
unfolding split
split-space buffer [] = refl
split-space buffer (d ∷ s) = refl

-- Reading an escaped text adds it to the buffer.
split-escape_spaces :
    (s buffer rest : Bytes)
    → is_free s ≡ true
    → split buffer (escape_spaces s ++ rest) ≡ split (buffer ++ s) rest
unfolding escape_spaces split
split-escape_spaces [] buffer rest h = ap (λ b. split b rest) (sym (append-nil buffer))
split-escape_spaces (c ∷ s) buffer rest h = elim (Bool-cases (c == space)) [
  | inl e ↦
      let q : c ≡ space = ground (arith, e) in
      rw e (
        split-escape_spaces s (buffer ++ (space ∷ [])) rest (ground (arith, h))
        ∙ ap (λ b. split b rest)
            (append_assoc buffer (space ∷ []) s ∙ ap (λ d. buffer ++ (d ∷ s)) (sym q)))
  | inr e ↦
      let k : (c == backslash) ≡ false = ground (arith, h) in
      rw e (
        split-step c buffer (escape_spaces s ++ rest) e k
        ∙ (split-escape_spaces s (buffer ++ (c ∷ [])) rest (ground (arith, h))
            ∙ ap (λ b. split b rest) (append_assoc buffer (c ∷ []) s)))
]

IsFree-is_free : (v : Bytes) → IsFree v → is_free v ≡ true
IsFree-is_free [] h = absurd h
IsFree-is_free (c ∷ v) h = h

flush-IsFree : (v : Bytes) (values : List Bytes) → IsFree v → flush v values ≡ v ∷ values
flush-IsFree [] values h = absurd h
flush-IsFree (c ∷ v) values h = refl

-- What is joined is split again.
split-join : (values : List Bytes) → All IsFree values → split [] (join values) ≡ some values
unfolding split join
split-join [] h = refl
split-join (v ∷ []) h =
    ap (split []) (sym (append-nil (escape_spaces v)))
    ∙ (split-escape_spaces v [] [] (IsFree-is_free v h.0) ∙ ap some (flush-IsFree v [] h.0))
split-join (v ∷ w ∷ values) h =
    split-escape_spaces v [] (space ∷ join (w ∷ values)) (IsFree-is_free v h.0)
    ∙ (split-space v (join (w ∷ values))
        ∙ (ap (and_flush v) (split-join (w ∷ values) h.1)
            ∙ ap some (flush-IsFree v (w ∷ values) h.0)))

escape_spaces-plain :
    (s rest : Bytes)
    → is_free s ≡ true
    → is_plain rest ≡ true
    → is_plain (escape_spaces s ++ rest) ≡ true
unfolding escape_spaces
escape_spaces-plain [] rest h k = k
escape_spaces-plain (c ∷ s) rest h k = elim (Bool-cases (c == space)) [
  | inl e ↦ rw e (escape_spaces-plain s rest (ground (arith, h)) k)
  | inr e ↦
      let q : (c == quote) ≡ false = ground (arith, h) in
      let later = escape_spaces-plain s rest (ground (arith, h)) k in rw e (rw q later)
]

join-plain : (values : List Bytes) → All IsFree values → is_plain (join values) ≡ true
unfolding join
join-plain [] h = refl
join-plain (v ∷ []) h =
    subst (λ s. is_plain s ≡ true) (append-nil (escape_spaces v))
      (escape_spaces-plain v [] (IsFree-is_free v h.0) refl)
join-plain (v ∷ w ∷ values) h =
    escape_spaces-plain v (space ∷ join (w ∷ values)) (IsFree-is_free v h.0)
      (join-plain (w ∷ values) h.1)

-- A list of strings that is set under a valid key is read again as it was, if no string is empty or has
-- a backslash or a double quote; spaces are kept.
pub get-set_values :
    (key : Bytes) (values lines : List Bytes)
    → check_key key ≡ true
    → All IsFree values
    → (after : List Bytes) × (set_values key values lines ≡ some after)
      × (get_values key after ≡ some values)
unfolding set_values get_values
get-set_values key values lines k h =
    let (after, e, g, others) = get-set_value key (join values) lines k (join-plain values h) in
    (after, e, rw (g, get_values) (split-join values h))
