-- ===== src/Wire/Stomp/Ends.antt =====
-- read_message of stomp/Stomp.cc ends on every input.
use snapper.Base.{
  Bytes, ℕ, zero, suc, ◌<◌, ◌≡◌, ◌≢◌, refl, Bool, true, false, Option, none, some, [], ◌∷◌, arith,
  length,
}
use snapper.Wire.Stomp.{
  Message, new_line, strip_cr, getline, done, threw, exhausted, add_header, read_body, read_headers,
  read_message, is_command,
}

-- A line that ends before eof takes a byte at least.
length-getline :
    (delim : ℕ) (s : Bytes) → (getline delim s).2 ≡ false → length (getline delim s).1 < length s
unfolding getline
length-getline delim [] h = cc
length-getline delim (c ∷ s) h = ground (arith, length-getline delim s)

read_body_ends : (msg : Message) (len : Option ℕ) (s : Bytes) → read_body msg len s ≢ exhausted
unfolding read_body
read_body_ends msg none s h = ground arith
read_body_ends msg (some n) s h = ground arith

read_headers_ends :
    (fuel : ℕ) (msg : Message) (len : Option ℕ) (s : Bytes)
    → length s < fuel
    → read_headers fuel msg len s ≢ exhausted
unfolding read_headers
read_headers_ends zero msg len s h = absurd (omega arith)
read_headers_ends (suc fuel) msg len s h =
    by_line (λ m l t k. read_headers_ends fuel m l t k) (strip_cr (getline new_line s).0)
      (getline new_line s).1 (getline new_line s).2
      (λ e. omega (arith, length-getline new_line s e))
  where
    by_header :
        ((m : Message) (l : Option ℕ) (t : Bytes)
          → length t < fuel
          → read_headers fuel m l t ≢ exhausted)
        → (o : Option (Message × Option ℕ)) (rest : Bytes) (eof : Bool)
        → (eof ≡ false → length rest < fuel)
        → elim o [
          | none ↦ threw
          | some (msg', len') ↦ elim eof [ true ↦ threw | false ↦ read_headers fuel msg' len' rest ]
        ]
          ≢ exhausted
    by_header ih none rest eof k e = cc
    by_header ih (some (m, l)) rest true k e = cc
    by_header ih (some (m, l)) rest false k e = ih m l rest (k refl) e

    by_line :
        ((m : Message) (l : Option ℕ) (t : Bytes)
          → length t < fuel
          → read_headers fuel m l t ≢ exhausted)
        → (line rest : Bytes) (eof : Bool) → (eof ≡ false → length rest < fuel)
        → elim line [
          | [] ↦ read_body msg len rest
          | c ∷ t ↦ elim (add_header msg len (c ∷ t)) [
            | none ↦ threw
            | some (msg', len') ↦ elim eof [
              | true ↦ threw
              | false ↦ read_headers fuel msg' len' rest
            ]
          ]
        ]
          ≢ exhausted
    by_line ih [] rest eof k = read_body_ends msg len rest
    by_line ih (c ∷ t) rest eof k = by_header ih (add_header msg len (c ∷ t)) rest eof k

-- On any input, with more fuel than there are bytes, read_message returns a message or throws.
pub read_message_ends : (fuel : ℕ) (s : Bytes) → length s < fuel → read_message fuel s ≢ exhausted
unfolding read_message
read_message_ends zero s h = absurd (omega arith)
read_message_ends (suc fuel) s h =
    by_start (λ t k. read_message_ends fuel t k) (getline new_line s).0 (getline new_line s).1
      (getline new_line s).2 (λ e. omega (arith, length-getline new_line s e))
  where
    by_line :
        ((t : Bytes) → length t < fuel → read_message fuel t ≢ exhausted)
        → (line rest : Bytes) → length rest < fuel
        → elim line [
          | [] ↦ read_message fuel rest
          | c ∷ t ↦ elim (is_command (c ∷ t)) [
            | true ↦
                read_headers fuel (record { command = c ∷ t; headers = []; body = [] }) none rest
            | false ↦ threw
          ]
        ]
          ≢ exhausted
    by_line ih [] rest k e = ih rest k e
    by_line ih (c ∷ t) rest k e = ground (
      arith,
      read_headers_ends fuel (record { command = c ∷ t; headers = []; body = [] }) none rest k,
    )

    by_start :
        ((t : Bytes) → length t < fuel → read_message fuel t ≢ exhausted)
        → (line rest : Bytes) (eof : Bool) → (eof ≡ false → length rest < fuel)
        → elim eof [
          | true ↦ done (record { command = []; headers = []; body = [] }) rest
          | false ↦ elim (strip_cr line) [
            | [] ↦ read_message fuel rest
            | c ∷ t ↦ elim (is_command (c ∷ t)) [
              | true ↦
                  read_headers fuel (record { command = c ∷ t; headers = []; body = [] }) none rest
              | false ↦ threw
            ]
          ]
        ]
          ≢ exhausted
    by_start ih line rest true k e = cc
    by_start ih line rest false k e = by_line ih (strip_cr line) rest (k refl) e
