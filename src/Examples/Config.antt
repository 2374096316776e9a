-- ===== src/Examples/Config.antt =====
-- Configuration files (snapper/AsciiFile.cc) at concrete inputs.
use snapper.Base.{Bytes, eq_bytes, ◌≡◌, refl, none, some, List, [], ◌∷◌}
use snapper.Config.Sysconfig.{set_value, get_value, set_values, get_values, get_all_values}
use snapper.Config.Sysconfig.Vectors.{get-set_values}

-- A='x' # y
abbrev a_line : Bytes
a_line = b'A' ∷ b'=' ∷ 39 ∷ b'x' ∷ 39 ∷ b' ' ∷ b'#' ∷ b'y' ∷ []

get-set_values_example :
    (after : List Bytes) × (set_values
        (b'A' ∷ [])
        ((b'u' ∷ b' ' ∷ b'v' ∷ []) ∷ (b'w' ∷ []) ∷ [])
        (a_line ∷ [])
      ≡ some after)
    × (get_values (b'A' ∷ []) after ≡ some ((b'u' ∷ b' ' ∷ b'v' ∷ []) ∷ (b'w' ∷ []) ∷ []))
get-set_values_example =
    get-set_values (b'A' ∷ []) ((b'u' ∷ b' ' ∷ b'v' ∷ []) ∷ (b'w' ∷ []) ∷ []) (a_line ∷ []) refl
      (refl, (refl, tt))

-- The comment of the line is kept.
set_value_run :
    set_value (b'A' ∷ []) (b'1' ∷ []) (a_line ∷ [])
    ≡ some ((b'A' ∷ b'=' ∷ 34 ∷ b'1' ∷ 34 ∷ b' ' ∷ b'#' ∷ b'y' ∷ []) ∷ [])
unfolding set_value eq_bytes
set_value_run = refl

-- The value a\b in a list is written, and then reading the list fails.
backslash_written :
    set_values (b'A' ∷ []) ((b'a' ∷ 92 ∷ b'b' ∷ []) ∷ []) []
    ≡ some ((b'A' ∷ b'=' ∷ 34 ∷ b'a' ∷ 92 ∷ b'b' ∷ 34 ∷ []) ∷ [])
unfolding set_values
backslash_written = refl

backslash_lost :
    get_values (b'A' ∷ []) ((b'A' ∷ b'=' ∷ 34 ∷ b'a' ∷ 92 ∷ b'b' ∷ 34 ∷ []) ∷ []) ≡ none
unfolding get_values eq_bytes
backslash_lost = refl

-- A=1 and A=2: get_value finds the first line, get_all_values the last.
abbrev two_lines : List Bytes
two_lines = (b'A' ∷ b'=' ∷ b'1' ∷ []) ∷ (b'A' ∷ b'=' ∷ b'2' ∷ []) ∷ []

first_found : get_value (b'A' ∷ []) two_lines ≡ some (b'1' ∷ [])
unfolding get_value eq_bytes
first_found = refl

last_listed : get_all_values two_lines ≡ (b'A' ∷ [], b'2' ∷ []) ∷ []
unfolding get_all_values eq_bytes
last_listed = refl
