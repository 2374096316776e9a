-- ===== src/Files/Paths.antt =====
-- File::getAbsolutePath and Files::findAbsolutePath of snapper/File.cc, without the search for the
-- name. A path is the list of its bytes.
use snapper.Base.{
  ℕ, ◌≡◌, refl, Bool, true, false, ◌&&◌, Option, none, some, List, [], ◌∷◌, ◌++◌, arith, ◌==◌,
  if◌then◌else◌, drop, length,
}

pub record FilePaths : Type 0 where
  pub system_path : List ℕ
  pub pre_path : List ℕ
  pub post_path : List ℕ

pub data Location : Type 0 where
  pre post system : Location

abbrev pub slash : ℕ
slash = b'/'

-- path == "/"
abbrev pub is_root : List ℕ → Bool
is_root [] = false
is_root (c ∷ []) = c == slash
is_root (c ∷ d ∷ s) = false

-- The switch of getAbsolutePath.
abbrev pub prefix_of : FilePaths → Location → List ℕ
prefix_of p pre = p.pre_path
prefix_of p post = p.post_path
prefix_of p system = p.system_path

-- File::getAbsolutePath
unfoldable pub get_absolute_path : FilePaths → Location → List ℕ → List ℕ
get_absolute_path paths loc name =
    let prefix = prefix_of paths loc in if is_root prefix then name else prefix ++ name

-- boost::starts_with(s, prefix)
unfoldable pub starts_with : List ℕ → List ℕ → Bool
starts_with s [] = true
starts_with [] (p ∷ ps) = false
starts_with (c ∷ s) (p ∷ ps) = c == p && starts_with s ps

-- Files::findAbsolutePath: the name that it looks for; `none` is the early return of end().
unfoldable pub name_of : FilePaths → List ℕ → Option (List ℕ)
unfolding starts_with
name_of paths filename =
    let subvolume = paths.system_path in
    if starts_with filename subvolume
    then some (if is_root subvolume then filename else drop (length subvolume) filename)
    else none

starts_with-append : (a b : List ℕ) → starts_with (a ++ b) a ≡ true
unfolding starts_with
starts_with-append [] b = refl
starts_with-append (c ∷ a) b = ground (arith, starts_with-append a b)

drop-append : (a b : List ℕ) → drop (length a) (a ++ b) ≡ b
drop-append [] b = refl
drop-append (c ∷ a) b = drop-append a b

starts_with-slash : (root s : List ℕ) → is_root root ≡ true → starts_with (slash ∷ s) root ≡ true
unfolding starts_with
starts_with-slash [] s h = refl
starts_with-slash (c ∷ []) s h = ground arith
starts_with-slash (c ∷ d ∷ r) s h = cc

-- The absolute path of a file of the system, whose name begins with a slash, is found under that name.
pub name-absolute :
    (paths : FilePaths) (s : List ℕ)
    → name_of paths (get_absolute_path paths system (slash ∷ s)) ≡ some (slash ∷ s)
unfolding name_of get_absolute_path
name-absolute paths s = ground (
  arith,
  starts_with-slash paths.system_path s,
  starts_with-append paths.system_path (slash ∷ s),
  drop-append paths.system_path (slash ∷ s),
)
