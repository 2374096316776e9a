-- ===== src/Examples/Trees.antt =====
-- The comparison of directories (snapper/Compare.cc) and the transfer of extended attributes
-- (snapper/XAttributes.cc) at concrete inputs.
use snapper.Base.{
  Bytes, lt_bytes, find_key, ℕ, ◌≡◌, refl, true, false, none, some, List, [], ◌∷◌, arith,
  if◌then◌else◌,
}
use snapper.Files.Attributes.{Xamap, is_acl, modify_xattributes}
use snapper.Files.Attributes.Transfer.{modify_xattributes_lem}
use snapper.Compare.Content.{Kind, regular, directory, Stat, Payload}
use snapper.Compare.Dirs.{Node, node, Entries, end, entry, snapshots_name, finished, cmp_dirs}
use snapper.Compare.Dirs.Tree.{Gives}
use snapper.Compare.Dirs.Worker.{Reported, cmp_dirs_lem}

-- "acl" is the name of ACLs here.
abbrev signatures : List Bytes
signatures = (b'a' ∷ b'c' ∷ b'l' ∷ []) ∷ []

abbrev xa_src : Xamap
xa_src = (b'a' ∷ b'c' ∷ b'l' ∷ [], b'1' ∷ []) ∷ (b'u' ∷ [], b'2' ∷ []) ∷ []

abbrev xa_dest : Xamap
xa_dest = (b't' ∷ [], b'3' ∷ []) ∷ (b'u' ∷ [], b'4' ∷ []) ∷ []

modify_xattributes_example :
    ((modify_xattributes (λ k. false) signatures xa_src xa_dest (λ j. find_key j xa_dest)).0 ≡ true)
    × ((j : Bytes)
        → (modify_xattributes (λ k. false) signatures xa_src xa_dest (λ j. find_key j xa_dest)).1 j
          ≡ (if is_acl signatures j then find_key j xa_dest else find_key j xa_src))
unfolding lt_bytes
modify_xattributes_example =
    modify_xattributes_lem signatures xa_src xa_dest (λ j. find_key j xa_dest)
      ((refl, tt), (tt, tt)) ((refl, tt), (tt, tt)) (λ j. refl)

abbrev a_stat : Kind → ℕ → Stat
a_stat kind time = record {
  kind = kind;
  mode = 493;
  uid = 0;
  gid = 0;
  size = 1;
  mtime_sec = time;
  mtime_nsec = 0;
  dev = 7;
  ino = time;
}

abbrev with_data : Bytes → Payload
with_data bytes = record { data_ = some bytes; target = none; attributes = some [] }

abbrev a_file : ℕ → Node
a_file c = node (a_stat regular c) (with_data (c ∷ [])) end

abbrev a_dir : Entries → Node
a_dir entries = node (a_stat directory 0) (with_data []) entries

-- A file "b" that changes, a directory "a" with a file, and "/.snapshots".
abbrev before : Entries
before =
    entry (b'b' ∷ []) (a_file 1) (entry (b'a' ∷ []) (a_dir (entry (b'x' ∷ []) (a_file 5) end)) end)

-- The directory is gone, and there is a new file "c".
abbrev later : Entries
later =
    entry (b'c' ∷ []) (a_file 1)
      (entry snapshots_name (a_file 3) (entry (b'b' ∷ []) (a_file 2) end))

cmp_dirs_example :
    Gives (cmp_dirs [] 3 (a_dir before) (a_dir later)) [] (Reported [] (a_dir before) (a_dir later))
unfolding find_key
cmp_dirs_example =
    cmp_dirs_lem [] 3 (a_stat directory 0) (a_stat directory 0) (with_data []) (with_data []) before
      later refl refl (refl, (refl, tt), (refl, (refl, (refl, (refl, tt), tt)), tt))
      (refl, (refl, tt), (refl, (refl, tt), (refl, (refl, tt), tt))) (omega arith)

-- The run on the two trees: "a" and what is in it are deleted, "b" has another content, "c" is created.
cmp_dirs_run : cmp_dirs [] 3 (a_dir before) (a_dir later) ≡ (
  ((b'a' ∷ []) ∷ [], 2)
      ∷ ((b'x' ∷ []) ∷ (b'a' ∷ []) ∷ [], 2)
      ∷ ((b'b' ∷ []) ∷ [], 8)
      ∷ ((b'c' ∷ []) ∷ [], 1)
      ∷ [],
  finished,
)
unfolding cmp_dirs
cmp_dirs_run = refl
