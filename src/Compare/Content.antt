-- ===== src/Compare/Content.antt =====
-- cmpFiles of snapper/Compare.cc for two files. What stat, open, read, readlink and the reading of the
-- extended attributes give is the data of a file; `none` is a failure of the call.
pub mod Blocks
use snapper.Base.{
  Bytes, eq_bytes, ℕ, zero, suc, ◌+◌, ◌-◌, ◌*◌, ◌<◌, ◌≡◌, Bool, true, false, not, ◌&&◌, ◌||◌,
  Option, none, some, List, [], ◌∷◌, ◌==◌, leb, ltb, if◌then◌else◌, length, take, drop, filter_by,
}
use snapper.Files.Status.{
  created, deleted, type_changed, content, permissions, owner, group, xattrs, acl,
}
use snapper.Files.Attributes.{Xamap, is_acl}

-- st_mode & S_IFMT
pub data Kind : Type 0 where
  regular symlink directory : Kind
  special : ℕ → Kind

abbrev pub eq_kind : Kind → Kind → Bool
eq_kind regular regular = true
eq_kind symlink symlink = true
eq_kind directory directory = true
eq_kind (special a) (special b) = a == b
eq_kind _ _ = false

-- struct stat; `mode` has the twelve bits of permissions.
pub record Stat : Type 0 where
  pub kind : Kind
  pub mode : ℕ
  pub uid : ℕ
  pub gid : ℕ
  pub size : ℕ
  pub mtime_sec : ℕ
  pub mtime_nsec : ℕ
  pub dev : ℕ
  pub ino : ℕ

abbrev pub is_dir : Stat → Bool
is_dir s = eq_kind s.kind directory

-- What the other calls give: the bytes of a regular file, the target of a link, the attributes.
pub record Payload : Type 0 where
  pub data_ : Option Bytes
  pub target : Option Bytes
  pub attributes : Option Xamap

abbrev pub block_size : ℕ
block_size = 32 * 1024

abbrev pub min : ℕ → ℕ → ℕ
min a b = if ltb b a then b else a

-- The loop over blocks; `length_` is what is left, and the fuel counts the rounds.
unfoldable pub cmp_blocks : ℕ → ℕ → Bytes → Bytes → Bool
unfolding eq_bytes
cmp_blocks zero length_ data1 data2 = length_ == 0
cmp_blocks (suc fuel) length_ data1 data2 =
    let t = min block_size length_ in
    let rest = cmp_blocks fuel (length_ - t) (drop t data1) (drop t data2) in
    if length_ == 0
    then true
    else if ltb (length data1) t
    then false
    else if ltb (length data2) t
    then false
    else if eq_bytes (take t data1) (take t data2)
    then rest
    else false

-- The modification times are equal.
abbrev pub same_mtime : Stat → Stat → Bool
same_mtime a b = (a.mtime_sec == b.mtime_sec) && (a.mtime_nsec == b.mtime_nsec)

-- cmpFilesContentReg
unfoldable pub cmp_files_content_reg : Stat → Payload → Stat → Payload → Bool
unfolding cmp_blocks
cmp_files_content_reg stat1 file1 stat2 file2 =
    if same_mtime stat1 stat2
    then true
    else if not (stat1.size == stat2.size)
    then false
    else if (stat1.size == 0) && (stat2.size == 0)
    then true
    else if (stat1.dev == stat2.dev) && (stat1.ino == stat2.ino)
    then true
    else elim file1.data_ [
      | none ↦ false
      | some data1 ↦ elim file2.data_ [
        | none ↦ false
        | some data2 ↦ cmp_blocks stat1.size stat1.size data1 data2
      ]
    ]

-- cmpFilesContentLnk
unfoldable pub cmp_files_content_lnk : Stat → Payload → Stat → Payload → Bool
unfolding eq_bytes
cmp_files_content_lnk stat1 file1 stat2 file2 =
    if same_mtime stat1 stat2 then true else elim file1.target [
      | none ↦ false
      | some tmp1 ↦ elim file2.target [ none ↦ false | some tmp2 ↦ eq_bytes tmp1 tmp2 ]
    ]

-- cmpFilesContent; its caller has compared the kinds.
unfoldable pub cmp_files_content : Stat → Payload → Stat → Payload → Bool
unfolding cmp_files_content_reg cmp_files_content_lnk
cmp_files_content stat1 file1 stat2 file2 = elim stat1.kind [
  | regular ↦ cmp_files_content_reg stat1 file1 stat2 file2
  | symlink ↦ cmp_files_content_lnk stat1 file1 stat2 file2
  | directory ↦ true
  | special n ↦ true
]

-- operator== of two maps
unfoldable pub eq_xamap : Xamap → Xamap → Bool
unfolding eq_bytes
eq_xamap [] [] = true
eq_xamap [] (p ∷ m) = false
eq_xamap (p ∷ l) [] = false
eq_xamap ((k, v) ∷ l) ((j, w) ∷ m) = eq_bytes k j && (eq_bytes v w && eq_xamap l m)

module _ (signatures : List Bytes) where
  -- CompareAcls::CompareAcls
  abbrev pub acls_of : Xamap → Xamap
  acls_of m = filter_by (λ p. is_acl signatures p.0) m

  -- cmpFilesXattrs
  unfoldable pub cmp_files_xattrs : Payload → Payload → ℕ
  unfolding eq_xamap
  cmp_files_xattrs file1 file2 = elim file1.attributes [
    | none ↦ xattrs + acl
    | some xa ↦ elim file2.attributes [
      | none ↦ xattrs + acl
      | some xb ↦
          if eq_xamap xa xb
          then 0
          else (xattrs + (if eq_xamap (acls_of xa) (acls_of xb) then 0 else acl))
    ]
  ]

  -- cmpFiles, where both files have extended attributes. Each flag is set at most once, so that |= is +.
  unfoldable pub cmp_files : Stat → Payload → Stat → Payload → ℕ
  unfolding cmp_files_content cmp_files_xattrs
  cmp_files stat1 file1 stat2 file2 =
      (if not (eq_kind stat1.kind stat2.kind)
        then type_changed
        else if cmp_files_content stat1 file1 stat2 file2
        then 0
        else content)
      + (if stat1.mode == stat2.mode then 0 else permissions)
      + (if stat1.uid == stat2.uid then 0 else owner)
      + (if stat1.gid == stat2.gid then 0 else group)
      + cmp_files_xattrs file1 file2
