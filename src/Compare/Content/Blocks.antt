-- ===== src/Compare/Content/Blocks.antt =====
-- What the flags and the loop over blocks of snapper/Compare.cc say.
use snapper.Base.{
  Bytes, eq_bytes, ℕ, zero, suc, ◌+◌, ◌-◌, ◌%◌, ◌≤◌, ◌⊎◌, ◌≡◌, refl, sym, ap, ◌∙◌, Bool, true,
  false, not, ◌&&◌, List, [], ◌∷◌, ◌==◌, ltb, if◌then◌else◌, length, take, drop, arith, Bool-cases,
  inl, inr,
}
use snapper.Files.Status.{type_changed, permissions, owner, group, has}
use snapper.Compare.Content.{
  Kind, regular, symlink, directory, special, eq_kind, Stat, Payload, block_size, min, cmp_blocks,
  cmp_files_content, cmp_files_xattrs, cmp_files,
}

pub eq_kind_lem : (a b : Kind) → eq_kind a b ≡ true → a ≡ b
eq_kind_lem regular regular h = refl
eq_kind_lem regular symlink h = cc
eq_kind_lem regular directory h = cc
eq_kind_lem regular (special n) h = cc
eq_kind_lem symlink regular h = cc
eq_kind_lem symlink symlink h = refl
eq_kind_lem symlink directory h = cc
eq_kind_lem symlink (special n) h = cc
eq_kind_lem directory regular h = cc
eq_kind_lem directory symlink h = cc
eq_kind_lem directory directory h = refl
eq_kind_lem directory (special n) h = cc
eq_kind_lem (special m) regular h = cc
eq_kind_lem (special m) symlink h = cc
eq_kind_lem (special m) directory h = cc
eq_kind_lem (special m) (special n) h = ground arith

pub eq_kind_directory :
    (a b : Kind) → eq_kind a directory ≡ true → eq_kind b directory ≡ true → eq_kind a b ≡ true
eq_kind_directory a b h k = rw (eq_kind_lem a directory h, eq_kind_lem b directory k) refl

-- The attributes give no flag, one or two.
cmp_files_xattrs_values :
    (signatures : List Bytes) (p q : Payload)
    → (cmp_files_xattrs signatures p q % 128 ≡ 0) × (cmp_files_xattrs signatures p q ≤ 384)
unfolding cmp_files_xattrs
cmp_files_xattrs_values signatures p q = ground arith

sum_has_type :
    (t p u g x : ℕ)
    → (t ≡ 0) ⊎ ((t ≡ 4) ⊎ (t ≡ 8))
    → (p ≡ 0) ⊎ (p ≡ 16)
    → (u ≡ 0) ⊎ (u ≡ 32)
    → (g ≡ 0) ⊎ (g ≡ 64)
    → x % 128 ≡ 0
    → has (t + p + u + g + x) type_changed ≡ (t == 4)
sum_has_type t p u g x ht hp hu hg hx = ground arith

flag_cases : (b : Bool) (f : ℕ) → ((if b then 0 else f) ≡ 0) ⊎ ((if b then 0 else f) ≡ f)
flag_cases true f = inl refl
flag_cases false f = inr refl

-- The flag TYPE says that the kinds differ.
pub cmp_files-type :
    (signatures : List Bytes) (stat1 : Stat) (file1 : Payload) (stat2 : Stat) (file2 : Payload)
    → has (cmp_files signatures stat1 file1 stat2 file2) type_changed
      ≡ not (eq_kind stat1.kind stat2.kind)
unfolding cmp_files
cmp_files-type signatures stat1 file1 stat2 file2 =
    let p = flag_cases (stat1.mode == stat2.mode) permissions in
    let u = flag_cases (stat1.uid == stat2.uid) owner in
    let g = flag_cases (stat1.gid == stat2.gid) group in
    let x = (cmp_files_xattrs_values signatures file1 file2).0 in
    elim (Bool-cases (eq_kind stat1.kind stat2.kind)) [
      | inr e ↦ rw (e, cmp_files) (sum_has_type 4 _ _ _ _ (inr (inl refl)) p u g x)
      | inl e ↦ elim (Bool-cases (cmp_files_content stat1 file1 stat2 file2)) [
        | inl c ↦ rw (e, c, cmp_files) (sum_has_type 0 _ _ _ _ (inl refl) p u g x)
        | inr c ↦ rw (e, c, cmp_files) (sum_has_type 8 _ _ _ _ (inr (inr refl)) p u g x)
      ]
    ]

-- The texts agree in their first n bytes, and have as many.
abbrev pub agree : ℕ → Bytes → Bytes → Bool
agree zero a b = true
agree (suc n) [] b = false
agree (suc n) (c ∷ a) [] = false
agree (suc n) (c ∷ a) (d ∷ b) = c == d && agree n a b

agree-drop :
    (m n : ℕ) (a b : Bytes) → agree (m + n) a b ≡ (agree m a b && agree n (drop m a) (drop m b))
agree-drop zero n a b = let z : 0 + n ≡ n = omega arith in rw z refl
agree-drop (suc m) n [] b = let z : suc m + n ≡ suc (m + n) = omega arith in rw z refl
agree-drop (suc m) n (c ∷ a) [] = let z : suc m + n ≡ suc (m + n) = omega arith in rw z refl
agree-drop (suc m) n (c ∷ a) (d ∷ b) =
    let z : suc m + n ≡ suc (m + n) = omega arith in rw z (ground (arith, agree-drop m n a b))

agree-take :
    (m : ℕ) (a b : Bytes)
    → agree m a b ≡ (
        if ltb (length a) m
        then false
        else if ltb (length b) m
        then false
        else eq_bytes (take m a) (take m b))
unfolding eq_bytes
agree-take zero a b = ground arith
agree-take (suc m) [] b = ground arith
agree-take (suc m) (c ∷ a) [] = ground arith
agree-take (suc m) (c ∷ a) (d ∷ b) = ground (arith, agree-take m a b)

-- The loop over blocks of 32 KiB of cmpFilesContentReg compares the two files up to their length: with
-- as many rounds as bytes it ends, and says whether both have that many bytes and these are equal.
pub cmp_blocks_lem :
    (fuel n : ℕ) (data1 data2 : Bytes)
    → n ≤ fuel
    → cmp_blocks fuel n data1 data2 ≡ agree n data1 data2
unfolding cmp_blocks
cmp_blocks_lem zero n data1 data2 h = let z : n ≡ 0 = omega arith in rw z refl
cmp_blocks_lem (suc fuel) n data1 data2 h = elim (Bool-cases (n == 0)) [
  | inl e ↦ let z : n ≡ 0 = ground arith in rw z refl
  | inr e ↦
      let t = min block_size n in
      let split : t + (n - t) ≡ n = ground arith in
      let both : agree n data1 data2
          ≡ (agree t data1 data2 && agree (n - t) (drop t data1) (drop t data2)) =
        ap (λ k. agree k data1 data2) (sym split) ∙ agree-drop t (n - t) data1 data2 in
      ground (
        arith,
        e,
        both,
        agree-take t data1 data2,
        cmp_blocks_lem fuel (n - t) (drop t data1) (drop t data2) (ground arith),
      )
]
