-- ===== src/Compare/Dirs/Worker.antt =====
-- cmpDirs of snapper/Compare.cc on whole trees.
use snapper.Base.{
  Bytes, eq_bytes, find_key, ℕ, zero, suc, ◌≤◌, ◌<◌, ◌≡◌, refl, sym, ◌∙◌, ◌↔◌, true, false, some,
  List, [], ◌∷◌, arith,
}
use snapper.Compare.Content.{Stat, Payload, is_dir}
use snapper.Compare.Dirs.{
  Node, broken, node, Entries, end, closed, entry, opens, Trail, listing, sort, snapshots_name,
  cmp_dirs_worker, cmp_dirs,
}
use snapper.Compare.Dirs.Tree.{
  find, IsWhole, AreWhole, expected, depth, depth_entries, Gives, Gives-map,
}
use snapper.Compare.Dirs.Merge.{Differs}
use snapper.Compare.Dirs.Sort.{AreDistinct, sort-All, find_key-sort, sort-IsMap}
use snapper.Compare.Dirs.Loop.{Wholes, Recurs, AllRecur, merge-Differs}

whole_opens : (dev : ℕ) (es : Entries) → AreWhole dev es → opens es ≡ true
whole_opens dev end w = refl
whole_opens dev closed w = absurd w
whole_opens dev (entry name n rest) w = refl

whole_distinct : (dev : ℕ) (es : Entries) → AreWhole dev es → AreDistinct (listing es)
whole_distinct dev end w = tt
whole_distinct dev closed w = absurd w
whole_distinct dev (entry name n rest) w = (w.0, whole_distinct dev rest w.2)

whole_listing : (dev : ℕ) (es : Entries) → AreWhole dev es → Wholes dev (listing es)
whole_listing dev end w = tt
whole_listing dev closed w = absurd w
whole_listing dev (entry name n rest) w = (w.1, whole_listing dev rest w.2)

whole_sort : (dev : ℕ) (es : Entries) → AreWhole dev es → Wholes dev (sort (listing es))
whole_sort dev es w = sort-All (λ p. IsWhole dev p.1) (listing es) (whole_listing dev es w)

module _ (signatures : List Bytes) (dev1 dev2 : ℕ) where
  -- Names of one listing find the same in another one.
  Differs-sort :
      (path : Trail) (es1 es2 : Entries)
      → AreWhole dev1 es1
      → AreWhole dev2 es2
      → (t : Trail) (s : ℕ)
      → Differs signatures path (sort (listing es1)) (sort (listing es2)) t s
        ↔ Differs signatures path (listing es1) (listing es2) t s
  Differs-sort path es1 es2 w v [] s = (λ h. h, λ h. h)
  Differs-sort path es1 es2 w v (k ∷ t) s =
      let q : expected signatures (find (find_key k (sort (listing es1))) t)
            (find (find_key k (sort (listing es2))) t)
          ≡ expected signatures (find (find_key k (listing es1)) t)
              (find (find_key k (listing es2)) t) =
        rw
          (
            find_key-sort (listing es1) (whole_distinct dev1 es1 w) k,
            find_key-sort (listing es2) (whole_distinct dev2 es2 v) k,
          )
          refl in
      (λ h. (h.0, sym q ∙ h.1), λ h. (h.0, q ∙ h.1))

  -- The worker is right for all directories of less than this depth.
  abbrev IsRight : ℕ → Type 0
  IsRight fuel =
      (path : Trail) (es1 es2 : Entries)
      → depth_entries es1 < fuel
      → AreWhole dev1 es1
      → AreWhole dev2 es2
      → Gives (cmp_dirs_worker signatures dev1 dev2 fuel path es1 es2) path
          (Differs signatures path (listing es1) (listing es2))

  module _ (fuel : ℕ) (right : IsRight fuel) where
    one-Recurs :
        (path : Trail) (x y : Node)
        → depth x ≤ fuel
        → IsWhole dev1 x
        → IsWhole dev2 y
        → Recurs signatures dev1 dev2 (cmp_dirs_worker signatures dev1 dev2 fuel) path x y
    one-Recurs path broken y h w v = tt
    one-Recurs path (node s1 f1 es1) broken h w v = tt
    one-Recurs path (node s1 f1 es1) (node s2 f2 es2) h w v =
        right path es1 es2 (ground arith) w.1 v.1

    all_recur :
        (path : Trail) (es : Entries)
        → depth_entries es ≤ fuel
        → AreWhole dev1 es
        → AllRecur signatures dev1 dev2
            (cmp_dirs_worker signatures dev1 dev2 fuel)
            path
            (listing es)
    all_recur path end h w = tt
    all_recur path closed h w = absurd w
    all_recur path (entry name n rest) h w = (
      λ y v. one-Recurs (name ∷ path) n y (ground arith) w.1 v,
      all_recur path rest (ground arith) w.2,
    )

  worker-IsRight : (fuel : ℕ) → IsRight fuel
  unfolding cmp_dirs_worker
  worker-IsRight zero path es1 es2 h w v = absurd (ground arith)
  worker-IsRight (suc fuel) path es1 es2 h w v =
      let recur = cmp_dirs_worker signatures dev1 dev2 fuel in
      rw (whole_opens dev1 es1 w, whole_opens dev2 es2 v)
        (Gives-map _ (λ t s. (Differs-sort path es1 es2 w v t s).0)
          (λ t s. (Differs-sort path es1 es2 w v t s).1)
          (merge-Differs signatures dev1 dev2 recur path (sort (listing es1)) (sort (listing es2))
            (sort-IsMap (listing es1) (whole_distinct dev1 es1 w))
            (sort-IsMap (listing es2) (whole_distinct dev2 es2 v)) (whole_sort dev1 es1 w)
            (whole_sort dev2 es2 v)
            (sort-All
              (λ p.
                (y : Node) → IsWhole dev2 y → Recurs signatures dev1 dev2 recur (p.0 ∷ path) p.1 y)
              (listing es1) (all_recur fuel (worker-IsRight fuel) path es1 (ground arith) w))))

-- What is to be reported for two trees: all that differs, but for "/.snapshots".
abbrev pub Reported : List Bytes → Node → Node → Trail → ℕ → Type 0
Reported signatures dir1 dir2 [] s = ⊥
Reported signatures dir1 dir2 (k ∷ t) s =
    (eq_bytes k snapshots_name ≡ false)
    × (expected signatures (find (some dir1) (k ∷ t)) (find (some dir2) (k ∷ t)) ≡ some s)

-- For two directories, each on one device, with distinct names in each directory below, no failure of
-- stat and none to open a directory, and with more fuel than the first is deep, the comparison finishes, and it reports exactly
-- the paths that differ, each with the status that is expected there: created or deleted for what
-- stands in one tree only, and what cmpFiles says of the two files, where that is not 0, otherwise.
-- Only "/.snapshots" and what is below it are left out.
pub cmp_dirs_lem :
    (signatures : List Bytes) (fuel : ℕ) (stat1 stat2 : Stat) (file1 file2 : Payload)
    (es1 es2 : Entries)
    → is_dir stat1 ≡ true
    → is_dir stat2 ≡ true
    → AreWhole stat1.dev es1
    → AreWhole stat2.dev es2
    → depth_entries es1 < fuel
    → Gives
        (cmp_dirs signatures fuel (node stat1 file1 es1) (node stat2 file2 es2))
        []
        (Reported signatures (node stat1 file1 es1) (node stat2 file2 es2))
unfolding cmp_dirs
cmp_dirs_lem signatures fuel stat1 stat2 file1 file2 es1 es2 d1 d2 w v h =
    Gives-map _ back forth (worker-IsRight signatures stat1.dev stat2.dev fuel [] es1 es2 h w v)
  where
    same :
        (k : Bytes) (t : Trail)
        → expected signatures
            (find (find_key k (listing es1)) t)
            (find (find_key k (listing es2)) t)
          ≡ expected signatures
              (find (some (node stat1 file1 es1)) (k ∷ t))
              (find (some (node stat2 file2 es2)) (k ∷ t))
    same k t = rw (d1, d2) refl

    back :
        (t : Trail) (s : ℕ)
        → Differs signatures [] (listing es1) (listing es2) t s
        → Reported signatures (node stat1 file1 es1) (node stat2 file2 es2) t s
    back [] s h = h
    back (k ∷ t) s h = (h.0, sym (same k t) ∙ h.1)

    forth :
        (t : Trail) (s : ℕ)
        → Reported signatures (node stat1 file1 es1) (node stat2 file2 es2) t s
        → Differs signatures [] (listing es1) (listing es2) t s
    forth [] s h = h
    forth (k ∷ t) s h = (h.0, same k t ∙ h.1)
