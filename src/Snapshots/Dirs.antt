-- ===== src/Snapshots/Dirs.antt =====
-- Laws of the infos directory (SDir::mkdir, rmdir and info.xml, as snapper/Snapshot.cc uses them).
use snapper.Base.{ℕ, ◌≡◌, ◌≢◌, refl, false, ◌&&◌, ◌||◌, Option, none, some, [], ◌∷◌, arith, ◌==◌}
use snapper.Snapshot.{Snapshot}
use snapper.Snapshots.Store.{Filesystem, Dirs, has_dir, has_info, set_info, remove_dir, rmdir}

pub has_info-set :
    (n j : ℕ) (s : Snapshot) (dirs : Dirs)
    → has_info j (set_info n (some s) dirs) ≡ has_info j dirs || (has_dir n dirs && (j == n))
unfolding set_info
has_info-set n j s [] = refl
has_info-set n j s ((m, none) ∷ dirs) = ground (arith, has_info-set n j s dirs)
has_info-set n j s ((m, some i) ∷ dirs) = ground (arith, has_info-set n j s dirs)

pub has_info-unset :
    (n j : ℕ) (dirs : Dirs) → j ≢ n → has_info j (set_info n none dirs) ≡ has_info j dirs
unfolding set_info
has_info-unset n j [] h = refl
has_info-unset n j ((m, none) ∷ dirs) h = ground (arith, has_info-unset n j dirs)
has_info-unset n j ((m, some i) ∷ dirs) h = ground (arith, has_info-unset n j dirs)

pub has_dir-set :
    (n j : ℕ) (i : Option Snapshot) (dirs : Dirs) → has_dir j (set_info n i dirs) ≡ has_dir j dirs
unfolding set_info
has_dir-set n j i [] = refl
has_dir-set n j i ((m, k) ∷ dirs) = ground (arith, has_dir-set n j i dirs)

has_info-remove : (n j : ℕ) (dirs : Dirs) → j ≢ n → has_info j (remove_dir n dirs) ≡ has_info j dirs
unfolding remove_dir
has_info-remove n j [] h = refl
has_info-remove n j ((m, none) ∷ dirs) h = ground (arith, has_info-remove n j dirs)
has_info-remove n j ((m, some i) ∷ dirs) h = ground (arith, has_info-remove n j dirs)

has_info-remove_self : (n : ℕ) (dirs : Dirs) → has_info n (remove_dir n dirs) ≡ false
unfolding remove_dir
has_info-remove_self n [] = refl
has_info-remove_self n ((m, none) ∷ dirs) = ground (arith, has_info-remove_self n dirs)
has_info-remove_self n ((m, some i) ∷ dirs) = ground (arith, has_info-remove_self n dirs)

has_dir-remove : (n j : ℕ) (dirs : Dirs) → j ≢ n → has_dir j (remove_dir n dirs) ≡ has_dir j dirs
unfolding remove_dir
has_dir-remove n j [] h = refl
has_dir-remove n j ((m, i) ∷ dirs) h = ground (arith, has_dir-remove n j dirs)

module _ (fs : Filesystem) (n j : ℕ) (disk : fs.State) (dirs : Dirs) where
  -- rmdir never takes an info.xml away.
  pub has_info-rmdir : has_info j (rmdir fs n disk dirs) ≡ has_info j dirs
  unfolding rmdir
  has_info-rmdir = ground (arith, has_info-remove n j dirs, has_info-remove_self n dirs)

  -- It takes no other directory away.
  pub has_dir-rmdir : j ≢ n → has_dir j (rmdir fs n disk dirs) ≡ has_dir j dirs
  unfolding rmdir
  has_dir-rmdir h = ground (arith, has_dir-remove n j dirs)
