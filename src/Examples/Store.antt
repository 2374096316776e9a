-- ===== src/Examples/Store.antt =====
-- Class Snapshots (snapper/Snapshot.cc) on a file system that is the list of its snapshots.
use snapper.Base.{
  ℕ, ◌<◌, ◌≡◌, ◌≢◌, refl, inl, inr, Bool, true, false, ◌||◌, none, some, List, [], ◌∷◌, arith, ◌==◌,
  if◌then◌else◌, In,
}
use snapper.Base.Int.{pos}
use snapper.Snapshot.{Snapshot, current, new_snapshot, single, pre, post, HasUniquePosts}
use snapper.Snapshots.Store.{Filesystem, Os, Store, ok}
use snapper.Proxy.{erase}
use snapper.Snapshots.Number.{max_of, next_number}
use snapper.Snapshots.Create.{Smd, Scd, create}
use snapper.Snapshots.Create.Ordered.{IsValid, Recorded}
use snapper.Snapshots.Create.Keeps.{create-IsValid}
use snapper.Snapshots.Delete.{delete_snapshot}
use snapper.Snapshots.Delete.Keeps.{delete_guarded}
use snapper.Snapshots.History.{number_after_delete}

abbrev holds : ℕ → List ℕ → Bool
holds n [] = false
holds n (m ∷ l) = m == n || holds n l

abbrev without : ℕ → List ℕ → List ℕ
without n [] = []
without n (m ∷ l) = let rest = without n l in if m == n then rest else m ∷ rest

holds-without :
    (n j : ℕ) (l : List ℕ) → holds j (without n l) ≡ (if j == n then false else holds j l)
holds-without n j [] = ground arith
holds-without n j (m ∷ l) = ground (arith, holds-without n j l)

holds-cons : (n j : ℕ) (l : List ℕ) → holds j (n ∷ l) ≡ (if j == n then true else holds j l)
holds-cons n j l = ground arith

pub created :
    (n : ℕ) (s t : List ℕ)
    → some (n ∷ s) ≡ some t
    → (j : ℕ) → holds j t ≡ (if j == n then true else holds j s)
created n s t e j = ground (arith, holds-cons n j s)

pub unmounted : (s t : List ℕ) → some s ≡ some t → (j : ℕ) → holds j t ≡ holds j s
unmounted s t e j = ground arith

pub deleted :
    (n : ℕ) (s t : List ℕ)
    → some (without n s) ≡ some t
    → (j : ℕ) → holds j t ≡ (if j == n then false else holds j s)
deleted n s t e j = ground (arith, holds-without n j s)

-- Snapshot 1 is the default one.
abbrev pub list_fs : Filesystem
list_fs = record {
  State = List ℕ;
  check = holds;
  create = λ n parent read_only quota empty s. some (n ∷ s);
  create_of_default = λ n read_only quota s. some (n ∷ s);
  umount = λ n s. some s;
  delete = λ n s. some (without n s);
  is_default = λ n s. n == 1;
  is_active = λ n s. false;
  occupies = holds;
  opens = λ n s. true;
  unlink_fails = λ n s. false;
  check-create = λ n parent read_only quota empty s t e. created n s t e;
  check-create_of_default = λ n read_only quota s t e. created n s t e;
  check-umount = λ n s t e. unmounted s t e;
  check-delete = deleted;
}

-- Nothing fails.
abbrev pub calm : Os
calm = record { mkdir_fails = λ n. false; write_fails = λ n. false }

abbrev pub one : Snapshot
one = new_snapshot single 1 (pos 100)

abbrev pub three : Snapshot
three = record (new_snapshot pre 3 (pos 200)) { cleanup = "number" }

abbrev pub two_snapshots : Store list_fs
two_snapshots = record {
  entries = current ∷ one ∷ three ∷ [];
  dirs = (1, some one) ∷ (3, some three) ∷ [];
  disk = 1 ∷ 3 ∷ [];
}

two_snapshots-IsValid : IsValid list_fs two_snapshots
two_snapshots-IsValid = record {
  ordered = (refl, (omega arith, (omega arith, tt)));
  recorded = λ s m z. all_recorded s m z;
}
  where
    all_recorded :
        (s : Snapshot)
        → In s (current ∷ one ∷ three ∷ [])
        → Recorded list_fs (1 ∷ 3 ∷ []) two_snapshots.dirs s
    all_recorded s (inl e) z = absurd (ground arith)
    all_recorded s (inr (inl e)) z = rw e (refl, refl)
    all_recorded s (inr (inr (inl e))) z = rw e (refl, refl)
    all_recorded s (inr (inr (inr m))) z = absurd m

abbrev smd : Smd
smd = record { description = "before"; cleanup = "number"; userdata = ("important", "yes") ∷ [] }

abbrev scd : Scd
scd = record { smd = smd; read_only = true; empty = false; uid = 0 }

create-IsValid_example :
    IsValid list_fs (create list_fs calm 5 post 3 (pos 300) scd (some 0) false two_snapshots).1
unfolding max_of
create-IsValid_example =
    create-IsValid list_fs calm 5 post 3 (pos 300) scd (some 0) false two_snapshots (omega arith)
      two_snapshots-IsValid

three_deleted : (delete_snapshot list_fs true (some three) two_snapshots).0 ≡ ok 3
unfolding delete_snapshot
three_deleted = refl

delete_guarded_example : three.num ≢ 0
delete_guarded_example =
    (delete_guarded list_fs true three two_snapshots 3 two_snapshots-IsValid three_deleted).0

number_after_delete_example : 3 < 4
unfolding delete_snapshot next_number erase
number_after_delete_example =
    number_after_delete list_fs calm three two_snapshots 5 4 ((4, none) ∷ (1, some one) ∷ [])
      two_snapshots-IsValid (omega arith) refl

no_posts : HasUniquePosts (current ∷ one ∷ three ∷ [])
no_posts a b (inl e) n p q r = absurd (ground arith)
no_posts a b (inr (inl e)) n p q r = absurd (ground arith)
no_posts a b (inr (inr (inl e))) n p q r = absurd (ground arith)
no_posts a b (inr (inr (inr m))) n p q r = absurd m
