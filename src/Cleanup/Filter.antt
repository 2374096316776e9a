-- ===== src/Cleanup/Filter.antt =====
-- client/cleanup.cc: the filters of Cleaner, which take snapshots out of a list of candidates.
pub mod Deletable
pub mod Pairs
use snapper.Base.{
  ℕ, ◌≡◌, Bool, true, false, not, ◌&&◌, ◌||◌, Option, none, some, List, [], ◌∷◌, ◌==◌,
  if◌then◌else◌, filter_by, In,
}
use snapper.Base.Int.{ℤ, ◌-ℤ◌, ltb_ℤ}
use snapper.Snapshot.{Snapshot, is_pre, is_post}
use snapper.Proxy.{find_pre, find_post, erase}

-- Cleaner::filter_undeletables: `undeletables` holds the default and the active snapshot, where
-- there are such, and the first candidate with the number of each is erased.
pub undeletables : Option Snapshot → Option Snapshot → List Snapshot
undeletables none none = []
undeletables none (some a) = a ∷ []
undeletables (some d) none = d ∷ []
undeletables (some d) (some a) = d ∷ a ∷ []

pub erase_all : List Snapshot → List Snapshot → List Snapshot
erase_all [] tmp = tmp
erase_all (u ∷ us) tmp = erase_all us (erase u.num tmp)

pub filter_undeletables : Option Snapshot → Option Snapshot → List Snapshot → List Snapshot
unfolding undeletables erase_all
filter_undeletables default active tmp = erase_all (undeletables default active) tmp

-- younger_than(now - min_age)
abbrev pub younger_than : ℤ → Snapshot → Bool
younger_than t s = ltb_ℤ t s.date

-- Cleaner::filter_min_age
pub filter_min_age : ℤ → ℤ → List Snapshot → List Snapshot
filter_min_age now min_age tmp = filter_by (λ s. not (younger_than (now -ℤ min_age) s)) tmp

-- find(tmp.begin(), tmp.end(), it2) != tmp.end()
abbrev pub has_num : ℕ → List Snapshot → Bool
has_num n [] = false
has_num n (x ∷ xs) = x.num == n || has_num n xs

-- The partner of a snapshot is missing, or is a candidate too.
abbrev pub partner_in : Option Snapshot → List Snapshot → Bool
partner_in none tmp = true
partner_in (some p) tmp = has_num p.num tmp

-- The body of the loop of Cleaner::filter_pre_post: true where it reaches push_back.
pub keeps_pair : List Snapshot → List Snapshot → Snapshot → Bool
keeps_pair snapshots tmp s =
    (if is_pre s.type then partner_in (find_post snapshots s) tmp else true)
    && (if is_post s.type then partner_in (find_pre snapshots s) tmp else true)

-- Cleaner::filter_pre_post
unfoldable pub filter_pre_post : List Snapshot → List Snapshot → List Snapshot
unfolding keeps_pair
filter_pre_post snapshots tmp = filter_by (keeps_pair snapshots tmp) tmp

-- What Cleaner::filter reads: the list, the default and the active snapshot, the time, and the age
-- that the parameters ask for.
pub record View : Type 0 where
  pub snapshots : List Snapshot
  pub default : Option Snapshot
  pub active : Option Snapshot
  pub now : ℤ
  pub min_age : ℤ

-- Cleaner::filter
unfoldable pub filter : View → List Snapshot → List Snapshot
unfolding filter_undeletables filter_min_age filter_pre_post
filter v tmp =
    filter_pre_post v.snapshots
      (filter_min_age v.now v.min_age (filter_undeletables v.default v.active tmp))

-- No two entries of the list have the same number.
abbrev pub Distinct : List Snapshot → Type 0
Distinct [] = Unit {0}
Distinct (x ∷ xs) = (has_num x.num xs ≡ false) × Distinct xs

-- A number names one snapshot of the list.
abbrev pub HasUniqueNums : List Snapshot → Type 0
HasUniqueNums l = (a b : Snapshot) → In a l → In b l → a.num ≡ b.num → a ≡ b
