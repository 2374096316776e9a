-- ===== src/Snapshot.antt =====
-- snapper/Snapshot.h: the data of a snapshot. A `time_t` is an integer, and (time_t)(-1) is
-- `negsuc 0`; a number is an `unsigned int` below 2 ^ 32. A std::map of user data is an association
-- list. The pointer to the owning Snapper is left out, since every operation gets the state.
use snapper.Base.Int.{ℤ, negsuc}
use snapper.Base.{In, ◌≡◌, ℕ, String, Bool, true, false, List, [], ◌==◌}

pub data SnapshotType : Type 0 where
  single pre post : SnapshotType

pub record Snapshot : Type 0 where
  pub type : SnapshotType
  pub num : ℕ
  pub date : ℤ
  pub uid : ℕ
  pub read_only : Bool
  pub pre_num : ℕ
  pub description : String
  pub cleanup : String
  pub userdata : List (String × String)
  pub mount_checked : Bool
  pub mount_user_request : Bool
  pub mount_use_count : ℕ

abbrev pub is_pre : SnapshotType → Bool
is_pre pre = true
is_pre single = false
is_pre post = false

abbrev pub is_post : SnapshotType → Bool
is_post post = true
is_post single = false
is_post pre = false

-- Snapshot::isCurrent
abbrev pub is_current : Snapshot → Bool
is_current s = s.num == 0

-- Snapshot::Snapshot, with the initialisers of the members.
abbrev pub new_snapshot : SnapshotType → ℕ → ℤ → Snapshot
new_snapshot type num date = record {
  type = type;
  num = num;
  date = date;
  uid = 0;
  read_only = true;
  pre_num = 0;
  description = "";
  cleanup = "";
  userdata = [];
  mount_checked = false;
  mount_user_request = false;
  mount_use_count = 0;
}

-- The entry for the live file system, which Snapshots::initialize puts first.
abbrev pub current : Snapshot
current = record (new_snapshot single 0 (negsuc 0)) { read_only = false; description = "current" }

-- At most one post snapshot belongs to a pre snapshot.
abbrev pub HasUniquePosts : List Snapshot → Type 0
HasUniquePosts l =
    (a b : Snapshot)
    → In a l
    → In b l
    → is_post a.type ≡ true
    → is_post b.type ≡ true
    → a.pre_num ≡ b.pre_num
    → a ≡ b
