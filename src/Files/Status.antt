-- ===== src/Files/Status.antt =====
-- The status flags of snapper/File.h and their text form in File.cc. A status is a number; a flag is a
-- power of two, and `status & flag` is the digit of that power. Characters are their codes.
use snapper.Base.{
  Bool-cases, inl, inr, ◌≤◌, ℕ, zero, suc, ◌+◌, ◌-◌, ◌*◌, ◌/◌, ◌%◌, ◌<◌, ◌≡◌, ◌≢◌, refl, Bool, true,
  ◌&&◌, ◌||◌, List, [], ◌∷◌, arith, ◌==◌, if◌then◌else◌, ==_iff,
}

abbrev pub created : ℕ
created = 1

abbrev pub deleted : ℕ
deleted = 2

abbrev pub type_changed : ℕ
type_changed = 4

abbrev pub content : ℕ
content = 8

abbrev pub permissions : ℕ
permissions = 16

abbrev pub owner : ℕ
owner = 32

abbrev pub group : ℕ
group = 64

abbrev pub xattrs : ℕ
xattrs = 128

abbrev pub acl : ℕ
acl = 256

-- status & flag
abbrev pub has : ℕ → ℕ → Bool
has status flag = ((status / flag) % 2) == 1

-- ret |= flag
abbrev pub set_flag : ℕ → ℕ → ℕ
set_flag ret flag = if has ret flag then ret else ret + flag

-- status ^ flag
abbrev flip : ℕ → ℕ → ℕ
flip status flag = if has status flag then status - flag else status + flag

abbrev mark : ℕ → ℕ → ℕ → ℕ
mark status flag c = if has status flag then c else b'.'

-- statusToString
unfoldable pub status_to_string : ℕ → List ℕ
status_to_string status =
    (if has status created
      then b'+'
      else if has status deleted
      then b'-'
      else if has status type_changed
      then b't'
      else if has status content
      then b'c'
      else b'.')
    ∷ mark status permissions b'p'
    ∷ mark status owner b'u'
    ∷ mark status group b'g'
    ∷ mark status xattrs b'x'
    ∷ mark status acl b'a'
    ∷ []

-- The switch on the first character in stringToStatus.
first_flag : ℕ → ℕ → ℕ
first_flag c ret =
    if c == b'+'
    then set_flag ret created
    else if c == b'-'
    then set_flag ret deleted
    else if c == b't'
    then set_flag ret type_changed
    else if c == b'c'
    then set_flag ret content
    else ret

-- The tests of the characters after the first, in order, as long as the text goes on.
later_flags : List (ℕ × ℕ) → List ℕ → ℕ → ℕ
later_flags [] str ret = ret
later_flags ((c, flag) ∷ rest) [] ret = ret
later_flags ((c, flag) ∷ rest) (x ∷ str) ret =
    later_flags rest str (if x == c then set_flag ret flag else ret)

abbrev letters : List (ℕ × ℕ)
letters = (b'p', permissions) ∷ (b'u', owner) ∷ (b'g', group) ∷ (b'x', xattrs) ∷ (b'a', acl) ∷ []

-- stringToStatus
unfoldable pub string_to_status : List ℕ → ℕ
unfolding first_flag later_flags
string_to_status [] = 0
string_to_status (c ∷ str) = later_flags letters str (first_flag c 0)

-- invertStatus
unfoldable pub invert_status : ℕ → ℕ
invert_status status =
    if has status created || has status deleted then flip (flip status created) deleted else status

-- What the text form keeps of a status: the first that is set of created, deleted, type and content, and
-- all flags above these.
abbrev pub canonical : ℕ → ℕ
canonical status =
    (status / 16) * 16
    + (if has status created
        then created
        else if has status deleted
        then deleted
        else if has status type_changed
        then type_changed
        else if has status content
        then content
        else 0)

-- The test holds at `num` numbers from `start` on.
holds_from : ℕ → ℕ → (ℕ → Bool) → Bool
holds_from start zero test = true
holds_from start (suc num) test = test start && holds_from (start + 1) num test

holds_from_lem :
    (start num status : ℕ) (test : ℕ → Bool)
    → start ≤ status
    → status < start + num
    → holds_from start num test ≡ true
    → test status ≡ true
unfolding holds_from
holds_from_lem start zero status test lo hi h = absurd (omega arith)
holds_from_lem start (suc num) status test lo hi h = elim (Bool-cases (start == status)) [
  | inl e ↦ ground arith
  | inr e ↦ holds_from_lem (start + 1) num status test (ground arith) (omega arith) (ground arith)
]

-- The round trip at one status.
abbrev agrees : ℕ → Bool
agrees status = string_to_status (status_to_string status) == canonical status

agrees_table : holds_from 0 512 agrees ≡ true
unfolding holds_from string_to_status status_to_string
agrees_table = refl

-- Reading the text form of a status, which has the nine flags only, back gives its first flag of created, deleted, type and content,
-- and every flag above these.
pub string-status_roundtrip :
    (s : ℕ) → s < 512 → string_to_status (status_to_string s) ≡ canonical s
string-status_roundtrip s h =
    (==_iff _ _).0 (holds_from_lem 0 512 s agrees (omega arith) (omega arith) agrees_table)

-- Where not both of created and deleted are set, inverting a status twice gives it back, the flags above
-- these two stay, the inverse has the other one of the two where one is set, and where neither is set it
-- is the status itself.
pub invert_status_lem :
    (s : ℕ)
    → s % 4 ≢ 3
    → (invert_status (invert_status s) ≡ s)
      × (invert_status s / 4 ≡ s / 4)
      × (s % 4 ≡ 1 → invert_status s % 4 ≡ 2)
      × (s % 4 ≡ 2 → invert_status s % 4 ≡ 1)
      × (s % 4 ≡ 0 → invert_status s ≡ s)
unfolding invert_status
invert_status_lem s h =
    (ground arith, ground arith, λ e. ground arith, λ e. ground arith, λ e. ground arith)
