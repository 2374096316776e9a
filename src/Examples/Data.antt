-- ===== src/Examples/Data.antt =====
-- The data modules (snapper/File.cc, dbus, client/utils) at concrete inputs.
use snapper.Base.{
  ℕ, zero, suc, ◌<◌, ◌≡◌, refl, true, false, Option, none, some, List, [], ◌∷◌, arith, All, inl,
  inr,
}
use snapper.Base.Int.{pos}
use snapper.Snapshot.{Snapshot, new_snapshot, single}
use snapper.Files.Undo.{File, step_of, get_undo_steps}
use snapper.Files.Undo.Order.{Precedes, undo_order}
use snapper.Files.Paths.{FilePaths}
use snapper.Wire.Escape.{escape, pipe_escape, unescape, unescape-escape}
use snapper.Cleanup.Range.{Range, NoDash}
use snapper.Cleanup.Dates.{days_in_year, days_in_year_lem, Tm, equal_hour}
use snapper.Snapshots.Mount.{mount, mount_filesystem_snapshot}

abbrev new_dir : File
new_dir = record { name = "/a"; pre_to_post_status = 1; undo = true }

abbrev new_file : File
new_file = record { name = "/a/b"; pre_to_post_status = 1; undo = true }

abbrev old_file : File
old_file = record { name = "/c"; pre_to_post_status = 2; undo = true }

abbrev some_files : List File
some_files = new_dir ∷ new_file ∷ old_file ∷ []

undo_order_example : Precedes (step_of new_file) (step_of new_dir) (get_undo_steps some_files)
undo_order_example =
    (undo_order new_dir new_file some_files (inl (refl, inl refl)) (inl refl) (inr (inl refl))).0
      (refl, refl) (refl, refl)

abbrev subvolume : FilePaths
subvolume = record {
  system_path = b'/' ∷ b'h' ∷ [];
  pre_path = b'/' ∷ b'1' ∷ [];
  post_path = b'/' ∷ b'2' ∷ [];
}

abbrev text : List ℕ
text = b'a' ∷ b' ' ∷ 92 ∷ 195 ∷ 164 ∷ []

text-Bytes : All (λ c. c < 256) text
text-Bytes = (omega arith, (omega arith, (omega arith, (omega arith, (omega arith, tt)))))

unescape-escape_example :
    (unescape (escape text) ≡ some text) × (unescape (pipe_escape text) ≡ some text)
unescape-escape_example = unescape-escape text text-Bytes

-- Numbers in tally marks after a zero.
abbrev print_tally : ℕ → List ℕ
print_tally zero = b'0' ∷ []
print_tally (suc n) = b'1' ∷ print_tally n

abbrev read_tally : List ℕ → Option ℕ
read_tally [] = none
read_tally (c ∷ []) = some 0
read_tally (c ∷ d ∷ s) = elim (read_tally (d ∷ s)) [ none ↦ none | some n ↦ some (suc n) ]

read-print_tally : (n : ℕ) → read_tally (print_tally n) ≡ some n
read-print_tally zero = refl
read-print_tally (suc zero) = refl
read-print_tally (suc (suc n)) = ground (arith, read-print_tally (suc n))

tally-NoDash : (n : ℕ) → NoDash read_tally (print_tally n)
tally-NoDash zero = (refl, tt)
tally-NoDash (suc n) = (refl, tally-NoDash n)

abbrev two_to_three : Range
two_to_three = record { min = 2; max = 3 }

abbrev noon : Tm
noon = record {
  tm_year = pos 124;
  tm_mon = 1;
  tm_mday = 29;
  tm_hour = 12;
  tm_yday = 59;
  tm_wday = 4;
}

noon_hour : equal_hour noon noon ≡ true
unfolding equal_hour
noon_hour = refl

abbrev plain_snapshot : Snapshot
plain_snapshot = new_snapshot single 5 (pos 1000)

abbrev used_snapshot : Snapshot
used_snapshot = record plain_snapshot { mount_checked = true; mount_use_count = 1 }

used : mount_filesystem_snapshot false false plain_snapshot ≡ some (mount, used_snapshot)
unfolding mount_filesystem_snapshot
used = refl

-- The year 2000.
abbrev millennium : Tm
millennium = record noon { tm_year = pos 100 }

days_in_year_example : days_in_year millennium ≡ pos 365
days_in_year_example = (days_in_year_lem millennium 100 refl).0 refl
