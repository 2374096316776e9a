-- ===== src/Backup/Probe.antt =====
-- TheBigThings::probe_target of client/snbk/TheBigThing.cc. What ls and the btrfs and sha256sum commands give
-- for a name is given; the date and parts that are only shown are left out.
use snapper.Base.{
  Bytes, eq_bytes, ℕ, ◌+◌, ◌*◌, ◌-◌, ◌≡◌, refl, subst, inl, inr, ltb, leb, ◌==◌, Bool, true, false,
  not, ◌&&◌, ◌||◌, Option, none, some, List, [], ◌∷◌, if◌then◌else◌, arith, Bool-cases,
  Option-cases,
}
use snapper.Backup.{
  SourceState, source_missing, read_only, read_write, TargetState, target_missing, valid, invalid,
  legacy, TheBigThing, is_read_only, is_source_missing, is_valid, is_legacy,
}

-- What `btrfs subvolume show` says, and the checksum of info.xml, empty if there is none.
pub record Extra : Type 0 where
  pub is_subvolume_read_only : Bool
  pub uuid : Bytes
  pub received_uuid : Bytes
  pub meta_checksum : Bytes

-- The regular expression [0-9]+, and std::stoi, which throws from 2^31 on.
abbrev pub digits_from : ℕ → Bytes → Option ℕ
digits_from n [] = some n
digits_from n (c ∷ text) =
    if leb b'0' c && leb c b'9' then digits_from (10 * n + (c - b'0')) text else none

abbrev pub number_of : Bytes → Option ℕ
number_of [] = none
number_of (c ∷ text) = elim (digits_from 0 (c ∷ text)) [
  | none ↦ none
  | some n ↦ if ltb n 2147483648 then some n else none
]

abbrev pub is_empty : Bytes → Bool
is_empty [] = true
is_empty (c ∷ text) = false

-- Whether what is on the target was received from the snapshot of the source, or both from the same one.
abbrev pub correct_uuid : TheBigThing → Extra → Bool
correct_uuid x extra =
    not (is_empty extra.received_uuid)
    && (eq_bytes x.source_uuid extra.received_uuid
        || eq_bytes x.source_received_uuid extra.received_uuid)

-- The state of the target before the checksums are compared.
abbrev pub received_state : Bool → Extra → TargetState
received_state correct extra = if correct && extra.is_subvolume_read_only then valid else invalid

-- What is filled in of a thing.
abbrev pub fill : TargetState → Extra → TheBigThing → TheBigThing
fill state extra x =
    let outdated =
      is_read_only x.source_state
      && is_valid state
      && not (eq_bytes x.source_meta_checksum extra.meta_checksum) in
    record x {
      target_state = if outdated then legacy else state;
      target_uuid = extra.uuid;
      target_received_uuid = extra.received_uuid;
      target_meta_checksum = extra.meta_checksum;
    }

-- TheBigThing::TheBigThing
abbrev pub new_thing : ℕ → TheBigThing
new_thing n = record {
  num = n;
  source_state = source_missing;
  target_state = target_missing;
  source_uuid = [];
  source_received_uuid = [];
  source_meta_checksum = [];
  target_uuid = [];
  target_received_uuid = [];
  target_meta_checksum = [];
}

-- The thing with a number is filled in, or a new one at the end.
unfoldable pub probe_one : ℕ → Extra → List TheBigThing → List TheBigThing
probe_one n extra [] = fill (received_state true extra) extra (new_thing n) ∷ []
probe_one n extra (x ∷ things) =
    let others = probe_one n extra things in
    if x.num == n
    then fill (received_state (correct_uuid x extra) extra) extra x ∷ things
    else x ∷ others

-- TheBigThings::probe_target; none if it throws. Where `show` gives none the name is passed over.
unfoldable pub probe_target :
    (Bytes → Option Extra) → List Bytes → List TheBigThing → Option (List TheBigThing)
unfolding probe_one
probe_target show [] things = some things
probe_target show (name ∷ names) things = elim (number_of name) [
  | none ↦ none
  | some n ↦
      probe_target show names
        (elim (show name) [ none ↦ things | some extra ↦ probe_one n extra things ])
]

-- What is on the target was received from the snapshot of the source.
abbrev pub is_received : TheBigThing → Bool
is_received x =
    not (is_empty x.target_received_uuid)
    && (eq_bytes x.source_uuid x.target_received_uuid
        || eq_bytes x.source_received_uuid x.target_received_uuid)

-- A thing that is on both sides: if the target is said to be valid or legacy, it was received from the
-- source, and if it is valid and the source read-only, the checksums are equal.
abbrev pub is_sound : TheBigThing → Bool
is_sound x =
    is_source_missing x.source_state
    || ((not (is_valid x.target_state || is_legacy x.target_state) || is_received x)
        && (not (is_read_only x.source_state && is_valid x.target_state)
            || eq_bytes x.source_meta_checksum x.target_meta_checksum))

abbrev pub all_sound : List TheBigThing → Bool
all_sound [] = true
all_sound (x ∷ l) = is_sound x && all_sound l

-- By the source state, whether the identifiers match, whether the target is read-only, and whether the
-- checksums are equal.
by_cases :
    (s : SourceState) (c r m : Bool)
    → (let state : TargetState = if c && r then valid else invalid in
        let t : TargetState = if is_read_only s && is_valid state && not m then legacy else state in
        is_source_missing s
        || ((not (is_valid t || is_legacy t) || c) && (not (is_read_only s && is_valid t) || m)))
      ≡ true
by_cases source_missing c r m = refl
by_cases read_only false r m = refl
by_cases read_only true false m = refl
by_cases read_only true true false = refl
by_cases read_only true true true = refl
by_cases read_write false r m = refl
by_cases read_write true false m = refl
by_cases read_write true true m = refl

fill_sound :
    (x : TheBigThing) (extra : Extra)
    → is_sound (fill (received_state (correct_uuid x extra) extra) extra x) ≡ true
fill_sound x extra =
    by_cases x.source_state (correct_uuid x extra) extra.is_subvolume_read_only
      (eq_bytes x.source_meta_checksum extra.meta_checksum)

probe_one_sound :
    (n : ℕ) (extra : Extra) (things : List TheBigThing)
    → all_sound things ≡ true
    → all_sound (probe_one n extra things) ≡ true
unfolding probe_one
probe_one_sound n extra [] h = refl
probe_one_sound n extra (x ∷ things) h =
    let head : is_sound x ≡ true = ground (arith, h) in
    let tail : all_sound things ≡ true = ground (arith, h, head) in
    elim (Bool-cases (x.num == n)) [
      | inl e ↦ rw (e, fill_sound x extra) tail
      | inr e ↦ rw (e, head) (probe_one_sound n extra things tail)
    ]

-- What probing one name keeps, probing all does.
probe_target-keeps :
    (P : List TheBigThing → Bool)
    → ((n : ℕ) (extra : Extra) (l : List TheBigThing) → P l ≡ true → P (probe_one n extra l) ≡ true)
    → (show : Bytes → Option Extra) (names : List Bytes) (things r : List TheBigThing)
    → probe_target show names things ≡ some r
    → P things ≡ true
    → P r ≡ true
unfolding probe_target
probe_target-keeps P k show [] things r e h =
    let same : things ≡ r = ground (arith, e) in subst (λ l. P l ≡ true) same h
probe_target-keeps P k show (name ∷ names) things r e h = elim (Option-cases (number_of name)) [
  | inl a ↦ absurd (ground (arith, (rw (a, probe_target) at e)))
  | inr (n, a) ↦ elim (Option-cases (show name)) [
    | inl b ↦ probe_target-keeps P k show names things r (rw (a, b, probe_target) at e) h
    | inr (extra, b) ↦
        probe_target-keeps P k show names (probe_one n extra things) r
          (rw (a, b, probe_target) at e) (k n extra things h)
  ]
]

-- Probing the target says of no snapshot of the source that the target has it but where that one was
-- received from it, and of no read-only one that it is valid but where the checksums are equal, whatever the
-- commands say, if this held before.
pub probe_target_sound :
    (show : Bytes → Option Extra) (names : List Bytes) (things r : List TheBigThing)
    → probe_target show names things ≡ some r
    → all_sound things ≡ true
    → all_sound r ≡ true
probe_target_sound show names things r e h =
    probe_target-keeps (λ l. all_sound l) probe_one_sound show names things r e h

-- The numbers.
abbrev pub has_number : ℕ → List TheBigThing → Bool
has_number n [] = false
has_number n (x ∷ l) = x.num == n || has_number n l

abbrev pub are_distinct : List TheBigThing → Bool
are_distinct [] = true
are_distinct (x ∷ l) = not (has_number x.num l) && are_distinct l

has_number-probe_one :
    (k n : ℕ) (extra : Extra) (things : List TheBigThing)
    → has_number k (probe_one n extra things) ≡ (n == k || has_number k things)
unfolding probe_one
has_number-probe_one k n extra [] = refl
has_number-probe_one k n extra (x ∷ things) = elim (Bool-cases (x.num == n)) [
  | inl e ↦ rw e (ground (arith, e))
  | inr e ↦ rw e (ground (arith, has_number-probe_one k n extra things))
]

probe_one-distinct :
    (n : ℕ) (extra : Extra) (things : List TheBigThing)
    → are_distinct things ≡ true
    → are_distinct (probe_one n extra things) ≡ true
unfolding probe_one
probe_one-distinct n extra [] h = refl
probe_one-distinct n extra (x ∷ things) h = elim (Bool-cases (x.num == n)) [
  | inl e ↦ rw e h
  | inr e ↦
      rw (e, has_number-probe_one x.num n extra things)
        (ground (arith, h, e, probe_one-distinct n extra things))
]

-- No number comes twice in what is probed, whatever names the target has, if none did on the source.
pub probe_target-distinct :
    (show : Bytes → Option Extra) (names : List Bytes) (things r : List TheBigThing)
    → probe_target show names things ≡ some r
    → are_distinct things ≡ true
    → are_distinct r ≡ true
probe_target-distinct show names things r e h =
    probe_target-keeps (λ l. are_distinct l) probe_one-distinct show names things r e h
