-- ===== src/Compare/Dirs/Tree.antt =====
-- The trees that snapper/Compare.cc walks: what stands at a path, and which events a walk should give.
use snapper.Base.{
  Bytes, find_key, ℕ, suc, ◌≡◌, refl, sym, subst, ◌⊎◌, inl, inr, Option, none, some, List, [], ◌∷◌,
  ◌++◌, ◌==◌, if◌then◌else◌, max, In, In-append, append_left-In, append_right-In,
}
use snapper.Files.Status.{created, deleted}
use snapper.Compare.Content.{is_dir, cmp_files}
use snapper.Compare.Dirs.{
  Node, broken, node, Entries, end, closed, entry, Trail, listing, finished, Run, and_then,
}

-- What stands at a path below something.
abbrev pub find : Option Node → Trail → Option Node
find none t = none
find (some x) [] = some x
find (some broken) (k ∷ t) = none
find (some (node stat file entries)) (k ∷ t) =
    let below = find (find_key k (listing entries)) t in if is_dir stat then below else none

-- There is something.
abbrev pub IsFound : Option Node → Type 0
IsFound none = ⊥
IsFound (some x) = Unit {0}

-- stat fails for nothing, every directory can be opened, all is on one device, and names differ within a directory.
abbrev mutual
  pub IsWhole : ℕ → Node → Type 0
  IsWhole dev broken = ⊥
  IsWhole dev (node stat file entries) = (stat.dev ≡ dev) × AreWhole dev entries

  pub AreWhole : ℕ → Entries → Type 0
  AreWhole dev end = Unit {0}
  AreWhole dev closed = ⊥
  AreWhole dev (entry name n rest) =
      (find_key name (listing rest) ≡ none) × IsWhole dev n × AreWhole dev rest

abbrev mutual
  pub depth : Node → ℕ
  depth broken = 0
  depth (node stat file entries) = suc (depth_entries entries)

  pub depth_entries : Entries → ℕ
  depth_entries end = 0
  depth_entries closed = 0
  depth_entries (entry name n rest) = max (depth n) (depth_entries rest)

-- The status to report for what stands at a path in the two trees.
abbrev pub changed : List Bytes → Node → Node → Option ℕ
changed signatures broken y = none
changed signatures (node stat1 file1 entries1) broken = none
changed signatures (node stat1 file1 entries1) (node stat2 file2 entries2) =
    let status = cmp_files signatures stat1 file1 stat2 file2 in
    if status == 0 then none else some status

abbrev pub expected : List Bytes → Option Node → Option Node → Option ℕ
expected signatures none none = none
expected signatures none (some y) = some created
expected signatures (some x) none = some deleted
expected signatures (some x) (some y) = changed signatures x y

abbrev pub under : Trail → Trail → Trail
under path [] = path
under path (k ∷ t) = under (k ∷ path) t

-- The run finishes, and its events are those that S holds of, with paths continued from `path`.
pub record Gives (r : Run) (path : Trail) (S : Trail → ℕ → Type 0) : Type 0 where
  pub finishes : r.1 ≡ finished
  pub only : (e : Trail × ℕ) → In e r.0 → (t : Trail) × (s : ℕ) × (e ≡ (under path t, s)) × S t s
  pub each : (t : Trail) (s : ℕ) → S t s → In (under path t, s) r.0

and_then-finished : (a b : Run) → a.1 ≡ finished → and_then a b ≡ (a.0 ++ b.0, b.1)
and_then-finished (events, ending) b e = rw e refl

module _ {path : Trail} where
  pub Gives-map :
      {S T : Trail → ℕ → Type 0}
      → (r : Run) → ((t : Trail) (s : ℕ) → S t s → T t s)
      → ((t : Trail) (s : ℕ) → T t s → S t s)
      → Gives r path S
      → Gives r path T
  Gives-map r f g h = record {
    finishes = h.finishes;
    only = λ e m. let (t, s, q, k) = h.only e m in (t, s, q, f t s k);
    each = λ t s k. h.each t s (g t s k);
  }

  pub Gives-under :
      {S : Trail → ℕ → Type 0}
      → (r : Run) (name : Bytes) → Gives r (name ∷ path) S
      → Gives r path (λ t s. (t' : Trail) × (t ≡ name ∷ t') × S t' s)
  Gives-under {S} r name h = record {
    finishes = h.finishes;
    only = λ e m. let (t, s, q, k) = h.only e m in (name ∷ t, s, q, (t, refl, k));
    each = λ t s (t', q, k). subst (λ u. In (under path u, s) r.0) (sym q) (h.each t' s k);
  }

  pub Gives-and_then :
      {S T : Trail → ℕ → Type 0}
      → (a b : Run) → Gives a path S
      → Gives b path T
      → Gives (and_then a b) path (λ t s. S t s ⊎ T t s)
  Gives-and_then a b h k = rw (and_then-finished a b h.finishes) (record {
    finishes = k.finishes;
    only = λ e m. elim (In-append e a.0 b.0 m) [
      | inl n ↦ let (t, s, q, x) = h.only e n in (t, s, q, inl x)
      | inr n ↦ let (t, s, q, x) = k.only e n in (t, s, q, inr x)
    ];
    each = λ t s x. elim x [
      | inl y ↦ append_left-In _ a.0 b.0 (h.each t s y)
      | inr y ↦ append_right-In _ a.0 b.0 (k.each t s y)
    ];
  })

  pub Gives-nothing :
      {S : Trail → ℕ → Type 0} → ((t : Trail) (s : ℕ) → ¬ S t s) → Gives ([], finished) path S
  Gives-nothing h = record {
    finishes = refl;
    only = λ e m. absurd m;
    each = λ t s k. absurd (h t s k);
  }

  pub Gives-report :
      (status : ℕ) → Gives ((path, status) ∷ [], finished) path (λ t s. (t ≡ []) × (s ≡ status))
  Gives-report status = record {
    finishes = refl;
    only = λ e m. elim m [ inl q ↦ ([], status, q, (refl, refl)) | inr n ↦ absurd n ];
    each = λ t s (q, p). inl (rw (q, p) refl);
  }
