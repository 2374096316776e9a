-- ===== src/Compare/Dirs/Names.antt =====
-- lonesome and twosome of snapper/Compare.cc report what they should for one name.
use snapper.Base.{
  Bytes, ℕ, ◌≡◌, refl, sym, subst, ◌↔◌, ◌⊎◌, inl, inr, true, Option, none, some, List, [], ◌∷◌,
  ◌==◌, if◌then◌else◌, arith, Bool-cases,
}
use snapper.Files.Status.{created, deleted}
use snapper.Compare.Content.{Stat, Payload, is_dir}
use snapper.Compare.Dirs.{Node, broken, node, Entries, Trail, nothing, lonesome, list_subdirs}
use snapper.Compare.Dirs.Tree.{
  find, IsFound, IsWhole, AreWhole, expected, Gives, Gives-map, Gives-and_then, Gives-nothing,
  Gives-report,
}
use snapper.Compare.Dirs.Subdirs.{Listed, below, below-dir, nothing_below, list_subdirs-Listed}

pub created_iff :
    (signatures : List Bytes) (o : Option Node) (s : ℕ)
    → (expected signatures none o ≡ some s) ↔ ((s ≡ created) × IsFound o)
created_iff signatures none s = (λ h. cc, λ h. absurd h.1)
created_iff signatures (some y) s = (λ h. (ground arith, tt), λ h. rw h.0 refl)

pub deleted_iff :
    (signatures : List Bytes) (o : Option Node) (s : ℕ)
    → (expected signatures o none ≡ some s) ↔ ((s ≡ deleted) × IsFound o)
deleted_iff signatures none s = (λ h. cc, λ h. absurd h.1)
deleted_iff signatures (some x) s = (λ h. (ground arith, tt), λ h. rw h.0 refl)

-- Everything below a node, if it is a directory.
pub subdirs-Listed :
    (dev : ℕ) (stat : Stat) (file : Payload) (es : Entries) (path : Trail) (status : ℕ)
    → AreWhole dev es
    → Gives
        (if is_dir stat then list_subdirs es path status else nothing)
        path
        (Listed status (below (node stat file es)))
subdirs-Listed dev stat file es path status w = elim (Bool-cases (is_dir stat)) [
  | inl e ↦ rw e (
      Gives-map _ (λ t s h. (h.0, subst IsFound (sym (below-dir stat file es t e)) h.1))
        (λ t s h. (h.0, subst IsFound (below-dir stat file es t e) h.1))
        (list_subdirs-Listed dev es path status w))
  | inr e ↦ rw e (Gives-nothing (λ t s h. nothing_below stat file es t e h.1))
]

-- A node and everything below it.
whole-Listed :
    (n : Node) (status : ℕ) (t : Trail) (s : ℕ)
    → ((t ≡ []) × (s ≡ status) ⊎ Listed status (below n) t s) ↔ Listed status (find (some n)) t s
whole-Listed n status [] s =
    (λ h. elim h [ inl x ↦ (x.1, tt) | inr x ↦ absurd x.1 ], λ h. inl (refl, h.0))
whole-Listed n status (k ∷ t) s =
    (λ h. elim h [ inl x ↦ absurd (ground (arith, x.0)) | inr x ↦ x ], λ h. inr h)

module _ (signatures : List Bytes) (dev1 dev2 : ℕ) where
  pub lonesome-Listed :
      (dev status : ℕ) (path : Trail) (n : Node)
      → IsWhole dev n
      → Gives (lonesome signatures dev1 dev2 dev status path n) path (Listed status (find (some n)))
  unfolding lonesome
  lonesome-Listed dev status path broken w = absurd w
  lonesome-Listed dev status path (node stat file es) w =
      let same : (stat.dev == dev) ≡ true = ground (arith, w.0) in
      rw (same, lonesome)
        (Gives-map _ (λ t s h. (whole-Listed (node stat file es) status t s).0 h)
          (λ t s h. (whole-Listed (node stat file es) status t s).1 h)
          (Gives-and_then _ _ (Gives-report status)
            (subdirs-Listed dev stat file es path status w.1)))
