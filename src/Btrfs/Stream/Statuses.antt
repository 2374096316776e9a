-- ===== src/Btrfs/Stream/Statuses.antt =====
-- What each operation of a stream (snapper/Btrfs.cc) but process_rename does to the statuses.
use snapper.Base.{
  Bytes, eq_bytes_refl, ℕ, ◌≡◌, ◌≢◌, refl, ap, ◌∙◌, inl, inr, Bool, true, false, Option, none, some,
  List, [], ◌∷◌, if◌then◌else◌, Bool-cases, Option-cases,
}
use snapper.Files.Status.{
  created, deleted, content, permissions, owner, group, xattrs, acl, set_flag,
}
use snapper.Files.Attributes.{is_acl}
use snapper.Btrfs.Tree.{TreeNode, Name, status_of, find, or_new}
use snapper.Btrfs.Tree.Lookup.{status_at, strip, is_at, status_at-erase}
use snapper.Btrfs.Tree.Changes.{status_at-mark, strip-status}
use snapper.Btrfs.Stream.{
  Event, subvol, snapshot, mkfile, mkdir, mknod, mkfifo, mksock, symlink, link, unlink, rmdir,
  rename_event, write, clone, truncate, chmod, chown, utimes, update_extent, set_xattr,
  remove_xattr, made_again, create, delete, mark, mark_xattrs, process,
}

-- The name that an event is about.
abbrev pub name_of : Event → Name
name_of (subvol name) = name
name_of (snapshot name) = name
name_of (mkfile name) = name
name_of (mkdir name) = name
name_of (mknod name) = name
name_of (mkfifo name) = name
name_of (mksock name) = name
name_of (symlink name) = name
name_of (link name) = name
name_of (unlink name) = name
name_of (rmdir name) = name
name_of (rename_event from to) = from
name_of (write name) = name
name_of (clone name) = name
name_of (truncate name) = name
name_of (chmod name) = name
name_of (chown name) = name
name_of (utimes name) = name
name_of (update_extent name) = name
name_of (set_xattr name attribute) = name
name_of (remove_xattr name attribute) = name

abbrev pub is_rename : Event → Bool
is_rename (rename_event from to) = true
is_rename _ = false

abbrev pub is_found : Option TreeNode → Bool
is_found none = false
is_found (some x) = true

abbrev pub xattr_status : List Bytes → Bytes → ℕ → ℕ
xattr_status signatures attribute s =
    if is_acl signatures attribute then set_flag (set_flag s xattrs) acl else set_flag s xattrs

-- The new status of the name, by whether the tree knows the name, and its old status.
abbrev pub new_status : List Bytes → Event → Bool → ℕ → ℕ
new_status signatures (mkfile name) known s = if known then made_again s else created
new_status signatures (mkdir name) known s = if known then made_again s else created
new_status signatures (symlink name) known s = if known then made_again s else created
new_status signatures (link name) known s = if known then made_again s else created
new_status signatures (unlink name) known s = if known then 0 else deleted
new_status signatures (rmdir name) known s = if known then 0 else deleted
new_status signatures (write name) known s = set_flag s content
new_status signatures (clone name) known s = set_flag s content
new_status signatures (truncate name) known s = set_flag s content
new_status signatures (update_extent name) known s = set_flag s content
new_status signatures (chmod name) known s = set_flag s permissions
new_status signatures (chown name) known s = set_flag (set_flag s owner) group
new_status signatures (set_xattr name attribute) known s = xattr_status signatures attribute s
new_status signatures (remove_xattr name attribute) known s = xattr_status signatures attribute s
new_status signatures _ known s = s

module _ (p q : Name) (t : TreeNode) where
  -- The name has the new status, and all others have theirs.
  abbrev pub Becomes : ℕ → TreeNode → Type 0
  Becomes s u = status_at q u ≡ (if is_at (strip p q) then s else status_at q t)

  pub create-status :
      Becomes (if is_found (find p t) then made_again (status_at p t) else created) (create p t)
  unfolding create
  create-status = elim (Option-cases (find p t)) [
    | inl e ↦ rw (e, create) (status_at-mark p q (λ s. created) t)
    | inr (x, e) ↦ let h = status_at-mark p q made_again t in rw (e, create) (rw e at h)
  ]

  mark-status : (flag : ℕ) → Becomes (set_flag (status_at p t) flag) (mark flag p t)
  mark-status flag = status_at-mark p q (λ s. set_flag s flag) t

pub delete-status :
    (k : Bytes) (p q : Name) (t : TreeNode)
    → Becomes (k ∷ p) q t (if is_found (find (k ∷ p) t) then 0 else deleted) (delete (k ∷ p) t)
unfolding delete
delete-status k p q t = elim (Option-cases (find (k ∷ p) t)) [
  | inl e ↦ rw (e, delete) (status_at-mark (k ∷ p) q (λ s. deleted) t)
  | inr (x, e) ↦ rw (e, delete) (status_at-erase k p q t)
]

strip_self : (p : Name) → strip p p ≡ some []
strip_self [] = refl
strip_self (k ∷ p) = rw (eq_bytes_refl k) (strip_self p)

mark_twice :
    (p q : Name) (t : TreeNode) (f g : ℕ)
    → Becomes p q t (set_flag (set_flag (status_at p t) f) g) (mark g p (mark f p t))
mark_twice p q t f g =
    mark-status p q (mark f p t) g
    ∙ (ap (λ s. if is_at (strip p q) then set_flag s g else status_at q (mark f p t))
          (mark-status p p t f
            ∙ ap (λ o. if is_at o then set_flag (status_at p t) f else status_at p t)
                (strip_self p))
        ∙ go (is_at (strip p q)) refl)
  where
    go :
        (b : Bool)
        → is_at (strip p q) ≡ b
        → (if b then set_flag (set_flag (status_at p t) f) g else status_at q (mark f p t))
          ≡ (if b then set_flag (set_flag (status_at p t) f) g else status_at q t)
    go true e = refl
    go false e = mark-status p q t f ∙ rw e refl

mark_xattrs-status :
    (signatures : List Bytes) (attribute : Bytes) (p q : Name) (t : TreeNode)
    → Becomes p q t
        (xattr_status signatures attribute (status_at p t))
        (mark_xattrs signatures attribute p t)
mark_xattrs-status signatures attribute p q t = elim (Bool-cases (is_acl signatures attribute)) [
  | inl e ↦ rw e (mark_twice p q t xattrs acl)
  | inr e ↦ rw e (mark-status p q t xattrs)
]

same : (p q : Name) (t : TreeNode) → Becomes p q t (status_at p t) t
unfolding find
same p q t = go (strip p q) refl
  where
    go :
        (o : Option Name)
        → strip p q ≡ o
        → status_at q t ≡ (if is_at o then status_at p t else status_at q t)
    go none e = refl
    go (some []) e = strip-status p q [] t e ∙ ap status_of (at_root (or_new (find p t)))
      where
        at_root : (x : TreeNode) → or_new (find [] x) ≡ x
        at_root x = refl
    go (some (k ∷ r)) e = refl

-- Every operation of a stream but a rename gives the name that it is about the status for that
-- operation, by whether the tree knows the name and by the old status, and changes the status of no
-- other name. The name is not that of the whole snapshot.
pub process-status :
    (signatures : List Bytes) (entries : Name → List Name) (e : Event) (q : Name) (t : TreeNode)
    → is_rename e ≡ false
    → name_of e ≢ []
    → status_at q (process signatures entries e t) ≡ (
        if is_at (strip (name_of e) q)
        then new_status signatures e (is_found (find (name_of e) t)) (status_at (name_of e) t)
        else status_at q t)
unfolding process
process-status signatures entries (subvol p) q t h n = same p q t
process-status signatures entries (snapshot p) q t h n = same p q t
process-status signatures entries (mkfile p) q t h n = create-status p q t
process-status signatures entries (mkdir p) q t h n = create-status p q t
process-status signatures entries (mknod p) q t h n = same p q t
process-status signatures entries (mkfifo p) q t h n = same p q t
process-status signatures entries (mksock p) q t h n = same p q t
process-status signatures entries (symlink p) q t h n = create-status p q t
process-status signatures entries (link p) q t h n = create-status p q t
process-status signatures entries (unlink []) q t h n = absurd (n refl)
process-status signatures entries (unlink (k ∷ p)) q t h n = delete-status k p q t
process-status signatures entries (rmdir []) q t h n = absurd (n refl)
process-status signatures entries (rmdir (k ∷ p)) q t h n = delete-status k p q t
process-status signatures entries (rename_event from to) q t h n = cc
process-status signatures entries (write p) q t h n = mark-status p q t content
process-status signatures entries (clone p) q t h n = mark-status p q t content
process-status signatures entries (truncate p) q t h n = mark-status p q t content
process-status signatures entries (chmod p) q t h n = mark-status p q t permissions
process-status signatures entries (chown p) q t h n = mark_twice p q t owner group
process-status signatures entries (utimes p) q t h n = same p q t
process-status signatures entries (update_extent p) q t h n = mark-status p q t content
process-status signatures entries (set_xattr p attribute) q t h n =
    mark_xattrs-status signatures attribute p q t
process-status signatures entries (remove_xattr p attribute) q t h n =
    mark_xattrs-status signatures attribute p q t
