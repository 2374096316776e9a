-- ===== src/Btrfs/Stream/Whole.antt =====
-- A whole stream (snapper/Btrfs.cc): the names that StreamProcessor::process reports, and that the tree
-- keeps its order under every operation.
use snapper.Base.{
  Bytes, ℕ, ◌≡◌, ◌≢◌, refl, sym, ap, ◌∙◌, subst, ◌↔◌, inl, inr, Bool, true, false, Option, none,
  some, List, [], ◌∷◌, ◌++◌, if◌then◌else◌, In, Bool-cases, Option-cases,
}
use snapper.Files.Status.{
  created, deleted, content, permissions, owner, group, xattrs, acl, set_flag,
}
use snapper.Files.Attributes.{is_acl}
use snapper.Btrfs.Tree.{
  TreeNode, node, Children, end, child, Name, new_node, find, insert, with_status, without_children,
  check, result,
}
use snapper.Btrfs.Tree.Lookup.{status_at}
use snapper.Btrfs.Tree.Tidy.{
  IsTidy, insert-IsTidy, status-IsTidy, alone-IsTidy, erase-IsTidy, rename-IsTidy,
}
use snapper.Btrfs.Tree.Result.{Shown, Reports, result-Reports}
use snapper.Btrfs.Tree.Check.{some_inj, check-status, check-IsTidy, check-total}
use snapper.Btrfs.Stream.{
  Event, subvol, snapshot, mkfile, mkdir, mknod, mkfifo, mksock, symlink, link, unlink, rmdir,
  rename_event, write, clone, truncate, chmod, chown, utimes, update_extent, set_xattr,
  remove_xattr, made_again, create, delete, mark, mark_xattrs, merge_one, merge_name, merge,
  merge_children, move_entries, process_rename, process, process_all, check_one, process_stream,
  has_any, change_flags, clear_flags, or_status, settled,
}

mark_with-IsTidy :
    (f : ℕ → ℕ) (p : Name) (t : TreeNode) → IsTidy t → IsTidy (insert p (with_status f) t)
mark_with-IsTidy f p t h = insert-IsTidy p (with_status f) t (λ x k. status-IsTidy f x k) h

create-IsTidy : (p : Name) (t : TreeNode) → IsTidy t → IsTidy (create p t)
unfolding create
create-IsTidy p t h = elim (Option-cases (find p t)) [
  | inl e ↦ rw (e, create) (mark_with-IsTidy (λ s. created) p t h)
  | inr (x, e) ↦ rw (e, create) (mark_with-IsTidy made_again p t h)
]

delete-IsTidy : (p : Name) (t : TreeNode) → IsTidy t → IsTidy (delete p t)
unfolding delete
delete-IsTidy p t h = elim (Option-cases (find p t)) [
  | inl e ↦ rw (e, delete) (mark_with-IsTidy (λ s. deleted) p t h)
  | inr (x, e) ↦ rw (e, delete) (erase-IsTidy p t h)
]

merge_one-IsTidy : (p : Name) (s : ℕ) (t : TreeNode) → IsTidy t → IsTidy (merge_one p s t)
unfolding merge_one
merge_one-IsTidy p s t h = elim (Option-cases (find p t)) [
  | inl e ↦ rw (e, merge_one) (mark_with-IsTidy (λ n. s) p t h)
  | inr (x, e) ↦ rw (e, merge_one) (mark_with-IsTidy made_again p t h)
]

merge_children-IsTidy :
    (to prefix : Name) (c : Children) (t : TreeNode)
    → IsTidy t
    → IsTidy (merge_children to prefix c t)
unfolding merge
merge_children-IsTidy to prefix end t h = h
merge_children-IsTidy to prefix (child k (node s d) rest) t h =
    merge_children-IsTidy to prefix rest _ (
      merge_children-IsTidy to (merge_name to prefix k) d _
        (merge_one-IsTidy (merge_name to prefix k) s t h))

move_entries-IsTidy :
    (from to : Name) (l : List Name) (t : TreeNode) → IsTidy t → IsTidy (move_entries from to l t)
unfolding move_entries
move_entries-IsTidy from to [] t h = h
move_entries-IsTidy from to (n ∷ l) t h =
    move_entries-IsTidy from to l _ (create-IsTidy (to ++ n) _ (delete-IsTidy (from ++ n) t h))

process_rename-IsTidy :
    (l : List Name) (from to : Name) (t : TreeNode) → IsTidy t → IsTidy (process_rename l from to t)
unfolding process_rename
process_rename-IsTidy l from to t h = elim (Option-cases (find from t)) [
  | inl e ↦
      rw (e, process_rename)
        (move_entries-IsTidy from to l _ (create-IsTidy to _ (delete-IsTidy from t h)))
  | inr (x, e) ↦ elim (Option-cases (find to t)) [
    | inl f ↦ rw (e, f, process_rename) (rename-IsTidy from to t h)
    | inr (y, f) ↦ rw (e, f, process_rename) (merged x)
  ]
]
  where
    merged :
        (x : TreeNode)
        → IsTidy (merge to [] x (create to (delete from (insert from without_children t))))
    merged (node s c) = merge_children-IsTidy to [] c _ (
        create-IsTidy to _
          (delete-IsTidy from _ (insert-IsTidy from without_children t alone-IsTidy h)))

mark-IsTidy : (flag : ℕ) (p : Name) (t : TreeNode) → IsTidy t → IsTidy (mark flag p t)
mark-IsTidy flag p t h = mark_with-IsTidy (λ s. set_flag s flag) p t h

mark_xattrs-IsTidy :
    (signatures : List Bytes) (a : Bytes) (p : Name) (t : TreeNode)
    → IsTidy t
    → IsTidy (mark_xattrs signatures a p t)
mark_xattrs-IsTidy signatures a p t h = elim (Bool-cases (is_acl signatures a)) [
  | inl e ↦ rw e (mark-IsTidy acl p _ (mark-IsTidy xattrs p t h))
  | inr e ↦ rw e (mark-IsTidy xattrs p t h)
]

module _ (signatures : List Bytes) (entries : Name → List Name) where
  -- Every operation of a stream keeps the names of each node in ascending order, so that none stands
  -- twice.
  pub process-IsTidy :
      (e : Event) (t : TreeNode) → IsTidy t → IsTidy (process signatures entries e t)
  unfolding process
  process-IsTidy (subvol p) t h = h
  process-IsTidy (snapshot p) t h = h
  process-IsTidy (mkfile p) t h = create-IsTidy p t h
  process-IsTidy (mkdir p) t h = create-IsTidy p t h
  process-IsTidy (mknod p) t h = h
  process-IsTidy (mkfifo p) t h = h
  process-IsTidy (mksock p) t h = h
  process-IsTidy (symlink p) t h = create-IsTidy p t h
  process-IsTidy (link p) t h = create-IsTidy p t h
  process-IsTidy (unlink p) t h = delete-IsTidy p t h
  process-IsTidy (rmdir p) t h = delete-IsTidy p t h
  process-IsTidy (rename_event from to) t h = process_rename-IsTidy (entries from) from to t h
  process-IsTidy (write p) t h = mark-IsTidy content p t h
  process-IsTidy (clone p) t h = mark-IsTidy content p t h
  process-IsTidy (truncate p) t h = mark-IsTidy content p t h
  process-IsTidy (chmod p) t h = mark-IsTidy permissions p t h
  process-IsTidy (chown p) t h = mark-IsTidy group p _ (mark-IsTidy owner p t h)
  process-IsTidy (utimes p) t h = h
  process-IsTidy (update_extent p) t h = mark-IsTidy content p t h
  process-IsTidy (set_xattr p a) t h = mark_xattrs-IsTidy signatures a p t h
  process-IsTidy (remove_xattr p a) t h = mark_xattrs-IsTidy signatures a p t h

  process_all-IsTidy :
      (l : List Event) (t : TreeNode) → IsTidy t → IsTidy (process_all signatures entries l t)
  unfolding process_all
  process_all-IsTidy [] t h = h
  process_all-IsTidy (e ∷ l) t h = process_all-IsTidy l _ (process-IsTidy e t h)

-- A check of a name with no flag says that there is no change.
check_one-nothing : (cmp : Name → Option ℕ) (p : Name) → check_one cmp p 0 ≡ some 0
unfolding check_one
check_one-nothing cmp p = refl

check_one-total :
    (cmp : Name → Option ℕ)
    → ((p : Name) → cmp p ≢ none)
    → (p : Name) (s : ℕ) → (n : ℕ) × (check_one cmp p s ≡ some n)
unfolding check_one
check_one-total cmp h p s =
    go (has_any change_flags (settled s)) (cmp p) (h p)
      (λ x. or_status x (clear_flags change_flags (settled s))) (settled s)
  where
    go :
        (b : Bool) (o : Option ℕ)
        → o ≢ none
        → (f : ℕ → ℕ) (m : ℕ)
        → (n : ℕ) × ((if b then elim o [ none ↦ none | some s ↦ some (f s) ] else some m) ≡ some n)
    go false o h f m = (m, refl)
    go true none h f m = absurd (h refl)
    go true (some s) h f m = (f s, refl)

module _ (signatures : List Bytes) (entries : Name → List Name) (cmp : Name → Option ℕ)
    (events : List Event) where
  -- The tree after the stream.
  abbrev pub final : TreeNode
  unfolding process_all
  final = process_all signatures entries events new_node

  -- A stream that can be processed is reported as the statuses of the names say after its last
  -- operation: a name is reported with a status exactly if the check of its name makes that status of
  -- the one it has in the tree, and it is not 0.
  pub process_stream_iff :
      (l : List (Name × ℕ))
      → process_stream signatures entries cmp true (some events) ≡ some l
      → (j : Bytes) (q : Name) (s : ℕ)
      → In (j ∷ q, s) l ↔ ((check_one cmp (j ∷ q) (status_at (j ∷ q) final) ≡ some s) × (s ≢ 0))
  unfolding process_stream
  process_stream_iff l h j q s = elim (Option-cases (check (check_one cmp) [] final)) [
    | inl e ↦ absurd (failed (check (check_one cmp) [] final) h e)
    | inr (u, e) ↦ listed u e (done (check (check_one cmp) [] final) u h e)
  ]
    where
      failed :
          (o : Option TreeNode)
          → elim o [ none ↦ none | some files ↦ some (result [] files) ] ≡ some l
          → o ≡ none
          → ⊥
      failed none h e = cc
      failed (some u) h e = cc

      done :
          (o : Option TreeNode) (u : TreeNode)
          → elim o [ none ↦ none | some files ↦ some (result [] files) ] ≡ some l
          → o ≡ some u
          → result [] u ≡ l
      done none u h e = cc
      done (some v) u h e = ap (result []) (sym (some_inj v u e)) ∙ some_inj _ _ h

      listed :
          (u : TreeNode)
          → check (check_one cmp) [] final ≡ some u
          → result [] u ≡ l
          → In (j ∷ q, s) l ↔ ((check_one cmp (j ∷ q) (status_at (j ∷ q) final) ≡ some s) × (s ≢ 0))
      listed (node n c) e p =
          let tidy =
            check-IsTidy (check_one cmp) [] final (node n c) e
              (process_all-IsTidy signatures entries events new_node tt) in
          let value =
            check-status (check_one cmp) (check_one-nothing cmp) [] final (node n c) e j q in
          let all = subst (λ l. Reports l [] (Shown (node n c))) p (result-Reports [] n c tidy) in
          (
            λ m.
                let (q', s', r, k) = all.0 (j ∷ q, s) m in
                let k' : Shown (node n c) (j ∷ q) s =
                  subst (λ (x : Name × ℕ). Shown (node n c) x.0 x.1) (sym r) k in
                (value ∙ ap some k'.0, k'.1),
            λ (a, b). all.1 (j ∷ q) s (some_inj _ _ (sym value ∙ a), b),
          )

  -- A stream that can be processed has a result where the comparison of no name fails.
  pub process_stream-total :
      ((p : Name) → cmp p ≢ none)
      → (l : List (Name × ℕ)) × (process_stream signatures entries cmp true (some events) ≡ some l)
  unfolding process_stream
  process_stream-total h =
      let (u, e) = check-total (check_one cmp) (check_one-total cmp h) [] final in
      (result [] u, rw e refl)
