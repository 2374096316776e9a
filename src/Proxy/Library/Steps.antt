-- ===== src/Proxy/Library/Steps.antt =====
-- The list of proxies of ProxySnapperLib (client/proxy/proxy-lib.cc) follows the list of the library.
use snapper.Base.{
  ℕ, ◌≡◌, refl, sym, ap, ◌∙◌, subst, ◌⊎◌, inl, inr, Bool, true, false, ◌||◌, none, some, List, [],
  ◌∷◌, ◌++◌, ◌==◌, arith, Bool-cases, Option-cases,
}
use snapper.Base.Int.{ℤ}
use snapper.Snapshot.{Snapshot, single, pre, is_current}
use snapper.Proxy.{erase}
use snapper.Snapshots.Store.{
  Filesystem, Os, Store, Error, Result, ok, err, no_fuel, find, delete_filesystem_snapshot,
}
use snapper.Snapshots.Create.{
  create_single_snapshot, create_single_snapshot_from, create_single_snapshot_of_default,
  create_pre_snapshot, create_post_snapshot,
}
use snapper.Snapshots.Delete.{delete_filelists, delete_snapshot, forget}
use snapper.Proxy.Library.{
  nums_of, erase_nums, Request, create_single, create_single_from, create_single_of_default,
  create_pre, create_post, modify, delete, Library, emplace, is_ok, delete_loop, delete_snapshots,
  operate,
}
use snapper.Proxy.Library.Grown.{
  Grown, nums_of-snoc, nums_of-erase, create-Grown, create_post_snapshot-Grown, modify-nums,
}

-- A deletion that returns takes the entry of this number, and one that throws leaves the entries.
abbrev Shrunk : ℕ → Result → List Snapshot → List Snapshot → Type 0
Shrunk n (ok k) l l' = l' ≡ erase n l
Shrunk n (err e) l l' = l' ≡ l
Shrunk n no_fuel l l' = l' ≡ l

find-num : (n : ℕ) (x : Snapshot) (l : List Snapshot) → find n l ≡ some x → (x.num == n) ≡ true
find-num n x [] e = cc
find-num n x (y ∷ l) e = elim (Bool-cases (y.num == n)) [
  | inl q ↦
      let same : y ≡ x = ground (arith, e, q) in
      subst (λ (j : Snapshot). (j.num == n) ≡ true) same q
  | inr q ↦ find-num n x l (ground (arith, e, q))
]

module _ (fs : Filesystem) (unique_numbers : Bool) where
  delete-Shrunk :
      (s : Snapshot) (st : Store fs)
      → Shrunk s.num
          (delete_snapshot fs unique_numbers (some s) st).0
          st.entries
          (delete_snapshot fs unique_numbers (some s) st).1.entries
  unfolding delete_snapshot forget
  delete-Shrunk s st =
      elim (Bool-cases
        (is_current s || (fs.is_default s.num st.disk || fs.is_active s.num st.disk))) [
          | inl e ↦ rw (e, delete_snapshot) refl
          | inr e ↦ go (delete_filesystem_snapshot fs s.num st.disk) refl e
        ]
    where
      go :
          (r : (Error × fs.State) ⊎ fs.State)
          → delete_filesystem_snapshot fs s.num st.disk ≡ r
          → (is_current s || (fs.is_default s.num st.disk || fs.is_active s.num st.disk)) ≡ false
          → Shrunk s.num
              (delete_snapshot fs unique_numbers (some s) st).0
              st.entries
              (delete_snapshot fs unique_numbers (some s) st).1.entries
      go (inl (f, d)) q e = rw (e, q, delete_snapshot) refl
      go (inr d) q e =
          elim (Bool-cases (delete_filelists fs unique_numbers s (record st { disk = d }))) [
            | inl f ↦ rw (e, q, f, delete_snapshot) refl
            | inr f ↦ rw (e, q, f, delete_snapshot) refl
          ]

  find-Shrunk :
      (n : ℕ) (st : Store fs)
      → Shrunk n
          (delete_snapshot fs unique_numbers (find n st.entries) st).0
          st.entries
          (delete_snapshot fs unique_numbers (find n st.entries) st).1.entries
  unfolding delete_snapshot
  find-Shrunk n st = elim (Option-cases (find n st.entries)) [
    | inl e ↦ rw e refl
    | inr (x, e) ↦
        let q : x.num ≡ n = ground (arith, find-num n x st.entries e) in
        rw e (
          subst
            (λ j.
              Shrunk j (delete_snapshot fs unique_numbers (some x) st).0 st.entries
                (delete_snapshot fs unique_numbers (some x) st).1.entries)
            q (delete-Shrunk x st))
  ]

  -- What a loop that returns has erased.
  delete_loop-nums :
      (nums : List ℕ) (st : Store fs)
      → (delete_loop fs unique_numbers nums st).0 ≡ true
      → nums_of (delete_loop fs unique_numbers nums st).1.entries
        ≡ erase_nums nums (nums_of st.entries)
  unfolding delete_loop erase_nums
  delete_loop-nums [] st h = refl
  delete_loop-nums (n ∷ nums) st h =
      let r = delete_snapshot fs unique_numbers (find n st.entries) st in
      go r.0 refl (find-Shrunk n st) (λ k. delete_loop-nums nums r.1 k)
    where
      go :
          (r : Result)
          → (delete_snapshot fs unique_numbers (find n st.entries) st).0 ≡ r
          → Shrunk n
              (delete_snapshot fs unique_numbers (find n st.entries) st).0
              st.entries
              (delete_snapshot fs unique_numbers (find n st.entries) st).1.entries
          → ((delete_loop fs unique_numbers nums
                  (delete_snapshot fs unique_numbers (find n st.entries) st).1).0
                ≡ true
              → nums_of
                  (delete_loop fs unique_numbers nums
                    (delete_snapshot fs unique_numbers (find n st.entries) st).1).1.entries
                ≡ erase_nums nums
                    (nums_of (delete_snapshot fs unique_numbers (find n st.entries) st).1.entries))
          → nums_of (delete_loop fs unique_numbers (n ∷ nums) st).1.entries
            ≡ erase_nums (n ∷ nums) (nums_of st.entries)
      go (ok k) q s again =
          let t : (delete_snapshot fs unique_numbers (find n st.entries) st).1.entries
              ≡ erase n st.entries =
            rw q at s in
          let u : (delete_loop fs unique_numbers nums
                (delete_snapshot fs unique_numbers (find n st.entries) st).1).0
              ≡ true =
            rw (q, delete_loop) at h in
          rw (q, delete_loop)
            (again u ∙ ap (erase_nums nums) (ap nums_of t ∙ nums_of-erase n st.entries))
      go (err e) q s again = absurd (ground (arith, h, ap (is_ok fs) q))
      go no_fuel q s again = absurd (ground (arith, h, ap (is_ok fs) q))

module _ {fs : Filesystem} where
  -- The proxies are those of the entries, in the same order.
  abbrev pub IsInStep : Library fs → Type 0
  IsInStep l = l.proxies ≡ nums_of l.store.entries

  emplace-IsInStep :
      (l : Library fs) (r : Result × Store fs)
      → IsInStep l
      → Grown r.0 l.store.entries r.1.entries
      → IsInStep (emplace fs l r).1
  emplace-IsInStep l (ok n, st) h (x, q, e) =
      ap (λ p. p ++ n ∷ []) h
      ∙ (ap (λ m. nums_of l.store.entries ++ m ∷ []) (sym q)
          ∙ (sym (nums_of-snoc l.store.entries x) ∙ ap nums_of (sym e)))
  emplace-IsInStep l (err f, st) h e = h ∙ ap nums_of (sym e)
  emplace-IsInStep l (no_fuel, st) h e = h ∙ ap nums_of (sym e)

-- Each call of the proxy on the library that returns keeps the list of proxies in step with the list of
-- snapshots of the library; so does each call but a deletion where it throws.
pub operate-IsInStep :
    (fs : Filesystem) (os : Os) (unique_numbers : Bool) (fuel : ℕ) (now : ℤ) (request : Request)
    (l : Library fs)
    → IsInStep l
    → ((nums : List ℕ)
        → request ≡ delete nums
        → (operate fs os unique_numbers fuel now request l).0 ≡ true)
    → IsInStep (operate fs os unique_numbers fuel now request l).1
unfolding operate create_single_snapshot create_single_snapshot_from
    create_single_snapshot_of_default create_pre_snapshot delete_snapshots
operate-IsInStep fs os unique_numbers fuel now (create_single scd) l h k =
    emplace-IsInStep l (create_single_snapshot fs os fuel now scd l.store) h
      (create-Grown fs os fuel single 0 now scd (some 0) scd.empty l.store)
operate-IsInStep fs os unique_numbers fuel now (create_single_from parent scd) l h k =
    emplace-IsInStep l (create_single_snapshot_from fs os fuel (some parent) now scd l.store) h
      (create-Grown fs os fuel single 0 now scd (some parent) scd.empty l.store)
operate-IsInStep fs os unique_numbers fuel now (create_single_of_default scd) l h k =
    emplace-IsInStep l (create_single_snapshot_of_default fs os fuel now scd l.store) h
      (create-Grown fs os fuel single 0 now scd none false l.store)
operate-IsInStep fs os unique_numbers fuel now (create_pre scd) l h k =
    emplace-IsInStep l (create_pre_snapshot fs os fuel now scd l.store) h
      (create-Grown fs os fuel pre 0 now scd (some 0) false l.store)
operate-IsInStep fs os unique_numbers fuel now (create_post p scd) l h k =
    emplace-IsInStep l (create_post_snapshot fs os fuel (find p l.store.entries) now scd l.store) h
      (create_post_snapshot-Grown fs os fuel (find p l.store.entries) now scd l.store)
operate-IsInStep fs os unique_numbers fuel now (modify num smd) l h k =
    h ∙ sym (modify-nums fs os (find num l.store.entries) smd l.store)
operate-IsInStep fs os unique_numbers fuel now (delete nums) l h k =
    deleted (delete_loop fs unique_numbers nums l.store) refl (k nums refl)
  where
    deleted :
        (r : Bool × Store fs)
        → delete_loop fs unique_numbers nums l.store ≡ r
        → (delete_snapshots fs unique_numbers nums l).0 ≡ true
        → IsInStep (delete_snapshots fs unique_numbers nums l).1
    deleted (true, st) q t =
        rw (q, delete_snapshots)
          (ap (erase_nums nums) h
            ∙ (sym (
                  delete_loop-nums fs unique_numbers nums l.store
                    (ap (λ (x : Bool × Store fs). x.0) q))
                ∙ ap (λ (x : Bool × Store fs). nums_of x.1.entries) q))
    deleted (false, st) q t = absurd (ground (arith, t, q))
