-- ===== src/Server/Permission.antt =====
-- Who may do what: set_permissions of server/MetaSnapper.cc and check_permission of server/Client.cc.
-- What the accounts of the system are is given.
use snapper.Base.{
  Bytes, ℕ, ◌≡◌, refl, ap, subst, ◌↔◌, ◌⊎◌, inl, inr, Bool, true, false, Option, none, some, List,
  [], ◌∷◌, ◌==◌, ltb, if◌then◌else◌, any_of, In, arith, Bool-cases, Option-cases,
}
use snapper.Snapshots.Store.{Filesystem}
use snapper.Server.State.{Client, MetaSnapper}

-- getpwnam, getgrnam, getpwuid and getgrouplist, as snapper/AppUtil.cc wraps them.
pub record Accounts : Type 0 where
  pub get_user_uid : Bytes → Option ℕ
  pub get_group_gid : Bytes → Option ℕ
  pub get_uid_username_gid : ℕ → Option (Bytes × ℕ)
  pub getgrouplist : Bytes → ℕ → List ℕ

-- The loops of set_permissions over the users and over the groups.
unfoldable pub resolve : (Bytes → Option ℕ) → List Bytes → List ℕ
resolve look [] = []
resolve look (name ∷ names) =
    let rest = resolve look names in elim (look name) [ none ↦ rest | some id ↦ id ∷ rest ]

-- std::sort
unfoldable pub insert : ℕ → List ℕ → List ℕ
insert id [] = id ∷ []
insert id (j ∷ ids) = let later = insert id ids in if ltb j id then j ∷ later else id ∷ j ∷ ids

unfoldable pub sort : List ℕ → List ℕ
unfolding insert
sort [] = []
sort (id ∷ ids) = insert id (sort ids)

-- std::unique with the erase of the rest: the first of each run of equal neighbours.
unfoldable pub unique : List ℕ → List ℕ
unique [] = []
unique (i ∷ []) = i ∷ []
unique (i ∷ j ∷ ids) = let rest = unique (j ∷ ids) in if i == j then rest else i ∷ rest

-- One half of set_permissions; `none` is a key that is not set.
unfoldable pub allowed : (Bytes → Option ℕ) → Option (List Bytes) → List ℕ
unfolding resolve sort unique
allowed look none = []
allowed look (some names) = unique (sort (resolve look names))

-- MetaSnapper::set_permissions, by the values of ALLOW_USERS and ALLOW_GROUPS.
unfoldable pub set_permissions :
    {fs : Filesystem}
    → Accounts
    → Option (List Bytes)
    → Option (List Bytes)
    → MetaSnapper fs
    → MetaSnapper fs
unfolding allowed
set_permissions accounts users groups m = record m {
  allowed_uids = allowed accounts.get_user_uid users;
  allowed_gids = allowed accounts.get_group_gid groups;
}

-- boost's contains
abbrev pub contains : List ℕ → ℕ → Bool
contains ids id = any_of (λ i. i == id) ids

-- check_permission(conn, msg): false where it throws.
abbrev pub check_root : Client → Bool
check_root c = c.uid == 0

-- check_permission(conn, msg, meta_snapper): false where it throws.
unfoldable pub check_permission : {fs : Filesystem} → Accounts → Client → MetaSnapper fs → Bool
check_permission accounts c m =
    if c.uid == 0
    then true
    else if contains m.allowed_uids c.uid
    then true
    else elim (accounts.get_uid_username_gid c.uid) [
      | none ↦ false
      | some (username, gid) ↦
          if contains m.allowed_gids gid
          then true
          else any_of (λ g. contains m.allowed_gids g) (accounts.getgrouplist username gid)
    ]

contains-In : (ids : List ℕ) (id : ℕ) → (contains ids id ≡ true) ↔ In id ids
contains-In [] id = (λ h. cc, λ h. absurd h)
contains-In (i ∷ ids) id = ground (arith, contains-In ids id)

insert-In : (id j : ℕ) (ids : List ℕ) → In j (insert id ids) ↔ ((j ≡ id) ⊎ In j ids)
unfolding insert
insert-In id j [] = ground arith
insert-In id j (i ∷ ids) = ground (arith, insert-In id j ids)

sort-In : (j : ℕ) (ids : List ℕ) → In j (sort ids) ↔ In j ids
unfolding sort
sort-In j [] = (λ h. h, λ h. h)
sort-In j (id ∷ ids) = ground (arith, insert-In id j (sort ids), sort-In j ids)

unique-In : (j : ℕ) (ids : List ℕ) → In j (unique ids) ↔ In j ids
unfolding unique
unique-In j [] = (λ h. h, λ h. h)
unique-In j (i ∷ []) = (λ h. h, λ h. h)
unique-In j (i ∷ k ∷ ids) = ground (arith, unique-In j (k ∷ ids))

resolve-In :
    (look : Bytes → Option ℕ) (j : ℕ) (names : List Bytes)
    → In j (resolve look names) ↔ ((name : Bytes) × In name names × (look name ≡ some j))
unfolding resolve
resolve-In look j [] = (λ h. absurd h, λ h. absurd h.1)
resolve-In look j (name ∷ names) = elim (Option-cases (look name)) [
  | inl e ↦
      rw (e, resolve)
        (
          λ h. let (n, i, q) = (resolve-In look j names).0 h in (n, inr i, q),
          λ (n, i, q). elim i [
            | inl p ↦ absurd (ground (arith, e, q, ap look p))
            | inr k ↦ (resolve-In look j names).1 (n, k, q)
          ],
        )
  | inr (id, e) ↦
      rw (e, resolve)
        (
          λ h. elim h [
            | inl p ↦ (name, inl refl, rw (p, e) refl)
            | inr k ↦ let (n, i, q) = (resolve-In look j names).0 k in (n, inr i, q)
          ],
          λ (n, i, q). elim i [
            | inl p ↦ inl (ground (arith, e, q, ap look p))
            | inr k ↦ inr ((resolve-In look j names).1 (n, k, q))
          ],
        )
]

-- A list of names, perhaps not set, names someone with this number.
abbrev pub Names : (Bytes → Option ℕ) → Option (List Bytes) → ℕ → Type 0
Names look none id = ⊥
Names look (some names) id = (name : Bytes) × In name names × (look name ≡ some id)

-- The account with this number belongs to the group, by its primary group or another one.
abbrev pub IsMember : Accounts → ℕ → ℕ → Type 0
IsMember accounts uid gid =
    (username : Bytes) × (primary : ℕ) × (accounts.get_uid_username_gid uid
      ≡ some (username, primary))
    × ((gid ≡ primary) ⊎ In gid (accounts.getgrouplist username primary))

-- What the configuration means to allow.
abbrev pub IsPermitted : Accounts → Option (List Bytes) → Option (List Bytes) → ℕ → Type 0
IsPermitted accounts users groups uid =
    (uid ≡ 0)
    ⊎ (Names accounts.get_user_uid users uid
        ⊎ ((gid : ℕ) × Names accounts.get_group_gid groups gid × IsMember accounts uid gid))

allowed-In :
    (look : Bytes → Option ℕ) (names : Option (List Bytes)) (id : ℕ)
    → In id (allowed look names) ↔ Names look names id
unfolding allowed
allowed-In look none id = (λ h. absurd h, λ h. absurd h)
allowed-In look (some names) id =
    let u = unique-In id (sort (resolve look names)) in
    let s = sort-In id (resolve look names) in
    let r = resolve-In look id names in (λ h. r.0 (s.0 (u.0 h)), λ h. u.1 (s.1 (r.1 h)))

any_of-In :
    (ids gids : List ℕ)
    → (any_of (λ g. contains gids g) ids ≡ true) ↔ ((g : ℕ) × In g ids × In g gids)
any_of-In [] gids = (λ h. cc, λ h. absurd h.1)
any_of-In (i ∷ ids) gids = elim (Bool-cases (contains gids i)) [
  | inl e ↦ (λ h. (i, inl refl, (contains-In gids i).0 e), λ h. rw e refl)
  | inr e ↦ (
    λ h. let (g, a, b) = (any_of-In ids gids).0 (ground (arith, e, h)) in (g, inr a, b),
    λ (g, a, b). elim a [
      | inl q ↦ absurd (ground (arith, e, (contains-In gids i).1 (subst (λ j. In j gids) q b)))
      | inr k ↦ ground (arith, e, (any_of-In ids gids).1 (g, k, b))
    ],
  )
]

module _ {fs : Filesystem} (accounts : Accounts) (c : Client) (m : MetaSnapper fs) where
  -- What check_permission asks of the two lists.
  abbrev Asked : Type 0
  Asked =
      (c.uid ≡ 0)
      ⊎ (In c.uid m.allowed_uids
          ⊎ ((gid : ℕ) × In gid m.allowed_gids × IsMember accounts c.uid gid))

  to_Asked : check_permission accounts c m ≡ true → Asked
  unfolding check_permission
  to_Asked h = elim (Bool-cases (c.uid == 0)) [
    | inl e ↦ inl (ground (arith, e))
    | inr e ↦ elim (Bool-cases (contains m.allowed_uids c.uid)) [
      | inl e2 ↦ inr (inl ((contains-In m.allowed_uids c.uid).0 e2))
      | inr e2 ↦ inr (
          inr (elim (Option-cases (accounts.get_uid_username_gid c.uid)) [
            | inl e3 ↦ absurd (ground (arith, e, e2, e3, h))
            | inr ((username, primary), e3) ↦ elim (Bool-cases (contains m.allowed_gids primary)) [
              | inl e4 ↦ (
                primary,
                (contains-In m.allowed_gids primary).0 e4,
                (username, primary, e3, inl refl),
              )
              | inr e4 ↦
                  let (g, a, b) =
                    (any_of-In (accounts.getgrouplist username primary) m.allowed_gids).0
                      (ground (arith, e, e2, e3, e4, h)) in
                  (g, b, (username, primary, e3, inr a))
            ]
          ]))
    ]
  ]

  of_Asked : Asked → check_permission accounts c m ≡ true
  unfolding check_permission
  of_Asked (inl e) = ground (arith, e)
  of_Asked (inr (inl i)) = ground (arith, (contains-In m.allowed_uids c.uid).1 i)
  of_Asked (inr (inr (gid, i, (username, primary, e, inl q)))) =
      let k : contains m.allowed_gids primary ≡ true =
        (contains-In m.allowed_gids primary).1 (subst (λ j. In j m.allowed_gids) q i) in
      ground (arith, e, k)
  of_Asked (inr (inr (gid, i, (username, primary, e, inr q)))) =
      let k = (any_of-In (accounts.getgrouplist username primary) m.allowed_gids).1 (gid, q, i) in
      ground (arith, e, k)

-- After set_permissions, check_permission lets a client pass exactly if it is root, or a user that
-- ALLOW_USERS names has its number, or it belongs, by its primary or another group, to a group that
-- ALLOW_GROUPS names.
pub check_permission_lem :
    {fs : Filesystem} (accounts : Accounts) (users groups : Option (List Bytes)) (c : Client)
    (m : MetaSnapper fs)
    → (check_permission accounts c (set_permissions accounts users groups m) ≡ true)
      ↔ IsPermitted accounts users groups c.uid
unfolding set_permissions
check_permission_lem accounts users groups c m =
    let n = set_permissions accounts users groups m in
    let u = allowed-In accounts.get_user_uid users c.uid in
    let g : (gid : ℕ) → In gid n.allowed_gids ↔ Names accounts.get_group_gid groups gid =
      λ gid. allowed-In accounts.get_group_gid groups gid in
    (
      λ h. elim (to_Asked accounts c n h) [
        | inl e ↦ inl e
        | inr (inl i) ↦ inr (inl (u.0 i))
        | inr (inr (gid, i, k)) ↦ inr (inr (gid, (g gid).0 i, k))
      ],
      λ h. of_Asked accounts c n (elim h [
        | inl e ↦ inl e
        | inr (inl i) ↦ inr (inl (u.1 i))
        | inr (inr (gid, i, k)) ↦ inr (inr (gid, (g gid).1 i, k))
      ]),
    )
