-- ===== src/Server/UseCount/Reached.antt =====
-- The use counts of snapperd at any time.
use snapper.Base.{
  Bytes, ℕ, ◌+◌, ◌≡◌, refl, ap, subst, inl, inr, Bool, true, none, some, List, [], ◌∷◌, ◌++◌, All,
  arith, Bool-cases, Option-cases,
}
use snapper.Snapshots.Store.{Filesystem, find}
use snapper.Server.State.{Comparison, Client, MountKey, find_meta, change_meta}
use snapper.Server.Permission.{Accounts, check_permission}
use snapper.Server.Handlers.{Metas, store_snapshot, begin_query, end_comparison}
use snapper.Server.Steps.{
  new_client, dispatch, release_comparisons, release_mounts, release_uses, destroy, Server, Step,
  connect, disconnect, call, finish, remove, query, add_task, release, Steps, start, next,
}
use snapper.Server.UseCount.{
  uses_in, uses_running, uses_of, uses, uses_append, uses_held, uses_held_append, CountedBy,
  CountedBy-map, inc-CountedBy, dec-CountedBy, same-CountedBy,
}
use snapper.Server.UseCount.Calls.{Fits, end_comparison-Fits, dispatch-Fits}

module _ (fs : Filesystem) (accounts : Accounts) where
  release_comparisons-CountedBy :
      (base : Bytes → ℕ) (cs : List Comparison) (metas : Metas fs accounts)
      → CountedBy (λ k. base k + uses_in k cs) metas
      → CountedBy base (release_comparisons fs accounts cs metas)
  unfolding release_comparisons
  release_comparisons-CountedBy base [] metas h = CountedBy-map _ _ metas (λ k. omega arith) h
  release_comparisons-CountedBy base (c ∷ cs) metas h =
      release_comparisons-CountedBy base cs _
        (dec-CountedBy _ _ c.config metas (λ k. omega arith) h)

  release_mounts-CountedBy :
      (u : Bytes → ℕ) (mounted : ℕ → Bool) (mounts : List (MountKey × ℕ))
      (metas left : Metas fs accounts)
      → release_mounts fs accounts mounted mounts metas ≡ some left
      → CountedBy u metas
      → CountedBy u left
  unfolding release_mounts store_snapshot
  release_mounts-CountedBy u mounted [] metas left e h = subst (CountedBy u) (ground (arith, e)) h
  release_mounts-CountedBy u mounted (((name, num), n) ∷ rest) metas left e h =
      elim (Option-cases (find_meta name metas)) [
        | inl p ↦ absurd (ground (arith, e, p))
        | inr (m, p) ↦ elim (Option-cases (find num m.store.entries)) [
          | inl q ↦ release_mounts-CountedBy u mounted rest metas left (ground (arith, e, p, q)) h
          | inr (s, q) ↦ elim (Option-cases (release_uses fs accounts mounted n s)) [
            | inl r ↦ absurd (ground (arith, e, p, q, r))
            | inr (t, r) ↦
                release_mounts-CountedBy u mounted rest (change_meta name (store_snapshot t) metas)
                  left (ground (arith, e, p, q, r))
                  (same-CountedBy u name (store_snapshot t) metas (λ x. (refl, refl)) h)
          ]
        ]
      ]

  destroy-CountedBy :
      (base : Bytes → ℕ) (mounted : ℕ → Bool) (c : Client) (metas left : Metas fs accounts)
      → c.running ≡ none
      → destroy fs accounts mounted c metas ≡ some left
      → CountedBy (λ k. base k + uses_of k c) metas
      → CountedBy base left
  unfolding destroy
  destroy-CountedBy base mounted c metas left free e h =
      release_mounts-CountedBy base mounted c.mounts _ left e (
        release_comparisons-CountedBy base c.comparisons metas
          (CountedBy-map _ _ metas (λ k. ground (arith, ap (uses_running k) free)) h))

  -- Each configuration has as many uses as there are comparisons, queries and tasks of it.
  abbrev pub IsCounted : Server fs accounts → Type 0
  IsCounted s = CountedBy (λ k. uses k s.clients + uses_held k s.held) s.metas

  module _ (before after : List Client) (c : Client) (metas : Metas fs accounts)
      (held : List Bytes) where
    aside : Bytes → ℕ
    aside k = uses k (before ++ after) + uses_held k held

    to_aside :
        CountedBy (λ k. uses k (before ++ (c ∷ after)) + uses_held k held) metas
        → Fits fs accounts aside c metas
    unfolding aside
    to_aside h =
        CountedBy-map _ _ metas
          (λ k. omega (arith, uses_append k before (c ∷ after), uses_append k before after)) h

    of_aside :
        Fits fs accounts aside c metas
        → CountedBy (λ k. uses k (before ++ (c ∷ after)) + uses_held k held) metas
    unfolding aside
    of_aside h =
        CountedBy-map _ _ metas
          (λ k. omega (arith, uses_append k before (c ∷ after), uses_append k before after)) h

  query-CountedBy :
      (u : Bytes → ℕ) (name : Bytes) (c : Client) (held : List Bytes) (metas : Metas fs accounts)
      → CountedBy (λ k. u k + uses_held k held) metas
      → CountedBy
          (λ k. u k + uses_held k (begin_query fs accounts name c held metas).1)
          (begin_query fs accounts name c held metas).2
  unfolding begin_query
  query-CountedBy u name c held metas h = elim (Option-cases (find_meta name metas)) [
    | inl e ↦ rw (e, begin_query) h
    | inr (m, e) ↦ elim (Bool-cases (check_permission accounts c m)) [
      | inr p ↦ rw (e, p, begin_query) h
      | inl p ↦ rw (e, p, begin_query) (inc-CountedBy _ _ name metas (λ k. omega arith) h)
    ]
  ]

  step-IsCounted : (s t : Server fs accounts) → Step fs accounts s t → IsCounted s → IsCounted t
  unfolding aside
  step-IsCounted s t (connect clients metas held name uid) h =
      CountedBy-map _ _ metas (λ k. omega (arith, uses_append k clients (new_client name uid ∷ [])))
        h
  step-IsCounted s t (disconnect before after c metas held) h =
      CountedBy-map _ _ metas
        (λ k. omega (
          arith,
          uses_append k before (c ∷ after),
          uses_append k before (record c { zombie = true } ∷ after),
        ))
        h
  step-IsCounted s t (call request before after c metas held free) h =
      let r = dispatch fs accounts request (before ++ after) c metas in
      of_aside before after r.1 r.2 held (
        dispatch-Fits fs accounts (λ k. uses k (before ++ after) + uses_held k held) request
          (before ++ after) c metas free (to_aside before after c metas held h))
  step-IsCounted s t (finish works before after c r metas held busy) h =
      let x = end_comparison fs accounts works r c metas in
      of_aside before after x.1 x.2 held (
        end_comparison-Fits fs accounts (λ k. uses k (before ++ after) + uses_held k held) works r c
          metas busy (to_aside before after c metas held h))
  step-IsCounted s t (remove mounted before after c metas left held gone free e) h =
      destroy-CountedBy (λ k. uses k (before ++ after) + uses_held k held) mounted c metas left free
        e (to_aside before after c metas held h)
  step-IsCounted s t (query name clients c metas held i) h =
      query-CountedBy (λ k. uses k clients) name c held metas h
  step-IsCounted s t (add_task m clients metas held i) h =
      inc-CountedBy _ _ m.config_name metas (λ k. omega arith) h
  step-IsCounted s t (release name clients metas before after) h =
      dec-CountedBy _ _ name metas
        (λ k.
          omega (arith, uses_held_append k before (name ∷ after), uses_held_append k before after))
        h

  -- snapperd has been started: no client is there and nothing is in use.
  abbrev pub IsInitial : Server fs accounts → Type 0
  IsInitial s = (s.clients ≡ []) × (s.held ≡ []) × All (λ m. m.use_count ≡ 0) s.metas

  -- Whatever the clients call, of the calls that are modelled, and in whatever order their calls are
  -- interleaved, each configuration has, at any time after the start, exactly as many uses as there are
  -- comparisons of it that a client holds or that are being made, calls of CalculateUsedSpace and
  -- QueryQuota that are running for it, and tasks of the background worker.
  pub reached-IsCounted :
      (s t : Server fs accounts) → IsInitial s → Steps fs accounts s t → IsCounted t
  reached-IsCounted s t i start = initial s.clients s.held s.metas i.0 i.1 i.2
    where
      initial :
          (clients : List Client) (held : List Bytes) (metas : Metas fs accounts)
          → clients ≡ []
          → held ≡ []
          → All (λ m. m.use_count ≡ 0) metas
          → CountedBy (λ k. uses k clients + uses_held k held) metas
      initial clients held [] e f h = tt
      initial clients held (m ∷ metas) e f h = (
        omega (arith, h.0, ap (uses m.config_name) e, ap (uses_held m.config_name) f),
        initial clients held metas e f h.1,
      )
  reached-IsCounted s t i (next u v before last) =
      step-IsCounted u v last (reached-IsCounted s u i before)
