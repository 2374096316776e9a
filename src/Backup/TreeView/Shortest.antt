-- ===== src/Backup/TreeView/Shortest.antt =====
-- What TreeView::find_nearest_valid_node (client/snbk/TreeView.cc) finds: the queue holds nodes in the
-- order of their distances.
use snapper.Base.{Bytes, ℕ, suc, ◌≤◌, ltb, ◌≡◌, ◌⊎◌, Bool, false, ◌&&◌, List, [], ◌∷◌, In}

abbrev Visits : Type 0
Visits = List (Bytes × ℕ)

-- Every distance is d or one more, and they do not fall.
abbrev IsLevel : ℕ → Visits → Type 0
IsLevel d [] = Unit {0}
IsLevel d (e ∷ l) = (d ≤ e.1) × (e.1 ≤ suc d) × IsLevel d l × ((x : Bytes × ℕ) → In x l → e.1 ≤ x.1)

module _ (next : Bytes → List Bytes) (valid : Bytes → Bool) (start : Bytes) where
  -- A walk along neighbours, with its length.
  pub data Walk : Bytes → ℕ → Type 0 where
    here : Walk start 0
    step : (u v : Bytes) (d : ℕ) → Walk u d → In v (next u) → Walk v (suc d)

  -- Something is visited at this distance, or it waits.
  abbrev IsSeen : Visits → Visits → Bytes → ℕ → Type 0
  IsSeen done queue v k = (n : ℕ) × (In (v, n) done ⊎ In (v, n) queue) × (n ≤ k)

  -- What the loop keeps, with what it has taken from the queue.
  record Keeps (done queue : Visits) (visited : List Bytes) : Type 0 where
    started : IsSeen done queue start 0
    closed : (u v : Bytes) (n : ℕ) → In (u, n) done → In v (next u) → IsSeen done queue v (suc n)
    known : (v : Bytes) → In v visited → (n : ℕ) × (In (v, n) done ⊎ In (v, n) queue)
    refused : (u : Bytes) (n : ℕ) → In (u, n) done → (ltb 0 n && valid u) ≡ false
    nought : (u : Bytes) → In (u, 0) done ⊎ In (u, 0) queue → u ≡ start
    walked : (e : Bytes × ℕ) → In e queue → Walk e.0 e.1

  -- Pushing leaves what waits, at the front, and adds unvisited neighbours at the next distance.
  record Pushed (d : ℕ) (u : Bytes) (us : List Bytes) (queue : Visits) (visited : List Bytes)
      (q : Visits) (s : List Bytes) : Type 0 where
    level : IsLevel d queue → IsLevel d q
    stays : (e : Bytes × ℕ) → In e queue → In e q
    new : (e : Bytes × ℕ) → In e q → In e queue ⊎ (In e.0 us × (e.1 ≡ suc d))
    seen : (v : Bytes) → In v us → In v visited ⊎ In (v, suc d) q
    grown : (v : Bytes) → In v s → In v visited ⊎ In (v, suc d) q
