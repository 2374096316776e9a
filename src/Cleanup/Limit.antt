-- ===== src/Cleanup/Limit.antt =====
-- client/utils/Limit.h and Limit.cc: the limits on used and on free space. The type double and its
-- operations are parameters, with no law; a Limit is a tagged union.
use snapper.Base.{ℕ, Bool, true, ltb}

pub record Double : Type 1 where
  pub D : Type 0
  pub of_size : ℕ → D
  pub div : D → D → D
  pub lt : D → D → Bool
  pub nought : D
  pub one : D

pub data Limit (d : Double) : Type 0 where
  fraction : d.D → Limit d
  absolute : ℕ → Limit d

module _ (d : Double) where
  -- MaxUsedLimit::is_enabled
  pub max_used_enabled : Limit d → Bool
  max_used_enabled (fraction f) = d.lt f d.one
  max_used_enabled (absolute a) = true

  -- MaxUsedLimit::is_satisfied
  pub max_used_satisfied : Limit d → ℕ → ℕ → Bool
  max_used_satisfied (fraction f) size used = d.lt (d.div (d.of_size used) (d.of_size size)) f
  max_used_satisfied (absolute a) size used = ltb used a

  -- MinFreeLimit::is_enabled
  pub min_free_enabled : Limit d → Bool
  min_free_enabled (fraction f) = d.lt d.nought f
  min_free_enabled (absolute a) = ltb 0 a

  -- MinFreeLimit::is_satisfied
  pub min_free_satisfied : Limit d → ℕ → ℕ → Bool
  min_free_satisfied (fraction f) size free = d.lt f (d.div (d.of_size free) (d.of_size size))
  min_free_satisfied (absolute a) size free = ltb a free
