-- ===== src/Health.antt =====
-- internal/health/monitor.go: the monitor of one pool. The states run parallel to the pool, so an
-- upstream, told by its id, stands here together with its probeState; the upstream's flag `eligible`
-- is a part of it. A probe that is sent is told by how it came back.
pub mod Hysteresis
pub mod Recovery
pub mod Overlap
mod Examples
use l7rp.Base.{
  ℕ, zero, suc, ◌+◌, ◌-◌, Bool, true, false, ◌&&◌, ◌||◌, not, List, [], ◌∷◌, Option, none, some,
  ◌==◌, ltb, leb, if◌then◌else◌, Float64, any, map,
}
use l7rp.Base.Int.{ℤ, pos, negsuc}
use l7rp.Config.{ActiveHealthConfig, PassiveHealthConfig}

pub record Watched (F : Type 0) : Type 0 where
  pub id : ℕ
  pub eligible : Bool
  pub successes : ℕ
  pub failures : ℕ
  pub err_ewma : F
  pub last_passive : Option ℕ  -- the zero time is `none`

-- How a probe came back.
pub data Answer : Type 0 where
  build_failed request_failed : Answer
  status : ℕ → Answer

-- `success`, `successes` and `failures` of recordResult, behind its lock.
pub record Counted : Type 0 where
  pub success : Bool
  pub successes : ℕ
  pub failures : ℕ

-- A setting that is not positive stands for its default.
abbrev pub setting : ℤ → ℕ → ℕ
setting (pos zero) default = default
setting (pos (suc n)) default = suc n
setting (negsuc n) default = default

unfoldable pub status_accepted : ℕ → List ℕ → Bool
status_accepted got [] = got == 200
status_accepted got (code ∷ codes) = any (λ c. got == c) (code ∷ codes)

module _ {F : Type 0} where
  -- recordResult up to the unlocking of `state.mu`.
  unfoldable pub count_result : Bool → Watched F → Watched F
  count_result true u = record u { successes = u.successes + 1; failures = 0 }
  count_result false u = record u { successes = 0; failures = u.failures + 1 }

  -- Its rest, with the counts that were read under the lock. Here other calls may have come between.
  unfoldable pub set_flag : ActiveHealthConfig → Counted → Watched F → Watched F
  set_flag cfg c u =
      if c.success && leb (setting cfg.healthy_threshold 2) c.successes && not u.eligible
      then record u { eligible = true }
      else (if not c.success && leb (setting cfg.unhealthy_threshold 3) c.failures && u.eligible
          then record u { eligible = false }
          else u)

  -- A call that nothing comes into.
  unfoldable pub record_result : ActiveHealthConfig → Bool → Watched F → Watched F
  unfolding count_result set_flag
  record_result cfg success u =
      let u' = count_result success u in
      set_flag cfg (record { success = success; successes = u'.successes; failures = u'.failures })
        u'

  -- The method probe, from the answer on.
  unfoldable pub probe : ActiveHealthConfig → Answer → Watched F → Watched F
  unfolding record_result status_accepted
  probe cfg build_failed u = record_result cfg false u
  probe cfg request_failed u = record_result cfg false u
  probe cfg (status code) u = record_result cfg (status_accepted code cfg.expected_status) u

  -- What Run does to the pool before it sends probes.
  unfoldable pub start : List (Watched F) → List (Watched F)
  start [] = []
  start (u ∷ pool) = record u { eligible = false } ∷ start pool

-- RecordOutcome for the upstream at its index.
module _ (fl : Float64) where
  unfoldable pub alpha : (now half_life : ℕ) → Option ℕ → fl.F
  alpha now half_life none = fl.of_int 1
  alpha now half_life (some last) =
      fl.sub (fl.of_int 1) (fl.exp_neg (fl.div (fl.of_int (now - last)) (fl.of_int half_life)))

  unfoldable pub score : PassiveHealthConfig fl.F → ℕ → Bool → Watched fl.F → fl.F
  unfolding alpha
  score passive now is_error u =
      let a = alpha now (setting passive.half_life 30000000000) u.last_passive in
      let sample = if is_error then fl.of_int 1 else fl.of_int 0 in
      fl.add (fl.mul a sample) (fl.mul (fl.sub (fl.of_int 1) a) u.err_ewma)

  -- A threshold of 0 or less is 0.5 (NaN aside).
  unfoldable pub error_threshold : PassiveHealthConfig fl.F → fl.F
  error_threshold passive =
      if fl.lt (fl.of_int 0) passive.error_threshold
      then passive.error_threshold
      else fl.div (fl.of_int 1) (fl.of_int 2)

  unfoldable pub record_passive : PassiveHealthConfig fl.F → ℕ → Bool → Watched fl.F → Watched fl.F
  unfolding score error_threshold
  record_passive passive now is_error u =
      let scored = record u { err_ewma = score passive now is_error u; last_passive = some now } in
      if fl.lt (error_threshold passive) scored.err_ewma && u.eligible
      then record scored { eligible = false; successes = 0; failures = 0 }
      else scored

  unfoldable pub record_outcome :
      Option (PassiveHealthConfig fl.F)
      → ℕ
      → (id : ℕ) → Bool
      → List (Watched fl.F)
      → List (Watched fl.F)
  unfolding record_passive
  record_outcome none now id is_error pool = pool
  record_outcome (some passive) now id is_error [] = []
  record_outcome (some passive) now id is_error (u ∷ pool) =
      let rest = record_outcome (some passive) now id is_error pool in
      if u.id == id then record_passive passive now is_error u ∷ pool else u ∷ rest
