-- ===== src/Health/Hysteresis.antt =====
-- internal/health/monitor.go: when an upstream goes in and out of rotation.
use l7rp.Base.{
  ℕ, zero, suc, ◌+◌, ◌≤◌, ◌<◌, ◌≡◌, refl, ◌∙◌, inl, inr, ◌⊎◌, Bool, true, false, ◌&&◌, ◌||◌, not,
  leb, List, [], ◌∷◌, arith, if◌then◌else◌, Bool-cases, Float64, count_if,
}
use l7rp.Base.Int.{ℤ, pos, negsuc}
use l7rp.Config.{ActiveHealthConfig, PassiveHealthConfig}
use l7rp.Health.{
  Watched, Answer, build_failed, request_failed, status, setting, status_accepted, record_result,
  count_result, set_flag, probe, record_passive, error_threshold, score,
}

-- What an upstream sees: a probe that came back, or the outcome of a request that it served.
pub data Event : Type 0 where
  probed : Answer → Event
  served : (now : ℕ) → (is_error : Bool) → Event

pub setting_pos : (z : ℤ) (d : ℕ) → 0 < d → 0 < setting z d
setting_pos (pos zero) d h = h
setting_pos (pos (suc n)) d h = omega arith
setting_pos (negsuc n) d h = h

-- A probe that counts as a success.
abbrev pub is_healthy : ActiveHealthConfig → Answer → Bool
is_healthy cfg (status code) = status_accepted code cfg.expected_status
is_healthy cfg build_failed = false
is_healthy cfg request_failed = false

abbrev pub is_success : ActiveHealthConfig → Event → Bool
is_success cfg (probed a) = is_healthy cfg a
is_success cfg (served now e) = false

-- The counters stay below the thresholds that they would act on.
pub record IsSettled {F : Type 0} (cfg : ActiveHealthConfig) (u : Watched F) : Type 0 where
  pub one_run : (u.successes ≡ 0) ⊎ (u.failures ≡ 0)
  pub waiting : u.eligible ≡ false → u.successes < setting cfg.healthy_threshold 2
  pub tolerated : u.eligible ≡ true → u.failures < setting cfg.unhealthy_threshold 3

module _ (fl : Float64) (cfg : ActiveHealthConfig) (passive : PassiveHealthConfig fl.F) where
  unfoldable pub step : Watched fl.F → Event → Watched fl.F
  step u (probed a) = probe cfg a u
  step u (served now is_error) = record_passive fl passive now is_error u

  unfoldable pub run : Watched fl.F → List Event → Watched fl.F
  run u [] = u
  run u (e ∷ events) = run (step u e) events

  pub probe-record_result :
      (a : Answer) (u : Watched fl.F) → probe cfg a u ≡ record_result cfg (is_healthy cfg a) u
  unfolding probe
  probe-record_result build_failed u = refl
  probe-record_result request_failed u = refl
  probe-record_result (status code) u = refl

  -- What the two halves of recordResult come to when nothing comes between them.
  pub record_result_lem :
      (ok : Bool) (u : Watched fl.F)
      → ((record_result cfg ok u).eligible ≡ (
          if ok
          then u.eligible || leb (setting cfg.healthy_threshold 2) (u.successes + 1)
          else u.eligible && not (leb (setting cfg.unhealthy_threshold 3) (u.failures + 1))))
        × ((record_result cfg ok u).successes ≡ (if ok then u.successes + 1 else 0))
        × ((record_result cfg ok u).failures ≡ (if ok then 0 else u.failures + 1))
  unfolding record_result count_result set_flag
  record_result_lem true u = (ground arith, ground arith, ground arith)
  record_result_lem false u = (ground arith, ground arith, ground arith)

  record_result-IsSettled :
      (ok : Bool) (u : Watched fl.F) → IsSettled cfg u → IsSettled cfg (record_result cfg ok u)
  record_result-IsSettled true u v =
      let some_failure = setting_pos cfg.unhealthy_threshold 3 (omega arith) in
      let (flag, up, down) = record_result_lem true u in
      record {
        one_run = inr down;
        waiting = λ h. ground (arith, flag, up);
        tolerated = λ h. rw down some_failure;
      }
  record_result-IsSettled false u v =
      let some_success = setting_pos cfg.healthy_threshold 2 (omega arith) in
      let (flag, down, up) = record_result_lem false u in
      record {
        one_run = inl down;
        waiting = λ h. rw down some_success;
        tolerated = λ h. ground (arith, flag, up);
      }

  -- An outcome either takes the upstream out and clears its counters, or leaves these three alone.
  pub record_passive-cases :
      (now : ℕ) (is_error : Bool) (u : Watched fl.F)
      → let u' = record_passive fl passive now is_error u in
        ((u.eligible ≡ true) × (u'.eligible ≡ false) × (u'.successes ≡ 0) × (u'.failures ≡ 0))
        ⊎ ((u'.eligible ≡ u.eligible) × (u'.successes ≡ u.successes) × (u'.failures ≡ u.failures))
  unfolding record_passive
  record_passive-cases now is_error u =
      elim (Bool-cases
        (fl.lt (error_threshold fl passive) (score fl passive now is_error u) && u.eligible)) [
          | inl e ↦ inl (
            both (fl.lt (error_threshold fl passive) (score fl passive now is_error u)) u.eligible
                e,
            rw (record_passive, e) refl,
            rw (record_passive, e) refl,
            rw (record_passive, e) refl,
          )
          | inr e ↦ inr (rw (record_passive, e) (refl, refl, refl))
        ]
    where
      both : (a b : Bool) → (a && b) ≡ true → b ≡ true
      both a b h = ground arith

  record_passive-IsSettled :
      (now : ℕ) (is_error : Bool) (u : Watched fl.F)
      → IsSettled cfg u
      → IsSettled cfg (record_passive fl passive now is_error u)
  record_passive-IsSettled now is_error u v =
      let some_success = setting_pos cfg.healthy_threshold 2 (omega arith) in
      let some_failure = setting_pos cfg.unhealthy_threshold 3 (omega arith) in
      elim (record_passive-cases now is_error u) [
        | inl (was, e, s, f) ↦ record {
          one_run = inl s;
          waiting = λ h. rw s some_success;
          tolerated = λ h. rw f some_failure;
        }
        | inr (e, s, f) ↦ record {
          one_run = rw (s, f) (v.one_run);
          waiting = λ h. rw s (v.waiting (rw e at h));
          tolerated = λ h. rw f (v.tolerated (rw e at h));
        }
      ]

  -- When this holds at the start and the results of probes are recorded one behind the other,
  -- whatever they are and whatever requests come between: one of an upstream's two counters is 0;
  -- while it is out of rotation it has fewer successes in a row than it needs, and while it is in
  -- rotation fewer failures than it is allowed.
  pub run-IsSettled :
      (u : Watched fl.F) (events : List Event) → IsSettled cfg u → IsSettled cfg (run u events)
  unfolding run step
  run-IsSettled u [] v = v
  run-IsSettled u (probed a ∷ events) v =
      run-IsSettled (probe cfg a u) events
        (rw (probe-record_result a u) (record_result-IsSettled (is_healthy cfg a) u v))
  run-IsSettled u (served now e ∷ events) v =
      run-IsSettled (record_passive fl passive now e u) events (record_passive-IsSettled now e u v)

  -- The threshold that has to be reached.
  abbrev pub needed : ℕ
  needed = setting cfg.healthy_threshold 2

  record_result-waits :
      (ok : Bool) (u : Watched fl.F)
      → u.eligible ≡ false
      → u.successes + (if ok then 1 else 0) < needed
      → ((record_result cfg ok u).eligible ≡ false)
        × ((record_result cfg ok u).successes ≤ u.successes + (if ok then 1 else 0))
  record_result-waits true u e h =
      let (flag, up, down) = record_result_lem true u in (ground (arith, flag), omega (arith, up))
  record_result-waits false u e h =
      let (flag, down, up) = record_result_lem false u in
      (ground (arith, flag), omega (arith, down))

  successes_of : Event → ℕ
  successes_of e = if is_success cfg e then 1 else 0

  -- Out of rotation, an upstream stays out as long as it has had fewer successful probes than it
  -- needs, whatever else happens: no outcome of a request brings it back.
  pub run_waits :
      (u : Watched fl.F) (events : List Event)
      → u.eligible ≡ false
      → u.successes + count_if (is_success cfg) events < needed
      → (run u events).eligible ≡ false
  unfolding run step
  run_waits u [] e h = e
  run_waits u (probed a ∷ events) e h =
      let now = record_result-waits (is_healthy cfg a) u e (ground arith) in
      run_waits (probe cfg a u) events (rw (probe-record_result a u) now.0)
        (rw (probe-record_result a u) (ground (arith, now.1)))
  run_waits u (served now is_error ∷ events) e h = elim (record_passive-cases now is_error u) [
    | inl (was, out, s, f) ↦
        run_waits (record_passive fl passive now is_error u) events out (rw s (omega arith))
    | inr (same, s, f) ↦
        run_waits (record_passive fl passive now is_error u) events (same ∙ e) (rw s h)
  ]
