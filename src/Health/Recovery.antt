-- ===== src/Health/Recovery.antt =====
-- internal/health/monitor.go: how many probes in a row bring an upstream back, and how many take it
-- out.
use l7rp.Base.{
  suc, ◌+◌, ◌<◌, ◌≡◌, refl, ◌∙◌, sym, inl, inr, true, false, ◌&&◌, ◌||◌, not, List, [], ◌∷◌, arith,
  ltb, leb, Bool-cases, Float64, All, count_if, length, map,
}
use l7rp.Config.{ActiveHealthConfig, PassiveHealthConfig}
use l7rp.Health.{Watched, Answer, setting, record_result, probe, record_passive}
use l7rp.Health.Hysteresis.{
  Event, probed, served, is_healthy, is_success, step, run, probe-record_result, record_result_lem,
  record_passive-cases, needed,
}

module _ (fl : Float64) (cfg : ActiveHealthConfig) (passive : PassiveHealthConfig fl.F) where
  -- No probe fails.
  abbrev pub IsFine : Event → Type 0
  IsFine (probed a) = is_healthy cfg a ≡ true
  IsFine (served now is_error) = Unit

  healthy_probe :
      (u : Watched fl.F) (a : Answer)
      → is_healthy cfg a ≡ true
      → ((probe cfg a u).eligible
          ≡ (u.eligible || leb (setting cfg.healthy_threshold 2) (u.successes + 1)))
        × ((probe cfg a u).successes ≡ u.successes + 1)
  healthy_probe u a ok =
      let (flag, up, down) = record_result_lem fl cfg passive true u in
      rw (probe-record_result fl cfg passive a u, ok) (flag, up)

  unhealthy_probe :
      (u : Watched fl.F) (a : Answer)
      → is_healthy cfg a ≡ false
      → ((probe cfg a u).eligible
          ≡ (u.eligible && not (leb (setting cfg.unhealthy_threshold 3) (u.failures + 1))))
        × ((probe cfg a u).failures ≡ u.failures + 1)
  unhealthy_probe u a bad =
      let (flag, down, up) = record_result_lem fl cfg passive false u in
      rw (probe-record_result fl cfg passive a u, bad) (flag, up)

  waited :
      (u : Watched fl.F) (events : List Event)
      → u.eligible ≡ false
      → All IsFine events
      → u.successes + count_if (is_success cfg) events < needed fl cfg passive
      → ((run fl cfg passive u events).eligible ≡ false)
        × ((run fl cfg passive u events).successes ≡ u.successes + count_if (is_success cfg) events)
  unfolding run step
  waited u [] e fine h = (e, omega arith)
  waited u (probed a ∷ events) e fine h =
      let (flag, count) = healthy_probe u a fine.0 in
      let one_more : count_if (is_success cfg) (probed a ∷ events)
          ≡ suc (count_if (is_success cfg) events) =
        rw (fine.0) refl in
      let rest =
        waited (probe cfg a u) events (ground (arith, flag, one_more)) fine.1
          (omega (arith, count, one_more)) in
      (rest.0, omega (arith, rest.1, count, one_more))
  waited u (served now is_error ∷ events) e fine h =
      elim (record_passive-cases fl cfg passive now is_error u) [
        | inl (was, out, s, f) ↦ absurd (let clash : true ≡ false = sym was ∙ e in cc)
        | inr (same, s, f) ↦
            let rest =
              waited (record_passive fl passive now is_error u) events (same ∙ e) fine.1 (rw s h) in
            (rest.0, rest.1 ∙ rw s refl)
      ]

  -- Out of rotation with no success counted, as after Run has started or after a passive trip, an
  -- upstream whose probes do not fail is back with the last of the successful probes that it needs,
  -- whatever outcomes are recorded between them.
  pub run_recovers :
      (u : Watched fl.F) (events : List Event) (a : Answer)
      → u.eligible ≡ false
      → u.successes ≡ 0
      → All IsFine events
      → is_healthy cfg a ≡ true
      → count_if (is_success cfg) events + 1 ≡ needed fl cfg passive
      → ((run fl cfg passive u events).eligible ≡ false)
        × ((probe cfg a (run fl cfg passive u events)).eligible ≡ true)
  run_recovers u events a e z fine ok n =
      let before = waited u events e fine (omega arith) in
      (
        before.0,
        rw (probe-record_result fl cfg passive a (run fl cfg passive u events), ok)
            (unfold record_result in ground (arith, before.1)),
      )

  stays_out :
      (u : Watched fl.F) (answers : List Answer)
      → u.eligible ≡ false
      → All (λ a. is_healthy cfg a ≡ false) answers
      → (run fl cfg passive u (map probed answers)).eligible ≡ false
  unfolding run step
  stays_out u [] e bad = e
  stays_out u (a ∷ answers) e bad =
      let (flag, count) = unhealthy_probe u a bad.0 in
      stays_out (probe cfg a u) answers (ground (arith, flag)) bad.1

  -- In rotation, an upstream whose probes all fail goes out with the last of the failures that it is
  -- allowed, those before counted, and not sooner.
  pub run_fails :
      (u : Watched fl.F) (answers : List Answer)
      → u.eligible ≡ true
      → u.failures < setting cfg.unhealthy_threshold 3
      → All (λ a. is_healthy cfg a ≡ false) answers
      → (run fl cfg passive u (map probed answers)).eligible
        ≡ ltb (u.failures + length answers) (setting cfg.unhealthy_threshold 3)
  unfolding run step
  run_fails u [] e h bad = ground arith
  run_fails u (a ∷ answers) e h bad =
      let (flag, count) = unhealthy_probe u a bad.0 in
      elim (Bool-cases (leb (setting cfg.unhealthy_threshold 3) (u.failures + 1))) [
        | inl reached ↦
            stays_out (probe cfg a u) answers (ground (arith, flag)) bad.1 ∙ ground arith
        | inr below ↦
            run_fails (probe cfg a u) answers (ground (arith, flag)) (ground (arith, count)) bad.1
            ∙ rw count (ground arith)
      ]
