-- ===== src/Health/Examples.antt =====
-- A monitor that wants two successes and allows three failures, on one upstream.
use l7rp.Base.{◌≡◌, refl, true, false, List, [], ◌∷◌, none, arith, bytes}
use l7rp.Base.Int.{pos}
use l7rp.Base.Ratio.{ratio}
use l7rp.Config.{ActiveHealthConfig, PassiveHealthConfig}
use l7rp.Health.{Watched, status, probe, status_accepted, count_result, set_flag}
use l7rp.Health.Hysteresis.{Event, probed, served, run}
use l7rp.Health.Overlap.{Move, counted, flagged, outcome, Recording, overlap, overlap_waits}
use l7rp.Health.Recovery.{run_recovers}

abbrev active : ActiveHealthConfig
active = record {
  path = bytes "/healthz";
  method = bytes "GET";
  interval = pos 2000;
  timeout = pos 1000;
  healthy_threshold = pos 2;
  unhealthy_threshold = pos 0;
  expected_status = 200 ∷ 204 ∷ [];
}

abbrev passive : PassiveHealthConfig ratio.F
passive = record { error_threshold = (1, 2); latency_p99_threshold = pos 0; half_life = pos 1000 }

abbrev fresh : Watched ratio.F
fresh = record {
  id = 1;
  eligible = false;
  successes = 0;
  failures = 0;
  err_ewma = (0, 1);
  last_passive = none;
}

abbrev serving : Watched ratio.F
serving = record fresh { eligible = true; failures = 1 }

abbrev events : List Event
events = served 5 true ∷ probed (status 200) ∷ served 9 false ∷ []

-- A success is counted, then a failure; the second half of the one comes behind that of the other.
abbrev moves : List Move
moves = counted true ∷ counted false ∷ flagged 0 ∷ outcome 7 true ∷ flagged 0 ∷ []

abbrev recording : Recording ratio.F
recording = record { upstream = fresh; pending = [] }

overlap_waits_example : (overlap ratio active passive recording moves).upstream.eligible ≡ false
overlap_waits_example = overlap_waits ratio active passive recording moves refl tt (omega arith)

-- A second success that is counted brings the upstream back although three failures come between
-- its halves.
abbrev late : List Move
late =
    counted true
    ∷ counted true
    ∷ counted false
    ∷ counted false
    ∷ counted false
    ∷ flagged 0
    ∷ flagged 2
    ∷ []

stale_success :
    ((overlap ratio active passive recording late).upstream.eligible ≡ true)
    × ((overlap ratio active passive recording late).upstream.failures ≡ 3)
unfolding overlap count_result set_flag
stale_success = (refl, refl)

run_recovers_example :
    ((run ratio active passive fresh events).eligible ≡ false)
    × ((probe active (status 204) (run ratio active passive fresh events)).eligible ≡ true)
unfolding status_accepted
run_recovers_example =
    run_recovers ratio active passive fresh events (status 204) refl refl (tt, (refl, (tt, tt)))
      refl refl
