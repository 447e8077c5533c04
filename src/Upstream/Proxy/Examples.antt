-- ===== src/Upstream/Proxy/Examples.antt =====
-- Requests that overlap on a pool of one upstream, and the attempts of a retried one.
use l7rp.Base.{ℕ, refl, true, false, List, [], ◌∷◌, bytes, if◌then◌else◌, ltb}
use l7rp.Base.Ratio.{ratio}
use l7rp.Lb.Breaker.{new_circuit_breaker, CircuitBreakerConfig}
use l7rp.Lb.Upstream.{Upstream}
use l7rp.Lb.RoundRobin.{choose_round_robin}
use l7rp.Lb.RoundRobin.Rotation.{round_robin-IsChooser}
use l7rp.Middleware.Retry.{RetryConfig, AttemptInfo, absent, serve_sequential}
use l7rp.Middleware.Retry.Attempts.{choices, IsFresh}
use l7rp.Upstream.Proxy.{alive, transport_error, response}
use l7rp.Upstream.Proxy.Balance.{
  Step, begins, answers, switches, releases, System, IsBalanced, run, run-IsBalanced,
}
use l7rp.Upstream.Proxy.Exclusion.{World, attempt, attempts-IsFresh}

abbrev small : CircuitBreakerConfig ratio.F
small = record {
  failure_ratio = (1, 2);
  min_observations = 2;
  window_duration = 100;
  window_size = 3;
  open_min = 10;
  open_max = 40;
  half_open_probes = 2;
}

abbrev backend : ℕ → Upstream
backend id = record {
  id = id;
  url = bytes "http://backend";
  weight = 1;
  eligible = true;
  in_flight = 0;
  latency_ewma = 0;
  last_update = 0;
  breaker = new_circuit_breaker;
}

abbrev idle : System ℕ
idle = record { selector = 0; pool = backend 1 ∷ backend 2 ∷ []; open_requests = [] }

abbrev overlapping : List (Step ℕ)
overlapping =
    begins choose_round_robin 1 1 [] false
    ∷ begins choose_round_robin 2 2 [] false
    ∷ answers 3 3 (response 200) 1
    ∷ switches 4 4 2
    ∷ releases 1
    ∷ releases 1
    ∷ []

run-IsBalanced_example : IsBalanced (run ratio small idle overlapping)
run-IsBalanced_example = run-IsBalanced ratio small idle overlapping (refl, (refl, tt))

abbrev policy : RetryConfig
policy = record {
  max_attempts = 3;
  retry_methods = bytes "GET" ∷ [];
  retry_on = 502 ∷ 503 ∷ [];
  max_replayable_body = 4;
  hedge_after = 0;
  hedgeable_methods = [];
}

-- The first attempt fails, the second is answered.
abbrev world : AttemptInfo → World ℕ
world info = record {
  selector = info.number;
  pool = backend 1 ∷ backend 2 ∷ [];
  now = info.number;
  t = info.number;
  trip = if ltb info.number 2 then transport_error alive else response 200;
  header = [];
  trailer = [];
  reads = (bytes "ok", true) ∷ [];
}

attempts-IsFresh_example :
    let next = attempt ratio small choose_round_robin false world in
    IsFresh next policy [] (choices next policy (serve_sequential next policy absent 3).dispatched)
attempts-IsFresh_example =
    attempts-IsFresh ratio small choose_round_robin policy false world absent 3
      round_robin-IsChooser
