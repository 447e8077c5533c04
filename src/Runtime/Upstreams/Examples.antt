-- ===== src/Runtime/Upstreams/Examples.antt =====
-- A pool that keeps one of its upstreams and gets another.
use l7rp.Base.{◌≡◌, refl, true, List, [], ◌∷◌, Option, some, arith, All, Str, bytes}
use l7rp.Base.Int.{pos}
use l7rp.Config.{UpstreamConfig}
use l7rp.Lb.Upstream.{Upstream}
use l7rp.Runtime.Upstreams.{Heap, by_url, fresh, build_upstreams_reusing}
use l7rp.Runtime.Upstreams.Reuse.{Extends, build_upstreams_reusing-Extends}
use l7rp.Runtime.Upstreams.Pointers.{Points, Weighs, build_upstreams_reusing-Points}

abbrev busy : Upstream
busy = record (fresh 0 (bytes "http://a") 3) { in_flight = 4; eligible = true }

abbrev heap : Heap
heap = record { upstreams = busy ∷ []; next = 1 }

abbrev parse : Str → Option Str
parse s = some s

abbrev cfgs : List UpstreamConfig
cfgs =
    record { url = bytes "http://b"; weight = pos 0 }
    ∷ record { url = bytes "http://a"; weight = pos 5 }
    ∷ []

built : (build_upstreams_reusing parse cfgs (busy ∷ []) heap).1 ≡ some (1 ∷ 0 ∷ [])
unfolding build_upstreams_reusing by_url
built = refl

build_upstreams_reusing-Extends_example :
    Extends heap (build_upstreams_reusing parse cfgs (busy ∷ []) heap).0
build_upstreams_reusing-Extends_example =
    build_upstreams_reusing-Extends parse (busy ∷ []) cfgs heap

build_upstreams_reusing-Points_example :
    Points parse (busy ∷ []) 1 cfgs (1 ∷ 0 ∷ [])
    × All (Weighs (build_upstreams_reusing parse cfgs (busy ∷ []) heap).0.upstreams) (1 ∷ 0 ∷ [])
build_upstreams_reusing-Points_example =
    build_upstreams_reusing-Points parse (busy ∷ []) cfgs heap (1 ∷ 0 ∷ []) (omega arith, tt) built
