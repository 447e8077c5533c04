-- ===== src/Runtime/Reload/Keeping.antt =====
-- cmd/l7rp/main.go: when one heap of upstreams has grown out of another.
use mathlib.Core.List.{append_assoc, append-nil}
use l7rp.Base.{
  ℕ, ◌≡◌, refl, sym, ap, ◌∙◌, true, false, List, [], ◌∷◌, ◌++◌, ◌==◌, if◌then◌else◌, map, any,
  arith,
}
use l7rp.Lb.Upstream.{Upstream}
use l7rp.Runtime.Upstreams.{Heap}
use l7rp.Runtime.Upstreams.Reuse.{state, Extends}
use l7rp.Runtime.Pools.{set_eligible}

-- An upstream but for its weight and its flag: its breaker, latency and in-flight count.
abbrev pub core : Upstream → Upstream
core u = record u { weight = 0; eligible = false }

-- `heap'` holds the upstreams of `heap` in their order, and others behind them.
pub record Keeps (heap heap' : Heap) : Type 0 where
  pub added : List Upstream
  pub kept : map core heap'.upstreams ≡ map core heap.upstreams ++ added

pub Keeps-refl : (a : Heap) → Keeps a a
Keeps-refl a = record { added = []; kept = sym (append-nil (map core a.upstreams)) }

pub Keeps-trans : (a b c : Heap) → Keeps a b → Keeps b c → Keeps a c
Keeps-trans a b c x y = record {
  added = x.added ++ y.added;
  kept =
      y.kept ∙ ap (λ l. l ++ y.added) x.kept ∙ append_assoc (map core a.upstreams) x.added y.added;
}

map-core-state : (us : List Upstream) → map core (map state us) ≡ map core us
map-core-state [] = refl
map-core-state (u ∷ us) = ap (λ l. core u ∷ l) (map-core-state us)

map-core-append : (us vs : List Upstream) → map core (us ++ vs) ≡ map core us ++ map core vs
map-core-append [] vs = refl
map-core-append (u ∷ us) vs = ap (λ l. core u ∷ l) (map-core-append us vs)

pub Extends-Keeps : (a b : Heap) → Extends a b → Keeps a b
Extends-Keeps a b x = record {
  added = map core (map state x.added);
  kept =
      sym (map-core-state b.upstreams)
      ∙ ap (map core) x.kept
      ∙ map-core-append (map state a.upstreams) (map state x.added)
      ∙ ap (λ l. l ++ map core (map state x.added)) (map-core-state a.upstreams);
}

map-core-set_eligible :
    (ids : List ℕ) (us : List Upstream)
    → map core
        (map (λ u. if any (λ id. u.id == id) ids then record u { eligible = true } else u) us)
      ≡ map core us
map-core-set_eligible ids [] = refl
map-core-set_eligible ids (u ∷ us) = ground (arith, map-core-set_eligible ids us)

pub set_eligible-Keeps : (ids : List ℕ) (a : Heap) → Keeps a (set_eligible ids a)
unfolding set_eligible
set_eligible-Keeps ids a = record {
  added = [];
  kept = map-core-set_eligible ids a.upstreams ∙ sym (append-nil (map core a.upstreams));
}
