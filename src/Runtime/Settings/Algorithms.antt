-- ===== src/Runtime/Settings/Algorithms.antt =====
-- cmd/l7rp/main.go and internal/config/config.go: the algorithms that are built are those that pass
-- validation.
use l7rp.Base.{
  ℕ, ◌≡◌, refl, Bool, true, false, ◌||◌, [], ◌∷◌, Option, some, ◌==◌, if◌then◌else◌, arith, Str,
  bytes, str_eq, Float64,
}
use l7rp.Base.Int.{ℤ}
use l7rp.Config.{SelectorConfig}
use l7rp.Config.Validate.{known_algorithms, seen, is_some}
use l7rp.Runtime.Settings.{build_selector}

==_comm : (x y : ℕ) → (x == y) ≡ (y == x)
==_comm x y = ground arith

str_eq_comm : (s t : Str) → str_eq s t ≡ str_eq t s
str_eq_comm [] [] = refl
str_eq_comm [] (y ∷ t) = refl
str_eq_comm (x ∷ s) [] = refl
str_eq_comm (x ∷ s) (y ∷ t) = rw (==_comm x y) (rw (str_eq_comm s t))

is_some-if :
    {A : Type 0} (b : Bool) (x : A) (o : Option A)
    → is_some (if b then some x else o) ≡ b || is_some o
is_some-if true x o = refl
is_some-if false x o = refl

module _ (fl : Float64) (not_positive : fl.F → Bool) where
  built_at :
      (algorithm hash_key : Str) (half_life virtual_nodes : ℤ) (epsilon : fl.F)
      → is_some (
          build_selector fl not_positive (record {
            algorithm = algorithm;
            ewma_half_life = half_life;
            hash_key = hash_key;
            epsilon = epsilon;
            virtual_nodes = virtual_nodes;
          }))
        ≡ seen known_algorithms algorithm
  unfolding build_selector seen
  built_at [] hash_key half_life virtual_nodes epsilon = refl
  built_at (c ∷ s) hash_key half_life virtual_nodes epsilon =
      rw (str_eq_comm (bytes "round-robin") (c ∷ s)) (
        rw (str_eq_comm (bytes "weighted-rr") (c ∷ s)) (
          rw (str_eq_comm (bytes "least-conn") (c ∷ s)) (
            rw (str_eq_comm (bytes "p2c-ewma") (c ∷ s))
              (rw (str_eq_comm (bytes "consistent-hash-bounded") (c ∷ s)) (simp is_some-if)))))

-- A selector is built exactly for the algorithms that Validate knows, an empty name among them.
pub build_selector-known :
    (fl : Float64) (not_positive : fl.F → Bool) (cfg : SelectorConfig fl.F)
    → is_some (build_selector fl not_positive cfg) ≡ seen known_algorithms cfg.algorithm
build_selector-known fl not_positive cfg =
    built_at fl not_positive cfg.algorithm cfg.hash_key cfg.ewma_half_life cfg.virtual_nodes
      cfg.epsilon
