-- ===== src/Health/Overlap.antt =====
-- internal/health/monitor.go: the results of several probes of one upstream that are recorded at
-- once, as when the first probe, which is delayed, meets one of the ticker. recordResult gives the
-- lock back before it reads and sets the flag, so the halves of the calls come in any order.
use l7rp.Base.{
  ℕ, zero, suc, ◌+◌, ◌<◌, ◌≡◌, refl, ◌∙◌, inl, inr, Bool, true, false, List, [], ◌∷◌, Option, none,
  some, arith, All, Float64,
}
use l7rp.Config.{ActiveHealthConfig, PassiveHealthConfig}
use l7rp.Health.{Watched, Counted, setting, count_result, set_flag, record_passive}
use l7rp.Health.Hysteresis.{record_passive-cases, needed}

-- What happens next: a probe's result is counted, the i-th of the calls that have counted sets the
-- flag, or a request's outcome is recorded.
pub data Move : Type 0 where
  counted : (success : Bool) → Move
  flagged : (i : ℕ) → Move
  outcome : (now : ℕ) → (is_error : Bool) → Move

-- The upstream, and the calls of recordResult that have counted and not yet read the flag.
pub record Recording (F : Type 0) : Type 0 where
  pub upstream : Watched F
  pub pending : List Counted

nth : {A : Type 0} → ℕ → List A → Option A
nth i [] = none
nth zero (x ∷ xs) = some x
nth (suc i) (x ∷ xs) = nth i xs

without : {A : Type 0} → ℕ → List A → List A
without i [] = []
without zero (x ∷ xs) = xs
without (suc i) (x ∷ xs) = x ∷ without i xs

module _ {F : Type 0} (cfg : ActiveHealthConfig) where
  unfoldable settle : Option Counted → Watched F → Watched F
  settle none u = u
  settle (some c) u = set_flag cfg c u

  unfoldable count : Bool → Recording F → Recording F
  count success r =
      let u = count_result success r.upstream in
      record {
        upstream = u;
        pending =
            record { success = success; successes = u.successes; failures = u.failures }
            ∷ r.pending;
      }

-- The calls that have counted a success have not counted the last one that is needed.
abbrev pub IsShort : ℕ → Counted → Type 0
IsShort needed c = c.success ≡ true → c.successes < needed

abbrev pub successes_in : List Move → ℕ
successes_in [] = 0
successes_in (counted true ∷ moves) = suc (successes_in moves)
successes_in (_ ∷ moves) = successes_in moves

All-without : {A : Type 0} (P : A → Type 0) (i : ℕ) (xs : List A) → All P xs → All P (without i xs)
unfolding without
All-without P i [] h = tt
All-without P zero (x ∷ xs) h = h.1
All-without P (suc i) (x ∷ xs) h = (h.0, All-without P i xs h.1)

abbrev OfOption : {A : Type 0} → (A → Type 0) → Option A → Type 0
OfOption P none = Unit
OfOption P (some x) = P x

All-nth : {A : Type 0} (P : A → Type 0) (i : ℕ) (xs : List A) → All P xs → OfOption P (nth i xs)
unfolding nth
All-nth P i [] h = tt
All-nth P zero (x ∷ xs) h = h.0
All-nth P (suc i) (x ∷ xs) h = All-nth P i xs h.1

module _ (fl : Float64) (cfg : ActiveHealthConfig) (passive : PassiveHealthConfig fl.F) where
  unfoldable move : Recording fl.F → Move → Recording fl.F
  move r (counted success) = count cfg success r
  move r (flagged i) = record {
    upstream = settle cfg (nth i r.pending) r.upstream;
    pending = without i r.pending;
  }
  move r (outcome now is_error) = record r {
    upstream = record_passive fl passive now is_error r.upstream;
  }

  unfoldable pub overlap : Recording fl.F → List Move → Recording fl.F
  unfolding move settle count nth without
  overlap r [] = r
  overlap r (m ∷ moves) = overlap (move r m) moves

  settle-waits :
      (o : Option Counted) (u : Watched fl.F)
      → OfOption (IsShort (setting cfg.healthy_threshold 2)) o
      → u.eligible ≡ false
      → ((settle cfg o u).eligible ≡ false) × ((settle cfg o u).successes ≡ u.successes)
  unfolding settle set_flag
  settle-waits none u h e = (e, refl)
  settle-waits (some c) u h e = (ground (arith, h), ground arith)

  -- An upstream that is out of rotation stays out as long as the successes that it has counted and
  -- those that its probes still count are together fewer than it needs, in whatever order the
  -- halves of the calls of recordResult come, failures and outcomes of requests among them, and
  -- however many calls have counted at the start, when none of these has reached the number.
  pub overlap_waits :
      (r : Recording fl.F) (moves : List Move)
      → r.upstream.eligible ≡ false
      → All (IsShort (setting cfg.healthy_threshold 2)) r.pending
      → r.upstream.successes + successes_in moves < setting cfg.healthy_threshold 2
      → (overlap r moves).upstream.eligible ≡ false
  unfolding overlap move count count_result
  overlap_waits r [] e w h = e
  overlap_waits r (counted true ∷ moves) e w h =
      overlap_waits (count cfg true r) moves e (λ t. omega arith, w) (omega arith)
  overlap_waits r (counted false ∷ moves) e w h =
      overlap_waits (count cfg false r) moves e (λ t. absurd (cc), w) (omega arith)
  overlap_waits r (flagged i ∷ moves) e w h =
      let P = IsShort (setting cfg.healthy_threshold 2) in
      let (flag, same) = settle-waits (nth i r.pending) r.upstream (All-nth P i r.pending w) e in
      overlap_waits (move r (flagged i)) moves flag (All-without P i r.pending w)
        (omega (arith, same))
  overlap_waits r (outcome now is_error ∷ moves) e w h =
      elim (record_passive-cases fl cfg passive now is_error r.upstream) [
        | inl (was, out, s, f) ↦
            overlap_waits (move r (outcome now is_error)) moves out w (rw s (omega arith))
        | inr (same, s, f) ↦
            overlap_waits (move r (outcome now is_error)) moves (same ∙ e) w (rw s h)
      ]
