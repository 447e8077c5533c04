-- ===== src/Middleware/RateLimit/Rate.antt =====
-- internal/middleware/ratelimit.go: how many requests of one key get through at once.
use l7rp.Base.{
  ℕ, zero, suc, ◌≤◌, ◌<◌, ◌≡◌, refl, inl, inr, List, [], ◌∷◌, Bool, true, false, arith,
  if◌then◌else◌, Bool-cases, Str, str_eq, str_eq_sound, ◌&&◌, Float64,
}
use l7rp.Middleware.RateLimit.{BucketMap, lookup, take_token, allow, new_bucket_map}
use l7rp.Middleware.RateLimit.Floats.{IsFloat}
use l7rp.Middleware.RateLimit.Held.{
  less, less_le, Holds, IsLimiter, met, after, after-new, allow-met, allow-IsLimiter,
  take_token-Holds, take_token-last_fill, bucket_at-reached, bucket_at-filled, bucket_at-Holds,
}

module _ (fl : Float64) (seconds : ℕ → fl.F) where
  -- The requests of `key` that get through, of those with the given keys at one instant.
  abbrev pub granted : Str → ℕ → BucketMap fl.F → List Str → ℕ
  granted key now bm [] = 0
  granted key now bm (k ∷ keys) =
      let (bm', allowed, _) = allow fl seconds k now bm in
      let rest = granted key now bm' keys in if allowed && str_eq k key then suc rest else rest

  module _ (laws : IsFloat fl seconds) (r n : ℕ) (r_pos : 0 < r) (r_small : r < 9007199254740992)
      (n_small : n < 9007199254740992) where
    granted-le :
        (key : Str) (now : ℕ) (bm : BucketMap fl.F) (keys : List Str) (hi : ℕ)
        → hi < 9007199254740992
        → IsLimiter fl seconds laws r n bm
        → Holds fl seconds hi (met fl seconds laws r n r_pos r_small n_small now key bm)
        → granted key now bm keys ≤ hi
    granted-le key now bm [] hi small v h = omega arith
    granted-le key now bm (k ∷ keys) hi small v h =
        let bm' = (allow fl seconds k now bm).0 in
        let v' = allow-IsLimiter fl seconds laws r n r_pos r_small n_small k now bm v in
        let (answer, found) = allow-met fl seconds laws r n r_pos r_small n_small k key now bm v in
        elim (Bool-cases (str_eq k key)) [
          | inr e ↦
              let same : met fl seconds laws r n r_pos r_small n_small now key bm'
                  ≡ met fl seconds laws r n r_pos r_small n_small now key bm =
                rw (found, e) refl in
              let rest = granted-le key now bm' keys hi small v' (rw same h) in
              rw e (if_no _ _ rest)
          | inl e ↦
              let eq : k ≡ key = str_eq_sound k key e in
              let b = met fl seconds laws r n r_pos r_small n_small now k bm in
              let taken = (take_token fl seconds (fl.of_int r) b).0 in
              let filled : now ≤ taken.last_fill =
                rw (take_token-last_fill fl seconds laws (fl.of_int r) b) (
                  bucket_at-reached fl seconds laws (fl.of_int r) (fl.of_int n) now
                    (lookup k bm.buckets)) in
              let kept : met fl seconds laws r n r_pos r_small n_small now key bm' ≡ taken =
                rw (found, e)
                  (bucket_at-filled fl seconds laws (fl.of_int r) (fl.of_int n) now taken filled) in
              let (left, some_left) =
                take_token-Holds fl seconds laws (fl.of_int r) hi b small (rw eq h) in
              elim (Bool-cases (take_token fl seconds (fl.of_int r) b).1) [
                | inl t ↦
                    let rest =
                      granted-le key now bm' keys (less hi) (omega (arith, less_le hi)) v'
                        (rw (kept) (rw t at left)) in
                    rw (answer, t, e) (paid hi _ (some_left t) rest)
                | inr t ↦
                    let rest = granted-le key now bm' keys hi small v' (rw (kept) (rw t at left)) in
                    rw (answer, t) rest
              ]
        ]
      where
        if_no : (a : Bool) (x : ℕ) → x ≤ hi → (if a && false then suc x else x) ≤ hi
        if_no true x p = p
        if_no false x p = p

        paid : (m x : ℕ) → 0 < m → x ≤ less m → suc x ≤ m
        paid zero x p q = absurd (omega arith)
        paid (suc m) x p q = omega arith

    -- Behind any history of a limiter, with whatever clock readings, of the requests that come at
    -- one instant, of any keys and in any order, at most `burst` of one key are let through: an
    -- idle client does not save up more than the burst. (The rate is positive, and rate and burst
    -- are below 2^53.)
    pub granted-burst :
        (key : Str) (now : ℕ) (past : List (Str × ℕ)) (keys : List Str)
        → granted key now (after fl seconds (new_bucket_map (fl.of_int r) (fl.of_int n)) past) keys
          ≤ n
    granted-burst key now past keys =
        let bm = after fl seconds (new_bucket_map (fl.of_int r) (fl.of_int n)) past in
        let v = after-new fl seconds laws r n r_pos r_small n_small past in
        granted-le key now bm keys n n_small v (
          bucket_at-Holds fl seconds laws r n now (lookup key bm.buckets) r_pos r_small n_small
            (v.held key))
