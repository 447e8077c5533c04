-- ===== src/Runtime/Settings/Order.antt =====
-- cmd/l7rp/main.go: buildMiddleware, which middlewares a route gets and in which order.
use l7rp.Base.{
  ℕ, zero, suc, ◌+◌, ◌≤◌, ◌≡◌, refl, Bool, false, ◌||◌, List, [], ◌∷◌, ◌++◌, Option, none, some,
  ◌==◌, if◌then◌else◌, arith, any, Str,
}
use l7rp.Base.Int.{pos, negsuc, ℤ}
use l7rp.Config.{RouteConfig, MiddlewareConfig}
use l7rp.Config.Validate.{is_some}
use l7rp.Runtime.Settings.{
  Middleware, request_id, access_log, panic_recover, rate_limit, timeout, retry, header_transform,
  compress, Slots, slot, slots, listed, total_timeout, build_middleware,
}

module _ {F : Type 0} where
  -- The place of a kind in the canonical order.
  abbrev pub place : Middleware F → ℕ
  place request_id = 0
  place (access_log route) = 1
  place panic_recover = 2
  place (rate_limit c route) = 3
  place (timeout t) = 4
  place (retry c) = 5
  place (header_transform c) = 6
  place (compress c) = 7

  -- The places rise, from `low` on.
  abbrev pub Rises : ℕ → List (Middleware F) → Type 0
  Rises low [] = Unit
  Rises low (m ∷ ms) = (low ≤ place m) × Rises (place m + 1) ms

  -- The kind of an entry: its first block, in the order of the switch.
  abbrev pub kind : MiddlewareConfig F → Option ℕ
  kind mw =
      if is_some mw.rate_limit
      then some 3
      else if is_some mw.retry
      then some 5
      else if is_some mw.header_transform
      then some 6
      else if is_some mw.compress
      then some 7
      else none

  abbrev pub is_kind : ℕ → MiddlewareConfig F → Bool
  is_kind k mw = elim (kind mw) [ none ↦ false | some j ↦ j == k ]

  abbrev HasPlace : ℕ → Option (Middleware F) → Type 0
  HasPlace k none = Unit
  HasPlace k (some m) = place m ≡ k

  record InPlace (s : Slots F) : Type 0 where
    at_rate_limit : HasPlace 3 s.rate_limit_mw
    at_retry : HasPlace 5 s.retry_mw
    at_header : HasPlace 6 s.header_mw
    at_compress : HasPlace 7 s.compress_mw

  filled : ℕ → Slots F → Bool
  filled k s =
      (if k == 3 then is_some s.rate_limit_mw else false)
      || ((if k == 5 then is_some s.retry_mw else false)
          || ((if k == 6 then is_some s.header_mw else false)
              || (if k == 7 then is_some s.compress_mw else false)))

  slot-InPlace :
      (route : Str) (mw : MiddlewareConfig F) (s : Slots F) → InPlace s → InPlace (slot route mw s)
  unfolding slot
  slot-InPlace route mw s v = ground arith

  filled-slot :
      (k : ℕ) (route : Str) (mw : MiddlewareConfig F) (s : Slots F)
      → filled k (slot route mw s) ≡ is_kind k mw || filled k s
  unfolding slot filled
  filled-slot k route mw s = ground arith

  slots-InPlace :
      (route : Str) (mws : List (MiddlewareConfig F)) (s : Slots F)
      → InPlace s
      → InPlace (slots route mws s)
  unfolding slots
  slots-InPlace route [] s v = v
  slots-InPlace route (mw ∷ mws) s v =
      slots-InPlace route mws (slot route mw s) (slot-InPlace route mw s v)

  filled-slots :
      (k : ℕ) (route : Str) (mws : List (MiddlewareConfig F)) (s : Slots F)
      → filled k (slots route mws s) ≡ any (is_kind k) mws || filled k s
  unfolding slots
  filled-slots k route [] s = refl
  filled-slots k route (mw ∷ mws) s =
      ground (arith, filled-slots k route mws (slot route mw s), filled-slot k route mw s)

  abbrev at_place : ℕ → Middleware F → Bool
  at_place k m = place m == k

  any-append :
      (p : Middleware F → Bool) (xs ys : List (Middleware F))
      → any p (xs ++ ys) ≡ any p xs || any p ys
  any-append p [] ys = refl
  any-append p (x ∷ xs) ys = ground (arith, any-append p xs ys)

  Rises-listed :
      (low k : ℕ) (o : Option (Middleware F)) (ms : List (Middleware F))
      → HasPlace k o
      → low ≤ k
      → Rises (k + 1) ms
      → Rises low (listed o ++ ms)
  Rises-listed low k none ms e h r = Rises-weaken low (k + 1) ms (omega arith) r
    where
      Rises-weaken : (lo hi : ℕ) (ms : List (Middleware F)) → lo ≤ hi → Rises hi ms → Rises lo ms
      Rises-weaken lo hi [] h r = tt
      Rises-weaken lo hi (m ∷ ms) h r = (omega (arith, r.0), r.1)
  Rises-listed low k (some m) ms e h r = (omega arith, rw e r)

  Rises-total_timeout :
      (t : ℤ) (ms : List (Middleware F)) → Rises 5 ms → Rises 4 (total_timeout t ++ ms)
  Rises-total_timeout (pos zero) ms r = Rises-listed 4 4 none ms tt (omega arith) r
  Rises-total_timeout (pos (suc n)) ms r = (omega arith, r)
  Rises-total_timeout (negsuc n) ms r = Rises-listed 4 4 none ms tt (omega arith) r

  any-listed :
      (k p : ℕ) (o : Option (Middleware F))
      → HasPlace p o
      → any (at_place k) (listed o) ≡ (if k == p then is_some o else false)
  any-listed k p none e = ground arith
  any-listed k p (some m) e = ground arith

any-total_timeout :
    (F : Type 0) (k : ℕ) (t : ℤ)
    → (k == 4) ≡ false
    → any (at_place {F = F} k) (total_timeout t) ≡ false
any-total_timeout F k (pos zero) h = refl
any-total_timeout F k (pos (suc n)) h = ground arith
any-total_timeout F k (negsuc n) h = refl

module _ {F : Type 0} where
  Rises-last : (o : Option (Middleware F)) → HasPlace 7 o → Rises 7 (listed o)
  Rises-last none e = tt
  Rises-last (some m) e = (omega arith, tt)

  abbrev behind : Slots F → ℤ → List (Middleware F)
  behind s t =
      listed s.rate_limit_mw
      ++ (total_timeout t ++ (listed s.retry_mw ++ (listed s.header_mw ++ listed s.compress_mw)))

  Rises-behind : (s : Slots F) (t : ℤ) → InPlace s → Rises 3 (behind s t)
  Rises-behind s t v = Rises-listed 3 3 s.rate_limit_mw _ v.at_rate_limit (omega arith) (
      Rises-total_timeout t _ (
        Rises-listed 5 5 s.retry_mw _ v.at_retry (omega arith) (
          Rises-listed 6 6 s.header_mw _ v.at_header (omega arith)
            (Rises-last s.compress_mw v.at_compress))))

  any-behind :
      (k : ℕ) (s : Slots F) (t : ℤ)
      → InPlace s
      → (k == 4) ≡ false
      → any (at_place k) (behind s t) ≡ filled k s
  unfolding filled
  any-behind k s t v h = simp (
    any-append,
    any-listed k 3 s.rate_limit_mw v.at_rate_limit,
    any-total_timeout F k t h,
    any-listed k 5 s.retry_mw v.at_retry,
    any-listed k 6 s.header_mw v.at_header,
    any-listed k 7 s.compress_mw v.at_compress,
  )

  -- However the entries of a route are ordered in the configuration, its middlewares stand in the
  -- canonical order (request id, access log, panic recovery, rate limit, timeout, retry, header
  -- transform, compression), each at most once; and one of the four that an entry configures is
  -- among them exactly when it is the first block of some entry.
  pub build_middleware-canonical :
      (rc : RouteConfig F) (k : ℕ)
      → 3 ≤ k
      → (k == 4) ≡ false
      → Rises 0 (build_middleware rc)
        × (any (at_place k) (build_middleware rc) ≡ any (is_kind k) rc.middleware)
  unfolding build_middleware filled
  build_middleware-canonical rc k low h =
      let none_yet : Slots F = record {
        rate_limit_mw = none;
        retry_mw = none;
        header_mw = none;
        compress_mw = none;
      } in
      let s = slots rc.name rc.middleware none_yet in
      let v =
        slots-InPlace rc.name rc.middleware none_yet
          (record { at_rate_limit = tt; at_retry = tt; at_header = tt; at_compress = tt }) in
      (
        (omega arith, (omega arith, (omega arith, Rises-behind s rc.timeouts.total v))),
        ground (
          arith,
          any-behind k s rc.timeouts.total v h,
          filled-slots k rc.name rc.middleware none_yet,
        ),
      )
