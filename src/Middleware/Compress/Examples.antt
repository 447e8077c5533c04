-- ===== src/Middleware/Compress/Examples.antt =====
-- A negotiation, and a response written in portions.
use l7rp.Base.{
  ℕ, ◌<◌, ◌≤◌, ◌≡◌, refl, ◌⊎◌, List, [], ◌∷◌, Option, none, some, ltb, ◌==◌, if◌then◌else◌, Has,
  Str, bytes, str_eq,
}
use l7rp.Base.Int.{pos}
use l7rp.Middleware.Compress.{
  Quality, Encoding, encoding_none, encoding_zstd, rank, pick_encoding, Settings, settings, close,
  fresh, Call, calls, writes_header, writes, flushes,
}
use l7rp.Middleware.Compress.Negotiation.{IsFloat, Offers, directives, pick_encoding_best}
use l7rp.Middleware.Compress.Streaming.{written, first_status, response_kept}

-- Tenths, from -1 on.
abbrev parse_tenths : Str → Option ℕ
parse_tenths s =
    if str_eq s (bytes "0")
    then some 10
    else if str_eq s (bytes "0.5")
    then some 15
    else if str_eq s (bytes "1")
    then some 20
    else none

abbrev tenths : Quality
tenths = record {
  Q = ℕ;
  parse_float = parse_tenths;
  q_zero = 10;
  q_one = 20;
  q_minus_one = 0;
  gt = λ a b. ltb b a;
  eq = λ a b. a == b;
}

tenths-IsFloat : IsFloat tenths
tenths-IsFloat = record {
  place = λ q. some q;
  gt_place = λ a b. refl;
  eq_place = λ a b. refl;
  low = 0;
  place-minus_one = refl;
}

abbrev header : Str
header = bytes "gzip;q=0.5, br;q=0, zstd;q=0.5"

chosen : pick_encoding tenths header ≡ encoding_zstd
unfolding pick_encoding
chosen = refl

pick_encoding_best_example :
    (u : ℕ) × (((pick_encoding tenths header ≡ encoding_none) × (u ≡ 0))
      ⊎ Has
          (λ d. Offers tenths tenths-IsFloat d (pick_encoding tenths header) u)
          (directives tenths header))
    × ((c : Encoding) (v : ℕ)
        → Has (λ d. Offers tenths tenths-IsFloat d c v) (directives tenths header)
        → (v < u) ⊎ ((v ≡ u) × (rank c ≤ rank (pick_encoding tenths header))))
unfolding tenths-IsFloat
pick_encoding_best_example = pick_encoding_best tenths tenths-IsFloat header refl

abbrev zstd : Settings
zstd = settings encoding_zstd (pos 4) []

abbrev response : List Call
response =
    writes_header 201
    ∷ writes (bytes "ab")
    ∷ flushes
    ∷ writes (bytes "cdef")
    ∷ writes_header 500
    ∷ []

response_kept_example :
    ((close zstd (calls zstd (fresh []) response)).below.sent ≡ written response)
    × ((close zstd (calls zstd (fresh []) response)).below.status_code
        ≡ some (first_status response))
response_kept_example = response_kept zstd [] response
