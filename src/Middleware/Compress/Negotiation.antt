-- ===== src/Middleware/Compress/Negotiation.antt =====
-- internal/middleware/compress.go: pickEncoding against the preference that a client states.
use l7rp.Base.{
  ℕ, ◌+◌, ◌*◌, ◌<◌, ◌≤◌, ◌≡◌, refl, sym, ap, ◌∙◌, ◌⊎◌, inl, inr, Bool, true, false, ◌&&◌, ◌||◌,
  List, [], ◌∷◌, Option, none, some, ◌==◌, ltb, arith, Has, Bool-cases, Str, is_empty, map, split,
  trim_space,
}
use l7rp.Middleware.Compress.{
  Encoding, encoding_none, encoding_gzip, encoding_zstd, encoding_brotli, rank, candidate_of,
  Quality, parse_accept_encoding, consider, pick_from, pick_encoding,
}

abbrev above : Option ℕ → Option ℕ → Bool
above (some a) (some b) = ltb b a
above _ _ = false

abbrev same : Option ℕ → Option ℕ → Bool
same (some a) (some b) = a == b
same _ _ = false

-- float64 has finitely many values: each has a place in their order but NaN, which is neither above
-- nor equal to any.
pub record IsFloat (qu : Quality) : Type 0 where
  pub place : qu.Q → Option ℕ
  pub gt_place : (a b : qu.Q) → qu.gt a b ≡ above (place a) (place b)
  pub eq_place : (a b : qu.Q) → qu.eq a b ≡ same (place a) (place b)
  pub low : ℕ
  pub place-minus_one : place qu.q_minus_one ≡ some low

module _ (qu : Quality) (float : IsFloat qu) where
  -- A directive that offers `c` with the quality at place `v`.
  pub record Offers (d : Str × qu.Q) (c : Encoding) (v : ℕ) : Type 0 where
    pub known : candidate_of d.0 ≡ some c
    pub wanted : qu.eq d.1 qu.q_zero ≡ false
    pub placed : float.place d.1 ≡ some v

  score : Encoding → ℕ → ℕ
  score c v = v * 4 + rank c

  outranks : Encoding × qu.Q → Encoding × qu.Q → Bool
  outranks (best, best_q) (c, q) = qu.gt q best_q || (qu.eq q best_q && ltb (rank best) (rank c))

  rank-lt : (c : Encoding) → rank c < 4
  rank-lt encoding_none = omega arith
  rank-lt encoding_gzip = omega arith
  rank-lt encoding_zstd = omega arith
  rank-lt encoding_brotli = omega arith

  consider-cases :
      (best : Encoding × qu.Q) (d : Str × qu.Q) (o : Option Encoding)
      → candidate_of d.0 ≡ o
      → ((consider qu best d ≡ best)
          × ((c : Encoding)
              → candidate_of d.0 ≡ some c
              → qu.eq d.1 qu.q_zero ≡ false
              → outranks best (c, d.1) ≡ false))
        ⊎ ((c : Encoding) × (candidate_of d.0 ≡ some c)
            × (qu.eq d.1 qu.q_zero ≡ false)
            × (outranks best (c, d.1) ≡ true)
            × (consider qu best d ≡ (c, d.1)))
  unfolding consider outranks
  consider-cases best d none e = inl (ground (arith), λ c h. cc)
  consider-cases (best, best_q) (n, q) (some c) e = elim (Bool-cases (qu.eq q qu.q_zero)) [
    | inl z ↦ inl (ground arith, λ c' h k. cc)
    | inr z ↦ elim (Bool-cases (outranks (best, best_q) (c, q))) [
      | inl b ↦ inr (c, e, z, b, ground arith)
      | inr b ↦ inl (ground arith, λ c' h k. ground arith)
    ]
  ]

  outranks-eq :
      (best : Encoding × qu.Q) (c : Encoding) (q : qu.Q)
      → outranks best (c, q)
        ≡ above (float.place q) (float.place best.1)
          || (same (float.place q) (float.place best.1) && ltb (rank best.0) (rank c))
  unfolding outranks
  outranks-eq best c q = rw (float.gt_place q best.1) (rw (float.eq_place q best.1))

  outranks-place :
      (best : Encoding × qu.Q) (c : Encoding) (q : qu.Q) (w : ℕ) (o : Option ℕ)
      → float.place q ≡ o
      → float.place best.1 ≡ some w
      → outranks best (c, q) ≡ true
      → (v : ℕ) × (float.place q ≡ some v) × (score best.0 w < score c v)
  unfolding score
  outranks-place best c q w none e h k = absurd (ground (arith, outranks-eq best c q))
  outranks-place best c q w (some v) e h k =
      (v, e, ground (arith, outranks-eq best c q, rank-lt best.0, rank-lt c))

  not_better-score :
      (best : Encoding × qu.Q) (c : Encoding) (q : qu.Q) (w v : ℕ)
      → float.place best.1 ≡ some w
      → float.place q ≡ some v
      → outranks best (c, q) ≡ false
      → score c v ≤ score best.0 w
  unfolding score
  not_better-score best c q w v h k b =
      ground (arith, outranks-eq best c q, rank-lt best.0, rank-lt c)

  -- What one directive leaves: an offer that is at least as good as the last, and as this one.
  record After (best : Encoding × qu.Q) (w : ℕ) (d : Str × qu.Q) (r : Encoding × qu.Q)
      : Type 0 where
    u : ℕ
    placed : float.place r.1 ≡ some u
    above_last : score best.0 w ≤ score r.0 u
    above_offer : (c : Encoding) (v : ℕ) → Offers d c v → score c v ≤ score r.0 u
    origin : ((r ≡ best) × (u ≡ w)) ⊎ Offers d r.0 u

  consider-After :
      (best : Encoding × qu.Q) (d : Str × qu.Q) (w : ℕ)
      → float.place best.1 ≡ some w
      → After best w d (consider qu best d)
  consider-After best d w h = elim (consider-cases best d (candidate_of d.0) refl) [
    | inl (e, kept) ↦ rw e (record {
      u = w;
      placed = h;
      above_last = omega arith;
      above_offer = λ c v o. not_better-score best c d.1 w v h o.placed (kept c o.known o.wanted);
      origin = inl (refl, refl);
    })
    | inr (c, known, wanted, b, e) ↦
        let (v, placed, lt) = outranks-place best c d.1 w (float.place d.1) refl h b in
        rw e (record {
          u = v;
          placed = placed;
          above_last = omega arith;
          above_offer = λ c' v' o. ground (arith, o.known, o.placed);
          origin = inr (record { known = known; wanted = wanted; placed = placed });
        })
  ]

  -- What all of `ds` leave.
  record AfterAll (best : Encoding × qu.Q) (w : ℕ) (ds : List (Str × qu.Q)) (r : Encoding × qu.Q)
      : Type 0 where
    u : ℕ
    above_last : score best.0 w ≤ score r.0 u
    above_offers : (c : Encoding) (v : ℕ) → Has (λ d. Offers d c v) ds → score c v ≤ score r.0 u
    origin : ((r ≡ best) × (u ≡ w)) ⊎ Has (λ d. Offers d r.0 u) ds

  pick_from-AfterAll :
      (best : Encoding × qu.Q) (w : ℕ) (ds : List (Str × qu.Q))
      → float.place best.1 ≡ some w
      → AfterAll best w ds (pick_from qu best ds)
  unfolding pick_from
  pick_from-AfterAll best w [] h = record {
    u = w;
    above_last = omega arith;
    above_offers = λ c v o. absurd o;
    origin = inl (refl, refl);
  }
  pick_from-AfterAll best w (d ∷ ds) h =
      let one = consider-After best d w h in
      let rest = pick_from-AfterAll (consider qu best d) one.u ds one.placed in
      record {
        u = rest.u;
        above_last = omega (arith, one.above_last, rest.above_last);
        above_offers = λ c v o. elim o [
          | inl here ↦ omega (arith, one.above_offer c v here, rest.above_last)
          | inr there ↦ rest.above_offers c v there
        ];
        origin = elim rest.origin [
          | inl (e, same) ↦ elim one.origin [
            | inl (e', same') ↦ inl (e ∙ e', same ∙ same')
            | inr o ↦ inr (
                inl (record {
                  known = o.known ∙ ap (λ x. some x.0) (sym e);
                  wanted = o.wanted;
                  placed = o.placed ∙ ap some (sym same);
                }))
          ]
          | inr there ↦ inr (inr there)
        ];
      }

-- The directives of an Accept-Encoding header.
abbrev pub directives : (qu : Quality) → Str → List (Str × qu.Q)
directives qu header = map (λ part. parse_accept_encoding qu (trim_space part)) (split 44 header)

-- pickEncoding returns no encoding, or one that a directive of the header offers with a quality other
-- than 0; and whatever the header offers so and in whatever order, nothing of it has a higher quality
-- than the choice, and nothing of the same quality comes before it in the order br, zstd, gzip. The
-- header is not empty, and the qualities are ordered as float64 is: `u` is the place of the choice's
-- quality in that order, or that of -1, from which the search sets out.
pub pick_encoding_best :
    (qu : Quality) (float : IsFloat qu) (header : Str)
    → is_empty header ≡ false
    → (u : ℕ) × (((pick_encoding qu header ≡ encoding_none) × (u ≡ float.low))
        ⊎ Has (λ d. Offers qu float d (pick_encoding qu header) u) (directives qu header))
      × ((c : Encoding) (v : ℕ)
          → Has (λ d. Offers qu float d c v) (directives qu header)
          → (v < u) ⊎ ((v ≡ u) × (rank c ≤ rank (pick_encoding qu header))))
unfolding pick_encoding score
pick_encoding_best qu float header h =
    let best : Encoding × qu.Q = (encoding_none, qu.q_minus_one) in
    let all =
      pick_from-AfterAll qu float best float.low (directives qu header) float.place-minus_one in
    rw h (
      all.u,
      elim all.origin [ inl (e, same) ↦ inl (ap (λ r. r.0) e, same) | inr there ↦ inr there ],
      λ c v o. elim (Bool-cases (ltb v all.u)) [
        | inl lt ↦ inl (ground arith)
        | inr ge ↦ inr (
            let le = all.above_offers c v o in
            (
              ground (
                arith,
                rank-lt qu float c,
                rank-lt qu float (pick_from qu best (directives qu header)).0,
              ),
              ground (arith, rank-lt qu float c),
            ))
      ],
    )
