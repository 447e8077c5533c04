-- ===== src/Lb/Breaker/Window/Trim.antt =====
-- internal/lb/circuit.go: trimWindowLocked on a chronological list of samples.
use l7rp.Base.{
  ℕ, zero, suc, ◌+◌, ◌-◌, ◌≤◌, max, ◌≡◌, refl, sym, List, [], ◌∷◌, ◌++◌, Bool, false, not, arith,
  ltb, Bool-cases, inl, inr, length, drop, keep, count_if, All, All-append, length-append,
  length-drop, count_if-le-length,
}
use l7rp.Lb.Breaker.{BreakerSample, drop_expired, cap_window, trim_window_locked}

-- Oldest first.
abbrev pub IsChronological : List BreakerSample → Type 0
IsChronological [] = Unit
IsChronological (s ∷ rest) = All (λ r. s.at ≤ r.at) rest × IsChronological rest

abbrev expired : ℕ → ℕ → BreakerSample → Bool
expired now window s = ltb (s.at + window) now

-- The samples of a history within `window` of `now`, and of these the last `size`.
abbrev pub recent : (now window size : ℕ) → List BreakerSample → List BreakerSample
recent now window size xs =
    let fresh = keep (λ s. not (ltb (s.at + window) now)) xs in drop (length fresh - size) fresh

drop-nil {ℓ} : {A : Type ℓ} (n : ℕ) → drop {A = A} n [] ≡ []
drop-nil zero = refl
drop-nil (suc n) = refl

drop-drop {ℓ} : {A : Type ℓ} (a b : ℕ) (xs : List A) → drop a (drop b xs) ≡ drop (b + a) xs
drop-drop a zero xs = rw (add-zero_left a)
  where
    add-zero_left : (n : ℕ) → 0 + n ≡ n
    add-zero_left n = omega arith
drop-drop a (suc b) [] = rw (drop-nil a) (sym (drop-nil (suc b + a)))
drop-drop a (suc b) (x ∷ xs) = rw (suc_add b a) (drop-drop a b xs)
  where
    suc_add : (m n : ℕ) → suc m + n ≡ suc (m + n)
    suc_add m n = omega arith

drop-append_le {ℓ} :
    {A : Type ℓ} (n : ℕ) (xs ys : List A) → n ≤ length xs → drop n xs ++ ys ≡ drop n (xs ++ ys)
drop-append_le zero xs ys h = refl
drop-append_le (suc n) [] ys h = absurd (omega arith)
drop-append_le (suc n) (x ∷ xs) ys h = drop-append_le n xs ys (omega arith)

module _ (now window : ℕ) where
  abbrev late : List BreakerSample → ℕ
  late = count_if (expired now window)

  -- Behind a sample that is fresh none is expired.
  late-fresh :
      (s : BreakerSample) (xs : List BreakerSample)
      → All (λ r. s.at ≤ r.at) xs
      → ltb (s.at + window) now ≡ false
      → late xs ≡ 0
  late-fresh s [] h k = refl
  late-fresh s (x ∷ xs) h k = ground (arith, late-fresh s xs h.1 k)

  keep-fresh :
      (s : BreakerSample) (xs : List BreakerSample)
      → All (λ r. s.at ≤ r.at) xs
      → ltb (s.at + window) now ≡ false
      → keep (λ r. not (ltb (r.at + window) now)) xs ≡ xs
  keep-fresh s [] h k = refl
  keep-fresh s (x ∷ xs) h k = ground (arith, keep-fresh s xs h.1 k)

  keep-drop-late :
      (xs : List BreakerSample)
      → IsChronological xs
      → keep (λ r. not (ltb (r.at + window) now)) xs ≡ drop (late xs) xs
  keep-drop-late [] h = refl
  keep-drop-late (x ∷ xs) h =
      ground (arith, keep-drop-late xs h.1, keep-fresh x xs h.0, late-fresh x xs h.0)

  drop_expired-drop-late :
      (xs : List BreakerSample)
      → IsChronological xs
      → drop_expired now window xs ≡ drop (late xs) xs
  unfolding drop_expired
  drop_expired-drop-late [] h = refl
  drop_expired-drop-late (x ∷ xs) h =
      ground (arith, drop_expired-drop-late xs h.1, late-fresh x xs h.0)

  late-drop :
      (n : ℕ) (xs : List BreakerSample) → IsChronological xs → late (drop n xs) ≡ late xs - n
  late-drop zero xs h = omega arith
  late-drop (suc n) [] h = omega arith
  late-drop (suc n) (x ∷ xs) h = ground (arith, late-drop n xs h.1, late-fresh x xs h.0)

  late-append : (xs ys : List BreakerSample) → late xs ≤ late (xs ++ ys)
  late-append [] ys = omega arith
  late-append (x ∷ xs) ys = ground (arith, late-append xs ys)

drop-IsChronological :
    (n : ℕ) (xs : List BreakerSample) → IsChronological xs → IsChronological (drop n xs)
drop-IsChronological zero xs h = h
drop-IsChronological (suc n) [] h = h
drop-IsChronological (suc n) (x ∷ xs) h = drop-IsChronological n xs h.1

late_mono :
    (t now window : ℕ) (xs : List BreakerSample) → t ≤ now → late t window xs ≤ late now window xs
late_mono t now window [] h = omega arith
late_mono t now window (x ∷ xs) h = ground (arith, late_mono t now window xs h)

cap_window-drop :
    (size : ℕ) (xs : List BreakerSample) → cap_window size xs ≡ drop (length xs - size) xs
unfolding cap_window
cap_window-drop size xs = elim (Bool-cases (ltb size (length xs))) [
  | inl e ↦ rw e
  | inr e ↦ let none_over : length xs - size ≡ 0 = ground arith in rw (e, none_over)
]

-- Trimming a chronological list keeps its end.
trim_window_locked-drop :
    (now window size : ℕ) (xs : List BreakerSample)
    → IsChronological xs
    → trim_window_locked now window size xs ≡ drop (max (late now window xs) (length xs - size)) xs
unfolding trim_window_locked
trim_window_locked-drop now window size xs h =
    let n = late now window xs in
    let total : n + (length (drop n xs) - size) ≡ max n (length xs - size) =
      omega (arith, length-drop n xs, count_if-le-length (expired now window) xs) in
    rw (
      drop_expired-drop-late now window xs h,
      cap_window-drop size (drop n xs),
      drop-drop (length (drop n xs) - size) n xs,
      total,
    )

pub recent-trim_window_locked :
    (now window size : ℕ) (xs : List BreakerSample)
    → IsChronological xs
    → trim_window_locked now window size xs ≡ recent now window size xs
unfolding trim_window_locked
recent-trim_window_locked now window size xs h =
    rw (keep-drop-late now window xs h, drop_expired-drop-late now window xs h)
      (cap_window-drop size (drop (late now window xs) xs))

-- Trimming as the samples come is trimming the whole history at the end.
pub trim-trim :
    (t now window size : ℕ) (xs : List BreakerSample) (s : BreakerSample)
    → t ≤ now
    → IsChronological xs
    → IsChronological (xs ++ s ∷ [])
    → trim_window_locked now window size (trim_window_locked t window size xs ++ s ∷ [])
      ≡ trim_window_locked now window size (xs ++ s ∷ [])
trim-trim t now window size xs s le h k =
    let m = max (late t window xs) (length xs - size) in
    let ys = xs ++ s ∷ [] in
    let inside : m ≤ length xs = omega (arith, count_if-le-length (expired t window) xs) in
    let counts : m + max (late now window (drop m ys)) (length (drop m ys) - size)
        ≡ max (late now window ys) (length ys - size) =
      omega (
        arith,
        late-drop now window m ys k,
        length-drop m ys,
        length-append xs (s ∷ []),
        late_mono t now window xs le,
        late-append now window xs (s ∷ []),
      ) in
    rw (
      trim_window_locked-drop t window size xs h,
      drop-append_le m xs (s ∷ []) inside,
      trim_window_locked-drop now window size (drop m ys) (drop-IsChronological m ys k),
      drop-drop (max (late now window (drop m ys)) (length (drop m ys) - size)) m ys,
      counts,
      trim_window_locked-drop now window size ys k,
    )

pub append-IsChronological :
    (xs : List BreakerSample) (s : BreakerSample)
    → All (λ r. r.at ≤ s.at) xs
    → IsChronological xs
    → IsChronological (xs ++ s ∷ [])
append-IsChronological [] s h k = (tt, tt)
append-IsChronological (x ∷ xs) s h k =
    (All-append (λ r. x.at ≤ r.at) xs (s ∷ []) k.0 (h.0, tt), append-IsChronological xs s h.1 k.1)
