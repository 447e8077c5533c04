-- ===== src/Listener/Tls/Labels.antt =====
-- internal/listener/tls.go: a wildcard's suffix covers the names that have one label before it.
use mathlib.Core.List.{reverse-append, reverse-reverse}
use l7rp.Base.{
  ◌-◌, ◌≡◌, refl, sym, ap, ◌∙◌, Bool, true, false, ◌&&◌, not, [], ◌∷◌, ◌++◌, reverse, ◌==◌,
  if◌then◌else◌, arith, Str, str_eq, str_eq_sound, str_eq_refl, is_empty, has_prefix, has_suffix,
  contains_byte, take, drop, length, length-append,
}
use l7rp.Listener.Tls.{covers}

-- A name cut before its first dot.
abbrev pub label : Str → Str
label [] = []
label (c ∷ s) = let rest = c ∷ label s in if c == 46 then [] else rest

abbrev pub parent : Str → Str
parent [] = []
parent (c ∷ s) = let rest = parent s in if c == 46 then c ∷ s else rest

has_prefix-append : (p r : Str) → has_prefix (p ++ r) p ≡ true
has_prefix-append [] r = refl
has_prefix-append (c ∷ p) r = ground (arith, has_prefix-append p r)

has_prefix-split : (s p : Str) → has_prefix s p ≡ true → s ≡ p ++ drop (length p) s
has_prefix-split s [] h = refl
has_prefix-split [] (c ∷ p) h = cc
has_prefix-split (d ∷ s) (c ∷ p) h = ground (arith, has_prefix-split s p)

has_suffix-append : (p s : Str) → has_suffix (p ++ s) s ≡ true
has_suffix-append p s = rw (reverse-append p s) (has_prefix-append (reverse s) (reverse p))

take-append : (p s : Str) → take (length p) (p ++ s) ≡ p
take-append [] s = refl
take-append (c ∷ p) s = ap (λ t. c ∷ t) (take-append p s)

take-suffix : (p s : Str) → take (length (p ++ s) - length s) (p ++ s) ≡ p
take-suffix p s =
    let e : length (p ++ s) - length s ≡ length p = omega (arith, length-append p s) in
    rw e (take-append p s)

has_suffix-split : (t s : Str) → has_suffix t s ≡ true → (p : Str) × (t ≡ p ++ s)
has_suffix-split t s h =
    let r = drop (length (reverse s)) (reverse t) in
    (
      reverse r,
      sym (reverse-reverse t)
          ∙ ap reverse (has_prefix-split (reverse t) (reverse s) h)
          ∙ reverse-append (reverse s) r
          ∙ ap (λ u. reverse r ++ u) (reverse-reverse s),
    )

label-parent : (s : Str) → label s ++ parent s ≡ s
label-parent [] = refl
label-parent (c ∷ s) = ground (arith, label-parent s)

label_no_dot : (s : Str) → contains_byte 46 (label s) ≡ false
label_no_dot [] = refl
label_no_dot (c ∷ s) = ground (arith, label_no_dot s)

-- The first dot of a name ends its label.
label-append :
    (p s : Str)
    → contains_byte 46 p ≡ false
    → (label (p ++ 46 ∷ s) ≡ p) × (parent (p ++ 46 ∷ s) ≡ 46 ∷ s)
label-append [] s h = (refl, refl)
label-append (c ∷ p) s h = ground (arith, label-append p s)

covers-append : (p t : Str) → covers (p ++ t) t ≡ not (is_empty p) && not (contains_byte 46 p)
unfolding covers
covers-append p t = rw (take-suffix p t) (rw (has_suffix-append p t))

covers-split :
    (name t : Str)
    → covers name t ≡ true
    → (p : Str) × (name ≡ p ++ t) × (is_empty p ≡ false) × (contains_byte 46 p ≡ false)
unfolding covers
covers-split name t h =
    let (p, e) = has_suffix-split name t (ground arith) in
    let parts : not (is_empty p) && not (contains_byte 46 p) ≡ true =
      sym (covers-append p t) ∙ ap (λ n. covers n t) (sym e) ∙ h in
    (p, e, ground arith, ground arith)

both_true : (a b : Bool) → (a ≡ true → b ≡ true) → (b ≡ true → a ≡ true) → a ≡ b
both_true true b f g = sym (f refl)
both_true false true f g = g refl
both_true false false f g = refl

unfoldable pub under_parent : Str → Str → Bool
under_parent name t = not (is_empty (label name)) && str_eq t (parent name)

covers→parent : (name s : Str) → covers name (46 ∷ s) ≡ true → under_parent name (46 ∷ s) ≡ true
unfolding under_parent
covers→parent name s h =
    let (p, e, full, plain) = covers-split name (46 ∷ s) h in
    let (same_label, same_parent) = label-append p s plain in
    rw (ap label e ∙ same_label) (rw (ap parent e ∙ same_parent) (rw full (str_eq_refl (46 ∷ s))))

parent→covers : (name s : Str) → under_parent name (46 ∷ s) ≡ true → covers name (46 ∷ s) ≡ true
unfolding under_parent
parent→covers name s h =
    let e : 46 ∷ s ≡ parent name = str_eq_sound (46 ∷ s) (parent name) (ground arith) in
    ap (λ n. covers n (46 ∷ s)) (sym (label-parent name) ∙ ap (λ t. label name ++ t) (sym e))
    ∙ covers-append (label name) (46 ∷ s)
    ∙ ground (arith, label_no_dot name)

pub covers-parent : (name s : Str) → covers name (46 ∷ s) ≡ under_parent name (46 ∷ s)
covers-parent name s = both_true _ _ (covers→parent name s) (parent→covers name s)
