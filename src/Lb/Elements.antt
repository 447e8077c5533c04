-- ===== src/Lb/Elements.antt =====
-- Elements of a list of upstreams by their index.
use l7rp.Base.{
  ℕ, zero, suc, ◌<◌, ◌≡◌, ◌≢◌, inl, inr, List, [], ◌∷◌, none, some, arith, subst, All, Has,
  get_elem?, length,
}
use l7rp.Lb.Upstream.{Upstream}
use l7rp.Lb.Selector.{IsIn}

pub get_elem?-IsIn :
    (xs : List Upstream) (i : ℕ) (u : Upstream) → get_elem? xs i ≡ some u → IsIn u xs
get_elem?-IsIn [] i u h = cc
get_elem?-IsIn (x ∷ xs) zero u h = inl (ground arith)
get_elem?-IsIn (x ∷ xs) (suc i) u h = inr (get_elem?-IsIn xs i u h)

pub get_elem?_total : (xs : List Upstream) (i : ℕ) → i < length xs → get_elem? xs i ≢ none
get_elem?_total [] i h = absurd (omega arith)
get_elem?_total (x ∷ xs) zero h = λ e. cc
get_elem?_total (x ∷ xs) (suc i) h = get_elem?_total xs i (omega arith)

pub All-IsIn :
    (P : Upstream → Type 0) (xs : List Upstream) (u : Upstream) → All P xs → IsIn u xs → P u
All-IsIn P [] u a m = absurd m
All-IsIn P (x ∷ xs) u a (inl e) = subst P e a.0
All-IsIn P (x ∷ xs) u a (inr m) = All-IsIn P xs u a.1 m

-- Two predicates that meet at some element.
pub All-Has :
    (P Q : Upstream → Type 0) (R : Type 0) (xs : List Upstream)
    → All P xs
    → Has Q xs
    → ((x : Upstream) → P x → Q x → R)
    → R
All-Has P Q R [] a m f = absurd m
All-Has P Q R (x ∷ xs) a (inl q) f = f x a.0 q
All-Has P Q R (x ∷ xs) a (inr m) f = All-Has P Q R xs a.1 m f
