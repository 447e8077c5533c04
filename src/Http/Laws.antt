-- ===== src/Http/Laws.antt =====
-- net/http: the values of a header after it was changed.
use l7rp.Base.{
  ◌≡◌, List, [], ◌∷◌, ◌++◌, Bool, arith, if◌then◌else◌, Str, str_eq, str_eq_sound, str_eq_refl,
}
use l7rp.Http.{Header, canonical_key, find_values, values, put, remove, set, add, del}

find_values-put :
    (key k : Str) (vs : List Str) (h : Header)
    → find_values k (put key vs h) ≡ (if str_eq key k then vs else find_values k h)
find_values-put key k vs [] = ground arith
find_values-put key k vs ((j, ws) ∷ h) = ground (
  arith,
  str_eq_sound key k,
  str_eq_sound j key,
  str_eq_sound j k,
  str_eq_refl k,
  find_values-put key k vs h,
)

find_values-remove :
    (key k : Str) (h : Header)
    → find_values k (remove key h) ≡ (if str_eq key k then [] else find_values k h)
find_values-remove key k [] = ground arith
find_values-remove key k ((j, ws) ∷ h) = ground (
  arith,
  str_eq_sound key k,
  str_eq_sound j key,
  str_eq_sound j k,
  str_eq_refl k,
  find_values-remove key k h,
)

-- Whether two names stand for one header.
abbrev pub same_name : Str → Str → Bool
same_name m n = str_eq (canonical_key m) (canonical_key n)

pub values-set :
    (m n v : Str) (h : Header)
    → values n (set m v h) ≡ (if same_name m n then v ∷ [] else values n h)
unfolding values set
values-set m n v h = find_values-put (canonical_key m) (canonical_key n) (v ∷ []) h

pub values-add :
    (m n v : Str) (h : Header)
    → values n (add m v h) ≡ (if same_name m n then values m h ++ v ∷ [] else values n h)
unfolding values add
values-add m n v h =
    find_values-put (canonical_key m) (canonical_key n) (find_values (canonical_key m) h ++ v ∷ [])
      h

pub values-del :
    (m n : Str) (h : Header) → values n (del m h) ≡ (if same_name m n then [] else values n h)
unfolding values del
values-del m n h = find_values-remove (canonical_key m) (canonical_key n) h
