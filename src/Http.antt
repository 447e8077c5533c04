-- ===== src/Http.antt =====
-- net/http: a Header as the program uses it, a map from canonical keys to lists of values, here an
-- association list. Keys that come off the wire are canonical.
pub mod Laws
use l7rp.Base.{
  ℕ, ◌-◌, Bool, true, ◌&&◌, ◌||◌, List, [], ◌∷◌, ◌==◌, leb, if◌then◌else◌, Str, str_eq, lower, all,
  any, ◌++◌,
}

abbrev pub Header : Type 0
Header = List (Str × List Str)

-- The bytes of a token: letters, digits and !#$%&'*+-.^_`|~
abbrev pub is_token_byte : ℕ → Bool
is_token_byte c =
    (leb 48 c && leb c 57)
    || (leb 65 c && leb c 90)
    || (leb 94 c && leb c 122)
    || (leb 35 c && leb c 39)
    || any (λ b. b == c) (33 ∷ 42 ∷ 43 ∷ 45 ∷ 46 ∷ 124 ∷ 126 ∷ [])

abbrev pub upper : ℕ → ℕ
upper c = if leb 97 c && leb c 122 then c - 32 else c

abbrev pub canonical_from : Bool → Str → Str
canonical_from first [] = []
canonical_from first (c ∷ s) = (if first then upper c else lower c) ∷ canonical_from (c == 45) s

-- textproto.CanonicalMIMEHeaderKey.
unfoldable pub canonical_key : Str → Str
canonical_key s = if all is_token_byte s then canonical_from true s else s

abbrev pub find_values : Str → Header → List Str
find_values key [] = []
find_values key ((k, vs) ∷ h) = if str_eq k key then vs else find_values key h

unfoldable pub values : Str → Header → List Str
unfolding canonical_key
values name h = find_values (canonical_key name) h

abbrev pub first_value : List Str → Str
first_value [] = []
first_value (v ∷ vs) = v

unfoldable pub get : Str → Header → Str
unfolding values
get name h = first_value (values name h)

-- `h[key] = vs`.
abbrev pub put : Str → List Str → Header → Header
put key vs [] = (key, vs) ∷ []
put key vs ((k, ws) ∷ h) = if str_eq k key then (key, vs) ∷ h else (k, ws) ∷ put key vs h

abbrev pub remove : Str → Header → Header
remove key [] = []
remove key ((k, vs) ∷ h) = let rest = remove key h in if str_eq k key then rest else (k, vs) ∷ rest

-- Header.Set, Add and Del.
unfoldable pub set : Str → Str → Header → Header
unfolding canonical_key
set name v h = put (canonical_key name) (v ∷ []) h

unfoldable pub add : Str → Str → Header → Header
unfolding canonical_key
add name v h = let key = canonical_key name in put key (find_values key h ++ v ∷ []) h

unfoldable pub del : Str → Header → Header
unfolding canonical_key
del name h = remove (canonical_key name) h
