-- ===== src/Listener/Smuggling/Examples.antt =====
-- The check against smuggling on the headers of three requests.
use l7rp.Base.{◌≡◌, refl, ◌↔◌, [], ◌∷◌, none, some, bytes}
use l7rp.Http.{Header, values, get, canonical_key}
use l7rp.Listener.Smuggling.{
  check_smuggling, both_present, check_length, check_codings, parse_int, parse_digits, is_coding,
}
use l7rp.Listener.Smuggling.Framing.{IsFramed, check_smuggling-framing}

abbrev plain : Header
plain = (bytes "Content-Length", bytes "12" ∷ []) ∷ []

abbrev ambiguous : Header
ambiguous = (bytes "Transfer-Encoding", bytes "chunked" ∷ []) ∷ plain

-- Two codings in one header.
abbrev listed : Header
listed = (bytes "Transfer-Encoding", bytes "Chunked, identity" ∷ []) ∷ []

check_smuggling-framing_example : (check_smuggling listed ≡ none) ↔ IsFramed listed
check_smuggling-framing_example = check_smuggling-framing listed

plain_passes : check_smuggling plain ≡ none
unfolding check_smuggling get values canonical_key check_length check_codings parse_int parse_digits
plain_passes = refl

ambiguous_fails : check_smuggling ambiguous ≡ some both_present
unfolding check_smuggling get values canonical_key
ambiguous_fails = refl

listed_passes : check_smuggling listed ≡ none
unfolding check_smuggling get values canonical_key check_length check_codings is_coding
listed_passes = refl
