-- ===== src/Listener/Smuggling.antt =====
-- internal/listener/smuggling.go: the check against request smuggling. `none` is a nil error.
pub mod Framing
mod Examples
use l7rp.Base.{
  ℕ, zero, suc, ◌+◌, ◌-◌, ◌*◌, ◌^◌, Bool, true, false, ◌&&◌, ◌||◌, not, List, [], ◌∷◌, Option, none,
  some, ◌==◌, ltb, leb, if◌then◌else◌, Str, bytes, str_eq, is_empty, to_lower, contains_byte, split,
  trim_space, all, length,
}
use l7rp.Base.Int.{ℤ, pos, negsuc}
use l7rp.Http.{Header, values, get}

-- The digits of strconv.ParseInt in base 10, at least one.
unfoldable pub parse_digits : ℕ → Str → Option ℕ
parse_digits n [] = some n
parse_digits n (c ∷ s) = if leb 48 c && leb c 57 then parse_digits (n * 10 + (c - 48)) s else none

abbrev pub parse_uint : Str → Option ℕ
parse_uint [] = none
parse_uint (c ∷ s) = parse_digits 0 (c ∷ s)

abbrev pub negate : ℕ → ℤ
negate zero = pos 0
negate (suc n) = negsuc n

-- strconv.ParseInt(s, 10, 64), `none` for an error of syntax or range.
unfoldable pub parse_int : Str → Option ℤ
unfolding parse_digits
parse_int [] = none
parse_int (c ∷ s) =
    if c == 45
    then (elim (parse_uint s) [
      | some n ↦ if leb n (2 ^ 63) then some (negate n) else none
      | none ↦ none
    ])
    else elim (parse_uint (if c == 43 then s else c ∷ s)) [
      | some n ↦ if ltb n (2 ^ 63) then some (pos n) else none
      | none ↦ none
    ]

abbrev pub is_length : Option ℤ → Bool
is_length (some (pos n)) = true
is_length _ = false

pub data SmugglingError : Type 0 where
  both_present multiple_lengths comma_in_length bad_length unsupported_coding : SmugglingError

-- The parts of one Transfer-Encoding header.
abbrev pub codings : Str → List Str
codings te = split 44 (to_lower (trim_space te))

unfoldable pub is_coding : Str → Bool
is_coding v = str_eq (trim_space v) (bytes "chunked") || str_eq (trim_space v) (bytes "identity")

-- The loop over the Transfer-Encoding headers, with the inner one as `all`.
unfoldable pub check_codings : List Str → Option SmugglingError
check_codings [] = none
check_codings (te ∷ tes) =
    if all is_coding (codings te) then check_codings tes else some unsupported_coding

unfoldable pub check_length : Str → Option SmugglingError
check_length cl =
    if is_empty cl
    then none
    else if contains_byte 44 cl
    then some comma_in_length
    else if is_length (parse_int cl)
    then none
    else some bad_length

unfoldable pub check_smuggling : Header → Option SmugglingError
unfolding check_length check_codings
check_smuggling headers =
    let cl = get (bytes "Content-Length") headers in
    let te = get (bytes "Transfer-Encoding") headers in
    if not (is_empty cl) && not (is_empty te)
    then some both_present
    else if ltb 1 (length (values (bytes "Content-Length") headers))
    then some multiple_lengths
    else elim (check_length cl) [
      | some e ↦ some e
      | none ↦ check_codings (values (bytes "Transfer-Encoding") headers)
    ]

-- smugglingHandler: 400, or the next handler.
pub data Verdict : Type 0 where
  bad_request passed : Verdict

unfoldable pub smuggling_handler : Header → Verdict
unfolding check_smuggling
smuggling_handler headers = elim (check_smuggling headers) [ some e ↦ bad_request | none ↦ passed ]
