-- ===== src/Listener/Smuggling/Framing.antt =====
-- internal/listener/smuggling.go: what a request that passes says of the length of its body.
use l7rp.Base.{
  ℕ, ◌≤◌, ◌≡◌, refl, ◌⊎◌, ◌↔◌, inl, inr, Bool, true, false, ◌&&◌, not, List, [], ◌∷◌, Option, none,
  some, arith, ltb, if◌then◌else◌, Bool-cases, Str, bytes, is_empty, contains_byte, length, All,
  all,
}
use l7rp.Base.Int.{ℤ, pos, negsuc}
use l7rp.Http.{Header, values, get}
use l7rp.Listener.Smuggling.{
  parse_int, is_length, SmugglingError, codings, is_coding, check_codings, check_length,
  check_smuggling, both_present, multiple_lengths, comma_in_length, bad_length,
}

check_codings_iff :
    (tes : List Str)
    → (check_codings tes ≡ none) ↔ All (λ te. all is_coding (codings te) ≡ true) tes
unfolding check_codings
check_codings_iff [] = (λ h. tt, λ h. refl)
check_codings_iff (te ∷ tes) =
    let (sound, complete) = check_codings_iff tes in
    (λ h. ground (arith, sound), λ h. ground (arith, complete))

-- A Content-Length is absent or empty, or a number without a comma.
abbrev pub IsLength : Str → Type 0
IsLength cl =
    (cl ≡ []) ⊎ ((contains_byte 44 cl ≡ false) × ((n : ℕ) × (parse_int cl ≡ some (pos n))))

is_length_iff : (o : Option ℤ) → (is_length o ≡ true) ↔ ((n : ℕ) × (o ≡ some (pos n)))
is_length_iff none = (λ h. cc, λ h. cc h.1)
is_length_iff (some (pos n)) = (λ h. (n, refl), λ h. refl)
is_length_iff (some (negsuc n)) = (λ h. cc, λ h. cc h.1)

-- The test of a Content-Length by its two conditions.
tests_iff :
    (comma good : Bool)
    → ((if comma then some comma_in_length else if good then none else some bad_length) ≡ none)
      ↔ ((comma ≡ false) × (good ≡ true))
tests_iff true good = (λ h. cc, λ h. cc h.0)
tests_iff false true = (λ h. (refl, refl), λ h. refl)
tests_iff false false = (λ h. cc, λ h. cc h.1)

check_length_iff : (cl : Str) → (check_length cl ≡ none) ↔ IsLength cl
unfolding check_length
check_length_iff [] = (λ h. inl refl, λ h. refl)
check_length_iff (c ∷ s) =
    let number = is_length_iff (parse_int (c ∷ s)) in
    let tests = tests_iff (contains_byte 44 (c ∷ s)) (is_length (parse_int (c ∷ s))) in
    (
      λ h. let found = tests.0 h in inr (found.0, number.0 found.1),
      λ h. elim h [ inl empty ↦ cc | inr both ↦ tests.1 (both.0, number.1 both.1) ],
    )

-- What a request that passes says of the length of its body.
pub record IsFramed (h : Header) : Type 0 where
  one_framing : (get (bytes "Content-Length") h ≡ []) ⊎ (get (bytes "Transfer-Encoding") h ≡ [])
  one_length : length (values (bytes "Content-Length") h) ≤ 1
  length_read : IsLength (get (bytes "Content-Length") h)
  codings_known :
      All (λ te. all is_coding (codings te) ≡ true) (values (bytes "Transfer-Encoding") h)

-- The two checks on how many headers there are.
module _ (n : ℕ) (rest : Option SmugglingError) where
  abbrev counted : Option SmugglingError
  counted = if ltb 1 n then some multiple_lengths else rest

  counted_iff : (counted ≡ none) ↔ ((n ≤ 1) × (rest ≡ none))
  counted_iff = elim (Bool-cases (ltb 1 n)) [ inl many ↦ ground arith | inr few ↦ ground arith ]

  both_iff :
      (cl te : Str)
      → ((if not (is_empty cl) && not (is_empty te) then some both_present else counted) ≡ none)
        ↔ (((cl ≡ []) ⊎ (te ≡ [])) × (counted ≡ none))
  both_iff [] te = (λ h. (inl refl, h), λ h. h.1)
  both_iff (c ∷ cl) [] = (λ h. (inr refl, h), λ h. h.1)
  both_iff (c ∷ cl) (d ∷ te) = (λ h. cc, λ h. elim h.0 [ inl e ↦ cc | inr e ↦ cc ])

first_iff :
    (first last : Option SmugglingError)
    → ((elim first [ some e ↦ some e | none ↦ last ]) ≡ none) ↔ ((first ≡ none) × (last ≡ none))
first_iff none last = (λ h. (refl, h), λ h. h.1)
first_iff (some e) last = (λ h. cc, λ h. cc h.0)

-- A request passes the check exactly when it has not both a Content-Length and a
-- Transfer-Encoding, has at most one Content-Length, which is empty or a number in the range of
-- int64, not negative and without a comma, and each of its transfer codings is "chunked" or
-- "identity".
pub check_smuggling-framing : (h : Header) → (check_smuggling h ≡ none) ↔ IsFramed h
unfolding check_smuggling
check_smuggling-framing h =
    let cl = get (bytes "Content-Length") h in
    let te = get (bytes "Transfer-Encoding") h in
    let tes = values (bytes "Transfer-Encoding") h in
    let first = check_length cl in
    let last = check_codings tes in
    let n = length (values (bytes "Content-Length") h) in
    let rest : Option SmugglingError = elim first [ some e ↦ some e | none ↦ last ] in
    let both = both_iff n rest cl te in
    let count = counted_iff n rest in
    let read = first_iff first last in
    (
      λ e.
          let b = both.0 e in
          let k = count.0 b.1 in
          let r = read.0 k.1 in
          record {
            one_framing = b.0;
            one_length = k.0;
            length_read = (check_length_iff cl).0 r.0;
            codings_known = (check_codings_iff tes).0 r.1;
          },
      λ ok. both.1 (
        ok.one_framing,
        count.1 (
          ok.one_length,
          read.1
              ((check_length_iff cl).1 ok.length_read, (check_codings_iff tes).1 ok.codings_known),
        ),
      ),
    )
