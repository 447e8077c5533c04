-- ===== src/Listener/Tls/Choice.antt =====
-- internal/listener/tls.go: GetCertificate on a map that buildCertMap made, against the entries.
use l7rp.Base.{
  ◌≡◌, refl, sym, ap, ◌∙◌, inl, inr, true, List, [], ◌∷◌, Option, none, ltb, arith, Bool-cases, any,
  Str, str_eq_sound, to_lower, length,
}
use l7rp.Config.{TlsCert}
use l7rp.Listener.Tls.{
  CertMap, Built, ok, err, covers, insert_wildcard, sort_wildcards, index_entries, build_cert_map,
  find_exact, find_wildcard, get_certificate,
}
use l7rp.Listener.Tls.Labels.{parent, under_parent}
use l7rp.Listener.Tls.Indexing.{
  Answers, IsDotted, AreDotted, covers_dotted, or_else, names_host, spans_host, is_empty_list,
  first_entry, last_entry, index_entries-Answers,
}

covers_same :
    (name s t : Str)
    → IsDotted s
    → IsDotted t
    → covers name s ≡ true
    → covers name t ≡ true
    → length s ≡ length t
unfolding under_parent
covers_same name s t ds dt hs ht =
    let es : s ≡ parent name =
      str_eq_sound s (parent name) (ground (arith, covers_dotted name s ds)) in
    let et : t ≡ parent name =
      str_eq_sound t (parent name) (ground (arith, covers_dotted name t dt)) in
    ap length (es ∙ sym et)

module _ {C : Type 0} where
  insert_wildcard-AreDotted :
      (e : Str × C) (ws : List (Str × C))
      → IsDotted e.0
      → AreDotted ws
      → AreDotted (insert_wildcard e ws)
  unfolding insert_wildcard
  insert_wildcard-AreDotted e [] d ds = (d, tt)
  insert_wildcard-AreDotted e (f ∷ ws) d ds = elim (Bool-cases (ltb (length e.0) (length f.0))) [
    | inl h ↦ rw h (ds.0, insert_wildcard-AreDotted e ws d ds.1)
    | inr h ↦ rw h (d, ds)
  ]

  sort_wildcards-AreDotted : (ws : List (Str × C)) → AreDotted ws → AreDotted (sort_wildcards ws)
  unfolding sort_wildcards
  sort_wildcards-AreDotted [] ds = tt
  sort_wildcards-AreDotted (e ∷ ws) ds =
      insert_wildcard-AreDotted e (sort_wildcards ws) ds.0 (sort_wildcards-AreDotted ws ds.1)

  find_wildcard-insert_wildcard :
      (name : Str) (e : Str × C) (ws : List (Str × C))
      → IsDotted e.0
      → AreDotted ws
      → find_wildcard name (insert_wildcard e ws) ≡ find_wildcard name (e ∷ ws)
  unfolding insert_wildcard find_wildcard
  find_wildcard-insert_wildcard name e [] d ds = refl
  find_wildcard-insert_wildcard name e (f ∷ ws) d ds =
      ground
        (arith, find_wildcard-insert_wildcard name e ws d ds.1, covers_same name e.0 f.0 d ds.0)

  -- At most one suffix covers a name, so that the order by length makes no difference.
  find_wildcard-sort_wildcards :
      (name : Str) (ws : List (Str × C))
      → AreDotted ws
      → find_wildcard name (sort_wildcards ws) ≡ find_wildcard name ws
  unfolding sort_wildcards find_wildcard
  find_wildcard-sort_wildcards name [] ds = refl
  find_wildcard-sort_wildcards name (e ∷ ws) ds =
      find_wildcard-insert_wildcard name e (sort_wildcards ws) ds.0
        (sort_wildcards-AreDotted ws ds.1)
      ∙ ground (arith, find_wildcard-sort_wildcards name ws ds.1)

get_certificate-or_else :
    {C : Type 0} (cm : CertMap C) (name : Str)
    → get_certificate cm name
      ≡ or_else
          (find_exact (to_lower name) cm.exact)
          (or_else (find_wildcard (to_lower name) cm.wildcards) cm.fallback)
unfolding get_certificate
get_certificate-or_else cm name = ground arith

module _ {C : Type 0} (load_x509_key_pair : Str → Str → Option C) where
  abbrev empty : CertMap C
  empty = record { exact = []; wildcards = []; fallback = none }

  joined :
      (n : Str) (cm : CertMap C) (exactly spanning last : Option C)
      → Answers n empty cm exactly spanning last
      → or_else
          (find_exact n cm.exact)
          (or_else (find_wildcard n (sort_wildcards cm.wildcards)) cm.fallback)
        ≡ or_else exactly (or_else spanning last)
  unfolding find_exact find_wildcard
  joined n cm exactly spanning last a = ground (
    arith,
    a.exact_lem,
    a.wildcard_lem,
    a.fallback_lem,
    find_wildcard-sort_wildcards n cm.wildcards (a.dotted tt),
  )

  build_cert_map-ok :
      (entries : List TlsCert) (cm : CertMap C) (b : Built (CertMap C))
      → index_entries load_x509_key_pair 0 entries empty ≡ b
      → build_cert_map load_x509_key_pair entries ≡ ok cm
      → (cm' : CertMap C) × (index_entries load_x509_key_pair 0 entries empty ≡ ok cm')
        × (record cm' { wildcards = sort_wildcards cm'.wildcards } ≡ cm)
  unfolding build_cert_map
  build_cert_map-ok entries cm (ok cm') e h = (cm', e, ground arith)
  build_cert_map-ok entries cm (err i) e h = absurd (ground arith)

  -- When every pair of the entries loads, the certificate for a server name is that of the last entry
  -- that names the host itself; else that of the first entry with a wildcard `*.` over exactly one
  -- label more; else that of the last entry without hosts; else there is none. Letter case makes no
  -- difference, and neither does the sorting of the wildcards by length.
  pub get_certificate-entries :
      (entries : List TlsCert) (cm : CertMap C) (name : Str)
      → build_cert_map load_x509_key_pair entries ≡ ok cm
      → get_certificate cm name ≡ (
          let n = to_lower name in
          or_else (last_entry load_x509_key_pair (any (names_host n)) entries) (
            or_else
              (first_entry load_x509_key_pair (any (spans_host n)) entries)
              (last_entry load_x509_key_pair is_empty_list entries)))
  get_certificate-entries entries cm name h =
      let n = to_lower name in
      let (cm', built, same) =
        build_cert_map-ok entries cm (index_entries load_x509_key_pair 0 entries empty) refl h in
      let a = index_entries-Answers load_x509_key_pair n 0 entries empty cm' built in
      rw (← same) (get_certificate-or_else _ name ∙ joined n cm' _ _ _ a)
