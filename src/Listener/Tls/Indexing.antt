-- ===== src/Listener/Tls/Indexing.antt =====
-- internal/listener/tls.go: what the loops of buildCertMap put into the map.
use l7rp.Base.{
  ℕ, ◌+◌, ◌≡◌, refl, ap, subst, ◌∙◌, inl, inr, Bool, true, false, ◌&&◌, ◌||◌, not, List, [], ◌∷◌,
  ◌++◌, Option, none, some, if◌then◌else◌, arith, All, All-append, Bool-cases, Option-cases, any,
  Str, bytes, str_eq, to_lower, has_prefix, drop,
}
use l7rp.Config.{TlsCert}
use l7rp.Listener.Tls.{
  CertMap, ok, covers, index_hosts, index_entry, index_entries, find_exact, find_wildcard,
}
use l7rp.Listener.Tls.Labels.{under_parent, covers-parent}

abbrev pub IsDotted : Str → Type 0
IsDotted s = (r : Str) × (s ≡ 46 ∷ r)

pub covers_dotted : (name s : Str) → IsDotted s → covers name s ≡ under_parent name s
covers_dotted name s (r, e) = rw e (covers-parent name r)

module _ {C : Type 0} where
  abbrev pub AreDotted : List (Str × C) → Type 0
  AreDotted = All λ e. IsDotted e.0

abbrev pub or_else : {C : Type 0} → Option C → Option C → Option C
or_else (some c) o = some c
or_else none o = o

abbrev pub is_empty_list : List Str → Bool
is_empty_list [] = true
is_empty_list (h ∷ hosts) = false

-- A host of an entry that names `name` itself, and one that is a wildcard over it.
abbrev pub names_host : Str → Str → Bool
names_host name h = not (has_prefix (to_lower h) (bytes "*.")) && str_eq (to_lower h) name

abbrev pub spans_host : Str → Str → Bool
spans_host name h = has_prefix (to_lower h) (bytes "*.") && under_parent name (drop 1 (to_lower h))

IsDotted-host : (h : Str) → has_prefix h (bytes "*.") ≡ true → IsDotted (drop 1 h)
IsDotted-host [] e = cc
IsDotted-host (c ∷ []) e = ground arith
IsDotted-host (c ∷ d ∷ r) e = (r, ground arith)

abbrev pub offered : {C : Type 0} → Bool → C → Option C
offered b cert = if b then some cert else none

module _ {C : Type 0} (name : Str) where
  find_wildcard-append :
      (ws vs : List (Str × C))
      → find_wildcard name (ws ++ vs) ≡ or_else (find_wildcard name ws) (find_wildcard name vs)
  unfolding find_wildcard
  find_wildcard-append [] vs = refl
  find_wildcard-append (w ∷ ws) vs = ground (arith, find_wildcard-append ws vs)

  -- What a map answers for a name, before wildcards are sorted.
  pub record Answers (cm cm' : CertMap C) (exactly spanning last : Option C) : Type 0 where
    pub exact_lem : find_exact name cm'.exact ≡ or_else exactly (find_exact name cm.exact)
    pub wildcard_lem :
        find_wildcard name cm'.wildcards ≡ or_else (find_wildcard name cm.wildcards) spanning
    pub fallback_lem : cm'.fallback ≡ or_else last cm.fallback
    pub dotted : AreDotted cm.wildcards → AreDotted cm'.wildcards

  exact_step :
      (host : Str) (cert : C) (b : Bool) (exact : List (Str × C))
      → or_else (offered b cert) (find_exact name ((host, cert) ∷ exact))
        ≡ or_else (offered (str_eq host name || b) cert) (find_exact name exact)
  unfolding find_exact
  exact_step host cert b exact = ground arith

  wildcard_step :
      (found : Option C) (suffix : Str) (cert : C) (b : Bool)
      → IsDotted suffix
      → or_else (or_else found (find_wildcard name ((suffix, cert) ∷ []))) (offered b cert)
        ≡ or_else found (offered (under_parent name suffix || b) cert)
  unfolding find_wildcard
  wildcard_step (some c) suffix cert b d = refl
  wildcard_step none suffix cert b d = ground (arith, covers_dotted name suffix d)

  index_hosts-Answers :
      (cert : C) (hosts : List Str) (cm : CertMap C)
      → Answers cm
          (index_hosts cert hosts cm)
          (offered (any (names_host name) hosts) cert)
          (offered (any (spans_host name) hosts) cert)
          none
  unfolding index_hosts
  index_hosts-Answers cert [] cm = record {
    exact_lem = refl;
    wildcard_lem = ground arith;
    fallback_lem = refl;
    dotted = λ d. d;
  }
  index_hosts-Answers cert (h ∷ hosts) cm =
      elim (Bool-cases (has_prefix (to_lower h) (bytes "*."))) [
        | inl e ↦
            let w : Str × C = (drop 1 (to_lower h), cert) in
            let rest =
              index_hosts-Answers cert hosts (record cm { wildcards = cm.wildcards ++ w ∷ [] }) in
            rw (index_hosts, e)
              (record {
                exact_lem = rest.exact_lem;
                wildcard_lem =
                    rest.wildcard_lem
                    ∙ ap (λ o. or_else o (offered (any (spans_host name) hosts) cert))
                        (find_wildcard-append cm.wildcards (w ∷ []))
                    ∙ wildcard_step (find_wildcard name cm.wildcards) (drop 1 (to_lower h)) cert
                        (any (spans_host name) hosts) (IsDotted-host (to_lower h) e);
                fallback_lem = rest.fallback_lem;
                dotted = λ d. rest.dotted (
                    All-append (λ f. IsDotted f.0) cm.wildcards (w ∷ []) d
                      (IsDotted-host (to_lower h) e, tt));
              })
        | inr e ↦
            let rest =
              index_hosts-Answers cert hosts
                (record cm { exact = (to_lower h, cert) ∷ cm.exact }) in
            rw (index_hosts, e)
              (record {
                exact_lem =
                    rest.exact_lem
                    ∙ exact_step (to_lower h) cert (any (names_host name) hosts) cm.exact;
                wildcard_lem = rest.wildcard_lem;
                fallback_lem = rest.fallback_lem;
                dotted = rest.dotted;
              })
      ]

  index_entry-Answers :
      (cert : C) (hosts : List Str) (cm : CertMap C)
      → Answers cm
          (index_entry cert hosts cm)
          (offered (any (names_host name) hosts) cert)
          (offered (any (spans_host name) hosts) cert)
          (offered (is_empty_list hosts) cert)
  unfolding index_entry
  index_entry-Answers cert [] cm = record {
    exact_lem = refl;
    wildcard_lem = ground arith;
    fallback_lem = refl;
    dotted = λ d. d;
  }
  index_entry-Answers cert (h ∷ hosts) cm = index_hosts-Answers cert (h ∷ hosts) cm

or_else_assoc : {C : Type 0} (a b c : Option C) → or_else a (or_else b c) ≡ or_else (or_else a b) c
or_else_assoc none b c = refl
or_else_assoc (some x) b c = refl

or_else-offered :
    {C : Type 0} (a : Option C) (cert : C) (b : Bool) (c : Option C)
    → or_else (or_else a (offered b cert)) c ≡ or_else a (if b then some cert else c)
or_else-offered none cert true c = refl
or_else-offered none cert false c = refl
or_else-offered (some x) cert b c = refl

-- The certificate of the first entry that passes a test, and of the last.
module _ {C : Type 0} (load_x509_key_pair : Str → Str → Option C) (test : List Str → Bool) where
  abbrev pub first_entry : List TlsCert → Option C
  first_entry [] = none
  first_entry (e ∷ es) =
      let rest = first_entry es in if test e.hosts then load_x509_key_pair e.cert e.key else rest

  abbrev pub last_entry : List TlsCert → Option C
  last_entry [] = none
  last_entry (e ∷ es) =
      or_else (last_entry es) (if test e.hosts then load_x509_key_pair e.cert e.key else none)

module _ {C : Type 0} (load_x509_key_pair : Str → Str → Option C) (name : Str) where
  pub index_entries-Answers :
      (i : ℕ) (es : List TlsCert) (cm cm' : CertMap C)
      → index_entries load_x509_key_pair i es cm ≡ ok cm'
      → Answers name cm cm'
          (last_entry load_x509_key_pair (any (names_host name)) es)
          (first_entry load_x509_key_pair (any (spans_host name)) es)
          (last_entry load_x509_key_pair is_empty_list es)
  unfolding index_entries
  index_entries-Answers i [] cm cm' h =
      let same : cm ≡ cm' = cc in
      subst (λ c. Answers name cm c none none none) same
        (record {
          exact_lem = refl;
          wildcard_lem = ground arith;
          fallback_lem = refl;
          dotted = λ d. d;
        })
  index_entries-Answers i (e ∷ es) cm cm' h =
      elim (Option-cases (load_x509_key_pair e.cert e.key)) [
        | inl l ↦ absurd (ground arith)
        | inr (cert, l) ↦
            let one = index_entry-Answers name cert e.hosts cm in
            let rest =
              index_entries-Answers (i + 1) es (index_entry cert e.hosts cm) cm' (ground arith) in
            rw l (record {
              exact_lem =
                  rest.exact_lem
                  ∙ ap (or_else (last_entry load_x509_key_pair (any (names_host name)) es))
                      one.exact_lem
                  ∙ or_else_assoc (last_entry load_x509_key_pair (any (names_host name)) es)
                      (offered (any (names_host name) e.hosts) cert) (find_exact name cm.exact);
              wildcard_lem =
                  rest.wildcard_lem
                  ∙ ap (λ o. or_else o (first_entry load_x509_key_pair (any (spans_host name)) es))
                      one.wildcard_lem
                  ∙ or_else-offered (find_wildcard name cm.wildcards) cert
                      (any (spans_host name) e.hosts)
                      (first_entry load_x509_key_pair (any (spans_host name)) es);
              fallback_lem =
                  rest.fallback_lem
                  ∙ ap (or_else (last_entry load_x509_key_pair is_empty_list es)) one.fallback_lem
                  ∙ or_else_assoc (last_entry load_x509_key_pair is_empty_list es)
                      (offered (is_empty_list e.hosts) cert) cm.fallback;
              dotted = λ d. rest.dotted (one.dotted d);
            })
      ]
