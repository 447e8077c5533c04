-- ===== src/Listener/Tls.antt =====
-- internal/listener/tls.go: the certificates of a listener, and the choice among them by SNI.
-- `load_x509_key_pair` is crypto/tls; a certificate is a value of `C`. A map is an association list
-- in which the last write stands first.
pub mod Labels
pub mod Indexing
pub mod Choice
mod Examples
use l7rp.Base.{
  ℕ, ◌+◌, ◌-◌, Bool, true, false, ◌&&◌, ◌||◌, not, List, [], ◌∷◌, ◌++◌, Option, none, some, ltb,
  if◌then◌else◌, Str, bytes, str_eq, is_empty, to_lower, has_prefix, has_suffix, contains_byte,
  take, drop, length,
}
use l7rp.Config.{TlsCert, AutocertConfig, TlsConfig}

pub record CertMap (C : Type 0) : Type 0 where
  pub exact : List (Str × C)
  pub wildcards : List (Str × C)
  pub fallback : Option C

-- `err i`: the pair of the i-th entry could not be loaded.
pub data Built (A : Type 0) : Type 0 where
  ok : A → Built A
  err : ℕ → Built A

-- What stands to the left of the suffix is one label.
unfoldable pub covers : Str → Str → Bool
covers name suffix =
    let prefix = take (length name - length suffix) name in
    has_suffix name suffix && not (is_empty prefix) && not (contains_byte 46 prefix)

module _ {C : Type 0} where
  -- The loop over the hosts of an entry.
  unfoldable pub index_hosts : C → List Str → CertMap C → CertMap C
  index_hosts cert [] cm = cm
  index_hosts cert (h ∷ hosts) cm =
      let host = to_lower h in
      index_hosts cert hosts (
        if has_prefix host (bytes "*.")
        then record cm { wildcards = cm.wildcards ++ (drop 1 host, cert) ∷ [] }
        else record cm { exact = (host, cert) ∷ cm.exact })

  unfoldable pub index_entry : C → List Str → CertMap C → CertMap C
  unfolding index_hosts
  index_entry cert [] cm = record cm { fallback = some cert }
  index_entry cert (h ∷ hosts) cm = index_hosts cert (h ∷ hosts) cm

  -- sort.SliceStable by falling length of the suffix, as a stable insertion sort.
  unfoldable pub insert_wildcard : Str × C → List (Str × C) → List (Str × C)
  insert_wildcard e [] = e ∷ []
  insert_wildcard e (f ∷ wildcards) =
      let later = f ∷ insert_wildcard e wildcards in
      if ltb (length e.0) (length f.0) then later else e ∷ f ∷ wildcards

  unfoldable pub sort_wildcards : List (Str × C) → List (Str × C)
  unfolding insert_wildcard
  sort_wildcards [] = []
  sort_wildcards (e ∷ wildcards) = insert_wildcard e (sort_wildcards wildcards)

  module _ (load_x509_key_pair : Str → Str → Option C) where
    -- The loop of buildCertMap from the i-th entry on.
    unfoldable pub index_entries : ℕ → List TlsCert → CertMap C → Built (CertMap C)
    unfolding index_entry
    index_entries i [] cm = ok cm
    index_entries i (entry ∷ entries) cm = elim (load_x509_key_pair entry.cert entry.key) [
      | none ↦ err i
      | some cert ↦ index_entries (i + 1) entries (index_entry cert entry.hosts cm)
    ]

    unfoldable pub build_cert_map : List TlsCert → Built (CertMap C)
    unfolding index_entries sort_wildcards
    build_cert_map entries =
        elim (index_entries 0 entries (record { exact = []; wildcards = []; fallback = none })) [
          | err i ↦ err i
          | ok cm ↦ ok (record cm { wildcards = sort_wildcards cm.wildcards })
        ]

  unfoldable pub find_exact : Str → List (Str × C) → Option C
  find_exact name [] = none
  find_exact name ((host, cert) ∷ exact) =
      let rest = find_exact name exact in if str_eq host name then some cert else rest

  unfoldable pub find_wildcard : Str → List (Str × C) → Option C
  unfolding covers
  find_wildcard name [] = none
  find_wildcard name ((suffix, cert) ∷ wildcards) =
      let rest = find_wildcard name wildcards in if covers name suffix then some cert else rest

  -- `none`: no certificate is available.
  unfoldable pub get_certificate : CertMap C → (server_name : Str) → Option C
  unfolding find_exact find_wildcard
  get_certificate cm server_name =
      let name = to_lower server_name in
      elim (find_exact name cm.exact) [
        | some cert ↦ some cert
        | none ↦ elim (find_wildcard name cm.wildcards) [
          | some cert ↦ some cert
          | none ↦ cm.fallback
        ]
      ]

-- The protocol versions that a configuration may name.
pub data Version : Type 0 where
  version_tls12 version_tls13 : Version

abbrev pub min_version : Str → Option Version
min_version s =
    if is_empty s || str_eq s (bytes "1.2")
    then some version_tls12
    else if str_eq s (bytes "1.3")
    then some version_tls13
    else none

-- What a listener serves with: cleartext, certificates that autocert obtains, or those of a map.
pub data Serving (C : Type 0) : Type 0 where
  cleartext : Serving C
  autocert : Version → AutocertConfig → Serving C
  certificates : Version → CertMap C → Serving C
  unsupported_version : Serving C
  not_loaded : ℕ → Serving C

module _ {C : Type 0} (load_x509_key_pair : Str → Str → Option C) where
  unfoldable pub with_map : Version → Built (CertMap C) → Serving C
  with_map v (ok cm) = certificates v cm
  with_map v (err i) = not_loaded i

  unfoldable pub build_tls_config : Option TlsConfig → Serving C
  unfolding with_map build_cert_map
  build_tls_config none = cleartext
  build_tls_config (some cfg) = elim (min_version cfg.min_version) [
    | none ↦ unsupported_version
    | some v ↦
        let from_map = with_map v (build_cert_map load_x509_key_pair cfg.certs) in
        elim cfg.autocert [
          | none ↦ from_map
          | some a ↦ elim a.allowed_hosts [ [] ↦ from_map | h ∷ hosts ↦ autocert v a ]
        ]
  ]
