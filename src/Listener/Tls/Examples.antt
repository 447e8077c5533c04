-- ===== src/Listener/Tls/Examples.antt =====
-- Three certificates, one of them without hosts.
use l7rp.Base.{◌≡◌, refl, List, [], ◌∷◌, Option, some, any, Str, bytes, to_lower}
use l7rp.Config.{TlsCert}
use l7rp.Listener.Tls.{CertMap, ok, build_cert_map, get_certificate}
use l7rp.Listener.Tls.Indexing.{
  or_else, names_host, spans_host, is_empty_list, first_entry, last_entry,
}
use l7rp.Listener.Tls.Choice.{get_certificate-entries}

-- A certificate is the path of its file.
abbrev load_pair : Str → Str → Option Str
load_pair cert key = some cert

abbrev entries : List TlsCert
entries =
    record {
      cert = bytes "a";
      key = bytes "k";
      hosts = bytes "*.Example.com" ∷ bytes "www.example.com" ∷ [];
    }
    ∷ record { cert = bytes "b"; key = bytes "k"; hosts = [] }
    ∷ record { cert = bytes "c"; key = bytes "k"; hosts = bytes "*.sub.example.com" ∷ [] }
    ∷ []

abbrev cert_map : CertMap Str
cert_map = record {
  exact = (bytes "www.example.com", bytes "a") ∷ [];
  wildcards = (bytes ".sub.example.com", bytes "c") ∷ (bytes ".example.com", bytes "a") ∷ [];
  fallback = some (bytes "b");
}

built : build_cert_map load_pair entries ≡ ok cert_map
unfolding build_cert_map
built = refl

two_labels : get_certificate cert_map (bytes "x.y.example.com") ≡ some (bytes "b")
unfolding get_certificate
two_labels = refl

get_certificate-entries_example :
    get_certificate cert_map (bytes "A.Sub.example.com")
    ≡ or_else
        (last_entry load_pair (any (names_host (to_lower (bytes "A.Sub.example.com")))) entries)
        (or_else
          (first_entry load_pair (any (spans_host (to_lower (bytes "A.Sub.example.com")))) entries)
          (last_entry load_pair is_empty_list entries))
get_certificate-entries_example =
    get_certificate-entries load_pair entries cert_map (bytes "A.Sub.example.com") built
