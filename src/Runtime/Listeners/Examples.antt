-- ===== src/Runtime/Listeners/Examples.antt =====
-- A reload that changes the bind address of a listener.
use l7rp.Base.{
  ℕ, ◌≡◌, refl, ◌≤◌, inl, Bool, true, false, List, [], ◌∷◌, none, some, arith, Has, Str, bytes,
  str_eq,
}
use l7rp.Base.Int.{pos}
use l7rp.Config.{ListenerConfig}
use l7rp.Runtime.Listeners.{
  Instance, Listeners, lookup, index_listeners_by_name, diff_listeners, apply, shutdown,
}
use l7rp.Runtime.Listeners.Replacement.{Changes, replaced_lost}

abbrev listener : Str → ListenerConfig
listener bind = record {
  name = bytes "web";
  bind = bind;
  tls = none;
  timeouts = record {
    read_header = pos 0;
    read = pos 0;
    write = pos 0;
    idle = pos 0;
    max_header_bytes = pos 0;
  };
  enable_http3 = false;
}

abbrev same_bind : ListenerConfig → ListenerConfig → Bool
same_bind a b = str_eq a.bind b.bind

abbrev opens : ℕ → ListenerConfig → Bool
opens n lc = true

abbrev web : Instance
web = record { name = bytes "web"; number = 0 }

abbrev live : Listeners
live = record { table = (bytes "web", web) ∷ []; serving = web ∷ [] }

abbrev old : List ListenerConfig
old = listener (bytes ":80") ∷ []

abbrev changed : List ListenerConfig
changed = listener (bytes ":8080") ∷ []

found : lookup (bytes "web") live.table ≡ some web
unfolding lookup
found = refl

differs : Has (Changes same_bind changed (bytes "web")) old
unfolding index_listeners_by_name
differs = inl (refl, (listener (bytes ":8080"), refl, refl))

ran : (diff_listeners same_bind opens live.table old changed 1).0 ≡ true
unfolding diff_listeners
ran = refl

replaced_lost_example :
    let after = apply (diff_listeners same_bind opens live.table old changed 1).1 live in
    (lookup (bytes "web") after.table ≡ none)
    × Has (λ x. (x.name ≡ bytes "web") × (1 ≤ x.number)) (shutdown after)
replaced_lost_example =
    replaced_lost same_bind opens live old changed 1 (bytes "web") web (refl, tt) (omega arith, tt)
      found differs ran
