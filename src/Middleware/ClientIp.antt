-- ===== src/Middleware/ClientIp.antt =====
-- internal/middleware/ratelimit.go and accesslog.go: the address of a client, and the key under which
-- its requests are limited. `xff` is the request's X-Forwarded-For, empty if it has none.
pub mod Spoofing
use l7rp.Base.{
  ℕ, ◌-◌, Bool, ◌&&◌, not, List, [], ◌∷◌, ◌++◌, Option, none, some, ltb, leb, if◌then◌else◌, Str,
  bytes, str_eq, is_empty, split, trim_space, last_index_byte, take, get_elem?, length,
}

unfoldable pub client_ip : Str → Str
client_ip addr = elim (last_index_byte 58 addr) [ some i ↦ take i addr | none ↦ addr ]

-- `len(parts) - hops`, or 0 where that is negative: `-` on ℕ is both.
unfoldable pub client_ip_with_trust : (hops : ℕ) (xff remote_addr : Str) → Str
unfolding client_ip
client_ip_with_trust hops xff remote_addr =
    let parts = split 44 xff in
    if ltb 0 hops && not (is_empty xff)
    then (elim (get_elem? parts (length parts - hops)) [
      | some part ↦ trim_space part
      | none ↦ client_ip remote_addr
    ])
    else client_ip remote_addr

unfoldable pub bucket_key : (scope route_name : Str) (hops : ℕ) (xff remote_addr : Str) → Str
unfolding client_ip_with_trust
bucket_key scope route_name hops xff remote_addr =
    if str_eq scope (bytes "per-route")
    then bytes "r:" ++ (if is_empty route_name then bytes "default" else route_name)
    else bytes "ip:" ++ client_ip_with_trust hops xff remote_addr
