-- ===== src/Middleware/Headers/Forwarded.antt =====
-- internal/middleware/headers.go and ratelimit.go: what one proxy writes into X-Forwarded-For and the
-- next one reads out of it.
use mathlib.Core.List.{reverse-cons, append_assoc, append-nil}
use l7rp.Base.{
  ℕ, ◌≡◌, refl, sym, ap, ◌∙◌, ◌≢◌, Bool, true, false, not, [], ◌∷◌, ◌++◌, arith, if◌then◌else◌,
  Bool-cases, inl, inr, Str, bytes, is_empty, contains_byte, split_from, reverse, trim_space, ◌==◌,
}
use l7rp.Http.{Header, get, set, canonical_key}
use l7rp.Http.Laws.{same_name, values-set}
use l7rp.Middleware.ClientIp.{client_ip_with_trust}
use l7rp.Middleware.ClientIp.Spoofing.{client_ip_with_trust-append, length-split_from_pos}
use l7rp.Middleware.Headers.{Request, set_absent, set_forwarded_headers}

split_from_whole :
    (b : ℕ) (cur s : Str) → contains_byte b s ≡ false → split_from b cur s ≡ (reverse cur ++ s) ∷ []
split_from_whole b cur [] h = ap (λ t. t ∷ []) (sym (append-nil (reverse cur)))
split_from_whole b cur (c ∷ s) h =
    let joined : (reverse (c ∷ cur) ++ s) ∷ [] ≡ (reverse cur ++ c ∷ s) ∷ [] =
      ap (λ t. t ∷ [])
        (ap (λ t. t ++ s) (reverse-cons c cur) ∙ append_assoc (reverse cur) (c ∷ []) s) in
    elim (Bool-cases (c == b)) [
      | inl e ↦ absurd (let clash : true ≡ false = rw e at h in cc)
      | inr e ↦ rw e (split_from_whole b (c ∷ cur) s (rw e at h) ∙ joined)
    ]

get-set : (m n v : Str) (h : Header) → get n (set m v h) ≡ (if same_name m n then v else get n h)
unfolding get
get-set m n v h = rw (values-set m n v h) (ground arith)

-- Other headers are set behind X-Forwarded-For, and it stays.
get-set_absent :
    (wanted : Bool) (m n v : Str) (h : Header)
    → same_name m n ≡ false
    → get n (set_absent wanted m v h) ≡ get n h
get-set_absent wanted m n v h e = ground (arith, get-set m n v h)

-- The address that is appended, as set_forwarded_headers takes it.
abbrev pub c_ip : ℕ → Request → Str
c_ip hops r = client_ip_with_trust hops (get (bytes "X-Forwarded-For") r.header) r.remote_addr

-- A text that is one entry of the chain: not empty, without a comma, and without spaces around it.
pub record IsEntry (s : Str) : Type 0 where
  pub not_empty : s ≢ []
  pub no_comma : contains_byte 44 s ≡ false
  pub trimmed : trim_space s ≡ s
  pub trimmed_behind : trim_space (32 ∷ s) ≡ s

read_last :
    (s addr : Str)
    → contains_byte 44 s ≡ false
    → s ≢ []
    → client_ip_with_trust 1 s addr ≡ trim_space s
unfolding client_ip_with_trust
read_last [] addr h n = absurd (n refl)
read_last (c ∷ s) addr h n = rw (split_from_whole 44 [] (c ∷ s) h) (ground arith)

spaced : (s : Str) → contains_byte 44 s ≡ false → contains_byte 44 (32 ∷ s) ≡ false
spaced s h = h

chain_read :
    (existing s addr : Str)
    → IsEntry s
    → client_ip_with_trust 1 (if is_empty existing then s else existing ++ 44 ∷ 32 ∷ s) addr ≡ s
chain_read [] s addr v = read_last s addr v.no_comma v.not_empty ∙ v.trimmed
chain_read (c ∷ existing) s addr v =
    client_ip_with_trust-append 1 (c ∷ existing) (32 ∷ s) addr (omega arith)
      (length-split_from_pos 44 [] (32 ∷ s)) (λ e. cc)
    ∙ read_last (32 ∷ s) addr (spaced s (v.no_comma)) (λ e. cc)
    ∙ v.trimmed_behind

not_empty : (s : Str) → s ≢ [] → is_empty s ≡ false
not_empty [] n = absurd (n refl)
not_empty (c ∷ s) n = refl

chain_set :
    (hops : ℕ) (r : Request)
    → c_ip hops r ≢ []
    → get (bytes "X-Forwarded-For") (set_forwarded_headers hops r).header ≡ (
        let existing = get (bytes "X-Forwarded-For") r.header in
        if is_empty existing then c_ip hops r else existing ++ 44 ∷ 32 ∷ c_ip hops r)
unfolding set_forwarded_headers canonical_key
chain_set hops r n =
    let existing = get (bytes "X-Forwarded-For") r.header in
    let ip = c_ip hops r in
    let chain : Str = if is_empty existing then ip else existing ++ 44 ∷ 32 ∷ ip in
    let h0 = set (bytes "X-Forwarded-For") chain r.header in
    let h1 = set_absent true (bytes "X-Real-IP") ip h0 in
    let h2 = set_absent (not (is_empty r.host)) (bytes "X-Forwarded-Host") r.host h1 in
    let proto : Str = if r.tls then bytes "https" else bytes "http" in
    rw (set_forwarded_headers, not_empty ip n)
      (get-set (bytes "X-Forwarded-Proto") (bytes "X-Forwarded-For") proto h2
        ∙ get-set_absent (not (is_empty r.host)) (bytes "X-Forwarded-Host")
            (bytes "X-Forwarded-For") r.host h1 refl
        ∙ get-set_absent true (bytes "X-Real-IP") (bytes "X-Forwarded-For") ip h0 refl
        ∙ get-set (bytes "X-Forwarded-For") (bytes "X-Forwarded-For") chain r.header)

-- The next proxy, which trusts one hop, takes from the header the address that this one appended,
-- whatever chain the request came with, if that address is an entry: not empty, without a comma
-- and without spaces around it.
pub forwarded-read :
    (hops : ℕ) (r : Request) (addr : Str)
    → IsEntry (c_ip hops r)
    → client_ip_with_trust 1
        (get (bytes "X-Forwarded-For") (set_forwarded_headers hops r).header)
        addr
      ≡ c_ip hops r
forwarded-read hops r addr v =
    ap (λ chain. client_ip_with_trust 1 chain addr) (chain_set hops r v.not_empty)
    ∙ chain_read (get (bytes "X-Forwarded-For") r.header) (c_ip hops r) addr v
