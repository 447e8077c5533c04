-- ===== src/Middleware/ClientIp/Spoofing.antt =====
-- internal/middleware/ratelimit.go: what a client writes into X-Forwarded-For itself.
use l7rp.Base.{
  ℕ, suc, ◌+◌, ◌-◌, ◌≤◌, ◌<◌, ◌≡◌, refl, ◌∙◌, ap, ◌≢◌, List, [], ◌∷◌, ◌++◌, false, arith, Str,
  is_empty, split, split_from, get_elem?, length, length-append,
}
use l7rp.Middleware.ClientIp.{client_ip_with_trust}

-- Splitting at a separator in the middle.
split_from-append :
    (b : ℕ) (cur s t : Str)
    → split_from b cur (s ++ b ∷ t) ≡ split_from b cur s ++ split_from b [] t
split_from-append b cur [] t = ground arith
split_from-append b cur (c ∷ s) t =
    ground (arith, split_from-append b [] s t, split_from-append b (c ∷ cur) s t)

pub length-split_from_pos : (b : ℕ) (cur s : Str) → 0 < length (split_from b cur s)
length-split_from_pos b cur [] = omega arith
length-split_from_pos b cur (c ∷ s) =
    ground (arith, length-split_from_pos b [] s, length-split_from_pos b (c ∷ cur) s)

get_elem?-append_right {ℓ} :
    {A : Type ℓ} (xs ys : List A) (i : ℕ) → get_elem? (xs ++ ys) (length xs + i) ≡ get_elem? ys i
get_elem?-append_right [] ys i = ap (get_elem? ys) (zero_add i)
  where
    zero_add : (n : ℕ) → 0 + n ≡ n
    zero_add n = omega arith
get_elem?-append_right (x ∷ xs) ys i =
    ap (get_elem? (x ∷ xs ++ ys)) (suc_add (length xs) i) ∙ get_elem?-append_right xs ys i
  where
    suc_add : (m n : ℕ) → suc m + n ≡ suc (m + n)
    suc_add m n = omega arith

is_empty-append : (s t : Str) (b : ℕ) → is_empty (s ++ b ∷ t) ≡ false
is_empty-append [] t b = refl
is_empty-append (c ∷ s) t b = refl

-- With `hops` trusted proxies, each of which appended one entry to X-Forwarded-For, what the client
-- had put in front of these entries does not change the address that is taken, nor the bucket.
pub client_ip_with_trust-append :
    (hops : ℕ) (forged trusted remote_addr : Str)
    → 0 < hops
    → hops ≤ length (split 44 trusted)
    → trusted ≢ []
    → client_ip_with_trust hops (forged ++ 44 ∷ trusted) remote_addr
      ≡ client_ip_with_trust hops trusted remote_addr
unfolding client_ip_with_trust
client_ip_with_trust-append hops forged [] remote_addr h many n = absurd (n refl)
client_ip_with_trust-append hops forged (c ∷ trusted) remote_addr h many n =
    let t = c ∷ trusted in
    let parts = split_from-append 44 [] forged t in
    let front = split 44 forged in
    let back = split 44 t in
    let position : length (front ++ back) - hops ≡ length front + (length back - hops) =
      omega (arith, length-append front back) in
    rw
      (
        is_empty-append forged t 44,
        parts,
        position,
        get_elem?-append_right front back (length back - hops),
      )
      refl
