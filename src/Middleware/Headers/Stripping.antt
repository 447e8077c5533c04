-- ===== src/Middleware/Headers/Stripping.antt =====
-- internal/middleware/headers.go: which headers of a request reach the upstream.
use l7rp.Base.{◌≡◌, refl, Bool, ◌||◌, List, [], ◌∷◌, arith, if◌then◌else◌, Str, bytes, any}
use l7rp.Http.{Header, values, get, del}
use l7rp.Http.Laws.{same_name, values-del}
use l7rp.Middleware.Headers.{hop_by_hop_header_names, del_all, listed, strip_hop_by_hop_headers}

-- A header that some of the names stand for.
abbrev pub names : List Str → Str → Bool
names ms n = any (λ m. same_name m n) ms

pub values-del_all :
    (ms : List Str) (n : Str) (h : Header)
    → values n (del_all ms h) ≡ (if names ms n then [] else values n h)
unfolding del_all
values-del_all [] n h = refl
values-del_all (m ∷ ms) n h = ground (arith, values-del_all ms n (del m h), values-del m n h)

-- Stripping takes away exactly the hop-by-hop headers and those that the Connection header lists.
pub values-strip_hop_by_hop_headers :
    (n : Str) (h : Header)
    → values n (strip_hop_by_hop_headers h) ≡ (
        if names hop_by_hop_header_names n || names (listed (get (bytes "Connection") h)) n
        then []
        else values n h)
unfolding strip_hop_by_hop_headers
values-strip_hop_by_hop_headers n h =
    let some_listed = listed (get (bytes "Connection") h) in
    ground (
      arith,
      values-del_all hop_by_hop_header_names n (del_all some_listed h),
      values-del_all some_listed n h,
    )
