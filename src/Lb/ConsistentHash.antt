-- ===== src/Lb/ConsistentHash.antt =====
-- internal/lb/consistenthash.go: consistent hashing with bounded loads. The positions that SHA-256
-- gives to a key and to a virtual node are parameters; an entry of the ring names its upstream by id.
pub mod Bounded
use l7rp.Base.{
  ℕ, zero, suc, ◌+◌, ◌-◌, List, [], ◌∷◌, ◌++◌, Option, none, some, ◌==◌, ltb, leb, if◌then◌else◌,
  take, drop, length, Float64, Str,
}
use l7rp.Lb.Upstream.{Upstream}
use l7rp.Lb.Selector.{contains}

pub record RingEntry : Type 0 where
  pub pos : ℕ
  pub upstream : ℕ

-- sort.Slice by position, as an insertion sort.
unfoldable pub insert_entry : RingEntry → List RingEntry → List RingEntry
insert_entry e [] = e ∷ []
insert_entry e (f ∷ ring) = if ltb f.pos e.pos then f ∷ insert_entry e ring else e ∷ f ∷ ring

-- The entries of one upstream, from the last index down, put in front of a ring.
unfoldable pub add_entries : (ℕ → ℕ) → ℕ → ℕ → List RingEntry → List RingEntry
unfolding insert_entry
add_entries position id zero ring = ring
add_entries position id (suc i) ring =
    insert_entry (record { pos = position i; upstream = id }) (add_entries position id i ring)

unfoldable pub new_ring : (Str → ℕ → ℕ) → ℕ → List Upstream → List RingEntry
unfolding add_entries
new_ring hash_virtual_node virtual_nodes [] = []
new_ring hash_virtual_node virtual_nodes (u ∷ pool) =
    add_entries (hash_virtual_node u.url) u.id virtual_nodes
      (new_ring hash_virtual_node virtual_nodes pool)

-- sort.Search: the first position that is not below `pos`, or the length.
unfoldable pub search : ℕ → List RingEntry → ℕ
search pos [] = 0
search pos (e ∷ ring) = let rest = search pos ring in if leb pos e.pos then 0 else suc rest

-- The entries in the order of the walk. From the length on it starts at 0, as dropping them all does.
unfoldable pub clockwise : ℕ → List RingEntry → List RingEntry
unfolding search
clockwise pos ring = drop (search pos ring) ring ++ take (search pos ring) ring

abbrev pub total_in_flight : List Upstream → ℕ
total_in_flight [] = 0
total_in_flight (u ∷ eligible) = u.in_flight + total_in_flight eligible

unfoldable pub capacity : (fl : Float64) → fl.F → List Upstream → ℕ
capacity fl epsilon eligible =
    let mean = fl.div (fl.of_int (total_in_flight eligible)) (fl.of_int (length eligible)) in
    let cap = fl.to_int (fl.ceil (fl.mul (fl.add (fl.of_int 1) epsilon) mean)) in
    if ltb cap 1 then 1 else cap

-- eligibleLookup.
unfoldable pub find : List Upstream → ℕ → Option Upstream
find [] id = none
find (u ∷ eligible) id = if u.id == id then some u else find eligible id

unfoldable pub walk :
    List Upstream → (cap : ℕ) → (visited : List ℕ) → List RingEntry → Option Upstream
walk eligible cap visited [] = none
walk eligible cap visited (e ∷ ring) =
    let again = walk eligible cap visited ring in
    let next = walk eligible cap (e.upstream ∷ visited) ring in
    elim (find eligible e.upstream) [
      | none ↦ again
      | some u ↦
          if contains visited e.upstream
          then again
          else if leb (u.in_flight + 1) cap
          then some u
          else next
    ]

-- The fallback: the first with the fewest requests in flight.
unfoldable pub lowest : ℕ → Option Upstream → List Upstream → Option Upstream
lowest least best [] = best
lowest least best (u ∷ eligible) =
    lowest (if ltb u.in_flight least then u.in_flight else least)
      (if ltb u.in_flight least then some u else best) eligible

abbrev pub max_int64 : ℕ
max_int64 = 9223372036854775807

unfoldable pub choose_consistent_hash :
    (fl : Float64) → fl.F → List RingEntry → (pos : ℕ) → List Upstream → Option Upstream
unfolding clockwise capacity walk lowest
choose_consistent_hash fl epsilon ring pos [] = none
choose_consistent_hash fl epsilon ring pos (u ∷ []) = some u
choose_consistent_hash fl epsilon ring pos (u ∷ v ∷ rest) =
    let eligible = u ∷ v ∷ rest in
    elim (walk eligible (capacity fl epsilon eligible) [] (clockwise pos ring)) [
      | some x ↦ some x
      | none ↦ lowest max_int64 none eligible
    ]
