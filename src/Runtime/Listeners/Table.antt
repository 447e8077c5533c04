-- ===== src/Runtime/Listeners/Table.antt =====
-- cmd/l7rp/main.go: the map rt.listeners, as apply changes it.
use l7rp.Base.{
  ◌≡◌, refl, sym, ap, subst, ◌∙◌, inl, inr, false, List, [], ◌∷◌, Option, none, some, arith, any,
  All, Has, Bool-cases, Str, str_eq, str_eq_sound,
}
use l7rp.Runtime.Listeners.{
  Instance, Table, lookup, delete, insert, insert_all, delete_retired, same,
}

-- The keys of a table are the names of its instances.
abbrev pub AreKeyed : Table → Type 0
AreKeyed = All λ e. e.1.name ≡ e.0

pub delete-All :
    (P : Str × Instance → Type 0) (name : Str) (t : Table) → All P t → All P (delete name t)
unfolding delete
delete-All P name [] h = tt
delete-All P name (e ∷ t) h = elim (Bool-cases (str_eq e.0 name)) [
  | inl k ↦ rw k (delete-All P name t h.1)
  | inr k ↦ rw k (h.0, delete-All P name t h.1)
]

-- No instance of the table has the name.
abbrev pub NoKey : Str → Table → Type 0
NoKey m = All λ e. str_eq e.0 m ≡ false

delete-NoKey : (m : Str) (t : Table) → NoKey m (delete m t)
unfolding delete
delete-NoKey m [] = tt
delete-NoKey m (e ∷ t) = elim (Bool-cases (str_eq e.0 m)) [
  | inl k ↦ rw k (delete-NoKey m t)
  | inr k ↦ rw k (k, delete-NoKey m t)
]

pub delete_retired-All :
    (P : Str × Instance → Type 0) (retired : List (Option Instance)) (t : Table)
    → All P t
    → All P (delete_retired retired t)
unfolding delete_retired
delete_retired-All P [] t h = h
delete_retired-All P (none ∷ retired) t h = delete_retired-All P retired t h
delete_retired-All P (some l ∷ retired) t h =
    delete_retired-All P retired (delete l.name t) (delete-All P l.name t h)

pub delete_retired-NoKey :
    (l : Instance) (retired : List (Option Instance)) (t : Table)
    → Has (λ r. r ≡ some l) retired
    → NoKey l.name (delete_retired retired t)
unfolding delete_retired
delete_retired-NoKey l [] t h = absurd h
delete_retired-NoKey l (none ∷ retired) t (inl e) = cc
delete_retired-NoKey l (none ∷ retired) t (inr h) = delete_retired-NoKey l retired t h
delete_retired-NoKey l (some r ∷ retired) t (inl e) =
    let e' : r ≡ l = cc in
    delete_retired-All _ retired (delete r.name t)
      (subst (λ x. NoKey x.name (delete r.name t)) e' (delete-NoKey r.name t))
delete_retired-NoKey l (some r ∷ retired) t (inr h) =
    delete_retired-NoKey l retired (delete r.name t) h

pub insert_all-AreKeyed :
    (new_ones t : Table) → AreKeyed new_ones → AreKeyed t → AreKeyed (insert_all new_ones t)
unfolding insert_all
insert_all-AreKeyed [] t k h = h
insert_all-AreKeyed (e ∷ new_ones) t k h =
    insert_all-AreKeyed new_ones (insert e.0 e.1 t) k.1 (k.0, delete-All _ e.0 t h)

pub lookup-NoKey : (m : Str) (t : Table) → NoKey m t → lookup m t ≡ none
unfolding lookup
lookup-NoKey m [] h = refl
lookup-NoKey m (e ∷ t) h = rw (lookup, h.0) (lookup-NoKey m t h.1)

pub not_in_table :
    (l : Instance) (t : Table) → AreKeyed t → NoKey l.name t → any (λ e. same e.1 l) t ≡ false
not_in_table l [] k n = refl
not_in_table l (e ∷ t) k n = ground (arith, k.0, n.0, not_in_table l t k.1 n.1)

pub lookup-name :
    (m : Str) (t : Table) (l : Instance) → AreKeyed t → lookup m t ≡ some l → l.name ≡ m
unfolding lookup
lookup-name m [] l k h = cc
lookup-name m (e ∷ t) l k h = elim (Bool-cases (str_eq e.0 m)) [
  | inl s ↦
      let same_instance : e.1 ≡ l = ground arith in
      ap (λ x. x.name) (sym same_instance) ∙ k.0 ∙ str_eq_sound e.0 m s
  | inr s ↦ lookup-name m t l k.1 (ground arith)
]
