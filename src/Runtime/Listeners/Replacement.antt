-- ===== src/Runtime/Listeners/Replacement.antt =====
-- cmd/l7rp/main.go: what becomes of a listener whose configuration a reload changes.
use l7rp.Base.{
  ℕ, ◌+◌, ◌≤◌, ◌<◌, ◌≡◌, refl, sym, ap, subst, ◌∙◌, inl, inr, Bool, true, false, not, List, [], ◌∷◌,
  ◌++◌, Option, none, some, arith, map, All, Has, Has-append_right, Has-keep, Bool-cases,
  Option-cases, Str, str_eq_sound,
}
use l7rp.Config.{ListenerConfig}
use l7rp.Runtime.Listeners.{
  Instance, Table, lookup, insert, index_listeners_by_name, ListenerPlan, empty_plan, diff_old,
  diff_listeners, insert_all, delete_retired, is_retired, Listeners, apply, shutdown,
}
use l7rp.Runtime.Listeners.Plan.{Opened, IsOld, diff_old-Grows, diff_new-Grows, diff_old-next}
use l7rp.Runtime.Listeners.Table.{
  AreKeyed, NoKey, delete_retired-All, delete_retired-NoKey, insert_all-AreKeyed, lookup-NoKey,
  not_in_table, lookup-name,
}

index_listeners_by_name-name :
    (lcs : List ListenerConfig) (name : Str) (n : ListenerConfig)
    → index_listeners_by_name lcs name ≡ some n
    → n.name ≡ name
unfolding index_listeners_by_name
index_listeners_by_name-name [] name n h = cc
index_listeners_by_name-name (lc ∷ lcs) name n h =
    ground (arith, index_listeners_by_name-name lcs name n, str_eq_sound lc.name name)

-- The old configuration of a listener that the new one changes.
abbrev pub Changes :
    (ListenerConfig → ListenerConfig → Bool) → List ListenerConfig → Str → ListenerConfig → Type 0
Changes deep_equal new_cfgs m o =
    (o.name ≡ m)
    × ((n : ListenerConfig) × (index_listeners_by_name new_cfgs m ≡ some n)
        × (deep_equal o n ≡ false))

module _ (deep_equal : ListenerConfig → ListenerConfig → Bool) (opens : ℕ → ListenerConfig → Bool)
    (listeners : Table) (low : ℕ) (numbered : All (λ e. e.1.number < low) listeners) where
  -- A changed listener gets a new instance, and its old one is retired.
  pub diff_old-replaces :
      (old new_cfgs : List ListenerConfig) (p : ListenerPlan) (next : ℕ) (m : Str)
      → low ≤ next
      → Has (Changes deep_equal new_cfgs m) old
      → (diff_old deep_equal opens listeners old new_cfgs p next).0 ≡ true
      → let q = (diff_old deep_equal opens listeners old new_cfgs p next).1 in
        Opened low m q.new_ones × Has (λ r. r ≡ lookup m listeners) q.retired
  unfolding diff_old
  diff_old-replaces [] new_cfgs p next m h c done = absurd c
  diff_old-replaces (o ∷ old) new_cfgs p next m h (inl (same_name, (n, e, d))) done =
      let e' : index_listeners_by_name new_cfgs o.name ≡ some n =
        ap (index_listeners_by_name new_cfgs) same_name ∙ e in
      let named = index_listeners_by_name-name new_cfgs m n e in
      elim (Bool-cases (opens next n)) [
        | inr c ↦ absurd (ground arith)
        | inl c ↦
            let q : ListenerPlan = record p {
              replaced = p.replaced ++ n.name ∷ [];
              new_ones = insert n.name (record { name = n.name; number = next }) p.new_ones;
              retired = p.retired ++ lookup o.name listeners ∷ [];
            } in
            let later =
              diff_old-Grows deep_equal opens listeners low numbered old new_cfgs q (next + 1)
                (omega arith) in
            rw (diff_old, e')
              (rw d (
                rw c (
                  later.opened m (inl (named, named, h)),
                  later.retired (lookup m listeners) (
                      Has-append_right (λ s. s ≡ lookup m listeners) p.retired _
                        (inl (ap (λ k. lookup k listeners) same_name))),
                )))
      ]
  diff_old-replaces (o ∷ old) new_cfgs p next m h (inr there) done =
      elim (Option-cases (index_listeners_by_name new_cfgs o.name)) [
        | inl e ↦
            rw (diff_old, e)
              (diff_old-replaces old new_cfgs _ next m h there (rw (diff_old, e) at done))
        | inr (n, e) ↦ elim (Bool-cases (deep_equal o n)) [
          | inl d ↦
              rw (diff_old, e)
                (rw d (diff_old-replaces old new_cfgs p next m h there (ground arith)))
          | inr d ↦ elim (Bool-cases (opens next n)) [
            | inr c ↦ absurd (ground arith)
            | inl c ↦
                rw (diff_old, e)
                  (rw d (
                    rw c (
                      diff_old-replaces old new_cfgs _ (next + 1) m (omega arith) there
                        (ground arith))))
          ]
        ]
      ]

not_retired :
    (low : ℕ) (l : Instance) (retired : List (Option Instance))
    → low ≤ l.number
    → All (IsOld low) retired
    → is_retired retired l ≡ false
not_retired low l [] h a = refl
not_retired low l (none ∷ retired) h a = not_retired low l retired h a.1
not_retired low l (some r ∷ retired) h a = ground (arith, a.0, not_retired low l retired h a.1)

serving_opened :
    (low : ℕ) (m : Str) (serving : List Instance) (t : Table)
    → Opened low m t
    → Has (λ x. (x.name ≡ m) × (low ≤ x.number)) (serving ++ map (λ e. e.1) t)
serving_opened low m serving t o =
    Has-append_right (λ x. (x.name ≡ m) × (low ≤ x.number)) serving _ (instances t o)
  where
    instances :
        (us : Table)
        → Opened low m us
        → Has (λ x. (x.name ≡ m) × (low ≤ x.number)) (map (λ e. e.1) us)
    instances [] h = h
    instances (e ∷ us) (inl h) = inl (h.1, h.2)
    instances (e ∷ us) (inr h) = inr (instances us h)

-- The plan of a diff that ran to the end retires the old instance and has a new one, for each
-- changed listener.
diff_listeners-replaces :
    (deep_equal : ListenerConfig → ListenerConfig → Bool) (opens : ℕ → ListenerConfig → Bool)
    (listeners : Table) (old new_cfgs : List ListenerConfig) (next : ℕ) (m : Str)
    → All (λ e. e.1.number < next) listeners
    → Has (Changes deep_equal new_cfgs m) old
    → (diff_listeners deep_equal opens listeners old new_cfgs next).0 ≡ true
    → let plan = (diff_listeners deep_equal opens listeners old new_cfgs next).1 in
      Opened next m plan.new_ones
      × Has (λ r. r ≡ lookup m listeners) plan.retired
      × All (IsOld next) plan.retired
      × AreKeyed plan.new_ones
unfolding diff_listeners
diff_listeners-replaces deep_equal opens listeners old new_cfgs next m v c done =
    let d0 = diff_old deep_equal opens listeners old new_cfgs empty_plan next in
    let ran : d0.0 ≡ true = elim (Bool-cases d0.0) [
      | inl e ↦ e
      | inr e ↦ absurd (let bad : false ≡ true = rw (diff_listeners, e) at done in cc)
    ] in
    let le = diff_old-next deep_equal opens listeners next v old new_cfgs empty_plan next in
    let first =
      diff_old-Grows deep_equal opens listeners next v old new_cfgs empty_plan next (omega arith) in
    let then_new = diff_new-Grows deep_equal opens listeners next v old new_cfgs d0.1 d0.2 le in
    let (opened, retired) =
      diff_old-replaces deep_equal opens listeners next v old new_cfgs empty_plan next m
        (omega arith) c ran in
    rw (diff_listeners, ran)
      (
        then_new.opened m opened,
        then_new.retired (lookup m listeners) retired,
        then_new.old (first.old tt),
        then_new.keyed (first.keyed tt),
      )

-- A reload whose diff runs to its end and that changes the configuration of a live listener leaves
-- the listener's name out of the table, and its new instance, which serves, is not among those
-- that the end of the program shuts down, so that the wait for their goroutines there does not
-- return. The table's keys are its instances' names, and its instances were numbered before the
-- reload.
pub replaced_lost :
    (deep_equal : ListenerConfig → ListenerConfig → Bool) (opens : ℕ → ListenerConfig → Bool)
    (ls : Listeners) (old new_cfgs : List ListenerConfig) (next : ℕ) (m : Str) (l : Instance)
    → AreKeyed ls.table
    → All (λ e. e.1.number < next) ls.table
    → lookup m ls.table ≡ some l
    → Has (Changes deep_equal new_cfgs m) old
    → (diff_listeners deep_equal opens ls.table old new_cfgs next).0 ≡ true
    → let after = apply (diff_listeners deep_equal opens ls.table old new_cfgs next).1 ls in
      (lookup m after.table ≡ none) × Has (λ x. (x.name ≡ m) × (next ≤ x.number)) (shutdown after)
unfolding apply shutdown
replaced_lost deep_equal opens ls old new_cfgs next m l keyed v live c done =
    let plan = (diff_listeners deep_equal opens ls.table old new_cfgs next).1 in
    let (opened, retired, old_ones, new_keyed) =
      diff_listeners-replaces deep_equal opens ls.table old new_cfgs next m v c done in
    let table = delete_retired plan.retired (insert_all plan.new_ones ls.table) in
    let table-AreKeyed : AreKeyed table =
      delete_retired-All _ plan.retired _
        (insert_all-AreKeyed plan.new_ones ls.table new_keyed keyed) in
    let named = lookup-name m ls.table l keyed live in
    let gone : NoKey m table =
      subst (λ n. NoKey n table) named
        (delete_retired-NoKey l plan.retired _
          (subst (λ o. Has (λ r. r ≡ o) plan.retired) live retired)) in
    (
      lookup-NoKey m table gone,
      Has-keep _ _ _
          (λ x h.
            ap not
              (not_in_table x table table-AreKeyed (subst (λ n. NoKey n table) (sym h.0) gone)))
          (Has-keep _ _ _ (λ x h. ap not (not_retired next x plan.retired h.1 old_ones))
            (serving_opened next m ls.serving plan.new_ones opened)),
    )
