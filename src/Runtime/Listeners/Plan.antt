-- ===== src/Runtime/Listeners/Plan.antt =====
-- cmd/l7rp/main.go: what the loops of diffListeners gather, and what they do not lose again.
use l7rp.Base.{
  ℕ, ◌+◌, ◌≤◌, ◌<◌, ◌≡◌, refl, sym, ap, ◌∙◌, inl, inr, Bool, false, List, [], ◌∷◌, ◌++◌, Option,
  none, some, arith, All, All-append, Has, Has-append_left, Bool-cases, Option-cases, Str, str_eq,
  str_eq_sound,
}
use l7rp.Config.{ListenerConfig}
use l7rp.Runtime.Listeners.{
  Instance, Table, lookup, delete, insert, index_listeners_by_name, ListenerPlan, diff_old,
  diff_new,
}
use l7rp.Runtime.Listeners.Table.{AreKeyed, delete-All}

-- An instance for the name, numbered from `low` on.
abbrev pub Opened : ℕ → Str → Table → Type 0
Opened low m = Has λ e. (e.0 ≡ m) × (e.1.name ≡ m) × (low ≤ e.1.number)

delete-Opened :
    (low : ℕ) (m name : Str) (t : Table)
    → str_eq m name ≡ false
    → Opened low m t
    → Opened low m (delete name t)
unfolding delete
delete-Opened low m name [] h o = o
delete-Opened low m name (e ∷ t) h (inl (k, n, le)) =
    let other : str_eq e.0 name ≡ false = ap (λ s. str_eq s name) k ∙ h in rw other (inl (k, n, le))
delete-Opened low m name (e ∷ t) h (inr o) = elim (Bool-cases (str_eq e.0 name)) [
  | inl k ↦ rw k (delete-Opened low m name t h o)
  | inr k ↦ rw k (inr (delete-Opened low m name t h o))
]

pub insert-Opened :
    (low : ℕ) (m name : Str) (number : ℕ) (t : Table)
    → low ≤ number
    → Opened low m t
    → Opened low m (insert name (record { name = name; number = number }) t)
insert-Opened low m name number t h o = elim (Bool-cases (str_eq m name)) [
  | inl e ↦ let k : name ≡ m = sym (str_eq_sound m name e) in inl (k, k, h)
  | inr e ↦ inr (delete-Opened low m name t e o)
]

-- A retired instance has a number below `low`.
abbrev pub IsOld : ℕ → Option Instance → Type 0
IsOld low none = Unit
IsOld low (some l) = l.number < low

-- What later rounds keep of a plan.
pub record Grows (low : ℕ) (p q : ListenerPlan) : Type 0 where
  pub opened : (m : Str) → Opened low m p.new_ones → Opened low m q.new_ones
  pub retired : (r : Option Instance) → Has (λ s. s ≡ r) p.retired → Has (λ s. s ≡ r) q.retired
  pub old : All (IsOld low) p.retired → All (IsOld low) q.retired
  pub keyed : AreKeyed p.new_ones → AreKeyed q.new_ones

Grows-refl : (low : ℕ) (p : ListenerPlan) → Grows low p p
Grows-refl low p = record { opened = λ m o. o; retired = λ r h. h; old = λ a. a; keyed = λ k. k }

Grows-trans : (low : ℕ) (p q r : ListenerPlan) → Grows low p q → Grows low q r → Grows low p r
Grows-trans low p q r a b = record {
  opened = λ m o. b.opened m (a.opened m o);
  retired = λ s h. b.retired s (a.retired s h);
  old = λ h. b.old (a.old h);
  keyed = λ k. b.keyed (a.keyed k);
}

module _ (deep_equal : ListenerConfig → ListenerConfig → Bool) (opens : ℕ → ListenerConfig → Bool)
    (listeners : Table) (low : ℕ) (numbered : All (λ e. e.1.number < low) listeners) where
  lookup-IsOld :
      (name : Str) (t : Table) → All (λ e. e.1.number < low) t → IsOld low (lookup name t)
  unfolding lookup
  lookup-IsOld name [] h = tt
  lookup-IsOld name (e ∷ t) h = elim (Bool-cases (str_eq e.0 name)) [
    | inl k ↦ rw (lookup, k) h.0
    | inr k ↦ rw (lookup, k) (lookup-IsOld name t h.1)
  ]

  retiring :
      (p : ListenerPlan) (removed replaced : List Str) (new_ones : Table) (name : Str)
      → ((m : Str) → Opened low m p.new_ones → Opened low m new_ones)
      → (AreKeyed p.new_ones → AreKeyed new_ones)
      → Grows low p (record p {
        removed = removed;
        replaced = replaced;
        new_ones = new_ones;
        retired = p.retired ++ lookup name listeners ∷ [];
      })
  retiring p removed replaced new_ones name opened keyed = record {
    opened = opened;
    retired = λ r h. Has-append_left (λ s. s ≡ r) p.retired _ h;
    old = λ a. All-append (IsOld low) p.retired _ a (lookup-IsOld name listeners numbered, tt);
    keyed = keyed;
  }

  inserting :
      (name : Str) (number : ℕ) (t : Table)
      → AreKeyed t
      → AreKeyed (insert name (record { name = name; number = number }) t)
  inserting name number t k = (refl, delete-All (λ e. e.1.name ≡ e.0) name t k)

  pub diff_old-Grows :
      (old new_cfgs : List ListenerConfig) (p : ListenerPlan) (next : ℕ)
      → low ≤ next
      → Grows low p (diff_old deep_equal opens listeners old new_cfgs p next).1
  unfolding diff_old
  diff_old-Grows [] new_cfgs p next h = Grows-refl low p
  diff_old-Grows (o ∷ old) new_cfgs p next h =
      elim (Option-cases (index_listeners_by_name new_cfgs o.name)) [
        | inl e ↦
            rw (diff_old, e)
              (Grows-trans low p _ _
                (retiring p (p.removed ++ o.name ∷ []) p.replaced p.new_ones o.name (λ m x. x)
                  (λ k. k))
                (diff_old-Grows old new_cfgs _ next h))
        | inr (n, e) ↦ elim (Bool-cases (deep_equal o n)) [
          | inl d ↦ rw (diff_old, e) (rw d (diff_old-Grows old new_cfgs p next h))
          | inr d ↦ elim (Bool-cases (opens next n)) [
            | inr c ↦ rw (diff_old, e) (rw d (rw c (Grows-refl low p)))
            | inl c ↦
                rw (diff_old, e)
                  (rw d (
                    rw c (
                      Grows-trans low p _ _
                        (retiring p p.removed (p.replaced ++ n.name ∷ [])
                          (insert n.name (record { name = n.name; number = next }) p.new_ones)
                          o.name (λ m. insert-Opened low m n.name next p.new_ones h)
                          (inserting n.name next p.new_ones))
                        (diff_old-Grows old new_cfgs _ (next + 1) (omega arith)))))
          ]
        ]
      ]

  adding :
      (p : ListenerPlan) (added : List Str) (name : Str) (number : ℕ)
      → low ≤ number
      → Grows low p (record p {
        added = added;
        new_ones = insert name (record { name = name; number = number }) p.new_ones;
      })
  adding p added name number h = record {
    opened = λ m. insert-Opened low m name number p.new_ones h;
    retired = λ r x. x;
    old = λ a. a;
    keyed = inserting name number p.new_ones;
  }

  pub diff_new-Grows :
      (old new_cfgs : List ListenerConfig) (p : ListenerPlan) (next : ℕ)
      → low ≤ next
      → Grows low p (diff_new deep_equal opens listeners old new_cfgs p next).1
  unfolding diff_new
  diff_new-Grows old [] p next h = Grows-refl low p
  diff_new-Grows old (n ∷ new_cfgs) p next h =
      elim (Option-cases (index_listeners_by_name old n.name)) [
        | inr (o, e) ↦ rw (diff_new, e) (diff_new-Grows old new_cfgs p next h)
        | inl e ↦ elim (Bool-cases (opens next n)) [
          | inr c ↦ rw (diff_new, e) (rw c (Grows-refl low p))
          | inl c ↦
              rw (diff_new, e)
                (rw c (
                  Grows-trans low p _ _ (adding p (p.added ++ n.name ∷ []) n.name next h)
                    (diff_new-Grows old new_cfgs _ (next + 1) (omega arith))))
        ]
      ]

  -- Numbers are not handed out twice.
  pub diff_old-next :
      (old new_cfgs : List ListenerConfig) (p : ListenerPlan) (next : ℕ)
      → next ≤ (diff_old deep_equal opens listeners old new_cfgs p next).2
  unfolding diff_old
  diff_old-next [] new_cfgs p next = omega arith
  diff_old-next (o ∷ old) new_cfgs p next =
      elim (Option-cases (index_listeners_by_name new_cfgs o.name)) [
        | inl e ↦ rw (diff_old, e) (diff_old-next old new_cfgs _ next)
        | inr (n, e) ↦ elim (Bool-cases (deep_equal o n)) [
          | inl d ↦ rw (diff_old, e) (rw d (diff_old-next old new_cfgs p next))
          | inr d ↦ elim (Bool-cases (opens next n)) [
            | inr c ↦ rw (diff_old, e) (rw d (rw c (omega arith)))
            | inl c ↦
                rw (diff_old, e)
                  (rw d (rw c (le-of-suc_le (diff_old-next old new_cfgs _ (next + 1)))))
          ]
        ]
      ]
    where
      le-of-suc_le : {a b : ℕ} → a + 1 ≤ b → a ≤ b
      le-of-suc_le h = omega arith
