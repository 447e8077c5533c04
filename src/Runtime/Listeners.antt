-- ===== src/Runtime/Listeners.antt =====
-- cmd/l7rp/main.go: the listeners of the runtime, their diff on a reload, and the shutdown.
-- `deep_equal` is reflect.DeepEqual on two configurations, and `opens n lc` tells whether the n-th
-- call of listener.New succeeds. Instances are told apart by name and number. A map is an
-- association list; the order in which Go ranges over one makes no difference here.
pub mod Table
pub mod Plan
pub mod Replacement
mod Examples
use l7rp.Base.{
  ℕ, ◌+◌, Bool, true, false, ◌&&◌, ◌||◌, not, List, [], ◌∷◌, ◌++◌, Option, none, some, ◌==◌,
  if◌then◌else◌, map, keep, any, Str, str_eq,
}
use l7rp.Config.{ListenerConfig}

pub record Instance : Type 0 where
  pub name : Str
  pub number : ℕ

abbrev pub same : Instance → Instance → Bool
same a b = str_eq a.name b.name && a.number == b.number

abbrev pub Table : Type 0
Table = List (Str × Instance)

unfoldable pub lookup : Str → Table → Option Instance
lookup name [] = none
lookup name ((key, l) ∷ t) = let rest = lookup name t in if str_eq key name then some l else rest

unfoldable pub delete : Str → Table → Table
delete name t = keep (λ e. not (str_eq e.0 name)) t

abbrev pub insert : Str → Instance → Table → Table
insert name l t = (name, l) ∷ delete name t

-- The map from names to configurations: the last of a name wins.
unfoldable pub index_listeners_by_name : List ListenerConfig → Str → Option ListenerConfig
index_listeners_by_name [] name = none
index_listeners_by_name (lc ∷ lcs) name = elim (index_listeners_by_name lcs name) [
  | some found ↦ some found
  | none ↦ if str_eq lc.name name then some lc else none
]

pub record ListenerPlan : Type 0 where
  pub added : List Str
  pub replaced : List Str
  pub removed : List Str
  pub new_ones : Table
  pub retired : List (Option Instance)

abbrev pub empty_plan : ListenerPlan
empty_plan = record { added = []; replaced = []; removed = []; new_ones = []; retired = [] }

-- What the loops return: whether they ran to the end, their plan, and the number for the next call.
abbrev pub Diff : Type 0
Diff = Bool × ListenerPlan × ℕ

module _ (deep_equal : ListenerConfig → ListenerConfig → Bool) (opens : ℕ → ListenerConfig → Bool)
    (listeners : Table) where
  -- The loop over the old configurations.
  unfoldable pub diff_old : (old new_cfgs : List ListenerConfig) → ListenerPlan → ℕ → Diff
  unfolding index_listeners_by_name lookup
  diff_old [] new_cfgs plan next = (true, plan, next)
  diff_old (o ∷ old) new_cfgs plan next = elim (index_listeners_by_name new_cfgs o.name) [
    | none ↦
        diff_old old new_cfgs
          (record plan {
            removed = plan.removed ++ o.name ∷ [];
            retired = plan.retired ++ lookup o.name listeners ∷ [];
          })
          next
    | some n ↦
        let unchanged = diff_old old new_cfgs plan next in
        let replace =
          diff_old old new_cfgs
            (record plan {
              replaced = plan.replaced ++ n.name ∷ [];
              new_ones = insert n.name (record { name = n.name; number = next }) plan.new_ones;
              retired = plan.retired ++ lookup o.name listeners ∷ [];
            })
            (next + 1) in
        if deep_equal o n then unchanged else if opens next n then replace else (false, plan, next)
  ]

  -- The loop over the new configurations.
  unfoldable pub diff_new : (old new_cfgs : List ListenerConfig) → ListenerPlan → ℕ → Diff
  unfolding index_listeners_by_name
  diff_new old [] plan next = (true, plan, next)
  diff_new old (n ∷ new_cfgs) plan next = elim (index_listeners_by_name old n.name) [
    | some o ↦ diff_new old new_cfgs plan next
    | none ↦
        let add =
          diff_new old new_cfgs
            (record plan {
              added = plan.added ++ n.name ∷ [];
              new_ones = insert n.name (record { name = n.name; number = next }) plan.new_ones;
            })
            (next + 1) in
        if opens next n then add else (false, plan, next)
  ]

  unfoldable pub diff_listeners : (old new_cfgs : List ListenerConfig) → ℕ → Diff
  unfolding diff_old diff_new
  diff_listeners old new_cfgs next =
      let (done, plan, next') = diff_old old new_cfgs empty_plan next in
      let rest = diff_new old new_cfgs plan next' in if done then rest else (false, plan, next')

-- The map rt.listeners, and the instances whose goroutine runs Serve.
pub record Listeners : Type 0 where
  pub table : Table
  pub serving : List Instance

unfoldable pub insert_all : Table → Table → Table
unfolding delete
insert_all [] t = t
insert_all ((name, l) ∷ new_ones) t = insert_all new_ones (insert name l t)

unfoldable pub delete_retired : List (Option Instance) → Table → Table
unfolding delete
delete_retired [] t = t
delete_retired (none ∷ retired) t = delete_retired retired t
delete_retired (some l ∷ retired) t = delete_retired retired (delete l.name t)

abbrev pub is_retired : List (Option Instance) → Instance → Bool
is_retired [] l = false
is_retired (none ∷ retired) l = is_retired retired l
is_retired (some r ∷ retired) l = same r l || is_retired retired l

-- apply, and the end of the drain in its background: a retired instance has left Serve.
unfoldable pub apply : ListenerPlan → Listeners → Listeners
unfolding insert_all delete_retired
apply plan ls = record {
  table = delete_retired plan.retired (insert_all plan.new_ones ls.table);
  serving =
      keep (λ l. not (is_retired plan.retired l)) (ls.serving ++ map (λ e. e.1) plan.new_ones);
}

-- The end of serve: what Shutdown is called on leaves Serve. `rt.listenerWG.Wait` returns when none
-- is left.
unfoldable pub shutdown : Listeners → List Instance
shutdown ls = keep (λ l. not (any (λ e. same e.1 l) ls.table)) ls.serving
