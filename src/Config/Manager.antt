-- ===== src/Config/Manager.antt =====
-- internal/config/config.go: Load and the Manager, which holds the active configuration.
use l7rp.Base.{◌≡◌, refl, ◌⊎◌, inl, inr, List, [], ◌∷◌, Option, none, some, Option-cases, Str}
use l7rp.Config.{Config}
use l7rp.Config.Validate.{ValidationError, validate}

pub data LoadError : Type 0 where
  parse : LoadError
  invalid : ValidationError → LoadError

pub data Loaded (F : Type 0) : Type 0 where
  ok : Config F → Loaded F
  err : LoadError → Loaded F

pub record Manager (F : Type 0) : Type 0 where
  pub active : Config F

-- `decode` is gopkg.in/yaml.v3 with known fields only: a text to a configuration, or an error.
module _ {F : Type 0} (decode : Str → Option (Config F)) where
  unfoldable pub load : Str → Loaded F
  load text = elim (decode text) [
    | none ↦ err parse
    | some c ↦ elim (validate c) [ none ↦ ok c | some e ↦ err (invalid e) ]
  ]

  unfoldable pub new_manager : Config F → Manager F
  new_manager initial = record { active = initial }

  unfoldable pub swap : Manager F → Config F → Manager F
  swap m c = record { active = c }

  unfoldable pub reload : Manager F → Str → Manager F × Option LoadError
  unfolding load swap
  reload m text = elim (load text) [ ok c ↦ (swap m c, none) | err e ↦ (m, some e) ]

  unfoldable pub reloads : Manager F → List Str → Manager F
  unfolding reload
  reloads m [] = m
  reloads m (text ∷ texts) = reloads (reload m text).0 texts

  reload-cases :
      (m : Manager F) (text : Str)
      → ((validate (reload m text).0.active ≡ none) × (decode text ≡ some (reload m text).0.active))
        ⊎ ((reload m text).0 ≡ m)
  unfolding reload
  reload-cases m text = elim (Option-cases (decode text)) [
    | inl e ↦ inr (rw (e, reload))
    | inr (c, e) ↦ elim (Option-cases (validate c)) [
      | inl v ↦ inl (rw (e, reload, v) (v, refl))
      | inr (x, v) ↦ inr (rw (e, reload, v))
    ]
  ]

  -- Whatever texts are reloaded, the active configuration stays valid, if the initial one is.
  pub reloads-valid :
      (m : Manager F) (texts : List Str)
      → validate m.active ≡ none
      → validate (reloads m texts).active ≡ none
  unfolding reloads
  reloads-valid m [] v = v
  reloads-valid m (text ∷ texts) v =
      reloads-valid (reload m text).0 texts
        (elim (reload-cases m text) [ inl s ↦ s.0 | inr s ↦ rw s v ])

  -- A reload that returns an error, of parsing or of validation, leaves the manager as it was; one
  -- that returns none has made active the valid configuration that the text decodes to.
  pub reload-atomic :
      (m : Manager F) (text : Str)
      → ((e : LoadError) → (reload m text).1 ≡ some e → (reload m text).0 ≡ m)
        × ((reload m text).1 ≡ none
            → (decode text ≡ some (reload m text).0.active)
              × (validate (reload m text).0.active ≡ none))
  unfolding reload
  reload-atomic m text = elim (Option-cases (decode text)) [
    | inl e ↦ rw (e, reload) (λ x h. refl, λ h. cc)
    | inr (c, e) ↦ elim (Option-cases (validate c)) [
      | inl v ↦ rw (e, reload, v) (λ x h. cc, λ h. (refl, v))
      | inr (x, v) ↦ rw (e, reload, v) (λ y h. refl, λ h. cc)
    ]
  ]
