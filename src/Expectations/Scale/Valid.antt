-- ===== src/Expectations/Scale/Valid.antt =====
-- The shape of the cache of scale expectations, which its operations keep.
use inplaceu.Base.{
  some, ◌≡◌, inl, inr, Text, text_eq, lookup, insert, remove, arith, lookup-insert, lookup-remove,
  ◌==◌, Unique, insert-Unique, Option-cases, Bool-cases,
}
use inplaceu.Sets.{StringSet}
use inplaceu.Expectations.Scale.{
  ScaleAction, action_eq, ControllerScaleExpectations, Cache, or_new, expect_scale,
  find_unsatisfied, forget_satisfied, observe_scale, delete_expectations,
}
use inplaceu.Expectations.Scale.Pending.{observe_scale-found}

module _ (sets : StringSet) where
  open sets use {Carrier, has, len, list}

  -- No controller's cache holds two sets for one action.
  abbrev pub IsValid : Cache sets → Type 0
  IsValid cache =
      (k : Text) (e : ControllerScaleExpectations Carrier)
      → lookup k cache ≡ some e
      → Unique e.objs_cache

  pub insert-IsValid :
      (key : Text) (e : ControllerScaleExpectations Carrier) (cache : Cache sets)
      → Unique e.objs_cache
      → IsValid cache
      → IsValid (insert key e cache)
  insert-IsValid key e cache u v k e' h = elim (Bool-cases (key == k)) [
    | inl same ↦ ground (arith, same, lookup-insert key k e cache)
    | inr other ↦ v k e' (ground (arith, other, lookup-insert key k e cache))
  ]

  pub remove-IsValid :
      (key : Text) (cache : Cache sets) → IsValid cache → IsValid (remove key cache)
  remove-IsValid key cache v k e h = v k e (ground (arith, lookup-remove key k cache))

  -- Forgetting a controller keeps the cache valid.
  pub delete_expectations-IsValid :
      (key : Text) (cache : Cache sets)
      → IsValid cache
      → IsValid (delete_expectations sets key cache)
  unfolding delete_expectations
  delete_expectations-IsValid = remove-IsValid

  or_new-Unique :
      (key : Text) (cache : Cache sets)
      → IsValid cache
      → Unique (or_new sets (lookup key cache)).objs_cache
  or_new-Unique key cache v = elim (Option-cases (lookup key cache)) [
    | inl h ↦ rw h tt
    | inr (e, h) ↦ rw h (v key e h)
  ]

  -- Awaiting a name keeps the cache valid.
  pub expect_scale-IsValid :
      (key : Text) (action : ScaleAction) (name : Text) (cache : Cache sets)
      → IsValid cache
      → IsValid (expect_scale sets key action name cache)
  unfolding expect_scale
  expect_scale-IsValid key action name cache v =
      insert-IsValid key _ cache (insert-Unique action _ _ (or_new-Unique key cache v)) v

  forget_satisfied-IsValid :
      (key : Text) (e : ControllerScaleExpectations Carrier) (cache : Cache sets)
      → Unique e.objs_cache
      → IsValid cache
      → IsValid (forget_satisfied sets key e cache)
  forget_satisfied-IsValid key e cache u v =
      elim (Option-cases (find_unsatisfied sets e.objs_cache)) [
        | inl h ↦ rw (h, forget_satisfied) (remove-IsValid key cache v)
        | inr (p, h) ↦ rw (h, forget_satisfied) (insert-IsValid key e cache u v)
      ]

  -- Observing a name keeps the cache valid: no controller gets two sets for one action.
  pub observe_scale-IsValid :
      (key : Text) (action : ScaleAction) (name : Text) (cache : Cache sets)
      → IsValid cache
      → IsValid (observe_scale sets key action name cache)
  observe_scale-IsValid key action name cache v = elim (Option-cases (lookup key cache)) [
    | inl h ↦ unfold observe_scale in rw (h, observe_scale) v
    | inr (e, h) ↦ elim (Option-cases (lookup action e.objs_cache)) [
      | inl g ↦ unfold observe_scale in rw (h, observe_scale, g) v
      | inr (s, g) ↦
          rw (observe_scale-found sets key action name cache e s h g)
            (forget_satisfied-IsValid key _ cache (insert-Unique action _ _ (v key e h)) v)
    ]
  ]
