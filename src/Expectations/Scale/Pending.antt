-- ===== src/Expectations/Scale/Pending.antt =====
-- The expectations seen as a relation: which names a controller waits for, by action.
use inplaceu.Base.{
  Bool, true, false, not, ◌&&◌, ◌||◌, Option, none, some, List, [], ◌∷◌, ◌≡◌, refl, sym, ◌∙◌, inl,
  inr, Text, text_eq, Dict, lookup, ◌<◌, insert, remove, if◌then◌else◌, arith, lookup-insert,
  lookup-remove, ==_iff, ◌==◌, length, any, Option-cases,
}
use inplaceu.Sets.{StringSet}
use inplaceu.Expectations.Scale.{
  ScaleAction, action_eq, ControllerScaleExpectations, Cache, or_new, insert_name, expect_scale,
  find_unsatisfied, forget_satisfied, observe_scale,
}

module _ (sets : StringSet) where
  open sets use {Carrier, new, has, len, list, has-new, has-insert, has-delete, has-list, len-list}

  -- Whether a name is in a set of the controller's, if there is one.
  abbrev pub in_set : Text → Option Carrier → Bool
  in_set x none = false
  in_set x (some s) = has x s

  abbrev pub in_entry : ScaleAction → Text → Option (ControllerScaleExpectations Carrier) → Bool
  in_entry a x none = false
  in_entry a x (some e) = in_set x (lookup a e.objs_cache)

  unfoldable pub pending : Text → ScaleAction → Text → Cache sets → Bool
  pending k a x cache = in_entry a x (lookup k cache)

  has-insert_name :
      (name x : Text) (s : Option Carrier)
      → has x (insert_name sets name s) ≡ (name == x || in_set x s)
  has-insert_name name x none = ground (arith, has-insert name x new, has-new x)
  has-insert_name name x (some s) = ground (arith, has-insert name x s)

  pub in_set-insert :
      (action a : ScaleAction) (x : Text) (s : Carrier) (m : Dict ScaleAction Carrier)
      → in_set x (lookup a (insert action s m))
        ≡ (if action == a then has x s else in_set x (lookup a m))
  in_set-insert action a x s m = ground (arith, lookup-insert action a s m)

  in_entry-or_new :
      (a : ScaleAction) (x : Text) (o : Option (ControllerScaleExpectations Carrier))
      → in_set x (lookup a (or_new sets o).objs_cache) ≡ in_entry a x o
  unfolding lookup
  in_entry-or_new a x none = refl
  in_entry-or_new a x (some e) = refl

  pub pending-insert :
      (key k : Text) (a : ScaleAction) (x : Text) (e : ControllerScaleExpectations Carrier)
      (cache : Cache sets)
      → pending k a x (insert key e cache)
        ≡ (if key == k then in_set x (lookup a e.objs_cache) else pending k a x cache)
  unfolding pending
  pending-insert key k a x e cache = ground (arith, lookup-insert key k e cache)

  pub pending-remove :
      (key k : Text) (a : ScaleAction) (x : Text) (cache : Cache sets)
      → pending k a x (remove key cache) ≡ (if key == k then false else pending k a x cache)
  unfolding pending
  pending-remove key k a x cache = ground (arith, lookup-remove key k cache)

  -- Asking for a name makes that name pending for that controller and action, and changes nothing
  -- else.
  pub pending-expect_scale :
      (key k : Text) (action a : ScaleAction) (name x : Text) (cache : Cache sets)
      → pending k a x (expect_scale sets key action name cache)
        ≡ ((key == k && action == a && name == x) || pending k a x cache)
  unfolding expect_scale pending
  pending-expect_scale key k action a name x cache =
      let o = lookup key cache in
      let e = or_new sets o in
      let old = lookup action e.objs_cache in
      let s = insert_name sets name old in
      ground (
        arith,
        ==_iff key k,
        ==_iff action a,
        pending-insert key k a x (record e { objs_cache = insert action s e.objs_cache }) cache,
        in_set-insert action a x s e.objs_cache,
        has-insert_name name x old,
        in_entry-or_new a x o,
      )

  empty_list : (x : Text) (xs : List Text) → length xs ≡ 0 → any (λ y. y == x) xs ≡ false
  empty_list x [] z = refl
  empty_list x (y ∷ ys) z = absurd (omega arith)

  empty_set : (x : Text) (s : Carrier) → len s ≡ 0 → has x s ≡ false
  empty_set x s z = sym (has-list x s) ∙ empty_list x (list s) (len-list s ∙ z)

  -- With no set left unsatisfied nothing is pending.
  pub find_unsatisfied-none :
      (a : ScaleAction) (x : Text) (m : Dict ScaleAction Carrier)
      → find_unsatisfied sets m ≡ none
      → in_set x (lookup a m) ≡ false
  unfolding find_unsatisfied lookup
  find_unsatisfied-none a x [] h = refl
  find_unsatisfied-none a x ((b, s) ∷ m) h =
      ground (arith, find_unsatisfied-none a x m, empty_set x s)

  pending-forget_satisfied :
      (key k : Text) (a : ScaleAction) (x : Text) (e : ControllerScaleExpectations Carrier)
      (cache : Cache sets)
      → pending k a x (forget_satisfied sets key e cache)
        ≡ (if key == k then in_set x (lookup a e.objs_cache) else pending k a x cache)
  pending-forget_satisfied key k a x e cache =
      elim (Option-cases (find_unsatisfied sets e.objs_cache)) [
        | inl h ↦
            ground
              (arith, h, pending-remove key k a x cache, find_unsatisfied-none a x e.objs_cache h)
        | inr (p, h) ↦ ground (arith, h, pending-insert key k a x e cache)
      ]

  pub observe_scale-found :
      (key : Text) (action : ScaleAction) (name : Text) (cache : Cache sets)
      (e : ControllerScaleExpectations Carrier) (s : Carrier)
      → lookup key cache ≡ some e
      → lookup action e.objs_cache ≡ some s
      → observe_scale sets key action name cache
        ≡ forget_satisfied sets key
            (record e { objs_cache = insert action (sets.delete name s) e.objs_cache })
            cache
  unfolding observe_scale
  observe_scale-found key action name cache e s h g = rw (h, observe_scale, g)

  -- Seeing a name makes that name no longer pending for that controller and action, and changes
  -- nothing else, also when the controller's entry is dropped with its last name.
  pub pending-observe_scale :
      (key k : Text) (action a : ScaleAction) (name x : Text) (cache : Cache sets)
      → pending k a x (observe_scale sets key action name cache)
        ≡ (not (key == k && action == a && name == x) && pending k a x cache)
  pending-observe_scale key k action a name x cache = elim (Option-cases (lookup key cache)) [
    | inl h ↦ unfold observe_scale pending in ground (arith, h, ==_iff key k)
    | inr (e, h) ↦ elim (Option-cases (lookup action e.objs_cache)) [
      | inl g ↦ unfold observe_scale pending in ground (arith, h, g, ==_iff key k, ==_iff action a)
      | inr (s, g) ↦
          let e' : ControllerScaleExpectations Carrier = record e {
            objs_cache = insert action (sets.delete name s) e.objs_cache;
          } in
          rw (observe_scale-found key action name cache e s h g) (
            unfold pending in
            ground (
              arith,
              h,
              g,
              ==_iff key k,
              ==_iff action a,
              pending-forget_satisfied key k a x e' cache,
              in_set-insert action a x (sets.delete name s) e.objs_cache,
              has-delete name x s,
            ))
    ]
  ]

  any-list : (xs : List Text) → 0 < length xs → (y : Text) × (any (λ z. z == y) xs ≡ true)
  any-list [] h = absurd (omega arith)
  any-list (y ∷ ys) h = (y, ground (arith, ==_iff y y))

  pub member_of_set : (s : Carrier) → 0 < len s → (x : Text) × (has x s ≡ true)
  member_of_set s h =
      let (y, e) = any-list (list s) (omega (arith, len-list s)) in (y, sym (has-list y s) ∙ e)
