-- ===== src/Expectations/Scale/Verdict.antt =====
-- What `SatisfiedExpectations` says.
use inplaceu.Base.{
  ℕ, Bool, true, false, none, some, [], ◌∷◌, ◌≡◌, refl, ap, ◌∙◌, inl, inr, Text, text_eq, Dict,
  lookup, ◌<◌, insert, remove, nat_beq, if◌then◌else◌, arith, lookup-insert, lookup-remove, ==_iff,
  ==_refl, Unique, Option-cases,
}
use inplaceu.Base.Int.{sub_ℕ}
use inplaceu.Sets.{StringSet}
use inplaceu.Expectations.Scale.{
  ScaleAction, action_eq, ControllerScaleExpectations, Cache, find_unsatisfied,
  satisfied_expectations, fulfilled,
}
use inplaceu.Expectations.Scale.Pending.{pending, find_unsatisfied-none, member_of_set}
use inplaceu.Expectations.Scale.Valid.{IsValid, insert-IsValid, remove-IsValid}

module _ (sets : StringSet) where
  open sets use {Carrier, has, len, list}

  find_unsatisfied-some :
      (m : Dict ScaleAction Carrier) (a : ScaleAction) (s : Carrier)
      → Unique m
      → find_unsatisfied sets m ≡ some (a, s)
      → (lookup a m ≡ some s) × (0 < len s)
  unfolding find_unsatisfied lookup
  find_unsatisfied-some [] a s u h = cc
  find_unsatisfied-some ((b, t) ∷ m) a s u h =
      ground (arith, find_unsatisfied-some m a s u.1, ==_iff b a)

  satisfied-missing :
      (now later : ℕ) (key : Text) (cache : Cache sets)
      → lookup key cache ≡ none
      → satisfied_expectations sets now later key cache ≡ (cache, fulfilled sets)
  unfolding satisfied_expectations
  satisfied-missing now later key cache h = rw (h, satisfied_expectations)

  satisfied-done :
      (now later : ℕ) (key : Text) (cache : Cache sets) (e : ControllerScaleExpectations Carrier)
      → lookup key cache ≡ some e
      → find_unsatisfied sets e.objs_cache ≡ none
      → satisfied_expectations sets now later key cache ≡ (remove key cache, fulfilled sets)
  unfolding satisfied_expectations
  satisfied-done now later key cache e h g = rw (h, satisfied_expectations, g)

  satisfied-waiting :
      (now later : ℕ) (key : Text) (cache : Cache sets) (e : ControllerScaleExpectations Carrier)
      (a : ScaleAction) (s : Carrier)
      → lookup key cache ≡ some e
      → find_unsatisfied sets e.objs_cache ≡ some (a, s)
      → satisfied_expectations sets now later key cache ≡ (
          let first : ℕ =
            if nat_beq e.first_unsatisfied_timestamp 0
            then now
            else e.first_unsatisfied_timestamp in
          (
            insert key (record e { first_unsatisfied_timestamp = first }) cache,
            record {
              satisfied = false;
              unsatisfied_duration = sub_ℕ later first;
              dirty = some (a, list s);
            },
          ))
  unfolding satisfied_expectations
  satisfied-waiting now later key cache e a s h g = rw (h, satisfied_expectations, g)

  pending-restamp :
      (key k : Text) (a : ScaleAction) (x : Text) (e : ControllerScaleExpectations Carrier) (t : ℕ)
      (cache : Cache sets)
      → lookup key cache ≡ some e
      → pending sets k a x (insert key (record e { first_unsatisfied_timestamp = t }) cache)
        ≡ pending sets k a x cache
  unfolding pending
  pending-restamp key k a x e t cache h = ground (
    arith,
    ==_iff key k,
    lookup-insert key k (record e { first_unsatisfied_timestamp = t }) cache,
  )

  -- What the answer means: nothing is awaited, or some name is.
  abbrev pub Verdict : Text → Cache sets → Bool → Type 0
  Verdict key cache true = (a : ScaleAction) (x : Text) → pending sets key a x cache ≡ false
  Verdict key cache false = (a : ScaleAction) × (x : Text) × (pending sets key a x cache ≡ true)

  -- On a valid cache `SatisfiedExpectations` answers true exactly when the controller awaits no name, whatever the
  -- order in which the map is read; a question changes nothing that is awaited, by any controller,
  -- and keeps the cache valid.
  pub satisfied_expectations-Verdict :
      (now later : ℕ) (key : Text) (cache : Cache sets)
      → IsValid sets cache
      → let (cache', r) = satisfied_expectations sets now later key cache in
        Verdict key cache r.satisfied
        × ((k : Text) (a : ScaleAction) (x : Text)
            → pending sets k a x cache' ≡ pending sets k a x cache)
        × IsValid sets cache'
  satisfied_expectations-Verdict now later key cache v = elim (Option-cases (lookup key cache)) [
    | inl h ↦
        rw (satisfied-missing now later key cache h)
          ((λ a x. unfold pending in ground (arith, h)), (λ k a x. refl), v)
    | inr (e, h) ↦ elim (Option-cases (find_unsatisfied sets e.objs_cache)) [
      | inl g ↦ rw (satisfied-done now later key cache e h g) (
        (λ a x. unfold pending in rw h (find_unsatisfied-none sets a x e.objs_cache g)),
        (λ k a x.
            unfold pending in
            ground (
              arith,
              h,
              ==_iff key k,
              lookup-remove key k cache,
              find_unsatisfied-none sets a x e.objs_cache g,
            )),
        remove-IsValid sets key cache v,
      )
      | inr ((a, s), g) ↦
          let (found, some_name) = find_unsatisfied-some e.objs_cache a s (v key e h) g in
          let (x, has_x) = member_of_set sets s some_name in
          rw (satisfied-waiting now later key cache e a s h g) (
            (a, x, (unfold pending in rw (h, found) has_x)),
            (λ k b y. pending-restamp key k b y e _ cache h),
            insert-IsValid sets key _ cache (v key e h) v,
          )
    ]
  ]

  -- An unsatisfied answer reports how long the names have been awaited: if the entry has no timestamp
  -- and the clock is past 0, the first one starts to count, and a second one, with nothing seen in
  -- between, is unsatisfied too and counts from there.
  pub satisfied_expectations-duration :
      (now later now' later' : ℕ) (key : Text) (cache : Cache sets)
      (e : ControllerScaleExpectations Carrier)
      → 0 < now
      → lookup key cache ≡ some e
      → e.first_unsatisfied_timestamp ≡ 0
      → (satisfied_expectations sets now later key cache).1.satisfied ≡ false
      → let (cache', r) = satisfied_expectations sets now later key cache in
        let r' = (satisfied_expectations sets now' later' key cache').1 in
        (r.unsatisfied_duration ≡ sub_ℕ later now)
        × (r'.satisfied ≡ false)
        × (r'.unsatisfied_duration ≡ sub_ℕ later' now)
  satisfied_expectations-duration now later now' later' key cache e pos h z w =
      elim (Option-cases (find_unsatisfied sets e.objs_cache)) [
        | inl g ↦ cc (ap (λ r. r.1.satisfied) (satisfied-done now later key cache e h g))
        | inr ((a, s), g) ↦
            let first : ℕ =
              if nat_beq e.first_unsatisfied_timestamp 0
              then now
              else e.first_unsatisfied_timestamp in
            let started : first ≡ now = ground arith in
            let going_on : (if nat_beq first 0 then now' else first) ≡ now = ground arith in
            let e' : ControllerScaleExpectations Carrier = record e {
              first_unsatisfied_timestamp = first;
            } in
            let again =
              satisfied-waiting now' later' key (insert key e' cache) e' a s
                (lookup-insert key key e' cache ∙ rw (==_refl key)) g in
            rw (satisfied-waiting now later key cache e a s h g) (
              ap (sub_ℕ later) started,
              ap (λ r. r.1.satisfied) again,
              ap (λ r. r.1.unsatisfied_duration) again ∙ ap (sub_ℕ later') going_on,
            )
      ]
