-- ===== src/Expectations/Scale.antt =====
-- internal/utils/expectations/scale_expection.go: the pods that a controller has asked to create or
-- delete and not seen yet. `now` is the clock when `time.Now` is called and `later` when `time.Since`
-- is. A Go map is read in any order; here in that of the association list. The mutex makes each
-- method one step.
pub mod Pending
pub mod Valid
pub mod Verdict
use inplaceu.Base.{
  ℕ, Bool, true, false, Option, none, some, List, [], ◌∷◌, ◌≡◌, refl, ◌↔◌, Text, text_eq, Dict,
  lookup, insert, remove, Eq, ltb, nat_beq, if◌then◌else◌, arith,
}
use inplaceu.Base.Int.{ℤ, pos, sub_ℕ}
use inplaceu.Sets.{StringSet}

pub data ScaleAction : Type 0 where
  create delete : ScaleAction

abbrev pub action_beq : ScaleAction → ScaleAction → Bool
action_beq create create = true
action_beq create delete = false
action_beq delete create = false
action_beq delete delete = true

pub action_beq_iff : (a b : ScaleAction) → (action_beq a b ≡ true) ↔ (a ≡ b)
action_beq_iff create create = ground arith
action_beq_iff create delete = ground arith
action_beq_iff delete create = ground arith
action_beq_iff delete delete = ground arith

instance abbrev pub action_eq : Eq ScaleAction
action_eq = record { equals = action_beq; equals_iff = action_beq_iff }

-- `Set` is the type of `sets.String`.
pub record ControllerScaleExpectations (Set : Type 0) : Type 0 where
  pub objs_cache : Dict ScaleAction Set
  pub first_unsatisfied_timestamp : ℕ

-- The field `controllerCache`.
abbrev pub ScaleExpectations : Type 0 → Type 0
ScaleExpectations Set = Dict Text (ControllerScaleExpectations Set)

module _ (sets : StringSet) where
  open sets use {Carrier, new, len, list}

  abbrev pub Cache : Type 0
  Cache = ScaleExpectations Carrier

  unfoldable pub new_scale_expectations : Cache
  new_scale_expectations = []

  -- `sets.NewString(names...)`.
  unfoldable pub new_string : List Text → Carrier
  new_string [] = new
  new_string (x ∷ xs) = sets.insert x (new_string xs)

  unfoldable pub copy_sets : Dict ScaleAction Carrier → Dict ScaleAction Carrier
  copy_sets [] = []
  copy_sets ((k, v) ∷ m) = insert k (new_string (list v)) (copy_sets m)

  unfoldable pub get_expectations : Text → Cache → Option (Dict ScaleAction Carrier)
  unfolding copy_sets
  get_expectations key cache = elim (lookup key cache) [
    | none ↦ none
    | some e ↦ some (copy_sets e.objs_cache)
  ]

  abbrev pub or_new :
      Option (ControllerScaleExpectations Carrier) → ControllerScaleExpectations Carrier
  or_new none = record { objs_cache = []; first_unsatisfied_timestamp = 0 }
  or_new (some e) = e

  abbrev pub insert_name : Text → Option Carrier → Carrier
  insert_name name none = sets.insert name new
  insert_name name (some s) = sets.insert name s

  unfoldable pub expect_scale : Text → ScaleAction → Text → Cache → Cache
  expect_scale key action name cache =
      let e = or_new (lookup key cache) in
      let s = insert_name name (lookup action e.objs_cache) in
      insert key (record e { objs_cache = insert action s e.objs_cache }) cache

  -- The loop that looks for a set with a name in it.
  unfoldable pub find_unsatisfied : Dict ScaleAction Carrier → Option (ScaleAction × Carrier)
  find_unsatisfied [] = none
  find_unsatisfied ((a, s) ∷ m) =
      let rest = find_unsatisfied m in if ltb 0 (len s) then some (a, s) else rest

  abbrev pub forget_satisfied : Text → ControllerScaleExpectations Carrier → Cache → Cache
  forget_satisfied key e cache = elim (find_unsatisfied e.objs_cache) [
    | some _ ↦ insert key e cache
    | none ↦ remove key cache
  ]

  unfoldable pub observe_scale : Text → ScaleAction → Text → Cache → Cache
  unfolding find_unsatisfied
  observe_scale key action name cache = elim (lookup key cache) [
    | none ↦ cache
    | some e ↦ elim (lookup action e.objs_cache) [
      | none ↦ cache
      | some s ↦
          forget_satisfied key
            (record e { objs_cache = insert action (sets.delete name s) e.objs_cache }) cache
    ]
  ]

  -- What `SatisfiedExpectations` returns: the verdict, how long it has not held, and the names of
  -- the first set that is not empty.
  pub record Satisfied : Type 0 where
    pub satisfied : Bool
    pub unsatisfied_duration : ℤ
    pub dirty : Option (ScaleAction × List Text)

  abbrev pub fulfilled : Satisfied
  fulfilled = record { satisfied = true; unsatisfied_duration = pos 0; dirty = none }

  unfoldable pub satisfied_expectations : ℕ → ℕ → Text → Cache → Cache × Satisfied
  unfolding find_unsatisfied
  satisfied_expectations now later key cache = elim (lookup key cache) [
    | none ↦ (cache, fulfilled)
    | some e ↦ elim (find_unsatisfied e.objs_cache) [
      | none ↦ (remove key cache, fulfilled)
      | some (a, s) ↦
          let first : ℕ =
            if nat_beq e.first_unsatisfied_timestamp 0
            then now
            else e.first_unsatisfied_timestamp in
          (
            insert key (record e { first_unsatisfied_timestamp = first }) cache,
            record {
              satisfied = false;
              unsatisfied_duration = sub_ℕ later first;
              dirty = some (a, list s);
            },
          )
    ]
  ]

  unfoldable pub delete_expectations : Text → Cache → Cache
  delete_expectations key cache = remove key cache
