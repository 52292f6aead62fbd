-- ===== src/Examples/Cache.antt =====
-- The expectations on concrete inputs.
use inplaceu.Base.{
  ◌≡◌, ◌↔◌, refl, true, false, List, [], ◌∷◌, Text, text_eq, codes, lookup, arith, parse_uint,
}
use inplaceu.Base.Int.{sub_ℕ}
use inplaceu.Sets.Lists.{list_set}
use inplaceu.Expectations.Scale.{
  ScaleAction, action_eq, Cache, ControllerScaleExpectations, expect_scale, observe_scale,
  satisfied_expectations,
}
use inplaceu.Expectations.Scale.Pending.{pending, pending-expect_scale, pending-observe_scale}
use inplaceu.Expectations.Scale.Valid.{IsValid}
use inplaceu.Expectations.Scale.Verdict.{
  Verdict, satisfied_expectations-Verdict, satisfied_expectations-duration,
}
use inplaceu.Expectations.Versions.{Versions, is_satisfied}
use inplaceu.Expectations.Versions.Newest.{expect_all, AllAtMost, is_satisfied-expect_all}

abbrev key : Text
key = codes "default/web"

abbrev pod_a : Text
pod_a = codes "a"

abbrev entry : ControllerScaleExpectations (List Text)
entry = record {
  objs_cache = (ScaleAction.delete, pod_a ∷ []) ∷ (ScaleAction.create, []) ∷ [];
  first_unsatisfied_timestamp = 0;
}

abbrev cache : Cache list_set
cache = (key, entry) ∷ []

cache-IsValid : IsValid list_set cache
unfolding lookup
cache-IsValid k e h = ground arith

pending-expect_scale_example :
    pending list_set key ScaleAction.create
      (codes "b")
      (expect_scale list_set key ScaleAction.create (codes "b") cache)
    ≡ true
pending-expect_scale_example =
    pending-expect_scale list_set key key ScaleAction.create ScaleAction.create (codes "b")
      (codes "b") cache

pending-observe_scale_example :
    pending list_set key ScaleAction.delete pod_a
      (observe_scale list_set key ScaleAction.delete pod_a cache)
    ≡ false
pending-observe_scale_example =
    pending-observe_scale list_set key key ScaleAction.delete ScaleAction.delete pod_a pod_a cache

satisfied_expectations-Verdict_example :
    let (cache', r) = satisfied_expectations list_set 5 9 key cache in
    Verdict list_set key cache r.satisfied
    × ((k : Text) (a : ScaleAction) (x : Text)
        → pending list_set k a x cache' ≡ pending list_set k a x cache)
    × IsValid list_set cache'
satisfied_expectations-Verdict_example =
    satisfied_expectations-Verdict list_set 5 9 key cache cache-IsValid

satisfied_expectations-duration_example :
    let (cache', r) = satisfied_expectations list_set 5 9 key cache in
    let r' = (satisfied_expectations list_set 20 21 key cache').1 in
    (r.unsatisfied_duration ≡ sub_ℕ 9 5)
    × (r'.satisfied ≡ false)
    × (r'.unsatisfied_duration ≡ sub_ℕ 21 5)
unfolding lookup satisfied_expectations
satisfied_expectations-duration_example =
    satisfied_expectations-duration list_set 5 9 20 21 key cache entry (omega arith) refl refl refl

abbrev versions : Versions
versions = (codes "u1", record { version = codes "7"; first_unsatisfied_timestamp = 0 }) ∷ []

is_satisfied-expect_all_example :
    ((is_satisfied 5 9
        (codes "u2")
        (codes "12")
        (expect_all (codes "u2") (codes "9" ∷ codes "11" ∷ []) versions)).1
      ≡ true)
    ↔ AllAtMost 12 (codes "9" ∷ codes "11" ∷ [])
unfolding lookup parse_uint
is_satisfied-expect_all_example =
    is_satisfied-expect_all 5 9 (codes "u2") (codes "12") (codes "9") (codes "11" ∷ []) 12 versions
      refl ((9, refl), ((11, refl), tt)) refl
