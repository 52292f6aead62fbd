-- ===== src/Sync/Deletes/Valid.antt =====
-- `deletePods` keeps the cache of expectations valid.
use inplaceu.Base.{List, [], ◌∷◌, Text, Bool, true, Option-cases, inl, inr}
use inplaceu.Api.{Pod, Inplaceu}
use inplaceu.Sets.{StringSet}
use inplaceu.Utils.Pods.{get_controller_key}
use inplaceu.Expectations.Scale.{ScaleAction}
use inplaceu.Expectations.Scale.Valid.{IsValid, expect_scale-IsValid, observe_scale-IsValid}
use inplaceu.Sync.State.{Client}
use inplaceu.Sync.Deletes.{Ctl, expect, delete_one, delete_from, delete_pods}

module _ (sets : StringSet) (client : Client) where
  delete_one-IsValid :
      (key : Text) (pod : Pod) (s : Ctl sets client)
      → IsValid sets s.scale_expectations
      → IsValid sets (delete_one sets client key pod s).0.scale_expectations
  unfolding delete_one
  delete_one-IsValid key pod s v =
      let s₁ = expect sets client key ScaleAction.delete pod.name s in
      let valid =
        expect_scale-IsValid sets key ScaleAction.delete pod.name s.scale_expectations v in
      elim (Option-cases (client.delete pod s₁.world).1) [
        | inl ok ↦ rw (ok, delete_one) valid
        | inr (e, ko) ↦
            rw (ko, delete_one)
              (observe_scale-IsValid sets key ScaleAction.delete pod.name s₁.scale_expectations
                valid)
      ]

  delete_from-IsValid :
      (key : Text) (pods : List Pod) (modified : Bool) (s : Ctl sets client)
      → IsValid sets s.scale_expectations
      → IsValid sets (delete_from sets client key pods modified s).0.scale_expectations
  unfolding delete_from
  delete_from-IsValid key [] modified s v = v
  delete_from-IsValid key (pod ∷ pods) modified s v =
      let valid = delete_one-IsValid key pod s v in
      elim (Option-cases (delete_one sets client key pod s).1) [
        | inr (e, ko) ↦ rw (ko, delete_from) valid
        | inl ok ↦ rw (ok, delete_from) (delete_from-IsValid key pods true _ valid)
      ]

  pub delete_pods-IsValid :
      (iu : Inplaceu) (pods : List Pod) (s : Ctl sets client)
      → IsValid sets s.scale_expectations
      → IsValid sets (delete_pods sets client iu pods s).0.scale_expectations
  unfolding delete_pods
  delete_pods-IsValid iu pods s v = delete_from-IsValid (get_controller_key iu) pods _ s v
