-- ===== src/InPlaceUpdate/Sending.antt =====
-- `Update` of internal/inplace_update/inplace_update.go: the retried read and write of the pod.
use inplaceu.Base.{ℕ, ◌⊎◌, inl, inr, Bool, true, false, Option, none, some, [], Text, text_eq}
use inplaceu.Base.Int.{pos}
use inplaceu.Api.{Pod, ControllerRevision}
use inplaceu.Sets.{StringSet}
use inplaceu.Sync.State.{Client, Error, api, message}
use inplaceu.Sync.Update.{InPlace, UpdateResult}
use inplaceu.InPlaceUpdate.{InPlaceUpdateState, UpdateSpec, Patching, calculate_spec}
use inplaceu.InPlaceUpdate.Containers.{default_patch_update_spec_to_pod, first_state, marked}

module _ (patching : Patching) (sets : StringSet) where
  module _ (client : Client) (get_pod : Text → Text → client.World → client.ApiError ⊎ Pod)
      (update_client : Pod → client.World → client.World × Pod × Option client.ApiError)
      (time : client.World → ℕ) where
    open client use {World, ApiError}

    -- The cluster, and `newResourceVersion`.
    abbrev pub Attempt : Type 0
    Attempt = World × Text

    abbrev pub after_send : Text → World × Pod × Option ApiError → Attempt × Option (Error ApiError)
    after_send version (w, pod, none) = ((w, pod.resource_version), none)
    after_send version (w, pod, some e) = ((w, version), some (api e))

    abbrev pub send :
        Attempt → Text ⊎ (Pod × InPlaceUpdateState) → Attempt × Option (Error ApiError)
    send (w, version) (inl e) = ((w, version), some (message e))
    send (w, version) (inr (pod, state)) = after_send version (update_client pod w)

    -- The function that `updatePodInPlace` retries.
    unfoldable pub try_in_place :
        Text → Text → UpdateSpec → Attempt → Attempt × Option (Error ApiError)
    unfolding default_patch_update_spec_to_pod
    try_in_place namespace name spec (w, version) = elim (get_pod namespace name w) [
      | inl e ↦ ((w, version), some (api e))
      | inr pod ↦
          send (w, version)
            (default_patch_update_spec_to_pod patching sets (time w)
              (marked patching sets (time w) spec pod) spec
              (first_state patching sets (time w) spec))
    ]

    -- `retry` is `retry.RetryOnConflict` with the default backoff.
    module _
        (retry : (Attempt → Attempt × Option (Error ApiError))
          → Attempt
          → Attempt × Option (Error ApiError)) where
      unfoldable pub update_pod_in_place :
          Pod → UpdateSpec → World → Attempt × Option (Error ApiError)
      unfolding try_in_place
      update_pod_in_place pod spec w = retry (try_in_place pod.namespace pod.name spec) (w, [])

      abbrev pub not_in_place : UpdateResult ApiError
      not_in_place = record {
        in_place_update = false;
        update_err = none;
        delay_duration = pos 0;
        new_resource_version = [];
      }

      abbrev pub result_of : Attempt × Option (Error ApiError) → World × UpdateResult ApiError
      result_of ((w, version), none) =
          (w, record not_in_place { in_place_update = true; new_resource_version = version })
      result_of ((w, version), some e) =
          (w, record not_in_place { in_place_update = true; update_err = some e })

      unfoldable pub update :
          Pod
          → Option ControllerRevision
          → ControllerRevision
          → World
          → World × UpdateResult ApiError
      unfolding update_pod_in_place calculate_spec
      update pod old new w = elim (calculate_spec patching old new) [
        | none ↦ (w, not_in_place)
        | some spec ↦ result_of (update_pod_in_place pod spec w)
      ]

      unfoldable pub can_update_in_place : Option ControllerRevision → ControllerRevision → Bool
      unfolding calculate_spec
      can_update_in_place old new = elim (calculate_spec patching old new) [
        | none ↦ false
        | some spec ↦ true
      ]

      -- The update that the control calls.
      abbrev pub in_place : InPlace client
      in_place = record { can_update_in_place = can_update_in_place; update = update }
