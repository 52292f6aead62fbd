-- ===== src/Status.antt =====
-- internal/status/inplace_status.go: the status that the controller computes from the pods, and when
-- it writes it.
pub mod Pods
pub mod Written
use inplaceu.Base.{
  ◌⊎◌, inl, inr, Bool, true, false, not, ◌&&◌, ◌||◌, Option, none, some, List, [], ◌∷◌, Text,
  text_eq, ◌==◌, if◌then◌else◌,
}
use inplaceu.Base.Int.{ℤ, ltb_ℤ, eqb_ℤ, inc32}
use inplaceu.Api.{Pod, Inplaceu, InplaceuStatus}
use inplaceu.Utils.Hash.{equal_to_revision_hash}
use inplaceu.Utils.Pods.{is_running, is_pod_available}

unfoldable pub inconsistent_status : InplaceuStatus → InplaceuStatus → Bool
inconsistent_status old_status new_status =
    ltb_ℤ old_status.observed_generation new_status.observed_generation
    || not (eqb_ℤ new_status.replicas old_status.replicas)
    || not (eqb_ℤ new_status.ready_replicas old_status.ready_replicas)
    || not (eqb_ℤ new_status.available_replicas old_status.available_replicas)
    || not (eqb_ℤ new_status.updated_replicas old_status.updated_replicas)
    || not (new_status.update_revision == old_status.update_revision)
    || not (new_status.current_revision == old_status.current_revision)

-- `available` is `podutil.IsPodAvailable` of Kubernetes at the time of the call.
module _ (available : Pod → ℤ → Bool) where
  abbrev pub inc_if : Bool → ℤ → ℤ
  inc_if b x = if b then inc32 x else x

  -- One round of the loop, which increments `int32` fields.
  unfoldable pub count_pod : Inplaceu → Pod → InplaceuStatus → InplaceuStatus
  count_pod iu pod s = record s {
    replicas = inc32 s.replicas;
    ready_replicas = inc_if (is_running pod) s.ready_replicas;
    available_replicas =
        inc_if (is_pod_available available pod iu.spec.min_ready_seconds) s.available_replicas;
    updated_replicas =
        inc_if (equal_to_revision_hash pod.labels s.update_revision) s.updated_replicas;
  }

  unfoldable pub count_status : Inplaceu → List Pod → InplaceuStatus → InplaceuStatus
  unfolding count_pod
  count_status iu [] s = s
  count_status iu (pod ∷ pods) s = count_status iu pods (count_pod iu pod s)

  -- The replicas are read only where all pods are updated; `none` is their nil pointer.
  abbrev pub stable : Option ℤ → InplaceuStatus → Option InplaceuStatus
  stable none s = none
  stable (some replicas) s =
      some
        (if eqb_ℤ s.replicas replicas then record s { current_revision = s.update_revision } else s)

  unfoldable pub calculate_status : Inplaceu → InplaceuStatus → List Pod → Option InplaceuStatus
  unfolding count_status
  calculate_status iu new_status pods =
      let s = count_status iu pods new_status in
      if eqb_ℤ s.updated_replicas s.replicas then stable iu.spec.replicas s else some s

  -- `UpdateInplaceuSetStatus`; `update_status` is the write, with its retries.
  module _ {World ApiError : Type 0}
      (update_status : Inplaceu → InplaceuStatus → World → World × Option ApiError) where
    abbrev pub write_status :
        Inplaceu → Option InplaceuStatus → World → Option (World × Option ApiError)
    write_status iu none w = none
    write_status iu (some s) w =
        some (if not (inconsistent_status iu.status s) then (w, none) else update_status iu s w)

    unfoldable pub update_inplaceu_set_status :
        Inplaceu → InplaceuStatus → List Pod → World → Option (World × Option ApiError)
    unfolding calculate_status inconsistent_status
    update_inplaceu_set_status iu new_status pods w =
        write_status iu (calculate_status iu new_status pods) w

-- `updateStatus`; `put_status` is `Status().Update` of the client, and `retry` is
-- `retry.RetryOnConflict`.
module _ {World ApiError : Type 0} (get_inplaceu : Text → Text → World → ApiError ⊎ Inplaceu)
    (put_status : Inplaceu → World → World × Option ApiError) where
  abbrev pub after_get : InplaceuStatus → World → ApiError ⊎ Inplaceu → World × Option ApiError
  after_get new_status w (inl e) = (w, some e)
  after_get new_status w (inr clone) = put_status (record clone { status = new_status }) w

  -- The function that is retried.
  unfoldable pub try_status : Inplaceu → InplaceuStatus → World → World × Option ApiError
  try_status iu new_status w = after_get new_status w (get_inplaceu iu.namespace iu.name w)

  module _ (retry : (World → World × Option ApiError) → World → World × Option ApiError) where
    unfoldable pub update_status : Inplaceu → InplaceuStatus → World → World × Option ApiError
    unfolding try_status
    update_status iu new_status w = retry (try_status iu new_status) w
