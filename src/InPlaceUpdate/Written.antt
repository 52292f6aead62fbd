-- ===== src/InPlaceUpdate/Written.antt =====
-- What an update in place leaves in the cluster.
use inplaceu.Base.{ℕ, ◌≡◌, ◌⊎◌, inr, Bool, true, Option, none, some, [], Text, text_eq}
use inplaceu.Base.Retry.{Tried}
use inplaceu.Api.{Pod, ControllerRevision}
use inplaceu.Sets.{StringSet}
use inplaceu.Sync.State.{Client, Error}
use inplaceu.Sync.Update.{UpdateResult}
use inplaceu.InPlaceUpdate.{UpdateSpec, Patching, calculate_spec}
use inplaceu.InPlaceUpdate.Sending.{Attempt, try_in_place}
use inplaceu.InPlaceUpdate.Spec.{Calculated}
use inplaceu.InPlaceUpdate.Makes.{Makes}

module _ (patching : Patching) (sets : StringSet) (client : Client)
    (get_pod : Text → Text → client.World → client.ApiError ⊎ Pod)
    (update_client : Pod → client.World → client.World × Pod × Option client.ApiError)
    (time : client.World → ℕ) where
  open client use {World, ApiError}

  abbrev Try : Type 0
  Try = Attempt patching sets client get_pod update_client time

  -- The pod under a name was read, and what is made of it by the spec was written and accepted by the
  -- cluster: the last call.
  pub record Accepted (namespace name : Text) (spec : UpdateSpec)
      (res : Try × Option (Error ApiError)) : Type 0 where
    pub w : World
    pub pod : Pod
    pub sent : Pod
    pub stored : Pod
    pub read : get_pod namespace name w ≡ inr pod
    pub written : update_client sent w ≡ (res.0.0, stored, none)
    pub version : res.0.1 ≡ stored.resource_version
    pub made : Makes patching sets pod spec sent

  module _ (namespace name : Text) (spec : UpdateSpec)
      (plain : spec.container_ref_metadata ≡ []) where
    abbrev IsAccepted : Try × Option (Error ApiError) → Type 0
    IsAccepted res = res.1 ≡ none → Accepted namespace name spec res

    abbrev attempt : Try → Try × Option (Error ApiError)
    attempt = try_in_place patching sets client get_pod update_client time namespace name spec

  -- What a success means: the spec between the revisions, and the pod that the cluster took.
  pub record InPlaceWritten (pod : Pod) (old new : ControllerRevision) (w' : World)
      (res : UpdateResult ApiError) : Type 0 where
    pub spec : UpdateSpec
    pub between : calculate_spec patching (some old) new ≡ some spec
    pub calculated : Calculated patching old new spec
    pub accepted : Accepted pod.namespace pod.name spec ((w', res.new_resource_version), none)

  module _ (is_conflict : Error ApiError → Bool)
      (retry : (Try → Try × Option (Error ApiError)) → Try → Try × Option (Error ApiError))
      (tried : (f : Try → Try × Option (Error ApiError)) (c : Try)
        → Tried is_conflict f c (retry f c)) where
    -- A result that says that the pod was updated in place, with no error.
    abbrev Succeeds : UpdateResult ApiError → Type 0
    Succeeds res = (res.in_place_update ≡ true) × (res.update_err ≡ none)
