-- ===== src/Reconciler.antt =====
-- internal/controller/inplaceu_controller.go: the reconciliation of a set, with the list of pods of
-- internal/utils/inplaceu_utils.go.
pub mod Active
pub mod Sync
pub mod Waiting
pub mod Finish
pub mod Run
use inplaceu.Base.{
  ℕ, zero, suc, ◌⊎◌, inl, inr, Bool, true, false, not, ◌&&◌, ◌||◌, Option, none, some, List, [],
  ◌∷◌, ◌++◌, map, Text, text_eq, ◌==◌, Dict, find, keep, last_or, is_empty, if◌then◌else◌,
}
use inplaceu.Base.Int.{ℤ, pos}
use inplaceu.Api.{Pod, Inplaceu, ControllerRevision, InplaceuStatus}
use inplaceu.Refs.{Object, RefManager, RefError, Mgr, claim_owned_objects}
use inplaceu.Revisions.{
  RevisionClient, RevisionError, Parent, Copy, client_error, create_controller_revision,
  update_controller_revision, CreateResult,
}
use inplaceu.RevisionControl.{Codec, new_revision}
use inplaceu.Utils.Pods.{next_revision}
use inplaceu.Sync.State.{Client, Error}

-- The pod behind `metav1.Object`, and back.
abbrev pub as_object : Pod → Object Pod
as_object pod = record {
  uid = pod.uid;
  labels = pod.labels;
  owner_references = pod.owner_references;
  deletion_timestamp = pod.deletion_timestamp;
  rest = pod;
}

abbrev pub as_pod : Object Pod → Pod
as_pod obj = record obj.rest {
  uid = obj.uid;
  labels = obj.labels;
  owner_references = obj.owner_references;
  deletion_timestamp = obj.deletion_timestamp;
}

-- What the reconciler calls besides the client that the control has.
pub record Calls (World ApiError : Type 0) : Type 0 where
  pub is_not_found : ApiError → Bool
  -- A set by its namespace and name.
  pub get_instance : Text → Text → World → ApiError ⊎ Inplaceu
  -- `metav1.LabelSelectorAsSelector` of the set's selector, on labels.
  pub selector_of : Inplaceu → Option (Dict Text Text → Bool)
  -- The pods of a namespace with an owner reference to a UID, by the field index.
  pub list_pods : Text → Text → World → ApiError ⊎ List Pod
  -- `kubecontroller.IsPodActive`.
  pub is_pod_active : Pod → Bool
  pub has_schema : Bool
  pub get_owner : Inplaceu → World → World × (ApiError ⊎ (Text × Option ℕ))
  pub set_controller_reference : Inplaceu → Object Pod → Option (Object Pod)
  pub update_owner : Object Pod → World → World × Object Pod × Option ApiError
  -- The client on the revisions that the set's selector matches.
  pub revisions : Inplaceu → RevisionClient World ApiError
  -- `history.SortControllerRevisions`, `FindEqualRevisions` and `EqualRevision` of Kubernetes.
  pub sort_revisions : List ControllerRevision → List ControllerRevision
  pub find_equal_revisions : List ControllerRevision → ControllerRevision → List ControllerRevision
  pub equal_revision : ControllerRevision → ControllerRevision → Bool
  pub codec : Codec ApiError
  -- `retry.RetryOnConflict` on the copy of a revision.
  pub retry :
      (World × ControllerRevision → (World × ControllerRevision) × Option (RevisionError ApiError))
      → World × ControllerRevision
      → (World × ControllerRevision) × Option (RevisionError ApiError)
  -- `Status().Update`, and `retry.RetryOnConflict` on it.
  pub put_status : Inplaceu → World → World × Option ApiError
  pub retry_status : (World → World × Option ApiError) → World → World × Option ApiError
  pub delete_revision : ControllerRevision → World → World × Option ApiError
  -- `Error` of an error.
  pub error_text : Error ApiError → Text
  -- A pod of the list as the patches and updates of the control left it.
  pub held : World → Pod → Pod

-- The errors that the reconciler returns, by where they are from.
pub data ReconcileError (E : Type 0) : Type 0 where
  from_client : E → ReconcileError E
  from_claims : List (RefError E) → ReconcileError E
  from_revisions : RevisionError E → ReconcileError E
  from_sync : Error E → ReconcileError E

abbrev pub parent_of : Inplaceu → Parent
parent_of iu = record { namespace = iu.namespace; name = iu.name; uid = iu.uid }

abbrev pub count_or_zero : Option ℤ → ℤ
count_or_zero none = pos 0
count_or_zero (some n) = n

-- Where the update revision comes from; `out_of_range` is a read of the end of an empty list.
pub data Choice : Type 0 where
  newest : ControllerRevision → Choice
  rolled_back : ControllerRevision → Choice
  fresh : Choice
  out_of_range : Choice

abbrev pub last_of : List ControllerRevision → Option ControllerRevision
last_of [] = none
last_of (r ∷ rs) = some (last_or r rs)

-- The current revision, the update revision and the collision count.
abbrev pub Active : Type 0
Active = ControllerRevision × ControllerRevision × ℤ

abbrev pub current_or : Option ControllerRevision → ControllerRevision → ControllerRevision
current_or none update = update
current_or (some r) update = r

unfoldable pub with_current : Inplaceu → List ControllerRevision → ControllerRevision → ℤ → Active
with_current iu revs update count = (
  current_or (find (λ (r : ControllerRevision). r.name == iu.status.current_revision) revs) update,
  update,
  count,
)

module _ {World ApiError : Type 0} (calls : Calls World ApiError) where
  open calls use {
    is_not_found, selector_of, list_pods, is_pod_active, has_schema, get_owner,
    set_controller_reference, update_owner, revisions, find_equal_revisions, equal_revision, codec,
    retry,
  }

  -- `GetActiveAndInactivePods`, as `getOwnedPods` calls it.
  unfoldable pub get_owned_pods : Inplaceu → World → ApiError ⊎ (List Pod × List Pod)
  get_owned_pods iu w = elim (list_pods iu.namespace iu.uid w) [
    | inl e ↦ inl e
    | inr pods ↦ inr (keep is_pod_active pods, keep (λ pod. not (is_pod_active pod)) pods)
  ]

  -- The manager that `refmanager.New` makes.
  abbrev pub manager : Inplaceu → RefManager Pod World ApiError
  manager iu = record {
    is_not_found = is_not_found;
    owner_uid = iu.uid;
    owner_deletion_timestamp = iu.deletion_timestamp;
    has_schema = has_schema;
    get_owner = get_owner iu;
    set_controller_reference = set_controller_reference iu;
    update_owner = update_owner;
  }

  abbrev pub claimed :
      {iu : Inplaceu}
      → Mgr (manager iu) × List (Object Pod) × List (RefError ApiError)
      → World × (List (RefError ApiError) ⊎ List Pod)
  claimed (mgr, objs, []) = (mgr.world, inr (map as_pod objs))
  claimed (mgr, objs, e ∷ errs) = (mgr.world, inl (e ∷ errs))

  -- `claimPods`, with the selector that the set's gave.
  unfoldable pub claim_pods :
      Inplaceu
      → (Dict Text Text → Bool)
      → List Pod
      → World
      → World × (List (RefError ApiError) ⊎ List Pod)
  claim_pods iu matches pods w = claimed (
      claim_owned_objects (manager iu) (λ obj. matches obj.labels) (map as_object pods)
        (record { world = w; can_adopt_err = none }))

  abbrev pub compare_last : Option ControllerRevision → ControllerRevision → Choice
  compare_last none equal = out_of_range
  compare_last (some last) equal =
      if equal_revision last equal then newest last else rolled_back equal

  abbrev pub choose_from : List ControllerRevision → List ControllerRevision → Choice
  choose_from revs [] = fresh
  choose_from revs (e ∷ equals) = compare_last (last_of revs) (last_or e equals)

  unfoldable pub choose_revision : List ControllerRevision → ControllerRevision → Choice
  choose_revision revs made = choose_from revs (find_equal_revisions revs made)

  abbrev pub Found : Type 0
  Found = Option (World × (ReconcileError ApiError ⊎ Active))

  abbrev pub updated :
      (iu : Inplaceu)
      → List ControllerRevision
      → ℤ
      → Copy (revisions iu) × Option (RevisionError ApiError)
      → Found
  updated iu revs count ((w, r), none) = some (w, inr (with_current iu revs r count))
  updated iu revs count ((w, r), some e) = some (w, inl (from_revisions e))

  abbrev pub created :
      (iu : Inplaceu) → List ControllerRevision → Option (CreateResult (revisions iu)) → Found
  created iu revs none = none
  created iu revs (some (w, count, inl e)) = some (w, inl (from_client e))
  created iu revs (some (w, count, inr r)) = some (w, inr (with_current iu revs r count))

  unfoldable pub get_revision :
      ℕ → Inplaceu → List ControllerRevision → ControllerRevision → ℤ → World → Choice → Found
  unfolding with_current
  get_revision fuel iu revs made count w out_of_range = none
  get_revision fuel iu revs made count w (newest r) = some (w, inr (with_current iu revs r count))
  get_revision fuel iu revs made count w (rolled_back r) =
      updated iu revs count (update_controller_revision (revisions iu) retry r made.revision w)
  get_revision fuel iu revs made count w fresh =
      created iu revs (create_controller_revision (revisions iu) fuel (parent_of iu) made count w)

  abbrev pub active_from :
      ℕ
      → Inplaceu
      → List ControllerRevision
      → ℤ
      → World
      → Option (ApiError ⊎ ControllerRevision)
      → Found
  active_from fuel iu revs count w none = none
  active_from fuel iu revs count w (some (inl e)) = some (w, inl (from_client e))
  active_from fuel iu revs count w (some (inr made)) =
      get_revision fuel iu revs made count w (choose_revision revs made)

  -- `getActiveRevisions`, with fuel for the creation of a revision. `none` is a panic, or that the
  -- fuel ran out.
  unfoldable pub get_active_revisions : ℕ → Inplaceu → List ControllerRevision → World → Found
  unfolding get_revision choose_revision
  get_active_revisions fuel iu revs w =
      let count = count_or_zero iu.status.collision_count in
      active_from fuel iu revs count w (new_revision codec iu (next_revision revs) count)
