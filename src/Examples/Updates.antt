-- ===== src/Examples/Updates.antt =====
-- Updates, claims and the history on concrete inputs.
use inplaceu.Base.{
  ℕ, ◌≡◌, ◌<◌, refl, true, Option, none, some, List, [], ◌∷◌, Text, text_eq, codes, All, arith, inr,
  lookup,
}
use inplaceu.Base.Int.{pos, ltb_ℤ, max_ℤ, ◌+ℤ◌, ◌-ℤ◌}
use inplaceu.Api.{Pod, OwnerReference, ControllerRevision, RollingUpdate, int_value}
use inplaceu.Sets.Lists.{list_set}
use inplaceu.Utils.Hash.{equal_to_revision_hash, get_short_hash}
use inplaceu.Utils.Pods.{is_running, is_specified_delete}
use inplaceu.Sync.Diffs.{
  ExpectationDiffs, calculate_diffs_with_expectation, diffs_of_counts, surge, scale_nums,
  ready_limit, count_pods, count_new, count_old,
}
use inplaceu.Sync.Waiting.{wait_update_indexes, wait_update_from, can_update}
use inplaceu.Sync.Update.{InPlace, update_pod}
use inplaceu.Sync.Update.Awaits.{AwaitsIn, old_of, update_pod-Awaits}
use inplaceu.Sync.Update.Returns.{Updated, update-Updated}
use inplaceu.Refs.{Object, RefManager, Mgr, claim_owned_objects}
use inplaceu.Refs.Claims.{claim_owned_objects-deleting}
use inplaceu.Examples.{web, a, b, c, d, new_rev, old_rev, cluster, start, resolve_plain}

abbrev revision_of : Text → ControllerRevision
revision_of name = record {
  name = name;
  namespace = codes "default";
  annotations = [];
  uid = name;
  resource_version = codes "1";
  owner_references = [];
  raw = [];
  revision = pos 1;
}

-- Every pod is updated in place, and the cluster fails where a pod is not there.
abbrev images : InPlace cluster
images = record {
  can_update_in_place = λ old new. true;
  update = λ p old new w. (
    w,
    record {
      in_place_update = true;
      update_err = none;
      delay_duration = pos 2;
      new_resource_version = codes "8";
    },
  );
}

abbrev revisions : List ControllerRevision
revisions = revision_of old_rev ∷ revision_of new_rev ∷ []

update_pod-Awaits_example :
    AwaitsIn list_set cluster images
      (old_of list_set cluster images revisions a)
      (revision_of new_rev)
      a
      start
      (update_pod list_set cluster images (revision_of new_rev) revisions a start)
update_pod-Awaits_example =
    update_pod-Awaits list_set cluster images (revision_of new_rev) revisions a start

abbrev pods : List Pod
pods = a ∷ b ∷ c ∷ d ∷ []

abbrev same_order : List Pod → List ℕ → List ℕ
same_order ps is = is

abbrev rolling : RollingUpdate
rolling = record { max_unavailable = some (int_value (pos 1)); max_surge = none }

abbrev diffs : ExpectationDiffs
diffs = record {
  scale_up_num = pos 0;
  scale_down_num = pos 0;
  delete_ready_limit = pos 1;
  use_surge = pos 0;
  update_num = pos 2;
  update_max_unavailable = pos 2;
}

diffs_lem : calculate_diffs_with_expectation resolve_plain web pods new_rev ≡ some diffs
unfolding calculate_diffs_with_expectation diffs_of_counts surge scale_nums ready_limit count_pods
    count_new count_old lookup equal_to_revision_hash get_short_hash is_specified_delete is_running
    ltb_ℤ max_ℤ ◌+ℤ◌ ◌-ℤ◌
diffs_lem = refl

in_range : All (λ i. i < 4) (wait_update_indexes new_rev pods)
unfolding wait_update_indexes wait_update_from can_update lookup equal_to_revision_hash
    get_short_hash
in_range = (omega arith, (omega arith, tt))

update-Updated_example :
    Updated list_set cluster images resolve_plain same_order web
      (revision_of new_rev)
      revisions
      pods
      start
      diffs
update-Updated_example =
    update-Updated list_set cluster images resolve_plain same_order web (revision_of new_rev)
      revisions pods start diffs (pos 3) rolling refl refl diffs_lem in_range

abbrev accept : ControllerRevision → ℕ → ℕ × Option ℕ
accept r w = (w, none)

-- A manager for the set: calls that always succeed and mark the owner.
abbrev web_reference : OwnerReference
web_reference = record {
  controller = some true;
  api_version = codes "v1";
  kind = codes "Inplaceu";
  name = codes "web";
  uid = codes "u-web";
}

abbrev manager : Option ℕ → RefManager ℕ ℕ ℕ
manager deletion = record {
  is_not_found = λ e. true;
  owner_uid = codes "u-web";
  owner_deletion_timestamp = deletion;
  has_schema = true;
  get_owner = λ w. (w, inr (codes "u-web", none));
  set_controller_reference = λ obj. some (record obj { owner_references = web_reference ∷ [] });
  update_owner = λ obj w. (ℕ.suc w, obj, none);
}

abbrev orphan : Object ℕ
orphan = record {
  uid = codes "o";
  labels = [];
  owner_references = [];
  deletion_timestamp = none;
  rest = 0;
}

abbrev owned : Object ℕ
owned = record orphan { owner_references = web_reference ∷ [] }

abbrev fresh : (deletion : Option ℕ) → Mgr (manager deletion)
fresh deletion = record { world = 0; can_adopt_err = none }

claim_owned_objects-deleting_example :
    claim_owned_objects (manager (some 7)) (λ obj. true) (orphan ∷ owned ∷ []) (fresh (some 7))
    ≡ (fresh (some 7), owned ∷ [], [])
claim_owned_objects-deleting_example =
    claim_owned_objects-deleting (manager (some 7)) (λ obj. true) 7 refl (orphan ∷ owned ∷ [])
      (fresh (some 7))
