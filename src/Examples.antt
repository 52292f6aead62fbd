-- ===== src/Examples.antt =====
-- A small cluster on which the examples run.
mod Helpers
mod Cache
mod Control
mod Updates
mod Setting
mod Revising
mod Reconciling
mod Codec
mod Syncing
mod InPlace
use inplaceu.Base.{
  ℕ, Bool, true, false, not, Option, none, some, List, [], ◌∷◌, Text, text_eq, ◌==◌, Dict, codes,
  any, keep, if◌then◌else◌,
}
use inplaceu.Base.Int.{ℤ, pos}
use inplaceu.Api.{
  Pod, PodPhase, Inplaceu, IntOrString, int_value, string_value, bare_pod, inplaceu_instance_id,
  specified_delete_key, controller_revision_hash_label_key, unset, pending, running, failed,
}
use inplaceu.Sets.{StringSet}
use inplaceu.Sets.Lists.{list_set}
use inplaceu.Sync.State.{Client, State}
use inplaceu.Sync.Deletes.{Ctl}
use inplaceu.Sync.Scale.{Kube}

abbrev pub new_rev : Text
new_rev = codes "web-b2"

abbrev pub old_rev : Text
old_rev = codes "web-a1"

abbrev pub web : Inplaceu
web = record {
  name = codes "web";
  namespace = codes "default";
  annotations = [];
  uid = codes "u-web";
  generation = pos 2;
  deletion_timestamp = none;
  spec = record {
    replicas = some (pos 3);
    template = record { labels = []; annotations = []; containers = [] };
    rolling_update = some (record { max_unavailable = some (int_value (pos 1)); max_surge = none });
    min_ready_seconds = pos 0;
    revision_history_limit = none;
  };
  status = record {
    observed_generation = pos 1;
    replicas = pos 0;
    updated_replicas = pos 0;
    ready_replicas = pos 0;
    available_replicas = pos 0;
    conditions = [];
    collision_count = none;
    update_revision = new_rev;
    current_revision = old_rev;
  };
}

-- A pod of the set at a revision.
abbrev pub pod_of : Text → Text → PodPhase → Pod
pod_of name rev phase = record (bare_pod name) {
  labels = (inplaceu_instance_id, name) ∷ (controller_revision_hash_label_key, rev) ∷ [];
  phase = phase;
}

abbrev pub doomed_of : Pod → Pod
doomed_of p = record p { labels = (specified_delete_key, codes "true") ∷ p.labels }

abbrev pub a : Pod
a = pod_of (codes "a") old_rev running

abbrev pub b : Pod
b = pod_of (codes "b") new_rev running

abbrev pub c : Pod
c = pod_of (codes "c") old_rev pending

abbrev pub d : Pod
d = doomed_of (pod_of (codes "d") new_rev running)

abbrev has_name : Text → List Text → Bool
has_name x w = any (λ y. y == x) w

-- The names of the pods in the cluster: an error where a name is taken, or is not there.
abbrev pub cluster : Client
cluster = record {
  World = List Text;
  ApiError = ℕ;
  create = λ p w. if has_name p.name w then (w, some 409) else (p.name ∷ w, none);
  delete =
      λ p w. if has_name p.name w then (keep (λ y. not (y == p.name)) w, none) else (w, some 404);
  patch = λ p t w. if has_name p.name w then (w, p, none) else (w, p, some 404);
}

abbrev pub start : Ctl list_set cluster
start = record {
  world = codes "a" ∷ codes "b" ∷ codes "d" ∷ [];
  scale_expectations = [];
  resource_version_expectations = [];
  duration_store = [];
  events = [];
}

abbrev pub resolve_plain : IntOrString → ℤ → Bool → ℤ
resolve_plain (int_value n) total up = n
resolve_plain (string_value t) total up = pos 0

abbrev pub template_pod : Inplaceu → Option Pod
template_pod iu = some (bare_pod [])

abbrev pub kube : Kube
kube = record {
  available = λ p n. true;
  resolve = resolve_plain;
  from_template = template_pod;
  sort = λ less pods. pods;
  ready = λ p. true;
}
