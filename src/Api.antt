-- ===== src/Api.antt =====
-- The objects of the API: api/v1/inplaceu_types.go, and of the Kubernetes types the fields that the
-- controller reads or writes. A nil map and an empty map are read alike, so both are `[]`. Times are
-- numbers, 0 for the zero time.
use inplaceu.Base.{ℕ, Bool, false, List, [], Option, none, some, Text, Dict, codes, find}
use inplaceu.Base.Int.{ℤ}

pub record OwnerReference : Type 0 where
  pub controller : Option Bool
  pub api_version : Text
  pub kind : Text
  pub name : Text
  pub uid : Text

abbrev is_true : Option Bool → Bool
is_true none = false
is_true (some b) = b

-- `metav1.GetControllerOf`: the first reference that is marked as the controller.
abbrev pub controller_of : List OwnerReference → Option OwnerReference
controller_of refs = find (λ (r : OwnerReference). is_true r.controller) refs

pub record Container : Type 0 where
  pub name : Text
  pub image : Text

pub record ContainerStatus : Type 0 where
  pub name : Text
  pub image_id : Text
  pub restart_count : ℤ

pub record PodCondition : Type 0 where
  pub condition_type : Text
  pub status : Text
  pub last_transition_time : ℕ

-- `corev1.PodPhase`; `unset` is the empty string.
pub data PodPhase : Type 0 where
  unset pending running succeeded failed unknown : PodPhase

pub record Pod : Type 0 where
  pub name : Text
  pub namespace : Text
  pub uid : Text
  pub resource_version : Text
  pub labels : Dict Text Text
  pub annotations : Dict Text Text
  pub owner_references : List OwnerReference
  pub creation_timestamp : ℕ
  pub deletion_timestamp : Option ℕ
  pub node_name : Text
  pub containers : List Container
  pub phase : PodPhase
  pub conditions : List PodCondition
  pub container_statuses : List ContainerStatus

-- `corev1.PodTemplateSpec`.
pub record PodTemplate : Type 0 where
  pub labels : Dict Text Text
  pub annotations : Dict Text Text
  pub containers : List Container

-- `apps.ControllerRevision`.
pub record ControllerRevision : Type 0 where
  pub name : Text
  pub namespace : Text
  pub annotations : Dict Text Text
  pub uid : Text
  pub resource_version : Text
  pub owner_references : List OwnerReference
  pub raw : Text
  pub revision : ℤ

-- `intstr.IntOrString`.
pub data IntOrString : Type 0 where
  int_value : ℤ → IntOrString
  string_value : Text → IntOrString

pub record RollingUpdate : Type 0 where
  pub max_unavailable : Option IntOrString
  pub max_surge : Option IntOrString

pub record InplaceuSpec : Type 0 where
  pub replicas : Option ℤ
  pub template : PodTemplate
  -- `Strategy.RollingUpdate`, which is a pointer.
  pub rolling_update : Option RollingUpdate
  pub min_ready_seconds : ℤ
  pub revision_history_limit : Option ℤ

-- `apps.DeploymentCondition`, by its message.
pub record StatusCondition : Type 0 where
  pub message : Text

pub record InplaceuStatus : Type 0 where
  pub observed_generation : ℤ
  pub replicas : ℤ
  pub updated_replicas : ℤ
  pub ready_replicas : ℤ
  pub available_replicas : ℤ
  pub conditions : List StatusCondition
  pub collision_count : Option ℤ
  pub update_revision : Text
  pub current_revision : Text

pub record Inplaceu : Type 0 where
  pub name : Text
  pub namespace : Text
  pub annotations : Dict Text Text
  pub uid : Text
  pub generation : ℤ
  pub deletion_timestamp : Option ℕ
  pub spec : InplaceuSpec
  pub status : InplaceuStatus

abbrev pub inplaceu_instance_id : Text
inplaceu_instance_id = codes "batch.inplace.kubebuilder.io/inplaceu-instance-id"

abbrev pub specified_delete_key : Text
specified_delete_key = codes "batch.inplace.kubebuilder.io/specified-delete"

-- `apps.ControllerRevisionHashLabelKey` and `apps.DefaultDeploymentUniqueLabelKey`.
abbrev pub controller_revision_hash_label_key : Text
controller_revision_hash_label_key = codes "controller-revision-hash"

abbrev pub default_deployment_unique_label_key : Text
default_deployment_unique_label_key = codes "pod-template-hash"

-- A pod with nothing set but its name, from which tests build theirs.
abbrev pub bare_pod : Text → Pod
bare_pod name = record {
  name = name;
  namespace = codes "default";
  uid = name;
  resource_version = codes "1";
  labels = [];
  annotations = [];
  owner_references = [];
  creation_timestamp = 0;
  deletion_timestamp = Option.none;
  node_name = [];
  containers = [];
  phase = PodPhase.running;
  conditions = [];
  container_statuses = [];
}
