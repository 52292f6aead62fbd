-- ===== src/Events.antt =====
-- internal/inplaceu_event_handler/inplaceu_event_handler.go: what the handler does on the events of
-- pods. The objects of the events are pods, so the type assertions hold; `Generic` does nothing.
pub mod Observed
pub mod Handled
pub mod Delivery
use inplaceu.Base.{
  ℕ, suc, ◌⊎◌, Bool, true, false, not, ◌&&◌, ◌||◌, Option, none, some, List, [], ◌∷◌, ◌++◌, map,
  Text, text_eq, ◌==◌, Dict, codes, keep, if◌then◌else◌,
}
use inplaceu.Base.Int.{ℤ}
use inplaceu.Api.{Pod, Inplaceu, OwnerReference, controller_of}
use inplaceu.Sets.{StringSet}
use inplaceu.Expectations.Scale.{
  ScaleAction, Cache, Satisfied, observe_scale, satisfied_expectations,
}
use inplaceu.Expectations.Versions as Versions
use inplaceu.Sync.State.{State}

-- `reconcile.Request`, and its `String`.
pub record Request : Type 0 where
  pub namespace : Text
  pub name : Text

unfoldable pub request_key : Request → Text
request_key req = req.namespace ++ b'/' ∷ req.name

-- `ControllerKind` and its group.
abbrev pub controller_kind : Text
controller_kind = codes "Inplaceu"

abbrev pub controller_group : Text
controller_group = codes "batch.inplace.kubebuilder.io"

-- A call of the work queue.
pub data Enqueued : Type 0 where
  add : Request → Enqueued
  add_after : Request → ℤ → Enqueued

-- A selector of labels.
pub record Selector : Type 0 where
  pub is_empty : Bool
  pub matches : Dict Text Text → Bool

-- What the handler calls and is not part of the program. The rate limiter is keyed by pointers: it
-- is given the pointer to a request that `resolveControllerRef` allocated.
pub record Handler (World : Type 0) : Type 1 where
  -- The group of `schema.ParseGroupVersion`, `none` where it fails.
  pub parse_group : Text → Option Text
  -- The sets of a namespace, `none` where the list fails.
  pub list_inplaceus : Text → World → Option (List Inplaceu)
  -- `metav1.LabelSelectorAsSelector` of the set's selector.
  pub selector_of : Inplaceu → Option Selector
  -- `reflect.DeepEqual`, on labels and on references.
  pub labels_equal : Dict Text Text → Dict Text Text → Bool
  pub refs_equal : Option OwnerReference → Option OwnerReference → Bool
  pub Limiter : Type 0
  pub when : ℕ → Limiter → Limiter × ℤ
  pub forget : ℕ → Limiter → Limiter

module _ (sets : StringSet) {World : Type 0} (handler : Handler World) where
  open handler use {
    parse_group, list_inplaceus, selector_of, labels_equal, refs_equal, Limiter, when, forget,
  }

  -- The shared state of the control, with the queue in the order of the calls, the limiter, and the
  -- next pointer that is free.
  pub record Handling : Type 0 where
    pub ctl : State sets World
    pub queue : List Enqueued
    pub limiter : Limiter
    pub free : ℕ

  abbrev pub enqueue : Enqueued → Handling → Handling
  enqueue e h = record h { queue = h.queue ++ e ∷ [] }

  abbrev is_ours : OwnerReference → Option Text → Bool
  is_ours ref none = false
  is_ours ref (some group) = ref.kind == controller_kind && group == controller_group

  unfoldable pub resolve_controller_ref : Text → OwnerReference → Option Request
  resolve_controller_ref namespace ref =
      if is_ours ref (parse_group ref.api_version)
      then some (record { namespace = namespace; name = ref.name })
      else none

  -- The request to the controller of a pod, if that is one of ours.
  abbrev pub resolve : Text → Option OwnerReference → Option Request
  resolve namespace none = none
  resolve namespace (some ref) = resolve_controller_ref namespace ref

  abbrev selects : Pod → Option Selector → Bool
  selects pod none = false
  selects pod (some s) = not s.is_empty && s.matches pod.labels

  abbrev matched : Pod → Option (List Inplaceu) → List Inplaceu
  matched pod none = []
  matched pod (some ius) = keep (λ iu. selects pod (selector_of iu)) ius

  unfoldable pub get_pod_inplaceus : Pod → World → List Inplaceu
  get_pod_inplaceus pod w = matched pod (list_inplaceus pod.namespace w)

  unfoldable pub add_all : List Inplaceu → Handling → Handling
  add_all [] h = h
  add_all (iu ∷ ius) h =
      add_all ius (enqueue (add (record { namespace = iu.namespace; name = iu.name })) h)

  abbrev pub observe_pod : Text → ScaleAction → Text → Handling → Handling
  observe_pod key action name h = record h {
    ctl = record h.ctl {
      scale_expectations = observe_scale sets key action name h.ctl.scale_expectations;
    };
  }

  abbrev observe_deletion : Pod → Option Request → Handling → Handling
  observe_deletion pod none h = h
  observe_deletion pod (some req) h =
      enqueue (add req)
        (observe_pod (request_key req) ScaleAction.delete pod.name (record h { free = suc h.free }))

  unfoldable pub delete_event : Pod → Handling → Handling
  unfolding resolve_controller_ref
  delete_event pod h =
      let h' : Handling = record h {
        ctl = record h.ctl {
          resource_version_expectations =
              Versions.delete pod.uid h.ctl.resource_version_expectations;
        };
      } in
      observe_deletion pod (resolve pod.namespace (controller_of pod.owner_references)) h'

  -- The requeue of the controller of a created pod, by the pointer to its request.
  abbrev requeue : Request → ℕ → Bool → Handling → Handling
  requeue req p true h =
      let (limiter, delay) = when p h.limiter in
      enqueue (add_after req delay) (record h { limiter = limiter })
  requeue req p false h = enqueue (add req) (record h { limiter = forget p h.limiter })

  abbrev create_resolved : ℕ → ℕ → Pod → Option Request → Handling → Handling
  create_resolved now later pod none h = h
  create_resolved now later pod (some req) h =
      let (cache, r) =
        satisfied_expectations sets now later (request_key req) h.ctl.scale_expectations in
      let h' : Handling = record h {
        ctl = record h.ctl { scale_expectations = cache };
        free = suc h.free;
      } in
      requeue req h.free r.satisfied (observe_pod (request_key req) ScaleAction.create pod.name h')

  abbrev create_alive : ℕ → ℕ → Pod → Option OwnerReference → Handling → Handling
  create_alive now later pod none h = add_all (get_pod_inplaceus pod h.ctl.world) h
  create_alive now later pod (some ref) h =
      create_resolved now later pod (resolve_controller_ref pod.namespace ref) h

  -- `Create`, with the clock at `time.Now` and at `time.Since` of `SatisfiedExpectations`.
  unfoldable pub create_event : ℕ → ℕ → Pod → Handling → Handling
  unfolding delete_event resolve_controller_ref add_all get_pod_inplaceus
  create_event now later pod h = elim pod.deletion_timestamp [
    | some t ↦ delete_event pod h
    | none ↦ create_alive now later pod (controller_of pod.owner_references) h
  ]

  abbrev add_resolved : Option Request → Handling → Handling
  add_resolved none h = h
  add_resolved (some req) h = enqueue (add req) (record h { free = suc h.free })

  abbrev update_orphan : Bool → Pod → Handling → Handling
  update_orphan changed pod h = if changed then add_all (get_pod_inplaceus pod h.ctl.world) h else h

  abbrev update_owned : Bool → Pod → Option OwnerReference → Handling → Handling
  update_owned changed pod none h = update_orphan changed pod h
  update_owned changed pod (some ref) h = add_resolved (resolve_controller_ref pod.namespace ref) h

  -- The part of `Update` on a pod that is not being deleted.
  unfoldable pub update_alive : Pod → Pod → Handling → Handling
  unfolding resolve_controller_ref add_all get_pod_inplaceus
  update_alive old cur h =
      let old_ref = controller_of old.owner_references in
      let cur_ref = controller_of cur.owner_references in
      let label_changed = not (labels_equal cur.labels old.labels) in
      let ref_changed = not (refs_equal cur_ref old_ref) in
      update_owned (label_changed || ref_changed) cur cur_ref
        (if ref_changed then add_resolved (resolve old.namespace old_ref) h else h)

  unfoldable pub update_event : Pod → Pod → Handling → Handling
  unfolding update_alive delete_event
  update_event old cur h =
      if cur.resource_version == old.resource_version then h else elim cur.deletion_timestamp [
        | none ↦ update_alive old cur h
        | some t ↦
            let h' = delete_event cur h in
            if not (labels_equal cur.labels old.labels) then delete_event old h' else h'
      ]
