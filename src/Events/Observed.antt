-- ===== src/Events/Observed.antt =====
-- What the events of pods do to the names that the controllers await.
use inplaceu.Base.{
  ℕ, ◌≡◌, inl, inr, refl, sym, ap, subst, ◌∙◌, Bool, true, false, not, ◌&&◌, ◌||◌, Option, none,
  some, List, [], ◌∷◌, Text, text_eq, ◌==◌, if◌then◌else◌, Option-cases,
}
use inplaceu.Api.{Pod, Inplaceu, OwnerReference, controller_of}
use inplaceu.Sets.{StringSet}
use inplaceu.Expectations.Scale.{
  ScaleAction, action_eq, Cache, observe_scale, satisfied_expectations,
}
use inplaceu.Expectations.Scale.Pending.{pending, pending-observe_scale}
use inplaceu.Expectations.Scale.Valid.{IsValid, observe_scale-IsValid}
use inplaceu.Expectations.Scale.Verdict.{satisfied_expectations-Verdict}
use inplaceu.Events.{
  Request, request_key, Handler, Handling, enqueue, resolve, resolve_controller_ref, add_all,
  get_pod_inplaceus, delete_event, create_event, update_event, create_alive, requeue,
}

pub data PodEvent : Type 0 where
  created : ℕ → ℕ → Pod → PodEvent
  updated : Pod → Pod → PodEvent
  deleted : Pod → PodEvent

module _ (sets : StringSet) {World : Type 0} (handler : Handler World) where
  open handler use {labels_equal}

  abbrev pub handle : PodEvent → Handling sets handler → Handling sets handler
  handle (created now later pod) h = create_event sets handler now later pod h
  handle (updated old cur) h = update_event sets handler old cur h
  handle (deleted pod) h = delete_event sets handler pod h

  abbrev pub cache_of : Handling sets handler → Cache sets
  cache_of h = h.ctl.scale_expectations

  -- The pod belongs to the controller with a key.
  abbrev has_key : Text → Option Request → Bool
  has_key k none = false
  has_key k (some req) = request_key req == k

  abbrev pub belongs : Text → Pod → Bool
  belongs k pod =
      has_key k (resolve sets handler pod.namespace (controller_of pod.owner_references))

  abbrev pub sees_pod : Text → ScaleAction → Text → ScaleAction → Pod → Bool
  sees_pod k a x action pod = belongs k pod && action == a && pod.name == x

  abbrev pub is_gone : Pod → Bool
  is_gone pod = elim pod.deletion_timestamp [ none ↦ false | some t ↦ true ]

  -- Whether an event tells of a name that a controller awaits for an action: a created pod is one
  -- that is deleted if it is on its way out already.
  abbrev pub sees : Text → ScaleAction → Text → PodEvent → Bool
  sees k a x (created now later pod) =
      sees_pod k a x (if is_gone pod then ScaleAction.delete else ScaleAction.create) pod
  sees k a x (deleted pod) = sees_pod k a x ScaleAction.delete pod
  sees k a x (updated old cur) =
      not (cur.resource_version == old.resource_version)
      && is_gone cur
      && (sees_pod k a x ScaleAction.delete cur
          || (not (labels_equal cur.labels old.labels) && sees_pod k a x ScaleAction.delete old))

  pub add_all-cache :
      (ius : List Inplaceu) (h : Handling sets handler)
      → cache_of (add_all sets handler ius h) ≡ cache_of h
  unfolding add_all
  add_all-cache [] h = refl
  add_all-cache (iu ∷ ius) h = add_all-cache ius (enqueue sets handler _ h)

  -- After an event: what is awaited, and that the cache stays valid.
  abbrev pub Observed : (Text → ScaleAction → Text → Bool) → Cache sets → Cache sets → Type 0
  Observed seen before after =
      ((k : Text) (a : ScaleAction) (x : Text)
        → pending sets k a x after ≡ (not (seen k a x) && pending sets k a x before))
      × IsValid sets after

  pub deletion-Observed :
      (pod : Pod) (h : Handling sets handler)
      → IsValid sets (cache_of h)
      → Observed
          (λ k a x. sees_pod k a x ScaleAction.delete pod)
          (cache_of h)
          (cache_of (delete_event sets handler pod h))
  unfolding delete_event
  deletion-Observed pod h v =
      elim (Option-cases
        (resolve sets handler pod.namespace (controller_of pod.owner_references))) [
          | inl e ↦ rw (e, delete_event) ((λ k a x. refl), v)
          | inr (req, e) ↦
              rw (e, delete_event)
                (
                  (λ k a x.
                      pending-observe_scale sets (request_key req) k ScaleAction.delete a pod.name x
                        (cache_of h)),
                  observe_scale-IsValid sets (request_key req) ScaleAction.delete pod.name
                      (cache_of h) v,
                )
        ]

  requeue-cache :
      (req : Request) (p : ℕ) (satisfied : Bool) (h : Handling sets handler)
      → cache_of (requeue sets handler req p satisfied h) ≡ cache_of h
  requeue-cache req p true h = refl
  requeue-cache req p false h = refl

  -- Asking and then observing the creation is, for what is awaited, observing it.
  asked-Observed :
      (now later : ℕ) (req : Request) (name : Text) (cache : Cache sets)
      → IsValid sets cache
      → let key = request_key req in
        let asked = (satisfied_expectations sets now later key cache).0 in
        Observed
          (λ k a x. key == k && ScaleAction.create == a && name == x)
          cache
          (observe_scale sets key ScaleAction.create name asked)
  asked-Observed now later req name cache v =
      let key = request_key req in
      let asked = (satisfied_expectations sets now later key cache).0 in
      let (_, same, valid) = satisfied_expectations-Verdict sets now later key cache v in
      (
        (λ k a x.
            pending-observe_scale sets key k ScaleAction.create a name x asked
            ∙ ap (λ t. not (key == k && ScaleAction.create == a && name == x) && t) (same k a x)),
        observe_scale-IsValid sets key ScaleAction.create name asked valid,
      )

  alive-Observed :
      (now later : ℕ) (pod : Pod) (h : Handling sets handler) (ref : Option OwnerReference)
      → controller_of pod.owner_references ≡ ref
      → IsValid sets (cache_of h)
      → Observed
          (λ k a x.
            has_key k (resolve sets handler pod.namespace ref)
            && ScaleAction.create == a
            && pod.name == x)
          (cache_of h)
          (cache_of (create_alive sets handler now later pod ref h))
  alive-Observed now later pod h none e v =
      let same = add_all-cache (get_pod_inplaceus sets handler pod h.ctl.world) h in
      ((λ k a x. ap (pending sets k a x) same), subst (IsValid sets) (sym same) v)
  alive-Observed now later pod h (some ref) e v =
      elim (Option-cases (resolve_controller_ref sets handler pod.namespace ref)) [
        | inl g ↦ rw g ((λ k a x. refl), v)
        | inr (req, g) ↦
            rw (g, requeue-cache) (asked-Observed now later req pod.name (cache_of h) v)
      ]

  pub creation-Observed :
      (now later : ℕ) (pod : Pod) (h : Handling sets handler)
      → IsValid sets (cache_of h)
      → Observed
          (λ k a x. sees k a x (created now later pod))
          (cache_of h)
          (cache_of (create_event sets handler now later pod h))
  unfolding create_event
  creation-Observed now later pod h v = elim (Option-cases pod.deletion_timestamp) [
    | inr (t, e) ↦ rw (e, create_event) (deletion-Observed pod h v)
    | inl e ↦ rw (e, create_event) (alive-Observed now later pod h _ refl v)
  ]
