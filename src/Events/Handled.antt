-- ===== src/Events/Handled.antt =====
-- Every event of a pod against the names that the controllers await.
use inplaceu.Base.{
  ◌≡◌, inl, inr, refl, sym, ap, subst, ◌∙◌, Bool, true, false, ◌||◌, Option, none, some, text_eq,
  ◌==◌, arith, if◌then◌else◌, Bool-cases, Option-cases,
}
use inplaceu.Api.{Pod, OwnerReference, controller_of}
use inplaceu.Sets.{StringSet}
use inplaceu.Expectations.Scale.{ScaleAction, action_eq, Cache}
use inplaceu.Expectations.Scale.Pending.{pending}
use inplaceu.Expectations.Scale.Valid.{IsValid}
use inplaceu.Events.{
  Request, Handler, Handling, resolve, resolve_controller_ref, get_pod_inplaceus, delete_event,
  update_event, update_alive, update_owned, add_resolved,
}
use inplaceu.Events.Observed.{
  PodEvent, created, updated, deleted, handle, cache_of, sees_pod, sees, Observed, add_all-cache,
  deletion-Observed, creation-Observed,
}

module _ (sets : StringSet) {World : Type 0} (handler : Handler World) where
  open handler use {labels_equal}

  add_resolved-cache :
      (o : Option Request) (h : Handling sets handler)
      → cache_of sets handler (add_resolved sets handler o h) ≡ cache_of sets handler h
  add_resolved-cache none h = refl
  add_resolved-cache (some req) h = refl

  update_owned-cache :
      (changed : Bool) (pod : Pod) (ref : Option OwnerReference) (h : Handling sets handler)
      → cache_of sets handler (update_owned sets handler changed pod ref h)
        ≡ cache_of sets handler h
  update_owned-cache true pod none h =
      add_all-cache sets handler (get_pod_inplaceus sets handler pod h.ctl.world) h
  update_owned-cache false pod none h = refl
  update_owned-cache changed pod (some ref) h =
      add_resolved-cache (resolve_controller_ref sets handler pod.namespace ref) h

  if-cache :
      (b : Bool) (h h' : Handling sets handler)
      → cache_of sets handler h' ≡ cache_of sets handler h
      → cache_of sets handler (if b then h' else h) ≡ cache_of sets handler h
  if-cache true h h' e = e
  if-cache false h h' e = refl

  update_alive-cache :
      (old cur : Pod) (h : Handling sets handler)
      → cache_of sets handler (update_alive sets handler old cur h) ≡ cache_of sets handler h
  unfolding update_alive
  update_alive-cache old cur h =
      update_owned-cache _ cur (controller_of cur.owner_references) _
      ∙ if-cache _ h _ (
          add_resolved-cache
            (resolve sets handler old.namespace (controller_of old.owner_references)) h)

  unmoved-Observed :
      (before after : Cache sets)
      → after ≡ before
      → IsValid sets before
      → Observed sets handler (λ k a x. false) before after
  unmoved-Observed before after e v =
      ((λ k a x. ap (pending sets k a x) e), subst (IsValid sets) (sym e) v)

  -- Two deletions one after the other.
  both-Observed :
      (first second : Pod) (h : Handling sets handler)
      → IsValid sets (cache_of sets handler h)
      → Observed sets handler
          (λ k a x.
            sees_pod sets handler k a x ScaleAction.delete first
            || sees_pod sets handler k a x ScaleAction.delete second)
          (cache_of sets handler h)
          (cache_of sets handler
            (delete_event sets handler second (delete_event sets handler first h)))
  both-Observed first second h v =
      let (one, valid) = deletion-Observed sets handler first h v in
      let (two, valid') =
        deletion-Observed sets handler second (delete_event sets handler first h) valid in
      ((λ k a x. ground (arith, one k a x, two k a x)), valid')

  update-Observed :
      (old cur : Pod) (h : Handling sets handler)
      → IsValid sets (cache_of sets handler h)
      → Observed sets handler
          (λ k a x. sees sets handler k a x (updated old cur))
          (cache_of sets handler h)
          (cache_of sets handler (update_event sets handler old cur h))
  unfolding update_event
  update-Observed old cur h v = elim (Bool-cases (cur.resource_version == old.resource_version)) [
    | inl same ↦
        rw (same, update_event)
          (unmoved-Observed (cache_of sets handler h) (cache_of sets handler h) refl v)
    | inr new ↦ elim (Option-cases cur.deletion_timestamp) [
      | inl e ↦
          rw (new, update_event, e)
            (unmoved-Observed (cache_of sets handler h) _ (update_alive-cache old cur h) v)
      | inr (t, e) ↦ elim (Bool-cases (labels_equal cur.labels old.labels)) [
        | inl l ↦
            let (one, valid) = deletion-Observed sets handler cur h v in
            rw (new, update_event, e, l) ((λ k a x. ground (arith, one k a x)), valid)
        | inr l ↦ rw (new, update_event, e, l) (both-Observed cur old h v)
      ]
    ]
  ]

  -- On a valid cache, an event ends the wait for exactly the names that it tells of, under the
  -- controller of its pod, and leaves the cache valid: a deletion or a pod that is on its way out
  -- ends the wait for its deletion, any other created pod the wait for its creation, and an update
  -- of a pod that stays or whose version is known none.
  pub handle-Observed :
      (e : PodEvent) (h : Handling sets handler)
      → IsValid sets (cache_of sets handler h)
      → Observed sets handler
          (λ k a x. sees sets handler k a x e)
          (cache_of sets handler h)
          (cache_of sets handler (handle sets handler e h))
  handle-Observed (created now later pod) h v = creation-Observed sets handler now later pod h v
  handle-Observed (updated old cur) h v = update-Observed old cur h v
  handle-Observed (deleted pod) h v = deletion-Observed sets handler pod h v
