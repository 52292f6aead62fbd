-- ===== src/Examples/Reconciling.antt =====
-- The reconciler and the handler on concrete inputs.
use inplaceu.Base.{
  ◌≡◌, refl, true, none, some, List, [], ◌∷◌, ◌++◌, Text, text_eq, codes, lookup, insert, arith,
}
use inplaceu.Base.Int.{pos, eqb_ℤ, ltb_ℤ, ◌-ℤ◌, ◌+ℤ◌}
use inplaceu.Api.{Pod}
use inplaceu.Sets.Lists.{list_set}
use inplaceu.Expectations.Scale.{
  ScaleAction, expect_scale, new_scale_expectations, satisfied_expectations,
}
use inplaceu.Expectations.Scale.Pending.{pending}
use inplaceu.Expectations.Scale.Valid.{IsValid}
use inplaceu.Sync.State.{successful_create}
use inplaceu.Sync.Deletes.{Ctl}
use inplaceu.Sync.Scale.{scale, get_or_gen_available_ids, get_or_gen_instance_id}
use inplaceu.Events.{Handling, request_key, resolve_controller_ref}
use inplaceu.Events.Observed.{PodEvent, created, deleted, handle, cache_of, sees, Observed}
use inplaceu.Events.Handled.{handle-Observed}
use inplaceu.Events.Delivery.{told}
use inplaceu.Revisions.{create_controller_revision, list_controller_revisions}
use inplaceu.RevisionControl.{new_revision, apply_revision}
use inplaceu.Expectations.Versions as Versions
use inplaceu.Refs.{claim_owned_objects}
use inplaceu.Reconciler.Finish.{new_status}
use inplaceu.Reconciler.Waiting.{wait_for_versions, Clock}
use inplaceu.Sync.Creates.{create_pods}
use inplaceu.Core.{new_versioned_pods}
use inplaceu.Utils.Slowly.{do_it_slowly}
use inplaceu.Utils.Pods.{get_controller_key}
use inplaceu.Status.{update_inplaceu_set_status, update_status}
use inplaceu.History.{truncate_history}
use inplaceu.Requeue.{pop}
use inplaceu.Reconciler.Sync.{sync_inplaceu}
use inplaceu.Sync.Diffs.{calculate_diffs_with_expectation}
use inplaceu.Reconciler.{get_active_revisions, get_owned_pods, claim_pods}
use inplaceu.Reconciler.Run.{reconcile}
use inplaceu.Reconciler.Run.Guards.{Waits, reconcile-Waits}
use inplaceu.System.{Reach, reconciled, Reach-IsValid}
use inplaceu.System.Resumes.{Between, Resumes, Reach-Resumes}
use inplaceu.Examples.{web, a, b, cluster, start}
use inplaceu.Examples.Setting.{fields_beq, setting, request, handler, owned_by_web, handling}

abbrev pub clock : Clock
clock = λ n. (1, 2)

abbrev pub stream : List Text
stream = codes "x" ∷ codes "y" ∷ codes "z" ∷ []

abbrev pod_x : Text
pod_x = codes "web-x"

abbrev new_names : List Text
new_names = pod_x ∷ codes "web-y" ∷ codes "web-z" ∷ []

-- What the first reconciliation leaves: it creates three pods, and awaits them.
abbrev created_three : Ctl list_set cluster
created_three = record start {
  world = new_names ++ start.world;
  scale_expectations =
      (
        request_key request,
        record {
          objs_cache = (ScaleAction.create, new_names) ∷ [];
          first_unsatisfied_timestamp = 0;
        },
      )
      ∷ [];
  events =
      record { reason = successful_create; pod = pod_x }
      ∷ record { reason = successful_create; pod = codes "web-y" }
      ∷ record { reason = successful_create; pod = codes "web-z" }
      ∷ [];
}

first_run :
    reconcile list_set cluster setting 1 clock stream request start
    ≡ some (created_three, pos 0, none)
unfolding reconcile satisfied_expectations lookup get_owned_pods claim_pods claim_owned_objects
    list_controller_revisions get_active_revisions new_revision fields_beq
    create_controller_revision wait_for_versions Versions.is_satisfied Versions.observe
    sync_inplaceu apply_revision scale calculate_diffs_with_expectation ltb_ℤ ◌-ℤ◌ ◌+ℤ◌
    get_or_gen_available_ids get_or_gen_instance_id create_pods new_versioned_pods do_it_slowly
    update_inplaceu_set_status update_status eqb_ℤ new_status truncate_history expect_scale pop
    insert get_controller_key request_key
first_run = refl

started : Reach list_set cluster setting handler handling
unfolding new_scale_expectations
started = Reach.start handling refl

-- The state after the first reconciliation.
abbrev waiting : Handling list_set handler
waiting = record handling { ctl = created_three }

waiting-Reach : Reach list_set cluster setting handler waiting
waiting-Reach =
    reconciled 1 clock stream request handling created_three (pos 0) none first_run started

created_three-IsValid : IsValid list_set created_three.scale_expectations
created_three-IsValid = Reach-IsValid list_set cluster setting handler waiting waiting-Reach

-- The pod of a name, as the set's.
abbrev new_pod : Text → Pod
new_pod name = owned_by_web (record a { name = name; namespace = codes "default" })

-- The creations arrive in another order, with a deletion between them.
abbrev arrivals : List PodEvent
arrivals =
    created 3 4 (new_pod (codes "web-z"))
    ∷ deleted (owned_by_web b)
    ∷ created 5 6 (new_pod pod_x)
    ∷ created 7 8 (new_pod (codes "web-y"))
    ∷ []

all_told :
    (action : ScaleAction) (x : Text)
    → pending list_set (request_key request) action x created_three.scale_expectations ≡ true
    → told list_set handler arrivals (request_key request) action x ≡ true
unfolding pending lookup request_key resolve_controller_ref
all_told ScaleAction.create x p = ground (arith, p)
all_told ScaleAction.delete x p = absurd cc

-- A reconciliation that comes before the events only waits.
waited :
    Waits list_set cluster setting 1 2
      (request_key request)
      created_three
      (reconcile list_set cluster setting 1 clock [] request created_three)
unfolding pending lookup request_key
waited =
    reconcile-Waits list_set cluster setting 1 clock [] request created_three web (λ labels. true)
      ScaleAction.create pod_x created_three-IsValid refl refl refl

abbrev asked_again : Handling list_set handler
asked_again = record waiting { ctl = waited.s' }

abbrev moved : Handling list_set handler
moved = record asked_again { ctl = record asked_again.ctl { world = [] } }

-- That reconciliation, a change of the cluster, and the events.
meanwhile : Between list_set cluster setting handler request arrivals waiting (
    handle list_set handler (created 7 8 (new_pod (codes "web-y"))) (
      handle list_set handler (created 5 6 (new_pod pod_x)) (
        handle list_set handler
          (deleted (owned_by_web b))
          (handle list_set handler (created 3 4 (new_pod (codes "web-z"))) moved))))
unfolding pending lookup request_key
meanwhile =
    Between.reconciled 1 clock [] web (λ labels. true) ScaleAction.create pod_x waited.s'
      waited.after none arrivals waiting _ refl refl refl waited.result
      (Between.cluster_moved [] arrivals asked_again _ (
        Between.observed _ _ _ _ (
          Between.observed _ _ _ _
            (Between.observed _ _ _ _ (Between.observed _ _ _ _ (Between.over _))))))

Reach-Resumes_example :
    Resumes list_set cluster setting handler 1 clock stream request web
      (λ labels. true)
      (handle list_set handler (created 7 8 (new_pod (codes "web-y"))) (
        handle list_set handler (created 5 6 (new_pod pod_x)) (
          handle list_set handler
            (deleted (owned_by_web b))
            (handle list_set handler (created 3 4 (new_pod (codes "web-z"))) moved)))).ctl
Reach-Resumes_example =
    Reach-Resumes list_set cluster setting handler 1 clock stream request web (λ labels. true)
      arrivals waiting _ waiting-Reach meanwhile all_told refl refl

handle-Observed_example :
    Observed list_set handler
      (λ k action x. sees list_set handler k action x (created 3 4 (new_pod pod_x)))
      (cache_of list_set handler waiting)
      (cache_of list_set handler (handle list_set handler (created 3 4 (new_pod pod_x)) waiting))
handle-Observed_example =
    handle-Observed list_set handler (created 3 4 (new_pod pod_x)) waiting created_three-IsValid

reconcile-Waits_example :
    Waits list_set cluster setting 1 2
      (request_key request)
      created_three
      (reconcile list_set cluster setting 1 clock [] request created_three)
unfolding pending lookup request_key
reconcile-Waits_example =
    reconcile-Waits list_set cluster setting 1 clock [] request created_three web (λ labels. true)
      ScaleAction.create pod_x created_three-IsValid refl refl refl
