-- ===== src/Sync/Creates.antt =====
-- `createPods` and `createOnePod` of internal/sync/inplaceu_scale.go. The pods wait in a channel
-- from which the calls of `DoItSlowly` take them.
pub mod Awaited
pub mod Expected
use inplaceu.Base.{
  ℕ, zero, suc, Bool, true, false, not, Option, none, some, List, [], ◌∷◌, Text, text_eq, ◌==◌, any,
  length, nat_beq, if◌then◌else◌,
}
use inplaceu.Base.Int.{ℤ}
use inplaceu.Api.{Pod, Inplaceu}
use inplaceu.Sets.{StringSet}
use inplaceu.Utils.Pods.{get_controller_key}
use inplaceu.Utils.Slowly.{do_it_slowly}
use inplaceu.Core.{new_versioned_pods}
use inplaceu.Expectations.Scale.{ScaleAction}
use inplaceu.Sync.State.{Client, State, record_event, failed_create, successful_create}
use inplaceu.Sync.Deletes.{Ctl, expect, observe}

abbrev pub initial_batch_size : ℕ
initial_batch_size = 1

module _ (sets : StringSet) (client : Client) where
  open client use {World, ApiError, create}

  unfoldable pub create_one_pod : Pod → Ctl sets client → Ctl sets client × Option ApiError
  create_one_pod pod s =
      let (world, err) = create pod s.world in
      let s₁ : Ctl sets client = record s { world = world } in
      elim err [
        | some e ↦ (record_event failed_create pod.name s₁, some e)
        | none ↦ (record_event successful_create pod.name s₁, none)
      ]

  -- What the calls share: `podsCreationChan`, `created` and the keys of `successPodNames`.
  pub record Creating : Type 0 where
    pub ctl : Ctl sets client
    pub queue : List Pod
    pub created : ℕ
    pub success_pod_names : List Text

  abbrev pub after_create :
      Creating → Pod → List Pod → Ctl sets client × Option ApiError → Creating × Option ApiError
  after_create c pod rest (s, some e) = (record c { ctl = s; queue = rest }, some e)
  after_create c pod rest (s, none) = (
    record {
      ctl = s;
      queue = rest;
      created = suc c.created;
      success_pod_names = pod.name ∷ c.success_pod_names;
    },
    none,
  )

  -- A receive from an empty channel would wait; there are no more calls than pods in it.
  abbrev pub receive : List Pod → Creating → Creating × Option ApiError
  receive [] c = (c, none)
  receive (pod ∷ rest) c = after_create c pod rest (create_one_pod pod c.ctl)

  unfoldable pub create_next : Creating → Creating × Option ApiError
  unfolding create_one_pod
  create_next c = receive c.queue c

  unfoldable pub expect_creations : Text → List Pod → Ctl sets client → Ctl sets client
  expect_creations key [] s = s
  expect_creations key (p ∷ pods) s =
      expect_creations key pods (expect sets client key ScaleAction.create p.name s)

  -- The loop that takes back the expectation of each pod that was not created.
  unfoldable pub roll_back : Text → List Text → List Pod → Ctl sets client → Ctl sets client
  roll_back key names [] s = s
  roll_back key names (p ∷ pods) s = roll_back key names pods (
      if any (λ x. x == p.name) names
      then s
      else observe sets client key ScaleAction.create p.name s)

  -- From the calls' outcome to the results.
  abbrev pub finish :
      Text → List Pod → Creating × ℕ × Option ApiError → Ctl sets client × Bool × Option ApiError
  finish key new_pods (c, successes, err) =
      (roll_back key c.success_pod_names new_pods c.ctl, not (nat_beq c.created 0), err)

  abbrev pub finish_calls :
      Text
      → List Pod
      → Option (Creating × ℕ × Option ApiError)
      → Option (Ctl sets client × Bool × Option ApiError)
  finish_calls key new_pods none = none
  finish_calls key new_pods (some r) = some (finish key new_pods r)

  unfoldable pub create_all :
      Text → List Pod → Ctl sets client → Option (Ctl sets client × Bool × Option ApiError)
  unfolding expect_creations create_next roll_back
  create_all key new_pods s = finish_calls key new_pods (
      do_it_slowly create_next (length new_pods) initial_batch_size (record {
        ctl = expect_creations key new_pods s;
        queue = new_pods;
        created = 0;
        success_pod_names = [];
      }))

  abbrev pub create_if_made :
      Text → Option (List Pod) → Ctl sets client → Option (Ctl sets client × Bool × Option ApiError)
  create_if_made key none s = none
  create_if_made key (some new_pods) s = create_all key new_pods s

  -- `none` is a panic.
  unfoldable pub create_pods :
      (Inplaceu → Option Pod)
      → ℤ
      → Inplaceu
      → Text
      → List Text
      → Ctl sets client
      → Option (Ctl sets client × Bool × Option ApiError)
  unfolding create_all
  create_pods from_template expected_creations update_iu update_revision available_ids s =
      create_if_made (get_controller_key update_iu)
        (new_versioned_pods from_template update_iu update_revision expected_creations
          available_ids)
        s
