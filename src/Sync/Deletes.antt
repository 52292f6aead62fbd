-- ===== src/Sync/Deletes.antt =====
-- `deletePods` of internal/sync/inplaceu_scale.go.
pub mod Awaited
pub mod Valid
use inplaceu.Base.{Bool, true, false, Option, none, some, List, [], ◌∷◌, Text}
use inplaceu.Api.{Pod, Inplaceu}
use inplaceu.Sets.{StringSet}
use inplaceu.Utils.Pods.{get_controller_key}
use inplaceu.Expectations.Scale.{ScaleAction, expect_scale, observe_scale}
use inplaceu.Sync.State.{Client, State, record_event, failed_delete, successful_delete}

module _ (sets : StringSet) (client : Client) where
  open client use {World, ApiError, delete}

  abbrev pub Ctl : Type 0
  Ctl = State sets World

  abbrev pub expect : Text → ScaleAction → Text → Ctl → Ctl
  expect key action name s = record s {
    scale_expectations = expect_scale sets key action name s.scale_expectations;
  }

  abbrev pub observe : Text → ScaleAction → Text → Ctl → Ctl
  observe key action name s = record s {
    scale_expectations = observe_scale sets key action name s.scale_expectations;
  }

  -- One round of the loop: the state, and the error on which it returns.
  unfoldable pub delete_one : Text → Pod → Ctl → Ctl × Option ApiError
  delete_one key pod s =
      let s₁ = expect key ScaleAction.delete pod.name s in
      let (world, err) = delete pod s₁.world in
      let s₂ : Ctl = record s₁ { world = world } in
      elim err [
        | some e ↦ (
          record_event failed_delete pod.name (observe key ScaleAction.delete pod.name s₂),
          some e,
        )
        | none ↦ (record_event successful_delete pod.name s₂, none)
      ]

  unfoldable pub delete_from : Text → List Pod → Bool → Ctl → Ctl × Bool × Option ApiError
  unfolding delete_one
  delete_from key [] modified s = (s, modified, none)
  delete_from key (pod ∷ pods) modified s =
      let (s', err) = delete_one key pod s in
      let rest = delete_from key pods true s' in
      elim err [ some e ↦ (s', modified, some e) | none ↦ rest ]

  unfoldable pub delete_pods : Inplaceu → List Pod → Ctl → Ctl × Bool × Option ApiError
  unfolding delete_from
  delete_pods iu pods s = delete_from (get_controller_key iu) pods false s
