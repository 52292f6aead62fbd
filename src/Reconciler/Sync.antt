-- ===== src/Reconciler/Sync.antt =====
-- `syncInplaceu` of internal/controller/inplaceu_controller.go.
pub mod Unset
pub mod Valid
pub mod Returns
use inplaceu.Base.{
  ℕ, ◌⊎◌, inl, inr, Bool, true, false, Option, none, some, List, [], ◌∷◌, ◌++◌, Text, if◌then◌else◌,
}
use inplaceu.Api.{Pod, Inplaceu, ControllerRevision, InplaceuStatus, IntOrString}
use inplaceu.Sets.{StringSet}
use inplaceu.RevisionControl.{apply_revision}
use inplaceu.Sync.State.{Client, Error}
use inplaceu.Sync.Deletes.{Ctl}
use inplaceu.Sync.Scale.{Kube, scale}
use inplaceu.Sync.Update.{InPlace, update}
use inplaceu.Reconciler.{Calls, ReconcileError, from_client, from_sync}

-- All that the reconciler stands on.
pub record Setup (client : Client) : Type 0 where
  pub kube : Kube
  pub in_place : InPlace client
  -- The sort of the indexes by the core control's test.
  pub sort_slice : List Pod → List ℕ → List ℕ
  pub calls : Calls client.World client.ApiError

module _ (sets : StringSet) (client : Client) (setup : Setup client) where
  open client use {World, ApiError}
  open setup use {kube, in_place, sort_slice, calls}

  -- The state, the new status and the error; `none` is as in the parts.
  abbrev pub Synced : Type 0
  Synced = Option (Ctl sets client × InplaceuStatus × Option (ReconcileError ApiError))

  -- The condition that an error adds.
  abbrev pub note_failure : Option (Error ApiError) → InplaceuStatus → InplaceuStatus
  note_failure none status = status
  note_failure (some e) status = record status {
    conditions = status.conditions ++ record { message = calls.error_text e } ∷ [];
  }

  abbrev pub sync_error : Option (Error ApiError) → Option (ReconcileError ApiError)
  sync_error none = none
  sync_error (some e) = some (from_sync e)

  -- The first error of the two.
  abbrev pub first_error :
      Option (Error ApiError) → Option (Error ApiError) → Option (Error ApiError)
  first_error none err = err
  first_error (some e) err = some e

  abbrev pub after_update :
      InplaceuStatus
      → Option (Error ApiError)
      → Option (Ctl sets client × Option (Error ApiError))
      → Synced
  after_update status scale_err none = none
  after_update status scale_err (some (s, err)) =
      some (s, note_failure err status, sync_error (first_error scale_err err))

  abbrev pub after_scale :
      InplaceuStatus
      → (Ctl sets client → Option (Ctl sets client × Option (Error ApiError)))
      → Option (Ctl sets client × Bool × Option (Error ApiError))
      → Synced
  after_scale status update_set none = none
  after_scale status update_set (some (s, true, err)) =
      some (s, note_failure err status, sync_error err)
  after_scale status update_set (some (s, false, err)) =
      after_update (note_failure err status) err (update_set s)

  unfoldable pub scale_and_update :
      InplaceuStatus
      → ControllerRevision
      → List ControllerRevision
      → List Pod
      → List Text
      → Ctl sets client
      → Inplaceu
      → Synced
  scale_and_update status update_revision revisions pods stream s update_set =
      after_scale status
        (update sets client in_place kube.resolve sort_slice update_set update_revision revisions
          pods)
        (scale sets client kube update_set update_revision.name pods stream s)

  -- The set at the current revision is made, and only goes to calls that do not read it.
  abbrev pub with_sets :
      InplaceuStatus
      → (Inplaceu → Synced)
      → ApiError ⊎ Inplaceu
      → ApiError ⊎ Inplaceu
      → Ctl sets client
      → Synced
  with_sets status next (inl e) update_set s = some (s, status, some (from_client e))
  with_sets status next (inr current_set) (inl e) s = some (s, status, some (from_client e))
  with_sets status next (inr current_set) (inr update_set) s = next update_set

  unfoldable pub sync_inplaceu :
      Inplaceu
      → InplaceuStatus
      → ControllerRevision
      → ControllerRevision
      → List ControllerRevision
      → List Pod
      → List Text
      → Ctl sets client
      → Synced
  unfolding scale_and_update
  sync_inplaceu iu status current_revision update_revision revisions pods stream s =
      let synced =
        with_sets status (scale_and_update status update_revision revisions pods stream s)
          (apply_revision calls.codec iu current_revision)
          (apply_revision calls.codec iu update_revision) s in
      elim iu.deletion_timestamp [ some t ↦ some (s, status, none) | none ↦ synced ]
