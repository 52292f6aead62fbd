-- ===== src/Reconciler/Sync/Unset.antt =====
-- `syncInplaceu` on a set whose replicas are not set.
use inplaceu.Base.{◌≡◌, ap, ◌∙◌, Bool, false, none, some, List, Text, inr}
use inplaceu.Base.Int.{ℤ}
use inplaceu.Api.{Pod, Inplaceu, ControllerRevision, InplaceuStatus, IntOrString}
use inplaceu.Sets.{StringSet}
use inplaceu.RevisionControl.{apply_revision}
use inplaceu.Sync.State.{Client}
use inplaceu.Sync.Deletes.{Ctl}
use inplaceu.Sync.Diffs.{calculate_diffs_with_expectation, diffs_of_spec}
use inplaceu.Sync.Scale.{scale, scale_if_set, nil_replicas}
use inplaceu.Sync.Update.{update, update_by}
use inplaceu.Reconciler.Sync.{Setup, sync_inplaceu, scale_and_update, after_scale}

calculate_diffs-unset :
    (resolve : IntOrString → ℤ → Bool → ℤ) (iu : Inplaceu) (pods : List Pod) (rev : Text)
    → iu.spec.replicas ≡ none
    → calculate_diffs_with_expectation resolve iu pods rev ≡ none
unfolding calculate_diffs_with_expectation
calculate_diffs-unset resolve iu pods rev h =
    ap (λ o. diffs_of_spec resolve o iu.spec.rolling_update pods rev) h

module _ (sets : StringSet) (client : Client) (setup : Setup client) where
  open setup use {kube, in_place, sort_slice, calls}

  scale_and_update-unset :
      (status : InplaceuStatus) (rev : ControllerRevision) (revisions : List ControllerRevision)
      (pods : List Pod) (stream : List Text) (s : Ctl sets client) (iu : Inplaceu)
      → iu.spec.replicas ≡ none
      → scale_and_update sets client setup status rev revisions pods stream s iu ≡ none
  unfolding scale_and_update scale update
  scale_and_update-unset status rev revisions pods stream s iu h =
      ap
        (λ o.
          after_scale sets client setup status
            (update sets client in_place kube.resolve sort_slice iu rev revisions pods)
            (scale_if_set sets client kube o iu rev.name pods stream s))
        h
      ∙ ap
          (λ o.
            after_scale sets client setup status
              (λ s'.
                update_by sets client in_place kube.resolve sort_slice iu rev revisions pods o s')
              (some (s, false, some (nil_replicas sets client kube))))
          (calculate_diffs-unset kube.resolve iu pods rev.name h)

  -- On a set that is not being deleted and whose replicas are not set, where both revisions apply:
  -- `Scale` reports the missing replicas, and `Update` then reads them, which is a panic.
  pub sync_inplaceu-unset :
      (iu current_set update_set : Inplaceu) (status : InplaceuStatus)
      (current rev : ControllerRevision) (revisions : List ControllerRevision) (pods : List Pod)
      (stream : List Text) (s : Ctl sets client)
      → iu.deletion_timestamp ≡ none
      → apply_revision calls.codec iu current ≡ inr current_set
      → apply_revision calls.codec iu rev ≡ inr update_set
      → update_set.spec.replicas ≡ none
      → (scale sets client kube update_set rev.name pods stream s
          ≡ some (s, false, some (nil_replicas sets client kube)))
        × (sync_inplaceu sets client setup iu status current rev revisions pods stream s ≡ none)
  unfolding sync_inplaceu scale
  sync_inplaceu-unset iu current_set update_set status current rev revisions pods stream s alive a b
        h =
      (
        ap (λ o. scale_if_set sets client kube o update_set rev.name pods stream s) h,
        rw (alive, sync_inplaceu, a, b)
            (scale_and_update-unset status rev revisions pods stream s update_set h),
      )
