-- ===== src/Sync/Update/Awaits.antt =====
-- What the controller awaits after the update of one pod.
use inplaceu.Base.{
  ◌≡◌, inl, inr, refl, true, false, Option, none, some, List, codes, Bool-cases, Option-cases, find,
}
use inplaceu.Api.{Pod, ControllerRevision}
use inplaceu.Sets.{StringSet}
use inplaceu.Utils.Hash.{equal_to_revision_hash}
use inplaceu.Utils.Pods.{is_specified_delete}
use inplaceu.Expectations.Versions as Versions
use inplaceu.Expectations.Versions.{Versions}
use inplaceu.Sync.State.{Client, Error, api}
use inplaceu.Sync.Deletes.{Ctl}
use inplaceu.Sync.Update.{
  InPlace, UpdateResult, update_pod, re_create, after_in_place, after_patch, patch_body,
  patch_pod_specified_delete, Result,
}

module _ (sets : StringSet) (client : Client) (in_place : InPlace client) where
  open client use {World, ApiError}

  -- Where the way of deletion starts: no update in place is possible, or one was tried that reported
  -- that it is none.
  pub data Falls (old : Option ControllerRevision) (rev : ControllerRevision) (pod : Pod)
      (w : World) : World → Type 0 where
    impossible : in_place.can_update_in_place old rev ≡ false → Falls old rev pod w w
    declined :
        (w₁ : World) (res : UpdateResult ApiError)
        → in_place.can_update_in_place old rev ≡ true
        → in_place.update pod old rev w ≡ (w₁, res)
        → res.in_place_update ≡ false
        → Falls old rev pod w w₁

  -- What is left in the cluster and awaited, by what was sent: the version that the update in place
  -- reported, under the pod, or the version of the pod that the patch returned, where the update in
  -- place or the patch was accepted; nothing more where it was refused, with its error, or where the
  -- pod is to be deleted already and nothing is sent.
  pub data Awaits (old : Option ControllerRevision) (rev : ControllerRevision) (pod : Pod)
      (w : World) (before : Versions) : World → Versions → Option (Error ApiError) → Type 0 where
    updated :
        (w' : World) (res : UpdateResult ApiError)
        → in_place.can_update_in_place old rev ≡ true
        → in_place.update pod old rev w ≡ (w', res)
        → res.in_place_update ≡ true
        → res.update_err ≡ none
        → Awaits old rev pod w before w'
            (Versions.expect pod.uid res.new_resource_version before)
            none
    refused :
        (w' : World) (res : UpdateResult ApiError) (e : Error ApiError)
        → in_place.can_update_in_place old rev ≡ true
        → in_place.update pod old rev w ≡ (w', res)
        → res.in_place_update ≡ true
        → res.update_err ≡ some e
        → Awaits old rev pod w before w' before (some e)
    doomed_already :
        (w₁ : World)
        → Falls old rev pod w w₁
        → is_specified_delete pod ≡ true
        → Awaits old rev pod w before w₁ before none
    patched :
        (w₁ w' : World) (pod' : Pod)
        → Falls old rev pod w w₁
        → is_specified_delete pod ≡ false
        → client.patch pod (patch_body (codes "true")) w₁ ≡ (w', pod', none)
        → Awaits old rev pod w before w'
            (Versions.expect pod'.uid pod'.resource_version before)
            none
    unpatched :
        (w₁ w' : World) (pod' : Pod) (e : ApiError)
        → Falls old rev pod w w₁
        → is_specified_delete pod ≡ false
        → client.patch pod (patch_body (codes "true")) w₁ ≡ (w', pod', some e)
        → Awaits old rev pod w before w' before (some (api e))

  -- The result of an update, in a state `s`.
  pub record AwaitsIn (old : Option ControllerRevision) (rev : ControllerRevision) (pod : Pod)
      (s : Ctl sets client) (r : Result sets client in_place) : Type 0 where
    pub awaits :
        Awaits old rev pod s.world s.resource_version_expectations r.0.world
          r.0.resource_version_expectations r.2
    pub same_scale : r.0.scale_expectations ≡ s.scale_expectations

  module _ (old : Option ControllerRevision) (rev : ControllerRevision) (pod : Pod)
      (s : Ctl sets client) where
    in_place-AwaitsIn :
        (w : World) (res : UpdateResult ApiError)
        → in_place.can_update_in_place old rev ≡ true
        → in_place.update pod old rev s.world ≡ (w, res)
        → res.in_place_update ≡ true
        → AwaitsIn old rev pod s
            (after_in_place sets client in_place pod (record s { world = w }) res)
    in_place-AwaitsIn w res can sent is_in_place = elim (Option-cases res.update_err) [
      | inl ok ↦
          rw ok (record { awaits = updated w res can sent is_in_place ok; same_scale = refl })
      | inr (e, ko) ↦
          rw ko (record { awaits = refused w res e can sent is_in_place ko; same_scale = refl })
    ]

    patched-AwaitsIn :
        (w₁ : World) (answer : World × Pod × Option ApiError)
        → Falls old rev pod s.world w₁
        → is_specified_delete pod ≡ false
        → client.patch pod (patch_body (codes "true")) w₁ ≡ answer
        → AwaitsIn old rev pod s (
            after_patch sets client in_place pod
              (record s { world = w₁ })
              (answer.0, answer.1, true, answer.2))
    patched-AwaitsIn w₁ (w', pod', none) falls h sent = record {
      awaits = patched w₁ w' pod' falls h sent;
      same_scale = refl;
    }
    patched-AwaitsIn w₁ (w', pod', some e) falls h sent = record {
      awaits = unpatched w₁ w' pod' e falls h sent;
      same_scale = refl;
    }

    re_create-AwaitsIn :
        (w₁ : World)
        → Falls old rev pod s.world w₁
        → AwaitsIn old rev pod s (re_create sets client in_place pod (record s { world = w₁ }))
    unfolding re_create patch_pod_specified_delete
    re_create-AwaitsIn w₁ falls = elim (Bool-cases (is_specified_delete pod)) [
      | inl h ↦ rw (h, re_create) (record { awaits = doomed_already w₁ falls h; same_scale = refl })
      | inr h ↦ rw (h, re_create) (patched-AwaitsIn w₁ _ falls h refl)
    ]

  -- The revision of the list that the pod is at, if there is one.
  abbrev pub old_of : List ControllerRevision → Pod → Option ControllerRevision
  old_of revisions pod =
      find (λ (r : ControllerRevision). equal_to_revision_hash pod.labels r.name) revisions

  -- The update of a pod changes no scale expectation. After an update in place without an error the
  -- version that it reported is awaited of the pod, after an accepted patch the version of the pod that
  -- the patch returned, and nothing more where the call was refused, whose error is returned, or where
  -- the pod was to be deleted already. The patch is sent exactly if the pod cannot be updated in place
  -- or the update in place reports that it is none, and the pod is not to be deleted already.
  pub update_pod-Awaits :
      (rev : ControllerRevision) (revisions : List ControllerRevision) (pod : Pod)
      (s : Ctl sets client)
      → AwaitsIn
          (old_of revisions pod)
          rev
          pod
          s
          (update_pod sets client in_place rev revisions pod s)
  unfolding update_pod
  update_pod-Awaits rev revisions pod s =
      let old = old_of revisions pod in
      let (w, res) = in_place.update pod old rev s.world in
      elim (Bool-cases (in_place.can_update_in_place old rev)) [
        | inr c ↦ rw (c, update_pod) (re_create-AwaitsIn old rev pod s s.world (impossible c))
        | inl c ↦ elim (Bool-cases res.in_place_update) [
          | inl h ↦ rw (c, update_pod, h) (in_place-AwaitsIn old rev pod s w res c refl h)
          | inr h ↦
              rw (c, update_pod, h) (re_create-AwaitsIn old rev pod s w (declined w res c refl h))
        ]
      ]
