-- ===== src/Reconciler/Sync/Valid.antt =====
-- `syncInplaceu` keeps the cache of scale expectations valid.
use inplaceu.Base.{
  ◌⊎◌, inl, inr, sym, subst, Bool, true, false, Option, none, some, List, Text, Option-cases,
}
use inplaceu.Api.{Pod, Inplaceu, ControllerRevision, InplaceuStatus}
use inplaceu.Sets.{StringSet}
use inplaceu.Expectations.Scale.Valid.{IsValid}
use inplaceu.RevisionControl.{apply_revision}
use inplaceu.Sync.State.{Client, Error}
use inplaceu.Sync.Deletes.{Ctl}
use inplaceu.Sync.Scale.Valid.{KeepsValid, scale-KeepsValid}
use inplaceu.Sync.Update.{update}
use inplaceu.Sync.Update.Valid.{SameCache, update-SameCache}
use inplaceu.Reconciler.Sync.{
  Setup, Synced, sync_inplaceu, scale_and_update, after_scale, after_update, with_sets,
}

module _ (sets : StringSet) (client : Client) (setup : Setup client) where
  open client use {World, ApiError}
  open setup use {kube, in_place, sort_slice, calls}

  abbrev Valid : Ctl sets client → Type 0
  Valid s = IsValid sets s.scale_expectations

  -- What `syncInplaceu` leaves, if it returns.
  abbrev pub SyncedValid : Synced sets client setup → Type 0
  SyncedValid none = Unit
  SyncedValid (some r) = Valid r.0

  after_update-Valid :
      (status : InplaceuStatus) (err : Option (Error ApiError)) (s : Ctl sets client)
      (r : Option (Ctl sets client × Option (Error ApiError)))
      → Valid s
      → SameCache sets client in_place s.scale_expectations r
      → SyncedValid (after_update sets client setup status err r)
  after_update-Valid status err s none v same = tt
  after_update-Valid status err s (some (s', e)) v same = subst (IsValid sets) (sym same) v

  after_scale-Valid :
      (status : InplaceuStatus) (update_set : Inplaceu) (rev : ControllerRevision)
      (revisions : List ControllerRevision) (pods : List Pod)
      (r : Option (Ctl sets client × Bool × Option (Error ApiError)))
      → KeepsValid sets client kube r
      → SyncedValid (
          after_scale sets client setup status
            (update sets client in_place kube.resolve sort_slice update_set rev revisions pods)
            r)
  after_scale-Valid status update_set rev revisions pods none v = tt
  after_scale-Valid status update_set rev revisions pods (some (s, true, e)) v = v
  after_scale-Valid status update_set rev revisions pods (some (s, false, e)) v =
      after_update-Valid _ e s _ v (
        update-SameCache sets client in_place kube.resolve sort_slice update_set rev revisions pods
          s)

  scale_and_update-Valid :
      (status : InplaceuStatus) (rev : ControllerRevision) (revisions : List ControllerRevision)
      (pods : List Pod) (stream : List Text) (s : Ctl sets client) (update_set : Inplaceu)
      → Valid s
      → SyncedValid
          (scale_and_update sets client setup status rev revisions pods stream s update_set)
  unfolding scale_and_update
  scale_and_update-Valid status rev revisions pods stream s update_set v =
      after_scale-Valid status update_set rev revisions pods _
        (scale-KeepsValid sets client kube update_set rev.name pods stream s v)

  with_sets-Valid :
      (status : InplaceuStatus) (next : Inplaceu → Synced sets client setup)
      (a b : ApiError ⊎ Inplaceu) (s : Ctl sets client)
      → Valid s
      → ((iu : Inplaceu) → SyncedValid (next iu))
      → SyncedValid (with_sets sets client setup status next a b s)
  with_sets-Valid status next (inl e) b s v h = v
  with_sets-Valid status next (inr x) (inl e) s v h = v
  with_sets-Valid status next (inr x) (inr y) s v h = h y

  pub sync_inplaceu-Valid :
      (iu : Inplaceu) (status : InplaceuStatus) (current rev : ControllerRevision)
      (revisions : List ControllerRevision) (pods : List Pod) (stream : List Text)
      (s : Ctl sets client)
      → Valid s
      → SyncedValid (sync_inplaceu sets client setup iu status current rev revisions pods stream s)
  unfolding sync_inplaceu
  sync_inplaceu-Valid iu status current rev revisions pods stream s v =
      elim (Option-cases iu.deletion_timestamp) [
        | inr (t, e) ↦ rw (e, sync_inplaceu) v
        | inl e ↦
            rw (e, sync_inplaceu)
              (with_sets-Valid status _ (apply_revision calls.codec iu current)
                (apply_revision calls.codec iu rev) s v
                (λ u. scale_and_update-Valid status rev revisions pods stream s u v))
      ]
