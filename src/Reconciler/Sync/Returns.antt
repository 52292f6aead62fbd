-- ===== src/Reconciler/Sync/Returns.antt =====
-- `syncInplaceu` returns on a set that it can scale and update.
use inplaceu.Base.{
  ◌<◌, ◌≤◌, ◌⊎◌, inl, inr, ◌≡◌, refl, ap, ◌∙◌, true, false, Option, none, some, List, Text, All,
  length, count, Option-cases,
}
use inplaceu.Base.Int.{ℤ, pos_part}
use inplaceu.Api.{Pod, Inplaceu, ControllerRevision, InplaceuStatus, RollingUpdate}
use inplaceu.Sets.{StringSet}
use inplaceu.RevisionControl.{apply_revision}
use inplaceu.Core.NewPods.{new_versioned_pods-AllVersioned}
use inplaceu.Sync.State.{Client, Error}
use inplaceu.Sync.Deletes.{Ctl}
use inplaceu.Sync.Creates.{create_pods}
use inplaceu.Sync.Creates.Awaited.{create_pods-Created}
use inplaceu.Sync.Diffs.{ExpectationDiffs, calculate_diffs_with_expectation, diffs_of_spec}
use inplaceu.Sync.Waiting.{wait_update_indexes}
use inplaceu.Sync.Scale.{scale, from_api, Outcome}
use inplaceu.Sync.Scale.Ids.{is_fresh}
use inplaceu.Sync.Scale.OneCall.{scale-ScaledBy}
use inplaceu.Sync.Update.{update}
use inplaceu.Sync.Update.Returns.{update-Updated}
use inplaceu.Reconciler.Sync.{
  Setup, Synced, sync_inplaceu, scale_and_update, after_scale, after_update, with_sets,
}

abbrev pub Returned {ℓ} : {A : Type ℓ} → Option A → Type ℓ
Returned o = (a : _) × (o ≡ some a)

module _ (sets : StringSet) (client : Client) (setup : Setup client) where
  open client use {World, ApiError}
  open setup use {kube, in_place, sort_slice, calls}

  -- A set that `Scale` and `Update` can work on: its replicas and its rolling update are set, its
  -- template gives a pod, there are random texts enough for the pods to create, and the sort keeps the
  -- indexes in range.
  pub record Workable (iu : Inplaceu) (rev : Text) (pods : List Pod) (stream : List Text)
      : Type 0 where
    pub replicas : ℤ
    pub has_replicas : iu.spec.replicas ≡ some replicas
    pub rolling : RollingUpdate
    pub has_rolling : iu.spec.rolling_update ≡ some rolling
    pub template : Pod
    pub has_template : kube.from_template iu ≡ some template
    pub enough :
        (d : ExpectationDiffs)
        → calculate_diffs_with_expectation kube.resolve iu pods rev ≡ some d
        → pos_part d.scale_up_num ≤ count (is_fresh pods) stream
    pub in_range : All (λ i. i < length pods) (sort_slice pods (wait_update_indexes rev pods))

  diffs_lem :
      (iu : Inplaceu) (rev : Text) (pods : List Pod) (stream : List Text)
      → Workable iu rev pods stream
      → Returned (calculate_diffs_with_expectation kube.resolve iu pods rev)
  unfolding calculate_diffs_with_expectation
  diffs_lem iu rev pods stream w = (
    _,
    ap (λ o. diffs_of_spec kube.resolve o iu.spec.rolling_update pods rev) w.has_replicas
        ∙ ap (λ o. diffs_of_spec kube.resolve (some w.replicas) o pods rev) w.has_rolling,
  )

  made_lem :
      (n : ℤ) (iu : Inplaceu) (rev : Text) (template : Pod) (ids : List Text) (s : Ctl sets client)
      → kube.from_template iu ≡ some template
      → Returned
          (from_api sets client kube (create_pods sets client kube.from_template n iu rev ids s))
  made_lem n iu rev template ids s h =
      let (pods, e, _) =
        new_versioned_pods-AllVersioned kube.from_template iu rev template n ids h in
      (
        _,
        ap (from_api sets client kube)
            (create_pods-Created sets client kube.from_template n iu rev ids pods s e).result,
      )

  scale_lem :
      (iu : Inplaceu) (rev : Text) (pods : List Pod) (stream : List Text) (s : Ctl sets client)
      → Workable iu rev pods stream
      → Returned (scale sets client kube iu rev pods stream s)
  scale_lem iu rev pods stream s w =
      let (d, e) = diffs_lem iu rev pods stream w in
      elim (scale-ScaledBy sets client kube iu rev pods stream s d w.replicas w.rolling
        w.has_replicas w.has_rolling e (w.enough d e)) [
          | inl one ↦
              let (r, h) =
                made_lem d.scale_up_num iu rev w.template (sets.list one.ids) s w.has_template in
              (r, one.run ∙ h)
          | inr (down, one) ↦ (_, one.run)
        ]

  update_lem :
      (iu : Inplaceu) (rev : ControllerRevision) (revisions : List ControllerRevision)
      (pods : List Pod) (stream : List Text) (s : Ctl sets client)
      → Workable iu rev.name pods stream
      → Returned (update sets client in_place kube.resolve sort_slice iu rev revisions pods s)
  update_lem iu rev revisions pods stream s w =
      let (d, e) = diffs_lem iu rev.name pods stream w in
      let updated =
        update-Updated sets client in_place kube.resolve sort_slice iu rev revisions pods s d
          w.replicas w.rolling w.has_replicas w.has_rolling e w.in_range in
      (updated.result, updated.returned)

  after_update_lem :
      (status : InplaceuStatus) (err : Option (Error ApiError))
      (r : Option (Ctl sets client × Option (Error ApiError)))
      → Returned r
      → Returned (after_update sets client setup status err r)
  after_update_lem status err none (x, h) = absurd cc
  after_update_lem status err (some (s, e)) h = (_, refl)

  after_scale_lem :
      (status : InplaceuStatus)
      (next : Ctl sets client → Option (Ctl sets client × Option (Error ApiError)))
      (r : Outcome sets client kube)
      → Returned r
      → ((s : Ctl sets client) → Returned (next s))
      → Returned (after_scale sets client setup status next r)
  after_scale_lem status next none (x, h) more = absurd cc
  after_scale_lem status next (some (s, true, e)) h more = (_, refl)
  after_scale_lem status next (some (s, false, e)) h more = after_update_lem _ e (next s) (more s)

  scale_and_update_lem :
      (status : InplaceuStatus) (rev : ControllerRevision) (revisions : List ControllerRevision)
      (pods : List Pod) (stream : List Text) (s : Ctl sets client) (iu : Inplaceu)
      → Workable iu rev.name pods stream
      → Returned (scale_and_update sets client setup status rev revisions pods stream s iu)
  unfolding scale_and_update
  scale_and_update_lem status rev revisions pods stream s iu w =
      after_scale_lem status _ (scale sets client kube iu rev.name pods stream s)
        (scale_lem iu rev.name pods stream s w) (λ s'. update_lem iu rev revisions pods stream s' w)

  with_sets_lem :
      (status : InplaceuStatus) (next : Inplaceu → Synced sets client setup)
      (a b : ApiError ⊎ Inplaceu) (s : Ctl sets client)
      → ((iu : Inplaceu) → b ≡ inr iu → Returned (next iu))
      → Returned (with_sets sets client setup status next a b s)
  with_sets_lem status next (inl e) b s h = (_, refl)
  with_sets_lem status next (inr x) (inl e) s h = (_, refl)
  with_sets_lem status next (inr x) (inr y) s h = h y refl

  pub sync_inplaceu-Returned :
      (iu : Inplaceu) (status : InplaceuStatus) (current rev : ControllerRevision)
      (revisions : List ControllerRevision) (pods : List Pod) (stream : List Text)
      (s : Ctl sets client)
      → ((u : Inplaceu)
          → apply_revision calls.codec iu rev ≡ inr u
          → Workable u rev.name pods stream)
      → Returned (sync_inplaceu sets client setup iu status current rev revisions pods stream s)
  unfolding sync_inplaceu
  sync_inplaceu-Returned iu status current rev revisions pods stream s workable =
      elim (Option-cases iu.deletion_timestamp) [
        | inr (t, e) ↦ rw (e, sync_inplaceu) (_, refl)
        | inl e ↦
            rw (e, sync_inplaceu)
              (with_sets_lem status
                (scale_and_update sets client setup status rev revisions pods stream s)
                (apply_revision calls.codec iu current) (apply_revision calls.codec iu rev) s
                (λ u h. scale_and_update_lem status rev revisions pods stream s u (workable u h)))
      ]
