-- ===== src/Lib.antt =====
-- Verification of the Inplaceu controller, which keeps a number of pods at one revision of a template
-- and updates them in place.
--
-- The program. The reconciler (internal/controller) reads a set and its pods, returns while the
-- controller still awaits something that it asked for, and calls the control (internal/sync) to create,
-- delete or update pods. The control writes what it awaits into two caches of expectations
-- (internal/utils/expectations), which the event handler empties as the events arrive, and into a store
-- of durations (internal/utils/requeueduration) the time after which the set is to be looked at again.
-- Then the status is computed from the pods (internal/status) and written if it differs.
--
-- The files. Base holds what the others share: numbers, integers, lists, maps, Go strings as bytes.
-- Api is api/v1/inplaceu_types.go and the fields of the Kubernetes objects. Sets is the interface of
-- sets.String of apimachinery, with an instance in Sets/Lists.
--   Utils/Hash, Utils/Pods, Utils/Slowly   internal/utils/inplaceu_utils.go: EqualToRevisionHash,
--       WriteRevisionHash, GetShortHash; IsRunning, GroupUpdateAndNotUpdatePods, GetPodNames; DoItSlowly
--   Utils/Sorts          internal/utils/pod_sorts.go: Less, NewSameNodeRanker
--   Expectations/Scale   internal/utils/expectations/scale_expection.go
--   Expectations/Versions   internal/utils/expectations/resource_version_expection.go
--   Requeue              internal/utils/requeueduration/duration.go
--   Core                 internal/inplaceu_core/inplaceu_core.go: NewVersionedPods
--   Refs                 internal/utils/refmgr/refmgr.go: ClaimOwnedObjects
--   History              internal/controller/inplaceu_controller.go: truncateHistory
--   Status               internal/status/inplace_status.go: calculateStatus, inconsistentStatus,
--       updateStatus; Base/Retry says what retry.RetryOnConflict does
--   Revisions            internal/utils/history/controller_history.go
--   RevisionControl      internal/utils/revision/inplaceu_revision.go, with SetRevisionTemplate and
--       ApplyRevisionPatch of internal/inplaceu_core/inplaceu_core.go
--   InPlaceUpdate        internal/inplace_update/inplace_update.go: CalculateSpec; Containers is
--       defaultPatchUpdateSpecToPod, Sending is updatePodInPlace and Update
--   Events               internal/inplaceu_event_handler/inplaceu_event_handler.go
--   Reconciler           internal/controller/inplaceu_controller.go: getOwnedPods, claimPods and
--       getActiveRevisions; Reconciler/Sync is syncInplaceu; Reconcile is Reconciler/Run up to the choice
--       of the revisions, Reconciler/Waiting and Finish behind it
--   System               reconciliations, events of pods and changes by others, in any order;
--       System/Resumes says when a set that waits goes on
--   Sync/Diffs           internal/sync/inplaceu_scale_util.go: calculateDiffsWithExpectation
--   Sync/Deletes, Sync/Creates, Sync/Scale   internal/sync/inplaceu_scale.go: deletePods, createPods, Scale
--   Sync/Waiting, Sync/Limit, Sync/Update   internal/sync/inplaceu_update.go: the waiting pods,
--       limitUpdateIndexes, Update and updatePod; internal/specifieddelete/specified_delete.go
-- A child module holds what is shown of its parent's definitions; Examples runs them on a small cluster.
-- Functions keep the source's names in lower case, an operation on shared state takes the state and
-- returns the new one, and a Go error is the last part of the result. Option's none stands for a panic,
-- where the comment of a definition does not say otherwise.
--
-- Parameters: the client of controller-runtime (Sync/State), whose calls may change the cluster and fail
-- in any way; sort.Sort, IsPodReady, IsPodAvailable, GetValueFromIntOrPercent and GetPodFromTemplate of
-- Go and Kubernetes; JSON, JSON patches and strategic merges; the sorting and comparing of revisions by
-- Kubernetes; retry.RetryOnConflict, of which theorems assume that it tries its function until there is
-- no conflict or the tries are used up; the clock; the random texts of rand.String, as a stream.
--
-- Bounds. An int of Go is an integer with no bound; int32 counters of the status wrap. DoItSlowly runs on
-- one round more than calls, which is enough since each batch makes a call. The calls of a batch take
-- effect one after the other. The loop that makes an ID ends where the stream does.
--
-- CreateControllerRevision runs on fuel, one for each name that it tries.
--
-- Not modelled: log lines, the wiring of the program, the adapters of pods and revisions that only call a
-- client, GetPodsSortFunc, which calls a sort of Kubernetes, and helpers
-- on JSON that nothing uses. The pods that the status is computed from are those that the calls of the
-- control left, by a parameter of the reconciler, since a patch fills in the pod that it is given.
mod Base
pub mod Api
pub mod Sets
pub mod Utils
pub mod Expectations
pub mod Requeue
pub mod Sync
pub mod Core
pub mod Status
pub mod Refs
pub mod History
pub mod Events
pub mod Revisions
pub mod RevisionControl
pub mod Reconciler
pub mod InPlaceUpdate
pub mod System
mod Examples
