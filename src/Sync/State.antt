-- ===== src/Sync/State.antt =====
-- What the calls of internal/sync act on: the cluster behind the client of controller-runtime, the
-- expectations of internal/utils, the store of requeue durations and the recorded events.
use inplaceu.Base.{Option, List, ◌∷◌, Text}
use inplaceu.Api.{Pod}
use inplaceu.Sets.{StringSet}
use inplaceu.Expectations.Scale.{Cache}
use inplaceu.Expectations.Versions.{Versions}
use inplaceu.Requeue.{DurationStore}

-- The client of controller-runtime: each call may change the cluster and may fail.
pub record Client : Type 1 where
  pub World : Type 0
  pub ApiError : Type 0
  pub create : Pod → World → World × Option ApiError
  pub delete : Pod → World → World × Option ApiError
  -- A patch also fills in the pod as the cluster holds it then.
  pub patch : Pod → Text → World → World × Pod × Option ApiError

-- The reasons of the recorded events.
pub data Reason : Type 0 where
  failed_create successful_create failed_delete successful_delete : Reason
  successful_update_pod_in_place failed_update_pod_in_place : Reason
  failed_update_pod_re_create successful_update_pod_re_create : Reason

-- An event by its reason and the pod that its message names.
pub record Event : Type 0 where
  pub reason : Reason
  pub pod : Text

-- An error of Go: one that the client returned, or one made from a text.
pub data Error (E : Type 0) : Type 0 where
  api : E → Error E
  message : Text → Error E

-- Over the type of sets and the type of the cluster.
pub record State (sets : StringSet) (World : Type 0) : Type 0 where
  pub world : World
  pub scale_expectations : Cache sets
  pub resource_version_expectations : Versions
  pub duration_store : DurationStore
  pub events : List Event

module _ {sets : StringSet} {World : Type 0} where
  abbrev pub record_event : Reason → Text → State sets World → State sets World
  record_event reason pod s = record s { events = record { reason = reason; pod = pod } ∷ s.events }
