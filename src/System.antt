-- ===== src/System.antt =====
-- The controller as a whole: its reconciliations and its handler of pod events share the expectations
-- of internal/utils, and run in any order, while others change the cluster.
pub mod Resumes
use inplaceu.Base.{ℕ, ◌≡◌, sym, subst, Option, some, List, Text, text_eq, lookup}
use inplaceu.Base.Int.{ℤ}
use inplaceu.Sets.{StringSet}
use inplaceu.Expectations.Scale.{new_scale_expectations}
use inplaceu.Expectations.Scale.Valid.{IsValid}
use inplaceu.Sync.State.{Client}
use inplaceu.Sync.Deletes.{Ctl}
use inplaceu.Events.{Handler, Handling, Request}
use inplaceu.Events.Observed.{PodEvent, handle, cache_of}
use inplaceu.Events.Handled.{handle-Observed}
use inplaceu.Reconciler.{ReconcileError}
use inplaceu.Reconciler.Sync.{Setup}
use inplaceu.Reconciler.Run.{reconcile}
use inplaceu.Reconciler.Waiting.{Clock}
use inplaceu.Reconciler.Finish.Valid.{OutcomeValid}
use inplaceu.Reconciler.Run.Valid.{reconcile-OutcomeValid}

module _ (sets : StringSet) (client : Client) (setup : Setup client)
    (handler : Handler client.World) where
  open client use {World, ApiError}

  abbrev pub in_world : World → Handling sets handler → Handling sets handler
  in_world w h = record h { ctl = record h.ctl { world = w } }

  abbrev pub in_ctl : Ctl sets client → Handling sets handler → Handling sets handler
  in_ctl s h = record h { ctl = s }

  -- The states that the controller comes to, from a start with no expectations: by an event of a pod,
  -- by a reconciliation of any request that returns, and by a change of the cluster by others.
  pub data Reach : Handling sets handler → Type 0 where
    start :
        (h : Handling sets handler)
        → cache_of sets handler h ≡ new_scale_expectations sets
        → Reach h
    observed :
        (e : PodEvent) (h : Handling sets handler) → Reach h → Reach (handle sets handler e h)
    reconciled :
        (fuel : ℕ) (clock : Clock) (stream : List Text) (req : Request) (h : Handling sets handler)
        (s : Ctl sets client) (after : ℤ) (err : Option (ReconcileError ApiError))
        → reconcile sets client setup fuel clock stream req h.ctl ≡ some (s, after, err)
        → Reach h
        → Reach (in_ctl s h)
    cluster_moved : (w : World) (h : Handling sets handler) → Reach h → Reach (in_world w h)

  -- In every state that the controller comes to, no controller's cache holds two sets for one action.
  pub Reach-IsValid : (h : Handling sets handler) → Reach h → IsValid sets (cache_of sets handler h)
  unfolding new_scale_expectations lookup
  Reach-IsValid _ (start h e) = subst (IsValid sets) (sym e) (λ k entry none_there. absurd cc)
  Reach-IsValid _ (observed e h r) = (handle-Observed sets handler e h (Reach-IsValid h r)).1
  Reach-IsValid _ (reconciled fuel clock stream req h s after err returned r) =
      subst (OutcomeValid sets client setup) returned
        (reconcile-OutcomeValid sets client setup fuel clock stream req h.ctl (Reach-IsValid h r))
  Reach-IsValid _ (cluster_moved w h r) = Reach-IsValid h r
