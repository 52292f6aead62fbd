-- ===== src/Examples/Revising.antt =====
-- The revisions on concrete inputs.
use inplaceu.Base.{ℕ, ◌≡◌, refl, inr, none, some, List, [], Text, text_eq, ==_iff, codes}
use inplaceu.Base.Int.{pos, eqb_ℤ}
use inplaceu.Base.Retry.{stop}
use inplaceu.Api.{ControllerRevision}
use inplaceu.RevisionControl.{new_revision}
use inplaceu.Utils.Pods.{next_revision}
use inplaceu.Revisions.{
  RevisionClient, Parent, create_controller_revision, update_controller_revision, try_update,
  client_error,
}
use inplaceu.Revisions.Collisions.{Ends, create_controller_revision-Ends}
use inplaceu.Revisions.Retries.{sent_as, update_controller_revision-Numbered, try_update-unwritten}
use inplaceu.Reconciler.{get_active_revisions}
use inplaceu.Reconciler.Active.{Faithful, Returns, get_active_revisions-Returns}
use inplaceu.Examples.{web}
use inplaceu.Examples.Setting.{stored, accepting, fields_beq, json, calls}

abbrev parent : Parent
parent = record { namespace = codes "default"; name = codes "web"; uid = codes "u-web" }

create_controller_revision-Ends_example :
    Ends accepting parent
      (stored [] (codes "r") (pos 3))
      (pos 0)
      []
      (create_controller_revision accepting 1 parent (stored [] (codes "r") (pos 3)) (pos 0) [])
create_controller_revision-Ends_example =
    create_controller_revision-Ends accepting parent (stored [] (codes "r") (pos 3)) 0 (pos 0) []
      refl

update_controller_revision-Numbered_example :
    (update_controller_revision accepting
      (λ f c. f c)
      (stored (codes "web-a1") (codes "r") (pos 1))
      (pos 7)
      []).0.1.revision
    ≡ pos 7
unfolding update_controller_revision try_update eqb_ℤ
update_controller_revision-Numbered_example =
    update_controller_revision-Numbered accepting (λ f c. f c) (λ f c. stop c) (λ r w e. refl)
      (stored (codes "web-a1") (codes "r") (pos 1)) (pos 7) [] refl

abbrev failing : RevisionClient (List Text) ℕ
failing = record accepting { update = λ r w. (w, r, some 409) }

try_update-unwritten_example :
    let clone = stored (codes "web-a1") (codes "r") (pos 1) in
    let first = try_update failing clone.namespace clone.name (pos 7) ([], clone) in
    (first ≡ (([], sent_as failing clone (pos 7)), some (client_error 409)))
    × (try_update failing clone.namespace clone.name (pos 7) first.0
        ≡ (([], sent_as failing clone (pos 7)), none))
unfolding eqb_ℤ
try_update-unwritten_example =
    let clone = stored (codes "web-a1") (codes "r") (pos 1) in
    try_update-unwritten failing clone.namespace clone.name (pos 7) [] [] clone
      (sent_as failing clone (pos 7)) 409 404 refl refl refl

-- The revision that is made from the set.
abbrev pub made : ControllerRevision
made = stored (codes "web-b2") (codes "stored") (pos 1)

made_lem : new_revision json web (pos 1) (pos 0) ≡ some (inr made)
unfolding new_revision fields_beq
made_lem = refl

calls-Faithful : Faithful calls web []
calls-Faithful = record {
  equal_data = λ x y e. (==_iff x.raw y.raw).0 e;
  found = λ r. tt;
  none_in_none = λ r e. refl;
  writes_new = λ r w e. refl;
  writes_old = λ r w e. refl;
  tried = λ f c. stop c;
}

get_active_revisions-Returns_example :
    Returns calls web [] made (get_active_revisions calls 1 web [] [])
unfolding new_revision fields_beq next_revision
get_active_revisions-Returns_example =
    get_active_revisions-Returns calls web [] 0 [] made calls-Faithful refl refl
