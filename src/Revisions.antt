-- ===== src/Revisions.antt =====
-- internal/utils/history/controller_history.go: the stored revisions of a set's template. A parent is
-- taken by its namespace, its name and its UID.
pub mod Collisions
pub mod Retries
pub mod Data
use inplaceu.Base.{
  ℕ, zero, suc, ◌⊎◌, inl, inr, Bool, true, false, not, ◌&&◌, ◌||◌, Option, none, some, List, [],
  ◌∷◌, ◌++◌, Text, text_eq, ◌==◌, keep, if◌then◌else◌,
}
use inplaceu.Base.Int.{ℤ, int_eq, inc32}
use inplaceu.Api.{ControllerRevision, OwnerReference, controller_of}

-- The client of controller-runtime on revisions, and what else is called. A write returns the
-- revision as the cluster holds it then.
pub record RevisionClient (World ApiError : Type 0) : Type 0 where
  pub is_already_exists : ApiError → Bool
  pub is_not_found : ApiError → Bool
  pub is_invalid : ApiError → Bool
  pub is_conflict : ApiError → Bool
  pub create : ControllerRevision → World → World × ControllerRevision × Option ApiError
  pub update : ControllerRevision → World → World × ControllerRevision × Option ApiError
  -- By namespace and name.
  pub read : Text → Text → World → ApiError ⊎ ControllerRevision
  -- The revisions of a namespace that a set's selector matches.
  pub list : Text → World → ApiError ⊎ List ControllerRevision
  -- `history.HashControllerRevision` and `history.ControllerRevisionName`.
  pub hash : ControllerRevision → ℤ → Text
  pub revision_name : Text → Text → Text

pub record Parent : Type 0 where
  pub namespace : Text
  pub name : Text
  pub uid : Text

-- An error of the client, or one that the code makes.
pub data RevisionError (E : Type 0) : Type 0 where
  client_error : E → RevisionError E
  owned_error : OwnerReference → RevisionError E

module _ {World ApiError : Type 0} (client : RevisionClient World ApiError) where
  open client use {
    is_already_exists, is_not_found, is_invalid, is_conflict, create, update, read, list, hash,
    revision_name,
  }

  abbrev pub Error : Type 0
  Error = RevisionError ApiError

  abbrev not_foreign : Text → Option OwnerReference → Bool
  not_foreign uid none = true
  not_foreign uid (some ref) = ref.uid == uid

  -- The loop of `ListControllerRevisions`: the parent's revisions, and those that nobody controls.
  unfoldable pub owned_revisions : Text → List ControllerRevision → List ControllerRevision
  owned_revisions uid [] = []
  owned_revisions uid (r ∷ rs) =
      let rest = owned_revisions uid rs in
      if not_foreign uid (controller_of r.owner_references) then r ∷ rest else rest

  unfoldable pub list_controller_revisions : Parent → World → ApiError ⊎ List ControllerRevision
  unfolding owned_revisions
  list_controller_revisions parent w = elim (list parent.namespace w) [
    | inl e ↦ inl e
    | inr rs ↦ inr (owned_revisions parent.uid rs)
  ]

  -- What `CreateControllerRevision` returns, with the cluster and the collision count that it leaves.
  abbrev pub CreateResult : Type 0
  CreateResult = World × ℤ × (ApiError ⊎ ControllerRevision)

  abbrev pub from_write : ControllerRevision × Option ApiError → ApiError ⊎ ControllerRevision
  from_write (r, none) = inr r
  from_write (r, some e) = inl e

  abbrev pub named_revision : Parent → ControllerRevision → ℤ → ControllerRevision
  named_revision parent revision count = record revision {
    name = revision_name parent.name (hash revision count);
    namespace = parent.namespace;
  }

  -- Behind an answer that the name is taken.
  abbrev pub compare_existing :
      ControllerRevision
      → World
      → ℤ
      → ApiError ⊎ ControllerRevision
      → Option CreateResult
      → Option CreateResult
  compare_existing revision w count (inl e) again = some (w, count, inl e)
  compare_existing revision w count (inr found) again =
      if found.raw == revision.raw then some (w, count, inr found) else again

  abbrev pub is_taken : Option ApiError → Bool
  is_taken none = false
  is_taken (some e) = is_already_exists e

  -- `CreateControllerRevision` with a collision count. `none` means that the fuel ran out.
  unfoldable pub create_controller_revision :
      ℕ → Parent → ControllerRevision → ℤ → World → Option CreateResult
  create_controller_revision zero parent revision count w = none
  create_controller_revision (suc fuel) parent revision count w =
      let named = named_revision parent revision count in
      let (w', created, err) = create named w in
      let again = create_controller_revision fuel parent revision (inc32 count) w' in
      if is_taken err
      then compare_existing revision w' count (read parent.namespace named.name w') again
      else some (w', count, from_write (created, err))

  -- The state of a retried function: the cluster and the copy of the revision.
  abbrev pub Copy : Type 0
  Copy = World × ControllerRevision

  -- After a failed write the copy is read again, and kept if that fails.
  abbrev pub read_or_keep : ControllerRevision → ApiError ⊎ ControllerRevision → ControllerRevision
  read_or_keep clone (inl e) = clone
  read_or_keep clone (inr got) = got

  abbrev pub after_write :
      Text
      → Text
      → ControllerRevision
      → World × ControllerRevision × Option ApiError
      → Copy × Option Error
  after_write namespace name sent (w, written, none) = ((w, written), none)
  after_write namespace name sent (w, written, some e) =
      ((w, read_or_keep sent (read namespace name w)), some (client_error e))

  -- The function that `UpdateControllerRevision` retries.
  unfoldable pub try_update : Text → Text → ℤ → Copy → Copy × Option Error
  try_update namespace name new_revision (w, clone) =
      let sent : ControllerRevision = record clone { revision = new_revision } in
      if clone.revision == new_revision
      then ((w, clone), none)
      else after_write namespace name sent (update sent w)

  unfoldable pub try_adopt : Text → Text → OwnerReference → Copy → Copy × Option Error
  try_adopt namespace name owner (w, clone) = elim (controller_of clone.owner_references) [
    | some ref ↦ ((w, clone), some (owned_error ref))
    | none ↦
        let sent : ControllerRevision = record clone {
          owner_references = clone.owner_references ++ owner ∷ [];
        } in
        after_write namespace name sent (update sent w)
  ]

  unfoldable pub try_release : Text → Text → Text → Copy → Copy × Option Error
  try_release namespace name uid (w, clone) = elim (controller_of clone.owner_references) [
    | some ref ↦ ((w, clone), some (owned_error ref))
    | none ↦
        let sent : ControllerRevision = record clone {
          owner_references =
              keep (λ (o : OwnerReference). not (o.uid == uid)) clone.owner_references;
        } in
        after_write namespace name sent (update sent w)
  ]

  -- `retry` is `retry.RetryOnConflict` with the default backoff.
  module _ (retry : (Copy → Copy × Option Error) → Copy → Copy × Option Error) where
    unfoldable pub update_controller_revision : ControllerRevision → ℤ → World → Copy × Option Error
    unfolding try_update
    update_controller_revision revision new_revision w =
        retry (try_update revision.namespace revision.name new_revision) (w, revision)

    unfoldable pub adopt_controller_revision :
        OwnerReference → ControllerRevision → World → World × (Error ⊎ ControllerRevision)
    unfolding try_adopt
    adopt_controller_revision owner revision w =
        let ((w', clone), err) =
          retry (try_adopt revision.namespace revision.name owner) (w, revision) in
        (w', elim err [ none ↦ inr clone | some e ↦ inl e ])

    -- `apierrors.IsNotFound` or `IsInvalid`, of an error that the code did not make.
    abbrev pub is_ignored : Error → Bool
    is_ignored (client_error e) = is_not_found e || is_invalid e
    is_ignored (owned_error ref) = false

    -- A released revision, or none where the error is ignored.
    unfoldable pub release_controller_revision :
        Parent → ControllerRevision → World → World × (Error ⊎ Option ControllerRevision)
    unfolding try_release
    release_controller_revision parent revision w =
        let ((w', clone), err) =
          retry (try_release revision.namespace revision.name parent.uid) (w, revision) in
        (
          w',
          elim err [ none ↦ inr (some clone) | some e ↦ if is_ignored e then inr none else inl e ],
        )
