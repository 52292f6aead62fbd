-- ===== src/History/Limit.antt =====
-- The revisions that are kept and those that are deleted.
use inplaceu.Base.{
  ℕ, ◌+◌, ◌≡◌, ◌≤◌, Bool, true, not, ◌&&◌, Option, some, List, Text, text_eq, ◌==◌, any, length,
  ◌⊎◌, take, keep, All,
}
use inplaceu.Api.{Pod, ControllerRevision}
use inplaceu.Utils.Hash.{equal_to_revision_hash}
use inplaceu.History.{delete_revisions}

module _ (current update : Text) (pods : List Pod) where
  -- Neither of the two revisions in use, nor one that a pod is at.
  abbrev pub is_idle : ControllerRevision → Bool
  is_idle r =
      not (r.name == current)
      && not (r.name == update)
      && not (any (λ p. equal_to_revision_hash p.labels r.name) pods)

module _ {World ApiError : Type 0}
    (delete_revision : ControllerRevision → World → World × Option ApiError) where
  -- A call deletes the first of the idle revisions, and leaves as many as the limit.
  pub record Forgotten (limit : ℕ) (idle : ControllerRevision → Bool)
      (revisions : List ControllerRevision) (w : World) (r : Option (World × Option ApiError))
      : Type 0 where
    pub deleted : List ControllerRevision
    pub result : r ≡ some (delete_revisions delete_revision deleted w)
    pub oldest : deleted ≡ take (length deleted) (keep idle revisions)
    pub not_in_use : All (λ v. idle v ≡ true) deleted
    pub enough : length (keep idle revisions) ≤ limit + length deleted
    pub no_more : (length deleted ≡ 0) ⊎ (length (keep idle revisions) ≡ limit + length deleted)
