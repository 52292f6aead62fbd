-- ===== src/History.antt =====
-- `truncateHistory` of internal/controller/inplaceu_controller.go: which revisions are forgotten.
-- `delete_revision` is the delete call of the client.
pub mod Limit
use inplaceu.Base.{
  ℕ, ◌+◌, ◌-◌, ltb, Bool, true, false, not, ◌&&◌, Option, none, some, List, [], ◌∷◌, Text, text_eq,
  ◌==◌, any, length, take, if◌then◌else◌,
}
use inplaceu.Base.Int.{ℤ, pos, negsuc, ltb_ℤ, ◌-ℤ◌}
use inplaceu.Api.{Pod, Inplaceu, ControllerRevision}
use inplaceu.Utils.Hash.{equal_to_revision_hash}

-- The inner loop: some pod is at the revision.
unfoldable pub is_used : List Pod → Text → Bool
is_used pods name = any (λ p. equal_to_revision_hash p.labels name) pods

-- The outer loop.
unfoldable pub no_live_revisions :
    Text → Text → List Pod → List ControllerRevision → List ControllerRevision
unfolding is_used
no_live_revisions current update pods [] = []
no_live_revisions current update pods (r ∷ rs) =
    let rest = no_live_revisions current update pods rs in
    if not (r.name == current) && not (r.name == update)
    then (if not (is_used pods r.name) then r ∷ rest else rest)
    else rest

abbrev pub limit_or_ten : Option ℤ → ℤ
limit_or_ten none = pos 10
limit_or_ten (some n) = n

module _ {World ApiError : Type 0}
    (delete_revision : ControllerRevision → World → World × Option ApiError) where
  unfoldable pub delete_revisions : List ControllerRevision → World → World × Option ApiError
  delete_revisions [] w = (w, none)
  delete_revisions (r ∷ rs) w =
      let (w', err) = delete_revision r w in
      let rest = delete_revisions rs w' in elim err [ some e ↦ (w', some e) | none ↦ rest ]

  -- The loop over the idle revisions with nil pointers behind them: it panics at the first of these,
  -- if no call before it fails.
  abbrev pub then_nil : World × Option ApiError → Option (World × Option ApiError)
  then_nil (w, none) = none
  then_nil (w, some e) = some (w, some e)

  -- A negative limit asks for more revisions than there are: the slice goes on behind them up to its
  -- capacity, with nil pointers, and panics above it.
  unfoldable pub forget : ℕ → ℤ → List ControllerRevision → World → Option (World × Option ApiError)
  unfolding delete_revisions
  forget capacity (negsuc n) idle w =
      if ltb capacity (length idle + ℕ.suc n) then none else then_nil (delete_revisions idle w)
  forget capacity (pos limit) idle w =
      if not (ltb_ℤ (pos limit) (pos (length idle)))
      then some (w, none)
      else some (delete_revisions (take (length idle - limit) idle) w)

  unfoldable pub truncate_history :
      Inplaceu
      → List Pod
      → List ControllerRevision
      → Text
      → Text
      → World
      → Option (World × Option ApiError)
  unfolding no_live_revisions forget
  truncate_history iu pods revisions current update w =
      forget (length revisions) (limit_or_ten iu.spec.revision_history_limit)
        (no_live_revisions current update pods revisions) w
