-- ===== src/Revisions/Data.antt =====
-- The data of the revisions that the writes return.
use inplaceu.Base.{
  ℕ, zero, suc, ◌⊎◌, inl, inr, ◌≡◌, refl, ◌∙◌, Option, none, some, Text, text_eq, ◌==◌, ==_iff,
  if◌then◌else◌, Bool-cases, sum-cases,
}
use inplaceu.Base.Int.{ℤ, int_eq}
use inplaceu.Api.{ControllerRevision}
use inplaceu.Revisions.{
  RevisionClient, Parent, Copy, Error, CreateResult, named_revision, create_controller_revision,
  try_update, after_write, is_taken, compare_existing, from_write,
}
use inplaceu.Revisions.Retries.{conflicts}
use inplaceu.Base.Retry.{Tried, Tried-keeps}

module _ {World ApiError : Type 0} (client : RevisionClient World ApiError) where
  open client use {create, update, read}

  -- A write that succeeds returns the data that it is given.
  abbrev pub WritesData :
      (ControllerRevision → World → World × ControllerRevision × Option ApiError) → Type 0
  WritesData write =
      (r : ControllerRevision) (w : World) → (write r w).2 ≡ none → (write r w).1.raw ≡ r.raw

  -- The data under the name of a revision never changes.
  abbrev pub Immutable : ControllerRevision → Type 0
  Immutable r =
      (w : World) (got : ControllerRevision) → read r.namespace r.name w ≡ inr got → got.raw ≡ r.raw

  -- The copy holds some data.
  abbrev Holds : Text → Copy client × Option (Error client) → Type 0
  Holds raw res = res.0.1.raw ≡ raw

  module _ (r : ControllerRevision) (n : ℤ) (writes : WritesData update) (fixed : Immutable r) where
    after_write-Holds :
        (sent written : ControllerRevision) (w : World) (err : Option ApiError)
        → sent.raw ≡ r.raw
        → (err ≡ none → written.raw ≡ sent.raw)
        → Holds r.raw (after_write client r.namespace r.name sent (w, written, err))
    after_write-Holds sent written w none e h = h refl ∙ e
    after_write-Holds sent written w (some x) e h = elim (sum-cases (read r.namespace r.name w)) [
      | inl (y, g) ↦ rw (g, after_write) e
      | inr (got, g) ↦ rw (g, after_write) (fixed w got g)
    ]

    try_update-Holds :
        (c : Copy client) → c.1.raw ≡ r.raw → Holds r.raw (try_update client r.namespace r.name n c)
    unfolding try_update
    try_update-Holds (w, clone) e = elim (Bool-cases (clone.revision == n)) [
      | inl same ↦ rw (same, try_update) e
      | inr other ↦
          let sent : ControllerRevision = record clone { revision = n } in
          rw (other, try_update)
            (after_write-Holds sent (update sent w).1 (update sent w).0 (update sent w).2 e
              (writes sent w))
    ]

    pub Tried-Holds :
        (c : Copy client) (res : Copy client × Option (Error client))
        → c.1.raw ≡ r.raw
        → Tried (conflicts client) (try_update client r.namespace r.name n) c res
        → Holds r.raw res
    Tried-Holds c res e t =
        Tried-keeps (conflicts client) (try_update client r.namespace r.name n)
          (λ c. c.1.raw ≡ r.raw) c res try_update-Holds e t

  -- A created revision, or one that was found under the name, has the data that was to be stored.
  abbrev pub CreatedData : Text → Option (CreateResult client) → Type 0
  CreatedData raw none = Unit
  CreatedData raw (some (w, count, inl e)) = Unit
  CreatedData raw (some (w, count, inr r)) = r.raw ≡ raw

  module _ (parent : Parent) (revision : ControllerRevision) (writes : WritesData create) where
    round-CreatedData :
        (w : World) (count : ℤ) (made : ControllerRevision) (err : Option ApiError)
        (got : ApiError ⊎ ControllerRevision) (following : Option (CreateResult client))
        → (err ≡ none → made.raw ≡ revision.raw)
        → CreatedData revision.raw following
        → CreatedData revision.raw (
            if is_taken client err
            then compare_existing client revision w count got following
            else some (w, count, from_write client (made, err)))
    round-CreatedData w count made none got following h after = h refl
    round-CreatedData w count made (some e) (inl e') following h after =
        elim (Bool-cases (is_taken client (some e))) [ inl t ↦ rw t tt | inr t ↦ rw t tt ]
    round-CreatedData w count made (some e) (inr found) following h after =
        elim (Bool-cases (is_taken client (some e))) [
          | inl t ↦ elim (Bool-cases (found.raw == revision.raw)) [
            | inl same ↦ rw (t, same) ((==_iff found.raw revision.raw).0 same)
            | inr other ↦ rw (t, other) after
          ]
          | inr t ↦ rw t tt
        ]

    pub create_controller_revision-CreatedData :
        (fuel : ℕ) (count : ℤ) (w : World)
        → CreatedData revision.raw (create_controller_revision client fuel parent revision count w)
    unfolding create_controller_revision
    create_controller_revision-CreatedData zero count w = tt
    create_controller_revision-CreatedData (suc fuel) count w =
        let named = named_revision client parent revision count in
        let (w', made, err) = create named w in
        round-CreatedData w' count made err (read parent.namespace named.name w') _ (writes named w)
          (create_controller_revision-CreatedData fuel _ w')
