-- ===== src/Revisions/Collisions.antt =====
-- The loop of `CreateControllerRevision` over the names that are taken.
use inplaceu.Base.{
  ℕ, zero, suc, ◌≡◌, ◌⊎◌, inl, inr, refl, Bool, true, false, Option, none, some, text_eq, ◌==◌,
  if◌then◌else◌, Bool-cases, arith,
}
use inplaceu.Base.Int.{ℤ, inc32}
use inplaceu.Api.{ControllerRevision}
use inplaceu.Revisions.{
  RevisionClient, Parent, CreateResult, named_revision, is_taken, create_controller_revision,
  compare_existing, from_write,
}

module _ {World ApiError : Type 0} (client : RevisionClient World ApiError) (parent : Parent)
    (revision : ControllerRevision) where
  open client use {create, read, is_already_exists}

  -- The answer to the create at a collision count.
  abbrev pub answer : ℤ → World → World × ControllerRevision × Option ApiError
  answer count w = create (named_revision client parent revision count) w

  -- What one count settles, by the answers of the cluster. The last constructor goes on to the next
  -- count, behind a revision of the same name with other data.
  pub data Settles : ℤ → World → CreateResult client → Type 0 where
    created :
        (count : ℤ) (w w' : World) (r : ControllerRevision)
        → answer count w ≡ (w', r, none)
        → Settles count w (w', count, inr r)
    refused :
        (count : ℤ) (w w' : World) (r : ControllerRevision) (e : ApiError)
        → answer count w ≡ (w', r, some e)
        → is_already_exists e ≡ false
        → Settles count w (w', count, inl e)
    unread :
        (count : ℤ) (w w' : World) (r : ControllerRevision) (taken e : ApiError)
        → answer count w ≡ (w', r, some taken)
        → is_already_exists taken ≡ true
        → read parent.namespace (named_revision client parent revision count).name w' ≡ inl e
        → Settles count w (w', count, inl e)
    same :
        (count : ℤ) (w w' : World) (r found : ControllerRevision) (taken : ApiError)
        → answer count w ≡ (w', r, some taken)
        → is_already_exists taken ≡ true
        → read parent.namespace (named_revision client parent revision count).name w' ≡ inr found
        → (found.raw == revision.raw) ≡ true
        → Settles count w (w', count, inr found)
    collides :
        (count : ℤ) (w w' : World) (r found : ControllerRevision) (taken : ApiError)
        (res : CreateResult client)
        → answer count w ≡ (w', r, some taken)
        → is_already_exists taken ≡ true
        → read parent.namespace (named_revision client parent revision count).name w' ≡ inr found
        → (found.raw == revision.raw) ≡ false
        → Settles (inc32 count) w' res
        → Settles count w res

  -- The count of the n-th attempt, and the cluster before it.
  unfoldable pub attempt : ℕ → ℤ → World → ℤ × World
  attempt zero count w = (count, w)
  attempt (suc n) count w = attempt n (inc32 count) (answer count w).0

  -- At that attempt the name is free.
  abbrev pub is_free_at : ℕ → ℤ → World → Bool
  is_free_at n count w = let (c, v) = attempt n count w in is_taken client (answer c v).2

  -- One round of the loop, by its answers.
  abbrev round :
      ℤ
      → World × ControllerRevision × Option ApiError
      → ApiError ⊎ ControllerRevision
      → Option (CreateResult client)
      → Option (CreateResult client)
  round count (w', r, err) got again =
      if is_taken client err
      then compare_existing client revision w' count got again
      else some (w', count, from_write client (r, err))

  -- The loop ends, and what it returns is settled.
  abbrev pub Ends : ℤ → World → Option (CreateResult client) → Type 0
  Ends count w o = (res : CreateResult client) × (o ≡ some res) × Settles count w res

  round-Ends :
      (count : ℤ) (w w' : World) (r : ControllerRevision) (err : Option ApiError)
      (got : ApiError ⊎ ControllerRevision) (again : Option (CreateResult client))
      → answer count w ≡ (w', r, err)
      → read parent.namespace (named_revision client parent revision count).name w' ≡ got
      → (is_taken client err ≡ true → Ends (inc32 count) w' again)
      → Ends count w (round count (w', r, err) got again)
  round-Ends count w w' r none got again a g next =
      ((w', count, inr r), refl, created count w w' r a)
  round-Ends count w w' r (some e) (inl e') again a g next =
      elim (Bool-cases (is_already_exists e)) [
        | inl t ↦ ((w', count, inl e'), rw t refl, unread count w w' r e e' a t g)
        | inr t ↦ ((w', count, inl e), rw t refl, refused count w w' r e a t)
      ]
  round-Ends count w w' r (some e) (inr found) again a g next =
      elim (Bool-cases (is_already_exists e)) [
        | inl t ↦ elim (Bool-cases (found.raw == revision.raw)) [
          | inl s ↦ ((w', count, inr found), rw (t, s) refl, same count w w' r found e a t g s)
          | inr s ↦
              let (res, ends, settled) = next t in
              (res, rw (t, s) ends, collides count w w' r found e res a t g s settled)
        ]
        | inr t ↦ ((w', count, inl e), rw t refl, refused count w w' r e a t)
      ]

  -- Where the n-th attempt finds its name free, fuel for that attempt ends the loop. What it then
  -- returns is settled by the answers of the cluster: the created revision or the refusal of the
  -- first count whose name is free, a revision of the same name and data, or the error of reading it;
  -- the counts before it, each one above the last as an `int32`, met other data under their names.
  pub create_controller_revision-Ends :
      (n : ℕ) (count : ℤ) (w : World)
      → is_free_at n count w ≡ false
      → Ends count w (create_controller_revision client (suc n) parent revision count w)
  unfolding create_controller_revision attempt
  create_controller_revision-Ends zero count w free =
      let (w', r, err) = answer count w in
      round-Ends count w w' r err _ _ refl refl (λ t. ground (arith, t, free))
  create_controller_revision-Ends (suc n) count w free =
      let (w', r, err) = answer count w in
      round-Ends count w w' r err _ _ refl refl
        (λ t. create_controller_revision-Ends n (inc32 count) w' free)
