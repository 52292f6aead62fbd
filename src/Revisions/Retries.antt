-- ===== src/Revisions/Retries.antt =====
-- What the retried writes of a revision leave.
use inplaceu.Base.{
  ◌≡◌, inl, inr, refl, Bool, false, Option, none, some, Text, text_eq, ◌==◌, Bool-cases, arith,
}
use inplaceu.Base.Int.{ℤ, int_eq, eqb_ℤ_iff}
use inplaceu.Base.Retry.{Tried, Tried-last}
use inplaceu.Api.{ControllerRevision}
use inplaceu.Revisions.{
  RevisionClient, Copy, Error, try_update, after_write, update_controller_revision, client_error,
  owned_error,
}

module _ {World ApiError : Type 0} (client : RevisionClient World ApiError) where
  open client use {update, read, is_conflict}

  abbrev pub conflicts : Error client → Bool
  conflicts (client_error e) = is_conflict e
  conflicts (owned_error ref) = false

  -- A write that succeeds returns the revision with the number that it sent.
  abbrev pub WritesNumber : Type 0
  WritesNumber =
      (r : ControllerRevision) (w : World)
      → (update r w).2 ≡ none
      → (update r w).1.revision ≡ r.revision

  -- The number of the copy, where there is no error.
  abbrev Numbered : ℤ → Copy client × Option (Error client) → Type 0
  Numbered n res = res.1 ≡ none → res.0.1.revision ≡ n

  after_write-Numbered :
      (namespace name : Text) (n : ℤ) (sent : ControllerRevision) (w : World)
      (written : ControllerRevision) (err : Option ApiError)
      → (err ≡ none → written.revision ≡ n)
      → Numbered n (after_write client namespace name sent (w, written, err))
  after_write-Numbered namespace name n sent w written none law ok = law refl
  after_write-Numbered namespace name n sent w written (some e) law ok = ground arith

  try_update-Numbered :
      (namespace name : Text) (n : ℤ) (c : Copy client)
      → WritesNumber
      → Numbered n (try_update client namespace name n c)
  unfolding try_update
  try_update-Numbered namespace name n (w, clone) law = elim (Bool-cases (clone.revision == n)) [
    | inl e ↦ rw (e, try_update) (λ ok. (eqb_ℤ_iff _ _).0 e)
    | inr e ↦
        let sent : ControllerRevision = record clone { revision = n } in
        rw (e, try_update)
          (after_write-Numbered namespace name n sent (update sent w).0 (update sent w).1
            (update sent w).2 (law sent w))
  ]

  -- An update of a revision that returns no error returns it with the new number, where a write that
  -- succeeds keeps the number that it is sent, and the retries try the function one or more times.
  pub update_controller_revision-Numbered :
      (retry : (Copy client → Copy client × Option (Error client))
        → Copy client
        → Copy client × Option (Error client))
      → ((f : Copy client → Copy client × Option (Error client)) (c : Copy client)
          → Tried conflicts f c (retry f c))
      → WritesNumber
      → (revision : ControllerRevision) (n : ℤ) (w : World)
      → (update_controller_revision client retry revision n w).1 ≡ none
      → (update_controller_revision client retry revision n w).0.1.revision ≡ n
  unfolding update_controller_revision
  update_controller_revision-Numbered retry tried law revision n w =
      Tried-last conflicts (try_update client revision.namespace revision.name n) (Numbered n)
        (w, revision) _ (λ c. try_update-Numbered revision.namespace revision.name n c law)
        (tried (try_update client revision.namespace revision.name n) (w, revision))

  -- The number that a write sends.
  abbrev pub sent_as : ControllerRevision → ℤ → ControllerRevision
  sent_as clone n = record clone { revision = n }

  -- A write that fails before a read that fails leaves its number in the copy: the next try finds the
  -- number there, writes nothing, and returns no error.
  pub try_update-unwritten :
      (namespace name : Text) (n : ℤ) (w w' : World) (clone written : ControllerRevision)
      (e e' : ApiError)
      → (clone.revision == n) ≡ false
      → update (sent_as clone n) w ≡ (w', written, some e)
      → read namespace name w' ≡ inl e'
      → let first = try_update client namespace name n (w, clone) in
        (first ≡ ((w', sent_as clone n), some (client_error e)))
        × (try_update client namespace name n first.0 ≡ ((w', sent_as clone n), none))
  unfolding try_update
  try_update-unwritten namespace name n w w' clone written e e' new failed unread =
      rw (new, failed, unread, (eqb_ℤ_iff n n).1 refl) (refl, refl)
