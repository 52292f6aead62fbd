-- ===== src/Refs/Claims.antt =====
-- What a claim of `RefManager` takes, leaves alone and reports.
use inplaceu.Base.{
  ℕ, ◌≡◌, ◌⊎◌, inl, inr, refl, Bool, true, false, ◌&&◌, Option, none, some, List, [], ◌∷◌, text_eq,
  ◌==◌, keep, arith, Option-cases,
}
use inplaceu.Api.{OwnerReference}
use inplaceu.Refs.{
  Object, RefManager, Mgr, RefError, text_error, get_controller_of, adopt, Claim, claim_owned,
  claim_orphan, claim_object, claim_owned_objects, is_set,
}

module _ {Rest World ApiError : Type 0} (mgr : RefManager Rest World ApiError) where
  open mgr use {
    owner_uid, owner_deletion_timestamp, set_controller_reference, update_owner, has_schema,
  }

  -- The owner is the controller that the object names.
  abbrev pub is_controller : Option OwnerReference → Bool
  is_controller none = false
  is_controller (some r) = r.uid == owner_uid

  abbrev pub is_owned : Object Rest → Bool
  is_owned obj = is_controller (get_controller_of obj)

  abbrev TextOrNone : Option (RefError ApiError) → Type 0
  TextOrNone err = (err ≡ none) ⊎ (err ≡ some text_error)

  module _ (matches : Object Rest → Bool) (s : Mgr mgr) (obj : Object Rest) where
    -- Why an object is taken: it is the owner's already, or is an orphan and was adopted.
    abbrev pub Taken : Mgr mgr → Object Rest → Type 0
    Taken s' obj' =
        (matches obj ≡ true)
        × (((is_owned obj ≡ true) × (obj' ≡ obj) × (s' ≡ s))
            ⊎ ((get_controller_of obj ≡ none)
                × (is_set mgr owner_deletion_timestamp ≡ false)
                × (is_set mgr obj.deletion_timestamp ≡ false)
                × (adopt mgr s obj ≡ (s', obj', none))))

    -- Why it is not.
    abbrev pub Left : Option (RefError ApiError) → Type 0
    Left err =
        (err ≡ some text_error)
        ⊎ (matches obj ≡ false)
        ⊎ ((r : OwnerReference) × (get_controller_of obj ≡ some r) × ((r.uid == owner_uid) ≡ false))
        ⊎ (is_set mgr owner_deletion_timestamp ≡ true)
        ⊎ (is_set mgr obj.deletion_timestamp ≡ true)

    abbrev pub Outcome : Claim mgr → Type 0
    Outcome (s', obj', true, err) = (err ≡ none) × Taken s' obj'
    Outcome (s', obj', false, err) = ((err ≡ none) ⊎ (err ≡ some text_error)) × Left err

  module _ (matches : Object Rest → Bool) (t : ℕ)
      (deleting : owner_deletion_timestamp ≡ some t) where
    claim_object-deleting :
        (s : Mgr mgr) (obj : Object Rest)
        → claim_object mgr matches s obj ≡ (s, obj, is_owned obj && matches obj, none)
    unfolding claim_object claim_owned claim_orphan
    claim_object-deleting s obj = elim (Option-cases (get_controller_of obj)) [
      | inl c ↦ rw (c, claim_object) (ground (arith, deleting))
      | inr (r, c) ↦ rw (c, claim_object) (ground (arith, deleting))
    ]

    -- While the owner is being deleted a claim calls nothing: it takes exactly the matching objects
    -- that the owner controls, in order and unchanged, with no error.
    pub claim_owned_objects-deleting :
        (objs : List (Object Rest)) (s : Mgr mgr)
        → claim_owned_objects mgr matches objs s
          ≡ (s, keep (λ obj. is_owned obj && matches obj) objs, [])
    unfolding claim_owned_objects
    claim_owned_objects-deleting [] s = refl
    claim_owned_objects-deleting (obj ∷ objs) s =
        ground (arith, claim_object-deleting s obj, claim_owned_objects-deleting objs s)
