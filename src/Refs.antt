-- ===== src/Refs.antt =====
-- internal/utils/refmgr/refmgr.go: which objects a set takes as its own, and the owner references
-- that it adds and removes for that. The casts of objects between interfaces hold of the types that
-- the controller passes, so they are left out.
pub mod Claims
use inplaceu.Base.{
  ℕ, Bool, true, false, not, ◌&&◌, ◌||◌, Option, none, some, List, [], ◌∷◌, Text, text_eq, ◌==◌,
  Dict, find, ◌⊎◌, inl, inr, if◌then◌else◌,
}
use inplaceu.Api.{OwnerReference, controller_of}

-- What `metav1.Object` shows of an object, with the rest of it.
pub record Object (Rest : Type 0) : Type 0 where
  pub uid : Text
  pub labels : Dict Text Text
  pub owner_references : List OwnerReference
  pub deletion_timestamp : Option ℕ
  pub rest : Rest

-- An error of the client, or one of `fmt.Errorf`, whose text keeps no error within.
pub data RefError (E : Type 0) : Type 0 where
  client_error : E → RefError E
  text_error : RefError E

abbrev pub get_controller_of : {Rest : Type 0} → Object Rest → Option OwnerReference
get_controller_of obj = controller_of obj.owner_references

-- What the manager calls, and the owner as it was when the manager was made.
pub record RefManager (Rest World ApiError : Type 0) : Type 0 where
  pub is_not_found : ApiError → Bool
  pub owner_uid : Text
  pub owner_deletion_timestamp : Option ℕ
  -- Whether `schema` is set.
  pub has_schema : Bool
  -- The owner read again, by its UID and deletion time.
  pub get_owner : World → World × (ApiError ⊎ (Text × Option ℕ))
  -- `controllerutil.SetControllerReference`, `none` where it fails.
  pub set_controller_reference : Object Rest → Option (Object Rest)
  -- The write of an object, which fills in what the cluster holds then.
  pub update_owner : Object Rest → World → World × Object Rest × Option ApiError

module _ {Rest World ApiError : Type 0} (mgr : RefManager Rest World ApiError) where
  open mgr use {
    is_not_found, owner_uid, owner_deletion_timestamp, get_owner, set_controller_reference,
    update_owner, has_schema,
  }

  -- The cluster, and `canAdoptErr` once it was set.
  pub record Mgr : Type 0 where
    pub world : World
    pub can_adopt_err : Option (Option (RefError ApiError))

  abbrev pub judge_owner : ApiError ⊎ (Text × Option ℕ) → Option (RefError ApiError)
  judge_owner (inl e) = some (client_error e)
  judge_owner (inr (uid, some t)) = some text_error
  judge_owner (inr (uid, none)) = if not (uid == owner_uid) then some text_error else none

  unfoldable pub can_adopt : World → World × Option (RefError ApiError)
  can_adopt w = let (w', fresh) = get_owner w in (w', judge_owner fresh)

  unfoldable pub can_adopt_once : Mgr → Mgr × Option (RefError ApiError)
  unfolding can_adopt
  can_adopt_once s = elim s.can_adopt_err [
    | some err ↦ (s, err)
    | none ↦
        let (w, err) = can_adopt s.world in (record { world = w; can_adopt_err = some err }, err)
  ]

  -- From a write to its outcome, with the error wrapped.
  abbrev pub wrap_update :
      Mgr → World × Object Rest × Option ApiError → Mgr × Object Rest × Option (RefError ApiError)
  wrap_update s (w, obj, none) = (record s { world = w }, obj, none)
  wrap_update s (w, obj, some e) = (record s { world = w }, obj, some text_error)

  abbrev pub set_and_update :
      Mgr → Object Rest → Option (Object Rest) → Mgr × Object Rest × Option (RefError ApiError)
  set_and_update s obj none = (s, obj, some text_error)
  set_and_update s obj (some obj') = wrap_update s (update_owner obj' s.world)

  -- `adopt` changes the object that it is given.
  unfoldable pub adopt : Mgr → Object Rest → Mgr × Object Rest × Option (RefError ApiError)
  unfolding can_adopt_once
  adopt s obj =
      let (s', err) = can_adopt_once s in
      elim err [
        | some e ↦ (s', obj, some text_error)
        | none ↦
            if not has_schema
            then (s', obj, none)
            else set_and_update s' obj (set_controller_reference obj)
      ]

  abbrev pub is_owner : OwnerReference → Bool
  is_owner r = r.uid == owner_uid

  -- The references without the first one to the owner.
  unfoldable pub without_owner : List OwnerReference → List OwnerReference
  without_owner [] = []
  without_owner (r ∷ rs) = let rest = without_owner rs in if is_owner r then rs else r ∷ rest

  -- `release` changes a copy of the object.
  unfoldable pub release : Mgr → Object Rest → Mgr × Option (RefError ApiError)
  unfolding without_owner
  release s obj = elim (find is_owner obj.owner_references) [
    | none ↦ (s, none)
    | some _ ↦
        let copy : Object Rest = record obj {
          owner_references = without_owner obj.owner_references;
        } in
        let (s', _, err) = wrap_update s (update_owner copy s.world) in (s', err)
  ]

  -- `apierrors.IsNotFound`, which sees nothing in an error made from a text.
  abbrev pub not_found : RefError ApiError → Bool
  not_found (client_error e) = is_not_found e
  not_found text_error = false

  abbrev pub Claim : Type 0
  Claim = Mgr × Object Rest × Bool × Option (RefError ApiError)

  abbrev pub after_release : Object Rest → Mgr × Option (RefError ApiError) → Claim
  after_release obj (s, none) = (s, obj, false, none)
  after_release obj (s, some e) =
      if not_found e then (s, obj, false, none) else (s, obj, false, some e)

  abbrev pub after_adopt : Mgr × Object Rest × Option (RefError ApiError) → Claim
  after_adopt (s, obj, none) = (s, obj, true, none)
  after_adopt (s, obj, some e) =
      if not_found e then (s, obj, false, none) else (s, obj, false, some e)

  abbrev pub is_set : Option ℕ → Bool
  is_set none = false
  is_set (some t) = true

  module _ (matches : Object Rest → Bool) where
    -- The part on an object that the owner controls.
    unfoldable pub claim_owned : Mgr → Object Rest → Claim
    unfolding release
    claim_owned s obj =
        if matches obj
        then (s, obj, true, none)
        else if is_set owner_deletion_timestamp
        then (s, obj, false, none)
        else after_release obj (release s obj)

    unfoldable pub claim_orphan : Mgr → Object Rest → Claim
    unfolding adopt
    claim_orphan s obj =
        if is_set owner_deletion_timestamp || not (matches obj)
        then (s, obj, false, none)
        else if is_set obj.deletion_timestamp
        then (s, obj, false, none)
        else after_adopt (adopt s obj)

    unfoldable pub claim_object : Mgr → Object Rest → Claim
    unfolding claim_owned claim_orphan
    claim_object s obj = elim (get_controller_of obj) [
      | some r ↦ if not (r.uid == owner_uid) then (s, obj, false, none) else claim_owned s obj
      | none ↦ claim_orphan s obj
    ]

    abbrev pub note_claim :
        Claim
        → (Mgr → Mgr × List (Object Rest) × List (RefError ApiError))
        → Mgr × List (Object Rest) × List (RefError ApiError)
    note_claim (s, obj, ok, some e) rest = let (s', objs, errs) = rest s in (s', objs, e ∷ errs)
    note_claim (s, obj, true, none) rest = let (s', objs, errs) = rest s in (s', obj ∷ objs, errs)
    note_claim (s, obj, false, none) rest = rest s

    -- `ClaimOwnedObjects`, with the errors before they are joined; `matches` is the selector and the
    -- filters.
    unfoldable pub claim_owned_objects :
        List (Object Rest) → Mgr → Mgr × List (Object Rest) × List (RefError ApiError)
    unfolding claim_object
    claim_owned_objects [] s = (s, [], [])
    claim_owned_objects (obj ∷ objs) s = note_claim (claim_object s obj) (claim_owned_objects objs)
