-- ===== src/Reconciler/Active.antt =====
-- The update revision that `getActiveRevisions` chooses.
use inplaceu.Base.{
  ℕ, suc, ◌⊎◌, inl, inr, ◌≡◌, refl, sym, subst, ◌∙◌, Bool, true, false, Option, none, some, List,
  [], ◌∷◌, text_eq, ◌==◌, All, last_or, find, Bool-cases,
}
use inplaceu.Base.Int.{ℤ, int_eq}
use inplaceu.Api.{Inplaceu, ControllerRevision}
use inplaceu.Utils.Pods.{next_revision}
use inplaceu.Revisions.{RevisionClient, Copy, Error, CreateResult, update_controller_revision}
use inplaceu.Revisions.Collisions.{is_free_at, create_controller_revision-Ends}
use inplaceu.Revisions.Retries.{conflicts}
use inplaceu.Base.Retry.{Tried}
use inplaceu.Revisions.Data.{
  WritesData, Immutable, Tried-Holds, CreatedData, create_controller_revision-CreatedData,
}
use inplaceu.RevisionControl.{new_revision}
use inplaceu.Reconciler.{
  Calls, ReconcileError, Active, Choice, newest, rolled_back, fresh, out_of_range, choose_revision,
  choose_from, last_of, compare_last, with_current, get_revision, get_active_revisions, active_from,
  updated, created, current_or, count_or_zero, parent_of, Found, from_client, from_revisions,
}

module _ {World ApiError : Type 0} (calls : Calls World ApiError) (iu : Inplaceu)
    (revs : List ControllerRevision) where
  open calls use {codec, retry, find_equal_revisions, equal_revision, revisions}

  abbrev client : RevisionClient World ApiError
  client = revisions iu

  -- What the code relies on: Kubernetes finds revisions of equal data among those listed, the data of
  -- a revision does not change, a write keeps the data that it is given, and a retry tries its
  -- function.
  pub record Faithful : Type 0 where
    pub equal_data : (a b : ControllerRevision) → equal_revision a b ≡ true → a.raw ≡ b.raw
    pub found :
        (made : ControllerRevision)
        → All (λ x. (x.raw ≡ made.raw) × Immutable client x) (find_equal_revisions revs made)
    pub none_in_none : (made : ControllerRevision) → revs ≡ [] → find_equal_revisions revs made ≡ []
    pub writes_new : WritesData client client.create
    pub writes_old : WritesData client client.update
    pub tried :
        (f : Copy client → Copy client × Option (Error client)) (c : Copy client)
        → Tried (conflicts client) f c (retry f c)

  -- The update revision has the data of the revision made from the set, and the current one is the
  -- first with the name in the status, or the update revision where there is none.
  abbrev pub Stores : ControllerRevision → ReconcileError ApiError ⊎ Active → Type 0
  Stores made (inl e) = Unit
  Stores made (inr (current, update, count)) =
      (update.raw ≡ made.raw)
      × (current
          ≡ current_or
              (find (λ (r : ControllerRevision). r.name == iu.status.current_revision) revs) update)

  abbrev pub Returns : ControllerRevision → Found calls → Type 0
  Returns made o =
      (w : World) × (r : ReconcileError ApiError ⊎ Active) × (o ≡ some (w, r)) × Stores made r

  last_or-All :
      (P : ControllerRevision → Type 0) (r : ControllerRevision) (rs : List ControllerRevision)
      → P r
      → All P rs
      → P (last_or r rs)
  last_or-All P r [] p h = p
  last_or-All P r (x ∷ xs) p h = last_or-All P x xs h.0 h.1

  -- What a choice promises.
  abbrev Suits : ControllerRevision → Choice → Type 0
  Suits made (newest r) = r.raw ≡ made.raw
  Suits made (rolled_back r) = (r.raw ≡ made.raw) × Immutable client r
  Suits made fresh = Unit
  Suits made out_of_range = ◌≡◌ {A = Bool} true false

  compare_last-Suits :
      (made equal : ControllerRevision) (rs : List ControllerRevision)
      → Faithful
      → rs ≡ revs
      → (revs ≡ [] → ◌≡◌ {A = Bool} true false)
      → (equal.raw ≡ made.raw) × Immutable client equal
      → Suits made (compare_last calls (last_of rs) equal)
  compare_last-Suits made equal [] laws e some_there h = some_there (sym e)
  compare_last-Suits made equal (r ∷ rs) laws e some_there h =
      elim (Bool-cases (equal_revision (last_or r rs) equal)) [
        | inl same ↦ rw same (laws.equal_data (last_or r rs) equal same ∙ h.0)
        | inr other ↦ rw other h
      ]

  choose_from-Suits :
      (made : ControllerRevision) (equals : List ControllerRevision)
      → Faithful
      → find_equal_revisions revs made ≡ equals
      → All (λ x. (x.raw ≡ made.raw) × Immutable client x) equals
      → Suits made (choose_from calls revs equals)
  choose_from-Suits made [] laws e h = tt
  choose_from-Suits made (x ∷ xs) laws e h =
      compare_last-Suits made (last_or x xs) revs laws refl
        (λ empty. absurd (let nothing = laws.none_in_none made empty in cc))
        (last_or-All (λ r. (r.raw ≡ made.raw) × Immutable client r) x xs h.0 h.1)

  choose_revision-Suits :
      (made : ControllerRevision) → Faithful → Suits made (choose_revision calls revs made)
  unfolding choose_revision
  choose_revision-Suits made laws =
      choose_from-Suits made (find_equal_revisions revs made) laws refl (laws.found made)

  updated-Returns :
      (made r : ControllerRevision) (count : ℤ) (res : Copy client × Option (Error client))
      → res.0.1.raw ≡ made.raw
      → Returns made (updated calls iu revs count res)
  unfolding with_current
  updated-Returns made r count ((w, x), none) h =
      (w, inr (with_current iu revs x count), refl, (h, refl))
  updated-Returns made r count ((w, x), some e) h = (w, inl (from_revisions e), refl, tt)

  created-Returns :
      (made : ControllerRevision) (res : CreateResult client)
      → CreatedData client made.raw (some res)
      → Returns made (created calls iu revs (some res))
  unfolding with_current
  created-Returns made (w, count, inl e) h = (w, inl (from_client e), refl, tt)
  created-Returns made (w, count, inr r) h =
      (w, inr (with_current iu revs r count), refl, (h, refl))

  get_revision-Returns :
      (n : ℕ) (made : ControllerRevision) (count : ℤ) (w : World) (c : Choice)
      → Faithful
      → Suits made c
      → is_free_at client (parent_of iu) made n count w ≡ false
      → Returns made (get_revision calls (suc n) iu revs made count w c)
  unfolding get_revision update_controller_revision
  get_revision-Returns n made count w out_of_range laws suits free = absurd (cc suits)
  get_revision-Returns n made count w (newest r) laws suits free =
      (w, inr (with_current iu revs r count), refl, (unfold with_current in (suits, refl)))
  get_revision-Returns n made count w (rolled_back r) laws (data_of, fixed) free =
      updated-Returns made r count _ (
        Tried-Holds client r made.revision laws.writes_old fixed (w, r) _ refl (laws.tried _ (w, r))
        ∙ data_of)
  get_revision-Returns n made count w fresh laws suits free =
      let (res, e, _) = create_controller_revision-Ends client (parent_of iu) made n count w free in
      subst (λ o. Returns made (created calls iu revs o)) (sym e)
        (created-Returns made res (
          subst (CreatedData client made.raw) e (
            create_controller_revision-CreatedData client (parent_of iu) made laws.writes_new
              (suc n) count w)))

  -- Where a revision is made from the set, and one of the first names for it is free, the search for
  -- the active revisions returns, with fuel for the names before that one. If it returns no error,
  -- the update revision has the data of the revision made, whether it is the newest one, an older
  -- one that is used again, or a new one; the current revision is the one that the status names, or
  -- the update revision where there is none of that name.
  pub get_active_revisions-Returns :
      (n : ℕ) (w : World) (made : ControllerRevision)
      → Faithful
      → new_revision codec iu (next_revision revs) (count_or_zero iu.status.collision_count)
        ≡ some (inr made)
      → is_free_at client (parent_of iu) made n (count_or_zero iu.status.collision_count) w ≡ false
      → Returns made (get_active_revisions calls (suc n) iu revs w)
  unfolding get_active_revisions
  get_active_revisions-Returns n w made laws h free =
      let count = count_or_zero iu.status.collision_count in
      subst (λ o. Returns made (active_from calls (suc n) iu revs count w o)) (sym h)
        (get_revision-Returns n made count w (choose_revision calls revs made) laws
          (choose_revision-Suits made laws) free)
