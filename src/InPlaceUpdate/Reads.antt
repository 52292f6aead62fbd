-- ===== src/InPlaceUpdate/Reads.antt =====
-- What the operations of a patch say, and what the loop of `CalculateSpec` reads from them.
use inplaceu.Base.{
  ℕ, ◌≡◌, ◌⊎◌, inl, inr, refl, subst, Bool, true, Option, none, some, List, [], ◌∷◌, Text, text_eq,
  ◌==◌, ==_iff, Dict, codes, lookup, insert, lookup-insert, All, get_elem?, Bool-cases, arith,
}
use inplaceu.Api.{PodTemplate, Container}
use inplaceu.InPlaceUpdate.{
  Operation, Change, metadata_change, image_change, other_change, classify, read_patches,
  note_change, Found, image_index, remove_first, has_prefix, image_of, image_at,
}

-- An operation of an image: it replaces the image of a container of the old template, by its index.
pub record ReplacesImage (old : PodTemplate) (op : Operation) (name image : Text) : Type 0 where
  pub replaces : op.operation ≡ codes "replace"
  pub i : ℕ
  pub indexed : image_index (remove_first (codes "/spec/template") op.path) ≡ some i
  pub c : Container
  pub found : get_elem? old.containers i ≡ some c
  pub named : c.name ≡ name
  pub valued : op.value ≡ image

-- What a kind says of the operation.
abbrev Says : PodTemplate → Operation → Change → Type 0
Says old op metadata_change =
    has_prefix (codes "/metadata/") (remove_first (codes "/spec/template") op.path) ≡ true
Says old op (image_change name image) = ReplacesImage old op name image
Says old op other_change = Unit

image_at-Says :
    (old : PodTemplate) (op : Operation) (i : ℕ) (o : Option Container)
    → op.operation ≡ codes "replace"
    → image_index (remove_first (codes "/spec/template") op.path) ≡ some i
    → get_elem? old.containers i ≡ o
    → Says old op (image_at op o)
image_at-Says old op i none r e h = tt
image_at-Says old op i (some c) r e h = record {
  replaces = r;
  i = i;
  indexed = e;
  c = c;
  found = h;
  named = refl;
  valued = refl;
}

image_of-Says :
    (old : PodTemplate) (op : Operation) (o : Option ℕ)
    → op.operation ≡ codes "replace"
    → image_index (remove_first (codes "/spec/template") op.path) ≡ o
    → Says old op (image_of old op o)
image_of-Says old op none r e = tt
image_of-Says old op (some i) r e = image_at-Says old op i _ r e refl

classify-Says : (old : PodTemplate) (op : Operation) → Says old op (classify old op)
unfolding classify
classify-Says old op =
    let path = remove_first (codes "/spec/template") op.path in
    elim (Bool-cases (has_prefix (codes "/spec/") path)) [
      | inr s ↦ elim (Bool-cases (has_prefix (codes "/metadata/") path)) [
        | inl m ↦ rw (s, classify, m) m
        | inr m ↦ rw (s, classify, m) tt
      ]
      | inl s ↦ elim (Bool-cases (op.operation == codes "replace")) [
        | inl r ↦
            rw (s, classify, r)
              (image_of-Says old op (image_index path) ((==_iff op.operation (codes "replace")).0 r)
                refl)
        | inr r ↦ rw (s, classify, r) tt
      ]
    ]

-- Some element of a list has a property.
pub data Among {A : Type 0} (P : A → Type 0) : List A → Type 0 where
  here : (x : A) (xs : List A) → P x → Among P (x ∷ xs)
  there : (x : A) (xs : List A) → Among P xs → Among P (x ∷ xs)

-- A change that a running pod takes.
abbrev pub Allowed : PodTemplate → Operation → Type 0
Allowed old op =
    (has_prefix (codes "/metadata/") (remove_first (codes "/spec/template") op.path) ≡ true)
    ⊎ ((name : Text) × (image : Text) × ReplacesImage old op name image)

-- The images found come from those of before and from the operations.
abbrev pub Reads : PodTemplate → List Operation → Dict Text Text → Option Found → Type 0
Reads old ops before none = Unit
Reads old ops before (some (images, metadata)) =
    All (Allowed old) ops
    × ((name image : Text)
        → lookup name images ≡ some image
        → Among (λ op. ReplacesImage old op name image) ops ⊎ (lookup name before ≡ some image))

from_there :
    (P : Operation → Type 0) (Q : Type 0) (op : Operation) (ops : List Operation)
    → Among P ops ⊎ Q
    → Among P (op ∷ ops) ⊎ Q
from_there P Q op ops (inl a) = inl (there op ops a)
from_there P Q op ops (inr q) = inr q

skip-Reads :
    (old : PodTemplate) (op : Operation) (ops : List Operation) (before : Dict Text Text)
    (r : Option Found)
    → Allowed old op
    → Reads old ops before r
    → Reads old (op ∷ ops) before r
skip-Reads old op ops before none a h = tt
skip-Reads old op ops before (some (images, metadata)) a (all, h) =
    ((a, all), (λ name image e. from_there _ _ op ops (h name image e)))

moved :
    (old : PodTemplate) (op : Operation) (name other image value : Text)
    → name ≡ other
    → image ≡ value
    → ReplacesImage old op name image
    → ReplacesImage old op other value
moved old op name other image value n v a =
    subst (λ (p : Text × Text). ReplacesImage old op p.0 p.1) (λ i. (n i, v i)) a

inserted-image :
    (old : PodTemplate) (op : Operation) (ops : List Operation) (before : Dict Text Text)
    (name image other value : Text)
    → ReplacesImage old op name image
    → lookup other (insert name image before) ≡ some value
    → Among (λ op. ReplacesImage old op other value) (op ∷ ops) ⊎ (lookup other before ≡ some value)
inserted-image old op ops before name image other value a was = elim (Bool-cases (name == other)) [
  | inl same ↦
      let image_is : image ≡ value =
        ground (arith, same, was, lookup-insert name other image before) in
      inl
        (here op ops (moved old op name other image value ((==_iff name other).0 same) image_is a))
  | inr differs ↦ inr (ground (arith, differs, was, lookup-insert name other image before))
]

inserted-Reads :
    (old : PodTemplate) (op : Operation) (ops : List Operation) (before : Dict Text Text)
    (name image : Text) (r : Option Found)
    → ReplacesImage old op name image
    → Reads old ops (insert name image before) r
    → Reads old (op ∷ ops) before r
inserted-Reads old op ops before name image none a h = tt
inserted-Reads old op ops before name image (some (images, metadata)) a (all, h) = (
  (inr (name, image, a), all),
  (λ other value e. elim (h other value e) [
    | inl later ↦ inl (there op ops later)
    | inr was ↦ inserted-image old op ops before name image other value a was
  ]),
)

note_change-Reads :
    (old : PodTemplate) (op : Operation) (ops : List Operation) (change : Change)
    (images : Dict Text Text) (metadata : Bool)
    → Says old op change
    → ((found : Found) → Reads old ops found.0 (read_patches old ops found))
    → Reads old (op ∷ ops) images (note_change change (images, metadata) (read_patches old ops))
note_change-Reads old op ops metadata_change images metadata says next =
    skip-Reads old op ops images _ (inl says) (next (images, true))
note_change-Reads old op ops (image_change name image) images metadata says next =
    inserted-Reads old op ops images name image _ says (next (insert name image images, metadata))
note_change-Reads old op ops other_change images metadata says next = tt

pub read_patches-Reads :
    (old : PodTemplate) (ops : List Operation) (found : Found)
    → Reads old ops found.0 (read_patches old ops found)
unfolding read_patches
read_patches-Reads old [] found = (tt, (λ name image e. inr e))
read_patches-Reads old (op ∷ ops) found =
    note_change-Reads old op ops (classify old op) found.0 found.1 (classify-Says old op)
      (read_patches-Reads old ops)
