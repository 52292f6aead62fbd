-- ===== src/Examples/Setting.antt =====
-- What the examples of the reconciler, the revisions and the handler stand on.
use inplaceu.Base.{
  ℕ, ◌≡◌, refl, ap, inl, inr, Bool, true, false, ◌&&◌, none, some, List, [], ◌∷◌, ◌++◌, Text,
  text_eq, ◌==◌, ==_iff, codes, keep, if◌then◌else◌, arith,
}
use inplaceu.Base.Int.{ℤ, pos}
use inplaceu.Api.{Pod, ControllerRevision}
use inplaceu.Sets.Lists.{list_set}
use inplaceu.Sync.Update.{InPlace}
use inplaceu.Events.{Handler, Handling, Request, controller_kind, controller_group}
use inplaceu.Revisions.{RevisionClient}
use inplaceu.RevisionControl.{Json, Fields, object, empty, field, Codec}
use inplaceu.Reconciler.{Calls}
use inplaceu.Reconciler.Sync.{Setup}
use inplaceu.Examples.{web, cluster, kube, start}

-- A revision by its name and data.
abbrev pub stored : Text → Text → ℤ → ControllerRevision
stored name raw number = record {
  name = name;
  namespace = codes "default";
  annotations = [];
  uid = name;
  resource_version = codes "1";
  owner_references = [];
  raw = raw;
  revision = number;
}

-- A cluster of revisions that accepts every write and finds none.
abbrev pub accepting : RevisionClient (List Text) ℕ
accepting = record {
  is_already_exists = λ e. true;
  is_not_found = λ e. true;
  is_invalid = λ e. false;
  is_conflict = λ e. true;
  create = λ r w. (w, r, none);
  update = λ r w. (w, r, none);
  read = λ namespace name w. inl 404;
  list = λ namespace w. inr [];
  hash = λ r n. codes "b2";
  revision_name = λ name hash. name ++ b'-' ∷ hash;
}

-- The template of the set, as JSON.
abbrev pub stored_template : Fields
stored_template = field (codes "$patch") (Json.other (codes "\"replace\"")) empty

abbrev pub stored_fields : Fields
stored_fields =
    field (codes "spec") (object (field (codes "template") (object stored_template) empty)) empty

and_both : (x y : Bool) → (x && y) ≡ true → (x ≡ true) × (y ≡ true)
and_both x y h = ground arith

unfoldable mutual
  json_beq : Json → Json → Bool
  json_beq (object f) (object g) = fields_beq f g
  json_beq (object f) (Json.other t) = false
  json_beq (Json.other t) (object g) = false
  json_beq (Json.other t) (Json.other u) = t == u

  pub fields_beq : Fields → Fields → Bool
  fields_beq empty empty = true
  fields_beq empty (field k v g) = false
  fields_beq (field k v f) empty = false
  fields_beq (field k v f) (field l u g) = k == l && json_beq v u && fields_beq f g

mutual
  unfolding json_beq fields_beq

  json_same : (v u : Json) → json_beq v u ≡ true → v ≡ u
  json_same (object f) (object g) h = ap object (fields_same f g h)
  json_same (object f) (Json.other t) h = absurd cc
  json_same (Json.other t) (object g) h = absurd cc
  json_same (Json.other t) (Json.other u) h = ap Json.other ((==_iff t u).0 h)

  pub fields_same : (f g : Fields) → fields_beq f g ≡ true → f ≡ g
  fields_same empty empty h = refl
  fields_same empty (field k v g) h = absurd cc
  fields_same (field k v f) empty h = absurd cc
  fields_same (field k v f) (field l u g) h =
      let (rest, same_fields) = and_both (k == l && json_beq v u) (fields_beq f g) h in
      let (same_key, same_value) = and_both (k == l) (json_beq v u) rest in
      λ i.
        field ((==_iff k l).0 same_key i) (json_same v u same_value i)
          (fields_same f g same_fields i)

-- JSON that knows this one value.
abbrev pub json : Codec ℕ
json = record {
  encode = λ iu. inr iu.name;
  unmarshal = λ t. stored_fields;
  marshal = λ f. if fields_beq f stored_fields then inr (codes "stored") else inl 1;
  strategic_merge_patch = λ t p. inr t;
  unmarshal_set = λ t. inr web;
  new_controller_revision = λ iu labels raw n count. inr (stored (codes "web-b2") raw n);
}

abbrev pub calls : Calls (List Text) ℕ
calls = record {
  is_not_found = λ e. true;
  get_instance = λ namespace name w. if name == codes "web" then inr web else inl 404;
  selector_of = λ iu. some (λ labels. true);
  list_pods = λ namespace uid w. inr [];
  is_pod_active = λ pod. true;
  has_schema = true;
  get_owner = λ iu w. (w, inr (iu.uid, none));
  set_controller_reference = λ iu obj. some obj;
  update_owner = λ obj w. (w, obj, none);
  revisions = λ iu. accepting;
  sort_revisions = λ rs. rs;
  find_equal_revisions = λ rs r. keep (λ (x : ControllerRevision). x.raw == r.raw) rs;
  equal_revision = λ x y. x.raw == y.raw;
  codec = json;
  retry = λ f c. f c;
  put_status = λ iu w. (w, none);
  retry_status = λ f w. f w;
  delete_revision = λ r w. (w, none);
  error_text = λ e. [];
  held = λ w pod. pod;
}

abbrev pub never_in_place : InPlace cluster
never_in_place = record {
  can_update_in_place = λ old new. false;
  update = λ pod old new w. (
    w,
    record {
      in_place_update = false;
      update_err = none;
      delay_duration = pos 0;
      new_resource_version = [];
    },
  );
}

abbrev pub setting : Setup cluster
setting = record {
  kube = kube;
  in_place = never_in_place;
  sort_slice = λ pods indexes. indexes;
  calls = calls;
}

abbrev pub request : Request
request = record { namespace = codes "default"; name = codes "web" }

-- A handler that knows the group of the controller, and a limiter that counts its calls.
abbrev pub handler : Handler (List Text)
handler = record {
  parse_group = λ version. some controller_group;
  list_inplaceus = λ namespace w. some (web ∷ []);
  selector_of = λ iu. some (record { is_empty = false; matches = λ labels. true });
  labels_equal = λ x y. true;
  refs_equal = λ x y. true;
  Limiter = ℕ;
  when = λ p n. (ℕ.suc n, pos 5);
  forget = λ p n. n;
}

abbrev pub owned_by_web : Pod → Pod
owned_by_web pod = record pod {
  owner_references =
      record {
        controller = some true;
        api_version = codes "batch.inplace.kubebuilder.io/v1";
        kind = controller_kind;
        name = codes "web";
        uid = codes "u-web";
      }
      ∷ [];
}

abbrev pub handling : Handling list_set handler
handling = record { ctl = start; queue = []; limiter = 0; free = 0 }
