-- ===== src/Intents/Objects.antt =====
-- cleanApplyObject (internal/k8s/managed_resource.go) and intentObject (resource_intent.go): the
-- part of an object that a writer authors.
use opensaola.Base.{
  String, ◌==◌, Bool, true, false, ◌&&◌, [], ◌∷◌, Option, none, some, Dict, insert, delete, ◌≡◌,
  refl,
}
use opensaola.Intents.{Rendered, annotation_resource_intent, label_resource_intent_gc_fence}

-- The system metadata, the status, the pointer to the record and the collector's fence are dropped.
unfoldable pub clean_apply_object : {Content : Type 0} → Rendered Content → Rendered Content
clean_apply_object o = record o {
  uid = "";
  resource_version = "";
  generation = 0;
  deleting = false;
  labels = delete label_resource_intent_gc_fence o.labels;
  annotations = delete annotation_resource_intent o.annotations;
  system = none;
  status = none;
}

-- base64.StdEncoding.EncodeToString
module _ (base64 : String → String) where
  -- The loop over stringData; a value that is no text is skipped.
  unfoldable pub add_string_data : Dict (Option String) → Dict String → Dict String
  add_string_data [] d = d
  add_string_data ((k, none) ∷ vs) d = add_string_data vs d
  add_string_data ((k, some v) ∷ vs) d = add_string_data vs (insert k (base64 v) d)

  abbrev or_nothing : Option (Dict String) → Dict String
  or_nothing none = []
  or_nothing (some d) = d

  unfoldable pub canonical_data :
      Bool → Option (Dict (Option String)) → Option (Dict String) → Option (Dict String)
  canonical_data true (some values) d = some (add_string_data values (or_nothing d))
  canonical_data _ _ d = d

  unfoldable pub remaining_string_data :
      Bool → Option (Dict (Option String)) → Option (Dict (Option String))
  remaining_string_data true (some values) = none
  remaining_string_data _ values = values

  unfoldable pub is_core_secret : {Content : Type 0} → Rendered Content → Bool
  is_core_secret o = o.gvk.group == "" && o.gvk.version == "v1" && o.gvk.kind == "Secret"

  unfoldable pub intent_object : {Content : Type 0} → Rendered Content → Rendered Content
  unfolding clean_apply_object
  intent_object o = record (clean_apply_object o) {
    finalizers = [];
    owner_references = [];
    lifecycle = none;
    string_data = remaining_string_data (is_core_secret o) o.string_data;
    data_ = canonical_data (is_core_secret o) o.string_data o.data_;
  }

  remaining_twice :
      (b : Bool) (s : Option (Dict (Option String)))
      → remaining_string_data b (remaining_string_data b s) ≡ remaining_string_data b s
  unfolding remaining_string_data
  remaining_twice true none = refl
  remaining_twice true (some v) = refl
  remaining_twice false s = refl

  canonical_twice :
      (b : Bool) (s : Option (Dict (Option String))) (d : Option (Dict String))
      → canonical_data b (remaining_string_data b s) (canonical_data b s d) ≡ canonical_data b s d
  unfolding remaining_string_data canonical_data
  canonical_twice true none d = refl
  canonical_twice true (some v) d = refl
  canonical_twice false s d = refl
