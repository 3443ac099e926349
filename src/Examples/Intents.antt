-- ===== src/Examples/Intents.antt =====
-- The records of a Deployment that a Redis instance renders.
use opensaola.Base.{
  ℕ, suc, String, Bool, true, false, List, [], ◌∷◌, Option, none, some, Dict, ◌-◌, ◌≡◌, refl, sym,
  ap, ◌∙◌, arith,
}
use opensaola.Configuration.{OwnerReference, middleware, GetControllerOf}
use opensaola.Intents.{WriteOwner, Rendered, ResourceIntent, Secret, ok}
use opensaola.Intents.Codec.{
  Codecs, IsInverse, decode_resource_intent, decode-encode, encode_resource_intent, encode_raw,
  encode_with, intent_json_key, intent_zstd_key,
}
use opensaola.Intents.Identity.{intent_owner_reference}
use opensaola.Intents.Records.{
  prepare_resource_intent, build_resource_intent_secret, loaded, intent_record, set_intent_pointer,
  load_resource_intent, secret_of,
}
use opensaola.Intents.Records.Loading.{stored, load-prepare}

abbrev applied : {A : Type 0} → Option (A → A) → A → A
applied none a = a
applied (some f) a = f a

-- A codec of numbers that is shorter by one.
abbrev shrinking : Codecs ℕ ℕ
shrinking = record {
  marshal = some;
  unmarshal = some;
  encoder = some (λ raw. suc raw);
  decoder = some (λ packed. some (packed - 1));
  size = λ b. 100 - b;
}

abbrev shrinking-IsInverse : IsInverse shrinking
shrinking-IsInverse = record {
  json = λ r raw e. sym e;
  decode = λ packed. some (packed - 1);
  initialised = refl;
  zstd = λ encode raw e. ap (λ o. some (applied o raw - 1)) (sym e) ∙ ap some (ground arith);
}

decode-encode_example : decode_resource_intent shrinking ((intent_zstd_key, 4) ∷ []) ≡ ok 3
unfolding encode_resource_intent encode_raw encode_with
decode-encode_example =
    decode-encode shrinking 3 ((intent_zstd_key, 4) ∷ []) shrinking-IsInverse refl

-- Records that are their own encoding.
abbrev pub Record : Type 0
Record = ResourceIntent ℕ ℕ

abbrev pub plain : Codecs Record Record
plain = record {
  marshal = some;
  unmarshal = some;
  encoder = some (λ raw. raw);
  decoder = some some;
  size = λ b. 0;
}

abbrev pub plain-IsInverse : IsInverse plain
plain-IsInverse = record {
  json = λ r raw e. sym e;
  decode = some;
  initialised = refl;
  zstd = λ encode raw e. ap (λ o. some (applied o raw)) (sym e);
}

abbrev first_of : List OwnerReference → Option OwnerReference
first_of [] = none
first_of (r ∷ rs) = some r

abbrev pub first_controller : GetControllerOf
first_controller = record { controller_of = first_of }

abbrev pub redis : WriteOwner
redis = record {
  kind = middleware;
  namespace = "prod";
  name = "redis";
  uid = "u-1";
  resource_version = "70";
  generation = 2;
  deleting = false;
}

abbrev pub redis_reference : OwnerReference
redis_reference = record {
  api_version = "middleware.cn/v1";
  kind = "Middleware";
  name = "redis";
  uid = "u-1";
  controller = true;
}

abbrev pub deployment : String → String → Dict String → ℕ → Rendered ℕ
deployment uid resource_version annotations content = record {
  gvk = record { group = "apps"; version = "v1"; kind = "Deployment" };
  namespace = "prod";
  name = "redis";
  uid = uid;
  resource_version = resource_version;
  generation = 1;
  deleting = false;
  finalizers = [];
  labels = [];
  annotations = annotations;
  owner_references = redis_reference ∷ [];
  system = none;
  lifecycle = none;
  status = none;
  string_data = none;
  data_ = none;
  content = content;
}

abbrev pub identity_text : String → String
identity_text s = s

abbrev pub never_same : Rendered ℕ → Rendered ℕ → Bool
never_same a b = false

abbrev pub redis_record : Rendered ℕ → Record
redis_record live =
    intent_record plain identity_text never_same redis live (deployment "" "" [] 5) "" "schema" []
      none

abbrev redis_secret : Secret Record
redis_secret =
    stored
      (secret_of plain redis redis_reference
        ((intent_json_key, redis_record (deployment "o-1" "5" [] 4)) ∷ []))
      "opensaola-intent-x" "s-1" "9" 100

load-prepare_example :
    load_resource_intent plain first_controller
      (λ namespace name. some redis_secret)
      redis
      (set_intent_pointer (deployment "o-1" "6" [] 5) "opensaola-intent-x")
      ""
    ≡ ok (loaded (redis_record (deployment "o-1" "5" [] 4)) redis_secret)
unfolding prepare_resource_intent build_resource_intent_secret encode_resource_intent encode_raw
    encode_with intent_owner_reference
load-prepare_example =
    load-prepare plain identity_text never_same first_controller redis (deployment "o-1" "5" [] 4)
      (deployment "" "" [] 5) "" "schema" [] none (deployment "o-1" "6" [] 5) "opensaola-intent-x"
      "s-1" "9" 100 (λ namespace name. some redis_secret) redis_secret plain-IsInverse (λ r e. refl)
      refl refl refl refl refl refl refl
