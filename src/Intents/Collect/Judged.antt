-- ===== src/Intents/Collect/Judged.antt =====
-- What a verdict of `judge` says of the object and the record (internal/k8s/resource_intent_gc.go).
use opensaola.Base.{String, ◌==◌, true, false, Option, none, some, value_at, ◌≡◌, ◌⊎◌, arith}
use opensaola.Intents.{Rendered, ResourceIntent, WriteError, ok, annotation_resource_intent}
use opensaola.Intents.Collect.{delete_now, fence_first, judge}

module _ {Content Overrides : Type 0} (name : String) (r : ResourceIntent Content Overrides)
    (target : Rendered Content) where
  pub judge-delete_now :
      (identity : Option WriteError)
      → judge name r target identity ≡ ok delete_now
      → ((value_at annotation_resource_intent target.annotations == name) ≡ false)
        × (((target.uid == r.resource_uid) ≡ false)
            ⊎ ((target.resource_version == r.base_resource_version) ≡ false))
  unfolding judge
  judge-delete_now none e = ground arith
  judge-delete_now (some x) e = ground arith

  pub judge-fence_first :
      (identity : Option WriteError) (fenced : Rendered Content)
      → judge name r target identity ≡ ok (fence_first fenced)
      → ((value_at annotation_resource_intent target.annotations == name) ≡ false)
        × ((target.resource_version == r.base_resource_version) ≡ true)
        × (target ≡ fenced)
  unfolding judge
  judge-fence_first none fenced e = ground arith
  judge-fence_first (some x) fenced e = ground arith
