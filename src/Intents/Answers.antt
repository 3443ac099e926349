-- ===== src/Intents/Answers.antt =====
-- What the API server answers, as far as the code tells one error from another, and the guarded
-- deletion of a record: `deleteRecord` of internal/k8s/resource_intent_gc.go.
use opensaola.Base.{Bool, true}
use opensaola.Intents.{Secret, Fallible, ok, err, write_failed}

-- Reading one object: a NotFound error is told apart.
pub data Answer (A : Type 0) : Type 0 where
  present : A → Answer A
  absent failed : Answer A

-- Creating an object: an AlreadyExists error is told apart.
pub data Creation (A : Type 0) : Type 0 where
  created : A → Creation A
  exists refused : Creation A

-- Deleting an object under the precondition of its UID and resourceVersion.
pub data Deletion : Type 0 where
  done gone refused : Deletion

abbrev deleted : Deletion → Fallible Bool
deleted refused = err write_failed
deleted done = ok true
deleted gone = ok true

-- A Secret that is already gone counts as deleted.
unfoldable pub delete_record :
    {Bytes : Type 0} → (Secret Bytes → Deletion) → Secret Bytes → Fallible Bool
delete_record delete s = deleted (delete s)
