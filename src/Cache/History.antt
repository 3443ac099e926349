-- ===== src/Cache/History.antt =====
-- What a read returns after any history of the cache (internal/cache/store.go).
use opensaola.Base.{
  ℕ, ◌≤◌, String, ◌==◌, List, [], ◌∷◌, Option, none, some, lookup, if◌then◌else◌, ◌≡◌, refl, ◌∙◌,
  inl, inr, Bool-cases,
}
use opensaola.Cache.{Store, new_store, get, put_value, remove, clear}
use opensaola.Cache.Freshness.{
  loaded-ttl, view_at, is_outlived, loaded-view, view-loaded, view-put, view-remove,
}

pub data Op (V : Type 0) : Type 0 where
  set : String → V → Op V
  read delete : String → Op V
  clear_all : Op V

-- A history, with the time of each operation, the latest first.
abbrev pub History : Type 0 → Type 0
History V = List (ℕ × Op V)

-- No operation is later than `now`.
abbrev pub IsBefore : {V : Type 0} → ℕ → History V → Type 0
IsBefore now [] = Unit
IsBefore now ((t, op) ∷ h) = (t ≤ now) × IsBefore now h

module _ {V : Type 0} where
  unfoldable pub perform : ℕ → Op V → Store V → Store V
  perform t (set key v) s = put_value t key v s
  perform t (read key) s = (get t key s).0
  perform t (delete key) s = remove key s
  perform t clear_all s = clear s

  unfoldable pub run : ℕ → History V → Store V
  run ttl [] = new_store ttl
  run ttl ((t, op) ∷ h) = perform t op (run ttl h)

  -- The value of the last Set of the key with no later Delete of it and no later Clear, and its time.
  unfoldable pub last_set : String → History V → Option (ℕ × V)
  last_set key [] = none
  last_set key ((t, set k v) ∷ h) = if k == key then some (t, v) else last_set key h
  last_set key ((t, read k) ∷ h) = last_set key h
  last_set key ((t, delete k) ∷ h) = if k == key then none else last_set key h
  last_set key ((t, clear_all) ∷ h) = none

  unfoldable pub fresh_value : ℕ → ℕ → Option (ℕ × V) → Option V
  fresh_value ttl now none = none
  fresh_value ttl now (some (t, v)) = if is_outlived ttl t now then none else some v

  perform-ttl : (t : ℕ) (op : Op V) (s : Store V) → (perform t op s).ttl ≡ s.ttl
  unfolding perform put_value remove clear get
  perform-ttl t (set key v) s = refl
  perform-ttl t (read key) s = loaded-ttl t key s (lookup key s.data_)
  perform-ttl t (delete key) s = refl
  perform-ttl t clear_all s = refl

  run-ttl : (ttl : ℕ) (h : History V) → (run ttl h).ttl ≡ ttl
  unfolding run new_store
  run-ttl ttl [] = refl
  run-ttl ttl ((t, op) ∷ h) = perform-ttl t op (run ttl h) ∙ run-ttl ttl h

  view-run :
      (ttl now : ℕ) (key : String) (h : History V)
      → IsBefore now h
      → view_at now key (run ttl h) ≡ fresh_value ttl now (last_set key h)
  unfolding run last_set fresh_value perform view_at new_store clear lookup get
  view-run ttl now key [] b = refl
  view-run ttl now key ((t, set k v) ∷ h) (l, b) =
      view-put t now k key v (run ttl h) ∙ elim (Bool-cases (k == key)) [
        | inl e ↦ rw (e, run-ttl ttl h) refl
        | inr e ↦ rw e (view-run ttl now key h b)
      ]
  view-run ttl now key ((t, read k) ∷ h) (l, b) =
      view-loaded t now k key (run ttl h) (lookup k (run ttl h).data_) l refl
      ∙ view-run ttl now key h b
  view-run ttl now key ((t, delete k) ∷ h) (l, b) =
      view-remove now k key (run ttl h)
      ∙ elim (Bool-cases (k == key)) [ inl e ↦ rw e refl | inr e ↦ rw e (view-run ttl now key h b) ]
  view-run ttl now key ((t, clear_all) ∷ h) b = refl

  -- After a history of Get, Set, Delete and Clear none of which is later than now, Get at now
  -- returns the value of the last Set of the key with no later Delete of the key and no later
  -- Clear, unless the time to live is positive and has passed since that Set; otherwise it finds
  -- nothing.
  pub get_history :
      (ttl now : ℕ) (key : String) (h : History V)
      → IsBefore now h
      → (get now key (run ttl h)).1 ≡ fresh_value ttl now (last_set key h)
  unfolding get view_at fresh_value
  get_history ttl now key h b =
      loaded-view now key (run ttl h) (lookup key (run ttl h).data_) ∙ view-run ttl now key h b
