-- ===== src/Cache.antt =====
-- internal/cache/store.go: a keyed cache with an optional time to live, for calls that do not
-- overlap: Get and Clear make several calls of the sync.Map. The `sync.Map` is an
-- association list; a time is a number of nanoseconds since the zero time, and time.Now() an argument.
pub mod Freshness
pub mod History
use opensaola.Base.{
  ℕ, ◌+◌, String, Bool, true, false, not, ◌&&◌, List, [], ◌∷◌, Option, none, some, Dict, lookup,
  insert, delete, eqb, ltb, if◌then◌else◌,
}

-- `expires_at` is 0 where the entry never expires.
pub record Entry (V : Type 0) : Type 0 where
  pub value : V
  pub expires_at : ℕ

pub record Store (V : Type 0) : Type 0 where
  pub data_ : Dict (Entry V)
  pub ttl : ℕ

module _ {V : Type 0} where
  -- New
  unfoldable pub new_store : ℕ → Store V
  new_store ttl = record { data_ = []; ttl = ttl }

  -- !e.expiresAt.IsZero() && time.Now().After(e.expiresAt)
  unfoldable pub is_expired : ℕ → Entry V → Bool
  is_expired now e = not (eqb e.expires_at 0) && ltb e.expires_at now

  unfoldable pub remove : String → Store V → Store V
  remove key s = record s { data_ = delete key s.data_ }

  unfoldable pub loaded : ℕ → String → Store V → Option (Entry V) → Store V × Option V
  loaded now key s none = (s, none)
  loaded now key s (some e) = if is_expired now e then (remove key s, none) else (s, some e.value)

  -- Get: the value where there is one that has not expired.
  unfoldable pub get : ℕ → String → Store V → Store V × Option V
  get now key s = loaded now key s (lookup key s.data_)

  -- Set
  unfoldable pub put_value : ℕ → String → V → Store V → Store V
  put_value now key v s =
      let expires_at = if ltb 0 s.ttl then now + s.ttl else 0 in
      record s { data_ = insert key (record { value = v; expires_at = expires_at }) s.data_ }

  -- Clear
  unfoldable pub clear : Store V → Store V
  clear s = record s { data_ = [] }

  -- The entries that Range goes over, from the first on, with the callback's state; the callback
  -- returns false to stop.
  unfoldable pub range_entries :
      {A : Type 0} → ℕ → (String → V → A → A × Bool) → Dict (Entry V) → Store V → A → Store V × A
  range_entries now f [] s a = (s, a)
  range_entries now f ((key, e) ∷ es) s a =
      if is_expired now e
      then range_entries now f es (remove key s) a
      else let (a', more) = f key e.value a in if more then range_entries now f es s a' else (s, a')

  unfoldable pub range : {A : Type 0} → ℕ → (String → V → A → A × Bool) → Store V → A → Store V × A
  range now f s a = range_entries now f s.data_ s a
