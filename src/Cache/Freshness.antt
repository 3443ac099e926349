-- ===== src/Cache/Freshness.antt =====
-- How long a stored value can be read (internal/cache/store.go).
use opensaola.Base.{
  ℕ, ◌+◌, ◌≤◌, String, ◌==◌, eq_iff, Bool, true, ◌&&◌, Option, none, some, lookup, lookup-insert,
  lookup-delete, ltb, if◌then◌else◌, ◌≡◌, refl, sym, ap, ◌∙◌, inl, inr, Bool-cases, arith,
}
use opensaola.Cache.{Store, Entry, put_value, remove, is_expired, loaded}

-- Whether a value stored at `at` has outlived the store's time to live.
abbrev pub is_outlived : ℕ → ℕ → ℕ → Bool
is_outlived ttl at now = ltb 0 ttl && ltb (at + ttl) now

module _ {V : Type 0} where
  -- What a read of `key` at `now` returns.
  abbrev pub view : ℕ → String → Option (Entry V) → Option V
  view now key none = none
  view now key (some e) = if is_expired now e then none else some e.value

  unfoldable pub view_at : ℕ → String → Store V → Option V
  view_at now key s = view now key (lookup key s.data_)

  pub loaded-view :
      (now : ℕ) (key : String) (s : Store V) (o : Option (Entry V))
      → (loaded now key s o).1 ≡ view now key o
  unfolding loaded
  loaded-view now key s none = refl
  loaded-view now key s (some e) = elim (Bool-cases (is_expired now e)) [
    | inl h ↦ rw h refl
    | inr h ↦ rw h refl
  ]

  pub loaded-ttl :
      (now : ℕ) (key : String) (s : Store V) (o : Option (Entry V))
      → (loaded now key s o).0.ttl ≡ s.ttl
  unfolding loaded remove
  loaded-ttl now key s none = refl
  loaded-ttl now key s (some e) = elim (Bool-cases (is_expired now e)) [
    | inl h ↦ rw h refl
    | inr h ↦ rw h refl
  ]

  expired_mono :
      (at now : ℕ) (e : Entry V) → at ≤ now → is_expired at e ≡ true → is_expired now e ≡ true
  unfolding is_expired
  expired_mono at now e l h = ground arith

  -- A deletion, seen at `other`.
  pub view-remove :
      (now : ℕ) (key other : String) (s : Store V)
      → view_at now other (remove key s) ≡ (if key == other then none else view_at now other s)
  unfolding view_at remove
  view-remove now key other s = elim (Bool-cases (key == other)) [
    | inl e ↦ rw (lookup-delete key other s.data_, e) refl
    | inr e ↦ rw (lookup-delete key other s.data_, e) refl
  ]

  expired-view :
      (now : ℕ) (key : String) (e : Entry V)
      → is_expired now e ≡ true
      → view now key (some e) ≡ none
  expired-view now key e h = rw h refl

  -- The eviction by a read is not seen by any later read.
  pub view-loaded :
      (at now : ℕ) (key other : String) (s : Store V) (o : Option (Entry V))
      → at ≤ now
      → lookup key s.data_ ≡ o
      → view_at now other (loaded at key s o).0 ≡ view_at now other s
  unfolding loaded view_at
  view-loaded at now key other s none l g = refl
  view-loaded at now key other s (some e) l g = elim (Bool-cases (is_expired at e)) [
    | inl h ↦ rw h (view-remove now key other s ∙ hidden (expired_mono at now e l h))
    | inr h ↦ rw h refl
  ]
    where
      hidden :
          is_expired now e ≡ true
          → (if key == other then none else view_at now other s) ≡ view_at now other s
      hidden x = elim (Bool-cases (key == other)) [
        | inl p ↦ rw p (
            sym (
              ap (λ k. view_at now k s) (sym ((eq_iff key other).0 p))
              ∙ ap (view now key) g
              ∙ expired-view now key e x))
        | inr p ↦ rw p refl
      ]

  put-expired :
      (ttl at now : ℕ) (v : V)
      → is_expired now (record { value = v; expires_at = if ltb 0 ttl then at + ttl else 0 })
        ≡ is_outlived ttl at now
  unfolding is_expired
  put-expired ttl at now v = ground arith

  pub view-put :
      (at now : ℕ) (key other : String) (v : V) (s : Store V)
      → view_at now other (put_value at key v s) ≡ (
          if key == other
          then (if is_outlived s.ttl at now then none else some v)
          else view_at now other s)
  unfolding view_at put_value
  view-put at now key other v s = elim (Bool-cases (key == other)) [
    | inl e ↦
        rw
          (
            lookup-insert key other
                (record { value = v; expires_at = if ltb 0 s.ttl then at + s.ttl else 0 }) s.data_,
            e,
            put-expired s.ttl at now v,
          )
          refl
    | inr e ↦
        rw
          (
            lookup-insert key other
                (record { value = v; expires_at = if ltb 0 s.ttl then at + s.ttl else 0 }) s.data_,
            e,
          )
          refl
  ]
