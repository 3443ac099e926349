-- ===== src/Debounce/Registry/Ownership.antt =====
-- Ownership of registered debouncers: tokens, replacement and cleanup
-- (internal/service/synchronizer/debouncer.go).
use opensaola.Base.{
  ℕ, ◌+◌, ◌<◌, String, ◌==◌, eq_iff, eq_refl, true, false, none, some, eqb, eqb→eq, eqb_refl,
  if◌then◌else◌, lookup, lookup-insert, update, lookup-delete, ◌≡◌, ◌≢◌, inl, inr, refl, ap, ◌∙◌,
  Bool-cases, Option-cases, arith,
}
use opensaola.Debounce.{Debouncer, new_debouncer, notify, stop}
use opensaola.Debounce.Stop.{IsOver}
use opensaola.Debounce.Registry.{
  Registry, registry_key, register, unregister, unregister_if_current, notify_middleware, stop_at,
}

-- Registered pointers are pointers that were made, and no two keys share one.
pub record IsOwned (r : Registry) : Type 0 where
  pub known : (key : String) (i : ℕ) → lookup key r.keys ≡ some i → i < r.made
  pub unshared :
      (j k : String) (i : ℕ) → lookup j r.keys ≡ some i → lookup k r.keys ≡ some i → j ≡ k

-- Stop leaves a new debouncer as it is, and others where they are.
stop_at-new :
    (ds : ℕ → Debouncer) (new i window max_delay : ℕ)
    → let d = new_debouncer window max_delay in stop_at (update ds new d) i new ≡ d
unfolding stop new_debouncer
stop_at-new ds n i w m = elim (Bool-cases (eqb i n)) [
  | inl f ↦ rw (eqb→eq i n f, eqb_refl n) refl
  | inr f ↦ rw f (rw (eqb_refl n) refl)
]

module _ (r : Registry) (ns mid_name : String) where
  register-lookup :
      (window max_delay : ℕ) (k : String)
      → lookup k (register r ns mid_name window max_delay).0.keys
        ≡ (if registry_key ns mid_name == k then some r.made else lookup k r.keys)
  unfolding register
  register-lookup window max_delay k = lookup-insert (registry_key ns mid_name) k r.made r.keys

  made-register :
      (window max_delay : ℕ) → (register r ns mid_name window max_delay).0.made ≡ r.made + 1
  unfolding register
  made-register window max_delay = refl

  token-register : (window max_delay : ℕ) → (register r ns mid_name window max_delay).1 ≡ r.made
  unfolding register
  token-register window max_delay = refl

  register-IsOwned :
      (window max_delay : ℕ) → IsOwned r → IsOwned (register r ns mid_name window max_delay).0
  register-IsOwned window max_delay v = record {
    known = λ k i e.
        ground
          (arith, v.known k i, register-lookup window max_delay k, made-register window max_delay);
    unshared = λ j k i e f. ground (
      arith,
      v.unshared j k i,
      v.known j i,
      v.known k i,
      register-lookup window max_delay k,
      register-lookup window max_delay j,
      eq_iff (registry_key ns mid_name) j,
      eq_iff (registry_key ns mid_name) k,
    );
  }

  -- Deleting a key leaves the others.
  unregister-IsOwned : IsOwned r → IsOwned (unregister r ns mid_name)
  unfolding unregister
  unregister-IsOwned v = elim (Option-cases (lookup (registry_key ns mid_name) r.keys)) [
    | inl e ↦ rw (e, unregister) v
    | inr (d, e) ↦
        rw (e, unregister)
          (record {
            known = λ k i f.
                ground (arith, v.known k i, lookup-delete (registry_key ns mid_name) k r.keys);
            unshared = λ j k i f g. ground (
              arith,
              v.unshared j k i,
              lookup-delete (registry_key ns mid_name) k r.keys,
              lookup-delete (registry_key ns mid_name) j r.keys,
            );
          })
  ]

  unregister_if_current-stale :
      (want : ℕ)
      → lookup (registry_key ns mid_name) r.keys ≢ some want
      → unregister_if_current r ns mid_name want ≡ (r, false)
  unfolding unregister_if_current
  unregister_if_current-stale want h =
      elim (Option-cases (lookup (registry_key ns mid_name) r.keys)) [
        | inl e ↦ rw (e, unregister_if_current) refl
        | inr (i, e) ↦ elim (Bool-cases (eqb i want)) [
          | inl f ↦ absurd (h (e ∙ ap some (eqb→eq i want f)))
          | inr f ↦ rw (e, unregister_if_current) (rw f refl)
        ]
      ]

  unregister_if_current-own :
      (i : ℕ)
      → lookup (registry_key ns mid_name) r.keys ≡ some i
      → let (r'', removed) = unregister_if_current r ns mid_name i in
        (removed ≡ true)
        × (r''.debouncers i ≡ stop (r.debouncers i))
        × ((k : String)
            → lookup k r''.keys ≡ (if registry_key ns mid_name == k then none else lookup k r.keys))
  unfolding unregister_if_current
  unregister_if_current-own i e =
      rw (e, unregister_if_current)
        (rw (eqb_refl i)
          (refl, rw (eqb_refl i) refl, λ k. lookup-delete (registry_key ns mid_name) k r.keys))

  -- The token's debouncer is the new one, with nothing armed.
  debouncers-register :
      (window max_delay : ℕ)
      → let (r', token) = register r ns mid_name window max_delay in
        r'.debouncers token ≡ new_debouncer window max_delay
  unfolding register stop new_debouncer
  debouncers-register w m = elim (Option-cases (lookup (registry_key ns mid_name) r.keys)) [
    | inl e ↦ rw (e, register) (rw (eqb_refl r.made) refl)
    | inr (i, e) ↦ rw (e, register) (stop_at-new r.debouncers r.made i w m)
  ]

  notify_middleware-own :
      (i now : ℕ)
      → lookup (registry_key ns mid_name) r.keys ≡ some i
      → let r' = (notify_middleware r ns mid_name now).0 in
        (r'.keys ≡ r.keys) × (r'.debouncers i ≡ notify (r.debouncers i) now)
  unfolding notify_middleware
  notify_middleware-own i now e = rw (e, notify_middleware) (refl, rw (eqb_refl i) refl)

-- A new debouncer that is notified has armed its timer; Stop then leaves nothing that can run.
notified_pending : (w m now : ℕ) → (notify (new_debouncer w m) now).pending ≡ true
unfolding notify new_debouncer
notified_pending w m now = refl

stop-notified :
    (w m now : ℕ)
    → let d = stop (notify (new_debouncer w m) now) in
      (d.pending ≡ false) × (d.timer ≡ none) × IsOver d
unfolding stop notify new_debouncer
stop-notified w m now = (refl, refl, λ i. ground arith)

-- A token that a later registration of the same key has replaced cleans up nothing: the registry
-- stays as it is, and UnregisterIfCurrent returns false.
pub stale_cleanup :
    (r : Registry) (ns mid_name : String) (window max_delay window' max_delay' : ℕ)
    → let (r', token) = register r ns mid_name window max_delay in
      let r'' = (register r' ns mid_name window' max_delay').0 in
      unregister_if_current r'' ns mid_name token ≡ (r'', false)
stale_cleanup r ns mid_name w m w' m' =
    let r' = (register r ns mid_name w m).0 in
    unregister_if_current-stale (register r' ns mid_name w' m').0 ns mid_name
      (register r ns mid_name w m).1
      (λ e. ground (
        arith,
        register-lookup r' ns mid_name w' m' (registry_key ns mid_name),
        made-register r ns mid_name w m,
        token-register r ns mid_name w m,
        eq_refl (registry_key ns mid_name),
      ))

-- A registration is notified and has a trigger pending; its token then cleans it up: the call
-- returns true, the debouncer has nothing pending and no timer in hand, every timer of it is
-- stopped or over, the key is gone, and the other keys keep their debouncers.
pub current_cleanup :
    (r : Registry) (ns mid_name : String) (window max_delay now : ℕ)
    → let (r', token) = register r ns mid_name window max_delay in
      let notified = (notify_middleware r' ns mid_name now).0 in
      let (r'', removed) = unregister_if_current notified ns mid_name token in
      ((notified.debouncers token).pending ≡ true)
      × (removed ≡ true)
      × ((r''.debouncers token).pending ≡ false)
      × ((r''.debouncers token).timer ≡ none)
      × IsOver (r''.debouncers token)
      × ((k : String)
          → lookup k r''.keys ≡ (if registry_key ns mid_name == k then none else lookup k r.keys))
current_cleanup r ns mid_name w m now =
    let r' = (register r ns mid_name w m).0 in
    let token = (register r ns mid_name w m).1 in
    let key = registry_key ns mid_name in
    let own = register-lookup r ns mid_name w m in
    let held : lookup key r'.keys ≡ some token =
      ground (arith, own key, eq_refl key, token-register r ns mid_name w m) in
    let (kept, rung) = notify_middleware-own r' ns mid_name token now held in
    let notified = (notify_middleware r' ns mid_name now).0 in
    let (a, b, c) = unregister_if_current-own notified ns mid_name token (rw kept held) in
    let new = rung ∙ ap (λ d. notify d now) (debouncers-register r ns mid_name w m) in
    let over = b ∙ ap stop new in
    (
      ap (λ d. d.pending) new ∙ notified_pending w m now,
      a,
      rw over (stop-notified w m now).0,
      rw over (stop-notified w m now).1,
      rw over (stop-notified w m now).2,
      λ k. ground (arith, c k, kept, own k),
    )
