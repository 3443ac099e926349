-- ===== src/Debounce/Registry.antt =====
-- NsDebounceRegistry (internal/service/synchronizer/debouncer.go). A `*Debouncer` is its number;
-- each method runs under the registry's lock, so it is one step. The package-level functions call
-- the same methods on the one global registry.
pub mod Ownership
use Prim.Native.String.{len, ◌++◌ as ◌⁀◌}
use text.Mathlib.Text.{starts_with}
use opensaola.Base.{
  ℕ, ◌+◌, String, ◌==◌, Bool, true, false, ◌&&◌, List, [], ◌∷◌, Option, none, some, eqb, ltb,
  update, if◌then◌else◌, Dict, lookup, insert, delete,
}
use opensaola.Debounce.{Debouncer, new_debouncer, notify, stop}

pub record Registry : Type 0 where
  pub debouncers : ℕ → Debouncer
  pub made : ℕ
  pub keys : Dict ℕ

-- registryKey
unfoldable pub registry_key : String → String → String
registry_key ns mid_name = ◌⁀◌ ns (◌⁀◌ "/" mid_name)

abbrev stop_at : (ℕ → Debouncer) → ℕ → ℕ → Debouncer
stop_at ds i = update ds i (stop (ds i))

-- The new registry, and the pointer that is returned as the ownership token.
unfoldable pub register : Registry → String → String → ℕ → ℕ → Registry × ℕ
register r ns mid_name window max_delay =
    let key = registry_key ns mid_name in
    let made = update r.debouncers r.made (new_debouncer window max_delay) in
    (
      record {
        debouncers = elim (lookup key r.keys) [
          | none ↦ made
          | some existing ↦ stop_at made existing
        ];
        made = r.made + 1;
        keys = insert key r.made r.keys;
      },
      r.made,
    )

unfoldable pub unregister : Registry → String → String → Registry
unregister r ns mid_name =
    let key = registry_key ns mid_name in
    elim (lookup key r.keys) [
      | none ↦ r
      | some i ↦ record r { debouncers = stop_at r.debouncers i; keys = delete key r.keys }
    ]

unfoldable pub unregister_if_current : Registry → String → String → ℕ → Registry × Bool
unregister_if_current r ns mid_name want =
    let key = registry_key ns mid_name in
    elim (lookup key r.keys) [
      | none ↦ (r, false)
      | some current ↦
          if eqb current want
          then (
            record r { debouncers = stop_at r.debouncers current; keys = delete key r.keys },
            true,
          )
          else (r, false)
    ]

-- len(key) > len(prefix) && key[:len(prefix)] == prefix
abbrev pub in_namespace : String → String → Bool
in_namespace ns key =
    let prefix = ◌⁀◌ ns "/" in ltb (len prefix) (len key) && starts_with key prefix

notify_keys : String → Dict ℕ → ℕ → (ℕ → Debouncer) → ℕ → Debouncer
notify_keys ns [] now ds = ds
notify_keys ns ((key, i) ∷ keys) now ds =
    notify_keys ns keys now (if in_namespace ns key then update ds i (notify (ds i) now) else ds)

unfoldable pub notify_namespace : Registry → String → ℕ → Registry
unfolding notify_keys
notify_namespace r ns now = record r { debouncers = notify_keys ns r.keys now r.debouncers }

unfoldable pub notify_middleware : Registry → String → String → ℕ → Registry × Bool
notify_middleware r ns mid_name now = elim (lookup (registry_key ns mid_name) r.keys) [
  | none ↦ (r, false)
  | some i ↦ (record r { debouncers = update r.debouncers i (notify (r.debouncers i) now) }, true)
]

stop_keys : Dict ℕ → (ℕ → Debouncer) → ℕ → Debouncer
stop_keys [] ds = ds
stop_keys ((key, i) ∷ keys) ds = stop_keys keys (stop_at ds i)

unfoldable pub stop_all : Registry → Registry
unfolding stop_keys
stop_all r = record r { debouncers = stop_keys r.keys r.debouncers; keys = [] }
