-- ===== src/Examples/Debouncers.antt =====
-- A debouncer with a window of 200 and a ceiling of 5000, and its registry.
use opensaola.Base.{
  ℕ, suc, ◌+◌, ◌*◌, ◌≤◌, String, ◌==◌, true, false, List, [], ◌∷◌, none, some, lookup, ◌≡◌, ◌⊎◌,
  refl, if◌then◌else◌, arith,
}
use opensaola.Debounce.{
  Debouncer, Event, started, on_notify, on_expire, on_callback, new_debouncer, notify, stop, expire,
  callback, step, run,
}
use opensaola.Debounce.Timers.{Inv, history-Inv, notify_covered, notify_all, forced_rate}
use opensaola.Debounce.Stop.{IsOver, IsQuiet, stop_silences}
use opensaola.Debounce.Registry.{
  Registry, register, unregister_if_current, notify_middleware, registry_key,
}
use opensaola.Debounce.Registry.Ownership.{stale_cleanup, current_cleanup}

-- Two notifications in one window, the expiry, and the function.
abbrev burst : List (ℕ × Event)
burst = (0, on_notify) ∷ (50, on_notify) ∷ (150, on_expire 0) ∷ (1, on_callback 0) ∷ []

burst_coalesced :
    ((run (new_debouncer 200 5000) 1000 burst).0.triggers ≡ 1)
    × ((run (new_debouncer 200 5000) 1000 burst).1 ≡ 1201)
unfolding run step new_debouncer
burst_coalesced = (refl, refl)

history-Inv_example :
    Inv (run (new_debouncer 200 5000) 1000 burst).0 (run (new_debouncer 200 5000) 1000 burst).1
history-Inv_example = history-Inv 200 5000 1000 burst

notify_covered_example :
    let d = (run (new_debouncer 200 5000) 1000 burst).0 in
    let now = (run (new_debouncer 200 5000) 1000 burst).1 in
    ((notify d now).triggers ≡ suc d.triggers)
    ⊎ ((i : ℕ) × ((notify d now).timer ≡ some i)
        × ((later : ℕ)
            → now + d.window ≤ later
            → (callback (expire (notify d now) i later) i later).triggers ≡ suc d.triggers))
notify_covered_example =
    notify_covered (run (new_debouncer 200 5000) 1000 burst).0
      (run (new_debouncer 200 5000) 1000 burst).1 history-Inv_example

forced_rate_example :
    let d = (run (new_debouncer 200 5000) 1000 burst).0 in
    let now = (run (new_debouncer 200 5000) 1000 burst).1 in
    (notify_all d now (6000 ∷ 1000 ∷ 5000 ∷ [])).0.triggers * d.max_delay + d.last_fire
    ≤ d.triggers * d.max_delay + (notify_all d now (6000 ∷ 1000 ∷ 5000 ∷ [])).1
forced_rate_example =
    forced_rate (run (new_debouncer 200 5000) 1000 burst).0
      (run (new_debouncer 200 5000) 1000 burst).1 (6000 ∷ 1000 ∷ 5000 ∷ []) history-Inv_example

-- A debouncer with one armed timer, and one whose timer has started.
abbrev waiting : Debouncer
waiting = notify (new_debouncer 200 5000) 1000

waiting-IsQuiet : IsQuiet waiting
unfolding notify new_debouncer
waiting-IsQuiet i = ground arith

stop_silences_example :
    (run (stop waiting) 1100 ((100, on_expire 0) ∷ (5, on_callback 0) ∷ [])).0.triggers
    ≡ waiting.triggers
stop_silences_example =
    stop_silences waiting 1100 ((100, on_expire 0) ∷ (5, on_callback 0) ∷ []) waiting-IsQuiet
      (refl, (refl, tt))

abbrev late : Debouncer
late = expire waiting 0 1300

late_started : late.timers 0 ≡ started
unfolding expire notify new_debouncer
late_started = refl

abbrev nothing : Registry
nothing = record { debouncers = λ i. new_debouncer 200 5000; made = 0; keys = [] }

stale_cleanup_example :
    let (r', token) = register nothing "prod" "redis" 200 5000 in
    let r'' = (register r' "prod" "redis" 200 5000).0 in
    unregister_if_current r'' "prod" "redis" token ≡ (r'', false)
stale_cleanup_example = stale_cleanup nothing "prod" "redis" 200 5000 200 5000

current_cleanup_example :
    let (r', token) = register nothing "prod" "redis" 200 5000 in
    let notified = (notify_middleware r' "prod" "redis" 1000).0 in
    let (r'', removed) = unregister_if_current notified "prod" "redis" token in
    ((notified.debouncers token).pending ≡ true)
    × (removed ≡ true)
    × ((r''.debouncers token).pending ≡ false)
    × ((r''.debouncers token).timer ≡ none)
    × IsOver (r''.debouncers token)
    × ((k : String)
        → lookup k r''.keys
          ≡ (if registry_key "prod" "redis" == k then none else lookup k nothing.keys))
current_cleanup_example = current_cleanup nothing "prod" "redis" 200 5000 1000
