-- ===== src/Debounce/Stop.antt =====
-- What Stop of a debouncer prevents, and what it does not
-- (internal/service/synchronizer/debouncer.go).
use opensaola.Base.{
  ℕ, suc, ◌+◌, Bool, true, false, not, ◌||◌, ◌&&◌, List, [], ◌∷◌, Option, none, some, eqb, ◌≡◌,
  refl, ◌∙◌, All, arith,
}
use opensaola.Debounce.{
  Timer, Debouncer, Event, started, stopped, finished, on_expire, on_callback, stop, expire,
  callback, is_started, step, run,
}

-- A timer that was stopped, or whose function has run.
abbrev pub is_over : Timer → Bool
is_over stopped = true
is_over finished = true
is_over _ = false

abbrev is_hand : Option ℕ → ℕ → Bool
is_hand none i = false
is_hand (some j) i = eqb j i

-- Every timer is over but the one in hand, and that one has not started.
abbrev pub IsQuiet : Debouncer → Type 0
IsQuiet d =
    (i : ℕ) → (is_over (d.timers i) || (is_hand d.timer i && not (is_started (d.timers i)))) ≡ true

abbrev pub IsOver : Debouncer → Type 0
IsOver d = (i : ℕ) → is_over (d.timers i) ≡ true

stop-IsOver : (d : Debouncer) → IsQuiet d → IsOver (stop d)
unfolding stop
stop-IsOver d q i = ground (arith, q i)

-- What the runtime does by itself.
abbrev pub is_runtime : Event → Bool
is_runtime (on_expire i) = true
is_runtime (on_callback i) = true
is_runtime _ = false

runtime_silent :
    (d : Debouncer) (e : Event) (now : ℕ)
    → IsOver d
    → is_runtime e ≡ true
    → IsOver (step d e now) × ((step d e now).triggers ≡ d.triggers)
unfolding step expire callback
runtime_silent d (on_expire i) now o r = (λ j. ground (arith, o i, o j), refl)
runtime_silent d (on_callback i) now o r = (λ j. ground (arith, o i, o j), ground (arith, o i))
runtime_silent d _ now o r = cc

run_silent :
    (d : Debouncer) (now : ℕ) (es : List (ℕ × Event))
    → IsOver d
    → All (λ e. is_runtime e.1 ≡ true) es
    → (run d now es).0.triggers ≡ d.triggers
unfolding run
run_silent d now [] o r = refl
run_silent d now ((dt, e) ∷ es) o r =
    let (o', t) = runtime_silent d e (now + dt) o r.0 in
    run_silent (step d e (now + dt)) (now + dt) es o' r.1 ∙ t

stop-triggers : (d : Debouncer) → (stop d).triggers ≡ d.triggers
unfolding stop
stop-triggers d = ground arith

-- Stop silences a debouncer whose timers are over, but for one in hand that has not started:
-- until the next notification nothing that the runtime does, and at any time, triggers.
pub stop_silences :
    (d : Debouncer) (now : ℕ) (es : List (ℕ × Event))
    → IsQuiet d
    → All (λ e. is_runtime e.1 ≡ true) es
    → (run (stop d) now es).0.triggers ≡ d.triggers
stop_silences d now es q r = run_silent (stop d) now es (stop-IsOver d q) r ∙ stop-triggers d

-- A timer whose function has started before Stop takes the lock triggers after Stop all the same,
-- in any debouncer.
pub stop_misses_started :
    (d : Debouncer) (i now : ℕ)
    → d.timers i ≡ started
    → (callback (stop d) i now).triggers ≡ suc d.triggers
unfolding stop callback
stop_misses_started d i now e = ground arith
