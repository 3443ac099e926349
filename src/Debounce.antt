-- ===== src/Debounce.antt =====
-- The debouncer of informer events: internal/service/synchronizer/debouncer.go. Times and
-- durations are in nanoseconds, and 0 is Go's zero time, which no running clock shows.
pub mod Timers
pub mod Stop
pub mod Registry
use opensaola.Base.{
  ℕ, ◌+◌, ◌-◌, ◌*◌, Bool, true, false, not, ◌&&◌, List, [], ◌∷◌, Option, none, some, eqb, leb,
  update, if◌then◌else◌,
}

-- debounceWindow and debounceMaxDelay: the configured milliseconds, here `none` where they are
-- not positive.
unfoldable pub debounce_window : Option ℕ → ℕ
debounce_window none = 200 * 1000000
debounce_window (some ms) = ms * 1000000

unfoldable pub debounce_max_delay : Option ℕ → ℕ
debounce_max_delay none = 5000 * 1000000
debounce_max_delay (some ms) = ms * 1000000

-- A `*time.Timer` of AfterFunc, as the time package documents it: it is armed until it expires or
-- is stopped; once it has expired its function runs in a goroutine of its own, which `Stop` does
-- not hold back. `started` is that goroutine before it has taken the debouncer's lock.
pub data Timer : Type 0 where
  armed : ℕ → Timer
  started stopped finished : Timer

-- `timers` are those that the debouncer has made, by number; `triggers` counts the calls of
-- `triggerFn`.
pub record Debouncer : Type 0 where
  pub window : ℕ
  pub max_delay : ℕ
  pub pending : Bool
  pub timer : Option ℕ
  pub last_fire : ℕ
  pub timers : ℕ → Timer
  pub made : ℕ
  pub triggers : ℕ

unfoldable pub new_debouncer : ℕ → ℕ → Debouncer
new_debouncer window max_delay = record {
  window = window;
  max_delay = max_delay;
  pending = false;
  timer = none;
  last_fire = 0;
  timers = λ i. finished;
  made = 0;
  triggers = 0;
}

-- (*time.Timer).Stop
stop_timer : Timer → Timer
stop_timer (armed deadline) = stopped
stop_timer t = t

-- `if d.timer != nil { d.timer.Stop(); d.timer = nil }`
cancel_timer : Debouncer → Debouncer
unfolding stop_timer
cancel_timer d = elim d.timer [
  | none ↦ d
  | some i ↦ record d { timer = none; timers = update d.timers i (stop_timer (d.timers i)) }
]

-- !d.lastFire.IsZero() && time.Since(d.lastFire) >= d.maxDelay
abbrev pub overdue : Debouncer → ℕ → Bool
overdue d now = not (eqb d.last_fire 0) && leb d.max_delay (now - d.last_fire)

abbrev fired : Debouncer → ℕ → Debouncer
fired d now = record d { pending = false; last_fire = now; triggers = d.triggers + 1 }

arm : Debouncer → ℕ → Debouncer
arm d now = record d {
  pending = true;
  timer = some d.made;
  timers = update d.timers d.made (armed (now + d.window));
  made = d.made + 1;
}

unfoldable pub notify : Debouncer → ℕ → Debouncer
unfolding cancel_timer arm
notify d now =
    if overdue d now then fired (cancel_timer d) now else if d.pending then d else arm d now

unfoldable pub stop : Debouncer → Debouncer
unfolding cancel_timer
stop d = record (cancel_timer d) { pending = false }

-- The runtime starts the function of timer `i` once its deadline has passed.
abbrev expire_timer : ℕ → Timer → Timer
expire_timer now (armed deadline) = if leb deadline now then started else armed deadline
expire_timer now t = t

unfoldable pub expire : Debouncer → ℕ → ℕ → Debouncer
expire d i now = record d { timers = update d.timers i (expire_timer now (d.timers i)) }

abbrev is_started : Timer → Bool
is_started started = true
is_started t = false

-- The function handed to AfterFunc, from its lock to the call of `triggerFn`.
unfoldable pub callback : Debouncer → ℕ → ℕ → Debouncer
callback d i now =
    if is_started (d.timers i)
    then record d {
      pending = false;
      timer = none;
      last_fire = now;
      timers = update d.timers i finished;
      triggers = d.triggers + 1;
    }
    else d

-- What happens to one debouncer, at a time: the calls, and the runtime's part.
pub data Event : Type 0 where
  on_notify on_stop : Event
  on_expire on_callback : ℕ → Event

unfoldable pub step : Debouncer → Event → ℕ → Debouncer
unfolding notify stop expire callback
step d on_notify now = notify d now
step d on_stop now = stop d
step d (on_expire i) now = expire d i now
step d (on_callback i) now = callback d i now

-- A history: events, each with the time that passes before it.
unfoldable pub run : Debouncer → ℕ → List (ℕ × Event) → Debouncer × ℕ
run d now [] = (d, now)
run d now ((dt, e) ∷ es) = run (step d e (now + dt)) (now + dt) es
