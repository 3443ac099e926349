-- ===== src/Debounce/Timers.antt =====
-- Which timers are pending, what a notification leads to, and how often triggers are forced
-- (internal/service/synchronizer/debouncer.go).
use opensaola.Base.{
  ℕ, suc, ◌+◌, ◌*◌, ◌≤◌, Bool, true, false, List, [], ◌∷◌, none, some, leb, eqb→eq, eqb_refl, ◌≡◌,
  ◌⊎◌, inl, inr, refl, ◌∙◌, Bool-cases, Option-cases, arith,
}
use opensaola.Debounce.{
  Timer, Debouncer, Event, armed, started, on_notify, on_stop, on_expire, on_callback,
  new_debouncer, overdue, notify, stop, expire, expire_timer, callback, is_started, step, run,
}

-- A timer whose function has yet to run, and starts by `bound` at the latest.
abbrev pub is_live : Timer → ℕ → Bool
is_live (armed deadline) bound = leb deadline bound
is_live started bound = true
is_live _ bound = false

-- `pending` says exactly that there is a timer in hand, and that timer is live.
pub record Inv (d : Debouncer) (now : ℕ) : Type 0 where
  pub idle : d.pending ≡ false → d.timer ≡ none
  pub busy :
      d.pending ≡ true
      → (i : ℕ) × (d.timer ≡ some i) × (is_live (d.timers i) (now + d.window) ≡ true)
  pub past : d.last_fire ≤ now

notify-Inv : (d : Debouncer) (now : ℕ) → Inv d now → Inv (notify d now) now
unfolding notify
notify-Inv d now v = elim (Bool-cases (overdue d now)) [
  | inl e ↦ rw e (elim (Option-cases d.timer) [
    | inl n ↦ record { idle = λ h. ground arith; busy = λ h. ground arith; past = omega arith }
    | inr (i, n) ↦ record { idle = λ h. ground arith; busy = λ h. ground arith; past = omega arith }
  ])
  | inr e ↦ rw e (elim (Bool-cases d.pending) [
    | inl p ↦ simp p v
    | inr p ↦ simp p (record {
      idle = λ h. cc;
      busy = λ h. (d.made, refl, ground (arith, eqb_refl d.made));
      past = v.past;
    })
  ])
]

stop-Inv : (d : Debouncer) (now : ℕ) → Inv d now → Inv (stop d) now
unfolding stop
stop-Inv d now v = elim (Option-cases d.timer) [
  | inl n ↦ record { idle = λ h. ground arith; busy = λ h. cc; past = ground (arith, v.past) }
  | inr (i, n) ↦ record { idle = λ h. ground arith; busy = λ h. cc; past = ground (arith, v.past) }
]

expire-Inv : (d : Debouncer) (i now : ℕ) → Inv d now → Inv (expire d i now) now
unfolding expire
expire-Inv d i now v = record {
  idle = v.idle;
  busy = λ h. let (j, e, l) = v.busy h in (j, e, ground (arith, eqb→eq i j));
  past = v.past;
}

callback-Inv : (d : Debouncer) (i now : ℕ) → Inv d now → Inv (callback d i now) now
unfolding callback
callback-Inv d i now v = elim (Bool-cases (is_started (d.timers i))) [
  | inl e ↦ rw e (record { idle = λ h. refl; busy = λ h. cc; past = omega arith })
  | inr e ↦ rw e v
]

later-Inv : (d : Debouncer) (now dt : ℕ) → Inv d now → Inv d (now + dt)
later-Inv d now dt v = record {
  idle = v.idle;
  busy = λ h. let (j, e, l) = v.busy h in (j, e, ground arith);
  past = omega (arith, v.past);
}

step-Inv : (d : Debouncer) (e : Event) (now : ℕ) → Inv d now → Inv (step d e now) now
unfolding step
step-Inv d on_notify now v = notify-Inv d now v
step-Inv d on_stop now v = stop-Inv d now v
step-Inv d (on_expire i) now v = expire-Inv d i now v
step-Inv d (on_callback i) now v = callback-Inv d i now v

run-Inv :
    (d : Debouncer) (now : ℕ) (es : List (ℕ × Event))
    → Inv d now
    → Inv (run d now es).0 (run d now es).1
unfolding run
run-Inv d now [] v = v
run-Inv d now ((dt, e) ∷ es) v =
    run-Inv (step d e (now + dt)) (now + dt) es (step-Inv d e (now + dt) (later-Inv d now dt v))

-- After any history of a new debouncer, `pending` holds exactly while a timer is in hand that is
-- armed, to fire within the window, or whose function has started.
pub history-Inv :
    (window max_delay now : ℕ) (es : List (ℕ × Event))
    → Inv
        (run (new_debouncer window max_delay) now es).0
        (run (new_debouncer window max_delay) now es).1
unfolding new_debouncer
history-Inv window max_delay now es =
    run-Inv (new_debouncer window max_delay) now es
      (record { idle = λ h. refl; busy = λ h. cc; past = omega arith })

expired :
    (t : Timer) (bound later : ℕ)
    → is_live t bound ≡ true
    → bound ≤ later
    → is_started (expire_timer later t) ≡ true
expired (armed deadline) bound later l h = ground arith
expired started bound later l h = refl
expired _ bound later l h = cc

live-callback :
    (d : Debouncer) (i bound later : ℕ)
    → is_live (d.timers i) bound ≡ true
    → bound ≤ later
    → (callback (expire d i later) i later).triggers ≡ suc d.triggers
unfolding callback expire
live-callback d i bound later l h =
    simp (eqb_refl, expired (d.timers i) bound later l h) (omega arith)

-- In a state that satisfies the timer invariant, a notification triggers at once, or leaves a
-- timer in hand that triggers when its function runs at any time from the end of the window on.
pub notify_covered :
    (d : Debouncer) (now : ℕ)
    → Inv d now
    → ((notify d now).triggers ≡ suc d.triggers)
      ⊎ ((i : ℕ) × ((notify d now).timer ≡ some i)
          × ((later : ℕ)
              → now + d.window ≤ later
              → (callback (expire (notify d now) i later) i later).triggers ≡ suc d.triggers))
unfolding notify
notify_covered d now v = elim (Bool-cases (overdue d now)) [
  | inl e ↦ inl (ground arith)
  | inr e ↦ inr (
      let v' = notify-Inv d now v in
      let (i, t, l) = v'.busy (ground arith) in
      (
        i,
        t,
        λ later h.
            live-callback (notify d now) i (now + d.window) later (ground arith) h ∙ ground arith,
      ))
]

-- Histories of notifications alone, with the time that passes before each.
abbrev pub notify_all : Debouncer → ℕ → List ℕ → Debouncer × ℕ
notify_all d now [] = (d, now)
notify_all d now (dt ∷ ts) = notify_all (notify d (now + dt)) (now + dt) ts

module _ (d : Debouncer) (now : ℕ) where
  notify-overdue :
      overdue d now ≡ true
      → ((notify d now).triggers ≡ d.triggers + 1)
        × ((notify d now).last_fire ≡ now)
        × ((notify d now).max_delay ≡ d.max_delay)
  unfolding notify
  notify-overdue e = ground arith

  notify-quiet :
      overdue d now ≡ false
      → ((notify d now).triggers ≡ d.triggers)
        × ((notify d now).last_fire ≡ d.last_fire)
        × ((notify d now).max_delay ≡ d.max_delay)
  unfolding notify
  notify-quiet e = ground arith

  overdue-late : overdue d now ≡ true → d.last_fire ≤ now → d.max_delay + d.last_fire ≤ now
  overdue-late e h = ground arith

  forced_step :
      d.last_fire ≤ now
      → ((notify d now).triggers * d.max_delay + d.last_fire
          ≤ d.triggers * d.max_delay + (notify d now).last_fire)
        × ((notify d now).last_fire ≤ now)
        × ((notify d now).max_delay ≡ d.max_delay)
  forced_step h = elim (Bool-cases (overdue d now)) [
    | inl e ↦
        let (t, f, m) = notify-overdue e in
        let late = overdue-late e h in (rw (t, f) (omega arith), omega arith, m)
    | inr e ↦ let (t, f, m) = notify-quiet e in (rw (t, f) (omega arith), omega arith, m)
  ]

forced_all :
    (d : Debouncer) (now : ℕ) (ts : List ℕ)
    → d.last_fire ≤ now
    → (notify_all d now ts).0.triggers * d.max_delay + d.last_fire
      ≤ d.triggers * d.max_delay + (notify_all d now ts).1
unfolding notify
forced_all d now [] h = omega arith
forced_all d now (dt ∷ ts) h =
    let (t, f, m) = forced_step d (now + dt) (omega arith) in
    let ih = forced_all (notify d (now + dt)) (now + dt) ts f in omega (arith, rw m at ih)

-- However fast notifications come, those that trigger at once are `max_delay` apart: over a
-- history of notifications alone, from a state that satisfies the timer invariant, their number
-- times `max_delay` is at most the time since the last trigger before it.
pub forced_rate :
    (d : Debouncer) (now : ℕ) (ts : List ℕ)
    → Inv d now
    → (notify_all d now ts).0.triggers * d.max_delay + d.last_fire
      ≤ d.triggers * d.max_delay + (notify_all d now ts).1
forced_rate d now ts v = forced_all d now ts v.past
