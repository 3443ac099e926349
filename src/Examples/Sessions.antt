-- ===== src/Examples/Sessions.antt =====
-- Two goroutines on one key, a stop in between.
use opensaola.Base.{ℕ, ◌≤◌, false, List, [], ◌∷◌, none, some, ◌≡◌, refl, arith, if◌then◌else◌}
use opensaola.Session.{
  World, Event, release_wait, idle, call_acquire, call_stop, call_release, advance, start,
  new_session, step, run_all,
}
use opensaola.Session.Invariant.{is_gone}
use opensaola.Session.Returns.{alone, CanFinish, alone-returns}
use opensaola.Session.Exclusion.{acquired_exclusive, closes_once}

-- Goroutine 1 acquires, goroutine 2 stops the session and goroutine 3 acquires a new one while
-- the old session is being released.
abbrev handover : List Event
handover =
    call_acquire 1 "gvk/ns/redis" 0
    ∷ advance 1
    ∷ call_stop 2 "gvk/ns/redis"
    ∷ advance 2
    ∷ advance 2
    ∷ call_acquire 3 "gvk/ns/redis" 0
    ∷ advance 3
    ∷ advance 3
    ∷ call_release 1 "gvk/ns/redis" 0
    ∷ advance 1
    ∷ advance 3
    ∷ advance 2
    ∷ advance 3
    ∷ []

replaced :
    ((run_all start handover).acquired 2 ≡ some "gvk/ns/redis")
    × (is_gone (run_all start handover) 2 ≡ false)
unfolding run_all step start new_session
replaced = (refl, refl)

acquired_exclusive_example : ◌≡◌ {A = ℕ} 2 2
acquired_exclusive_example =
    acquired_exclusive handover 2 2 "gvk/ns/redis" replaced.0 replaced.0 replaced.1 replaced.1

closes_once_example :
    let s = (run_all start handover).sessions 0 in
    (s.stop_closes ≡ (if s.stopped then 1 else 0))
    × (s.done_closes ≤ 1)
    × (s.once ≡ none → s.done_closes ≡ 0)
closes_once_example = closes_once handover 0

-- Goroutine 3 enters a release while that of goroutine 2 runs, and steps after it has finished.
abbrev second_release : World
second_release = run_all start (
    call_acquire 1 "gvk/ns/redis" 0
    ∷ advance 1
    ∷ call_release 2 "gvk/ns/redis" 0
    ∷ call_release 3 "gvk/ns/redis" 0
    ∷ advance 2
    ∷ advance 3
    ∷ advance 2
    ∷ advance 2
    ∷ [])

second_waits : second_release.pcs 3 ≡ release_wait 0
unfolding run_all start step new_session
second_waits = refl

second_release_ends : CanFinish second_release (second_release.pcs 3)
unfolding run_all start step new_session
second_release_ends = ground arith

alone-returns_example : (alone second_release 3 6).pcs 3 ≡ idle
alone-returns_example = alone-returns second_release 3 second_release_ends
