-- ===== src/Session.antt =====
-- The registry of running SyncV2 instances: internal/service/synchronizer/sync_state.go.
-- Goroutines share `SyncCustomResourceStopChanMap`; a `World` is what they share, with the place
-- where each of them stands inside acquire, stop or release. Every call on the sync.Map, every
-- critical section of a session and every cancel or close is one step, and the steps of
-- different goroutines interleave in any order.
pub mod Invariant
pub mod Writes
pub mod Steps
pub mod Exclusion
pub mod Returns
use opensaola.Base.{
  ℕ, ◌+◌, String, Bool, true, false, ◌||◌, ◌&&◌, List, [], ◌∷◌, Option, none, some, is_none,
  is_some, eqb, ltb, update, put, if◌then◌else◌,
}

-- syncCustomResourceSession. `parent` is the context that `context.WithCancel` was given;
-- `once` is the goroutine that entered `releaseOnce`; the counts say how often a channel was
-- closed, which must not happen twice.
pub record Session : Type 0 where
  pub parent : ℕ
  pub cancelled : Bool
  pub stopped : Bool
  pub once : Option ℕ
  pub stop_closes : ℕ
  pub done_closes : ℕ

-- newSyncCustomResourceSession
unfoldable pub new_session : ℕ → Session
new_session parent = record {
  parent = parent;
  cancelled = false;
  stopped = false;
  once = none;
  stop_closes = 0;
  done_closes = 0;
}

-- Where a goroutine stands: the key of its call and the session that it has in hand.
pub data Pc : Type 0 where
  idle : Pc
  acquire_start : String → ℕ → Pc
  acquire_check : String → ℕ → ℕ → Pc
  acquire_delete : String → ℕ → ℕ → Pc
  stop_load : String → Pc
  stop_signal : String → ℕ → Pc
  stop_delete : String → ℕ → Pc
  release_delete : String → ℕ → Pc
  release_cancel : ℕ → Pc
  release_close release_wait : ℕ → Pc

-- `next` is the lease counter, so sessions are numbered in the order in which they are made;
-- `acquired i` is the key for which acquire has returned session `i` as the caller's own.
pub record World : Type 0 where
  pub sessions : ℕ → Session
  pub registry : String → Option ℕ
  pub next : ℕ
  pub context_done : ℕ → Bool
  pub acquired : ℕ → Option String
  pub pcs : ℕ → Pc

-- s.stopped || s.ctx.Err() != nil
abbrev pub is_stopped : World → ℕ → Bool
is_stopped w i = let s = w.sessions i in s.stopped || (s.cancelled || w.context_done s.parent)

abbrev goto : World → ℕ → Pc → World
goto w t pc = record w { pcs = update w.pcs t pc }

abbrev write : World → ℕ → Session → World
write w i s = record w { sessions = update w.sessions i s }

-- SyncCustomResourceStopChanMap.CompareAndDelete(key, session)
abbrev holds : Option ℕ → ℕ → Bool
holds none i = false
holds (some j) i = eqb j i

pub compare_and_delete : World → String → ℕ → World
compare_and_delete w key i =
    if holds (w.registry key) i then record w { registry = put w.registry key none } else w

-- The critical section of `stop`.
pub stop : World → ℕ → World
stop w i =
    let s = w.sessions i in
    if s.stopped
    then w
    else write w i (record s { stopped = true; cancelled = true; stop_closes = s.stop_closes + 1 })

pub cancel : World → ℕ → World
cancel w i = write w i (record (w.sessions i) { cancelled = true })

pub close_done : World → ℕ → World
close_done w i = write w i (record (w.sessions i) { done_closes = (w.sessions i).done_closes + 1 })

-- candidate := new...; LoadOrStore(key, candidate): the candidate is stored and returned, or it
-- is cancelled and the stored session is inspected next.
load_or_store : World → ℕ → String → ℕ → World
unfolding new_session
load_or_store w t key parent = elim (w.registry key) [
  | none ↦ record w {
    sessions = update w.sessions w.next (new_session parent);
    registry = put w.registry key (some w.next);
    next = w.next + 1;
    acquired = update w.acquired w.next (some key);
    pcs = update w.pcs t idle;
  }
  | some i ↦ record w {
    sessions = update w.sessions w.next (record (new_session parent) { cancelled = true });
    next = w.next + 1;
    pcs = update w.pcs t (acquire_check key parent i);
  }
]

-- One step of goroutine `t`.
run : World → ℕ → Pc → World
unfolding compare_and_delete stop cancel close_done load_or_store
run w t idle = w
run w t (acquire_start key parent) = load_or_store w t key parent
run w t (acquire_check key parent i) =
    goto w t (if is_stopped w i then acquire_delete key parent i else idle)
run w t (acquire_delete key parent i) =
    goto (compare_and_delete w key i) t (acquire_start key parent)
run w t (stop_load key) = elim (w.registry key) [
  | none ↦ goto w t idle
  | some i ↦ goto w t (stop_signal key i)
]
run w t (stop_signal key i) = goto (stop w i) t (stop_delete key i)
run w t (stop_delete key i) = goto (compare_and_delete w key i) t idle
run w t (release_delete key i) = goto (compare_and_delete w key i) t (release_cancel i)
run w t (release_cancel i) = goto (cancel w i) t (release_close i)
run w t (release_close i) = goto (close_done w i) t idle
run w t (release_wait i) = if eqb (w.sessions i).done_closes 0 then w else goto w t idle

abbrev is_idle : Pc → Bool
is_idle idle = true
is_idle _ = false

-- What the environment does: an idle goroutine makes a call, a parent context ends, or a
-- goroutine takes its next step. `StopAllSyncCustomResources` makes the steps of `call_stop` at
-- each key that its Range visits.
pub data Event : Type 0 where
  call_acquire : ℕ → String → ℕ → Event
  call_stop : ℕ → String → Event
  call_release : ℕ → String → ℕ → Event
  cancel_context : ℕ → Event
  advance : ℕ → Event

begin : World → ℕ → Pc → World
begin w t pc = if is_idle (w.pcs t) then goto w t pc else w

-- `releaseOnce.Do`: the first caller runs the body, whose last statement closes `done`; any other
-- caller waits until the body has finished.
enter_release : World → ℕ → String → ℕ → World
enter_release w t key i =
    let s = w.sessions i in
    if is_idle (w.pcs t) && ltb i w.next
    then if is_none s.once
      then goto (write w i (record s { once = some t })) t (release_delete key i)
      else goto w t (release_wait i)
    else w

unfoldable pub step : World → Event → World
unfolding run begin enter_release
step w (call_acquire t key parent) = begin w t (acquire_start key parent)
step w (call_stop t key) = begin w t (stop_load key)
step w (call_release t key i) = enter_release w t key i
step w (cancel_context c) = record w { context_done = update w.context_done c true }
step w (advance t) = run w t (w.pcs t)

unfoldable pub start : World
start = record {
  sessions = λ i. new_session 0;
  registry = λ key. none;
  next = 0;
  context_done = λ c. false;
  acquired = λ i. none;
  pcs = λ t. idle;
}

unfoldable pub run_all : World → List Event → World
run_all w [] = w
run_all w (e ∷ es) = run_all (step w e) es
