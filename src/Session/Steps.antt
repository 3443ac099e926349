-- ===== src/Session/Steps.antt =====
-- Every step of internal/service/synchronizer/sync_state.go, in any interleaving, keeps the
-- invariant.
use opensaola.Base.{
  ℕ, ◌+◌, String, eq_iff, Bool, true, false, ◌&&◌, List, [], ◌∷◌, none, some, is_none, eqb, ltb,
  update, put, ◌≡◌, inl, inr, refl, eqb_refl, Bool-cases, Option-cases, eqb→eq, arith,
}
use opensaola.Session.{
  Session, World, Pc, Event, new_session, is_stopped, holds, compare_and_delete, load_or_store, run,
  is_idle, begin, enter_release, step, start, run_all,
}
use opensaola.Session.Invariant.{Core, Holds, PcOk, Inv, Extends, PcOk-Extends, goto-Inv}
use opensaola.Session.Writes.{stay-Inv, stop-Inv, delete-Inv, cancel-Inv, close-Inv, enter-Inv}

-- A candidate is made under the next lease number, which no goroutine has in hand.
module _ (w : World) (t : ℕ) (parent : ℕ) (v : Inv w) where
  candidate : Bool → Session
  unfolding new_session
  candidate c = record (new_session parent) { cancelled = c }

  with_candidate : Bool → World
  with_candidate c = record w {
    sessions = update w.sessions w.next (candidate c);
    next = w.next + 1;
  }

  candidate-Extends : (c : Bool) → Extends t w (with_candidate c)
  unfolding with_candidate
  candidate-Extends c = record {
    grows = omega arith;
    still_stopped = λ j l e. ground (arith, eqb→eq w.next j);
    still_held = λ u j n h. ground (arith, eqb→eq w.next j);
  }

  candidate-Core : (c : Bool) → Core (with_candidate c)
  unfolding with_candidate candidate new_session
  candidate-Core c = record {
    owned = λ j k a. ground (arith, v.core.owned j k a, v.core.fresh j, eqb→eq w.next j);
    fresh = λ j l. v.core.fresh j (omega arith);
    known = λ k j r. omega (arith, v.core.known k j r);
    signals = λ j. ground (arith, v.core.signals j);
    unreleased = λ j h. ground (arith, v.core.unreleased j);
    closes = λ j. ground (arith, v.core.closes j);
  }

  stored : String → World
  stored key = record (with_candidate false) {
    registry = put w.registry key (some w.next);
    acquired = update w.acquired w.next (some key);
  }

  stored-Core : (key : String) → w.registry key ≡ none → Core (stored key)
  unfolding stored with_candidate candidate new_session
  stored-Core key e = record {
    owned = λ j k a.
        ground
          (arith, v.core.owned j k, v.core.fresh j, eqb→eq w.next j, eq_iff key k, eqb_refl w.next);
    fresh = λ j l. ground (arith, v.core.fresh j, eqb→eq w.next j);
    known = λ k j r. ground (arith, v.core.known k j, eq_iff key k);
    signals = (candidate-Core false).signals;
    unreleased = (candidate-Core false).unreleased;
    closes = (candidate-Core false).closes;
  }

  stored-Extends : (key : String) → Extends t w (stored key)
  unfolding stored with_candidate
  stored-Extends key = record {
    grows = omega arith;
    still_stopped = (candidate-Extends false).still_stopped;
    still_held = (candidate-Extends false).still_held;
  }

  load_or_store-Inv : (key : String) → Inv (load_or_store w t key parent)
  unfolding load_or_store stored with_candidate candidate
  load_or_store-Inv key = elim (Option-cases (w.registry key)) [
    | inl e ↦
        rw (e, load_or_store)
          (goto-Inv t Pc.idle v (stored-Core key e) (stored-Extends key) (λ u. refl) tt)
    | inr (i, e) ↦
        rw (e, load_or_store)
          (goto-Inv t (Pc.acquire_check key parent i) v (candidate-Core true)
            (candidate-Extends true) (λ u. refl) (omega (arith, v.core.known key i e)))
  ]

compare_and_delete-facts :
    (w : World) (key : String) (i j t : ℕ)
    → (is_stopped w j ≡ true → is_stopped (compare_and_delete w key i) j ≡ true)
      × (Holds w t j → Holds (compare_and_delete w key i) t j)
unfolding compare_and_delete
compare_and_delete-facts w key i j t = elim (Bool-cases (holds (w.registry key) i)) [
  | inl e ↦ rw e (λ h. h, λ h. h)
  | inr e ↦ rw e (λ h. h, λ h. h)
]

run-Inv : (w : World) (t : ℕ) (pc : Pc) → PcOk w t pc → Inv w → Inv (run w t pc)
unfolding run
run-Inv w t Pc.idle h v = v
run-Inv w t (Pc.acquire_start key parent) h v = load_or_store-Inv w t parent v key
run-Inv w t (Pc.acquire_check key parent i) h v = elim (Bool-cases (is_stopped w i)) [
  | inl e ↦ rw e (stay-Inv w t i v _ (h, e))
  | inr e ↦ rw e (stay-Inv w t i v _ tt)
]
run-Inv w t (Pc.acquire_delete key parent i) h v = delete-Inv w t i v key _ (ground arith) tt
run-Inv w t (Pc.stop_load key) h v = elim (Option-cases (w.registry key)) [
  | inl e ↦ rw (e, run) (stay-Inv w t 0 v _ tt)
  | inr (i, e) ↦ rw (e, run) (stay-Inv w t i v _ (v.core.known key i e))
]
run-Inv w t (Pc.stop_signal key i) h v = stop-Inv w t i v key h
run-Inv w t (Pc.stop_delete key i) h v = delete-Inv w t i v key _ (ground arith) tt
run-Inv w t (Pc.release_delete key i) h v =
    delete-Inv w t i v key _ (ground arith) ((compare_and_delete-facts w key i i t).1 h)
run-Inv w t (Pc.release_cancel i) h v = cancel-Inv w t i v h
run-Inv w t (Pc.release_close i) h v = close-Inv w t i v h
run-Inv w t (Pc.release_wait i) h v = elim (Bool-cases (eqb (w.sessions i).done_closes 0)) [
  | inl e ↦ rw e v
  | inr e ↦ rw e (stay-Inv w t i v _ tt)
]

-- An ended parent context only ever stops sessions.
module _ (w : World) (c : ℕ) where
  context : World
  context = record w { context_done = update w.context_done c true }

  context-Extends : (t : ℕ) → Extends t w context
  unfolding context
  context-Extends t = record {
    grows = omega arith;
    still_stopped = λ j l e. ground arith;
    still_held = λ u j n h. h;
  }

  context-Inv : Inv w → Inv context
  unfolding context
  context-Inv v = record {
    core = record {
      owned = λ j k a. ground (arith, v.core.owned j k a);
      fresh = v.core.fresh;
      known = v.core.known;
      signals = v.core.signals;
      unreleased = v.core.unreleased;
      closes = v.core.closes;
    };
    placed =
        λ u. PcOk-Extends u (w.pcs u) (context-Extends (u + 1)) (λ e. omega arith) (v.placed u);
  }

begin-Inv : (w : World) (t : ℕ) (pc : Pc) → PcOk w t pc → Inv w → Inv (begin w t pc)
unfolding begin
begin-Inv w t pc h v = elim (Bool-cases (is_idle (w.pcs t))) [
  | inl e ↦ rw e (stay-Inv w t 0 v pc h)
  | inr e ↦ rw e v
]

enter_release-Inv :
    (w : World) (t : ℕ) (key : String) (i : ℕ) → Inv w → Inv (enter_release w t key i)
unfolding enter_release
enter_release-Inv w t key i v = elim (Bool-cases (is_idle (w.pcs t) && ltb i w.next)) [
  | inl e ↦ elim (Bool-cases (is_none (w.sessions i).once)) [
    | inl f ↦ rw (e, f) (enter-Inv w t i v key (ground arith) (ground arith))
    | inr f ↦ rw (e, f) (stay-Inv w t i v _ tt)
  ]
  | inr e ↦ rw e v
]

-- Every event keeps the invariant.
pub step-Inv : (w : World) (e : Event) → Inv w → Inv (step w e)
unfolding step context
step-Inv w (Event.call_acquire t key parent) v = begin-Inv w t _ tt v
step-Inv w (Event.call_stop t key) v = begin-Inv w t _ tt v
step-Inv w (Event.call_release t key i) v = enter_release-Inv w t key i v
step-Inv w (Event.cancel_context c) v = context-Inv w c v
step-Inv w (Event.advance t) v = run-Inv w t (w.pcs t) (v.placed t) v

start-Inv : Inv start
unfolding start new_session
start-Inv = record {
  core = record {
    owned = λ j k a. cc;
    fresh = λ j l. refl;
    known = λ k j r. cc;
    signals = λ j. refl;
    unreleased = λ j h. refl;
    closes = λ j. omega arith;
  };
  placed = λ t. tt;
}

run_all-Inv : (w : World) (es : List Event) → Inv w → Inv (run_all w es)
unfolding run_all
run_all-Inv w [] v = v
run_all-Inv w (e ∷ es) v = run_all-Inv (step w e) es (step-Inv w e v)

-- Every world that any interleaving of calls and steps reaches satisfies the invariant.
pub reached-Inv : (es : List Event) → Inv (run_all start es)
reached-Inv es = run_all-Inv start es start-Inv
