-- ===== src/Session/Returns.antt =====
-- How many steps a call makes when no other goroutine steps: the loop of acquire, stop and release
-- (internal/service/synchronizer/sync_state.go).
use opensaola.Base.{
  ℕ, zero, suc, String, none, some, eqb, eqb_refl, ◌≤◌, arith, eq_refl, ◌≡◌, refl, ap, ◌∙◌, inl,
  inr, Bool-cases, Option-cases,
}
use opensaola.Session.{World, Pc, Event, is_stopped, compare_and_delete, load_or_store, run, step}

-- Steps of one goroutine and of no other.
unfoldable pub alone : World → ℕ → ℕ → World
alone w t zero = w
alone w t (suc n) = alone (step w (Event.advance t)) t n

-- A release that waits for another can finish once that one has closed the session's channel.
abbrev pub CanFinish : World → Pc → Type 0
CanFinish w (Pc.release_wait i) = 1 ≤ (w.sessions i).done_closes
CanFinish w pc = Unit

module _ (t : ℕ) where
  step-run : (w : World) (pc : Pc) → w.pcs t ≡ pc → step w (Event.advance t) ≡ run w t pc
  unfolding step
  step-run w pc e = ap (run w t) e

  idle_stays : (w : World) (n : ℕ) → w.pcs t ≡ Pc.idle → (alone w t n).pcs t ≡ Pc.idle
  unfolding alone run
  idle_stays w zero e = e
  idle_stays w (suc n) e =
      idle_stays (step w (Event.advance t)) n (ap (λ x. x.pcs t) (step-run w Pc.idle e) ∙ e)

  -- One step, then `n` more.
  then_alone :
      (w : World) (pc : Pc) (n : ℕ)
      → w.pcs t ≡ pc
      → (alone (run w t pc) t n).pcs t ≡ Pc.idle
      → (alone w t (suc n)).pcs t ≡ Pc.idle
  unfolding alone
  then_alone w pc n e h = ap (λ x. (alone x t n).pcs t) (step-run w pc e) ∙ h

  -- The key is free: the candidate is stored.
  free_returns :
      (w : World) (key : String) (parent n : ℕ)
      → w.pcs t ≡ Pc.acquire_start key parent
      → w.registry key ≡ none
      → (alone w t (suc n)).pcs t ≡ Pc.idle
  unfolding run load_or_store
  free_returns w key parent n e r =
      then_alone w _ n e (idle_stays _ n (rw (r, load_or_store, eqb_refl t) refl))

  -- The session in hand is the one that is registered: it is deleted, and then the key is free.
  delete_returns :
      (w : World) (key : String) (parent i n : ℕ)
      → w.pcs t ≡ Pc.acquire_delete key parent i
      → w.registry key ≡ some i
      → (alone w t (suc (suc n))).pcs t ≡ Pc.idle
  unfolding run compare_and_delete
  delete_returns w key parent i n e r = then_alone w _ (suc n) e (
      free_returns _ key parent n (rw (eqb_refl t) refl)
        (rw (r, compare_and_delete, eqb_refl i, eq_refl key) refl))

  check_returns :
      (w : World) (key : String) (parent i n : ℕ)
      → w.pcs t ≡ Pc.acquire_check key parent i
      → w.registry key ≡ some i
      → (alone w t (suc (suc (suc n)))).pcs t ≡ Pc.idle
  unfolding run
  check_returns w key parent i n e r =
      then_alone w _ (suc (suc n)) e (elim (Bool-cases (is_stopped w i)) [
        | inl h ↦ delete_returns _ key parent i n (rw (h, eqb_refl t) refl) r
        | inr h ↦ idle_stays _ (suc (suc n)) (rw (h, eqb_refl t) refl)
      ])

  start_returns :
      (w : World) (key : String) (parent n : ℕ)
      → w.pcs t ≡ Pc.acquire_start key parent
      → (alone w t (suc (suc (suc (suc n))))).pcs t ≡ Pc.idle
  unfolding run load_or_store
  start_returns w key parent n e = elim (Option-cases (w.registry key)) [
    | inl r ↦ free_returns w key parent (suc (suc (suc n))) e r
    | inr (i, r) ↦ then_alone w _ (suc (suc (suc n))) e (
        check_returns _ key parent i n (rw (r, load_or_store, eqb_refl t) refl)
          (rw (r, load_or_store) r))
  ]

  -- The session in hand need not be the one that is registered.
  any_delete_returns :
      (w : World) (key : String) (parent i n : ℕ)
      → w.pcs t ≡ Pc.acquire_delete key parent i
      → (alone w t (suc (suc (suc (suc (suc n)))))).pcs t ≡ Pc.idle
  unfolding run
  any_delete_returns w key parent i n e =
      then_alone w _ (suc (suc (suc (suc n)))) e
        (start_returns _ key parent n (rw (eqb_refl t) refl))

  any_check_returns :
      (w : World) (key : String) (parent i n : ℕ)
      → w.pcs t ≡ Pc.acquire_check key parent i
      → (alone w t (suc (suc (suc (suc (suc (suc n))))))).pcs t ≡ Pc.idle
  unfolding run
  any_check_returns w key parent i n e =
      then_alone w _ (suc (suc (suc (suc (suc n))))) e (elim (Bool-cases (is_stopped w i)) [
        | inl h ↦ any_delete_returns _ key parent i n (rw (h, eqb_refl t) refl)
        | inr h ↦ idle_stays _ (suc (suc (suc (suc (suc n))))) (rw (h, eqb_refl t) refl)
      ])

  -- The last step of stop, and those of release.
  ends :
      (w : World) (key : String) (i n : ℕ)
      → w.pcs t ≡ Pc.stop_delete key i
      → (alone w t (suc n)).pcs t ≡ Pc.idle
  unfolding run
  ends w key i n e = then_alone w _ n e (idle_stays _ n (rw (eqb_refl t) refl))

  signal_returns :
      (w : World) (key : String) (i n : ℕ)
      → w.pcs t ≡ Pc.stop_signal key i
      → (alone w t (suc (suc n))).pcs t ≡ Pc.idle
  unfolding run
  signal_returns w key i n e = then_alone w _ (suc n) e (ends _ key i n (rw (eqb_refl t) refl))

  stop_returns :
      (w : World) (key : String) (n : ℕ)
      → w.pcs t ≡ Pc.stop_load key
      → (alone w t (suc (suc (suc n)))).pcs t ≡ Pc.idle
  unfolding run
  stop_returns w key n e = elim (Option-cases (w.registry key)) [
    | inl r ↦
        then_alone w _ (suc (suc n)) e (idle_stays _ (suc (suc n)) (rw (r, run, eqb_refl t) refl))
    | inr (i, r) ↦
        then_alone w _ (suc (suc n)) e (signal_returns _ key i n (rw (r, run, eqb_refl t) refl))
  ]

  close_returns :
      (w : World) (i n : ℕ) → w.pcs t ≡ Pc.release_close i → (alone w t (suc n)).pcs t ≡ Pc.idle
  unfolding run
  close_returns w i n e = then_alone w _ n e (idle_stays _ n (rw (eqb_refl t) refl))

  cancel_returns :
      (w : World) (i n : ℕ)
      → w.pcs t ≡ Pc.release_cancel i
      → (alone w t (suc (suc n))).pcs t ≡ Pc.idle
  unfolding run
  cancel_returns w i n e = then_alone w _ (suc n) e (close_returns _ i n (rw (eqb_refl t) refl))

  release_returns :
      (w : World) (key : String) (i n : ℕ)
      → w.pcs t ≡ Pc.release_delete key i
      → (alone w t (suc (suc (suc n)))).pcs t ≡ Pc.idle
  unfolding run
  release_returns w key i n e =
      then_alone w _ (suc (suc n)) e (cancel_returns _ i n (rw (eqb_refl t) refl))

  wait_returns :
      (w : World) (i n : ℕ)
      → w.pcs t ≡ Pc.release_wait i
      → 1 ≤ (w.sessions i).done_closes
      → (alone w t (suc n)).pcs t ≡ Pc.idle
  unfolding run
  wait_returns w i n e d = then_alone w _ n e (
      idle_stays _ n (elim (Bool-cases (eqb (w.sessions i).done_closes 0)) [
        | inl f ↦ absurd (ground arith)
        | inr f ↦ rw (f, eqb_refl t) refl
      ]))

  at_returns : (w : World) (pc : Pc) → w.pcs t ≡ pc → CanFinish w pc → (alone w t 6).pcs t ≡ Pc.idle
  at_returns w Pc.idle e f = idle_stays w 6 e
  at_returns w (Pc.acquire_start key parent) e f = start_returns w key parent 2 e
  at_returns w (Pc.acquire_check key parent i) e f = any_check_returns w key parent i 0 e
  at_returns w (Pc.acquire_delete key parent i) e f = any_delete_returns w key parent i 1 e
  at_returns w (Pc.stop_load key) e f = stop_returns w key 3 e
  at_returns w (Pc.stop_signal key i) e f = signal_returns w key i 4 e
  at_returns w (Pc.stop_delete key i) e f = ends w key i 5 e
  at_returns w (Pc.release_delete key i) e f = release_returns w key i 3 e
  at_returns w (Pc.release_cancel i) e f = cancel_returns w i 4 e
  at_returns w (Pc.release_close i) e f = close_returns w i 5 e
  at_returns w (Pc.release_wait i) e f = wait_returns w i 5 e f

-- In whatever state the registry is and wherever a goroutine stands in acquire, stop or release,
-- the call has returned after six steps of this goroutine, when no other takes a step; a release
-- that waits for another release of the same session needs that one to have closed the session's
-- channel.
pub alone-returns : (w : World) (t : ℕ) → CanFinish w (w.pcs t) → (alone w t 6).pcs t ≡ Pc.idle
alone-returns w t f = at_returns t w (w.pcs t) refl f
