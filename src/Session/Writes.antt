-- ===== src/Session/Writes.antt =====
-- The critical sections of internal/service/synchronizer/sync_state.go keep the invariant.
use opensaola.Base.{
  ℕ, ◌+◌, ◌≤◌, ◌<◌, String, eq_iff, true, false, none, some, is_some, eqb, if◌then◌else◌, ◌≡◌, ◌≢◌,
  inl, inr, refl, subst, eqb_refl, Bool-cases, eqb→eq, arith,
}
use opensaola.Session.{
  Session, World, Pc, goto, write, holds, compare_and_delete, stop, cancel, close_done,
}
use opensaola.Session.Invariant.{is_gone, Core, Holds, PcOk, Inv, Extends, goto-Inv}

module _ (w : World) (key : String) (i : ℕ) where
  compare_and_delete-Core : Core w → is_gone w i ≡ true → Core (compare_and_delete w key i)
  unfolding compare_and_delete
  compare_and_delete-Core c g = elim (Bool-cases (holds (w.registry key) i)) [
    | inr e ↦ rw e c
    | inl e ↦ rw e (record {
      owned = λ j k a. ground (arith, c.owned j k a, eq_iff key k);
      fresh = c.fresh;
      known = λ k j r. ground (arith, c.known k j, eq_iff key k);
      signals = c.signals;
      unreleased = c.unreleased;
      closes = c.closes;
    })
  ]

  compare_and_delete-Extends : (t : ℕ) → Extends t w (compare_and_delete w key i)
  unfolding compare_and_delete
  compare_and_delete-Extends t = elim (Bool-cases (holds (w.registry key) i)) [
    | inr e ↦
        rw e (record { grows = omega arith; still_stopped = λ j l s. s; still_held = λ u j n h. h })
    | inl e ↦
        rw e (record { grows = omega arith; still_stopped = λ j l s. s; still_held = λ u j n h. h })
  ]

  compare_and_delete-pcs : (u : ℕ) → (compare_and_delete w key i).pcs u ≡ w.pcs u
  unfolding compare_and_delete
  compare_and_delete-pcs u = ground arith

-- A write to one session that only adds to `stopped`, `cancelled` or the count of its closes.
record Ages (s s' : Session) : Type 0 where
  parent : s'.parent ≡ s.parent
  cancelled : s.cancelled ≡ true → s'.cancelled ≡ true
  stopped : s.stopped ≡ true → s'.stopped ≡ true
  once : is_some s.once ≡ true → s'.once ≡ s.once
  signal :
      s.stop_closes ≡ (if s.stopped then 1 else 0) → s'.stop_closes ≡ (if s'.stopped then 1 else 0)

module _ (w : World) (i : ℕ) (s' : Session) where
  write-Core :
      Core w
      → Ages (w.sessions i) s'
      → (s'.once ≡ none → s'.done_closes ≡ 0)
      → s'.done_closes ≤ 1
      → Core (write w i s')
  write-Core c a o d = record {
    owned = λ j k e. ground (arith, c.owned j k e, eqb→eq i j);
    fresh = c.fresh;
    known = c.known;
    signals = λ j. ground (arith, c.signals j, c.signals i, eqb→eq i j);
    unreleased = λ j h. ground (arith, c.unreleased j, eqb→eq i j);
    closes = λ j. ground (arith, c.closes j);
  }

  write_held :
      (u : ℕ) → Ages (w.sessions i) s' → s'.done_closes ≡ 0 → Holds w u i → Holds (write w i s') u i
  write_held u a d h = ground (arith, eqb_refl i)

  write-Extends :
      (t : ℕ)
      → Ages (w.sessions i) s'
      → ((u : ℕ) → u ≢ t → Holds w u i → s'.done_closes ≡ 0)
      → Extends t w (write w i s')
  write-Extends t a d = record {
    grows = omega arith;
    still_stopped = λ j l e. ground (arith, eqb→eq i j);
    still_held = λ u j n h. elim (Bool-cases (eqb i j)) [
      | inl e ↦
          subst (λ x. Holds w u x → Holds (write w i s') u x) (eqb→eq i j e)
            (λ g. write_held u a (d u n g) g) h
      | inr e ↦ rw e h
    ];
  }

-- The four critical sections, each as a write that ages its session.
stopped-Ages :
    (s : Session)
    → s.stopped ≡ false
    → Ages s (record s { stopped = true; cancelled = true; stop_closes = s.stop_closes + 1 })
stopped-Ages s e = record {
  parent = refl;
  cancelled = λ h. refl;
  stopped = λ h. refl;
  once = λ h. refl;
  signal = λ h. ground arith;
}

cancelled-Ages : (s : Session) → Ages s (record s { cancelled = true })
cancelled-Ages s = record {
  parent = refl;
  cancelled = λ h. refl;
  stopped = λ h. h;
  once = λ h. refl;
  signal = λ h. h;
}

closed-Ages : (s : Session) → Ages s (record s { done_closes = s.done_closes + 1 })
closed-Ages s = record {
  parent = refl;
  cancelled = λ h. h;
  stopped = λ h. h;
  once = λ h. refl;
  signal = λ h. h;
}

entered-Ages : (s : Session) (t : ℕ) → s.once ≡ none → Ages s (record s { once = some t })
entered-Ages s t e = record {
  parent = refl;
  cancelled = λ h. h;
  stopped = λ h. h;
  once = λ h. ground arith;
  signal = λ h. h;
}

Extends-refl : (t : ℕ) (w : World) → Extends t w w
Extends-refl t w = record {
  grows = omega arith;
  still_stopped = λ j m h. h;
  still_held = λ u j n h. h;
}

module _ (w : World) (t i : ℕ) (v : Inv w) where
  -- A step that stays where the shared state is, and one that writes to a session.
  pub stay-Inv : (pc : Pc) → PcOk w t pc → Inv (goto w t pc)
  stay-Inv pc h = goto-Inv t pc v v.core (Extends-refl t w) (λ u. refl) h

  write-Inv :
      (s' : Session) (pc : Pc)
      → Ages (w.sessions i) s'
      → (s'.once ≡ none → s'.done_closes ≡ 0)
      → s'.done_closes ≤ 1
      → ((u : ℕ) → u ≢ t → Holds w u i → s'.done_closes ≡ 0)
      → PcOk (write w i s') t pc
      → Inv (goto (write w i s') t pc)
  write-Inv s' pc a o d f h =
      goto-Inv t pc v (write-Core w i s' v.core a o d) (write-Extends w i s' t a f) (λ u. refl) h

  pub stop-Inv : (key : String) → i < w.next → Inv (goto (stop w i) t (Pc.stop_delete key i))
  unfolding stop
  stop-Inv key l = elim (Bool-cases (w.sessions i).stopped) [
    | inl e ↦ rw e (stay-Inv _ (l, ground arith))
    | inr e ↦ rw e (
        write-Inv _ _ (stopped-Ages (w.sessions i) e) (v.core.unreleased i) (v.core.closes i)
          (λ u n h. h.2) (l, rw (eqb_refl i)))
  ]

  pub delete-Inv :
      (key : String) (pc : Pc)
      → is_gone w i ≡ true
      → PcOk (compare_and_delete w key i) t pc
      → Inv (goto (compare_and_delete w key i) t pc)
  delete-Inv key pc g h =
      goto-Inv t pc v (compare_and_delete-Core w key i v.core g)
        (compare_and_delete-Extends w key i t) (compare_and_delete-pcs w key i) h

  pub cancel-Inv : Holds w t i → Inv (goto (cancel w i) t (Pc.release_close i))
  unfolding cancel
  cancel-Inv h =
      write-Inv _ _ (cancelled-Ages (w.sessions i)) (v.core.unreleased i) (v.core.closes i)
        (λ u n g. g.2) (h.0, ground (arith, eqb_refl i), ground (arith, eqb_refl i))

  pub close-Inv : Holds w t i → Inv (goto (close_done w i) t Pc.idle)
  unfolding close_done
  close-Inv h =
      write-Inv _ _ (closed-Ages (w.sessions i)) (λ e. ground arith) (omega arith)
        (λ u n g. absurd (n (ground arith))) tt

  pub enter-Inv :
      (key : String)
      → i < w.next
      → (w.sessions i).once ≡ none
      → Inv (goto (write w i (record (w.sessions i) { once = some t })) t (Pc.release_delete key i))
  enter-Inv key l e =
      write-Inv _ _ (entered-Ages (w.sessions i) t e) (λ o. cc) (v.core.closes i) (λ u n g. g.2)
        (l, ground (arith, eqb_refl i), ground (arith, eqb_refl i, v.core.unreleased i))
