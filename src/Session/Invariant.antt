-- ===== src/Session/Invariant.antt =====
-- What holds of the shared state, and of each goroutine's place, between any two steps
-- (internal/service/synchronizer/sync_state.go).
use opensaola.Base.{
  ℕ, ◌≤◌, ◌<◌, String, Bool, true, false, ◌||◌, none, some, is_some, eqb, if◌then◌else◌, ◌≡◌, ◌≢◌,
  ◌⊎◌, inl, inr, Bool-cases, eqb→eq, arith,
}
use opensaola.Session.{World, Pc, is_stopped, goto}

-- A session that no longer claims its key: stopped, or being released.
abbrev pub is_gone : World → ℕ → Bool
is_gone w i = is_stopped w i || is_some (w.sessions i).once

pub record Core (w : World) : Type 0 where
  pub owned :
      (i : ℕ) (key : String)
      → w.acquired i ≡ some key
      → (w.registry key ≡ some i) ⊎ (is_gone w i ≡ true)
  pub fresh : (i : ℕ) → w.next ≤ i → w.acquired i ≡ none
  pub known : (key : String) (i : ℕ) → w.registry key ≡ some i → i < w.next
  pub signals : (i : ℕ) → (w.sessions i).stop_closes ≡ (if (w.sessions i).stopped then 1 else 0)
  pub unreleased : (i : ℕ) → (w.sessions i).once ≡ none → (w.sessions i).done_closes ≡ 0
  pub closes : (i : ℕ) → (w.sessions i).done_closes ≤ 1

-- What a goroutine knows of the session in its hand, at each place.
abbrev pub Holds : World → ℕ → ℕ → Type 0
Holds w t i = (i < w.next) × ((w.sessions i).once ≡ some t) × ((w.sessions i).done_closes ≡ 0)

abbrev pub PcOk : World → ℕ → Pc → Type 0
PcOk w t Pc.idle = Unit
PcOk w t (Pc.acquire_start key parent) = Unit
PcOk w t (Pc.acquire_check key parent i) = i < w.next
PcOk w t (Pc.acquire_delete key parent i) = (i < w.next) × (is_stopped w i ≡ true)
PcOk w t (Pc.stop_load key) = Unit
PcOk w t (Pc.stop_signal key i) = i < w.next
PcOk w t (Pc.stop_delete key i) = (i < w.next) × (is_stopped w i ≡ true)
PcOk w t (Pc.release_delete key i) = Holds w t i
PcOk w t (Pc.release_cancel i) = Holds w t i
PcOk w t (Pc.release_close i) = Holds w t i
PcOk w t (Pc.release_wait i) = Unit

pub record Inv (w : World) : Type 0 where
  pub core : Core w
  pub placed : (t : ℕ) → PcOk w t (w.pcs t)

-- A step of goroutine `t` that takes nothing from what the others know.
pub record Extends (t : ℕ) (w w' : World) : Type 0 where
  pub grows : w.next ≤ w'.next
  pub still_stopped : (i : ℕ) → i < w.next → is_stopped w i ≡ true → is_stopped w' i ≡ true
  pub still_held : (u i : ℕ) → u ≢ t → Holds w u i → Holds w' u i

pub PcOk-Extends :
    {t : ℕ} {w w' : World} (u : ℕ) (pc : Pc) → Extends t w w' → u ≢ t → PcOk w u pc → PcOk w' u pc
PcOk-Extends u Pc.idle x ne h = tt
PcOk-Extends u (Pc.acquire_start key parent) x ne h = tt
PcOk-Extends u (Pc.acquire_check key parent i) x ne h = omega (arith, x.grows)
PcOk-Extends u (Pc.acquire_delete key parent i) x ne h =
    (omega (arith, x.grows), x.still_stopped i h.0 h.1)
PcOk-Extends u (Pc.stop_load key) x ne h = tt
PcOk-Extends u (Pc.stop_signal key i) x ne h = omega (arith, x.grows)
PcOk-Extends u (Pc.stop_delete key i) x ne h = (omega (arith, x.grows), x.still_stopped i h.0 h.1)
PcOk-Extends u (Pc.release_delete key i) x ne h = x.still_held u i ne h
PcOk-Extends u (Pc.release_cancel i) x ne h = x.still_held u i ne h
PcOk-Extends u (Pc.release_close i) x ne h = x.still_held u i ne h
PcOk-Extends u (Pc.release_wait i) x ne h = tt

eqb_ne : (a b : ℕ) → eqb a b ≡ false → b ≢ a
eqb_ne a b h = λ e. ground arith

PcOk-goto : (w : World) (t : ℕ) (p : Pc) (u : ℕ) (pc : Pc) → PcOk w u pc → PcOk (goto w t p) u pc
PcOk-goto w t p u Pc.idle h = h
PcOk-goto w t p u _ h = h

-- The invariant after a step of `t` that puts it at `pc`.
pub goto-Inv :
    {w w' : World} (t : ℕ) (pc : Pc)
    → Inv w
    → Core w'
    → Extends t w w'
    → ((u : ℕ) → w'.pcs u ≡ w.pcs u)
    → PcOk w' t pc
    → Inv (goto w' t pc)
goto-Inv {w} {w'} t pc v c x same h = record {
  core = record {
    owned = c.owned;
    fresh = c.fresh;
    known = c.known;
    signals = c.signals;
    unreleased = c.unreleased;
    closes = c.closes;
  };
  placed = λ u. elim (Bool-cases (eqb t u)) [
    | inl e ↦ rw (e, ← eqb→eq t u e) (PcOk-goto w' t pc t pc h)
    | inr e ↦
        rw (e, same u)
          (PcOk-goto w' t pc u (w.pcs u) (PcOk-Extends u (w.pcs u) x (eqb_ne t u e) (v.placed u)))
  ];
}
