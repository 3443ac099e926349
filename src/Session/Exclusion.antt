-- ===== src/Session/Exclusion.antt =====
-- What the registry promises to its callers, over every interleaving of goroutines
-- (internal/service/synchronizer/sync_state.go).
use opensaola.Base.{ℕ, ◌≤◌, String, false, List, none, some, ◌≡◌, if◌then◌else◌, arith}
use opensaola.Session.{Event, start, run_all}
use opensaola.Session.Invariant.{is_gone}
use opensaola.Session.Steps.{reached-Inv}

module _ (es : List Event) where
  -- For each key at most one session that acquire has handed out is neither stopped nor being
  -- released, whatever the calls of acquire, stop and release and however their steps interleave.
  pub acquired_exclusive :
      (i j : ℕ) (key : String)
      → (run_all start es).acquired i ≡ some key
      → (run_all start es).acquired j ≡ some key
      → is_gone (run_all start es) i ≡ false
      → is_gone (run_all start es) j ≡ false
      → i ≡ j
  acquired_exclusive i j key ai aj gi gj =
      let c = (reached-Inv es).core in ground (arith, c.owned i key ai, c.owned j key aj)

  -- After any interleaving of acquire, stop and release, the stop channel of a session has been
  -- closed once if the session is stopped and else never, and its done channel at most once, and
  -- not at all while no release of it has begun.
  pub closes_once :
      (i : ℕ)
      → let s = (run_all start es).sessions i in
        (s.stop_closes ≡ (if s.stopped then 1 else 0))
        × (s.done_closes ≤ 1)
        × (s.once ≡ none → s.done_closes ≡ 0)
  closes_once i = let c = (reached-Inv es).core in (c.signals i, c.closes i, c.unreleased i)
