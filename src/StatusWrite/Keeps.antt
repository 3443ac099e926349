-- ===== src/StatusWrite/Keeps.antt =====
-- What a write that is retried on conflicts changes of the object that the server has stored
-- (internal/k8s/middleware.go).
use opensaola.Base.{
  ◌==◌, eq_iff, List, [], ◌∷◌, some, All, ◌≡◌, sym, ◌∙◌, inl, inr, Bool-cases, Option-cases,
}
use opensaola.StatusWrite.{
  StatusParts, StoredMiddleware, Round, Attempt, Ending, commit_status, commit_object, send, settle,
  retry_on_conflict,
}

module _ {parts : StatusParts} {Spec Overrides : Type 0} where
  -- A resource version identifies a state of the object: a read with the stored version is the
  -- stored object.
  abbrev pub IsCoherent : Round parts Spec Overrides → Type 0
  IsCoherent r =
      (now : StoredMiddleware parts Spec Overrides)
      → r.read ≡ some now
      → now.resource_version ≡ r.stored.resource_version
      → now ≡ r.stored

  module _
      (P : StoredMiddleware parts Spec Overrides
        → StoredMiddleware parts Spec Overrides
        → Type 0) where
    -- A write that has happened satisfies `P`.
    abbrev pub Ends : Ending parts Spec Overrides → Type 0
    Ends Ending.nothing = Unit
    Ends (Ending.failed e) = Unit
    Ends (Ending.written before after) = P before after

    -- An update of what the server has stored would satisfy `P`, and carries the version read.
    abbrev pub Sends :
        Round parts Spec Overrides
        → StoredMiddleware parts Spec Overrides
        → Attempt parts Spec Overrides
        → Type 0
    Sends r now Attempt.unchanged = Unit
    Sends r now (Attempt.refused e) = Unit
    Sends r now (Attempt.update_status sent) =
        (sent.resource_version ≡ now.resource_version)
        × (now ≡ r.stored → P r.stored (commit_status parts Spec Overrides r sent))
    Sends r now (Attempt.update_object sent) =
        (sent.resource_version ≡ now.resource_version)
        × (now ≡ r.stored → P r.stored (commit_object parts Spec Overrides r sent))

    send-Ends :
        (r : Round parts Spec Overrides)
        (now sent committed : StoredMiddleware parts Spec Overrides)
        (retry : Ending parts Spec Overrides)
        → IsCoherent r
        → r.read ≡ some now
        → sent.resource_version ≡ now.resource_version
        → (now ≡ r.stored → P r.stored committed)
        → Ends retry
        → Ends (send parts Spec Overrides r sent committed retry)
    unfolding send
    send-Ends r now sent committed retry c e v p h =
        elim (Bool-cases (sent.resource_version == r.stored.resource_version)) [
          | inl f ↦ elim (Bool-cases r.fails) [
            | inl g ↦ rw (f, g) tt
            | inr g ↦
                rw (f, g)
                  (p (
                    c now e (sym v ∙ (eq_iff sent.resource_version r.stored.resource_version).0 f)))
          ]
          | inr f ↦ rw f h
        ]

    settle-Ends :
        (r : Round parts Spec Overrides) (now : StoredMiddleware parts Spec Overrides)
        (attempt : Attempt parts Spec Overrides) (retry : Ending parts Spec Overrides)
        → IsCoherent r
        → r.read ≡ some now
        → Sends r now attempt
        → Ends retry
        → Ends (settle parts Spec Overrides r attempt retry)
    unfolding settle
    settle-Ends r now Attempt.unchanged retry c e s h = tt
    settle-Ends r now (Attempt.refused x) retry c e s h = tt
    settle-Ends r now (Attempt.update_status sent) retry c e (v, p) h =
        send-Ends r now sent _ retry c e v p h
    settle-Ends r now (Attempt.update_object sent) retry c e (v, p) h =
        send-Ends r now sent _ retry c e v p h

    pub retry-Ends :
        {S : Type 0}
        (body : S → StoredMiddleware parts Spec Overrides → S × Attempt parts Spec Overrides)
        → ((s : S) (r : Round parts Spec Overrides) (now : StoredMiddleware parts Spec Overrides)
            → Sends r now (body s now).1)
        → (s : S) (rs : List (Round parts Spec Overrides)) → All IsCoherent rs
        → Ends (retry_on_conflict parts Spec Overrides body s rs)
    unfolding retry_on_conflict
    retry-Ends body b s [] c = tt
    retry-Ends body b s (r ∷ rs) (c, cs) = elim (Option-cases r.read) [
      | inl e ↦ rw e tt
      | inr (now, e) ↦ rw e (
          settle-Ends r now (body s now).1 _ c e (b s r now)
            (retry-Ends body b (body s now).0 rs cs))
    ]
