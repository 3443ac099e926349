-- ===== src/Intents/Writer/Attempts.antt =====
-- Which actions the retries of Reconcile perform (internal/k8s/managed_resource.go).
use opensaola.Base.{
  ℕ, zero, suc, ◌≤◌, String, eq_iff, eqb→eq, Bool, true, false, not, List, Option, length, All,
  Some, ◌≡◌, inl, inr, refl, ap, subst, arith,
}
use opensaola.Configuration.{GetControllerOf}
use opensaola.Intents.{
  WriteOwner, Rendered, Fallible, ok, err, ok-eq, bind-ok, require-ok, require-true,
}
use opensaola.Intents.Answers.{Answer, present, absent, failed}
use opensaola.Intents.Adoption.{Owners}
use opensaola.Intents.Writer.Permits.{IsActive, unsuspended-IsActive, Permits}
use opensaola.Intents.Writer.Chosen.{chosen-Permits}
use opensaola.Intents.Writer.{
  FreshOwner, is_write_suspended, is_same_owner, fresh_write_owner, Action, Outcome, completed,
  conflicted, refused, choose_action, Attempt, decide_attempt, Run, after_outcome, after_decision,
  reconcile_from, reconcile,
}

abbrev is_completed : Outcome → Bool
is_completed completed = true
is_completed conflicted = false
is_completed (refused e) = false

module _ {Content : Type 0} (spec_hash : Content → Option String) (owners : Owners)
    (parse_group : String → Option String) (meta : GetControllerOf) (has_schemas : Bool)
    (attempts : ℕ → Attempt spec_hash owners parse_group meta has_schemas) (owner : WriteOwner)
    (desired : Rendered Content) (configuration : String) where
  abbrev outcome : ℕ × FreshOwner × Action → Outcome
  outcome (i, f, action) = (attempts i).perform f action

  -- The owner is the given one, of the same generation, not deleting, and asks for no suspension.
  abbrev pub IsFreshOf : FreshOwner → Type 0
  IsFreshOf f =
      (f.owner.uid ≡ owner.uid)
      × (f.owner.generation ≡ owner.generation)
      × (f.owner.deleting ≡ false)
      × IsActive f.owner.kind f

  -- The attempt read the owner, and what the action's object was found to be allows the action.
  abbrev pub IsAllowed : ℕ × FreshOwner × Action → Type 0
  IsAllowed (i, f, action) =
      ((attempts i).owner_read ≡ present f)
      × IsFreshOf f
      × Permits spec_hash parse_group meta f (attempts i).live_read desired configuration action

  -- Success is an action that completed; on an error none did.
  abbrev pub Accounts : Fallible Action → List (ℕ × FreshOwner × Action) → Type 0
  Accounts (ok action) log = Some (λ e. (e.2 ≡ action) × (outcome e ≡ completed)) log
  Accounts (err x) log = All (λ e. is_completed (outcome e) ≡ false) log

  abbrev IsSound : ℕ → Run spec_hash owners parse_group meta has_schemas → Type 0
  IsSound n (result, log) = All IsAllowed log × (length log ≤ n) × Accounts result log

  same-facts :
      (f : FreshOwner)
      → is_same_owner owner f.owner ≡ true
      → (f.owner.uid ≡ owner.uid)
        × (f.owner.generation ≡ owner.generation)
        × (f.owner.deleting ≡ false)
  same-facts f h = (
    (eq_iff f.owner.uid owner.uid).0 (ground arith),
    eqb→eq f.owner.generation owner.generation (ground arith),
    ground arith,
  )

  fresh-IsFreshOf :
      (a : Answer FreshOwner) (f : FreshOwner)
      → fresh_write_owner owner a ≡ ok f
      → (a ≡ present f) × IsFreshOf f
  unfolding fresh_write_owner
  fresh-IsFreshOf absent f e = absurd (ground arith)
  fresh-IsFreshOf failed f e = absurd (ground arith)
  fresh-IsFreshOf (present g) f e =
      let rest = require-ok (is_same_owner owner g.owner) _ _ f e in
      let same = ok-eq (require-ok (not (is_write_suspended g.owner.kind g)) _ _ f rest) in
      let (uid, generation, stays) = same-facts g (require-true _ _ _ f e) in
      subst (λ x. (present g ≡ present x) × IsFreshOf x) same
        (
          refl,
          (
            uid,
            generation,
            stays,
            unsuspended-IsActive g.owner.kind g
                (require-true (not (is_write_suspended g.owner.kind g)) _ _ f rest),
          ),
        )

  decided-IsAllowed :
      (i : ℕ) (f : FreshOwner) (action : Action)
      → decide_attempt spec_hash owners parse_group meta has_schemas owner desired configuration
          (attempts i)
        ≡ ok (f, action)
      → IsAllowed (i, f, action)
  decided-IsAllowed i f action e =
      let fresh = bind-ok (fresh_write_owner owner (attempts i).owner_read) _ (f, action) e in
      let chosen =
        bind-ok
          (choose_action spec_hash owners parse_group meta has_schemas fresh.0
            (attempts i).live_read desired configuration)
          _ (f, action) fresh.2 in
      let (read, is_fresh) = fresh-IsFreshOf (attempts i).owner_read fresh.0 fresh.1 in
      let permits =
        chosen-Permits spec_hash parse_group meta owners has_schemas fresh.0 (attempts i).live_read
          desired configuration chosen.0 chosen.1 in
      subst (λ p. IsAllowed (i, p.0, p.1)) (ok-eq chosen.2) (read, is_fresh, permits)

  outcome-IsSound :
      (i n : ℕ) (f : FreshOwner) (action : Action) (o : Outcome)
      (rest : Run spec_hash owners parse_group meta has_schemas)
      → IsAllowed (i, f, action)
      → (attempts i).perform f action ≡ o
      → IsSound n rest
      → IsSound
          (suc n)
          (after_outcome spec_hash owners parse_group meta has_schemas i f action o rest)
  outcome-IsSound i n f action completed rest a p s = ((a, tt), ground arith, inl (refl, p))
  outcome-IsSound i n f action (refused x) rest a p s =
      ((a, tt), ground arith, (ap is_completed p, tt))
  outcome-IsSound i n f action conflicted (ok x, log) a p (all, short, some_) =
      ((a, all), ground arith, inr some_)
  outcome-IsSound i n f action conflicted (err x, log) a p (all, short, none_) =
      ((a, all), ground arith, (ap is_completed p, none_))

  decision-IsSound :
      (i n : ℕ) (d : Fallible (FreshOwner × Action))
      (rest : Run spec_hash owners parse_group meta has_schemas)
      → decide_attempt spec_hash owners parse_group meta has_schemas owner desired configuration
          (attempts i)
        ≡ d
      → IsSound n rest
      → IsSound
          (suc n)
          (after_decision spec_hash owners parse_group meta has_schemas i (attempts i) d rest)
  decision-IsSound i n (err x) rest e s = (tt, ground arith, tt)
  decision-IsSound i n (ok (f, action)) rest e s =
      outcome-IsSound i n f action _ rest (decided-IsAllowed i f action e) refl s

  from-IsSound :
      (i n : ℕ)
      → IsSound n (
          reconcile_from spec_hash owners parse_group meta has_schemas attempts owner desired
            configuration i n)
  unfolding reconcile_from
  from-IsSound i zero = (tt, ground arith, tt)
  from-IsSound i (suc n) = decision-IsSound i n _ _ refl (from-IsSound (suc i) n)

  -- Reconcile makes at most five attempts at an action. Each is under an owner that this attempt
  -- read, with the given UID and generation, not deleting, without the suspension annotation,
  -- and, for a Middleware without a policy to resume, without a paused condition. Where no object
  -- was read it creates one of an immutable kind and applies any other anew; an object that was
  -- read is left as it is exactly if it is of an immutable kind, and is controlled by the owner,
  -- by group, kind, name, UID and namespace, or carries the configuration, and is not deleting.
  -- Under the merge policy a Middleware with a recorded pause has the recorded object before it,
  -- with the adopted hash of its spec. Reconcile succeeds with an action that completed, and
  -- where it fails no action completed.
  pub reconcile-IsAllowed :
      All IsAllowed
        (reconcile spec_hash owners parse_group meta has_schemas attempts owner desired
          configuration).1
      × (length
            (reconcile spec_hash owners parse_group meta has_schemas attempts owner desired
              configuration).1
          ≤ 5)
      × Accounts
          (reconcile spec_hash owners parse_group meta has_schemas attempts owner desired
            configuration).0
          (reconcile spec_hash owners parse_group meta has_schemas attempts owner desired
            configuration).1
  unfolding reconcile
  reconcile-IsAllowed = from-IsSound 0 5
