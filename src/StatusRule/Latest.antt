-- ===== src/StatusRule/Latest.antt =====
-- Which condition `latestTrueCondition` picks (internal/service/statusrule/statusrule.go).
use mathlib.Core.List.{Memᴰ}
use opensaola.Base.{
  ℕ, String, Bool, true, false, leb, List, [], ◌∷◌, Option, none, some, All, ◌≡◌, ◌⊎◌, inl, inr,
  refl, ap, sym, subst, All-map, Bool-cases, arith,
}
use opensaola.StatusRule.{
  latest_of, picked, CelValues, Found, is_newer, consider, latest, is_true_condition,
  transition_time, latest_true_condition,
}

-- A condition's time is no later than another's; a malformed time comes before all.
abbrev pub no_later : Option ℕ → Option ℕ → Bool
no_later none o = true
no_later (some t) none = false
no_later (some t) (some u) = leb t u

no_later_refl : (o : Option ℕ) → no_later o o ≡ true
no_later_refl none = refl
no_later_refl (some t) = ground arith

no_later_trans :
    (a b c : Option ℕ) → no_later a b ≡ true → no_later b c ≡ true → no_later a c ≡ true
no_later_trans none b c p q = refl
no_later_trans (some a) none c p q = absurd (ground arith)
no_later_trans (some a) (some b) none p q = absurd (ground arith)
no_later_trans (some a) (some b) (some c) p q = ground arith

newer-no_later : (a b : Option ℕ) → is_newer a b ≡ true → no_later b a ≡ true
newer-no_later none b e = absurd (ground arith)
newer-no_later (some a) none e = refl
newer-no_later (some a) (some b) e = ground arith

older-no_later : (a b : Option ℕ) → is_newer a b ≡ false → no_later a b ≡ true
older-no_later none b e = refl
older-no_later (some a) none e = absurd (ground arith)
older-no_later (some a) (some b) e = ground arith

module _ {Val : Type 0} (cel : CelValues Val) (parse_time : String → Option ℕ) where
  abbrev is_true : Val → Bool
  is_true = is_true_condition cel parse_time

  abbrev time : Val → Option ℕ
  time = transition_time cel parse_time

  -- What holds of a found condition: where it is from, that it is true, and its time.
  abbrev Chosen : (Val → Type 0) → Found cel parse_time → Type 0
  Chosen Q none = Unit
  Chosen Q (some (v, t)) = Q v × (is_true v ≡ true) × (time v ≡ t)

  consider-Chosen :
      (Q : Val → Type 0) (c : Val) (found : Found cel parse_time)
      → Q c
      → Chosen Q found
      → Chosen Q (consider cel parse_time c found)
  unfolding consider
  consider-Chosen Q c none q h = elim (Bool-cases (is_true c)) [
    | inl e ↦ rw e (q, e, refl)
    | inr e ↦ rw e tt
  ]
  consider-Chosen Q c (some (v, t)) q h = elim (Bool-cases (is_true c)) [
    | inl e ↦ elim (Bool-cases (is_newer (time c) t)) [
      | inl n ↦ rw (e, n) (q, e, refl)
      | inr n ↦ rw (e, n) h
    ]
    | inr e ↦ rw e h
  ]

  -- A found condition is no earlier than `u`.
  abbrev Reaches : Val → Found cel parse_time → Type 0
  Reaches u none = ⊥
  Reaches u (some (v, t)) = no_later (time u) t ≡ true

  consider-Reaches :
      (u c : Val) (found : Found cel parse_time)
      → Reaches u found
      → Reaches u (consider cel parse_time c found)
  unfolding consider
  consider-Reaches u c none h = elim h [ ]
  consider-Reaches u c (some (v, t)) h = elim (Bool-cases (is_true c)) [
    | inl e ↦ elim (Bool-cases (is_newer (time c) t)) [
      | inl n ↦ rw (e, n) (no_later_trans (time u) t (time c) h (newer-no_later (time c) t n))
      | inr n ↦ rw (e, n) h
    ]
    | inr e ↦ rw e h
  ]

  consider-catches :
      (u : Val) (found : Found cel parse_time)
      → is_true u ≡ true
      → Reaches u (consider cel parse_time u found)
  unfolding consider
  consider-catches u none e = rw e (no_later_refl (time u))
  consider-catches u (some (v, t)) e = elim (Bool-cases (is_newer (time u) t)) [
    | inl n ↦ rw (e, n) (no_later_refl (time u))
    | inr n ↦ rw (e, n) (older-no_later (time u) t n)
  ]

  latest-Chosen :
      (Q : Val → Type 0) (cs : List Val) (found : Found cel parse_time)
      → All Q cs
      → Chosen Q found
      → Chosen Q (latest cel parse_time cs found)
  unfolding latest
  latest-Chosen Q [] found a h = h
  latest-Chosen Q (c ∷ cs) found (q, a) h =
      latest-Chosen Q cs (consider cel parse_time c found) a (consider-Chosen Q c found q h)

  latest-Reaches :
      (u : Val) (cs : List Val) (found : Found cel parse_time)
      → Reaches u found
      → Reaches u (latest cel parse_time cs found)
  unfolding latest
  latest-Reaches u [] found h = h
  latest-Reaches u (c ∷ cs) found h =
      latest-Reaches u cs (consider cel parse_time c found) (consider-Reaches u c found h)

  latest-catches :
      (cs : List Val) (found : Found cel parse_time)
      → All (λ u. is_true u ≡ true → Reaches u (latest cel parse_time cs found)) cs
  unfolding latest
  latest-catches [] found = tt
  latest-catches (c ∷ cs) found = (
    λ e. latest-Reaches c cs (consider cel parse_time c found) (consider-catches c found e),
    latest-catches cs (consider cel parse_time c found),
  )

  -- A true condition of `cs` that no true condition of `cs` is later than.
  pub record Newest (cs : List Val) (v : Val) : Type 0 where
    pub listed : Memᴰ v cs
    pub true_condition : is_true_condition cel parse_time v ≡ true
    pub newest :
        All
          (λ u.
            is_true_condition cel parse_time u ≡ true
            → no_later (transition_time cel parse_time u) (transition_time cel parse_time v) ≡ true)
          cs

  each_member : (cs : List Val) → All (λ u. Memᴰ u cs) cs
  each_member [] = tt
  each_member (c ∷ cs) = (Memᴰ.head refl, All-map (λ u m. Memᴰ.tail m) cs (each_member cs))

  None :
      (cs : List Val)
      → All (λ u. is_true u ≡ true → Reaches u none) cs
      → All (λ u. is_true u ≡ false) cs
  None [] a = tt
  None (c ∷ cs) (f, a) =
      (elim (Bool-cases (is_true c)) [ inl e ↦ absurd (f e) | inr e ↦ e ], None cs a)

  found-Newest :
      (cs : List Val) (found : Found cel parse_time)
      → All (λ u. is_true u ≡ true → Reaches u found) cs
      → Chosen (λ u. Memᴰ u cs) found
      → (All (λ u. is_true u ≡ false) cs × (picked cel parse_time found ≡ cel.null))
        ⊎ Newest cs (picked cel parse_time found)
  unfolding picked
  found-Newest cs none a h = inl (None cs a, refl)
  found-Newest cs (some (v, t)) a (m, e, p) = inr (record {
    listed = m;
    true_condition = e;
    newest = subst (λ t. All (λ u. is_true u ≡ true → no_later (time u) t ≡ true) cs) (sym p) a;
  })

  latest-picked :
      (argument : Val) (cs : List Val)
      → cel.lister argument ≡ some cs
      → latest_true_condition cel parse_time argument
        ≡ picked cel parse_time (latest cel parse_time cs none)
  unfolding latest_true_condition latest_of
  latest-picked argument cs e = ap (latest_of cel parse_time) e

  -- On a list, latestTrueCondition returns null where no condition is True, and otherwise a True
  -- condition of the list whose time no True condition of the list exceeds; a time that does not
  -- parse counts as earlier than every time that does.
  pub latest-Newest :
      (argument : Val) (cs : List Val)
      → cel.lister argument ≡ some cs
      → (All (λ u. is_true_condition cel parse_time u ≡ false) cs
          × (latest_true_condition cel parse_time argument ≡ cel.null))
        ⊎ Newest cs (latest_true_condition cel parse_time argument)
  latest-Newest argument cs e = rw (latest-picked argument cs e) (
      found-Newest cs (latest cel parse_time cs none) (latest-catches cs none)
        (latest-Chosen (λ u. Memᴰ u cs) cs none (each_member cs) tt))
