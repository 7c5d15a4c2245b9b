-- ===== src/Session/Threads/Mutex/Invariant.antt =====
-- Who is between `Lock` and `Unlock`.
use infisical_ksp.Base.{
  ℕ, nat_beq, nat_eq, Bool, true, false, Option, none, some, List, [], ◌∷◌, ◌≡◌, refl, ap, sym, ◌∙◌,
  inl, inr, arith, Bool-cases,
}
use infisical_ksp.Config.{Config}
use infisical_ksp.Session.Defs.{State, Env}
use infisical_ksp.Session.Threads.{Event, turn_of, others, Pc, advance}
use infisical_ksp.Session.Threads.Mutex.{
  Stage, outside, locked, unlocking, Guarded, update_stage, takes_mutex, guarded_section, acquire,
  move, happen_guarded, run_guarded,
}
use infisical_ksp.Session.Threads.Mutex.Rank.{guarded_section-Ends}

-- The thread is between `Lock` and `Unlock`.
unfoldable pub is_inside : Stage → Bool
is_inside (outside p) = false
is_inside (locked p) = true
is_inside (unlocking p) = true

unfoldable pub owns : ℕ → Option ℕ → Bool
owns i none = false
owns i (some j) = nat_beq i j

-- Behind `Lock` stands code that takes the mutex.
unfoldable pub is_placed : Stage → Bool
is_placed (outside p) = true
is_placed (locked p) = takes_mutex p
is_placed (unlocking p) = true

-- The threads between `Lock` and `Unlock` are those that hold the mutex: one at most.
pub record Consistent (s : Guarded) : Type 0 where
  pub inside : (i : ℕ) → is_inside (s.stage i) ≡ owns i s.holder
  pub placed : (i : ℕ) → is_placed (s.stage i) ≡ true

module _ (env : Env) (cfg : Config) where
  Consistent-updated :
      (s : Guarded) (i : ℕ) (g : Stage) (holder : Option ℕ) (st : State)
      → Consistent s
      → is_inside g ≡ owns i holder
      → is_placed g ≡ true
      → ((j : ℕ) → nat_beq j i ≡ false → owns j holder ≡ owns j s.holder)
      → Consistent (record { holder = holder; stage = update_stage s.stage i g; state = st })
  Consistent-updated s i g holder st c h k rest = record {
    inside = λ j. elim (Bool-cases (nat_beq j i)) [
      | inl same ↦ rw same (grind (arith, h))
      | inr other ↦ rw other (c.inside j ∙ sym (rest j other))
    ];
    placed = λ j. ground (arith, k, c.placed j);
  }

  owns-released :
      (i j : ℕ) (holder : Option ℕ)
      → owns i holder ≡ true
      → nat_beq j i ≡ false
      → owns j none ≡ owns j holder
  unfolding owns
  owns-released i j none h k = refl
  owns-released i j (some l) h k = ground arith

  owns-acquired : (i j : ℕ) → nat_beq j i ≡ false → owns j (some i) ≡ owns j none
  unfolding owns
  owns-acquired i j k = k

  acquire-Consistent :
      (i : ℕ) (p : Pc) (h : Option ℕ) (s : Guarded)
      → h ≡ s.holder
      → takes_mutex p ≡ true
      → Consistent s
      → Consistent (acquire env cfg i p h s)
  unfolding acquire owns is_inside is_placed
  acquire-Consistent i p (some j) s e t c = c
  acquire-Consistent i p none s e t c =
      Consistent-updated s i (locked p) (some i) s.state c (ground arith) t
        (λ j k. owns-acquired i j k ∙ ap (owns j) e)

  pub move-Consistent :
      (i : ℕ) (g : Stage) (s : Guarded)
      → s.stage i ≡ g
      → Consistent s
      → Consistent (move env cfg i g s)
  unfolding move advance is_inside is_placed owns
  move-Consistent i (outside p) s e c = elim (Bool-cases (takes_mutex p)) [
    | inl t ↦ rw t (acquire-Consistent i p s.holder s refl t c)
    | inr f ↦ rw f (
        Consistent-updated s i (outside (advance env cfg p s.state).0) s.holder _ c
          (sym (ap is_inside e) ∙ c.inside i) refl (λ j k. refl))
  ]
  move-Consistent i (locked p) s e c =
      let t : takes_mutex p ≡ true = sym (ap is_placed e) ∙ c.placed i in
      let (q, ends, _) = guarded_section-Ends env cfg p s.state t in
      Consistent-updated s i (guarded_section env cfg p s.state).0 s.holder _ c
        (ap is_inside ends ∙ sym (ap is_inside e) ∙ c.inside i) (ap is_placed ends) (λ j k. refl)
  move-Consistent i (unlocking p) s e c =
      Consistent-updated s i (outside p) none s.state c refl refl
        (λ j k. owns-released i j s.holder (sym (c.inside i) ∙ ap is_inside e) k)

  happen_guarded-Consistent :
      (e : Event) (s : Guarded) → Consistent s → Consistent (happen_guarded env cfg e s)
  unfolding happen_guarded
  happen_guarded-Consistent (turn_of i) s c = move-Consistent i (s.stage i) s refl c
  happen_guarded-Consistent (others later w) s c = record { inside = c.inside; placed = c.placed }

  pub run_guarded-Consistent :
      (schedule : List Event) (s : Guarded)
      → Consistent s
      → Consistent (run_guarded env cfg schedule s)
  unfolding run_guarded
  run_guarded-Consistent [] s c = c
  run_guarded-Consistent (e ∷ schedule) s c =
      run_guarded-Consistent schedule _ (happen_guarded-Consistent e s c)
