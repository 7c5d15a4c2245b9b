-- ===== src/Session/Threads/Mutex/Returns.antt =====
-- How a call of a session comes to its end: the turns of its thread, and of the mutex's holder.
use infisical_ksp.Base.{
  ℕ, zero, suc, ◌-◌, ◌≤◌, nat_beq, nat_eq, Bool, true, false, Option, none, some, List, [], ◌∷◌,
  ◌++◌, ◌≡◌, refl, ap, sym, ◌∙◌, inl, inr, replicate, arith, Bool-cases,
}
use infisical_ksp.Config.{Config}
use infisical_ksp.Session.Defs.{State, Env}
use infisical_ksp.Session.Threads.{
  Event, turn_of, find_request, key_request, sign_request, Request, Answer, Pc, called, key_token,
  key_parsed, sign_token, sign_context, sign_failed, returned,
}
use infisical_ksp.Session.Threads.Mutex.{
  Stage, outside, locked, unlocking, Guarded, takes_mutex, acquire, move, happen_guarded,
  run_guarded,
}
use infisical_ksp.Session.Threads.Mutex.Rank.{
  rank, left, left-le, rank-takes_mutex, rank-advance, guarded_section-Ends,
}
use infisical_ksp.Session.Threads.Mutex.Invariant.{
  is_inside, is_placed, owns, Consistent, move-Consistent, run_guarded-Consistent,
}

abbrev pub HasReturned : Stage → Type 0
HasReturned g = (a : Answer) × (g ≡ outside (returned a))

-- No other thread holds the mutex.
unfoldable is_free : ℕ → Option ℕ → Bool
is_free i none = true
is_free i (some j) = nat_beq i j

module _ (env : Env) (cfg : Config) where
  -- A turn of a thread that no other one keeps out.
  abbrev Advanced : ℕ → ℕ → Guarded → Type 0
  Advanced i n s = (is_free i s.holder ≡ true) × (left (s.stage i) ≤ n - 1)

  acquire-Advanced :
      (i : ℕ) (p : Pc) (h : Option ℕ) (s : Guarded)
      → owns i h ≡ false
      → is_free i h ≡ true
      → Advanced i (rank p) (acquire env cfg i p h s)
  unfolding acquire owns is_free left
  acquire-Advanced i p none s o f = (ground arith, ground arith)
  acquire-Advanced i p (some j) s o f = absurd (cc)

  move-Advanced :
      (i : ℕ) (g : Stage) (s : Guarded)
      → s.stage i ≡ g
      → Consistent s
      → is_free i s.holder ≡ true
      → Advanced i (left g) (move env cfg i g s)
  unfolding move left is_inside is_placed is_free
  move-Advanced i (outside p) s e c f = elim (Bool-cases (takes_mutex p)) [
    | inl t ↦ rw t (acquire-Advanced i p s.holder s (sym (c.inside i) ∙ ap is_inside e) f)
    | inr n ↦ rw n (f, ground (arith, rank-advance env cfg p s.state n))
  ]
  move-Advanced i (locked p) s e c f =
      let t : takes_mutex p ≡ true = sym (ap is_placed e) ∙ c.placed i in
      let (q, ends, fewer) = guarded_section-Ends env cfg p s.state t in
      (f, rw ends (ground (arith, fewer)))
  move-Advanced i (unlocking p) s e c f = (refl, ground arith)

  turns-left :
      (n i : ℕ) (s : Guarded)
      → Consistent s
      → is_free i s.holder ≡ true
      → left ((run_guarded env cfg (replicate n (turn_of i)) s).stage i) ≤ left (s.stage i) - n
  unfolding run_guarded happen_guarded
  turns-left zero i s c f = omega arith
  turns-left (suc n) i s c f =
      let (free, fewer) = move-Advanced i (s.stage i) s refl c f in
      let rest =
        turns-left n i (move env cfg i (s.stage i) s) (move-Consistent env cfg i _ s refl c) free in
      omega (arith, rest, fewer)

  run_guarded-append :
      (a b : List Event) (s : Guarded)
      → run_guarded env cfg (a ++ b) s ≡ run_guarded env cfg b (run_guarded env cfg a s)
  unfolding run_guarded
  run_guarded-append [] b s = refl
  run_guarded-append (e ∷ a) b s = run_guarded-append a b _

  -- The turns in which the holder of the mutex comes behind its `Unlock`: two at most.
  unfoldable pub until_unlocked : Stage → ℕ
  until_unlocked (outside p) = 0
  until_unlocked (locked p) = 2
  until_unlocked (unlocking p) = 1

  unfoldable pub unlock_turns : Option ℕ → (ℕ → Stage) → List Event
  unlock_turns none stage = []
  unlock_turns (some j) stage = replicate (until_unlocked (stage j)) (turn_of j)

  -- The turns that end the call of thread i: those of the holder, and eight of its own.
  abbrev pub finishing : ℕ → Guarded → List Event
  finishing i s = unlock_turns s.holder s.stage ++ replicate 8 (turn_of i)

  holder-move-move :
      (j : ℕ) (p : Pc) (s : Guarded)
      → s.stage j ≡ locked p
      → Consistent s
      → (let s' = move env cfg j (locked p) s in (move env cfg j (s'.stage j) s').holder ≡ none)
  unfolding move is_placed
  holder-move-move j p s e c =
      let t : takes_mutex p ≡ true = sym (ap is_placed e) ∙ c.placed j in
      let (q, ends, _) = guarded_section-Ends env cfg p s.state t in rw ends (ground arith)

  holder-unlock_turns :
      (j : ℕ) (g : Stage) (s : Guarded)
      → s.stage j ≡ g
      → is_inside g ≡ true
      → Consistent s
      → (run_guarded env cfg (replicate (until_unlocked g) (turn_of j)) s).holder ≡ none
  unfolding run_guarded happen_guarded until_unlocked move is_inside
  holder-unlock_turns j (outside p) s e h c = absurd (cc)
  holder-unlock_turns j (locked p) s e h c = rw e (holder-move-move j p s e c)
  holder-unlock_turns j (unlocking p) s e h c = rw e refl

  HasReturned-rank : (p : Pc) → rank p ≡ 0 → HasReturned (outside p)
  unfolding rank
  HasReturned-rank (called (find_request name)) h = absurd (omega arith)
  HasReturned-rank (called (key_request signer_id)) h = absurd (omega arith)
  HasReturned-rank (called (sign_request signer_id algorithm digest)) h = absurd (omega arith)
  HasReturned-rank (key_token signer_id token) h = absurd (omega arith)
  HasReturned-rank (key_parsed signer_id key) h = absurd (omega arith)
  HasReturned-rank (sign_token signer_id algorithm digest token) h = absurd (omega arith)
  HasReturned-rank (sign_context signer_id algorithm digest token ctx) h = absurd (omega arith)
  HasReturned-rank (sign_failed token signer_id digest ctx e) h = absurd (omega arith)
  HasReturned-rank (returned a) h = (a, refl)

  HasReturned-left : (g : Stage) → is_placed g ≡ true → left g ≡ 0 → HasReturned g
  unfolding left is_placed
  HasReturned-left (outside p) h k = HasReturned-rank p k
  HasReturned-left (locked p) h k = absurd (omega (arith, k, rank-takes_mutex p h))
  HasReturned-left (unlocking p) h k = absurd (omega (arith, k))

  unlock_turns-free :
      (s : Guarded)
      → Consistent s
      → (run_guarded env cfg (unlock_turns s.holder s.stage) s).holder ≡ none
  unfolding unlock_turns run_guarded owns
  unlock_turns-free s c = by_holder s.holder refl
    where
      by_holder :
          (h : Option ℕ)
          → s.holder ≡ h
          → (run_guarded env cfg (unlock_turns h s.stage) s).holder ≡ none
      by_holder none e = e
      by_holder (some j) e =
          holder-unlock_turns j (s.stage j) s refl (c.inside j ∙ ap (owns j) e ∙ ground arith) c

  -- All threads in front of their calls, and the mutex free.
  abbrev pub about_to_call : (ℕ → Request) → State → Guarded
  about_to_call requests st = record {
    holder = none;
    stage = λ i. outside (called (requests i));
    state = st;
  }

  about_to_call-Consistent :
      (requests : ℕ → Request) (st : State) → Consistent (about_to_call requests st)
  unfolding is_inside is_placed owns
  about_to_call-Consistent requests st = record { inside = λ i. refl; placed = λ i. refl }

  freed_turns :
      (i : ℕ) (s : Guarded)
      → Consistent s
      → s.holder ≡ none
      → HasReturned ((run_guarded env cfg (replicate 8 (turn_of i)) s).stage i)
  unfolding is_free
  freed_turns i s c h =
      let later = run_guarded-Consistent env cfg (replicate 8 (turn_of i)) s c in
      let fewer = turns-left 8 i s c (ap (is_free i) h) in
      HasReturned-left _ (later.placed i) (omega (arith, fewer, left-le (s.stage i)))

  -- The threads of a session, each of which makes one call, cannot lock each other out: wherever a
  -- schedule has brought them from the beginning of their calls, and whoever holds the mutex there,
  -- after the turns that its holder needs to come behind its `Unlock`, two at most, and eight turns
  -- of any thread, this thread has returned from its call.
  pub run_guarded-finishing :
      (requests : ℕ → Request) (st : State) (schedule : List Event) (i : ℕ)
      → (let s = run_guarded env cfg schedule (about_to_call requests st) in
          HasReturned ((run_guarded env cfg (finishing i s) s).stage i))
  run_guarded-finishing requests st schedule i =
      let s = run_guarded env cfg schedule (about_to_call requests st) in
      let c = run_guarded-Consistent env cfg schedule _ (about_to_call-Consistent requests st) in
      let turns = unlock_turns s.holder s.stage in
      rw (run_guarded-append turns (replicate 8 (turn_of i)) s) (
        freed_turns i (run_guarded env cfg turns s) (run_guarded-Consistent env cfg turns s c)
          (unlock_turns-free s c))
