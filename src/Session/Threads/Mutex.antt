-- ===== src/Session/Threads/Mutex.antt =====
-- The same calls with the session's mutex as they take and release it (internal/infisical/session.go,
-- `Signers`, `PublicKey` and `Sign`): `Lock`, the code behind it, and `Unlock`, which a `defer` or each
-- path of its own calls, are steps, and a thread waits at `Lock` while another one holds the mutex.
-- The mutex of the cache of login failures is taken and released inside one call of that cache.
pub mod Rank
pub mod Invariant
pub mod Returns
mod Tests
use infisical_ksp.Base.{
  ℕ, nat_beq, Bool, true, false, Option, none, some, List, [], ◌∷◌, ◌++◌, if◌then◌else◌, Bytes,
}
use infisical_ksp.Base.Result.{Result, ok, err}
use infisical_ksp.Config.{Config}
use infisical_ksp.Crypto.{PublicKey}
use infisical_ksp.Session.{find_signer, cached_public_key, store_public_key}
use infisical_ksp.Session.Auth.{ensure_token}
use infisical_ksp.Session.Defs.{State, Env}
use infisical_ksp.Session.Threads.{
  Event, turn_of, others, find_request, key_request, sign_request, signer_answer, key_answer, Pc,
  called, key_token, key_parsed, sign_token, sign_context, sign_failed, returned, key_authorized,
  sign_authorized, advance,
}

-- Where a thread is: outside the mutex; behind `Lock`, in front of the code that it guards; or behind
-- that code, in front of `Unlock`.
pub data Stage : Type 0 where
  outside : Pc → Stage
  locked : Pc → Stage
  unlocking : Pc → Stage

-- The threads of a session, and which of them holds the mutex.
pub record Guarded : Type 0 where
  pub holder : Option ℕ
  pub stage : ℕ → Stage
  pub state : State

abbrev pub update_stage : (ℕ → Stage) → ℕ → Stage → ℕ → Stage
update_stage stage i g j = if nat_beq j i then g else stage j

-- What comes next begins with `s.mu.Lock()`.
unfoldable pub takes_mutex : Pc → Bool
takes_mutex (called request) = true
takes_mutex (key_parsed signer_id key) = true
takes_mutex (key_token signer_id token) = false
takes_mutex (sign_token signer_id algorithm digest token) = false
takes_mutex (sign_context signer_id algorithm digest token ctx) = false
takes_mutex (sign_failed token signer_id digest ctx e) = false
takes_mutex (returned a) = false

-- `ensureToken` under the mutex, with the `Unlock` in front of the look at its error.
unfoldable pub then_unlock : Pc × State → Stage × State
then_unlock (p, st) = (unlocking p, st)

module _ (env : Env) (cfg : Config) where
  -- The first section of `PublicKey`, which has an `Unlock` on each path.
  unfoldable pub key_section : Bytes → Option PublicKey × State → Stage × State
  key_section signer_id (some key, st) = (unlocking (returned (key_answer (ok key))), st)
  key_section signer_id (none, st) =
      then_unlock (key_authorized signer_id (ensure_token env cfg st))

  -- The code behind `Lock`.
  unfoldable pub guarded_section : Pc → State → Stage × State
  guarded_section (called (find_request name_or_id)) st =
      let (r, st') = find_signer env cfg name_or_id st in
      (unlocking (returned (signer_answer r)), st')
  guarded_section (called (key_request signer_id)) st =
      key_section signer_id (cached_public_key env cfg signer_id st)
  guarded_section (called (sign_request signer_id algorithm digest)) st =
      then_unlock (sign_authorized signer_id algorithm digest (ensure_token env cfg st))
  guarded_section (key_parsed signer_id key) st =
      let (r, st') = store_public_key env cfg signer_id key st in
      (unlocking (returned (key_answer r)), st')
  guarded_section p st = (unlocking p, st)

  -- `Lock`: the thread waits where the mutex is held.
  unfoldable pub acquire : ℕ → Pc → Option ℕ → Guarded → Guarded
  acquire i p none s = record s { holder = some i; stage = update_stage s.stage i (locked p) }
  acquire i p (some j) s = s

  unfoldable pub move : ℕ → Stage → Guarded → Guarded
  move i (outside p) s =
      let (p', st) = advance env cfg p s.state in
      if takes_mutex p
      then acquire i p s.holder s
      else record s { stage = update_stage s.stage i (outside p'); state = st }
  move i (locked p) s =
      let (g, st) = guarded_section p s.state in
      record s { stage = update_stage s.stage i g; state = st }
  move i (unlocking p) s = record s { holder = none; stage = update_stage s.stage i (outside p) }

  -- One event, and the events of a schedule.
  unfoldable pub happen_guarded : Event → Guarded → Guarded
  happen_guarded (turn_of i) s = move i (s.stage i) s
  happen_guarded (others later w) s = record s {
    state = record s.state { world = record w { calls = later ++ s.state.world.calls } };
  }

  unfoldable pub run_guarded : List Event → Guarded → Guarded
  run_guarded [] s = s
  run_guarded (e ∷ schedule) s = run_guarded schedule (happen_guarded e s)
