-- ===== src/Session/Threads/Mutex/Rank.antt =====
-- How many turns a thread has left: each step of the code behind `Lock` or outside of it is one.
use infisical_ksp.Base.{
  ℕ, ◌-◌, ◌+◌, ◌≤◌, nat_eq, true, false, Option, none, some, ◌≡◌, refl, Bytes, arith,
}
use infisical_ksp.Base.Result.{Result, ok, err}
use infisical_ksp.Config.{Config}
use infisical_ksp.Context.{SigningContext}
use infisical_ksp.Crypto.{PublicKey}
use infisical_ksp.Errors.{GoError}
use infisical_ksp.Session.Auth.{ensure_token}
use infisical_ksp.Session.Defs.{State, Env}
use infisical_ksp.Session.Threads.{
  find_request, key_request, sign_request, Answer, Pc, called, key_token, key_parsed, sign_token,
  sign_context, sign_failed, returned, key_authorized, sign_authorized, parsed, certificate_read,
  signature_read, advance,
}
use infisical_ksp.Session.Threads.Mutex.{
  Stage, outside, locked, unlocking, takes_mutex, then_unlock, key_section, guarded_section,
}

-- The turns that a thread outside the mutex has left at most, if it never waits.
unfoldable pub rank : Pc → ℕ
rank (called (find_request name)) = 3
rank (called (key_request signer_id)) = 7
rank (called (sign_request signer_id algorithm digest)) = 6
rank (key_token signer_id token) = 4
rank (key_parsed signer_id key) = 3
rank (sign_token signer_id algorithm digest token) = 3
rank (sign_context signer_id algorithm digest token ctx) = 2
rank (sign_failed token signer_id digest ctx e) = 1
rank (returned a) = 0

-- The same for a thread anywhere.
unfoldable pub left : Stage → ℕ
left (outside p) = rank p
left (locked p) = rank p - 1
left (unlocking p) = rank p + 1

abbrev pub HasReturned : Stage → Type 0
HasReturned g = (a : Answer) × (g ≡ outside (returned a))

pub rank-le : (p : Pc) → rank p ≤ 7
unfolding rank
rank-le (called (find_request name)) = omega arith
rank-le (called (key_request signer_id)) = omega arith
rank-le (called (sign_request signer_id algorithm digest)) = omega arith
rank-le (key_token signer_id token) = omega arith
rank-le (key_parsed signer_id key) = omega arith
rank-le (sign_token signer_id algorithm digest token) = omega arith
rank-le (sign_context signer_id algorithm digest token ctx) = omega arith
rank-le (sign_failed token signer_id digest ctx e) = omega arith
rank-le (returned a) = omega arith

pub left-le : (g : Stage) → left g ≤ 8
unfolding left
left-le (outside p) = omega (arith, rank-le p)
left-le (locked p) = omega (arith, rank-le p)
left-le (unlocking p) = omega (arith, rank-le p)

pub rank-takes_mutex : (p : Pc) → takes_mutex p ≡ true → 3 ≤ rank p
unfolding rank takes_mutex
rank-takes_mutex (called (find_request name)) h = omega arith
rank-takes_mutex (called (key_request signer_id)) h = omega arith
rank-takes_mutex (called (sign_request signer_id algorithm digest)) h = omega arith
rank-takes_mutex (key_parsed signer_id key) h = omega arith
rank-takes_mutex (key_token signer_id token) h = absurd (cc)
rank-takes_mutex (sign_token signer_id algorithm digest token) h = absurd (cc)
rank-takes_mutex (sign_context signer_id algorithm digest token ctx) h = absurd (cc)
rank-takes_mutex (sign_failed token signer_id digest ctx e) h = absurd (cc)
rank-takes_mutex (returned a) h = absurd (cc)

rank-key_authorized :
    (signer_id : Bytes) (q : Result GoError Bytes × State) → rank (key_authorized signer_id q).0 ≤ 4
unfolding rank key_authorized
rank-key_authorized signer_id (ok token, st) = omega arith
rank-key_authorized signer_id (err e, st) = omega arith

rank-sign_authorized :
    (signer_id algorithm digest : Bytes) (q : Result GoError Bytes × State)
    → rank (sign_authorized signer_id algorithm digest q).0 ≤ 3
unfolding rank sign_authorized
rank-sign_authorized signer_id algorithm digest (ok token, st) = omega arith
rank-sign_authorized signer_id algorithm digest (err e, st) = omega arith

rank-parsed : (signer_id : Bytes) (r : Result GoError PublicKey) → rank (parsed signer_id r) ≤ 3
unfolding rank parsed
rank-parsed signer_id (ok key) = omega arith
rank-parsed signer_id (err e) = omega arith

-- A section leaves its thread in front of `Unlock`, with fewer turns.
abbrev pub Ends : Pc → Stage → Type 0
Ends p g = (q : Pc) × (g ≡ unlocking q) × (rank q + 1 ≤ rank p - 2)

then_unlock-Ends : (p : Pc) (q : Pc × State) → rank q.0 + 1 ≤ rank p - 2 → Ends p (then_unlock q).0
unfolding then_unlock
then_unlock-Ends p (p', st) h = (p', refl, h)

module _ (env : Env) (cfg : Config) where
  rank-certificate_read :
      (signer_id : Bytes) (r : Result GoError Bytes)
      → rank (certificate_read env cfg signer_id r) ≤ 3
  unfolding rank certificate_read
  rank-certificate_read signer_id (ok cert_pem) = rank-parsed signer_id _
  rank-certificate_read signer_id (err e) = omega arith

  rank-signature_read :
      (token signer_id : Bytes) (ctx : SigningContext) (digest : Bytes) (r : Result GoError Bytes)
      → rank (signature_read env cfg token signer_id ctx digest r) ≤ 1
  unfolding rank signature_read
  rank-signature_read token signer_id ctx digest (ok sig_b64) = omega arith
  rank-signature_read token signer_id ctx digest (err e) = omega arith

  pub rank-advance :
      (p : Pc) (st : State) → takes_mutex p ≡ false → rank (advance env cfg p st).0 ≤ rank p - 1
  unfolding rank advance takes_mutex
  rank-advance (called request) st h = absurd (cc)
  rank-advance (key_token signer_id token) st h = rank-certificate_read signer_id _
  rank-advance (key_parsed signer_id key) st h = absurd (cc)
  rank-advance (sign_token signer_id algorithm digest token) st h = omega arith
  rank-advance (sign_context signer_id algorithm digest token ctx) st h =
      rank-signature_read token signer_id ctx digest _
  rank-advance (sign_failed token signer_id digest ctx e) st h = omega arith
  rank-advance (returned a) st h = omega arith

  key_section-Ends :
      (signer_id : Bytes) (q : Option PublicKey × State)
      → Ends (called (key_request signer_id)) (key_section env cfg signer_id q).0
  unfolding key_section rank
  key_section-Ends signer_id (some key, st) = (_, refl, omega arith)
  key_section-Ends signer_id (none, st) =
      then_unlock-Ends (called (key_request signer_id)) _
        (omega (arith, rank-key_authorized signer_id (ensure_token env cfg st)))

  pub guarded_section-Ends :
      (p : Pc) (st : State) → takes_mutex p ≡ true → Ends p (guarded_section env cfg p st).0
  unfolding guarded_section rank takes_mutex
  guarded_section-Ends (called (find_request name)) st h = (_, refl, omega arith)
  guarded_section-Ends (called (key_request signer_id)) st h = key_section-Ends signer_id _
  guarded_section-Ends (called (sign_request signer_id algorithm digest)) st h =
      then_unlock-Ends (called (sign_request signer_id algorithm digest)) _
        (omega (arith, rank-sign_authorized signer_id algorithm digest (ensure_token env cfg st)))
  guarded_section-Ends (key_parsed signer_id key) st h = (_, refl, omega arith)
  guarded_section-Ends (key_token signer_id token) st h = absurd (cc)
  guarded_section-Ends (sign_token signer_id algorithm digest token) st h = absurd (cc)
  guarded_section-Ends (sign_context signer_id algorithm digest token ctx) st h = absurd (cc)
  guarded_section-Ends (sign_failed token signer_id digest ctx e) st h = absurd (cc)
  guarded_section-Ends (returned a) st h = absurd (cc)
