-- ===== src/Session/Auth/Expiry.antt =====
-- How long a token is kept.
use infisical_ksp.Base.{ℕ, ◌-◌, ◌*◌, ◌^◌, ◌<◌, ◌≡◌, ltb, nat_beq, arith, if◌then◌else◌}
use infisical_ksp.Base.Int.{ℤ, pos, ◌*ℤ◌, ◌-ℤ◌, ◌<ℤ◌, wrap64}
use infisical_ksp.Client.{seconds_duration}
use infisical_ksp.Session.Auth.{cache_ttl}
use infisical_ksp.Session.Defs.{Env, token_safety_margin}

pub seconds_duration_fits :
    (n : ℕ) → n * 1_000_000_000 < 2 ^ 63 → seconds_duration (pos n) ≡ pos (n * 1_000_000_000)
unfolding seconds_duration ◌*ℤ◌ wrap64
seconds_duration_fits n h = ground arith

-- The lifetime that is kept of a reported one, both below 2 ^ 63: the smaller of it and the
-- ceiling, if there is one, less the margin, but at least the margin.
abbrev pub kept_ttl : ℕ → ℕ → ℕ
kept_ttl reported ceiling =
    let capped =
      if nat_beq ceiling 0
      then reported
      else (if ltb ceiling reported then ceiling else reported) in
    if ltb capped (2 * token_safety_margin)
    then token_safety_margin
    else capped - token_safety_margin

-- The time for which a token is kept is the least of the reported lifetime and the configured
-- ceiling, where that is positive, less the safety margin, but no less than the margin; for a
-- reported lifetime and a ceiling that do not overflow.
pub cache_ttl_lem :
    (env : Env) (reported seconds : ℕ)
    → reported < 2 ^ 63
    → seconds * 1_000_000_000 < 2 ^ 63
    → cache_ttl env (pos reported) (pos seconds) ≡ pos (kept_ttl reported (seconds * 1_000_000_000))
unfolding cache_ttl wrap64 ◌-ℤ◌
cache_ttl_lem env reported seconds h k = ground (arith, seconds_duration_fits seconds k)

-- A token that is reported to live for less than the safety margin is kept for longer than it lives.
pub cache_ttl_short :
    (env : Env) (reported : ℕ) (seconds : ℤ)
    → reported < token_safety_margin
    → pos reported <ℤ cache_ttl env (pos reported) seconds
unfolding cache_ttl wrap64 ◌-ℤ◌
cache_ttl_short env reported seconds h = ground arith
