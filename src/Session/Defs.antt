-- ===== src/Session/Defs.antt =====
-- The state of a session and of the process around it (internal/infisical/session.go).
use infisical_ksp.Base.{ℕ, ◌+◌, Option, none, List, [], Bytes, bytes_eq}
use infisical_ksp.Base.Dict.{Dict}
use infisical_ksp.Base.Int.{ℤ, pos}
use infisical_ksp.Client.{Call, Server, Signer}
use infisical_ksp.Context.{SigningContext}
use infisical_ksp.Context.Capture.{Os}
use infisical_ksp.Crypto.{Codecs, PublicKey}
use infisical_ksp.Errors.{GoError}

-- A point in time is a number of nanoseconds.
pub record AuthFailure : Type 0 where
  pub error : GoError
  pub until : ℤ

pub record PubKeyCacheEntry : Type 0 where
  pub key : PublicKey
  pub expires_at : ℤ

-- What the sessions of a process share: the clock, as the number of readings so far, the calls to
-- the server, the newest first, `authFailCache`, and `signingCtx` once it is captured.
pub record World : Type 0 where
  pub clock_reads : ℕ
  pub calls : List Call
  pub auth_fail_cache : Dict Bytes AuthFailure
  pub signing_ctx : Option SigningContext

-- The fields of `Session` that change. `signers` is `none` where the slice is nil.
pub record Session : Type 0 where
  pub token : Bytes
  pub token_expiry : ℤ
  pub signers : Option (List Signer)
  pub signers_expiry : ℤ
  pub pub_keys : Dict Bytes PubKeyCacheEntry

pub record State : Type 0 where
  pub session : Session
  pub world : World

-- The outside: the n-th reading of the clock, the server, the operating system and the codecs.
pub record Env : Type 0 where
  pub time : ℕ → ℕ
  pub server : Server
  pub os : Os
  pub codecs : Codecs

-- `NewSession`; the zero times stand before every reading of the clock.
abbrev pub new_session : Session
new_session = record {
  token = [];
  token_expiry = pos 0;
  signers = none;
  signers_expiry = pos 0;
  pub_keys = [];
}

abbrev pub token_safety_margin : ℕ
token_safety_margin = 30_000_000_000

abbrev pub auth_failure_cache_ttl : ℕ
auth_failure_cache_ttl = 10_000_000_000

-- `time.Now()`: the reading, and the world after it.
abbrev pub now : Env → World → ℤ × World
now env w = (pos (env.time w.clock_reads), record w { clock_reads = w.clock_reads + 1 })
