-- ===== src/Config/Days.antt =====
-- A number of days in the approval's window is multiplied without a check.
use infisical_ksp.Base.{
  ℕ, ◌+◌, ◌*◌, ◌^◌, ◌<◌, ◌≡◌, ap, true, Bytes, text, has_suffix, take, length, ◌-◌, arith,
}
use infisical_ksp.Base.Int.{pos, ◌*ℤ◌, wrap64}
use infisical_ksp.Base.Result.{ok}
use infisical_ksp.Config.Load.{System, days_duration, parse_days, parse_approval_duration}

abbrev nanoseconds : ℕ → ℕ
nanoseconds n = n * 24 * 3_600_000_000_000

module _ (sys : System) where
  days_duration-wrap :
      (n : ℕ) → n < 2 ^ 40 → days_duration sys (pos (n + 2 ^ 48)) ≡ days_duration sys (pos n)
  unfolding days_duration ◌*ℤ◌ wrap64
  days_duration-wrap n h = ground arith

  -- Two texts that end in "d", with the numbers n, below 2 ^ 40, and n + 2 ^ 48 before it, are read
  -- as the same duration, where `Atoi` accepts both numbers, as it does where an `int` has 64 bits:
  -- the second wraps around and is not refused.
  pub parse_approval_duration_wraps :
      (s t : Bytes) (n : ℕ)
      → n < 2 ^ 40
      → has_suffix s (text "d") ≡ true
      → has_suffix t (text "d") ≡ true
      → sys.atoi (take (length s - 1) s) ≡ ok (pos n)
      → sys.atoi (take (length t - 1) t) ≡ ok (pos (n + 2 ^ 48))
      → parse_approval_duration sys t ≡ parse_approval_duration sys s
  unfolding parse_approval_duration
  parse_approval_duration_wraps s t n h ds dt hs ht =
      rw (ds, dt, hs, ht) (unfold parse_days in ap ok (days_duration-wrap n h))
