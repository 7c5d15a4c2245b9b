-- ===== src/Config/Validity.antt =====
-- What holds of every configuration that is loaded.
use infisical_ksp.Base.{
  Bool, true, false, List, [], ◌≡◌, ◌≢◌, refl, sym, subst, ◌⊎◌, inl, inr, ◌==◌, bytes_eq,
  bytes_beq_iff, Bytes, text, to_lower, arith, Bool-cases, Option-cases,
}
use infisical_ksp.Base.Int.{ℤ, pos, ◌≤ℤ◌}
use infisical_ksp.Base.Result.{Result, ok, err}
use infisical_ksp.Config.{Config, auth_method_universal_auth, auth_method_token}
use infisical_ksp.Config.Load.{
  System, FileRead, contents, missing, failed_read, minute, thirty_days, and_then, require, within,
  text_or, env_server_url, env_token, parse_approval_duration, check_location, check_parsed,
  check_server_url, check_method, check_range, check_duration, check_count, check_exclusions,
  check_ip_address, validate, apply_env_overrides, completed, finish, finish_parsed,
  load_config_with, load_config_from, load_config,
}
use infisical_ksp.Context.{validate_scope_exclusions}
use infisical_ksp.Context.Scope.{AllKnown, validate_scope_exclusions_iff}
use infisical_ksp.Errors.{GoError}

and_then-ok :
    {A : Type 0} (r : Result GoError (Unit {0})) (s : Result GoError A) {a : A}
    → and_then r s ≡ ok a
    → (r ≡ ok tt) × (s ≡ ok a)
unfolding and_then
and_then-ok (ok done) s h = (refl, h)
and_then-ok (err e) s h = absurd (cc)

require-ok : (b : Bool) (e : GoError) → require b e ≡ ok tt → b ≡ true
unfolding require
require-ok true e h = refl
require-ok false e h = absurd (cc)

module _ (sys : System) where
  -- An address with a scheme that the client speaks and a host.
  pub record IsReachable (url : Bytes) : Type 0 where
    pub scheme : Bytes
    pub host : Bytes
    pub parsed : sys.parse_url url ≡ ok (scheme, host)
    pub spoken :
        (to_lower sys.unicode scheme ≡ text "http") ⊎ (to_lower sys.unicode scheme ≡ text "https")
    pub has_host : host ≢ []

  -- A duration that is absent, or one that is read as between a minute and thirty days. What is read
  -- of a number of days is behind the wrap-around of an int64.
  abbrev pub IsWindow : Bytes → Type 0
  IsWindow duration =
      (duration ≡ [])
      ⊎ ((d : ℤ) × (parse_approval_duration sys duration ≡ ok d)
          × (minute ≤ℤ d)
          × (d ≤ℤ thirty_days))

  pub record IsValid (c : Config) : Type 0 where
    pub server_url : IsReachable c.server_url
    pub method : (c.auth.method ≡ auth_method_universal_auth) ⊎ (c.auth.method ≡ auth_method_token)
    pub window : IsWindow c.approval.signing_duration
    pub count : pos 0 ≤ℤ c.approval.signing_count
    pub exclusions : AllKnown c.approval.exclude_scope_fields
    pub ip_address : (c.approval.ip_address ≡ []) ⊎ (sys.is_ip c.approval.ip_address ≡ true)

  check_location-IsReachable :
      (url scheme host : Bytes)
      → sys.parse_url url ≡ ok (scheme, host)
      → check_location sys (scheme, host) ≡ ok tt
      → IsReachable url
  unfolding check_location
  check_location-IsReachable url scheme host p h =
      let (s, t) = and_then-ok _ _ h in
      let s' = require-ok _ _ s in
      let t' = require-ok _ _ t in
      record {
        scheme = scheme;
        host = host;
        parsed = p;
        spoken = ground (
          arith,
          s',
          bytes_beq_iff (to_lower sys.unicode scheme) (text "http"),
          bytes_beq_iff (to_lower sys.unicode scheme) (text "https"),
        );
        has_host = ground (arith, t', bytes_beq_iff host []);
      }

  check_parsed-IsReachable :
      (url : Bytes) (r : Result GoError (Bytes × Bytes))
      → sys.parse_url url ≡ r
      → check_parsed sys r ≡ ok tt
      → IsReachable url
  unfolding check_parsed
  check_parsed-IsReachable url (err e) p h = absurd (cc)
  check_parsed-IsReachable url (ok (scheme, host)) p h =
      check_location-IsReachable url scheme host p h

  check_server_url-IsReachable : (url : Bytes) → check_server_url sys url ≡ ok tt → IsReachable url
  unfolding check_server_url
  check_server_url-IsReachable url h =
      let (_, r) = and_then-ok _ _ h in check_parsed-IsReachable url _ refl r

  check_range-IsWindow :
      (duration : Bytes) (r : Result GoError ℤ)
      → parse_approval_duration sys duration ≡ r
      → check_range sys duration r ≡ ok tt
      → IsWindow duration
  unfolding check_range
  check_range-IsWindow duration (err e) p h = absurd (cc)
  check_range-IsWindow duration (ok d) p h =
      let t = require-ok _ _ h in inr (d, p, ground (arith, t), ground (arith, t))

  check_duration-IsWindow :
      (duration : Bytes) → check_duration sys duration ≡ ok tt → IsWindow duration
  unfolding check_duration
  check_duration-IsWindow duration h = elim (Bool-cases (duration == [])) [
    | inl e ↦ inl ((bytes_beq_iff duration []).0 e)
    | inr e ↦ check_range-IsWindow duration _ refl (rw (check_duration, e) at h)
  ]

  check_exclusions-AllKnown :
      (excluded : List Bytes) → check_exclusions sys excluded ≡ ok tt → AllKnown excluded
  unfolding check_exclusions
  check_exclusions-AllKnown excluded h =
      elim (Option-cases (validate_scope_exclusions sys.unicode excluded)) [
        | inl e ↦ (validate_scope_exclusions_iff sys.unicode excluded).0 e
        | inr (e, q) ↦ absurd (let r = rw (check_exclusions, q) at h in cc)
      ]

  validate-IsValid : (c : Config) → validate sys c ≡ ok tt → IsValid c
  unfolding validate check_method check_count check_ip_address
  validate-IsValid c h =
      let (u, h1) = and_then-ok _ _ h in
      let (m, h2) = and_then-ok _ _ h1 in
      let (d, h3) = and_then-ok _ _ h2 in
      let (n, h4) = and_then-ok _ _ h3 in
      let (x, ip) = and_then-ok _ _ h4 in
      record {
        server_url = check_server_url-IsReachable c.server_url u;
        method = ground (
          arith,
          require-ok _ _ m,
          bytes_beq_iff c.auth.method auth_method_universal_auth,
          bytes_beq_iff c.auth.method auth_method_token,
        );
        window = check_duration-IsWindow c.approval.signing_duration d;
        count = ground (arith, require-ok _ _ n);
        exclusions = check_exclusions-AllKnown c.approval.exclude_scope_fields x;
        ip_address = ground (arith, require-ok _ _ ip, bytes_beq_iff c.approval.ip_address []);
      }

  -- What a load gives is the completion of what some file holds, or of nothing.
  pub Loaded : Config → Type 0
  Loaded c = (base : Config) × (c ≡ completed sys base) × (validate sys c ≡ ok tt)

  within-ok : (prefix : Bytes) (r : Result GoError (Unit {0})) → within prefix r ≡ ok tt → r ≡ ok tt
  unfolding within
  within-ok prefix (ok done) h = refl
  within-ok prefix (err e) h = absurd (cc)

  finish-Loaded : (base : Config) {c : Config} → finish sys base ≡ ok c → Loaded c
  unfolding finish Loaded
  finish-Loaded base {c} h =
      let (v, e) = and_then-ok _ _ h in
      let same : completed sys base ≡ c = cc in
      (base, sym same, subst (λ d. validate sys d ≡ ok tt) same (within-ok _ _ v))

  finish_parsed-Loaded :
      (path : Bytes) (r : Result GoError Config) {c : Config}
      → finish_parsed sys path r ≡ ok c
      → Loaded c
  unfolding finish_parsed
  finish_parsed-Loaded path (err e) h = absurd (cc)
  finish_parsed-Loaded path (ok base) h = finish-Loaded base h

  load_config_with-Loaded :
      (path : Bytes) (allow : Bool) (r : FileRead) {c : Config}
      → load_config_with sys path allow r ≡ ok c
      → Loaded c
  unfolding load_config_with
  load_config_with-Loaded path allow (contents s) h = finish_parsed-Loaded path _ h
  load_config_with-Loaded path true (missing e) h = finish-Loaded _ h
  load_config_with-Loaded path false (missing e) h = absurd (cc)
  load_config_with-Loaded path allow (failed_read e) h = absurd (cc)

  load_config-Loaded : {c : Config} → load_config sys ≡ ok c → Loaded c
  unfolding load_config load_config_from
  load_config-Loaded h = load_config_with-Loaded _ _ _ h

  -- Every configuration that is loaded, from the file or from the environment alone, has an address
  -- with the scheme http or https and a host, a known method, a window that is absent or read as
  -- between a minute and thirty days, the wrap-around of a number of days included, no negative
  -- number of signings, scope fields that exist, and an IP address if any.
  pub load_config-IsValid : {c : Config} → load_config sys ≡ ok c → IsValid c
  unfolding Loaded
  load_config-IsValid h = let (_, _, v) = load_config-Loaded h in validate-IsValid _ v

  -- What the environment sets: nothing where the variable is empty.
  pub record FollowsEnvironment (c : Config) : Type 0 where
    pub server_url : (sys.getenv env_server_url ≡ []) ⊎ (c.server_url ≡ sys.getenv env_server_url)
    pub token :
        (sys.getenv env_token ≡ [])
        ⊎ ((c.auth.token ≡ sys.getenv env_token) × (c.auth.method ≡ auth_method_token))

  completed-FollowsEnvironment : (base : Config) → FollowsEnvironment (completed sys base)
  unfolding completed apply_env_overrides text_or
  completed-FollowsEnvironment base = record {
    server_url = ground (arith, bytes_beq_iff (sys.getenv env_server_url) []);
    token = ground (arith, bytes_beq_iff (sys.getenv env_token) []);
  }

  -- In every configuration that is loaded, the server's address and the token are those of the
  -- environment where it sets them, and a token in the environment selects the token method.
  pub load_config-FollowsEnvironment : {c : Config} → load_config sys ≡ ok c → FollowsEnvironment c
  unfolding Loaded
  load_config-FollowsEnvironment h =
      let (base, e, _) = load_config-Loaded h in
      subst FollowsEnvironment (sym e) (completed-FollowsEnvironment base)
