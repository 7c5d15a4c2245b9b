-- ===== src/Client/Connection/Address.antt =====
-- The address that calls go to.
use infisical_ksp.Base.{
  ℕ, suc, Bool, true, subst, bytes_beq, false, ◌&&◌, nat_beq, Option, none, some, [], ◌∷◌, ◌++◌,
  ◌≡◌, ◌≢◌, refl, ap, ◌∙◌, inl, inr, ◌==◌, bytes_eq, bytes_beq_iff, Bool-cases, Bytes, replicate,
  arith,
}
use infisical_ksp.Base.Result.{Result, ok, err}
use infisical_ksp.Client.Connection.{
  tls_version_12, HttpClient, trim_slashes, read_pool, root_pool, connected, new_client,
}
use infisical_ksp.Config.{Config, TlsConfig}
use infisical_ksp.Config.Load.{FileRead, contents, missing, failed_read}
use infisical_ksp.Errors.{GoError}

-- The last byte of a text is another one, where there is a last byte.
abbrev pub EndsOtherThan : ℕ → Bytes → Type 0
EndsOtherThan c [] = Unit
EndsOtherThan c (b ∷ []) = b ≢ c
EndsOtherThan c (b ∷ d ∷ s) = EndsOtherThan c (d ∷ s)

-- A text is its trimmed part and slashes.
trim_slashes_splits : (s : Bytes) → (n : ℕ) × (s ≡ trim_slashes s ++ replicate n b'/')
unfolding trim_slashes
trim_slashes_splits [] = (0, refl)
trim_slashes_splits (c ∷ s) =
    let (n, split) = trim_slashes_splits s in
    elim (Bool-cases (nat_beq c b'/' && trim_slashes s == [])) [
      | inl bare ↦
          let empty : trim_slashes s ≡ [] = ground (arith, bytes_beq_iff (trim_slashes s) []) in
          let slash : c ≡ b'/' = ground arith in
          (
            suc n,
            rw (bare, trim_slashes)
                (rw slash (ap (◌∷◌ b'/') (split ∙ ap (λ t. t ++ replicate n b'/') empty))),
          )
      | inr kept ↦ (n, rw (kept, trim_slashes) (ap (◌∷◌ c) split))
    ]

EndsOtherThan-cons :
    (c : ℕ) (t : Bytes)
    → (nat_beq c b'/' && t == []) ≡ false
    → EndsOtherThan b'/' t
    → EndsOtherThan b'/' (c ∷ t)
unfolding bytes_beq
EndsOtherThan-cons c [] h e = ground arith
EndsOtherThan-cons c (b ∷ t) h e = e

trim_slashes_ends : (s : Bytes) → EndsOtherThan b'/' (trim_slashes s)
unfolding trim_slashes
trim_slashes_ends [] = tt
trim_slashes_ends (c ∷ s) = elim (Bool-cases (nat_beq c b'/' && trim_slashes s == [])) [
  | inl bare ↦ rw (bare, trim_slashes) tt
  | inr kept ↦ rw (kept, trim_slashes) (EndsOtherThan-cons c _ kept (trim_slashes_ends s))
]

module _ (read_file : Bytes → FileRead) (append_certs : Bytes → Bool) where
  connected_inv :
      (cfg : Config) (p : Result GoError (Option Bytes)) {c : HttpClient}
      → connected read_file append_certs cfg p ≡ ok c
      → (p ≡ ok c.root_cas)
        × (c.base_url ≡ trim_slashes cfg.server_url)
        × (c.skip_verify ≡ cfg.tls.skip_verify)
        × (c.min_version ≡ tls_version_12)
  unfolding connected
  connected_inv cfg (err e) h = absurd (cc)
  connected_inv cfg (ok pool) h = ground arith

  -- The certificates that a configured file holds, where there is a file.
  pub Trusts : TlsConfig → Option Bytes → Type 0
  Trusts tls none = tls.ca_cert_path ≡ []
  Trusts tls (some pem) =
      (tls.ca_cert_path ≢ [])
      × (read_file tls.ca_cert_path ≡ contents pem)
      × (append_certs pem ≡ true)

  read_pool-Trusts :
      (tls : TlsConfig) (r : FileRead) {p : Option Bytes}
      → tls.ca_cert_path ≢ []
      → read_file tls.ca_cert_path ≡ r
      → read_pool read_file append_certs tls.ca_cert_path r ≡ ok p
      → Trusts tls p
  unfolding read_pool Trusts
  read_pool-Trusts tls (contents pem) {p} n q h = elim (Bool-cases (append_certs pem)) [
    | inl holds ↦
        let same : some pem ≡ p = let t = rw holds at h in cc in
        subst (Trusts tls) same (n, q, holds)
    | inr bare ↦ absurd (let t = rw bare at h in cc)
  ]
  read_pool-Trusts tls (missing e) n q h = absurd (cc)
  read_pool-Trusts tls (failed_read e) n q h = absurd (cc)

  root_pool-Trusts :
      (tls : TlsConfig) {p : Option Bytes}
      → root_pool read_file append_certs tls ≡ ok p
      → Trusts tls p
  unfolding root_pool
  root_pool-Trusts tls {p} h = elim (Bool-cases (tls.ca_cert_path == [])) [
    | inl none_set ↦
        let same : none ≡ p = let t = rw none_set at h in cc in
        subst (Trusts tls) same (unfold Trusts in (bytes_beq_iff tls.ca_cert_path []).0 none_set)
    | inr set ↦
        read_pool-Trusts tls _ (ground (arith, bytes_beq_iff tls.ca_cert_path [])) refl
          (rw set at h)
  ]

  -- A client that is set up goes to the configured address without the slashes at its end, so that
  -- a path behind it begins with its only slash; it trusts the certificates of the configured file
  -- if there is one, which then holds some, it leaves certificates unverified only
  -- as configured, and it accepts no version of TLS below 1.2.
  pub new_client-ok :
      (cfg : Config) {c : HttpClient}
      → new_client read_file append_certs cfg ≡ ok c
      → ((n : ℕ) × (cfg.server_url ≡ c.base_url ++ replicate n b'/'))
        × EndsOtherThan b'/' c.base_url
        × Trusts cfg.tls c.root_cas
        × (c.skip_verify ≡ cfg.tls.skip_verify)
        × (c.min_version ≡ tls_version_12)
  unfolding new_client
  new_client-ok cfg {c} h =
      let (p, url, verify, version) = connected_inv cfg _ h in
      (
        rw url (trim_slashes_splits cfg.server_url),
        rw url (trim_slashes_ends cfg.server_url),
        root_pool-Trusts cfg.tls p,
        verify,
        version,
      )
