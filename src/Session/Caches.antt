-- ===== src/Session/Caches.antt =====
-- The lists of signers and the public keys that a session keeps.
use infisical_ksp.Base.{
  true, false, none, some, List, [], ◌∷◌, ◌++◌, ◌≡◌, ◌⊎◌, refl, ap, ◌∙◌, inl, inr, Bool-cases,
  Option-cases, arith, bytes_eq, beq_refl, bytes_beq_iff, Bytes,
}
use infisical_ksp.Base.Dict.{lookup, lookup-insert}
use infisical_ksp.Base.Int.{ℤ, ◌<ℤ◌, ◌+ℤ◌}
use infisical_ksp.Base.Result.{ok}
use infisical_ksp.Client
use infisical_ksp.Client.{Signer, seconds_duration}
use infisical_ksp.Config.{Config}
use infisical_ksp.Crypto.{PublicKey}
use infisical_ksp.Session.{
  matches_signer, find_in, cached_public_key, store_public_key, store_certificate,
  fetch_certificate, fetch_public_key, public_key, public_key_from_cert_pem,
}
use infisical_ksp.Session.Auth.{ensure_token}
use infisical_ksp.Session.Monad.{result, send, Ensures, then_run-Ensures}
use infisical_ksp.Session.Defs.{State, Env, PubKeyCacheEntry, now}

-- No signer of a list has the name or the ID.
abbrev pub NoneMatches : Bytes → List Signer → Type 0
NoneMatches name [] = Unit
NoneMatches name (sg ∷ signers) = (matches_signer name sg ≡ false) × NoneMatches name signers

-- `sg` is the first signer of the list with the name or the ID.
pub record IsFirst (name : Bytes) (signers : List Signer) (sg : Signer) : Type 0 where
  pub before : List Signer
  pub after : List Signer
  pub splits : signers ≡ before ++ sg ∷ after
  pub hit : (sg.name ≡ name) ⊎ (sg.id ≡ name)
  pub first : NoneMatches name before

matches_signer_eq :
    (name : Bytes) (sg : Signer) → matches_signer name sg ≡ true → (sg.name ≡ name) ⊎ (sg.id ≡ name)
unfolding matches_signer
matches_signer_eq name sg h =
    ground (arith, h, bytes_beq_iff sg.name name, bytes_beq_iff sg.id name)

-- What the search returns is the first signer that has the name or the ID asked for.
pub find_in-IsFirst :
    (name : Bytes) (signers : List Signer) {sg : Signer}
    → find_in name signers ≡ some sg
    → IsFirst name signers sg
unfolding find_in
find_in-IsFirst name [] h = absurd (cc)
find_in-IsFirst name (x ∷ signers) {sg} h = elim (Bool-cases (matches_signer name x)) [
  | inl hit ↦
      let same : x ≡ sg = ground (arith, h, hit) in
      record {
        before = [];
        after = signers;
        splits = rw same refl;
        hit = rw same at (matches_signer_eq name x hit);
        first = tt;
      }
  | inr miss ↦
      let rest = find_in-IsFirst name signers (ground (arith, h, miss)) in
      record {
        before = x ∷ rest.before;
        after = rest.after;
        splits = ap (◌∷◌ x) rest.splits;
        hit = rest.hit;
        first = (miss, rest.first);
      }
]

module _ (env : Env) (cfg : Config) (signer_id : Bytes) where
  -- The session holds the key until some time.
  abbrev Holds : PublicKey → State → Type 0
  Holds key st =
      (expires_at : ℤ) × (lookup signer_id st.session.pub_keys
        ≡ some (record { key = key; expires_at = expires_at }))

  store_public_key-Holds :
      (key : PublicKey) (st : State) → Ensures Holds (store_public_key env cfg signer_id key st)
  unfolding store_public_key
  store_public_key-Holds key st =
      let expires_at = (now env st.world).0 +ℤ seconds_duration cfg.cache.cert_ttl_seconds in
      (
        expires_at,
        lookup-insert signer_id signer_id (record { key = key; expires_at = expires_at })
              st.session.pub_keys
            ∙ rw beq_refl refl,
      )

  fetch_public_key-Holds : (st : State) → Ensures Holds (fetch_public_key env cfg signer_id st)
  unfolding fetch_public_key fetch_certificate store_certificate
  fetch_public_key-Holds st =
      then_run-Ensures Holds (ensure_token env cfg st) (fetch_certificate env cfg signer_id)
        λ token st1.
          then_run-Ensures Holds
            (send (λ calls. Client.get_certificate env.server calls token signer_id) st1)
            (store_certificate env cfg signer_id)
            λ pem st2.
              then_run-Ensures Holds (result (public_key_from_cert_pem env pem) st2)
                (store_public_key env cfg signer_id) store_public_key-Holds

  cached_public_key-Holds :
      (st : State) {key : PublicKey}
      → (cached_public_key env cfg signer_id st).0 ≡ some key
      → Holds key (cached_public_key env cfg signer_id st).1
  unfolding cached_public_key
  cached_public_key-Holds st {key} h = elim (Option-cases (lookup signer_id st.session.pub_keys)) [
    | inl absent ↦ absurd (ground (arith, h, absent))
    | inr (entry, found) ↦ (entry.expires_at, ground (arith, h, found))
  ]

  public_key_hit :
      (st : State) {key : PublicKey}
      → (cached_public_key env cfg signer_id st).0 ≡ some key
      → public_key env cfg signer_id st ≡ (ok key, (cached_public_key env cfg signer_id st).1)
  unfolding public_key
  public_key_hit st h = rw (h, public_key) refl

  public_key_miss :
      (st : State)
      → (cached_public_key env cfg signer_id st).0 ≡ none
      → public_key env cfg signer_id st
        ≡ fetch_public_key env cfg signer_id (cached_public_key env cfg signer_id st).1
  unfolding public_key
  public_key_miss st h = rw (h, public_key) refl

  public_key-Holds : (st : State) → Ensures Holds (public_key env cfg signer_id st)
  public_key-Holds st = elim (Option-cases (cached_public_key env cfg signer_id st).0) [
    | inl miss ↦ rw (public_key_miss st miss) (fetch_public_key-Holds _)
    | inr (key, hit) ↦ rw (public_key_hit st hit) (cached_public_key-Holds st hit)
  ]

  public_key_fresh :
      (st : State) (entry : PubKeyCacheEntry)
      → lookup signer_id st.session.pub_keys ≡ some entry
      → (now env st.world).0 <ℤ entry.expires_at
      → public_key env cfg signer_id st ≡ (ok entry.key, record st { world = (now env st.world).1 })
  unfolding public_key cached_public_key
  public_key_fresh st entry found fresh = ground (arith, found)

  -- A public key that was given out is given out again, with no call and no change but a reading of
  -- the clock, as long as the clock shows a time before the expiry of its entry in the cache.
  pub public_key_again :
      (st : State) {key : PublicKey} {entry : PubKeyCacheEntry}
      → (public_key env cfg signer_id st).0 ≡ ok key
      → lookup signer_id (public_key env cfg signer_id st).1.session.pub_keys ≡ some entry
      → (now env (public_key env cfg signer_id st).1.world).0 <ℤ entry.expires_at
      → public_key env cfg signer_id (public_key env cfg signer_id st).1 ≡ (
        ok key,
        record (public_key env cfg signer_id st).1 {
          world = (now env (public_key env cfg signer_id st).1.world).1;
        },
      )
  public_key_again st {key} {entry} h found fresh =
      let (_, held) = rw h at (public_key-Holds st) in
      let same : entry.key ≡ key = cc (found, held) in
      public_key_fresh (public_key env cfg signer_id st).1 entry found fresh
      ∙ ap
          (λ k. (
            ok k,
            record (public_key env cfg signer_id st).1 {
              world = (now env (public_key env cfg signer_id st).1.world).1;
            },
          ))
          same
