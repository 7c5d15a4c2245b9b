-- ===== src/Provider/Bridge/Origin.antt =====
-- Where the signature of an ECDSA key that the host gets comes from.
use infisical_ksp.Base.{ℕ, ◌<◌, some, List, [], ◌++◌, ◌≡◌, refl, sym, ap, Bytes, arith}
use infisical_ksp.Base.Binary.{fixed}
use infisical_ksp.Base.Int.{pos}
use infisical_ksp.Base.Result.{Result, ok, err}
use infisical_ksp.Cng.Algorithm.{key_ecdsa, Padding, algorithm}
use infisical_ksp.Cng.Asn1.{unmarshal}
use infisical_ksp.Cng.Ecdsa.{coordinate_size, ecdsa_der_to_raw}
use infisical_ksp.Cng.Ecdsa.Raw.{ecdsa_der_to_raw_inv}
use infisical_ksp.Client.{Call}
use infisical_ksp.Config.{Config}
use infisical_ksp.Crypto.{ecdsa, EcdsaPublicKey}
use infisical_ksp.Errors.{GoError}
use infisical_ksp.Provider.Bridge.{buffer_of, logged, padding_of, sign_padded, go_sign_hash}
use infisical_ksp.Provider.Bridge.Reachable.{Reachable, Reachable-AllServed, key_by_handle-IsServed}
use infisical_ksp.Provider.Bridge.Size.{buffer_of_success}
use infisical_ksp.Provider.Key.{
  KeyState, Process, key_by_handle, reshape, run_session, sign_with, sign_hash,
}
use infisical_ksp.Provider.Open.{Host}
use infisical_ksp.Provider.Status.{status_success}
use infisical_ksp.Session.Signing.Origin.{sign-SignedBy}
use infisical_ksp.Session.Threads.Certified.{SignedBy}

-- The raw form of what the server signed, for the algorithm of the request.
pub record Delivered (host : Host) (cfg : Config) (calls : List Call) (ks : KeyState)
    (padding : Padding) (hash_name digest sig : Bytes) : Type 0 where
  pub asked : Bytes
  pub der : Bytes
  pub names : algorithm host.env.os.unicode key_ecdsa padding hash_name ≡ ok asked
  pub signed : SignedBy host.env cfg calls ks.signer.id asked digest der
  pub r : ℕ
  pub s : ℕ
  pub positive : (0 < r) × (0 < s)
  pub reads : unmarshal der ≡ some ((pos r, pos s), [])
  pub raw : sig ≡ fixed (coordinate_size ks.curve_bits) r ++ fixed (coordinate_size ks.curve_bits) s

module _ (host : Host) where
  reshape_inv :
      (ks : KeyState) (r : Result GoError Bytes) {sig : Bytes}
      → ks.key_type ≡ key_ecdsa
      → reshape host.env ks r ≡ ok sig
      → (der : Bytes) × (r ≡ ok der) × (ecdsa_der_to_raw der ks.curve_bits ≡ ok sig)
  unfolding reshape
  reshape_inv ks (err e) t h = absurd (cc)
  reshape_inv ks (ok der) t h = (der, refl, rw (reshape, t) at h)

  sign_with-Delivered :
      (ks : KeyState) (padding : Padding) (hash_name digest : Bytes) (alg : Result GoError Bytes)
      (pr : Process) {sig : Bytes}
      → ks.key_type ≡ key_ecdsa
      → algorithm host.env.os.unicode key_ecdsa padding hash_name ≡ alg
      → (sign_with host.env ks digest alg pr).0 ≡ ok sig
      → Delivered host
          (pr.sessions ks.prov).cfg
          (sign_with host.env ks digest alg pr).1.world.calls
          ks
          padding
          hash_name
          digest
          sig
  unfolding sign_with run_session
  sign_with-Delivered ks padding hash_name digest (err e) pr t a h = absurd (cc)
  sign_with-Delivered ks padding hash_name digest (ok asked) pr t a h =
      let (der, given, converts) = reshape_inv ks _ t h in
      let (r, s, reads, hr, hs, raw, _) = ecdsa_der_to_raw_inv der ks.curve_bits converts in
      record {
        asked = asked;
        der = der;
        names = a;
        signed = sign-SignedBy host.env (pr.sessions ks.prov).cfg ks.signer.id asked digest _ given;
        r = r;
        s = s;
        positive = (hr, hs);
        reads = reads;
        raw = raw;
      }

  buffer_of-world :
      (op : Bytes) (q : Result GoError Bytes × Process) → (buffer_of op q).1.world ≡ q.1.world
  unfolding buffer_of logged
  buffer_of-world op (ok b, pr) = refl
  buffer_of-world op (err e, pr) = refl

  sign_padded-Delivered :
      (ks : KeyState) (digest : Bytes) (padding : Padding) (hash_name : Bytes) (pr : Process)
      {sig : Bytes}
      → ks.key_type ≡ key_ecdsa
      → (sign_padded host ks digest (ok (padding, hash_name)) pr).0 ≡ (sig, status_success)
      → Delivered host
          (pr.sessions ks.prov).cfg
          (sign_padded host ks digest (ok (padding, hash_name)) pr).1.world.calls
          ks
          padding
          hash_name
          digest
          sig
  unfolding sign_padded sign_hash
  sign_padded-Delivered ks digest padding hash_name pr t h =
      rw (buffer_of-world _ (sign_hash host.env ks padding hash_name digest pr)) (
        sign_with-Delivered ks padding hash_name digest _ pr t
          (ap (λ k. algorithm host.env.os.unicode k padding hash_name) (sym t))
          (buffer_of_success _ _ h))

  -- For the padding and the hash that a request stands for.
  pub Answered : KeyState → ℕ → Bytes → Bytes → Bytes → Process → List Call → Type 0
  Answered ks flags hash_id digest sig pr calls =
      (padding : Padding) × (hash_name : Bytes) × (padding_of flags hash_id digest
        ≡ ok (padding, hash_name))
      × Delivered host (pr.sessions ks.prov).cfg calls ks padding hash_name digest sig

  sign_padded-Answered :
      (ks : KeyState) (flags : ℕ) (hash_id digest : Bytes) (p : Result GoError (Padding × Bytes))
      (pr : Process) {sig : Bytes}
      → ks.key_type ≡ key_ecdsa
      → padding_of flags hash_id digest ≡ p
      → (sign_padded host ks digest p pr).0 ≡ (sig, status_success)
      → Answered ks flags hash_id digest sig pr (sign_padded host ks digest p pr).1.world.calls
  unfolding Answered
  sign_padded-Answered ks flags hash_id digest (ok (padding, hash_name)) pr t e h =
      (padding, hash_name, e, sign_padded-Delivered ks digest padding hash_name pr t h)
  sign_padded-Answered ks flags hash_id digest (err e') pr t e h =
      absurd (unfold sign_padded in omega (arith, ap (λ p. p.1) h))

  -- In every process that calls of the bridge lead to, a signature that the host gets with success
  -- for an ECDSA key stands for two positive numbers which the server gave, in a sign call that the
  -- history holds, for the signer of the key, the digest, and the algorithm that the request names.
  pub go_sign_hash-Answered :
      (h flags : ℕ) (hash_id digest : Bytes) (pr : Process) (ks : KeyState) (p : EcdsaPublicKey)
      (sig : Bytes)
      → Reachable host pr
      → key_by_handle h pr ≡ ok ks
      → ks.key ≡ ecdsa p
      → (go_sign_hash host h flags hash_id digest pr).0 ≡ (sig, status_success)
      → Answered ks flags hash_id digest sig pr
          (go_sign_hash host h flags hash_id digest pr).1.world.calls
  unfolding go_sign_hash
  go_sign_hash-Answered h flags hash_id digest pr ks p sig r hk hp hs =
      let served = key_by_handle-IsServed host h pr (Reachable-AllServed host r) hk in
      let (t, _) : (ks.key_type ≡ key_ecdsa) × (ks.curve_bits ≡ p.bit_size) =
        rw hp at served.shaped in
      rw (go_sign_hash, hk)
        (sign_padded-Answered ks flags hash_id digest (padding_of flags hash_id digest) pr t refl
          (rw (go_sign_hash, hk) at hs))
