-- ===== src/Provider/Bridge/Modulus.antt =====
-- The size of an RSA key's signatures.
use infisical_ksp.Base.{ℕ, ◌%◌, ◌^◌, ◌<◌, ◌≡◌, refl, ap, length, arith}
use infisical_ksp.Base.Binary.{be_bytes}
use infisical_ksp.Base.Result.{ok}
use infisical_ksp.Cng.Algorithm.{key_rsa}
use infisical_ksp.Cng.PubKey.{bit_len, rsa_public_blob}
use infisical_ksp.Cng.PubKey.Bits.{length-be_bytes}
use infisical_ksp.Crypto.{rsa, RsaPublicKey}
use infisical_ksp.Provider.Bridge.{buffer_of, max_size, go_signature_max_size, go_export_key}
use infisical_ksp.Provider.Bridge.Reachable.{Reachable, Reachable-AllServed, key_by_handle-IsServed}
use infisical_ksp.Provider.Key.{
  KeyState, Process, key_by_handle, key_length_bits, export_public_blob,
}
use infisical_ksp.Provider.Key.Shape.{IsShaped}
use infisical_ksp.Provider.Open.{Host}
use infisical_ksp.Provider.Status.{status_success}

shaped_rsa :
    (ks : KeyState) (k : RsaPublicKey) → IsShaped ks → ks.key ≡ rsa k → ks.key_type ≡ key_rsa
shaped_rsa ks k hs hk = rw hk at hs

max_size_rsa :
    (ks : KeyState) (k : RsaPublicKey)
    → IsShaped ks
    → ks.key ≡ rsa k
    → bit_len k.n < 2 ^ 32
    → max_size ks % 2 ^ 32 ≡ length (be_bytes k.n)
unfolding max_size key_length_bits
max_size_rsa ks k hs hk h =
    rw (max_size, key_length_bits, shaped_rsa ks k hs hk, hk) (omega (arith, length-be_bytes k.n))

-- In every process that calls of the bridge lead to, the sizing call for an RSA key with a modulus
-- below 2 ^ 32 bits gives the number of bytes of the modulus, and the same handle exports the blob
-- with that modulus.
pub go_signature_max_size-rsa :
    (host : Host) (h : ℕ) (pr : Process) (ks : KeyState) (k : RsaPublicKey)
    → Reachable host pr
    → key_by_handle h pr ≡ ok ks
    → ks.key ≡ rsa k
    → bit_len k.n < 2 ^ 32
    → (go_signature_max_size h pr ≡ (length (be_bytes k.n), status_success))
      × (go_export_key h pr ≡ ((rsa_public_blob k, status_success), pr))
unfolding go_signature_max_size go_export_key export_public_blob buffer_of
go_signature_max_size-rsa host h pr ks k r hk hp hb =
    let served = key_by_handle-IsServed host h pr (Reachable-AllServed host r) hk in
    (
      rw (go_signature_max_size, hk)
          (ap (λ n. (n, status_success)) (max_size_rsa ks k served.shaped hp hb)),
      rw (go_export_key, hk) (rw (export_public_blob, hp) refl),
    )
