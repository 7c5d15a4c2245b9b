-- ===== src/Provider/Bridge/Size.antt =====
-- The sizing call and the signing call agree.
use infisical_ksp.Base.{ℕ, ◌*◌, ◌%◌, ◌^◌, ◌<◌, some, ◌≡◌, sym, ap, ◌∙◌, Bytes, length, arith}
use infisical_ksp.Base.Result.{Result, ok, err}
use infisical_ksp.Cng.Algorithm.{key_ecdsa, Padding}
use infisical_ksp.Cng.Ecdsa.{coordinate_size}
use infisical_ksp.Cng.Ecdsa.Raw.{ecdsa_der_to_raw_inv}
use infisical_ksp.Crypto.{ecdsa, EcdsaPublicKey}
use infisical_ksp.Errors.{GoError}
use infisical_ksp.Provider.Bridge.{
  buffer_of, max_size, go_signature_max_size, padding_of, sign_padded, go_sign_hash,
}
use infisical_ksp.Provider.Key.{
  KeyState, Process, key_by_handle, key_length_bits, reshape, sign_with, sign_hash,
}
use infisical_ksp.Provider.Key.Shape.{IsShaped}
use infisical_ksp.Provider.Open.{Host}
use infisical_ksp.Provider.Status.{status_success}
use infisical_ksp.Provider.Status.Laws.{status_from_error-success}
use infisical_ksp.Session.Defs.{Env}

-- The length that an ECDSA key's signatures have.
abbrev raw_size : KeyState → ℕ
raw_size ks = 2 * coordinate_size ks.curve_bits

length-reshape :
    (env : Env) (ks : KeyState) (r : Result GoError Bytes) {sig : Bytes}
    → ks.key_type ≡ key_ecdsa
    → reshape env ks r ≡ ok sig
    → length sig ≡ raw_size ks
unfolding reshape
length-reshape env ks (err e) hk h = absurd (cc)
length-reshape env ks (ok der) hk h =
    let (_, _, _, _, _, _, size) = ecdsa_der_to_raw_inv der ks.curve_bits (rw hk at h) in size

length-sign_with :
    (env : Env) (ks : KeyState) (digest : Bytes) (alg : Result GoError Bytes) (pr : Process)
    {sig : Bytes}
    → ks.key_type ≡ key_ecdsa
    → (sign_with env ks digest alg pr).0 ≡ ok sig
    → length sig ≡ raw_size ks
unfolding sign_with
length-sign_with env ks digest (err e) pr hk h = absurd (cc)
length-sign_with env ks digest (ok alg) pr hk h = length-reshape env ks _ hk h

-- Only a result that is a value gives success.
pub buffer_of_success :
    (op : Bytes) (q : Result GoError Bytes × Process) {sig : Bytes}
    → (buffer_of op q).0 ≡ (sig, status_success)
    → q.0 ≡ ok sig
unfolding buffer_of
buffer_of_success op (ok b, pr) h = ap ok (ap (λ p. p.0) h)
buffer_of_success op (err e, pr) h =
    let none_some = status_from_error-success (some e) (ap (λ p. p.1) h) in absurd (cc)

length-sign_padded :
    (host : Host) (ks : KeyState) (digest : Bytes) (p : Result GoError (Padding × Bytes))
    (pr : Process) {sig : Bytes}
    → ks.key_type ≡ key_ecdsa
    → (sign_padded host ks digest p pr).0 ≡ (sig, status_success)
    → length sig ≡ raw_size ks
unfolding sign_padded sign_hash
length-sign_padded host ks digest (err e) pr hk h = absurd (omega (arith, ap (λ p. p.1) h))
length-sign_padded host ks digest (ok (padding, hash_name)) pr hk h =
    length-sign_with host.env ks digest _ pr hk (buffer_of_success _ _ h)

shaped_ecdsa :
    (ks : KeyState) (p : EcdsaPublicKey)
    → IsShaped ks
    → ks.key ≡ ecdsa p
    → (ks.key_type ≡ key_ecdsa) × (ks.curve_bits ≡ p.bit_size)
shaped_ecdsa ks p hs hp = rw hp at hs

max_size_lem :
    (ks : KeyState) (p : EcdsaPublicKey)
    → IsShaped ks
    → ks.key ≡ ecdsa p
    → p.bit_size < 2 ^ 31
    → (ks.key_type ≡ key_ecdsa) × (max_size ks % 2 ^ 32 ≡ raw_size ks)
unfolding max_size key_length_bits coordinate_size
max_size_lem ks p hs hp hb =
    let (t, c) = shaped_ecdsa ks p hs hp in
    (t, rw (max_size, key_length_bits, t, hp) (omega (arith, c)))

-- An ECDSA key's signature has two coordinates.
pub length-go_sign_hash :
    (host : Host) (h flags : ℕ) (hash_id digest : Bytes) (pr : Process) (ks : KeyState)
    (p : EcdsaPublicKey) (sig : Bytes)
    → key_by_handle h pr ≡ ok ks
    → IsShaped ks
    → ks.key ≡ ecdsa p
    → (go_sign_hash host h flags hash_id digest pr).0 ≡ (sig, status_success)
    → length sig ≡ 2 * coordinate_size p.bit_size
unfolding go_sign_hash
length-go_sign_hash host h flags hash_id digest pr ks p sig hk hs hp r =
    let (t, c) = shaped_ecdsa ks p hs hp in
    length-sign_padded host ks digest (padding_of flags hash_id digest) pr t
      (rw (go_sign_hash, hk) at r)
    ∙ ap (λ b. 2 * coordinate_size b) c

-- For a key handle with a well-formed ECDSA key on a curve below 2 ^ 31 bits, every signature that
-- is returned with success is exactly as long as the sizing call says.
pub go_sign_hash-size :
    (host : Host) (h flags : ℕ) (hash_id digest : Bytes) (pr : Process) (ks : KeyState)
    (p : EcdsaPublicKey) (sig : Bytes)
    → key_by_handle h pr ≡ ok ks
    → IsShaped ks
    → ks.key ≡ ecdsa p
    → p.bit_size < 2 ^ 31
    → (go_sign_hash host h flags hash_id digest pr).0 ≡ (sig, status_success)
    → go_signature_max_size h pr ≡ (length sig, status_success)
unfolding go_sign_hash go_signature_max_size
go_sign_hash-size host h flags hash_id digest pr ks p sig hk hs hp hb r =
    let (is_ecdsa, size) = max_size_lem ks p hs hp hb in
    let length_sig =
      length-sign_padded host ks digest (padding_of flags hash_id digest) pr is_ecdsa
        (rw (go_sign_hash, hk) at r) in
    rw (go_signature_max_size, hk) (ap (λ n. (n, status_success)) (size ∙ sym length_sig))
