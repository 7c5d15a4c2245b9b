-- ===== src/Provider/Bridge/Reachable.antt =====
-- The processes that the calls of the bridge lead to.
use infisical_ksp.Base.{ℕ, ◌^◌, ◌<◌, Option, none, some, ◌≡◌, inl, inr, Bytes, length}
use infisical_ksp.Base.Dict.{lookup}
use infisical_ksp.Base.Result.{Result, ok, err, Result-cases}
use infisical_ksp.Cng.Algorithm.{Padding}
use infisical_ksp.Crypto.{ecdsa, EcdsaPublicKey}
use infisical_ksp.Errors.{GoError}
use infisical_ksp.Provider.Bridge.{
  logged, buffer_of, opened_handle, go_open_provider, go_open_key, go_free_handle,
  go_signature_max_size, sign_padded, go_sign_hash, go_export_key,
}
use infisical_ksp.Provider.Bridge.Size.{go_sign_hash-size}
use infisical_ksp.Provider.Key.{
  KeyState, Object, key_state, provider_state, Process, key_by_handle, key_of_object,
  export_public_blob, sign_with, sign_hash,
}
use infisical_ksp.Provider.Open.{Host}
use infisical_ksp.Provider.Registry.{empty_registry, lookup_handle}
use infisical_ksp.Provider.Served.{
  IsServed, IsSetUp, AllServed, run_session-AllServed, free_handle-AllServed,
}
use infisical_ksp.Provider.Served.Opened.{open_key-AllServed, open_provider-AllServed}
use infisical_ksp.Provider.Status.{status_success}

-- A process begins with no handle; the other calls of the bridge do not change it.
pub data Reachable (host : Host) : Process → Type 0 where
  started : (bits : ℕ) (pr : Process) → pr.registry ≡ empty_registry bits → Reachable host pr
  opened_provider : (pr : Process) → Reachable host pr → Reachable host (go_open_provider host pr).1
  opened_key :
      (prov : ℕ) (name : Bytes) (pr : Process)
      → Reachable host pr
      → Reachable host (go_open_key host prov name pr).1
  freed_handle : (h : ℕ) (pr : Process) → Reachable host pr → Reachable host (go_free_handle h pr)
  signed :
      (h flags : ℕ) (hash_id digest : Bytes) (pr : Process)
      → Reachable host pr
      → Reachable host (go_sign_hash host h flags hash_id digest pr).1
  exported : (h : ℕ) (pr : Process) → Reachable host pr → Reachable host (go_export_key h pr).1

module _ (host : Host) where
  logged-AllServed :
      (op : Bytes) (e : GoError) (pr : Process)
      → AllServed host pr
      → AllServed host (logged op e pr)
  unfolding AllServed logged
  logged-AllServed op e pr all = all

  opened_handle-AllServed :
      (op : Bytes) (q : Result GoError ℕ × Process)
      → AllServed host q.1
      → AllServed host (opened_handle op q).1
  unfolding opened_handle
  opened_handle-AllServed op (ok h, pr) all = all
  opened_handle-AllServed op (err e, pr) all = logged-AllServed op e pr all

  buffer_of-AllServed :
      (op : Bytes) (q : Result GoError Bytes × Process)
      → AllServed host q.1
      → AllServed host (buffer_of op q).1
  unfolding buffer_of
  buffer_of-AllServed op (ok b, pr) all = all
  buffer_of-AllServed op (err e, pr) all = logged-AllServed op e pr all

  sign_with-AllServed :
      (ks : KeyState) (digest : Bytes) (alg : Result GoError Bytes) (pr : Process)
      → IsSetUp host (pr.sessions ks.prov)
      → AllServed host pr
      → AllServed host (sign_with host.env ks digest alg pr).1
  unfolding sign_with
  sign_with-AllServed ks digest (err e) pr up all = all
  sign_with-AllServed ks digest (ok alg) pr up all =
      (run_session-AllServed host ks.prov _ pr all up).0

  sign_padded-AllServed :
      (ks : KeyState) (digest : Bytes) (p : Result GoError (Padding × Bytes)) (pr : Process)
      → IsSetUp host (pr.sessions ks.prov)
      → AllServed host pr
      → AllServed host (sign_padded host ks digest p pr).1
  unfolding sign_padded sign_hash
  sign_padded-AllServed ks digest (err e) pr up all = logged-AllServed _ e pr all
  sign_padded-AllServed ks digest (ok (padding, hash_name)) pr up all =
      buffer_of-AllServed _ _ (sign_with-AllServed ks digest _ pr up all)

  key_of_object_inv :
      (o : Option Object) {ks : KeyState} → key_of_object o ≡ ok ks → o ≡ some (key_state ks)
  unfolding key_of_object
  key_of_object_inv (some (key_state ks)) h = cc
  key_of_object_inv (some (provider_state p)) h = absurd (cc)
  key_of_object_inv none h = absurd (cc)

  -- A key that a handle stands for is served.
  pub key_by_handle-IsServed :
      (h : ℕ) (pr : Process) {ks : KeyState}
      → AllServed host pr
      → key_by_handle h pr ≡ ok ks
      → IsServed host pr.sessions (key_state ks)
  unfolding AllServed key_by_handle
  key_by_handle-IsServed h pr {ks} all e = all h (key_state ks) (key_of_object_inv _ e)

  go_sign_hash-AllServed :
      (h flags : ℕ) (hash_id digest : Bytes) (pr : Process)
      → AllServed host pr
      → AllServed host (go_sign_hash host h flags hash_id digest pr).1
  unfolding go_sign_hash
  go_sign_hash-AllServed h flags hash_id digest pr all = elim (Result-cases (key_by_handle h pr)) [
    | inl (e, q) ↦ rw (go_sign_hash, q) all
    | inr (ks, q) ↦
        let served = key_by_handle-IsServed h pr all q in
        rw (go_sign_hash, q) (sign_padded-AllServed ks digest _ pr served.session all)
  ]

  go_export_key-AllServed :
      (h : ℕ) (pr : Process) → AllServed host pr → AllServed host (go_export_key h pr).1
  unfolding go_export_key
  go_export_key-AllServed h pr all = elim (Result-cases (key_by_handle h pr)) [
    | inl (e, q) ↦ rw (go_export_key, q) all
    | inr (ks, q) ↦ rw (go_export_key, q) (buffer_of-AllServed _ (export_public_blob ks, pr) all)
  ]

  nothing_registered :
      (bits : ℕ) (pr : Process) → pr.registry ≡ empty_registry bits → AllServed host pr
  unfolding AllServed lookup_handle lookup
  nothing_registered bits pr e h o found = absurd (let q = rw e at found in cc)

  -- In every process that calls of the bridge lead to, each handle stands for a provider or key
  -- whose session has a configuration that passed the checks of the load and a client set up for
  -- it; a key has the type of its public key, and an ECDSA key its curve.
  pub Reachable-AllServed : {pr : Process} → Reachable host pr → AllServed host pr
  unfolding go_open_provider go_open_key go_free_handle
  Reachable-AllServed (started bits pr e) = nothing_registered bits pr e
  Reachable-AllServed (opened_provider pr r) =
      opened_handle-AllServed _ _ (open_provider-AllServed host pr (Reachable-AllServed r))
  Reachable-AllServed (opened_key prov name pr r) =
      opened_handle-AllServed _ _ (open_key-AllServed host prov name pr (Reachable-AllServed r))
  Reachable-AllServed (freed_handle h pr r) =
      free_handle-AllServed host h pr (Reachable-AllServed r)
  Reachable-AllServed (signed h flags hash_id digest pr r) =
      go_sign_hash-AllServed h flags hash_id digest pr (Reachable-AllServed r)
  Reachable-AllServed (exported h pr r) = go_export_key-AllServed h pr (Reachable-AllServed r)

-- In every process that calls of the bridge lead to, whatever signature a signing call returns with
-- success for an ECDSA key on a curve below 2 ^ 31 bits is exactly as long as the sizing call says.
pub go_sign_hash-max_size :
    (host : Host) (h flags : ℕ) (hash_id digest : Bytes) (pr : Process) (ks : KeyState)
    (p : EcdsaPublicKey) (sig : Bytes)
    → Reachable host pr
    → key_by_handle h pr ≡ ok ks
    → ks.key ≡ ecdsa p
    → p.bit_size < 2 ^ 31
    → (go_sign_hash host h flags hash_id digest pr).0 ≡ (sig, status_success)
    → go_signature_max_size h pr ≡ (length sig, status_success)
go_sign_hash-max_size host h flags hash_id digest pr ks p sig r hk hp hb =
    let served = key_by_handle-IsServed host h pr (Reachable-AllServed host r) hk in
    go_sign_hash-size host h flags hash_id digest pr ks p sig hk served.shaped hp hb
