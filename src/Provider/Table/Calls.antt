-- ===== src/Provider/Table/Calls.antt =====
-- The two-call protocol: a caller asks for the size, and calls again with a buffer of that size.
use infisical_ksp.Base.{
  ℕ, ◌%◌, ◌^◌, ◌<◌, ◌≤◌, ltb, nat_beq, true, Option, none, some, [], ◌≡◌, refl, ap, ◌∙◌, inl, inr,
  Bytes, length, arith, Bool-cases,
}
use infisical_ksp.Crypto.{ecdsa, EcdsaPublicKey}
use infisical_ksp.Provider.Bridge.{go_sign_hash}
use infisical_ksp.Provider.Bridge.Reachable.{
  Reachable, Reachable-AllServed, key_by_handle-IsServed, go_sign_hash-max_size,
}
use infisical_ksp.Provider.Bridge.Size.{length-go_sign_hash}
use infisical_ksp.Base.Result.{ok}
use infisical_ksp.Cng.Ecdsa.{coordinate_size}
use infisical_ksp.Provider.Key.{KeyState, Process, key_by_handle}
use infisical_ksp.Provider.Open.{Host}
use infisical_ksp.Provider.Status.{status_success}
use infisical_ksp.Provider.Table.{
  Headers, Output, copy_to, copy_out, forward, size_only, ksp_sign_hash,
}

-- A call that only asks for the size, and one with a buffer of a size.
abbrev pub sizing : Output
sizing = record { room = none; wants_length = true }

abbrev pub buffered : ℕ → Output
buffered n = record { room = some n; wants_length = true }

-- What is written fits the buffer; nothing is written where there is none.
abbrev pub Fits : Option ℕ → Bytes → Type 0
Fits none written = written ≡ []
Fits (some cb) written = length written ≤ cb

copy_to-Fits :
    (hdr : Headers) (s : Bytes) (room : Option ℕ)
    → length s < 2 ^ 31
    → Fits room (copy_to hdr s room).1
unfolding copy_to
copy_to-Fits hdr s none h = refl
copy_to-Fits hdr s (some cb) h = elim (Bool-cases (ltb cb (length s % 2 ^ 32))) [
  | inl small ↦ rw small (omega arith)
  | inr large ↦ rw large (ground arith)
]

-- Handing on fewer than 2 ^ 31 bytes writes nothing behind the end of the buffer, or to a NULL
-- pointer, whatever the status that comes with them.
pub forward-Fits :
    (hdr : Headers) (out : Output) (r : Bytes × ℕ)
    → length r.0 < 2 ^ 31
    → Fits out.room (forward hdr out r).written
unfolding forward copy_out
forward-Fits hdr out (s, status) h = elim (Bool-cases (nat_beq status status_success)) [
  | inl done ↦ rw done (copy_to-Fits hdr s out.room h)
  | inr failed ↦ rw failed (nothing out.room)
]
  where
    nothing : (room : Option ℕ) → Fits room []
    nothing none = refl
    nothing (some cb) = omega arith

-- A buffer of the size that a sizing call gives takes all the data.
forward_sized :
    (hdr : Headers) (s : Bytes) (n : ℕ)
    → length s < 2 ^ 31
    → n ≡ length s
    → forward hdr (buffered n) (s, status_success)
      ≡ record { status = status_success; written = s; result = some n }
unfolding forward copy_out copy_to
forward_sized hdr s n h e = ground arith

-- In every process that calls of the bridge lead to, and for an ECDSA key on a curve below 2 ^ 30
-- bits: the sizing call of SignHash succeeds, gives a size, and changes nothing; and a call with a
-- buffer of that size gets the whole signature wherever one is made, so it is never too small.
pub ksp_sign_hash_two_calls :
    (hdr : Headers) (host : Host) (h flags : ℕ) (hash_id digest : Bytes) (pr : Process)
    (ks : KeyState) (p : EcdsaPublicKey) (sig : Bytes)
    → Reachable host pr
    → key_by_handle h pr ≡ ok ks
    → ks.key ≡ ecdsa p
    → p.bit_size < 2 ^ 30
    → (go_sign_hash host h flags hash_id digest pr).0 ≡ (sig, status_success)
    → (ksp_sign_hash hdr host h flags hash_id digest sizing pr
        ≡ (record { status = status_success; written = []; result = some (length sig) }, pr))
      × ((ksp_sign_hash hdr host h flags hash_id digest (buffered (length sig)) pr).0
          ≡ record { status = status_success; written = sig; result = some (length sig) })
unfolding ksp_sign_hash size_only coordinate_size
ksp_sign_hash_two_calls hdr host h flags hash_id digest pr ks p sig r hk hp hb hs =
    let served = key_by_handle-IsServed host h pr (Reachable-AllServed host r) hk in
    let size =
      go_sign_hash-max_size host h flags hash_id digest pr ks p sig r hk hp (omega arith) hs in
    let len = length-go_sign_hash host h flags hash_id digest pr ks p sig hk served.shaped hp hs in
    let small : length sig < 2 ^ 31 = omega (arith, len) in
    (
      rw size refl,
      ap (forward hdr (buffered (length sig))) hs ∙ forward_sized hdr sig (length sig) small refl,
    )
