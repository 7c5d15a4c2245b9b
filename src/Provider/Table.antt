-- ===== src/Provider/Table.antt =====
-- The function table (cmd/ksp/bridge_windows.c): the supported entries with their output arguments.
-- A buffer is below 2 ^ 31 bytes, so that its length passes through `int` unchanged. The entries
-- that are not supported do nothing and have one definition.
pub mod Calls
pub mod Writes
use infisical_ksp.Base.{
  ℕ, ◌%◌, ◌^◌, ltb, nat_beq, Bool, true, false, not, ◌&&◌, ◌||◌, Option, none, some, List, [], ◌∷◌,
  if◌then◌else◌, ◌==◌, bytes_eq, Bytes, length,
}
use infisical_ksp.Provider.Bridge.{
  go_open_provider, go_open_key, go_free_handle, go_signature_max_size, go_sign_hash, go_export_key,
  go_get_key_property,
}
use infisical_ksp.Provider.Key.{Process}
use infisical_ksp.Provider.Open.{Host}
use infisical_ksp.Provider.Status.{status_success, status_not_supported}

-- What <bcrypt.h> and <winerror.h> define: the three blob types, and NTE_BUFFER_TOO_SMALL.
pub record Headers : Type 0 where
  pub rsa_public_blob : Bytes
  pub ecc_public_blob : Bytes
  pub public_key_blob : Bytes
  pub buffer_too_small : ℕ

-- The output arguments of a call: the size of the buffer, `none` where its pointer is NULL, and
-- whether `pcbResult` is a pointer to a DWORD.
pub record Output : Type 0 where
  pub room : Option ℕ
  pub wants_length : Bool

-- What a call returns: the status, the bytes that it writes to the buffer, from its start on, and
-- the value that it writes to `*pcbResult`.
pub record Answer : Type 0 where
  pub status : ℕ
  pub written : Bytes
  pub result : Option ℕ

abbrev pub only : ℕ → Answer
only status = record { status = status; written = []; result = none }

module _ (hdr : Headers) where
  -- `copyOut` behind the write to `*pcbResult`.
  unfoldable pub copy_to : Bytes → Option ℕ → ℕ × Bytes
  copy_to data_ none = (status_success, [])
  copy_to data_ (some cb) =
      if ltb cb (length data_ % 2 ^ 32) then (hdr.buffer_too_small, []) else (status_success, data_)

  unfoldable pub copy_out : Bytes → Output → Answer
  copy_out data_ out =
      let (status, written) = copy_to data_ out.room in
      record {
        status = status;
        written = written;
        result = if out.wants_length then some (length data_ % 2 ^ 32) else none;
      }

  -- The end of an entry, on what the Go function returned.
  unfoldable pub forward : Output → Bytes × ℕ → Answer
  forward out (buffer, status) =
      if nat_beq status status_success then copy_out buffer out else only status

  unfoldable pub ksp_get_key_property : Host → ℕ → Bytes → Output → Process → Answer × Process
  ksp_get_key_property host h_key property out pr =
      (forward out (go_get_key_property host h_key property pr), pr)

  unfoldable pub is_public_blob : Bytes → Bool
  is_public_blob blob_type =
      blob_type == hdr.rsa_public_blob
      || blob_type == hdr.ecc_public_blob
      || blob_type == hdr.public_key_blob

  unfoldable pub ksp_export_key : ℕ → Bytes → Output → Process → Answer × Process
  ksp_export_key h_key blob_type out pr =
      if is_public_blob blob_type
      then (let (r, pr') = go_export_key h_key pr in (forward out r, pr'))
      else (only status_not_supported, pr)

  -- The sizing call of `ksp_SignHash`.
  unfoldable pub size_only : Bool → ℕ × ℕ → Answer
  size_only wants_length (size, status) =
      if nat_beq status status_success
      then record {
        status = status_success;
        written = [];
        result = if wants_length then some size else none;
      }
      else only status

  -- The padding's hash and the digest come as the bytes that the pointers lead to.
  unfoldable pub ksp_sign_hash : Host → ℕ → ℕ → Bytes → Bytes → Output → Process → Answer × Process
  ksp_sign_hash host h_key flags hash_id digest out pr = elim out.room [
    | none ↦ (size_only out.wants_length (go_signature_max_size h_key pr), pr)
    | some cb ↦
        let (r, pr') = go_sign_hash host h_key flags hash_id digest pr in (forward out r, pr')
  ]

-- The handle that an entry writes is written only with success.
unfoldable pub opened_out : (ℕ × ℕ) × Process → (ℕ × Option ℕ) × Process
opened_out ((h, status), pr) =
    if nat_beq status status_success then ((status_success, some h), pr) else ((status, none), pr)

unfoldable pub ksp_open_provider : Host → Process → (ℕ × Option ℕ) × Process
ksp_open_provider host pr = opened_out (go_open_provider host pr)

unfoldable pub ksp_open_key : Host → ℕ → Bytes → Process → (ℕ × Option ℕ) × Process
ksp_open_key host h_provider name pr = opened_out (go_open_key host h_provider name pr)

unfoldable pub ksp_free : ℕ → Process → ℕ × Process
ksp_free h pr = (status_success, go_free_handle h pr)

unfoldable pub ksp_not_supported : Process → ℕ × Process
ksp_not_supported pr = (status_not_supported, pr)

unfoldable pub ksp_free_buffer : Process → ℕ × Process
ksp_free_buffer pr = (status_success, pr)
