-- ===== src/Provider/Table/Writes.antt =====
-- What the entries that hand out bytes write to the caller's buffer.
use infisical_ksp.Base.{ℕ, Bytes}
use infisical_ksp.Provider.Bridge.{go_sign_hash, go_export_key, go_get_key_property}
use infisical_ksp.Provider.Key.{Process}
use infisical_ksp.Provider.Open.{Host}
use infisical_ksp.Provider.Table.{
  Headers, Output, Answer, ksp_sign_hash, ksp_export_key, ksp_get_key_property,
}

-- A call of an entry that has an output buffer, with its other arguments.
pub data BufferCall : Type 0 where
  property_call : ℕ → Bytes → BufferCall
  export_call : ℕ → Bytes → BufferCall
  signing_call : ℕ → ℕ → Bytes → Bytes → BufferCall

module _ (hdr : Headers) (host : Host) where
  unfoldable pub entry : BufferCall → Output → Process → Answer × Process
  entry (property_call h property) = ksp_get_key_property hdr host h property
  entry (export_call h blob_type) = ksp_export_key hdr h blob_type
  entry (signing_call h flags hash_id digest) = ksp_sign_hash hdr host h flags hash_id digest

  -- The bytes that the Go function of the call hands to the entry.
  unfoldable pub handed : BufferCall → Process → Bytes
  handed (property_call h property) pr = (go_get_key_property host h property pr).0
  handed (export_call h blob_type) pr = (go_export_key h pr).0.0
  handed (signing_call h flags hash_id digest) pr =
      (go_sign_hash host h flags hash_id digest pr).0.0
