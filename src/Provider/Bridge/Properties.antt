-- ===== src/Provider/Bridge/Properties.antt =====
-- What a host learns of a key by its properties and by the sizing call agrees.
use infisical_ksp.Base.{
  ℕ, ◌+◌, ◌*◌, ◌/◌, ◌%◌, ◌^◌, ◌<◌, Option, none, some, [], ◌∷◌, ◌≡◌, refl, ap, ◌∙◌, ◌⊎◌, inl, inr,
  Bytes, text, bytes_beq, arith,
}
use infisical_ksp.Base.Binary.{uint32_le}
use infisical_ksp.Base.Result.{ok}
use infisical_ksp.Cng.Algorithm.{key_rsa, key_ecdsa}
use infisical_ksp.Crypto.{PublicKey, rsa, ecdsa, other}
use infisical_ksp.Provider.Bridge.{max_size, go_signature_max_size, go_get_key_property}
use infisical_ksp.Provider.Bridge.Reachable.{Reachable, Reachable-AllServed, key_by_handle-IsServed}
use infisical_ksp.Provider.Key.{KeyState, Process, key_by_handle, key_length_bits, algorithm_group}
use infisical_ksp.Provider.Key.Shape.{IsShaped}
use infisical_ksp.Provider.Open.{Host}
use infisical_ksp.Provider.Property.{prop_algorithm_group, prop_length, utf16z, key_property}
use infisical_ksp.Provider.Status.{status_success}

-- A little-endian DWORD.
unfoldable pub read_dword : Bytes → Option ℕ
read_dword (a ∷ b ∷ c ∷ d ∷ []) = some (a + 256 * b + 65536 * c + 16777216 * d)
read_dword _ = none

read_dword-uint32_le : (v : ℕ) → v < 2 ^ 32 → read_dword (uint32_le v) ≡ some v
unfolding read_dword uint32_le
read_dword-uint32_le v h = ap some (omega arith)

-- The algorithm groups, with the number of fields that a signature has.
abbrev pub IsFamily : Bytes → ℕ → Type 0
IsFamily family fields =
    ((family ≡ text "RSA") × (fields ≡ 1)) ⊎ ((family ≡ text "ECDSA") × (fields ≡ 2))

-- A key's Length and Algorithm Group, and that the size of its signatures is what they say.
pub record SizeFromProperties (host : Host) (h : ℕ) (pr : Process) : Type 0 where
  pub bits : ℕ
  pub family : Bytes
  pub fields : ℕ
  pub known : IsFamily family fields
  pub read_length : read_dword (go_get_key_property host h prop_length pr).0 ≡ some bits
  pub read_group :
      go_get_key_property host h prop_algorithm_group pr
      ≡ (utf16z host.utf16_from_string family, status_success)
  pub size : go_signature_max_size h pr ≡ (fields * ((bits + 7) / 8), status_success)

-- The same for a key's state.
sizes :
    (ks : KeyState)
    → IsShaped ks
    → key_length_bits ks < 2 ^ 30
    → (family : Bytes) × (fields : ℕ) × IsFamily family fields
      × (algorithm_group ks ≡ family)
      × (max_size ks % 2 ^ 32 ≡ fields * ((key_length_bits ks + 7) / 8))
unfolding algorithm_group text max_size key_length_bits
sizes ks hs hb = of_key ks.key refl
  where
    of_key :
        (k : PublicKey)
        → ks.key ≡ k
        → (family : Bytes) × (fields : ℕ) × IsFamily family fields
          × (algorithm_group ks ≡ family)
          × (max_size ks % 2 ^ 32 ≡ fields * ((key_length_bits ks + 7) / 8))
    of_key (rsa k) e =
        let t : ks.key_type ≡ key_rsa = rw e at hs in
        (
          text "RSA",
          1,
          inl (refl, refl),
          rw (algorithm_group, t) refl,
          rw (max_size, t) (omega (arith, hb)),
        )
    of_key (ecdsa k) e =
        let (t, c) : (ks.key_type ≡ key_ecdsa) × (ks.curve_bits ≡ k.bit_size) = rw e at hs in
        (
          text "ECDSA",
          2,
          inr (refl, refl),
          rw (algorithm_group, t) refl,
          rw (max_size, t) (omega (arith, hb)),
        )
    of_key (other n) e = absurd (rw e at hs)

-- In every process that calls of the bridge lead to, and for every key below 2 ^ 30 bits, a host
-- that reads the key's Length and Algorithm Group computes from them the size that the sizing call
-- gives: the bytes of the length for RSA, and twice as many for ECDSA.
pub go_signature_max_size-properties :
    (host : Host) (h : ℕ) (pr : Process) (ks : KeyState)
    → Reachable host pr
    → key_by_handle h pr ≡ ok ks
    → key_length_bits ks < 2 ^ 30
    → SizeFromProperties host h pr
unfolding go_get_key_property go_signature_max_size key_property bytes_beq text
go_signature_max_size-properties host h pr ks r hk hb =
    let served = key_by_handle-IsServed host h pr (Reachable-AllServed host r) hk in
    let (family, fields, known, group, size) = sizes ks served.shaped hb in
    record {
      bits = key_length_bits ks;
      family = family;
      fields = fields;
      known = known;
      read_length =
          rw (go_get_key_property, hk)
            (ap (λ v. read_dword (uint32_le v)) (omega (arith, hb))
              ∙ read_dword-uint32_le (key_length_bits ks) (omega (arith, hb)));
      read_group =
          rw (go_get_key_property, hk)
            (ap (λ g. (utf16z host.utf16_from_string g, status_success)) group);
      size = rw (go_signature_max_size, hk) (ap (λ n. (n, status_success)) size);
    }
