-- ===== src/Provider/Key/Shape.antt =====
-- The state of a key agrees with its public key.
use infisical_ksp.Base.{◌≡◌}
use infisical_ksp.Cng.Algorithm.{key_rsa, key_ecdsa}
use infisical_ksp.Crypto.{rsa, ecdsa, other}
use infisical_ksp.Provider.Key.{KeyState, Object, provider_state, key_state, ProviderRef}

-- A key's type, curve and public key belong together.
abbrev pub IsShaped : KeyState → Type 0
IsShaped ks = elim ks.key [
  | rsa k ↦ ks.key_type ≡ key_rsa
  | ecdsa k ↦ (ks.key_type ≡ key_ecdsa) × (ks.curve_bits ≡ k.bit_size)
  | other t ↦ ⊥
]

abbrev pub IsShapedObject : Object → Type 0
IsShapedObject (key_state ks) = IsShaped ks
IsShapedObject (provider_state p) = Unit

-- The session that an object uses.
abbrev pub place : Object → ProviderRef
place (provider_state p) = p
place (key_state ks) = ks.prov
