-- ===== src/Cng/Algorithm/Table.antt =====
-- Each algorithm stands for one kind of request.
use infisical_ksp.Base.{
  ℕ, nat_beq, Option, none, some, ◌≡◌, refl, inl, inr, Bool-cases, arith, if◌then◌else◌, ◌==◌,
  bytes_eq, bytes_beq, bytes_beq_iff, Bytes, text, Unicode, to_upper, trim_space, is_ascii,
  upper_byte, trim_left, trim_right, is_space,
}
use infisical_ksp.Base.Result.{ok}
use infisical_ksp.Errors.{GoError}
use infisical_ksp.Cng.Algorithm.{
  KeyType, key_rsa, key_ecdsa, other_key_type, Padding, padding_none, padding_pkcs1, padding_pss,
  other_padding, switch_hash, algorithm_for, algorithm, normalised_hash, hash_from_digest_len,
  alg_rsa_pkcs1_sha256, alg_rsa_pkcs1_sha384, alg_rsa_pkcs1_sha512, alg_rsa_pss_sha256,
  alg_rsa_pss_sha384, alg_rsa_pss_sha512, alg_ecdsa_sha256, alg_ecdsa_sha384, alg_ecdsa_sha512,
}

pub record Request : Type 0 where
  pub key : KeyType
  pub padding : Padding
  pub hash : Bytes

abbrev row : KeyType → Padding → Bytes → Option Request
row k p h = some (record { key = k; padding = p; hash = h })

-- What the server does for an algorithm: the key, the padding and the hash that it names.
pub meaning : Bytes → Option Request
meaning a =
    if a == alg_rsa_pkcs1_sha256
    then row key_rsa padding_pkcs1 (text "SHA256")
    else if a == alg_rsa_pkcs1_sha384
    then row key_rsa padding_pkcs1 (text "SHA384")
    else if a == alg_rsa_pkcs1_sha512
    then row key_rsa padding_pkcs1 (text "SHA512")
    else if a == alg_rsa_pss_sha256
    then row key_rsa padding_pss (text "SHA256")
    else if a == alg_rsa_pss_sha384
    then row key_rsa padding_pss (text "SHA384")
    else if a == alg_rsa_pss_sha512
    then row key_rsa padding_pss (text "SHA512")
    else if a == alg_ecdsa_sha256
    then row key_ecdsa padding_none (text "SHA256")
    else if a == alg_ecdsa_sha384
    then row key_ecdsa padding_none (text "SHA384")
    else if a == alg_ecdsa_sha512
    then row key_ecdsa padding_none (text "SHA512")
    else none

-- The padding that counts for a key: none for ECDSA.
abbrev pub counted : KeyType → Padding → Padding
counted key_ecdsa p = padding_none
counted key_rsa p = p
counted (other_key_type k) p = p

-- The nine meanings, by evaluation.
meaning_table :
    (meaning alg_rsa_pkcs1_sha256 ≡ row key_rsa padding_pkcs1 (text "SHA256"))
    × (meaning alg_rsa_pkcs1_sha384 ≡ row key_rsa padding_pkcs1 (text "SHA384"))
    × (meaning alg_rsa_pkcs1_sha512 ≡ row key_rsa padding_pkcs1 (text "SHA512"))
    × (meaning alg_rsa_pss_sha256 ≡ row key_rsa padding_pss (text "SHA256"))
    × (meaning alg_rsa_pss_sha384 ≡ row key_rsa padding_pss (text "SHA384"))
    × (meaning alg_rsa_pss_sha512 ≡ row key_rsa padding_pss (text "SHA512"))
    × (meaning alg_ecdsa_sha256 ≡ row key_ecdsa padding_none (text "SHA256"))
    × (meaning alg_ecdsa_sha384 ≡ row key_ecdsa padding_none (text "SHA384"))
    × (meaning alg_ecdsa_sha512 ≡ row key_ecdsa padding_none (text "SHA512"))
unfolding meaning text bytes_beq
meaning_table = (refl, refl, refl, refl, refl, refl, refl, refl, refl)

switch_hash-meaning :
    (h x y z a : Bytes) (e : GoError) (k : KeyType) (p : Padding)
    → meaning x ≡ row k p (text "SHA256")
    → meaning y ≡ row k p (text "SHA384")
    → meaning z ≡ row k p (text "SHA512")
    → switch_hash h x y z e ≡ ok a
    → meaning a ≡ row k p h
unfolding switch_hash
switch_hash-meaning h x y z a e k p mx my mz r = ground (
  arith,
  bytes_beq_iff h (text "SHA256"),
  bytes_beq_iff h (text "SHA384"),
  bytes_beq_iff h (text "SHA512"),
)

algorithm_for-meaning :
    (u : Unicode) (k : KeyType) (p : Padding) (hash h : Bytes) {a : Bytes}
    → algorithm_for u k p hash h ≡ ok a
    → meaning a ≡ row k (counted k p) h
unfolding algorithm_for
algorithm_for-meaning u key_rsa padding_pkcs1 hash h r =
    let t = meaning_table in switch_hash-meaning h _ _ _ _ _ key_rsa padding_pkcs1 t.0 t.1 t.2 r
algorithm_for-meaning u key_rsa padding_pss hash h r =
    let t = meaning_table in switch_hash-meaning h _ _ _ _ _ key_rsa padding_pss t.3 t.4 t.5 r
algorithm_for-meaning u key_rsa padding_none hash h r = absurd (cc)
algorithm_for-meaning u key_rsa (other_padding p) hash h r = absurd (cc)
algorithm_for-meaning u key_ecdsa p hash h r =
    let t = meaning_table in switch_hash-meaning h _ _ _ _ _ key_ecdsa padding_none t.6 t.7 t.8 r
algorithm_for-meaning u (other_key_type k) p hash h r = absurd (cc)

-- The algorithm that is asked of the server names the key's family, the padding and the normalised
-- hash of the request, and nothing else: no request is signed under another one's algorithm.
pub algorithm-meaning :
    (u : Unicode) (k : KeyType) (p : Padding) (hash : Bytes) {a : Bytes}
    → algorithm u k p hash ≡ ok a
    → meaning a ≡ some (record { key = k; padding = counted k p; hash = normalised_hash u hash })
unfolding algorithm
algorithm-meaning u k p hash r = algorithm_for-meaning u k p hash (normalised_hash u hash) r

-- The length of the hash that a name stands for, in bytes.
pub hash_size : Bytes → ℕ
hash_size h =
    if h == text "SHA256"
    then 32
    else if h == text "SHA384"
    then 48
    else if h == text "SHA512"
    then 64
    else 0

normalised_known :
    (u : Unicode)
    → (normalised_hash u (text "SHA256") ≡ text "SHA256")
      × (normalised_hash u (text "SHA384") ≡ text "SHA384")
      × (normalised_hash u (text "SHA512") ≡ text "SHA512")
unfolding normalised_hash to_upper trim_space text is_ascii upper_byte trim_left trim_right is_space
    bytes_beq
normalised_known u = (refl, refl, refl)

hash_size_table :
    (hash_size (text "SHA256") ≡ 32)
    × (hash_size (text "SHA384") ≡ 48)
    × (hash_size (text "SHA512") ≡ 64)
unfolding hash_size text bytes_beq
hash_size_table = (refl, refl, refl)

-- A hash name that is derived from the length of a digest stands for a hash of that length.
pub hash_from_digest_len_size :
    (n : ℕ) {h : Bytes} → hash_from_digest_len n ≡ ok h → hash_size h ≡ n
unfolding hash_from_digest_len
hash_from_digest_len_size n {h} r =
    let t = hash_size_table in
    elim (Bool-cases (nat_beq n 32)) [
      | inl e ↦ let q = rw e at r in ground (arith)
      | inr e ↦ elim (Bool-cases (nat_beq n 48)) [
        | inl e' ↦ let q = rw (e, e') at r in ground arith
        | inr e' ↦ elim (Bool-cases (nat_beq n 64)) [
          | inl e'' ↦ let q = rw (e, e', e'') at r in ground arith
          | inr e'' ↦ let q = rw (e, e', e'') at r in absurd (cc)
        ]
      ]
    ]
