-- ===== src/Cng/PubKey/Blob.antt =====
-- A reader of the blobs, and that it gives the key back.
use infisical_ksp.Base.{
  ℕ, ◌+◌, ◌*◌, ◌/◌, ◌%◌, ◌^◌, ◌<◌, Option, none, some, [], ◌∷◌, ◌++◌, append-nil, ◌≡◌, refl, sym,
  ap, ◌∙◌, Bytes, length, take, drop, take_left, drop_left, arith,
}
use infisical_ksp.Base.Binary.{uint32_le, be_bytes, of_bytes, of_bytes-be_bytes}
use infisical_ksp.Base.Result.{ok}
use infisical_ksp.Cng.PubKey.{
  magic_rsa_public, rsa_public_blob, bit_len, ecc_public_blob, ecc_blob_with, curve_magic,
}
use infisical_ksp.Crypto.{RsaPublicKey, EcdsaPublicKey}

-- What a reader of a BCRYPT_RSAKEY_BLOB finds: the magic, the bit length, and the bytes of the
-- exponent and of the modulus, of the lengths that the header states.
pub record RsaBlob : Type 0 where
  pub magic : ℕ
  pub bits : ℕ
  pub exponent : Bytes
  pub modulus : Bytes
  pub behind : Bytes

-- The little-endian number in four bytes.
abbrev ulong : ℕ → ℕ → ℕ → ℕ → ℕ
ulong a b c d = a + 256 * b + 65536 * c + 16777216 * d

unfoldable pub read_rsa_blob : Bytes → Option RsaBlob
read_rsa_blob
      (m0 ∷ m1 ∷ m2 ∷ m3 ∷ b0 ∷ b1 ∷ b2 ∷ b3 ∷ e0 ∷ e1 ∷ e2 ∷ e3 ∷ n0 ∷ n1 ∷ n2 ∷ n3 ∷ p0 ∷ p1 ∷ p2
        ∷ p3 ∷ q0 ∷ q1 ∷ q2 ∷ q3 ∷ body) =
    let cb_exp = ulong e0 e1 e2 e3 in
    let cb_mod = ulong n0 n1 n2 n3 in
    some (record {
      magic = ulong m0 m1 m2 m3;
      bits = ulong b0 b1 b2 b3;
      exponent = take cb_exp body;
      modulus = take cb_mod (drop cb_exp body);
      behind = drop cb_mod (drop cb_exp body);
    })
read_rsa_blob _ = none

abbrev ulong_of : ℕ → ℕ
ulong_of v = ulong (v % 256) (v / 256 % 256) (v / 65536 % 256) (v / 16777216 % 256)

ulong_of_small : (v : ℕ) → v < 2 ^ 32 → ulong_of v ≡ v
ulong_of_small v h = omega arith

take_all : {n : ℕ} (s : Bytes) → n ≡ length s → take n s ≡ s
take_all s h = rw h (sym (ap (take (length s)) (append-nil s)) ∙ take_left s [])

drop_all : {n : ℕ} (s : Bytes) → n ≡ length s → drop n s ≡ []
drop_all s h = rw h (sym (ap (drop (length s)) (append-nil s)) ∙ drop_left s [])

drop_front : {n : ℕ} (s t : Bytes) → n ≡ length s → drop n (s ++ t) ≡ t
drop_front s t h = rw h (drop_left s t)

take_front : {n : ℕ} (s t : Bytes) → n ≡ length s → take n (s ++ t) ≡ s
take_front s t h = rw h (take_left s t)

-- A reader of an exported RSA blob finds the RSA1 magic, the key's size in bits, and its exponent
-- and its modulus as the big-endian bytes between which the header's lengths divide the rest, with
-- nothing behind them; the conditions are that the lengths fit 32 bits.
pub read_rsa_blob-rsa_public_blob :
    (key : RsaPublicKey)
    → bit_len key.n < 2 ^ 32
    → length (be_bytes key.e) < 2 ^ 32
    → length (be_bytes key.n) < 2 ^ 32
    → (b : RsaBlob) × (read_rsa_blob (rsa_public_blob key) ≡ some b)
      × (b.magic ≡ magic_rsa_public)
      × (b.bits ≡ bit_len key.n)
      × (of_bytes b.exponent ≡ key.e)
      × (of_bytes b.modulus ≡ key.n)
      × (b.behind ≡ [])
unfolding read_rsa_blob rsa_public_blob uint32_le
read_rsa_blob-rsa_public_blob key hb he hn =
    let exp = be_bytes key.e in
    let modulus = be_bytes key.n in
    let cb_exp = ulong_of_small (length exp) he in
    let cb_mod = ulong_of_small (length modulus) hn in
    let tail = drop_front exp modulus cb_exp in
    (
      _,
      refl,
      refl,
      ulong_of_small (bit_len key.n) hb,
      ap of_bytes (take_front exp modulus cb_exp) ∙ of_bytes-be_bytes key.e,
      ap of_bytes (ap (take (ulong_of (length modulus))) tail ∙ take_all modulus cb_mod)
          ∙ of_bytes-be_bytes key.n,
      ap (drop (ulong_of (length modulus))) tail ∙ drop_all modulus cb_mod,
    )

-- A reader of a BCRYPT_ECCKEY_BLOB: the magic, and the two coordinates of the stated size.
unfoldable pub read_ecc_blob : Bytes → Option (ℕ × (Bytes × Bytes))
read_ecc_blob (m0 ∷ m1 ∷ m2 ∷ m3 ∷ k0 ∷ k1 ∷ k2 ∷ k3 ∷ body) =
    let cb_key = ulong k0 k1 k2 k3 in some (ulong m0 m1 m2 m3, (take cb_key body, drop cb_key body))
read_ecc_blob _ = none

read_back :
    (magic cb : ℕ) (x y : Bytes)
    → magic < 2 ^ 32
    → cb < 2 ^ 32
    → length x ≡ cb
    → read_ecc_blob (uint32_le magic ++ (uint32_le cb ++ (x ++ y))) ≡ some (magic, (x, y))
unfolding read_ecc_blob uint32_le
read_back magic cb x y hm hc hx =
    let size = ulong_of_small cb hc ∙ sym hx in
    rw (ulong_of_small magic hm, take_front x y size, drop_front x y size)

small_curve :
    (bits : ℕ) {magic : ℕ}
    → curve_magic bits ≡ some magic
    → (magic < 2 ^ 32) × ((bits + 7) / 8 < 2 ^ 32)
unfolding curve_magic
small_curve bits h = (ground arith, ground arith)

-- For a curve that has a magic, and a key whose point is one byte and two coordinates of the
-- curve's size, the export succeeds, and a reader of the blob finds that magic and the coordinates.
pub read_ecc_blob-ecc_public_blob :
    (key : EcdsaPublicKey) (magic c : ℕ) (x y : Bytes)
    → curve_magic key.bit_size ≡ some magic
    → key.bytes ≡ ok (c ∷ (x ++ y))
    → length x ≡ (key.bit_size + 7) / 8
    → (blob : Bytes) × (ecc_public_blob key ≡ ok blob) × (read_ecc_blob blob ≡ some (magic, (x, y)))
unfolding ecc_public_blob uint32_le
read_ecc_blob-ecc_public_blob key magic c x y hm hk hx =
    let small = small_curve key.bit_size hm in
    (
      _,
      rw (hm, hk, ecc_public_blob) (unfold ecc_blob_with in refl),
      read_back magic ((key.bit_size + 7) / 8) x y small.0 small.1 hx,
    )
