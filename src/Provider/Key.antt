-- ===== src/Provider/Key.antt =====
-- Keys behind handles (cmd/ksp/provider_windows.go, `openKey` to `algorithmGroup`). A session is
-- shared by a provider's handle and by the keys that were opened with it, so sessions stand in a
-- store, as on the heap.
pub mod Shape
use infisical_ksp.Base.{
  ℕ, ◌+◌, nat_beq, nat_eq, ◌==◌, Bool, true, false, Option, none, some, List, [], ◌∷◌, ◌++◌,
  if◌then◌else◌, Bytes, text,
}
use infisical_ksp.Base.Result.{Result, ok, err}
use infisical_ksp.Client.{Signer}
use infisical_ksp.Client.Connection.{HttpClient}
use infisical_ksp.Cng.Algorithm.{KeyType, key_rsa, key_ecdsa, other_key_type, Padding, algorithm}
use infisical_ksp.Cng.Ecdsa.{ecdsa_der_to_raw}
use infisical_ksp.Cng.PubKey.{bit_len, rsa_public_blob, ecc_public_blob}
use infisical_ksp.Config.{Config}
use infisical_ksp.Crypto.{PublicKey, rsa, ecdsa, other}
use infisical_ksp.Errors.{GoError, plain, bad_handle}
use infisical_ksp.Provider.Log.{Log}
use infisical_ksp.Provider.Registry.{Registry, register_handle, lookup_handle}
use infisical_ksp.Session.{find_signer, public_key, sign}
use infisical_ksp.Session.Defs.{Session, World, State, Env, new_session}
use infisical_ksp.Session.Monad.{M}

-- `*providerState`, by the place of its session.
abbrev pub ProviderRef : Type 0
ProviderRef = ℕ

pub record KeyState : Type 0 where
  pub prov : ProviderRef
  pub signer : Signer
  pub key : PublicKey
  pub key_type : KeyType
  pub curve_bits : ℕ

-- What the registry's values are.
pub data Object : Type 0 where
  provider_state : ProviderRef → Object
  key_state : KeyState → Object

-- A session with the configuration it was made of.
pub record SessionCell : Type 0 where
  pub cfg : Config
  pub client : HttpClient
  pub session : Session

-- `next_session` is the place of the next session: an allocation gives a place that none has.
pub record Process : Type 0 where
  pub registry : Registry Object
  pub sessions : ProviderRef → SessionCell
  pub next_session : ProviderRef
  pub world : World
  pub log : Log

abbrev pub set_session :
    ProviderRef → SessionCell → (ProviderRef → SessionCell) → ProviderRef → SessionCell
set_session p c sessions q = if nat_beq q p then c else sessions q

-- The end of `openProvider`: a new session, and the handle of its provider.
unfoldable pub new_provider : Config → HttpClient → Process → ℕ × Process
new_provider cfg client pr =
    let p = pr.next_session in
    let (h, reg) = register_handle (provider_state p) pr.registry in
    (
      h,
      record pr {
        registry = reg;
        next_session = p + 1;
        sessions =
            set_session p (record { cfg = cfg; client = client; session = new_session })
              pr.sessions;
      },
    )

-- A method of the session at a place.
unfoldable pub run_session :
    {A : Type 0} → ProviderRef → (Config → M A) → Process → Result GoError A × Process
run_session p m pr =
    let cell = pr.sessions p in
    let (r, st) = m cell.cfg (record { session = cell.session; world = pr.world }) in
    (
      r,
      record pr {
        sessions = set_session p (record cell { session = st.session }) pr.sessions;
        world = st.world;
      },
    )

-- The key's state for the type of the public key. The name of another type (`%T`) is Go's.
unfoldable pub key_state_for : ProviderRef → Signer → PublicKey → Result GoError KeyState
key_state_for p sg (rsa k) =
    ok (record { prov = p; signer = sg; key = rsa k; key_type = key_rsa; curve_bits = 0 })
key_state_for p sg (ecdsa k) =
    ok (record {
      prov = p;
      signer = sg;
      key = ecdsa k;
      key_type = key_ecdsa;
      curve_bits = k.bit_size;
    })
key_state_for p sg (other t) = err (plain (text "unsupported key type " ++ t))

unfoldable pub register_key : Result GoError KeyState → Process → Result GoError ℕ × Process
register_key (err e) pr = (err e, pr)
register_key (ok ks) pr =
    let (h, reg) = register_handle (key_state ks) pr.registry in
    (ok h, record pr { registry = reg })

module _ (env : Env) where
  -- `openKey` behind each of its calls, on the call's result.
  unfoldable pub open_with_key :
      ProviderRef → Signer → Result GoError PublicKey × Process → Result GoError ℕ × Process
  open_with_key p sg (err e, pr) = (err e, pr)
  open_with_key p sg (ok k, pr) = register_key (key_state_for p sg k) pr

  unfoldable pub open_with_signer :
      ProviderRef → Result GoError Signer × Process → Result GoError ℕ × Process
  open_with_signer p (err e, pr) = (err e, pr)
  open_with_signer p (ok sg, pr) =
      open_with_key p sg (run_session p (λ cfg. public_key env cfg sg.id) pr)

  unfoldable pub open_with_object : Option Object → Bytes → Process → Result GoError ℕ × Process
  open_with_object (some (provider_state p)) name pr =
      open_with_signer p (run_session p (λ cfg. find_signer env cfg name) pr)
  open_with_object (some (key_state ks)) name pr = (err bad_handle, pr)
  open_with_object none name pr = (err bad_handle, pr)

  -- `openKey`
  unfoldable pub open_key : ℕ → Bytes → Process → Result GoError ℕ × Process
  open_key prov_handle name pr = open_with_object (lookup_handle prov_handle pr.registry) name pr

  -- `signHash` behind the call of `Sign`.
  unfoldable pub reshape : KeyState → Result GoError Bytes → Result GoError Bytes
  reshape ks (err e) = err e
  reshape ks (ok sig) = elim ks.key_type [
    | key_ecdsa ↦ ecdsa_der_to_raw sig ks.curve_bits
    | key_rsa ↦ ok sig
    | other_key_type k ↦ ok sig
  ]

  unfoldable pub sign_with :
      KeyState → Bytes → Result GoError Bytes → Process → Result GoError Bytes × Process
  sign_with ks digest (err e) pr = (err e, pr)
  sign_with ks digest (ok alg) pr =
      let (r, pr') = run_session ks.prov (λ cfg. sign env cfg ks.signer.id alg digest) pr in
      (reshape ks r, pr')

  -- `signHash`
  unfoldable pub sign_hash :
      KeyState → Padding → Bytes → Bytes → Process → Result GoError Bytes × Process
  sign_hash ks padding hash_name digest pr =
      sign_with ks digest (algorithm env.os.unicode ks.key_type padding hash_name) pr

unfoldable pub key_of_object : Option Object → Result GoError KeyState
key_of_object (some (key_state ks)) = ok ks
key_of_object (some (provider_state p)) = err bad_handle
key_of_object none = err bad_handle

unfoldable pub key_by_handle : ℕ → Process → Result GoError KeyState
key_by_handle h pr = key_of_object (lookup_handle h pr.registry)

unfoldable pub export_public_blob : KeyState → Result GoError Bytes
export_public_blob ks = elim ks.key [
  | rsa k ↦ ok (rsa_public_blob k)
  | ecdsa k ↦ ecc_public_blob k
  | other t ↦ err (plain (text "unsupported key type " ++ t))
]

unfoldable pub key_length_bits : KeyState → ℕ
key_length_bits ks = elim ks.key [ rsa k ↦ bit_len k.n | ecdsa k ↦ k.bit_size | other t ↦ 0 ]

unfoldable pub algorithm_group : KeyState → Bytes
algorithm_group ks = elim ks.key_type [
  | key_rsa ↦ text "RSA"
  | key_ecdsa ↦ text "ECDSA"
  | other_key_type k ↦ text "ECDSA"
]
